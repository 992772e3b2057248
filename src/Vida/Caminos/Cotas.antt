-- ===== src/Vida/Caminos/Cotas.antt =====
-- A number that every round of the loop makes less.
use mathlib.Core.Option.{some-injective}
use rami_ledger.Prelude.{
  ℕ, zero, suc, ◌+◌, ◌≤◌, ◌<◌, ◌≡◌, ◌≢◌, refl, sym, ◌∙◌, ap, inl, inr, false, Option, none, some,
  List, [], ◌∷◌, arith, ◌==◌, ==_iff, Bool-cases, length, length-append, length-Permᴰ,
}
use rami_ledger.Vida.Caminos.{
  Grafo, Monton, saca, Previo, arista, Arbol, pone, no_mejora, apunta, mete, otro, relaja, es_viejo,
  vuelta,
}
use rami_ledger.Vida.Caminos.Monton.{saca-Permᴰ}
use rami_ledger.Vida.Caminos.Pasos.{Has, Better, better_lem, pushed-Permᴰ}

differ : (m n : ℕ) → (m == n) ≡ false → m ≢ n
differ m n e c = ground arith

differs : (m n : ℕ) → m ≢ n → (m == n) ≡ false
differs m n ne = ground arith

-- The sum of `g` over the first `n` numbers.
abbrev pub total : (ℕ → ℕ) → ℕ → ℕ
total g zero = 0
total g (suc n) = total g n + g n

total_same : (g h : ℕ → ℕ) (n : ℕ) → ((k : ℕ) → k < n → g k ≡ h k) → total g n ≡ total h n
total_same g h zero e = refl
total_same g h (suc n) e =
    omega (arith, total_same g h n (λ k lt. e k (omega arith)), e n (omega arith))

-- Sums that differ in one place.
total_swap :
    (g h : ℕ → ℕ) (n m : ℕ)
    → m < n
    → ((k : ℕ) → m ≢ k → g k ≡ h k)
    → total h n + g m ≡ total g n + h m
total_swap g h zero m lt e = absurd (omega arith)
total_swap g h (suc n) m lt e = elim (Bool-cases (m == n)) [
  | inl same ↦
      let at = (==_iff m n).0 same in
      omega (arith, ap g at, ap h at, total_same g h n (λ k less. e k (λ c. absurd (omega arith))))
  | inr other ↦
      let ne = differ m n other in omega (arith, total_swap g h n m (omega arith) e, e n ne)
]

abbrev weight : ℕ → Option ℕ → ℕ
weight far none = suc far
weight far (some d) = d

abbrev one : Option ℕ → ℕ
one none = 0
one (some d) = 1

one_le : (o : Option ℕ) → one o ≤ 1
one_le none = omega arith
one_le (some d) = omega arith

count_le : (f : ℕ → Option ℕ) (n : ℕ) → total (λ k. one (f k)) n ≤ n
count_le f zero = omega arith
count_le f (suc n) = omega (arith, count_le f n, one_le (f n))

-- `cap c` bounds the distances when `c` of the `n` nodes are reached, and `w` the weights.
module _ (n w : ℕ) (cap : ℕ → ℕ) (step : (c : ℕ) → cap c + w ≤ cap (suc c))
    (mono : (b c : ℕ) → b ≤ c → cap b ≤ cap c) where
  abbrev pub reached : Arbol → ℕ
  reached t = total (λ k. one (t.dist k)) n

  abbrev pub left : Arbol → ℕ
  left t = total (λ k. weight (cap n) (t.dist k)) n

  pub record Capped (t : Arbol) : Type 0 where
    pub at : (k d : ℕ) → t.dist k ≡ some d → d ≤ cap (reached t)

  -- What a step does: it reaches no fewer nodes, and uses up what it pushes.
  pub record Spends (t u : Arbol) : Type 0 where
    pub capped : Capped u
    pub more : reached t ≤ reached u
    pub spent : left u + left u + length u.monton ≤ left t + left t + length t.monton

  module _ (nd dd : ℕ) (pe : Previo) (t : Arbol) (inside : nd < n) where
    abbrev u : Arbol
    u = apunta nd dd pe t

    elsewhere : (k : ℕ) → nd ≢ k → t.dist k ≡ pone t.dist nd (some dd) k
    elsewhere k ne = rw (differs nd k ne) refl

    here : pone t.dist nd (some dd) nd ≡ some dd
    here = rw ((==_iff nd nd).1 refl) refl

    pushed : length u.monton ≡ suc (length t.monton)
    pushed =
        length-Permᴰ (pushed-Permᴰ nd dd pe t)
        ∙ omega (arith, length-append t.monton ((dd, nd) ∷ []))

    reached_u : reached u + one (t.dist nd) ≡ reached t + 1
    reached_u =
        total_swap (λ k. one (t.dist k)) (λ k. one (u.dist k)) n nd inside
          (λ k ne. ap one (elsewhere k ne))
        ∙ ap (λ (o : Option ℕ). reached t + one o) here

    left_u : left u + weight (cap n) (t.dist nd) ≡ left t + dd
    left_u =
        total_swap (λ k. weight (cap n) (t.dist k)) (λ k. weight (cap n) (u.dist k)) n nd inside
          (λ k ne. ap (weight (cap n)) (elsewhere k ne))
        ∙ ap (λ (o : Option ℕ). left t + weight (cap n) o) here

    -- How a push changes the sums.
    spends_at :
        (o : Option ℕ)
        → t.dist nd ≡ o
        → Better (t.dist nd) dd
        → Capped t
        → dd ≤ cap (reached t) + w
        → (dd ≤ cap (reached u)) × ((reached t ≤ reached u) × (suc (left u) ≤ left t))
    unfolding Better
    spends_at none e b c le =
        let more = rw e at reached_u in
        let less = rw e at left_u in
        let room = step (reached t) in
        let same = ap cap {x = suc (reached t)} {y = reached u} (omega arith) in
        let all = mono (reached u) n (count_le u.dist n) in
        (omega arith, (omega arith, omega arith))
    spends_at (some d) e b c le =
        let more = rw e at reached_u in
        let less = rw e at left_u in
        let lt = b d e in
        let top = c.at nd d e in
        let same = ap cap {x = reached t} {y = reached u} (omega arith) in
        (omega arith, (omega arith, omega arith))

    apunta-Spends : Better (t.dist nd) dd → Capped t → dd ≤ cap (reached t) + w → Spends t u
    apunta-Spends b c le =
        let (top, (more, less)) = spends_at (t.dist nd) refl b c le in
        let up = mono (reached t) (reached u) more in
        let one_more = pushed in
        record {
          capped = record {
            at = λ k d e. elim (Bool-cases (nd == k)) [
              | inl same ↦
                  let at_k = ap (pone t.dist nd (some dd)) ((==_iff nd k).0 same) in
                  let is = some-injective _ _ (sym here ∙ at_k ∙ e) in omega arith
              | inr other ↦ let old = c.at k d (rw other at e) in omega arith
            ];
          };
          more = more;
          spent = omega arith;
        }

    pub mete-Spends : Capped t → dd ≤ cap (reached t) + w → Spends t (mete nd dd pe t)
    mete-Spends c le = elim (Bool-cases (no_mejora (t.dist nd) dd)) [
      | inl e ↦ rw e (record { capped = c; more = omega arith; spent = omega arith })
      | inr e ↦ rw e (apunta-Spends (better_lem (t.dist nd) dd e) c le)
    ]

  pub trans-Spends : {t u v : Arbol} → Spends t u → Spends u v → Spends t v
  trans-Spends h k =
      let hm = h.more in
      let km = k.more in
      let hs = h.spent in
      let ks = k.spent in record { capped = k.capped; more = omega arith; spent = omega arith }

  module _ (z : Grafo)
      (edges : (m i : ℕ)
        → Has i (z.adj m)
        → (otro (z.aristas i) m < n) × ((z.aristas i).peso ≤ w)) where
    relaja-Spends :
        (nd dk : ℕ) (is : List ℕ) (t : Arbol)
        → ((i : ℕ) → Has i is → Has i (z.adj nd))
        → Capped t
        → dk ≤ cap (reached t)
        → Spends t (relaja z nd dk is t)
    relaja-Spends nd dk [] t sub c le = record {
      capped = c;
      more = omega arith;
      spent = omega arith;
    }
    relaja-Spends nd dk (i ∷ is) t sub c le =
        let (inside, light) = edges nd i (sub i (inl refl)) in
        let first =
          mete-Spends (otro (z.aristas i) nd) (dk + (z.aristas i).peso) (arista i) t inside c
            (omega arith) in
        let more = first.more in
        let u = mete (otro (z.aristas i) nd) (dk + (z.aristas i).peso) (arista i) t in
        let up = mono (reached t) (reached u) more in
        trans-Spends first
          (relaja-Spends nd dk is u (λ j h. sub j (inr h)) first.capped (omega arith))

    -- A round of the loop makes the number less.
    pub vuelta-Spends :
        (t : Arbol) (p : ℕ × ℕ) (rest : Monton)
        → t.monton ≡ p ∷ rest
        → Capped t
        → (es_viejo z p.0 (t.dist p.1) ≡ false → t.dist p.1 ≡ some p.0)
        → Capped (vuelta z p t)
          × (suc (left (vuelta z p t) + left (vuelta z p t) + length (vuelta z p t).monton)
              ≤ left t + left t + length t.monton)
    vuelta-Spends t p rest e c now =
        let shorter : length (saca t.monton) ≡ length rest =
          rw e (length-Permᴰ (saca-Permᴰ p rest)) in
        let all = ap length e in
        elim (Bool-cases (es_viejo z p.0 (t.dist p.1))) [
          | inl old ↦ rw old (record { at = c.at }, omega arith)
          | inr new ↦
              let s =
                relaja-Spends p.1 p.0 (z.adj p.1)
                  (record { dist = t.dist; prev = t.prev; monton = saca t.monton }) (λ i h. h)
                  (record { at = c.at }) (c.at p.1 p.0 (now new)) in
              let used = s.spent in rw new (s.capped, omega arith)
        ]
