-- ===== src/Vida/Caminos/Minimos.antt =====
-- `mete` and the rounds of the loop keep the distances right.
use mathlib.Core.List.{Permᴰ}
use mathlib.Core.List.Permᴰ
use mathlib.Core.Option.{some-injective}
use rami_ledger.Prelude.{
  ℕ, ◌+◌, ◌≡◌, refl, sym, ◌∙◌, ap, subst, inl, inr, some, List, [], ◌∷◌, arith, ◌==◌, ==_iff,
  Bool-cases, All-append, All-map, All-Permᴰ,
}
use rami_ledger.Vida.Caminos.{
  Grafo, Pie, Monton, saca, Previo, arista, Arbol, pone, no_mejora, apunta, mete, otro, relaja,
}
use rami_ledger.Vida.Caminos.Monton.{saca-Permᴰ}
use rami_ledger.Vida.Caminos.Pasos.{
  Has, Has-Permᴰ, Has-left, Has-last, Reaches, Camino, paso, Relaxed, Steady, Better, better_lem,
  worse_lem, pone_here, pone-Reaches, pushed-Permᴰ,
}

module _ (nd dd : ℕ) (pe : Previo) (t : Arbol) where
  -- No distance grows.
  pub mete-Reaches : (m k : ℕ) → Reaches t.dist m k → Reaches (mete nd dd pe t).dist m k
  mete-Reaches m k r = elim (Bool-cases (no_mejora (t.dist nd) dd)) [
    | inl e ↦ rw e r
    | inr e ↦ rw e (pone-Reaches nd dd pe t (better_lem (t.dist nd) dd e) m k r)
  ]

  pub mete_here : Reaches (mete nd dd pe t).dist nd dd
  mete_here = elim (Bool-cases (no_mejora (t.dist nd) dd)) [
    | inl e ↦ rw e (worse_lem (t.dist nd) dd e)
    | inr e ↦ rw e (dd, (pone_here nd dd pe t, omega arith))
  ]

  module _ (z : Grafo) (ac : Pie) (X : ℕ → ℕ → Type 0) where
    apunta-Steady :
        Better (t.dist nd) dd
        → Camino z ac nd dd
        → Steady z ac X t
        → Steady z ac X (apunta nd dd pe t)
    apunta-Steady b way s =
        let grows = pone-Reaches nd dd pe t b in
        let pushed = Permᴰ.symm (pushed-Permᴰ nd dd pe t) in
        let here = pone_here nd dd pe t in
        record {
          sound = λ n d e. elim (Bool-cases (nd == n)) [
            | inl same ↦
                let at = (==_iff nd n).0 same in
                let len = some-injective _ _ (sym here ∙ ap (pone t.dist nd (some dd)) at ∙ e) in
                subst (λ k. Camino z ac k d) at (subst (Camino z ac nd) len way)
            | inr other ↦ s.sound n d (rw other at e)
          ];
          heap = All-Permᴰ _ pushed (
              All-append _ t.monton ((dd, nd) ∷ [])
                (All-map (λ q r. grows q.1 q.0 r) t.monton s.heap) ((dd, (here, omega arith)), tt));
          ready = λ n d e. elim (Bool-cases (nd == n)) [
            | inl same ↦
                let at = (==_iff nd n).0 same in
                let len = some-injective _ _ (sym here ∙ ap (pone t.dist nd (some dd)) at ∙ e) in
                let last = Has-Permᴰ (dd, nd) pushed (Has-last t.monton (dd, nd)) in
                inl (
                  subst (λ (q : ℕ × ℕ). Has q (apunta nd dd pe t).monton) (λ i. (len i, at i)) last)
            | inr other ↦ elim (s.ready n d (rw other at e)) [
              | inl h ↦ inl (Has-Permᴰ (d, n) pushed (Has-left (d, n) t.monton ((dd, nd) ∷ []) h))
              | inr (inl r) ↦ inr (inl (λ i h. grows _ _ (r i h)))
              | inr (inr x) ↦ inr (inr x)
            ]
          ];
        }

    pub mete-Steady : Camino z ac nd dd → Steady z ac X t → Steady z ac X (mete nd dd pe t)
    mete-Steady way s = elim (Bool-cases (no_mejora (t.dist nd) dd)) [
      | inl e ↦ rw e s
      | inr e ↦ rw e (apunta-Steady (better_lem (t.dist nd) dd e) way s)
    ]

module _ (z : Grafo) (ac : Pie) where
  -- The pair of a node and its distance, which a round excuses.
  abbrev pub This : ℕ → ℕ → ℕ → ℕ → Type 0
  This nd dk n d = (n ≡ nd) × (d ≡ dk)

  pub relaja-Reaches :
      (nd dk : ℕ) (is : List ℕ) (t : Arbol) (m k : ℕ)
      → Reaches t.dist m k
      → Reaches (relaja z nd dk is t).dist m k
  relaja-Reaches nd dk [] t m k r = r
  relaja-Reaches nd dk (i ∷ is) t m k r =
      relaja-Reaches nd dk is _ m k
        (mete-Reaches (otro (z.aristas i) nd) (dk + (z.aristas i).peso) (arista i) t m k r)

  pub relaja_done :
      (nd dk : ℕ) (is : List ℕ) (t : Arbol) (i : ℕ)
      → Has i is
      → Reaches (relaja z nd dk is t).dist (otro (z.aristas i) nd) (dk + (z.aristas i).peso)
  relaja_done nd dk [] t i h = elim h [ ]
  relaja_done nd dk (j ∷ is) t i (inl e) = relaja-Reaches nd dk is _ _ _ (
      subst
        (λ (q : ℕ).
          Reaches (mete (otro (z.aristas j) nd) (dk + (z.aristas j).peso) (arista j) t).dist
            (otro (z.aristas q) nd) (dk + (z.aristas q).peso))
        (sym e) (mete_here (otro (z.aristas j) nd) (dk + (z.aristas j).peso) (arista j) t))
  relaja_done nd dk (j ∷ is) t i (inr h) = relaja_done nd dk is _ i h

  pub relaja-Steady :
      (X : ℕ → ℕ → Type 0) (nd dk : ℕ) (is : List ℕ) (t : Arbol)
      → ((i : ℕ) → Has i is → Has i (z.adj nd))
      → Camino z ac nd dk
      → Steady z ac X t
      → Steady z ac X (relaja z nd dk is t)
  relaja-Steady X nd dk [] t sub way s = s
  relaja-Steady X nd dk (i ∷ is) t sub way s =
      relaja-Steady X nd dk is _ (λ j h. sub j (inr h)) way
        (mete-Steady (otro (z.aristas i) nd) (dk + (z.aristas i).peso) (arista i) t z ac X
          (paso i (sub i (inl refl)) way) s)

  abbrev pub NoOne : ℕ → ℕ → Type 0
  NoOne n d = ⊥

  pub all_ready :
      (X : ℕ → ℕ → Type 0) (t : Arbol)
      → ((n d : ℕ) → t.dist n ≡ some d → X n d → Relaxed z ac t.dist n d)
      → Steady z ac X t
      → Steady z ac NoOne t
  all_ready X t f s = record {
    sound = s.sound;
    heap = s.heap;
    ready = λ n d e. elim (s.ready n d e) [
      | inl h ↦ inl h
      | inr (inl r) ↦ inr (inl r)
      | inr (inr x) ↦ inr (inl (f n d e x))
    ];
  }

  -- The state without the first of the heap, which is excused.
  abbrev pub popped : (t : Arbol) → Arbol
  popped t = record { dist = t.dist; prev = t.prev; monton = saca t.monton }

  pub popped-Steady :
      (t : Arbol) (p : ℕ × ℕ) (rest : Monton)
      → t.monton ≡ p ∷ rest
      → Steady z ac NoOne t
      → Steady z ac (This p.1 p.0) (popped t)
  popped-Steady t p rest e s =
      let left : Permᴰ rest (saca t.monton) = rw e (Permᴰ.symm (saca-Permᴰ p rest)) in
      record {
        sound = s.sound;
        heap = All-Permᴰ _ left (rw e at s.heap).1;
        ready = λ n d at_n. elim (rw e at (s.ready n d at_n)) [
          | inl (inl q) ↦ inr (inr (ap (λ (x : ℕ × ℕ). x.1) q, ap (λ (x : ℕ × ℕ). x.0) q))
          | inl (inr h) ↦ inl (Has-Permᴰ (d, n) left h)
          | inr (inl r) ↦ inr (inl r)
          | inr (inr x) ↦ elim x [ ]
        ];
      }
