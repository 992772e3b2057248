-- ===== src/Vida/Empleo/Plazas.antt =====
-- Whom `recluta` hires.
use mathlib.Core.List.{Permᴰ, append_assoc}
use mathlib.Core.List.Permᴰ
use rami_ledger.Prelude.{
  ℕ, zero, suc, ◌+◌, ◌-◌, ◌<◌, ◌≤◌, min, ◌≡◌, refl, sym, ◌∙◌, ap, subst, ◌⊎◌, inl, inr, Bool, true,
  false, List, [], ◌∷◌, ◌++◌, arith, ltb, ltb→lt, ◌==◌, ◌||◌, if◌then◌else◌, Bool-cases, All,
  All-append, length, take, drop, take-append-drop, length-append, length-take, All-map, All-Permᴰ,
  length-Permᴰ, IsOrdered, IsOrder, sort, sort-Permᴰ, sort-IsOrdered, Ascends, sort-Ascends,
}
use rami_ledger.Vida.Diario.{Acceso, Persona}
use rami_ledger.Vida.Empleo.{
  Parcela, Gente, anillo, antes, elige, con_trabajo, coloca, reparte, Plaza, recluta, mira,
}
use rami_ledger.Vida.Empleo.Anillos.{Rings, flat, flat-Permᴰ, free, AreAt, Seen, far, mira-Seen}

abbrev pub elem : ℕ → List ℕ → Bool
elem k [] = false
elem k (x ∷ xs) = (x == k) || elem k xs

antes-IsOrder : (sem : ℕ → ℕ) (ie : ℕ) → IsOrder (antes sem ie)
antes-IsOrder sem ie = record {
  asym = λ {x} {y} e. ground arith;
  trans = λ {x} {y} {z} e f. ground arith;
}

All-drop : (P : ℕ → Type 0) (n : ℕ) (l : List ℕ) → All P l → All P (drop n l)
All-drop P zero l h = h
All-drop P (suc n) [] h = tt
All-drop P (suc n) (x ∷ l) h = All-drop P n l h.1

All-take : (P : ℕ → Type 0) (n : ℕ) (l : List ℕ) → All P l → All P (take n l)
All-take P zero l h = tt
All-take P (suc n) [] h = tt
All-take P (suc n) (x ∷ l) h = (h.0, All-take P n l h.1)

All-rest : (P : ℕ → Type 0) (k l : List ℕ) → All P (k ++ l) → All P l
All-rest P [] l h = h
All-rest P (x ∷ k) l h = All-rest P k l h.1

All-both : (P Q : ℕ → Type 0) (l : List ℕ) → All P l → All Q l → All (λ k. P k × Q k) l
All-both P Q [] h k = tt
All-both P Q (x ∷ l) h k = ((h.0, k.0), All-both P Q l h.1 k.1)

coloca-append :
    (ac : Acceso) (hs ks : List ℕ) (g : Gente)
    → coloca ac (hs ++ ks) g ≡ coloca ac ks (coloca ac hs g)
coloca-append ac [] ks g = refl
coloca-append ac (h ∷ hs) ks g = coloca-append ac hs ks _

one_sem : (ac : Acceso) (c : Bool) (p : Persona) → (if c then con_trabajo ac p else p).sem ≡ p.sem
one_sem ac true p = refl
one_sem ac false p = refl

coloca-sem : (ac : Acceso) (hs : List ℕ) (g : Gente) (k : ℕ) → (coloca ac hs g k).sem ≡ (g k).sem
coloca-sem ac [] g k = refl
coloca-sem ac (h ∷ hs) g k = coloca-sem ac hs _ k ∙ one_sem ac (h == k) (g k)

reparte_zero : (ac : Acceso) (ie : ℕ) (rs : Rings) (g : Gente) → reparte ac ie rs 0 g ≡ (0, g)
reparte_zero ac ie [] g = refl
reparte_zero ac ie (r ∷ rs) g = refl

module _ (far sem : ℕ → ℕ) (ie : ℕ) where
  -- `h` comes before `r`: from a nearer ring, or from the same one and not after it in the draw.
  abbrev pub Before : ℕ → ℕ → Type 0
  Before h r = (far h < far r) ⊎ ((far h ≡ far r) × (antes sem ie r h ≡ false))

  abbrev pub AllBefore : List ℕ → List ℕ → Type 0
  AllBefore hs rs = All (λ h. All (λ r. Before h r) rs) hs

  All-near :
      (d : ℕ) (hs rs : List ℕ) → All (λ k. far k ≡ d) hs → All (λ k. d < far k) rs → AllBefore hs rs
  All-near d [] rs a b = tt
  All-near d (h ∷ hs) rs a b =
      (All-map (λ k lt. inl (omega (arith, a.0))) rs b, All-near d hs rs a.1 b)

  -- The head of the drawn ring is before its rest.
  ordered_split :
      (d n : ℕ) (l : List ℕ)
      → All (λ k. far k ≡ d) l
      → IsOrdered (antes sem ie) l
      → AllBefore (take n l) (drop n l)
  ordered_split d zero l a o = tt
  ordered_split d (suc n) [] a o = tt
  ordered_split d (suc n) (h ∷ l) a o = (
    All-map (λ r k. inr (a.0 ∙ sym k.0, k.1)) (drop n l)
        (All-both (λ k. far k ≡ d) (λ k. antes sem ie k h ≡ false) (drop n l)
          (All-drop (λ k. far k ≡ d) n l a.1) (All-drop (λ k. antes sem ie k h ≡ false) n l o.0)),
    ordered_split d n l a.1 o.1,
  )

  -- What the second loop does with `q` jobs.
  pub record Hires (ac : Acceso) (rs : Rings) (q : ℕ) (g : Gente) (out : ℕ × Gente) : Type 0 where
    pub hired : List ℕ
    pub rest : List ℕ
    pub split : Permᴰ (hired ++ rest) (flat rs)
    pub count : length hired ≡ min q (length (flat rs))
    pub left : out.0 + length hired ≡ q
    pub order : AllBefore hired rest
    pub people : out.1 ≡ coloca ac hired g

  nobody : (ac : Acceso) (rs : Rings) (g : Gente) → Hires ac rs 0 g (0, g)
  nobody ac rs g = record {
    hired = [];
    rest = flat rs;
    split = Permᴰ.refl _;
    count = omega arith;
    left = refl;
    order = tt;
    people = refl;
  }

  beyond :
      (d : ℕ) (rs : Rings)
      → All (λ (t : ℕ × List ℕ). d < t.0) rs
      → AreAt far rs
      → All (λ k. d < far k) (flat rs)
  beyond d [] lt at = tt
  beyond d ((e, l) ∷ rs) lt at =
      All-append (λ k. d < far k) l (flat rs)
        (All-map (λ k same. let less = lt.0 in omega arith) l at.0) (beyond d rs lt.1 at.1)

  append_before : (hs ks rs : List ℕ) → AllBefore hs rs → AllBefore ks rs → AllBefore (hs ++ ks) rs
  append_before hs ks rs = All-append (λ h. All (λ r. Before h r) rs) hs ks

  split_before : (hs rs ts : List ℕ) → AllBefore hs rs → AllBefore hs ts → AllBefore hs (rs ++ ts)
  split_before [] rs ts a b = tt
  split_before (h ∷ hs) rs ts a b =
      (All-append (λ r. Before h r) rs ts a.0 b.0, split_before hs rs ts a.1 b.1)

  module _ (ac : Acceso) (d : ℕ) (l : List ℕ) (rs : Rings) (q : ℕ) (g : Gente)
      (here : All (λ k. far k ≡ d) l) (there : All (λ k. d < far k) (flat rs)) where
    -- The whole ring is hired.
    whole_ring :
        {out : ℕ × Gente}
        → length l ≤ q
        → Hires ac rs (q - length l) (coloca ac l g) out
        → Hires ac ((d, l) ∷ rs) q g out
    whole_ring le h = record {
      hired = l ++ h.hired;
      rest = h.rest;
      split = rw (append_assoc l h.hired h.rest) (Permᴰ.append_left l h.split);
      count = let c = h.count in omega (arith, length-append l h.hired, length-append l (flat rs));
      left = let e = h.left in omega (arith, length-append l h.hired);
      order =
          append_before l h.hired h.rest
            (All-near d l h.rest here
              (All-rest (λ k. d < far k) h.hired h.rest (All-Permᴰ _ (Permᴰ.symm h.split) there)))
            h.order;
      people = h.people ∙ sym (coloca-append ac l h.hired g);
    }

    -- The ring has more people than there are jobs, and those of the draw are hired.
    part_ring :
        q < length l → Hires ac ((d, l) ∷ rs) q g (0, coloca ac (take q (sort (antes sem ie) l)) g)
    part_ring lt =
        let s = sort (antes sem ie) l in
        let here' = All-Permᴰ (λ k. far k ≡ d) (Permᴰ.symm (sort-Permᴰ (antes sem ie) l)) here in
        record {
          hired = take q s;
          rest = drop q s ++ flat rs;
          split =
              rw (sym (append_assoc (take q s) (drop q s) (flat rs)), take-append-drop q s)
                (Permᴰ.append_right (flat rs) (sort-Permᴰ (antes sem ie) l));
          count = omega (
            arith,
            length-take q s,
            length-Permᴰ (sort-Permᴰ (antes sem ie) l),
            length-append l (flat rs),
          );
          left = omega (arith, length-take q s, length-Permᴰ (sort-Permᴰ (antes sem ie) l));
          order =
              split_before (take q s) (drop q s) (flat rs)
                (ordered_split d q s here' (sort-IsOrdered (antes-IsOrder sem ie) l))
                (All-near d (take q s) (flat rs) (All-take (λ k. far k ≡ d) q s here') there);
          people = refl;
        }

  length_taken :
      (q : ℕ) (l : List ℕ) → q < length l → q - length (take q (sort (antes sem ie) l)) ≡ 0
  length_taken q l lt =
      let s = sort (antes sem ie) l in
      omega (arith, length-take q s, length-Permᴰ (sort-Permᴰ (antes sem ie) l))

  not_ltb→le : (a b : ℕ) → ltb a b ≡ false → b ≤ a
  not_ltb→le a b e = ground arith

  positive : (q : ℕ) → ltb 0 (suc q) ≡ true
  positive q = ground arith

  part_of :
      (q : ℕ) (l : List ℕ)
      → ltb q (length l) ≡ true
      → take q (sort (antes sem ie) l) ≡ elige sem ie q l
  part_of q l e = rw e refl

  whole_of : (q : ℕ) (l : List ℕ) → ltb q (length l) ≡ false → l ≡ elige sem ie q l
  whole_of q l e = rw e refl

  drained :
      (ac : Acceso) (q : ℕ) (l : List ℕ) {all : Rings} (rs : Rings) (g : Gente)
      → q < length l
      → Hires ac all q g (0, coloca ac (take q (sort (antes sem ie) l)) g)
      → Hires ac all q g (
          reparte ac ie rs
            (q - length (take q (sort (antes sem ie) l)))
            (coloca ac (take q (sort (antes sem ie) l)) g))
  drained ac q l {all} rs g lt h =
      let them = take q (sort (antes sem ie) l) in
      let none_left = ap (λ n. reparte ac ie rs n (coloca ac them g)) (length_taken q l lt) in
      subst (Hires ac all q g) (sym (none_left ∙ reparte_zero ac ie rs (coloca ac them g))) h

  reparte-Hires :
      (ac : Acceso) (rs : Rings) (q : ℕ) (g : Gente)
      → (λ (k : ℕ). (g k).sem) ≡ sem
      → AreAt far rs
      → Ascends (λ (r : ℕ × List ℕ). r.0) rs
      → Hires ac rs q g (reparte ac ie rs q g)
  reparte-Hires ac [] q g same at gr = record {
    hired = [];
    rest = [];
    split = Permᴰ.refl _;
    count = omega arith;
    left = omega arith;
    order = tt;
    people = refl;
  }
  reparte-Hires ac (r ∷ rs) zero g same at gr = nobody ac (r ∷ rs) g
  reparte-Hires ac ((d, l) ∷ rs) (suc q) g same at gr =
      let there = beyond d rs gr.0 at.1 in
      let goes = λ (hired : List ℕ).
        Hires ac ((d, l) ∷ rs) (suc q) g
          (reparte ac ie rs (suc q - length hired) (coloca ac hired g)) in
      let other = ap (λ (s : ℕ → ℕ). elige s ie (suc q) l) (sym same) in
      let chosen = elige (λ k. (g k).sem) ie (suc q) l in
      let rounds : goes chosen = elim (Bool-cases (ltb (suc q) (length l))) [
        | inl e ↦
            let lt = ltb→lt (suc q) (length l) e in
            subst goes (part_of (suc q) l e ∙ other)
              (drained ac (suc q) l rs g lt (part_ring ac d l rs (suc q) g at.0 there lt))
        | inr e ↦ subst goes (whole_of (suc q) l e ∙ other) (
            whole_ring ac d l rs (suc q) g at.0 there (not_ltb→le (suc q) (length l) e) (
              reparte-Hires ac rs (suc q - length l) (coloca ac l g)
                ((λ i k. coloca-sem ac l g k i) ∙ same) at.1 gr.1))
      ] in
      rw (positive q) rounds

elem-coloca :
    (ac : Acceso) (hs : List ℕ) (g : Gente) (k : ℕ)
    → coloca ac hs g k ≡ (if elem k hs then con_trabajo ac (g k) else g k)
elem-coloca ac [] g k = refl
elem-coloca ac (h ∷ hs) g k = elim (Bool-cases (h == k)) [
  | inl e ↦ elim (Bool-cases (elem k hs)) [
    | inl f ↦ rw (elem-coloca ac hs, e, f) refl
    | inr f ↦ rw (elem-coloca ac hs, e, f) refl
  ]
  | inr e ↦ rw (elem-coloca ac hs, e) refl
]

-- What a company's call of `recluta` does: `hired` are its new people, `rest` those it leaves.
pub record Recruits (ac : Acceso) (pc : Parcela) (peso ie : ℕ) (s t : Plaza) : Type 0 where
  pub hired : List ℕ
  pub rest : List ℕ
  pub split : Permᴰ (hired ++ rest) (free s.gente s.trab)
  pub count : length hired ≡ min peso (length (free s.gente s.trab))
  pub order : AllBefore (λ k. anillo pc (s.gente k).celda) (λ k. (s.gente k).sem) ie hired rest
  pub people :
      (k : ℕ) → t.gente k ≡ (if elem k hired then con_trabajo ac (s.gente k) else s.gente k)
  pub trab : t.trab ≡ free s.gente s.trab
  pub parcelas : t.empleo.parcelas ≡ s.empleo.parcelas + length hired
  pub puestos : t.empleo.puestos ≡ s.empleo.puestos + peso

nothing-Seen : (far : ℕ → ℕ) → Seen far [] ([], [])
nothing-Seen far = record { all = refl; split = Permᴰ.refl _; at = tt; apart = tt }

-- A company hires as many of the people without a job as it has jobs, or all of them; those it hires
-- come from nearer rings than those it leaves, or from the same ring and no later in the draw; each of
-- them gets the company's door as place of work, everybody else stays as they were, and the counts of
-- jobs grow by what is hired and offered. Here every person stands under the own number.
pub recluta-Recruits :
    (ac : Acceso) (pc : Parcela) (peso ie : ℕ) (s : Plaza)
    → ((k : ℕ) → (s.gente k).id ≡ k)
    → Recruits ac pc peso ie s (recluta ac pc peso ie s)
unfolding recluta
recluta-Recruits ac pc peso ie s ids =
    let g = s.gente in
    let seen = mira-Seen pc g ids s.trab [] ([], []) (nothing-Seen (far pc g ids)) in
    let rs = (mira pc g s.trab ([], [])).1 in
    let nearer = λ (r t : ℕ × List ℕ). ltb r.0 t.0 in
    let sorted = Permᴰ.symm (sort-Permᴰ nearer rs) in
    let h =
      reparte-Hires (far pc g ids) (λ k. (g k).sem) ie ac (sort nearer rs) peso g refl
        (All-Permᴰ _ sorted seen.at) (sort-Ascends (λ (r : ℕ × List ℕ). r.0) rs seen.apart) in
    let whole = Permᴰ.trans (Permᴰ.symm (flat-Permᴰ sorted)) seen.split in
    record {
      hired = h.hired;
      rest = h.rest;
      split = Permᴰ.trans h.split whole;
      count = h.count ∙ ap (min peso) (length-Permᴰ whole);
      order = h.order;
      people = λ k. ap (λ (f : Gente). f k) h.people ∙ elem-coloca ac h.hired g k;
      trab = seen.all;
      parcelas = let e = h.left in omega arith;
      puestos = refl;
    }
