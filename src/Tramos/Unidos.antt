-- ===== src/Tramos/Unidos.antt =====
-- `fundeTramos` keeps the points of the stretches and makes `enTramo` find them.
use mathlib.Core.List.{Permᴰ}
use rami_ledger.Prelude.{
  Bool, true, false, not, ◌&&◌, ◌||◌, ◌≡◌, refl, sym, ◌∙◌, ap, inl, inr, List, [], ◌∷◌, Bool-cases,
  All, arith,
}
use rami_ledger.Tramos.{Tramo, en_tramo, mayor, funde_loop, funde_de, funde_tramos, dentro, alguno}

or_assoc : (a b c : Bool) → ((a || b) || c) ≡ (a || (b || c))
or_assoc true b c = refl
or_assoc false b c = refl

or_swap : (a b c : Bool) → (a || (b || c)) ≡ (b || (a || c))
or_swap a b c = ground arith

join_far :
    (p q r w : Bool)
    → (r ≡ false → p ≡ false)
    → (q ≡ true → r ≡ false)
    → (w ≡ true → q ≡ false → ⊥)
    → (not p && not w) ≡ ((not p && not q) || (not r && not w))
join_far p q r w f1 f2 f3 = ground arith

join_near :
    (p q r w : Bool)
    → (r ≡ false → p ≡ false)
    → (w ≡ false → q ≡ false)
    → (not p && not q) ≡ ((not p && not q) || (not r && not w))
join_near p q r w f1 f4 = ground arith

module _ {T : Type 0} (menor : T → T → Bool)
    (asymm : (a b : T) → menor a b ≡ true → menor b a ≡ false)
    (neg_trans : (a b c : T) → menor a b ≡ false → menor b c ≡ false → menor a c ≡ false) where
  -- No stretch begins before the ones that stand before it.
  abbrev pub Behind : Tramo T → List (Tramo T) → Type 0
  Behind x xs = All (λ y. menor y.a x.a ≡ false) xs

  abbrev pub IsSorted : List (Tramo T) → Type 0
  IsSorted [] = Unit
  IsSorted (x ∷ xs) = Behind x xs × IsSorted xs

  before_all :
      (s : T) (x : Tramo T) (xs : List (Tramo T))
      → menor s x.a ≡ true
      → Behind x xs
      → alguno (dentro menor s) xs ≡ false
  before_all s x [] h b = refl
  before_all s x (y ∷ xs) h (p, b) = elim (Bool-cases (menor s y.a)) [
    | inl e ↦ rw e (before_all s x xs h b)
    | inr e ↦ cc (neg_trans s y.a x.a e p)
  ]

  en_tramo-alguno :
      (s : T) (xs : List (Tramo T)) → IsSorted xs → en_tramo menor xs s ≡ alguno (dentro menor s) xs
  unfolding en_tramo
  en_tramo-alguno s [] h = refl
  en_tramo-alguno s (x ∷ xs) (b, h) = elim (Bool-cases (menor s x.a)) [
    | inl e ↦ rw e (sym (before_all s x xs e b))
    | inr e ↦ elim (Bool-cases (menor x.b s)) [
      | inl f ↦ rw (e, f) (en_tramo-alguno s xs h)
      | inr f ↦ rw (e, f) refl
    ]
  ]

  -- Two stretches that meet, the second one not beginning before the first, cover what one does.
  dentro_join :
      (s : T) (u x : Tramo T)
      → menor x.a u.a ≡ false
      → menor u.b x.a ≡ false
      → dentro menor s (record { a = u.a; b = mayor menor u.b x.b })
        ≡ (dentro menor s u || dentro menor s x)
  dentro_join s u x h k =
      let f1 : menor s x.a ≡ false → menor s u.a ≡ false = λ e. neg_trans s x.a u.a e h in
      let f2 : menor u.b s ≡ true → menor s x.a ≡ false =
        λ e. neg_trans s u.b x.a (asymm u.b s e) k in
      let f3 : menor x.b s ≡ true → menor u.b s ≡ false → menor u.b x.b ≡ false =
        λ e f. neg_trans u.b s x.b f (asymm x.b s e) in
      let f4 : menor u.b x.b ≡ false → menor x.b s ≡ false → menor u.b s ≡ false =
        λ e f. neg_trans u.b x.b s e f in
      elim (Bool-cases (menor u.b x.b)) [
        | inl m ↦ rw m (
            join_far (menor s u.a) (menor u.b s) (menor s x.a) (menor x.b s) f1 f2
              (λ w f. cc (f3 w f)))
        | inr m ↦ rw m (join_near (menor s u.a) (menor u.b s) (menor s x.a) (menor x.b s) f1 (f4 m))
      ]

  funde_loop-Behind :
      (c x : Tramo T) (t : List (Tramo T))
      → menor x.a c.a ≡ false
      → Behind c t
      → Behind c (funde_loop menor x t)
  unfolding funde_loop
  funde_loop-Behind c x [] h b = (h, tt)
  funde_loop-Behind c x (y ∷ t) h (p, b) = elim (Bool-cases (menor x.b y.a)) [
    | inl e ↦ rw e (h, funde_loop-Behind c y t p b)
    | inr e ↦ rw e (funde_loop-Behind c (record { a = x.a; b = mayor menor x.b y.b }) t h b)
  ]

  funde_loop-IsSorted :
      (u : Tramo T) (t : List (Tramo T)) → Behind u t → IsSorted t → IsSorted (funde_loop menor u t)
  unfolding funde_loop
  funde_loop-IsSorted u [] b h = (tt, tt)
  funde_loop-IsSorted u (x ∷ t) (p, b) (bx, h) = elim (Bool-cases (menor u.b x.a)) [
    | inl e ↦ rw e (funde_loop-Behind u x t p b, funde_loop-IsSorted x t bx h)
    | inr e ↦ rw e (funde_loop-IsSorted (record { a = u.a; b = mayor menor u.b x.b }) t b h)
  ]

  funde_loop-alguno :
      (s : T) (u : Tramo T) (t : List (Tramo T))
      → Behind u t
      → IsSorted t
      → alguno (dentro menor s) (funde_loop menor u t)
        ≡ (dentro menor s u || alguno (dentro menor s) t)
  unfolding funde_loop
  funde_loop-alguno s u [] b h = refl
  funde_loop-alguno s u (x ∷ t) (p, b) (bx, h) = elim (Bool-cases (menor u.b x.a)) [
    | inl e ↦ rw e (ap (λ (r : Bool). dentro menor s u || r) (funde_loop-alguno s x t bx h))
    | inr e ↦ rw e (
        funde_loop-alguno s (record { a = u.a; b = mayor menor u.b x.b }) t b h
        ∙ ap (λ (r : Bool). r || alguno (dentro menor s) t) (dentro_join s u x p e)
        ∙ or_assoc (dentro menor s u) (dentro menor s x) (alguno (dentro menor s) t))
  ]

  alguno-Permᴰ :
      (p : Tramo T → Bool) {xs ys : List (Tramo T)} → Permᴰ xs ys → alguno p xs ≡ alguno p ys
  alguno-Permᴰ p Permᴰ.nil = refl
  alguno-Permᴰ p (Permᴰ.cons e h) = cc (ap p e, alguno-Permᴰ p h)
  alguno-Permᴰ p (Permᴰ.swap {a} {b} {a'} {b'} {l} e f) =
      or_swap (p a) (p b) (alguno p l) ∙ cc (ap p e, ap p f)
  alguno-Permᴰ p (Permᴰ.trans h k) = alguno-Permᴰ p h ∙ alguno-Permᴰ p k

  funde_de-en_tramo :
      (s : T) (xs : List (Tramo T))
      → IsSorted xs
      → en_tramo menor (funde_de menor xs) s ≡ alguno (dentro menor s) xs
  unfolding en_tramo
  funde_de-en_tramo s [] h = refl
  funde_de-en_tramo s (u ∷ t) (b, h) =
      en_tramo-alguno s (funde_loop menor u t) (funde_loop-IsSorted u t b h)
      ∙ funde_loop-alguno s u t b h

  -- `enTramo` on the merged stretches answers whether one of the given stretches holds the point, for
  -- any stretches and any sort that puts them in the order of their beginnings, over any numbers
  -- whose order is asymmetric and negatively transitive.
  pub funde_tramos-en_tramo :
      (ordena : List (Tramo T) → List (Tramo T)) (s : T) (xs : List (Tramo T))
      → ((ys : List (Tramo T)) → Permᴰ (ordena ys) ys)
      → ((ys : List (Tramo T)) → IsSorted (ordena ys))
      → en_tramo menor (funde_tramos menor ordena xs) s ≡ alguno (dentro menor s) xs
  unfolding funde_tramos
  funde_tramos-en_tramo ordena s [] perm sorted = en_tramo-alguno s [] tt
  funde_tramos-en_tramo ordena s (x ∷ []) perm sorted = en_tramo-alguno s (x ∷ []) (tt, tt)
  funde_tramos-en_tramo ordena s (x ∷ y ∷ t) perm sorted =
      funde_de-en_tramo s (ordena (x ∷ y ∷ t)) (sorted (x ∷ y ∷ t))
      ∙ alguno-Permᴰ (dentro menor s) (perm (x ∷ y ∷ t))
