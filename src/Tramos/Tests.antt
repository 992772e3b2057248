-- ===== src/Tramos/Tests.antt =====
-- The stretches over the natural numbers.
use mathlib.Core.List.{Permᴰ}
use mathlib.Core.List.Permᴰ
use rami_ledger.Prelude.{
  ℕ, ◌≡◌, refl, ltb, true, false, not, ◌&&◌, List, [], ◌∷◌, arith, if◌then◌else◌, Bool-cases, inl,
  inr,
}
use rami_ledger.Tramos.{
  Tramo, en_tramo, funde_loop, funde_tramos, resta_ronda, resta_tramos, dentro, interior, alguno,
}
use rami_ledger.Tramos.Unidos.{IsSorted, Behind, funde_tramos-en_tramo}
use rami_ledger.Tramos.Restados.{resta_tramos-interior}

abbrev tramo : ℕ → ℕ → Tramo ℕ
tramo a b = record { a = a; b = b }

asymm : (a b : ℕ) → ltb a b ≡ true → ltb b a ≡ false
asymm a b e = ground arith

neg_trans : (a b c : ℕ) → ltb a b ≡ false → ltb b c ≡ false → ltb a c ≡ false
neg_trans a b c e f = ground arith

joined :
    funde_tramos ltb (λ xs. xs) (tramo 1 4 ∷ tramo 2 6 ∷ tramo 8 9 ∷ [])
    ≡ tramo 1 6 ∷ tramo 8 9 ∷ []
unfolding funde_tramos funde_loop
joined = refl

cut : resta_tramos ltb (tramo 0 10 ∷ []) (tramo 3 5 ∷ tramo 9 12 ∷ []) ≡ tramo 0 3 ∷ tramo 5 9 ∷ []
unfolding resta_tramos resta_ronda
cut = refl

-- A sort by insertion.
insert : Tramo ℕ → List (Tramo ℕ) → List (Tramo ℕ)
insert x [] = x ∷ []
insert x (y ∷ ys) = let rest = insert x ys in if ltb y.a x.a then y ∷ rest else x ∷ y ∷ ys

sort : List (Tramo ℕ) → List (Tramo ℕ)
sort [] = []
sort (x ∷ xs) = insert x (sort xs)

resta_tramos-interior_example :
    alguno (interior ltb 4) (resta_tramos ltb (tramo 0 10 ∷ []) (tramo 3 5 ∷ []))
    ≡ (alguno (interior ltb 4) (tramo 0 10 ∷ []) && not (alguno (dentro ltb 4) (tramo 3 5 ∷ [])))
resta_tramos-interior_example =
    resta_tramos-interior ltb asymm neg_trans 4 (tramo 0 10 ∷ []) (tramo 3 5 ∷ [])

insert-Permᴰ : (x : Tramo ℕ) (ys : List (Tramo ℕ)) → Permᴰ (insert x ys) (x ∷ ys)
unfolding insert
insert-Permᴰ x [] = Permᴰ.refl (x ∷ [])
insert-Permᴰ x (y ∷ ys) = elim (Bool-cases (ltb y.a x.a)) [
  | inl e ↦ rw e (Permᴰ.trans (Permᴰ.cons refl (insert-Permᴰ x ys)) (Permᴰ.swap refl refl))
  | inr e ↦ rw e (Permᴰ.refl (x ∷ y ∷ ys))
]

sort-Permᴰ : (xs : List (Tramo ℕ)) → Permᴰ (sort xs) xs
unfolding sort
sort-Permᴰ [] = Permᴰ.nil
sort-Permᴰ (x ∷ xs) = Permᴰ.trans (insert-Permᴰ x (sort xs)) (Permᴰ.cons refl (sort-Permᴰ xs))

abbrev Sorted : List (Tramo ℕ) → Type 0
Sorted = IsSorted ltb asymm neg_trans

abbrev Later : Tramo ℕ → List (Tramo ℕ) → Type 0
Later = Behind ltb asymm neg_trans

Later-trans : (x y : Tramo ℕ) (ys : List (Tramo ℕ)) → ltb y.a x.a ≡ false → Later y ys → Later x ys
Later-trans x y [] e h = tt
Later-trans x y (z ∷ ys) e (p, h) = (neg_trans z.a y.a x.a p e, Later-trans x y ys e h)

insert-Later :
    (y x : Tramo ℕ) (ys : List (Tramo ℕ)) → ltb x.a y.a ≡ false → Later y ys → Later y (insert x ys)
unfolding insert
insert-Later y x [] e h = (e, tt)
insert-Later y x (z ∷ ys) e (p, h) = elim (Bool-cases (ltb z.a x.a)) [
  | inl c ↦ rw c (p, insert-Later y x ys e h)
  | inr c ↦ rw c (e, (p, h))
]

insert-Sorted : (x : Tramo ℕ) (ys : List (Tramo ℕ)) → Sorted ys → Sorted (insert x ys)
unfolding insert
insert-Sorted x [] h = (tt, tt)
insert-Sorted x (y ∷ ys) (b, h) = elim (Bool-cases (ltb y.a x.a)) [
  | inl e ↦ rw e (insert-Later y x ys (asymm y.a x.a e) b, insert-Sorted x ys h)
  | inr e ↦ rw e ((e, Later-trans x y ys e b), (b, h))
]

sort-Sorted : (xs : List (Tramo ℕ)) → Sorted (sort xs)
unfolding sort
sort-Sorted [] = tt
sort-Sorted (x ∷ xs) = insert-Sorted x (sort xs) (sort-Sorted xs)

funde_tramos-en_tramo_example :
    en_tramo ltb (funde_tramos ltb sort (tramo 4 9 ∷ tramo 1 5 ∷ [])) 6
    ≡ alguno (dentro ltb 6) (tramo 4 9 ∷ tramo 1 5 ∷ [])
funde_tramos-en_tramo_example =
    funde_tramos-en_tramo ltb asymm neg_trans sort 6 (tramo 4 9 ∷ tramo 1 5 ∷ []) sort-Permᴰ
      sort-Sorted
