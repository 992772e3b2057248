-- ===== src/Prelude/Orden.antt =====
-- `Array.prototype.sort`: a stable sort by a comparison, and what it gives.
use mathlib.Core.Path.{◌≡◌, refl, sym, ap, ◌∙◌, subst}
use mathlib.Core.Logic.{inl, inr, ◌≢◌}
use mathlib.Core.Bool.{Bool, true, false}
use mathlib.Core.List.{List, [], ◌∷◌, Permᴰ}
use mathlib.Core.List.Permᴰ
use native.Mathlib.Omega.{arith}
use Prim.Native.Nat.{ℕ, suc, ◌<◌}
use rami_ledger.Prelude.Tests.{ltb, if◌then◌else◌, Bool-cases}
use rami_ledger.Prelude.Lists.{All, length}

module _ {ℓ} {A : Type ℓ} where
  -- An element goes before the first one that is not before it, so that equals keep their order.
  abbrev pub insert : (A → A → Bool) → A → List A → List A
  insert before x [] = x ∷ []
  insert before x (y ∷ ys) =
      let rest = insert before x ys in if before y x then y ∷ rest else x ∷ y ∷ ys

  unfoldable pub sort : (A → A → Bool) → List A → List A
  sort before [] = []
  sort before (x ∷ xs) = insert before x (sort before xs)

  -- No element is before an earlier one.
  abbrev pub IsOrdered : (A → A → Bool) → List A → Type ℓ
  IsOrdered before [] = Unit
  IsOrdered before (x ∷ xs) = All (λ y. before y x ≡ false) xs × IsOrdered before xs

  -- What a comparison needs.
  pub record IsOrder (before : A → A → Bool) : Type ℓ where
    pub asym : {x y : A} → before x y ≡ true → before y x ≡ false
    pub trans : {x y z : A} → before y x ≡ false → before z y ≡ false → before z x ≡ false

  pub insert-Permᴰ :
      (before : A → A → Bool) (x : A) (ys : List A) → Permᴰ (insert before x ys) (x ∷ ys)
  insert-Permᴰ before x [] = Permᴰ.refl _
  insert-Permᴰ before x (y ∷ ys) = elim (Bool-cases (before y x)) [
    | inl e ↦ rw e (Permᴰ.trans (Permᴰ.cons refl (insert-Permᴰ before x ys)) (Permᴰ.swap refl refl))
    | inr e ↦ rw e (Permᴰ.refl _)
  ]

  pub sort-Permᴰ : (before : A → A → Bool) (xs : List A) → Permᴰ (sort before xs) xs
  unfolding sort
  sort-Permᴰ before [] = Permᴰ.refl _
  sort-Permᴰ before (x ∷ xs) =
      Permᴰ.trans (insert-Permᴰ before x (sort before xs)) (Permᴰ.cons refl (sort-Permᴰ before xs))

  pub length-Permᴰ : {xs ys : List A} → Permᴰ xs ys → length xs ≡ length ys
  length-Permᴰ Permᴰ.nil = refl
  length-Permᴰ (Permᴰ.cons e p) = ap suc (length-Permᴰ p)
  length-Permᴰ (Permᴰ.swap e f) = refl
  length-Permᴰ (Permᴰ.trans p q) = length-Permᴰ p ∙ length-Permᴰ q

module _ {ℓ κ} {A : Type ℓ} where
  pub All-map : {P Q : A → Type κ} → ((x : A) → P x → Q x) → (xs : List A) → All P xs → All Q xs
  All-map f [] h = tt
  All-map f (x ∷ xs) h = (f x h.0, All-map f xs h.1)

  pub All-Permᴰ : (P : A → Type κ) {xs ys : List A} → Permᴰ xs ys → All P xs → All P ys
  All-Permᴰ P Permᴰ.nil h = h
  All-Permᴰ P (Permᴰ.cons e p) h = (subst P e h.0, All-Permᴰ P p h.1)
  All-Permᴰ P (Permᴰ.swap e f) h = (subst P f h.1.0, (subst P e h.0, h.1.1))
  All-Permᴰ P (Permᴰ.trans p q) h = All-Permᴰ P q (All-Permᴰ P p h)

module _ {ℓ} {A : Type ℓ} where
  insert-IsOrdered :
      {before : A → A → Bool}
      → IsOrder before
      → (x : A) (ys : List A) → IsOrdered before ys
      → IsOrdered before (insert before x ys)
  insert-IsOrdered o x [] h = (tt, tt)
  insert-IsOrdered {before} o x (y ∷ ys) h = elim (Bool-cases (before y x)) [
    | inl e ↦ rw e (
      All-Permᴰ _ (Permᴰ.symm (insert-Permᴰ before x ys)) (o.asym e, h.0),
      insert-IsOrdered o x ys h.1,
    )
    | inr e ↦ rw e ((e, All-map (λ z k. o.trans e k) ys h.0), h)
  ]

  pub sort-IsOrdered :
      {before : A → A → Bool} → IsOrder before → (xs : List A) → IsOrdered before (sort before xs)
  unfolding sort
  sort-IsOrdered o [] = tt
  sort-IsOrdered {before} o (x ∷ xs) = insert-IsOrdered o x (sort before xs) (sort-IsOrdered o xs)

module _ {ℓ} {A : Type ℓ} (key : A → ℕ) where
  -- No two elements have the same key.
  abbrev pub Apart : List A → Type ℓ
  Apart [] = Unit
  Apart (x ∷ xs) = All (λ (y : A). key y ≢ key x) xs × Apart xs

  -- Every key is less than the later ones.
  abbrev pub Ascends : List A → Type ℓ
  Ascends [] = Unit
  Ascends (x ∷ xs) = All (λ (y : A). key x < key y) xs × Ascends xs

  abbrev by_key : A → A → Bool
  by_key x y = ltb (key x) (key y)

  by_key-IsOrder : IsOrder by_key
  by_key-IsOrder = record { asym = λ e. ground arith; trans = λ e f. ground arith }

  pub Apart-Permᴰ : {xs ys : List A} → Permᴰ xs ys → Apart xs → Apart ys
  Apart-Permᴰ Permᴰ.nil h = h
  Apart-Permᴰ {xs = x ∷ xs} {ys = w ∷ ys} (Permᴰ.cons e p) h = (
    subst (λ (z : A). All (λ (y : A). key y ≢ key z) ys) e
        (All-Permᴰ (λ (y : A). key y ≢ key x) p h.0),
    Apart-Permᴰ p h.1,
  )
  Apart-Permᴰ {xs = x ∷ y ∷ xs} (Permᴰ.swap e f) h = (
    (
      λ c. h.0.0 (ap key f ∙ sym c ∙ ap key (sym e)),
      subst (λ (z : A). All (λ (w : A). key w ≢ key z) xs) f h.1.0,
    ),
    (subst (λ (z : A). All (λ (w : A). key w ≢ key z) xs) e h.0.1, h.1.1),
  )
  Apart-Permᴰ (Permᴰ.trans p q) h = Apart-Permᴰ q (Apart-Permᴰ p h)

  less : (a b : ℕ) → ltb b a ≡ false → b ≢ a → a < b
  less a b e n = ground arith

  strictly :
      (x : A) (ys : List A)
      → All (λ (y : A). by_key y x ≡ false) ys
      → All (λ (y : A). key y ≢ key x) ys
      → All (λ (y : A). key x < key y) ys
  strictly x [] h k = tt
  strictly x (y ∷ ys) h k = (less (key x) (key y) h.0 k.0, strictly x ys h.1 k.1)

  ordered-Ascends : (xs : List A) → IsOrdered by_key xs → Apart xs → Ascends xs
  ordered-Ascends [] h k = tt
  ordered-Ascends (x ∷ xs) h k = (strictly x xs h.0 k.0, ordered-Ascends xs h.1 k.1)

  pub sort-Ascends : (xs : List A) → Apart xs → Ascends (sort (λ x y. ltb (key x) (key y)) xs)
  sort-Ascends xs h =
      ordered-Ascends (sort by_key xs) (sort-IsOrdered by_key-IsOrder xs)
        (Apart-Permᴰ (Permᴰ.symm (sort-Permᴰ by_key xs)) h)
