-- ===== src/Prelude/Lists.antt =====
-- Lists measured and indexed by native numbers, under the library's names.
use Prim.Native.Nat.{ℕ, zero, suc, ◌+◌, ◌-◌, ◌≤◌, ◌<◌, min}
use mathlib.Core.Path.{◌≡◌, refl, sym, ap, ◌∙◌}
use mathlib.Core.Logic.{◌≢◌}
use mathlib.Core.List.{List, [], ◌∷◌, ◌++◌, map}
use mathlib.Core.Option.{Option, none, some}
use native.Mathlib.Omega.{arith}

module _ {ℓ} {A : Type ℓ} where
  abbrev pub length : List A → ℕ
  length [] = 0
  length (x ∷ xs) = suc (length xs)

  abbrev pub get_elem? : List A → ℕ → Option A
  get_elem? [] i = none
  get_elem? (x ∷ xs) zero = some x
  get_elem? (x ∷ xs) (suc i) = get_elem? xs i

  -- A write out of bounds changes nothing.
  abbrev pub set : List A → ℕ → A → List A
  set [] i v = []
  set (x ∷ xs) zero v = v ∷ xs
  set (x ∷ xs) (suc i) v = x ∷ set xs i v

  pub length-append : (xs ys : List A) → length (xs ++ ys) ≡ length xs + length ys
  length-append [] ys = omega arith
  length-append (x ∷ xs) ys = omega (arith, length-append xs ys)

module _ {ℓ} {A : Type ℓ} where
  pub length-set : (xs : List A) (i : ℕ) (v : A) → length (set xs i v) ≡ length xs
  length-set [] i v = refl
  length-set (x ∷ xs) zero v = refl
  length-set (x ∷ xs) (suc i) v = ap suc (length-set xs i v)

  pub get_elem?-set_self :
      (xs : List A) (i : ℕ) (v : A) → i < length xs → get_elem? (set xs i v) i ≡ some v
  get_elem?-set_self [] i v h = elim h [ ]
  get_elem?-set_self (x ∷ xs) zero v h = refl
  get_elem?-set_self (x ∷ xs) (suc i) v h = get_elem?-set_self xs i v (omega arith)

  pub get_elem?-set_ne :
      (xs : List A) {i j : ℕ} (v : A) → i ≢ j → get_elem? (set xs i v) j ≡ get_elem? xs j
  get_elem?-set_ne [] v h = refl
  get_elem?-set_ne (x ∷ xs) {i = zero} {j = zero} v h = absurd (h refl)
  get_elem?-set_ne (x ∷ xs) {i = zero} {j = suc j} v h = refl
  get_elem?-set_ne (x ∷ xs) {i = suc i} {j = zero} v h = refl
  get_elem?-set_ne (x ∷ xs) {i = suc i} {j = suc j} v h = get_elem?-set_ne xs v (λ e. h (ap suc e))

module _ {ℓ} {A : Type ℓ} where
  abbrev pub get_or : List A → ℕ → A → A
  get_or [] i d = d
  get_or (x ∷ xs) zero d = x
  get_or (x ∷ xs) (suc i) d = get_or xs i d

  abbrev pub head_or : List A → A → A
  head_or [] d = d
  head_or (x ∷ xs) d = x

  abbrev pub tail_of : List A → List A
  tail_of [] = []
  tail_of (x ∷ xs) = xs

  abbrev pub take : ℕ → List A → List A
  take zero xs = []
  take (suc n) [] = []
  take (suc n) (x ∷ xs) = x ∷ take n xs

  abbrev pub drop : ℕ → List A → List A
  drop zero xs = xs
  drop (suc n) [] = []
  drop (suc n) (x ∷ xs) = drop n xs

  abbrev pub replicate : ℕ → A → List A
  replicate zero a = []
  replicate (suc n) a = a ∷ replicate n a

  pub take-append-drop : (n : ℕ) (xs : List A) → take n xs ++ drop n xs ≡ xs
  take-append-drop zero xs = refl
  take-append-drop (suc n) [] = refl
  take-append-drop (suc n) (x ∷ xs) = rw (take-append-drop n xs)

  pub length-take : (n : ℕ) (xs : List A) → length (take n xs) ≡ min n (length xs)
  length-take zero xs = omega arith
  length-take (suc n) [] = omega arith
  length-take (suc n) (x ∷ xs) = omega (arith, length-take n xs)

  pub length-drop : (n : ℕ) (xs : List A) → length (drop n xs) ≡ length xs - n
  length-drop zero xs = omega arith
  length-drop (suc n) [] = omega arith
  length-drop (suc n) (x ∷ xs) = omega (arith, length-drop n xs)

  pub length-replicate : (n : ℕ) (a : A) → length (replicate n a) ≡ n
  length-replicate zero a = refl
  length-replicate (suc n) a = ap suc (length-replicate n a)

  pub length-map {κ} : {B : Type κ} (xs : List A) (f : A → B) → length (map f xs) ≡ length xs
  length-map [] f = refl
  length-map (x ∷ xs) f = ap suc (length-map xs f)

module _ {ℓ κ} {A : Type ℓ} where
  -- Every element satisfies `P`.
  abbrev pub All : (A → Type κ) → List A → Type κ
  All P [] = Unit
  All P (x ∷ xs) = P x × All P xs

  pub All-append : (P : A → Type κ) (xs ys : List A) → All P xs → All P ys → All P (xs ++ ys)
  All-append P [] ys _ q = q
  All-append P (x ∷ xs) ys (p, ps) q = (p, All-append P xs ys ps q)

module _ {ℓ} {A : Type ℓ} where
  pub drop-suc :
      (p : ℕ) (xs : List A) {y : A} {ys : List A} → drop p xs ≡ y ∷ ys → drop (suc p) xs ≡ ys
  drop-suc zero [] e = cc
  drop-suc zero (x ∷ xs) e = cc
  drop-suc (suc p) [] e = cc
  drop-suc (suc p) (x ∷ xs) e = drop-suc p xs e

  pub get_or-drop : (p : ℕ) (xs : List A) (d : A) → get_or xs p d ≡ get_or (drop p xs) 0 d
  get_or-drop zero xs d = refl
  get_or-drop (suc p) [] d = refl
  get_or-drop (suc p) (x ∷ xs) d = get_or-drop p xs d

  pub get_or_past : (xs : List A) (p : ℕ) (d : A) → length xs ≤ p → get_or xs p d ≡ d
  get_or_past [] p d h = refl
  get_or_past (x ∷ xs) zero d h = absurd (omega arith)
  get_or_past (x ∷ xs) (suc p) d h = get_or_past xs p d (omega arith)

  pub drop_past : (xs : List A) (p : ℕ) → drop p xs ≡ [] → length xs ≤ p
  drop_past [] p e = omega arith
  drop_past (x ∷ xs) zero e = cc
  drop_past (x ∷ xs) (suc p) e = omega (arith, drop_past xs p e)

  pub get_elem?-drop : (l i : ℕ) (xs : List A) → get_elem? (drop l xs) i ≡ get_elem? xs (l + i)
  get_elem?-drop zero i xs = ap (get_elem? xs) (omega arith)
  get_elem?-drop (suc l) i [] = refl
  get_elem?-drop (suc l) i (x ∷ xs) =
      get_elem?-drop l i xs ∙ ap (get_elem? (x ∷ xs)) {x = suc (l + i)} (omega arith)

  pub get_elem?-get_or :
      (xs : List A) (i : ℕ) (d : A) → i < length xs → get_elem? xs i ≡ some (get_or xs i d)
  get_elem?-get_or [] i d h = elim h [ ]
  get_elem?-get_or (x ∷ xs) zero d h = refl
  get_elem?-get_or (x ∷ xs) (suc i) d h = get_elem?-get_or xs i d (omega arith)

module _ {ℓ} {A : Type ℓ} where
  -- The element at the head of what is left.
  pub read_at :
      (xs : List A) (q k : ℕ) (d : A) {x : A} {ys : List A}
      → drop q xs ≡ x ∷ ys
      → k ≡ q
      → get_or xs k d ≡ x
  read_at xs q k d e same =
      ap (λ t. get_or xs t d) same ∙ get_or-drop q xs d ∙ ap (λ l. get_or l 0 d) e

  pub move : (xs : List A) (q k : ℕ) {ys : List A} → drop q xs ≡ ys → k ≡ q → drop k xs ≡ ys
  move xs q k e same = ap (λ t. drop t xs) same ∙ e

  pub drop_behind :
      (xs : List A) (p : ℕ) (a b : List A) → drop p xs ≡ a ++ b → drop (p + length a) xs ≡ b
  drop_behind xs p [] b e = move xs p (p + 0) e (omega arith)
  drop_behind xs p (x ∷ a) b e =
      move xs (suc p + length a) (p + suc (length a)) (drop_behind xs (suc p) a b (drop-suc p xs e))
        (omega arith)

  pub take-length-append : (a b : List A) → take (length a) (a ++ b) ≡ a
  take-length-append [] b = refl
  take-length-append (x ∷ a) b = ap (λ l. x ∷ l) (take-length-append a b)

  pub elem_at :
      (xs : List A) (q k : ℕ) {x : A} {ys : List A}
      → drop q xs ≡ x ∷ ys
      → k ≡ q
      → get_elem? xs k ≡ some x
  elem_at xs q k e same =
      ap (get_elem? xs) {y = q + 0} (omega arith)
      ∙ sym (get_elem?-drop q 0 xs)
      ∙ ap (λ l. get_elem? l 0) e
