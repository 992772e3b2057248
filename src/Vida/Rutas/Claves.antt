-- ===== src/Vida/Rutas/Claves.antt =====
-- Looking up and taking out by key.
use rami_ledger.Prelude.{
  ℕ, suc, ◌≡◌, ◌≢◌, refl, ap, subst, inl, inr, false, none, some, List, [], ◌∷◌, arith, ◌==◌,
  ==_iff, Bool-cases, length, All, Apart,
}
use rami_ledger.Vida.Rutas.Guardadas.{busca, quita}

different : (i j : ℕ) → (i == j) ≡ false → i ≢ j
different i j e c = ground arith

module _ {ℓ} {A : Type ℓ} where
  pub absent : (k : ℕ) (xs : List (ℕ × A)) → busca k xs ≡ none → All (λ (e : ℕ × A). e.0 ≢ k) xs
  absent k [] e = tt
  absent k ((j, a) ∷ xs) e = elim (Bool-cases (j == k)) [
    | inl same ↦ cc (rw same at e)
    | inr other ↦ (different j k other, absent k xs (rw other at e))
  ]

  pub not_found : (k : ℕ) (xs : List (ℕ × A)) → All (λ (e : ℕ × A). e.0 ≢ k) xs → busca k xs ≡ none
  not_found k [] h = refl
  not_found k ((j, a) ∷ xs) h = elim (Bool-cases (j == k)) [
    | inl same ↦ absurd (h.0 ((==_iff j k).0 same))
    | inr other ↦ rw other (not_found k xs h.1)
  ]

  pub busca-quita :
      (j k : ℕ) (xs : List (ℕ × A)) (a : A)
      → Apart (λ (e : ℕ × A). e.0) xs
      → busca j (quita k xs) ≡ some a
      → busca j xs ≡ some a
  busca-quita j k [] a h e = e
  busca-quita j k ((i, b) ∷ xs) a h e = elim (Bool-cases (i == k)) [
    | inl same ↦ elim (Bool-cases (i == j)) [
      | inl at_j ↦
          let gone =
            not_found j xs
              (subst (λ q. All (λ (y : ℕ × A). y.0 ≢ q) xs) ((==_iff i j).0 at_j) h.0) in
          cc (gone, rw same at e)
      | inr not_j ↦ rw not_j (rw same at e)
    ]
    | inr other ↦ elim (Bool-cases (i == j)) [
      | inl at_j ↦ rw at_j (rw (other, at_j) at e)
      | inr not_j ↦ rw not_j (busca-quita j k xs a h.1 (rw (other, not_j) at e))
    ]
  ]

  pub length-quita :
      (k : ℕ) (xs : List (ℕ × A)) (a : A)
      → busca k xs ≡ some a
      → suc (length (quita k xs)) ≡ length xs
  length-quita k [] a e = cc e
  length-quita k ((j, b) ∷ xs) a e = elim (Bool-cases (j == k)) [
    | inl same ↦ rw same refl
    | inr other ↦ rw other (ap suc (length-quita k xs a (rw other at e)))
  ]

  pub All-quita : (P : ℕ × A → Type 0) (k : ℕ) (xs : List (ℕ × A)) → All P xs → All P (quita k xs)
  All-quita P k [] h = tt
  All-quita P k ((j, b) ∷ xs) h = elim (Bool-cases (j == k)) [
    | inl same ↦ rw same h.1
    | inr other ↦ rw other (h.0, All-quita P k xs h.1)
  ]

  pub Apart-quita :
      (k : ℕ) (xs : List (ℕ × A))
      → Apart (λ (e : ℕ × A). e.0) xs
      → Apart (λ (e : ℕ × A). e.0) (quita k xs)
  Apart-quita k [] h = tt
  Apart-quita k ((j, b) ∷ xs) h = elim (Bool-cases (j == k)) [
    | inl same ↦ rw same h.1
    | inr other ↦ rw other (All-quita _ k xs h.0, Apart-quita k xs h.1)
  ]
