-- ===== src/Vida/Diario/Indices.antt =====
-- The lists of the zones and of the people hold the numbers of the trips that are theirs.
use rami_ledger.Prelude.{
  ℕ, suc, ◌+◌, ◌≡◌, refl, List, [], ◌∷◌, ◌++◌, arith, ◌==◌, length, if◌then◌else◌, Bool-cases, inl,
  inr,
}
use rami_ledger.Vida.Diario.{Viaje, Libro, empuja, anota}

-- Every trip has its place as its number.
abbrev pub Counts : ℕ → List Viaje → Type 0
Counts n [] = Unit
Counts n (v ∷ vs) = (v.id ≡ n) × Counts (suc n) vs

-- The numbers of the trips that have the key.
abbrev pub of_key : (Viaje → ℕ) → ℕ → List Viaje → List ℕ
of_key f k [] = []
of_key f k (v ∷ vs) = if f v == k then v.id ∷ of_key f k vs else of_key f k vs

pub record IsLibro (b : Libro) : Type 0 where
  pub counts : Counts 0 b.viajes
  pub zones : (k : ℕ) → b.de_zona k ≡ of_key (λ v. v.zona) k b.viajes
  pub people : (k : ℕ) → b.de_persona k ≡ of_key (λ v. v.p) k b.viajes

Counts-append :
    (n : ℕ) (vs : List Viaje) (v : Viaje)
    → Counts n vs
    → v.id ≡ n + length vs
    → Counts n (vs ++ (v ∷ []))
Counts-append n [] v h e = (omega arith, tt)
Counts-append n (w ∷ vs) v h e = (h.0, Counts-append (suc n) vs v h.1 (omega arith))

of_key-append :
    (f : Viaje → ℕ) (k : ℕ) (vs : List Viaje) (v : Viaje)
    → of_key f k (vs ++ (v ∷ []))
      ≡ (if f v == k then of_key f k vs ++ (v.id ∷ []) else of_key f k vs)
of_key-append f k [] v = refl
of_key-append f k (w ∷ vs) v = elim (Bool-cases (f w == k)) [
  | inl a ↦ elim (Bool-cases (f v == k)) [
    | inl b ↦ rw (of_key-append f k vs v, a, b) refl
    | inr b ↦ rw (of_key-append f k vs v, a, b) refl
  ]
  | inr a ↦ rw (of_key-append f k vs v, a) refl
]

pushed :
    (f : Viaje → ℕ) (g : ℕ → List ℕ) (vs : List Viaje) (v : Viaje)
    → ((k : ℕ) → g k ≡ of_key f k vs)
    → (k : ℕ) → empuja g (f v) v.id k ≡ of_key f k (vs ++ (v ∷ []))
pushed f g vs v h k = elim (Bool-cases (f v == k)) [
  | inl a ↦ rw (of_key-append f k vs v, a, h k) refl
  | inr a ↦ rw (of_key-append f k vs v, a, h k) refl
]

pub anota-IsLibro :
    (v : Viaje) (b : Libro) → v.id ≡ length b.viajes → IsLibro b → IsLibro (anota v b)
anota-IsLibro v b e h = record {
  counts = Counts-append 0 b.viajes v h.counts (omega arith);
  zones = pushed (λ v. v.zona) b.de_zona b.viajes v h.zones;
  people = pushed (λ v. v.p) b.de_persona b.viajes v h.people;
}
