-- ===== src/Memoria/Nivel.antt =====
-- What level `nivelPatina` gives.
use rami_ledger.Prelude.{
  ℕ, zero, suc, ◌+◌, ◌-◌, ◌*◌, ◌/◌, ◌≤◌, ◌<◌, ◌≡◌, refl, ◌⊎◌, inl, inr, arith, leb, ltb, not,
  leb→le, Bool-cases, true, false,
}
use rami_ledger.Memoria.{int, sube_nivel, nivel_patina}

-- The highest level up to `top` whose square is at most the days.
abbrev pub IsLevel : ℕ → ℕ → ℕ → Type 0
IsLevel top dias n = (n ≤ top) × (n * n ≤ dias) × ((n ≡ top) ⊎ (dias < (n + 1) * (n + 1)))

not_leb : (a b : ℕ) → leb a b ≡ false → b < a
not_leb a b e = ground arith

sube_nivel-IsLevel :
    (left dias n top : ℕ)
    → n + left ≡ top
    → n * n ≤ dias
    → IsLevel top dias (sube_nivel left dias n)
unfolding sube_nivel
sube_nivel-IsLevel zero dias n top t h = (omega arith, h, inl (omega arith))
sube_nivel-IsLevel (suc left) dias n top t h = elim (Bool-cases (leb ((n + 1) * (n + 1)) dias)) [
  | inl e ↦ rw e (sube_nivel-IsLevel left dias (n + 1) top (omega arith) (leb→le _ _ e))
  | inr e ↦ rw e (omega arith, h, inr (not_leb _ _ e))
]

no_age : (e : ℕ) → not (ltb 0 e) ≡ true → e ≡ 0
no_age e h = ground arith

no_days : (e : ℕ) → e ≡ 0 → IsLevel 12 (e / 1440) 0
no_days e h = (omega arith, omega arith, inr (omega arith))

-- The level of a parcel is the greatest number up to 12 whose square is at most the whole days, of
-- 1440 blocks, from the block of the parcel to the head, heights as signed 32-bit numbers; a parcel
-- from the head or from later is of level 0.
pub nivel_patina-IsLevel :
    (altura desde : ℕ) → IsLevel 12 ((int altura - int desde) / 1440) (nivel_patina altura desde)
unfolding nivel_patina
nivel_patina-IsLevel altura desde = elim (Bool-cases (not (ltb 0 (int altura - int desde)))) [
  | inl e ↦ rw e (no_days (int altura - int desde) (no_age _ e))
  | inr e ↦ rw e (sube_nivel-IsLevel 12 _ 0 12 refl (omega arith))
]
