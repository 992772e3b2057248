-- ===== src/Transporte.antt =====
-- What moves by the clock on a fixed line: city/extras.js, the search by halves that `posTren` and
-- `posBarco` have in common.
pub mod Trenes
pub mod Barcos
pub mod Horas
pub mod Lados
pub mod Tests
use rami_ledger.Prelude.{
  ℕ, zero, suc, ◌+◌, ◌-◌, ◌/◌, ◌≤◌, ◌<◌, ◌≡◌, refl, subst, ◌⊎◌, inl, inr, Bool, true, false, ltb,
  ltb→lt, if◌then◌else◌, Bool-cases, arith,
}

-- The last place that has come, between `lo` and `hi`; fuel: the length of the stretch.
abbrev pub mitades : ℕ → (ℕ → Bool) → ℕ → ℕ → ℕ
mitades zero ya lo hi = lo
mitades (suc g) ya lo hi =
    let m = (lo + hi + 1) / 2 in
    let right = mitades g ya m hi in
    let left = mitades g ya lo (m - 1) in if ltb lo hi then (if ya m then right else left) else lo

-- The last of them all, or the next one has not come.
abbrev pub EsTope : (ℕ → Bool) → ℕ → ℕ → Type 0
EsTope ya n k = (suc k ≡ n) ⊎ (ya (suc k) ≡ false)

-- Whatever the order of the places, the search ends at one that has come and is followed by none that
-- has.
pub mitades-EsTope :
    (g : ℕ) (ya : ℕ → Bool) (n lo hi : ℕ)
    → ya lo ≡ true
    → EsTope ya n hi
    → lo ≤ hi
    → hi ≤ lo + g
    → (ya (mitades g ya lo hi) ≡ true) × EsTope ya n (mitades g ya lo hi)
mitades-EsTope zero ya n lo hi y t l e =
    let same : hi ≡ lo = omega arith in (y, subst (EsTope ya n) same t)
mitades-EsTope (suc g) ya n lo hi y t l e = elim (Bool-cases (ltb lo hi)) [
  | inl q ↦ rw q (
      by_half (ya ((lo + hi + 1) / 2)) refl (ltb→lt lo hi q)
        (λ lo' hi'. mitades-EsTope g ya n lo' hi'))
  | inr q ↦ rw q (let same : hi ≡ lo = ground arith in (y, subst (EsTope ya n) same t))
]
  where
    by_half :
        (b : Bool)
        → ya ((lo + hi + 1) / 2) ≡ b
        → lo < hi
        → ((lo' hi' : ℕ)
            → ya lo' ≡ true
            → EsTope ya n hi'
            → lo' ≤ hi'
            → hi' ≤ lo' + g
            → (ya (mitades g ya lo' hi') ≡ true) × EsTope ya n (mitades g ya lo' hi'))
        → (ya (
              if b
              then mitades g ya ((lo + hi + 1) / 2) hi
              else mitades g ya lo ((lo + hi + 1) / 2 - 1))
            ≡ true)
          × EsTope ya n (
              if b
              then mitades g ya ((lo + hi + 1) / 2) hi
              else mitades g ya lo ((lo + hi + 1) / 2 - 1))
    by_half true d q ih = ih ((lo + hi + 1) / 2) hi d t (omega arith) (omega arith)
    by_half false d q ih =
        let next : (lo + hi + 1) / 2 ≡ suc ((lo + hi + 1) / 2 - 1) = omega arith in
        ih lo ((lo + hi + 1) / 2 - 1) y (inr (subst (λ k. ya k ≡ false) next d)) (omega arith)
          (omega arith)
