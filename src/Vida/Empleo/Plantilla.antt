-- ===== src/Vida/Empleo/Plantilla.antt =====
-- How many people a company has.
use native.Mathlib.Nat.{pow-suc}
use rami_ledger.Prelude.{
  ℕ, zero, suc, ◌*◌, ◌/◌, ◌^◌, ◌≤◌, ◌<◌, ◌≡◌, refl, arith, leb, if◌then◌else◌, min,
}
use rami_ledger.Vida.Empleo.{Parcela, bits_de, plantilla}

twice : (k : ℕ) → 2 ^ suc k ≡ 2 * 2 ^ k
twice k = omega (arith, pow-suc 2 k)

positive : (k : ℕ) → 1 ≤ 2 ^ k
positive zero = omega arith
positive (suc k) = omega (arith, twice k, positive k)

bits_step : (n rest : ℕ) → 2 ≤ n → (if leb 2 n then suc rest else 0) ≡ suc rest
bits_step n rest h = ground arith

bits_stop : (n rest : ℕ) → n < 2 → (if leb 2 n then suc rest else 0) ≡ 0
bits_stop n rest h = ground arith

-- The loop counts the bits below the highest one, up to its rounds.
bits_de_lem : (rounds k n : ℕ) → 2 ^ k ≤ n → n < 2 ^ suc k → bits_de rounds n ≡ min rounds k
bits_de_lem zero k n lo hi = omega arith
bits_de_lem (suc rounds) zero n lo hi =
    let stop = bits_stop n (bits_de rounds (n / 2)) hi in omega arith
bits_de_lem (suc rounds) (suc k) n lo hi =
    let half =
      bits_de_lem rounds k (n / 2) (omega (arith, twice k)) (omega (arith, twice (suc k))) in
    let step = bits_step n (bits_de rounds (n / 2)) (omega (arith, twice k, positive k)) in
    omega arith

-- The staff of a company changes with its income only when the highest bit of the income does.
pub plantilla_same_bit :
    (pc : Parcela) (ingresos k : ℕ)
    → 2 ^ k ≤ pc.ingresos / 100_000_000
    → pc.ingresos / 100_000_000 < 2 ^ suc k
    → 2 ^ k ≤ ingresos / 100_000_000
    → ingresos / 100_000_000 < 2 ^ suc k
    → plantilla
        (record { x = pc.x; y = pc.y; kind = pc.kind; ingresos = ingresos; assets = pc.assets })
      ≡ plantilla pc
unfolding plantilla
plantilla_same_bit pc ingresos k lo hi lo' hi' =
    rw
      (
        bits_de_lem 12 k (pc.ingresos / 100_000_000) lo hi,
        bits_de_lem 12 k (ingresos / 100_000_000) lo' hi',
      )
      refl
