-- ===== src/Catastro/Celdas.antt =====
-- Which cells the loops over the grid go through.
use mathlib.Core.List.{Memᴰ}
use mathlib.Core.List.Memᴰ
use native.Mathlib.Decide.{dec_lt}
use rami_ledger.Prelude.{
  ℕ, zero, suc, ◌+◌, ◌-◌, ◌*◌, ◌≤◌, ◌<◌, sym, ap, subst, List, [], ◌∷◌, leb, if◌then◌else◌, arith,
}
use rami_ledger.Flotantes.{ℤ, pos, negsuc, desde_cero, hasta_tope}
use rami_ledger.Catastro.{cuenta_desde, de_a, fila, filas, celdas}

-- The order of the integers.
abbrev pub EnOrden : ℤ → ℤ → Type 0
EnOrden (pos a) (pos b) = a ≤ b
EnOrden (negsuc a) (pos b) = Unit
EnOrden (pos a) (negsuc b) = ⊥
EnOrden (negsuc a) (negsuc b) = b ≤ a

pub EnOrden-trans : (a b c : ℤ) → EnOrden a b → EnOrden b c → EnOrden a c
EnOrden-trans (pos a) (pos b) (pos c) h k = omega arith
EnOrden-trans (pos a) (pos b) (negsuc c) h k = elim k [ ]
EnOrden-trans (pos a) (negsuc b) c h k = elim h [ ]
EnOrden-trans (negsuc a) b (pos c) h k = tt
EnOrden-trans (negsuc a) (pos b) (negsuc c) h k = elim k [ ]
EnOrden-trans (negsuc a) (negsuc b) (negsuc c) h k = omega arith

-- A range of cells that meets the grid.
abbrev pub Cabe : ℕ → ℤ → ℤ → Type 0
Cabe n a b = EnOrden a (pos n) × EnOrden (pos 0) b

mem-cuenta_desde : (i a n : ℕ) → a ≤ i → i < a + n → Memᴰ i (cuenta_desde a n)
mem-cuenta_desde i a zero h k = absurd (omega arith)
mem-cuenta_desde i a (suc n) h k = elim (dec_lt a i) [
  | yes l ↦ Memᴰ.tail (mem-cuenta_desde i (suc a) n (omega arith) (omega arith))
  | no l ↦ Memᴰ.head (omega arith)
]

capped : (top b i : ℕ) → i ≤ top → i ≤ b → i < i + (suc (if leb top b then top else b) - i)
capped top b i h k = ground arith

pub mem-de_a :
    (a b : ℤ) (i top : ℕ)
    → EnOrden a (pos i)
    → EnOrden (pos i) b
    → i ≤ top
    → Memᴰ i (de_a (desde_cero a) (hasta_tope top b))
mem-de_a a (negsuc b) i top h k le = elim k [ ]
mem-de_a (pos a) (pos b) i top h k le =
    mem-cuenta_desde i a (suc (if leb top b then top else b) - a) h (ground arith)
mem-de_a (negsuc a) (pos b) i top h k le =
    mem-cuenta_desde i 0 (suc (if leb top b then top else b) - 0) (omega arith) (ground arith)

mem-fila : (nx j i : ℕ) (is : List ℕ) → Memᴰ i is → Memᴰ (j * nx + i) (fila nx j is)
mem-fila nx j i is (Memᴰ.head e) = Memᴰ.head (ap (λ q. j * nx + q) e)
mem-fila nx j i (x ∷ is) (Memᴰ.tail m) = Memᴰ.tail (mem-fila nx j i is m)

mem-filas :
    (nx i j : ℕ) (is js : List ℕ) → Memᴰ i is → Memᴰ j js → Memᴰ (j * nx + i) (filas nx is js)
mem-filas nx i j is [] m m' = elim m' [ ]
mem-filas nx i j is (x ∷ js) m (Memᴰ.head e) =
    Memᴰ.append_left (filas nx is js)
      (subst (λ q. Memᴰ (q * nx + i) (fila nx x is)) (sym e) (mem-fila nx x i is m))
mem-filas nx i j is (x ∷ js) m (Memᴰ.tail m') =
    Memᴰ.append_right (fila nx x is) (mem-filas nx i j is js m m')

-- A cell of both ranges is gone through.
pub mem-celdas :
    (nx nz : ℕ) (i0 i1 j0 j1 : ℤ) (i j : ℕ)
    → EnOrden i0 (pos i)
    → EnOrden (pos i) i1
    → EnOrden j0 (pos j)
    → EnOrden (pos j) j1
    → i < nx
    → j < nz
    → Memᴰ (j * nx + i) (celdas nx nz (desde_cero i0) i1 (desde_cero j0) j1)
mem-celdas nx nz i0 i1 j0 j1 i j a b c d li lj =
    mem-filas nx i j (de_a (desde_cero i0) (hasta_tope (nx - 1) i1))
      (de_a (desde_cero j0) (hasta_tope (nz - 1) j1)) (mem-de_a i0 i1 i (nx - 1) a b (omega arith))
      (mem-de_a j0 j1 j (nz - 1) c d (omega arith))

-- Two ranges that meet the grid and each other have a cell of the grid in common.
pub common :
    (a0 a1 b0 b1 : ℤ) (n : ℕ)
    → Cabe n a0 a1
    → Cabe n b0 b1
    → EnOrden a0 a1
    → EnOrden b0 b1
    → EnOrden a0 b1
    → EnOrden b0 a1
    → (i : ℕ) × ((i ≤ n)
        × ((EnOrden a0 (pos i) × EnOrden (pos i) a1) × (EnOrden b0 (pos i) × EnOrden (pos i) b1)))
common a0 (negsuc a1) b0 b1 n h k p q r s = elim h.1 [ ]
common a0 (pos a1) b0 (negsuc b1) n h k p q r s = elim k.1 [ ]
common (negsuc a0) (pos a1) (negsuc b0) (pos b1) n h k p q r s = (0, omega arith)
common (negsuc a0) (pos a1) (pos b0) (pos b1) n h k p q r s = (b0, omega arith)
common (pos a0) (pos a1) (negsuc b0) (pos b1) n h k p q r s = (a0, omega arith)
common (pos a0) (pos a1) (pos b0) (pos b1) n h k p q r s = elim (dec_lt a0 b0) [
  | yes l ↦ (b0, omega arith)
  | no l ↦ (a0, omega arith)
]
