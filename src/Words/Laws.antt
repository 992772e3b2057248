-- ===== src/Words/Laws.antt =====
-- Which word operations lose nothing.
use native.Mathlib.Nat.{div-le_self}
use rami_ledger.Prelude.{ℕ, zero, suc, ◌+◌, ◌*◌, ◌/◌, ◌%◌, ◌^◌, ◌≤◌, ◌<◌, ◌≡◌, sym, ◌∙◌, ap, arith}
use rami_ledger.Words.{word_mod, imul, xor_shift}
use rami_ledger.Words.Xor.{bit_xor-div, bit_xor-inj_right, bit_xor-lt, div_pow_suc}
use Prim.Native.Nat.{bit_xor}

-- A word is less than half of itself once shifted.
half_bound : (k x n : ℕ) → x ≤ suc n → x / 2 ^ suc k ≤ n
half_bound k x n h = omega (arith, div_pow_suc k x, div-le_self x (2 ^ k))

shift_inj_fuel : (k n x y : ℕ) → x ≤ n → y ≤ n → xor_shift (suc k) x ≡ xor_shift (suc k) y → x ≡ y
unfolding xor_shift
shift_inj_fuel k zero x y h h' e = omega arith
shift_inj_fuel k (suc n) x y h h' e =
    let high : x / 2 ^ suc k ≡ y / 2 ^ suc k =
      shift_inj_fuel k n (x / 2 ^ suc k) (y / 2 ^ suc k) (half_bound k x n h) (half_bound k y n h')
        (sym (shifted x) ∙ ap (λ (t : ℕ). t / 2 ^ suc k) e ∙ shifted y) in
    bit_xor-inj_right x y (x / 2 ^ suc k) (e ∙ ap (λ (t : ℕ). bit_xor y t) (sym high))
  where
    shifted : (z : ℕ) → xor_shift (suc k) z / 2 ^ suc k ≡ xor_shift (suc k) (z / 2 ^ suc k)
    shifted z = bit_xor-div (suc k) z (z / 2 ^ suc k)

-- `a ^ (a >>> k)` with `k > 0` loses nothing, at any width.
pub xor_shift-inj : (k x y : ℕ) → xor_shift (suc k) x ≡ xor_shift (suc k) y → x ≡ y
xor_shift-inj k x y = shift_inj_fuel k (x + y) x y (omega arith) (omega arith)

pub xor_shift-lt : (k x : ℕ) → x < word_mod → xor_shift k x < word_mod
unfolding xor_shift
xor_shift-lt k x h = bit_xor-lt 32 x (x / 2 ^ k) h (omega (arith, div-le_self x (2 ^ k)))

pub bit_xor_word-lt : (a b : ℕ) → a < word_mod → b < word_mod → bit_xor a b < word_mod
bit_xor_word-lt a b = bit_xor-lt 32 a b

pub imul-lt : (a b : ℕ) → imul a b < word_mod
imul-lt a b = omega arith

-- Multiplication by a constant is undone by its inverse.
pub imul_undo : (c d x : ℕ) → c * d % word_mod ≡ 1 → x < word_mod → imul (imul x c) d ≡ x
imul_undo c d x unit h =
    let wrapped : x * c ≡ x * c / word_mod * word_mod + x * c % word_mod = omega arith in
    let inverse : c * d ≡ c * d / word_mod * word_mod + 1 = omega arith in
    omega (arith, ap (λ (t : ℕ). t * d) wrapped, ap (λ (t : ℕ). x * t) inverse)

pub imul-inj :
    (c d x y : ℕ) → c * d % word_mod ≡ 1 → x < word_mod → y < word_mod → imul x c ≡ imul y c → x ≡ y
imul-inj c d x y unit hx hy e =
    sym (imul_undo c d x unit hx) ∙ ap (λ (t : ℕ). imul t d) e ∙ imul_undo c d y unit hy
