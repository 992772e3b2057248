-- ===== src/Words.antt =====
-- The 32-bit integer operations of JavaScript, on bit patterns below 2 ^ 32: `Math.imul`, `^`,
-- `>>> k` and the wrap-around of `| 0` and `>>> 0`.
pub mod Xor
pub mod Laws
use Prim.Native.Nat.{bit_xor}
use rami_ledger.Prelude.{ℕ, ◌*◌, ◌/◌, ◌%◌, ◌^◌}

abbrev pub word_mod : ℕ
word_mod = 2 ^ 32

-- `x | 0` and `x >>> 0` of a number that is not negative, as a pattern.
abbrev pub to_word : ℕ → ℕ
to_word x = x % word_mod

-- `Math.imul(a, b)`
abbrev pub imul : ℕ → ℕ → ℕ
imul a b = a * b % word_mod

-- `a ^ (a >>> k)`
unfoldable pub xor_shift : ℕ → ℕ → ℕ
xor_shift k a = bit_xor a (a / 2 ^ k)
