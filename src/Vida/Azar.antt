-- ===== src/Vida/Azar.antt =====
-- `mezcla`, `sorteo`, and the draws of the generator: a draw is the new state of `lcg`, and the
-- number that the source reads is that state in units of 2 ^ -32.
use Prim.Native.Nat.{bit_xor}
use rami_ledger.Prelude.{ℕ, suc, ◌*◌, ◌/◌, ◌^◌, Bool, List, [], ◌∷◌, ltb, leb, if◌then◌else◌}
use rami_ledger.Words.{imul, xor_shift}

unfoldable pub mezcla : ℕ → ℕ → ℕ
unfolding xor_shift
mezcla a b =
    let h = bit_xor (imul a 0x27d4_eb2d) (imul b 0x9e37_79b9) in
    xor_shift 13 (imul (xor_shift 15 h) 0x2545_f491)

-- `Math.floor(r() * n)` of a draw. The products are exact in floating point for the `n` of the
-- source: they have at most 21 binary digits before their last zeros.
abbrev pub entero : ℕ → ℕ → ℕ
entero s n = s * n / 2 ^ 32

-- `r() < c / 100` of a draw.
abbrev pub por_ciento : ℕ → ℕ → Bool
por_ciento s c = ltb (s * 100) (c * 2 ^ 32)

-- `while (q < acum.length - 1 && acum[q] <= x) q++`
unfoldable pub sorteo : List ℕ → ℕ → ℕ
sorteo [] x = 0
sorteo (a ∷ []) x = 0
sorteo (a ∷ b ∷ acum) x = let rest = sorteo (b ∷ acum) x in if leb a x then suc rest else 0
