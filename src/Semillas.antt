-- ===== src/Semillas.antt =====
-- The hashes and the generator of chain/crates/rami-gui/src/city3d.js: `fnv1a`, `strSeed`,
-- `semillaMorfologia`, `semillaRopaje` and `lcg`. A text is the list of its UTF-16 code units, and
-- an `int` argument is its 32-bit pattern.
pub mod Texto
pub mod Inyectivas
pub mod Tests
use Prim.Native.Nat.{bit_xor}
use rami_ledger.Prelude.{
  ℕ, zero, suc, ◌+◌, ◌-◌, ◌*◌, ◌/◌, ◌%◌, ◌<◌, List, [], ◌∷◌, ◌++◌, ltb, ◌==◌, if◌then◌else◌, length,
}
use rami_ledger.Words.{word_mod, to_word, imul, xor_shift}

-- One round of the loops of `fnv1a`, `strSeed` and `semillaRopaje`.
abbrev pub fnv_round : ℕ → ℕ → ℕ
fnv_round h c = imul (bit_xor h c) 0x0100_0193

unfoldable pub fnv_loop : ℕ → List ℕ → ℕ
fnv_loop h [] = h
fnv_loop h (c ∷ s) = fnv_loop (fnv_round h c) s

-- `n.toString(base)`, most significant digit first; `fuel` bounds the number of digits.
abbrev pub digit_char : ℕ → ℕ
digit_char d = if ltb d 10 then 48 + d else 87 + d

unfoldable pub to_digits : ℕ → ℕ → ℕ → List ℕ
to_digits zero base n = []
to_digits (suc fuel) base n =
    let rest = to_digits fuel base (n / base) in
    if ltb n base then digit_char n ∷ [] else rest ++ (digit_char (n % base) ∷ [])

unfoldable pub fnv1a : List ℕ → List ℕ
unfolding fnv_loop to_digits
fnv1a s = to_digits 32 16 (fnv_loop 0x811c_9dc5 s) ++ (b':' ∷ to_digits 53 10 (length s))

unfoldable pub str_seed : List ℕ → ℕ
unfolding fnv_loop
str_seed s = fnv_loop 2166136261 s

unfoldable pub semilla_morfologia : ℕ → ℕ → ℕ → ℕ
unfolding xor_shift
semilla_morfologia x y canal =
    let h = bit_xor (bit_xor (imul x 0x27d4_eb2d) (imul y 0x1656_67b1)) (imul canal 0x9e37_79b9) in
    xor_shift 13 (imul (xor_shift 15 h) 0x2545_f491)

-- `dueno` is `[]` where the source has no owner; the parcel's own seed is that of channel 0.
unfoldable pub semilla_ropaje : ℕ → ℕ → List ℕ → ℕ → ℕ
unfolding semilla_morfologia fnv_loop xor_shift
semilla_ropaje x y dueno desde =
    let h = fnv_loop (semilla_morfologia x y 0) dueno in
    xor_shift 16 (imul (bit_xor h (to_word (desde + 0x9e37_79b9))) 0x85eb_ca6b)

-- The closure of `lcg`: its first state, and a call, which gives the new state; the number that the
-- call returns is that state in units of 2 ^ -32.
unfoldable pub lcg_start : ℕ → ℕ
lcg_start seed = if to_word seed == 0 then 1 else to_word seed

unfoldable pub lcg_next : ℕ → ℕ
lcg_next s = to_word (imul s 1664525 + 1013904223)
