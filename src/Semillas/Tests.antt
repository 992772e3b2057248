-- ===== src/Semillas/Tests.antt =====
-- Known values of the hashes, and the theorems at concrete inputs.
use Prim.Native.Nat.{max}
use rami_ledger.Prelude.{◌≡◌, ◌↔◌, ℕ, refl, [], ◌∷◌, arith}
use rami_ledger.Words.{to_word}
use rami_ledger.Semillas.{fnv1a, str_seed, semilla_morfologia, semilla_ropaje, lcg_start}
use rami_ledger.Semillas.Inyectivas.{
  fnv1a_one_unit, semilla_morfologia-inj, semilla_ropaje-inj, lcg_run, lcg_streams,
}

-- FNV-1a of the empty text and of "a".
fnv1a_empty : fnv1a [] ≡ b'8' ∷ b'1' ∷ b'1' ∷ b'c' ∷ b'9' ∷ b'd' ∷ b'c' ∷ b'5' ∷ b':' ∷ b'0' ∷ []
unfolding fnv1a
fnv1a_empty = refl

str_seed_a : str_seed (b'a' ∷ []) ≡ 0xe40c_292c
unfolding str_seed
str_seed_a = refl

fnv1a_one_unit_case :
    (fnv1a (b'a' ∷ b'b' ∷ b'c' ∷ []) ≡ fnv1a (b'a' ∷ b'x' ∷ b'c' ∷ [])) ↔ (◌≡◌ {A = ℕ} b'b' b'x')
fnv1a_one_unit_case =
    fnv1a_one_unit (b'a' ∷ []) (b'c' ∷ []) b'b' b'x' (omega arith) (omega arith) (omega arith)

semilla_morfologia-inj_case :
    ((semilla_morfologia 3 4 1 ≡ semilla_morfologia 5 4 1) ↔ (◌≡◌ {A = ℕ} 3 5))
    × ((semilla_morfologia 3 4 1 ≡ semilla_morfologia 3 5 1) ↔ (◌≡◌ {A = ℕ} 4 5))
    × ((semilla_morfologia 3 4 1 ≡ semilla_morfologia 3 4 5) ↔ (◌≡◌ {A = ℕ} 1 5))
semilla_morfologia-inj_case =
    semilla_morfologia-inj 3 4 1 5 (omega arith) (omega arith) (omega arith) (omega arith)

semilla_ropaje-inj_example :
    ((semilla_ropaje 3 4 (b'o' ∷ b'a' ∷ []) 7 ≡ semilla_ropaje 3 4 (b'o' ∷ b'a' ∷ []) 9)
      ↔ (◌≡◌ {A = ℕ} 7 9))
    × ((semilla_ropaje 3 4 (b'o' ∷ b'a' ∷ []) 7 ≡ semilla_ropaje 3 4 (b'o' ∷ b'b' ∷ []) 7)
        ↔ (◌≡◌ {A = ℕ} b'a' b'b'))
semilla_ropaje-inj_example =
    semilla_ropaje-inj 3 4 (b'o' ∷ []) [] b'a' b'b' 7 9 tt (omega arith) (omega arith) (omega arith)
      (omega arith)

lcg_streams_case :
    (lcg_run 3 (lcg_start 0) ≡ lcg_run 3 (lcg_start 4242))
    ↔ (max 1 (to_word 0) ≡ max 1 (to_word 4242))
lcg_streams_case = lcg_streams 3 0 4242
