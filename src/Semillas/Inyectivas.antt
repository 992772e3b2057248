-- ===== src/Semillas/Inyectivas.antt =====
-- What the hashes tell apart.
use mathlib.Core.List.{append_cancel_right}
use Prim.Native.Nat.{bit_xor, max}
use rami_ledger.Prelude.{
  ℕ, zero, suc, ◌+◌, ◌^◌, ◌<◌, ◌≡◌, ◌↔◌, refl, sym, ◌∙◌, ap, List, [], ◌∷◌, ◌++◌, arith, length,
  length-append, All,
}
use rami_ledger.Words.{word_mod, to_word, imul, xor_shift}
use rami_ledger.Words.Xor.{bit_xor-inj_right, bit_xor-inj_left}
use rami_ledger.Words.Laws.{xor_shift-inj, xor_shift-lt, bit_xor_word-lt, imul-lt, imul-inj}
use rami_ledger.Semillas.{
  fnv_round, fnv_loop, to_digits, fnv1a, semilla_morfologia, semilla_ropaje, lcg_start, lcg_next,
}
use rami_ledger.Semillas.Texto.{to_digits-inj}

-- A code unit of UTF-16.
abbrev pub IsUnit : ℕ → Type 0
IsUnit c = c < 2 ^ 16

fnv_round-inj :
    (g h c : ℕ) → g < word_mod → h < word_mod → IsUnit c → fnv_round g c ≡ fnv_round h c → g ≡ h
fnv_round-inj g h c hg hh hc e = bit_xor-inj_right g h c (
    imul-inj 0x0100_0193 899433627 (bit_xor g c) (bit_xor h c) refl
      (bit_xor_word-lt g c hg (omega arith)) (bit_xor_word-lt h c hh (omega arith)) e)

fnv_loop-inj :
    (s : List ℕ) (g h : ℕ)
    → All IsUnit s
    → g < word_mod
    → h < word_mod
    → fnv_loop g s ≡ fnv_loop h s
    → g ≡ h
unfolding fnv_loop
fnv_loop-inj [] g h u hg hh e = e
fnv_loop-inj (c ∷ s) g h (u, us) hg hh e =
    fnv_round-inj g h c hg hh u
      (fnv_loop-inj s (fnv_round g c) (fnv_round h c) us (imul-lt _ _) (imul-lt _ _) e)

fnv_loop-append : (h : ℕ) (s t : List ℕ) → fnv_loop h (s ++ t) ≡ fnv_loop (fnv_loop h s) t
unfolding fnv_loop
fnv_loop-append h [] t = refl
fnv_loop-append h (c ∷ s) t = fnv_loop-append (fnv_round h c) s t

fnv_loop-lt : (h : ℕ) (s : List ℕ) → h < word_mod → fnv_loop h s < word_mod
unfolding fnv_loop
fnv_loop-lt h [] k = k
fnv_loop-lt h (c ∷ s) k = fnv_loop-lt (fnv_round h c) s (imul-lt _ _)

-- From one start, texts that differ in one place end in different states.
one_unit :
    (h : ℕ) (s t : List ℕ) (c d : ℕ)
    → h < word_mod
    → All IsUnit t
    → IsUnit c
    → IsUnit d
    → fnv_loop h (s ++ c ∷ t) ≡ fnv_loop h (s ++ d ∷ t)
    → c ≡ d
unfolding fnv_loop
one_unit h s t c d hh u hc hd e =
    let g = fnv_loop h s in
    let k = fnv_loop-lt h s hh in
    let same : fnv_round g c ≡ fnv_round g d =
      fnv_loop-inj t (fnv_round g c) (fnv_round g d) u (imul-lt _ _) (imul-lt _ _)
        (sym (fnv_loop-append h s (c ∷ t)) ∙ e ∙ fnv_loop-append h s (d ∷ t)) in
    bit_xor-inj_left c d g (
      imul-inj 0x0100_0193 899433627 (bit_xor g c) (bit_xor g d) refl
        (bit_xor_word-lt g c k (omega arith)) (bit_xor_word-lt g d k (omega arith)) same)

abbrev print : ℕ → ℕ → List ℕ
print h n = to_digits 32 16 h ++ (b':' ∷ to_digits 53 10 n)

print-inj : (g h n m : ℕ) → g < word_mod → h < word_mod → n ≡ m → print g n ≡ print h m → g ≡ h
print-inj g h n m hg hh same e = to_digits-inj 32 16 g h (omega arith) hg hh (
    append_cancel_right (to_digits 32 16 g) (to_digits 32 16 h) (b':' ∷ to_digits 53 10 n)
      (e ∙ ap (print h) (sym same)))

fnv1a_same :
    (s t : List ℕ) (c d : ℕ)
    → All IsUnit t
    → IsUnit c
    → IsUnit d
    → fnv1a (s ++ c ∷ t) ≡ fnv1a (s ++ d ∷ t)
    → c ≡ d
unfolding fnv1a
fnv1a_same s t c d u hc hd e =
    let start : ℕ = 0x811c_9dc5 in
    let long : length (s ++ c ∷ t) ≡ length (s ++ d ∷ t) =
      omega (arith, length-append s (c ∷ t), length-append s (d ∷ t)) in
    one_unit start s t c d (omega arith) u hc hd (
      print-inj (fnv_loop start (s ++ c ∷ t)) (fnv_loop start (s ++ d ∷ t)) _ _
        (fnv_loop-lt start (s ++ c ∷ t) (omega arith))
        (fnv_loop-lt start (s ++ d ∷ t) (omega arith)) long e)

-- Two texts that agree but for one code unit have the same `fnv1a` exactly when the two units are
-- equal (the units from there on are code units of UTF-16).
pub fnv1a_one_unit :
    (s t : List ℕ) (c d : ℕ)
    → All IsUnit t
    → IsUnit c
    → IsUnit d
    → (fnv1a (s ++ c ∷ t) ≡ fnv1a (s ++ d ∷ t)) ↔ (c ≡ d)
fnv1a_one_unit s t c d u hc hd = (fnv1a_same s t c d u hc hd, ap (λ (a : ℕ). fnv1a (s ++ a ∷ t)))

-- The two rounds that end `semillaMorfologia` lose nothing.
finish : ℕ → ℕ
finish h = xor_shift 13 (imul (xor_shift 15 h) 0x2545_f491)

finish-inj : (g h : ℕ) → g < word_mod → h < word_mod → finish g ≡ finish h → g ≡ h
unfolding finish
finish-inj g h hg hh e = xor_shift-inj 14 g h (
    imul-inj 0x2545_f491 1094995057 (xor_shift 15 g) (xor_shift 15 h) refl (xor_shift-lt 15 g hg)
      (xor_shift-lt 15 h hh) (xor_shift-inj 12 _ _ e))

-- The three words that `semillaMorfologia` mixes first.
abbrev mixed : ℕ → ℕ → ℕ → ℕ
mixed x y canal =
    bit_xor (bit_xor (imul x 0x27d4_eb2d) (imul y 0x1656_67b1)) (imul canal 0x9e37_79b9)

mixed-lt : (x y canal : ℕ) → mixed x y canal < word_mod
mixed-lt x y canal =
    bit_xor_word-lt _ _ (bit_xor_word-lt _ _ (imul-lt x _) (imul-lt y _)) (imul-lt canal _)

semilla_morfologia-mixed :
    (x y canal x' y' canal' : ℕ)
    → semilla_morfologia x y canal ≡ semilla_morfologia x' y' canal'
    → mixed x y canal ≡ mixed x' y' canal'
unfolding semilla_morfologia finish
semilla_morfologia-mixed x y canal x' y' canal' e =
    finish-inj _ _ (mixed-lt x y canal) (mixed-lt x' y' canal') e

-- Changing only the column, only the row or only the channel (32-bit words) keeps the morphology
-- seed exactly when it changes nothing.
pub semilla_morfologia-inj :
    (x y canal z : ℕ)
    → x < word_mod
    → y < word_mod
    → canal < word_mod
    → z < word_mod
    → ((semilla_morfologia x y canal ≡ semilla_morfologia z y canal) ↔ (x ≡ z))
      × ((semilla_morfologia x y canal ≡ semilla_morfologia x z canal) ↔ (y ≡ z))
      × ((semilla_morfologia x y canal ≡ semilla_morfologia x y z) ↔ (canal ≡ z))
semilla_morfologia-inj x y canal z hx hy hc hz = (
  (
    λ e. imul-inj 0x27d4_eb2d 4218002597 x z refl hx hz (
        bit_xor-inj_right _ _ (imul y 0x1656_67b1) (
          bit_xor-inj_right _ _ (imul canal 0x9e37_79b9)
            (semilla_morfologia-mixed x y canal z y canal e))),
    ap (λ (t : ℕ). semilla_morfologia t y canal),
  ),
  (
    λ e. imul-inj 0x1656_67b1 2923004241 y z refl hy hz (
        bit_xor-inj_left _ _ (imul x 0x27d4_eb2d) (
          bit_xor-inj_right _ _ (imul canal 0x9e37_79b9)
            (semilla_morfologia-mixed x y canal x z canal e))),
    ap (λ (t : ℕ). semilla_morfologia x t canal),
  ),
  (
    λ e. imul-inj 0x9e37_79b9 340573321 canal z refl hc hz (
        bit_xor-inj_left _ _ (bit_xor (imul x 0x27d4_eb2d) (imul y 0x1656_67b1))
          (semilla_morfologia-mixed x y canal x y z e)),
    ap (λ (t : ℕ). semilla_morfologia x y t),
  ),
)

semilla_morfologia-lt : (x y canal : ℕ) → semilla_morfologia x y canal < word_mod
unfolding semilla_morfologia
semilla_morfologia-lt x y canal = xor_shift-lt 13 _ (imul-lt _ _)

-- The two rounds that end `semillaRopaje`.
abbrev dressed : ℕ → ℕ → ℕ
dressed h desde = imul (bit_xor h (to_word (desde + 0x9e37_79b9))) 0x85eb_ca6b

dressed_xor :
    (g h d d' : ℕ)
    → g < word_mod
    → h < word_mod
    → xor_shift 16 (dressed g d) ≡ xor_shift 16 (dressed h d')
    → bit_xor g (to_word (d + 0x9e37_79b9)) ≡ bit_xor h (to_word (d' + 0x9e37_79b9))
dressed_xor g h d d' hg hh e =
    imul-inj 0x85eb_ca6b 2781581891 _ _ refl (bit_xor_word-lt g _ hg (omega arith))
      (bit_xor_word-lt h _ hh (omega arith)) (xor_shift-inj 15 _ _ e)

ropaje_desde :
    (x y : ℕ) (dueno : List ℕ) (d d' : ℕ)
    → d < word_mod
    → d' < word_mod
    → semilla_ropaje x y dueno d ≡ semilla_ropaje x y dueno d'
    → d ≡ d'
unfolding semilla_ropaje
ropaje_desde x y dueno d d' hd hd' e =
    let h = fnv_loop (semilla_morfologia x y 0) dueno in
    let k = fnv_loop-lt (semilla_morfologia x y 0) dueno (semilla_morfologia-lt x y 0) in
    let same : to_word (d + 0x9e37_79b9) ≡ to_word (d' + 0x9e37_79b9) =
      bit_xor-inj_left _ _ h (dressed_xor h h d d' k k e) in
    omega arith

ropaje_dueno :
    (x y : ℕ) (s t : List ℕ) (a b d : ℕ)
    → All IsUnit t
    → IsUnit a
    → IsUnit b
    → semilla_ropaje x y (s ++ a ∷ t) d ≡ semilla_ropaje x y (s ++ b ∷ t) d
    → a ≡ b
unfolding semilla_ropaje
ropaje_dueno x y s t a b d u ha hb e =
    let start = semilla_morfologia x y 0 in
    let m = semilla_morfologia-lt x y 0 in
    one_unit start s t a b m u ha hb (
      bit_xor-inj_right _ _ (to_word (d + 0x9e37_79b9)) (
        dressed_xor _ _ d d (fnv_loop-lt start (s ++ a ∷ t) m) (fnv_loop-lt start (s ++ b ∷ t) m)
          e))

-- On one parcel the clothing seed stays the same exactly when nothing changes, if only the founding
-- block changes (a 32-bit word), or only one code unit of the owner's text.
pub semilla_ropaje-inj :
    (x y : ℕ) (s t : List ℕ) (a b d d' : ℕ)
    → All IsUnit t
    → IsUnit a
    → IsUnit b
    → d < word_mod
    → d' < word_mod
    → ((semilla_ropaje x y (s ++ a ∷ t) d ≡ semilla_ropaje x y (s ++ a ∷ t) d') ↔ (d ≡ d'))
      × ((semilla_ropaje x y (s ++ a ∷ t) d ≡ semilla_ropaje x y (s ++ b ∷ t) d) ↔ (a ≡ b))
semilla_ropaje-inj x y s t a b d d' u ha hb hd hd' = (
  (ropaje_desde x y (s ++ a ∷ t) d d' hd hd', ap (semilla_ropaje x y (s ++ a ∷ t))),
  (ropaje_dueno x y s t a b d u ha hb, ap (λ (c : ℕ). semilla_ropaje x y (s ++ c ∷ t) d)),
)

-- The state after `n` calls.
abbrev pub lcg_run : ℕ → ℕ → ℕ
lcg_run zero s = s
lcg_run (suc n) s = lcg_run n (lcg_next s)

lcg_start-max : (a : ℕ) → lcg_start a ≡ max 1 (to_word a)
unfolding lcg_start
lcg_start-max a = ground arith

lcg_start-lt : (a : ℕ) → lcg_start a < word_mod
lcg_start-lt a = omega (arith, lcg_start-max a)

lcg_next-lt : (s : ℕ) → lcg_next s < word_mod
unfolding lcg_next
lcg_next-lt s = omega arith

lcg_next-inj : (s t : ℕ) → s < word_mod → t < word_mod → lcg_next s ≡ lcg_next t → s ≡ t
unfolding lcg_next
lcg_next-inj s t hs ht e = imul-inj 1664525 4276115653 s t refl hs ht (omega arith)

lcg_run-inj : (n s t : ℕ) → s < word_mod → t < word_mod → lcg_run n s ≡ lcg_run n t → s ≡ t
lcg_run-inj zero s t hs ht e = e
lcg_run-inj (suc n) s t hs ht e =
    lcg_next-inj s t hs ht
      (lcg_run-inj n (lcg_next s) (lcg_next t) (lcg_next-lt s) (lcg_next-lt t) e)

-- After any number of calls two generators are in the same state exactly when their seeds, as words
-- with 0 read as 1, are equal: no stream ever joins another.
pub lcg_streams :
    (n a b : ℕ)
    → (lcg_run n (lcg_start a) ≡ lcg_run n (lcg_start b)) ↔ (max 1 (to_word a) ≡ max 1 (to_word b))
lcg_streams n a b = (
  λ e.
      sym (lcg_start-max a)
      ∙ lcg_run-inj n (lcg_start a) (lcg_start b) (lcg_start-lt a) (lcg_start-lt b) e
      ∙ lcg_start-max b,
  λ e. ap (lcg_run n) (lcg_start-max a ∙ e ∙ sym (lcg_start-max b)),
)
