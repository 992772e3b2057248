-- ===== src/Semillas/Texto.antt =====
-- Printed numbers determine the number (`toString`).
use native.Mathlib.Nat.{div-add-mod', div-lt_iff_lt-mul, pow-suc}
use rami_ledger.Prelude.{
  ℕ, zero, suc, ◌+◌, ◌-◌, ◌*◌, ◌/◌, ◌%◌, ◌^◌, ◌<◌, ◌≡◌, refl, sym, ◌∙◌, ap, List, [], ◌∷◌, ◌++◌,
  arith, ltb, if◌then◌else◌, Bool-cases, inl, inr,
}
use rami_ledger.Semillas.{digit_char, to_digits}

abbrev undigit : ℕ → ℕ
undigit c = if ltb c 58 then c - 48 else c - 87

undigit-digit_char : (d : ℕ) → undigit (digit_char d) ≡ d
undigit-digit_char d = ground arith

-- The number that a list of digits stands for.
of_digits : ℕ → ℕ → List ℕ → ℕ
of_digits base acc [] = acc
of_digits base acc (c ∷ cs) = of_digits base (acc * base + undigit c) cs

of_digits-append :
    (base acc : ℕ) (xs ys : List ℕ)
    → of_digits base acc (xs ++ ys) ≡ of_digits base (of_digits base acc xs) ys
unfolding of_digits
of_digits-append base acc [] ys = refl
of_digits-append base acc (x ∷ xs) ys = of_digits-append base (acc * base + undigit x) xs ys

half_fits : (k base n : ℕ) → 1 < base → n < 2 ^ suc k → n / base < 2 ^ k
half_fits k base n b h =
    (div-lt_iff_lt-mul {k = base} {x = n} {y = 2 ^ k} (omega arith)).1 (grind (arith, pow-suc 2 k))

-- Printing and reading back gives the number, where the digits suffice.
of_digits-to_digits :
    (fuel base n : ℕ) → 1 < base → n < 2 ^ fuel → of_digits base 0 (to_digits fuel base n) ≡ n
unfolding of_digits to_digits
of_digits-to_digits zero base n b h = omega arith
of_digits-to_digits (suc fuel) base n b h = elim (Bool-cases (ltb n base)) [
  | inl small ↦ rw small (omega (arith, undigit-digit_char n))
  | inr large ↦
      rw
        (
          large,
          of_digits-append base 0 (to_digits fuel base (n / base)) (digit_char (n % base) ∷ []),
          of_digits-to_digits fuel base (n / base) b (half_fits fuel base n b h),
          undigit-digit_char (n % base),
        )
        (div-add-mod' n base)
]

pub to_digits-inj :
    (fuel base n m : ℕ)
    → 1 < base
    → n < 2 ^ fuel
    → m < 2 ^ fuel
    → to_digits fuel base n ≡ to_digits fuel base m
    → n ≡ m
to_digits-inj fuel base n m b hn hm e =
    sym (of_digits-to_digits fuel base n b hn)
    ∙ ap (of_digits base 0) e
    ∙ of_digits-to_digits fuel base m b hm
