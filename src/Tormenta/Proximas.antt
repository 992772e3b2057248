-- ===== src/Tormenta/Proximas.antt =====
-- What `proximasTormentas` lists.
use mathlib.Core.List.{Memᴰ}
use rami_ledger.Prelude.{
  ℕ, zero, suc, ◌+◌, ◌-◌, ◌≤◌, ◌<◌, ◌≡◌, refl, ◌∙◌, ap, Option, none, some, List, [], ◌∷◌, arith,
  length, take, ltb, lt→ltb, ◌==◌, Bool, true, false, if◌then◌else◌,
}
use rami_ledger.Tormenta.{dia_dubai, Tormenta, tormenta_del_dia, proximas_loop, proximas_tormentas}
use rami_ledger.Tormenta.Dia.{tormenta_del_dia-IsOf}

-- The storms of `left` days from `d` on that are not over at `t`.
abbrev keep : ℕ → Option Tormenta → List Tormenta → List Tormenta
keep t none xs = xs
keep t (some x) xs = if ltb t x.fin then x ∷ xs else xs

abbrev pub calendario : ℕ → ℕ → ℕ → List Tormenta
calendario zero d t = []
calendario (suc left) d t = keep t (tormenta_del_dia d) (calendario left (d + 1) t)

if_take :
    (b : Bool) (n : ℕ) (x : Tormenta) (xs more rest : List Tormenta)
    → more ≡ take n xs
    → rest ≡ take (suc n) xs
    → (if b then x ∷ more else rest) ≡ take (suc n) (if b then x ∷ xs else xs)
if_take true n x xs more rest e f = ap (λ (l : List Tormenta). x ∷ l) e
if_take false n x xs more rest e f = f

keep-take :
    (o : Option Tormenta) (n t : ℕ) (xs more rest : List Tormenta)
    → more ≡ take n xs
    → rest ≡ take (suc n) xs
    → elim o as (λ _. List Tormenta) [
      | none ↦ rest
      | some x ↦ if ltb t x.fin then x ∷ more else rest
    ]
      ≡ take (suc n) (keep t o xs)
keep-take none n t xs more rest e f = f
keep-take (some x) n t xs more rest e f = if_take (ltb t x.fin) n x xs more rest e f

suc_not_zero : (n : ℕ) → (suc n == 0) ≡ false
suc_not_zero n = ground arith

loop-take : (left n d t : ℕ) → proximas_loop left n d t ≡ take n (calendario left d t)
unfolding proximas_loop
loop-take zero zero d t = refl
loop-take zero (suc n) d t = refl
loop-take (suc left) zero d t = refl
loop-take (suc left) (suc n) d t = rw (suc_not_zero n) (
    keep-take (tormenta_del_dia d) n t (calendario left (d + 1) t) _ _
      (ap (λ (k : ℕ). proximas_loop left k (d + 1) t) {x = suc n - 1} (omega arith)
        ∙ loop-take left n (d + 1) t)
      (loop-take left (suc n) (d + 1) t))

-- `proximasTormentas(n, t)` is the first `n` storms of the calendar of 800 days from today on that
-- are not over.
pub proximas_tormentas-calendario :
    (n t : ℕ) → proximas_tormentas n t ≡ take n (calendario 800 (dia_dubai t) t)
unfolding proximas_tormentas
proximas_tormentas-calendario n t = loop-take 800 n (dia_dubai t) t

keep_mem :
    (o : Option Tormenta) (t : ℕ) (x : Tormenta) (xs : List Tormenta)
    → Memᴰ x xs
    → Memᴰ x (keep t o xs)
keep_mem none t x xs m = m
keep_mem (some y) t x xs m = if_mem (ltb t y.fin) m
  where
    if_mem : (b : Bool) → Memᴰ x xs → Memᴰ x (if b then y ∷ xs else xs)
    if_mem true m = Memᴰ.tail m
    if_mem false m = m

keep_here :
    (o : Option Tormenta) (t : ℕ) (x : Tormenta) (xs : List Tormenta)
    → o ≡ some x
    → t < x.fin
    → Memᴰ x (keep t o xs)
keep_here o t x xs e h = rw (e, lt→ltb t x.fin h) (Memᴰ.head refl)

calendario_mem :
    (left d t k : ℕ) (x : Tormenta)
    → tormenta_del_dia (d + k) ≡ some x
    → k < left
    → t < x.fin
    → Memᴰ x (calendario left d t)
calendario_mem zero d t k x e h l = elim h [ ]
calendario_mem (suc left) d t zero x e h l =
    keep_here (tormenta_del_dia d) t x (calendario left (d + 1) t)
      (ap tormenta_del_dia {x = d} (omega arith) ∙ e) l
calendario_mem (suc left) d t (suc k) x e h l =
    keep_mem (tormenta_del_dia d) t x (calendario left (d + 1) t) (
      calendario_mem left (d + 1) t k x (ap tormenta_del_dia {x = d + 1 + k} (omega arith) ∙ e)
        (omega arith) l)

length-keep :
    (o : Option Tormenta) (t : ℕ) (xs : List Tormenta) → length (keep t o xs) ≤ suc (length xs)
length-keep none t xs = omega arith
length-keep (some y) t xs = ground arith

length-calendario : (left d t : ℕ) → length (calendario left d t) ≤ left
length-calendario zero d t = omega arith
length-calendario (suc left) d t = omega (
  arith,
  length-keep (tormenta_del_dia d) t (calendario left (d + 1) t),
  length-calendario left (d + 1) t,
)

take_all : (n : ℕ) (xs : List Tormenta) → length xs ≤ n → take n xs ≡ xs
take_all zero [] h = refl
take_all zero (x ∷ xs) h = elim h [ ]
take_all (suc n) [] h = refl
take_all (suc n) (x ∷ xs) h = ap (λ (l : List Tormenta). x ∷ l) (take_all n xs (omega arith))

-- No storm is missed: with room for 800, `proximasTormentas` lists the storm of every day less than
-- 800 days from today on, if it is not over; the storms of the days before today are all over.
pub proximas_tormentas_complete :
    (t d : ℕ) (x : Tormenta)
    → tormenta_del_dia d ≡ some x
    → t < x.fin
    → d < dia_dubai t + 800
    → Memᴰ x (proximas_tormentas 800 t)
proximas_tormentas_complete t d x e h near =
    let of_day = tormenta_del_dia-IsOf d x e in
    let today : dia_dubai t ≤ d = omega (arith, of_day.hasta) in
    rw
      (
        proximas_tormentas-calendario 800 t,
        take_all 800 (calendario 800 (dia_dubai t) t) (length-calendario 800 (dia_dubai t) t),
      )
      (calendario_mem 800 (dia_dubai t) t (d - dia_dubai t) x
        (ap tormenta_del_dia {x = dia_dubai t + (d - dia_dubai t)} (omega arith) ∙ e) (omega arith)
        h)
