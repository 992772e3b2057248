-- ===== src/Tormenta/Dia.antt =====
-- When a storm can blow: within its day, so that the days of two storms part their times.
use rami_ledger.Prelude.{ℕ, ◌+◌, ◌*◌, ◌≤◌, ◌<◌, ◌≡◌, some, arith}
use rami_ledger.Tormenta.{hora, jornada, dia_dubai, Tormenta, tormenta_de, tormenta_del_dia}

-- The hours of a storm, in Dubai's time: it begins at 14, 15 or 16 h and lasts 2 to 4 hours.
pub record IsOf (d : ℕ) (x : Tormenta) : Type 0 where
  pub dia : x.dia ≡ d
  pub desde : d * jornada + 14 * hora ≤ x.ini + 4 * hora
  pub dura : x.ini + 2 * hora ≤ x.fin
  pub hasta : x.fin + 4 * hora ≤ d * jornada + 20 * hora

tormenta_de-IsOf : (d h : ℕ) (x : Tormenta) → tormenta_de d h ≡ some x → IsOf d x
tormenta_de-IsOf d h x e = ground arith

pub tormenta_del_dia-IsOf : (d : ℕ) (x : Tormenta) → tormenta_del_dia d ≡ some x → IsOf d x
unfolding tormenta_del_dia
tormenta_del_dia-IsOf d x e = tormenta_de-IsOf d _ x e

-- While a storm of the day blows, the clock shows that day.
pub dia_dubai-IsOf : (d t : ℕ) (x : Tormenta) → IsOf d x → x.ini ≤ t → t < x.fin → dia_dubai t ≡ d
dia_dubai-IsOf d t x h a b = omega (arith, h.desde, h.hasta)
