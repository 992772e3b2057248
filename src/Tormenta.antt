-- ===== src/Tormenta.antt =====
-- The storm calendar of chain/crates/rami-gui/src/city/extras.js: which days have a storm and when,
-- the cache of today's storm and the storm button. Times are in milliseconds since the epoch (the
-- source counts seconds, with the milliseconds behind the point).
pub mod Dia
pub mod Proximas
pub mod Boton
pub mod Tests
use rami_ledger.Prelude.{
  ℕ, zero, suc, ◌+◌, ◌-◌, ◌*◌, ◌/◌, ◌%◌, ◌^◌, min, Bool, true, false, Option, none, some, List, [],
  ◌∷◌, ltb, leb, ◌==◌, if◌then◌else◌, ◌&&◌,
}
use rami_ledger.Words.{to_word}
use rami_ledger.Semillas.{semilla_morfologia}

abbrev pub hora : ℕ
hora = 3600000

abbrev pub jornada : ℕ
jornada = 86400000

-- `TORMENTA.RAMPA`, half an hour.
abbrev pub rampa : ℕ
rampa = 1800000

-- The day of a moment, in Dubai's time.
abbrev pub dia_dubai : ℕ → ℕ
dia_dubai t = (t + 4 * hora) / jornada

pub record Tormenta : Type 0 where
  pub dia : ℕ
  pub ini : ℕ
  pub fin : ℕ
  pub rumbo : ℕ

-- The storm that a seed gives the day `d`.
abbrev pub tormenta_de : ℕ → ℕ → Option Tormenta
tormenta_de d h =
    let inicio_h = 14 + h / 2 ^ 8 % 4 % 3 in
    let horas = 2 + h / 2 ^ 12 % 4 % 3 in
    if h % 17 == 0
    then some (record {
      dia = d;
      ini = d * jornada + inicio_h * hora - 4 * hora;
      fin = d * jornada + (inicio_h + horas) * hora - 4 * hora;
      rumbo = h / 2 ^ 16 % 512 % 360;
    })
    else none

unfoldable pub tormenta_del_dia : ℕ → Option Tormenta
tormenta_del_dia d = tormenta_de d (semilla_morfologia (to_word d) 0x7a11 41)

-- The loop of `proximasTormentas`: `left` days to go from `d`, and room for `n` storms.
unfoldable pub proximas_loop : ℕ → ℕ → ℕ → ℕ → List Tormenta
proximas_loop zero n d t = []
proximas_loop (suc left) n d t =
    let more = proximas_loop left (n - 1) (d + 1) t in
    let rest = proximas_loop left n (d + 1) t in
    if n == 0
    then []
    else elim (tormenta_del_dia d) [ none ↦ rest | some x ↦ if ltb t x.fin then x ∷ more else rest ]

unfoldable pub proximas_tormentas : ℕ → ℕ → List Tormenta
proximas_tormentas n t = proximas_loop 800 n (dia_dubai t) t

-- The fields of `tormenta` that the calendar and the button use. The source's first `dia` is -1, a
-- day that no clock shows: here `none`.
pub record Estado : Type 0 where
  pub forzada : Option Bool
  pub quitada_hasta : ℕ
  pub dia : Option ℕ
  pub hoy : Option Tormenta

abbrev pub inicial : Estado
inicial = record { forzada = none; quitada_hasta = 0; dia = none; hoy = none }

abbrev pub es_dia : Option ℕ → ℕ → Bool
es_dia none d = false
es_dia (some e) d = e == d

-- `if (d !== tormenta.dia) { tormenta.dia = d; tormenta.hoy = tormentaDelDia(d); }`
unfoldable pub refresca : ℕ → Estado → Estado
refresca t s =
    if es_dia s.dia (dia_dubai t)
    then s
    else record s { dia = some (dia_dubai t); hoy = tormenta_del_dia (dia_dubai t) }

-- `clamp(a / RAMPA, 0, 1) * clamp(b / RAMPA, 0, 1)`, in units of `RAMPA` to the power of -2.
abbrev pub intensidad_de : ℕ → Option Tormenta → ℕ
intensidad_de t none = 0
intensidad_de t (some x) = min (t - x.ini) rampa * min (x.fin - t) rampa

unfoldable pub intensidad_calendario : ℕ → Estado → ℕ × Estado
intensidad_calendario t s = let s' = refresca t s in (intensidad_de t s'.hoy, s')

abbrev pub sopla : ℕ → Option Tormenta → Option Tormenta
sopla t none = none
sopla t (some x) = if leb x.ini t && ltb t x.fin then some x else none

unfoldable pub tormenta_en_curso : ℕ → Estado → Option Tormenta × Estado
unfolding intensidad_calendario
tormenta_en_curso t s = let s' = (intensidad_calendario t s).1 in (sopla t s'.hoy, s')

abbrev pub es_forzada : Option Bool → Bool
es_forzada none = false
es_forzada (some b) = b

unfoldable pub boton_tormenta : ℕ → Estado → Estado
boton_tormenta t s =
    let (cal, s') = tormenta_en_curso t s in
    if es_forzada s'.forzada then record s' { forzada = none } else elim cal [
      | none ↦ record s' { forzada = some true }
      | some x ↦ record s' { quitada_hasta = if leb x.fin s'.quitada_hasta then 0 else x.fin }
    ]

-- The intensity of the calendar in `cuadroTormenta`: 0 until `quitadaHasta`.
unfoldable pub intensidad_vista : ℕ → Estado → ℕ × Estado
intensidad_vista t s =
    let k = intensidad_calendario t s in if ltb t s.quitada_hasta then (0, s) else k
