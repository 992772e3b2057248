-- ===== src/Tormenta/Tests.antt =====
-- A day with a storm, and the theorems on it.
use mathlib.Core.List.{Memᴰ}
use rami_ledger.Prelude.{
  ℕ, ◌≤◌, ◌<◌, ◌≡◌, refl, ◌↔◌, some, none, not, ltb, if◌then◌else◌, arith, take,
}
use rami_ledger.Semillas.{semilla_morfologia}
use rami_ledger.Tormenta.{
  dia_dubai, Tormenta, tormenta_del_dia, proximas_tormentas, inicial, intensidad_de,
  intensidad_calendario, tormenta_en_curso, boton_tormenta, intensidad_vista,
}
use rami_ledger.Tormenta.Proximas.{
  calendario, proximas_tormentas-calendario, proximas_tormentas_complete,
}
use rami_ledger.Tormenta.Boton.{
  start, frame, tormenta_en_curso_iff, boton_tormenta_toggles, intensidad_vista_lem,
}

abbrev ejemplo : Tormenta
ejemplo = record { dia = 20622; ini = 1781784000000; fin = 1781791200000; rumbo = 107 }

abbrev durante : ℕ
durante = 1781784900000

del_dia : tormenta_del_dia 20622 ≡ some ejemplo
unfolding tormenta_del_dia semilla_morfologia
del_dia = refl

calma : tormenta_del_dia 20623 ≡ none
unfolding tormenta_del_dia semilla_morfologia
calma = refl

proximas_tormentas-calendario_case :
    proximas_tormentas 2 durante ≡ take 2 (calendario 800 (dia_dubai durante) durante)
proximas_tormentas-calendario_case = proximas_tormentas-calendario 2 durante

proximas_tormentas_complete_example : Memᴰ ejemplo (proximas_tormentas 800 durante)
proximas_tormentas_complete_example =
    proximas_tormentas_complete durante 20622 ejemplo del_dia (omega arith) (omega arith)

tormenta_en_curso_iff_example : ((tormenta_en_curso durante inicial).0 ≡ some ejemplo) ↔ (
    (tormenta_del_dia 20622 ≡ some ejemplo) × (1781784000000 ≤ durante) × (durante < 1781791200000))
tormenta_en_curso_iff_example = tormenta_en_curso_iff inicial durante ejemplo start

boton_tormenta_toggles_example :
    ltb durante (boton_tormenta durante inicial).quitada_hasta ≡ not (ltb durante 0)
boton_tormenta_toggles_example =
    boton_tormenta_toggles inicial durante ejemplo start refl
      ((tormenta_en_curso_iff inicial durante ejemplo start).1 (del_dia, omega arith, omega arith))

-- Before the storm a frame has been drawn.
intensidad_vista_lem_case :
    (intensidad_vista durante (intensidad_calendario 1781700000000 inicial).1).0 ≡ (
      if ltb durante (intensidad_calendario 1781700000000 inicial).1.quitada_hasta
      then 0
      else intensidad_de durante (tormenta_del_dia (dia_dubai durante)))
intensidad_vista_lem_case =
    intensidad_vista_lem (intensidad_calendario 1781700000000 inicial).1 durante
      (frame 1781700000000 start)
