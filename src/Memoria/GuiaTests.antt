-- ===== src/Memoria/GuiaTests.antt =====
-- The guide on a browser that keeps what it is given.
use rami_ledger.Prelude.{◌≡◌, refl, true, false, none, some, List, [], ◌∷◌}
use rami_ledger.Memoria.Guia.{
  NotaGuia, Papel, mirar, fechas, hechos, marca, abre_guia, monta_guia, lee_guia, al_cargar,
  en_limpio, Toque, marcan, abren, montan, recargan, tocan, lee_guia-tocan,
}

abbrev papel : Papel NotaGuia
papel = record { parse = λ w. some w; stringify = λ w. w }

abbrev toques : List (Toque papel)
toques =
    montan false
    ∷ marcan mirar true
    ∷ abren false
    ∷ recargan
    ∷ montan true
    ∷ marcan fechas true
    ∷ []

two_done : hechos (tocan papel toques (al_cargar papel none)).progreso ≡ 2
unfolding marca abre_guia monta_guia
two_done = refl

lee_guia-tocan_example :
    lee_guia papel (tocan papel toques (al_cargar papel none)).guardado
    ≡ en_limpio papel (tocan papel toques (al_cargar papel none)).progreso
lee_guia-tocan_example = lee_guia-tocan papel (λ w. refl) toques none
