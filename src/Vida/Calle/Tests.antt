-- ===== src/Vida/Calle/Tests.antt =====
-- A window around midnight, in whole numbers.
use rami_ledger.Prelude.{ℕ, ◌≡◌, refl, some, List, [], ◌∷◌, ◌++◌, arith}
use rami_ledger.Flotantes.{pos}
use rami_ledger.Vida.Enteros.{horas, horas-EsOrden}
use rami_ledger.Vida.Calle.{ZonaHoras, en_dia, rangos, en_ventana}
use rami_ledger.Vida.Calle.Ventanas.{por_zonas, en_ventana-por_zonas}

abbrev zona : ZonaHoras ℕ
zona = record { t0s = some (100 ∷ 200 ∷ 86000 ∷ []); viajes = 100 ∷ 200 ∷ 86000 ∷ [] }

abbrev anotado : ZonaHoras ℕ → ℕ → List ℕ → List ℕ
anotado z v s = s ++ (v ∷ [])

midnight : en_ventana horas anotado (pos 150) (pos 1000) (zona ∷ []) [] ≡ 100 ∷ 86000 ∷ []
unfolding en_ventana
midnight = refl

en_ventana-por_zonas_example :
    en_ventana horas anotado (pos 150) (pos 1000) (zona ∷ []) []
    ≡ por_zonas horas horas-EsOrden
        (λ v. v)
        anotado
        (zona ∷ [])
        (rangos horas (en_dia horas (pos 150)) (pos 1000))
        []
en_ventana-por_zonas_example =
    en_ventana-por_zonas horas horas-EsOrden (λ v. v) anotado (pos 150) (pos 1000) (zona ∷ []) []
      ((refl, ((omega arith, (omega arith, tt)), ((omega arith, tt), (tt, tt)))), tt)
