-- ===== src/Transporte/Tests.antt =====
-- Three stops and a boat, on whole numbers.
use rami_ledger.Prelude.{ℕ, zero, suc, ◌≡◌, refl, false, Option, some}
use rami_ledger.Flotantes.{ℤ, pos, negsuc, Flotantes}
use rami_ledger.Flotantes.Enteros.{enteros, producto, raiz_de}
use rami_ledger.Vida.Enteros.{resto_de, cociente}
use rami_ledger.Transporte.Trenes.{
  PosTren, horario_tren, pos_tren, del_ciclo, tiempo_tramo, avance_tramo,
}
use rami_ledger.Transporte.Barcos.{PuntoLazo, lazo, RutaBarco, PosBarco, en_lazo, pos_barco}
use rami_ledger.Transporte.Horas.{Seguido, EnSuTramo, pos_tren-EnSuTramo}
use rami_ledger.Transporte.Lados.{EnSuLado, pos_barco-EnSuLado}

abbrev medidas : Flotantes
medidas = record enteros { entre = cociente; raiz = raiz_de; potencia = λ a b. producto a a }

abbrev tres_paradas : ℕ → ℤ
tres_paradas zero = pos 0
tres_paradas (suc zero) = pos 1000
tres_paradas (suc (suc i)) = pos 1400

abbrev probado : Option (PosTren medidas)
probado = pos_tren medidas resto_de (horario_tren medidas tres_paradas 2) 0 (pos 220)

abbrev dos_puntos : ℕ → PuntoLazo medidas
dos_puntos zero = record { x = pos 0; z = pos 0 }
dos_puntos (suc i) = record { x = pos 100; z = pos 0 }

abbrev abra : RutaBarco medidas
abra = record { lz = lazo medidas dos_puntos 2 (pos 5); v = pos 1; n = pos 1; desfase = pos 0 }

abbrev a_bordo : Option (PosBarco medidas)
a_bordo = pos_barco medidas resto_de abra 0 (pos 100)

train_running : probado ≡ some (record { s = pos 396; dir = pos 1; parado = false })
unfolding tiempo_tramo avance_tramo
train_running = refl

boat_turning : a_bordo ≡ some (record { x = pos 100; z = pos 5; tx = pos 0; tz = negsuc 4 })
unfolding lazo
boat_turning = refl

pos_tren-EnSuTramo_example :
    let h = horario_tren medidas tres_paradas 2 in
    Seguido medidas (pos 0) (pos 0) h.tramos h.ciclo_tren (pos 0)
    × EnSuTramo medidas h (del_ciclo medidas resto_de h 0 (pos 220)) probado
unfolding tiempo_tramo
pos_tren-EnSuTramo_example =
    pos_tren-EnSuTramo medidas resto_de tres_paradas 2 0 (pos 220) refl refl

pos_barco-EnSuLado_example :
    EnSuLado medidas abra.lz (en_lazo medidas resto_de abra 0 (pos 100)) a_bordo
unfolding lazo
pos_barco-EnSuLado_example =
    pos_barco-EnSuLado medidas resto_de dos_puntos 2 (pos 5) abra 0 (pos 100) refl refl refl
