-- ===== src/Umbral/ChoquesTests.antt =====
-- A hall of whole numbers with a column, in metres.
use rami_ledger.Prelude.{◌≡◌, refl, Bool, true, false, none, some, [], ◌∷◌, arith}
use rami_ledger.Flotantes.{ℤ, pos, negsuc, Flotantes}
use rami_ledger.Flotantes.Enteros.{enteros, es_menor, raiz_de}
use rami_ledger.Catastro.{Punto}
use rami_ledger.Vida.Enteros.{cociente}
use rami_ledger.Umbral.Estado.{Portal, Caminante}
use rami_ledger.Umbral.Salas.{Pulsadas, Sala, ConPatio}
use rami_ledger.Umbral.Patios.{anda_patio}
use rami_ledger.Umbral.Choques.{empuja_de, anda_dentro}
use rami_ledger.Umbral.Limites.{Anda, anda_dentro-EnSala}

abbrev metros : Flotantes
metros = record enteros { entre = cociente; raiz = raiz_de }

irreflexive : (x : ℤ) → es_menor x x ≡ false
irreflexive (pos n) = ground arith
irreflexive (negsuc n) = ground arith

abbrev sala : Sala metros
sala = record {
  solidos = record { x0 = pos 4; x1 = pos 6; z0 = pos 4; z1 = pos 6 } ∷ [];
  enseres = [];
  cab = none;
  limites = record { x0 = pos 0; x1 = pos 20; z0 = pos 0; z1 = pos 9 };
  boca = some (record { x = pos 10; z = pos 9; ancho = pos 4 });
  suelo = pos 3;
}

abbrev porche : Portal metros
porche = record {
  ox = pos 0;
  oy = pos 7;
  oz = pos 0;
  giro = pos 0;
  px = pos 10;
  zf = pos 9;
  z_acera = pos 12;
  patio = false;
}

abbrev hacia_atras : Pulsadas
hacia_atras = record {
  w = false;
  s = true;
  a = false;
  d = false;
  arrowup = false;
  arrowdown = false;
  arrowleft = false;
  arrowright = false;
  shift = false;
  q = false;
  e = false;
}

abbrev en_medio : ℤ → Caminante metros
en_medio x = record { x = x; y = pos 10; z = pos 8; yaw = pos 0; pitch = pos 0; fly = pos 0 }

abbrev por_la_puerta : Bool × Caminante metros
por_la_puerta =
    anda_dentro metros ℤ (some sala) porche false hacia_atras (pos 3) (en_medio (pos 10))

abbrev contra_la_pared : Bool × Caminante metros
contra_la_pared =
    anda_dentro metros ℤ (some sala) porche false hacia_atras (pos 3) (en_medio (pos 2))

abbrev de_la_columna : Punto metros
de_la_columna = empuja_de metros (pos 3) sala.solidos (record { px = pos 5; pz = pos 4 })

pushed_aside : de_la_columna ≡ record { px = pos 5; pz = pos 1 }
pushed_aside = refl

held_by_wall : contra_la_pared ≡ (false, record (en_medio (pos 2)) { y = pos 10; z = pos 9 })
unfolding anda_dentro
held_by_wall = refl

out_of_door : por_la_puerta ≡ (true, record (en_medio (pos 10)) { y = pos 10; z = pos 14 })
unfolding anda_dentro
out_of_door = refl

anda_dentro-EnSala_example : Anda metros irreflexive ℤ sala porche (en_medio (pos 10)) por_la_puerta
anda_dentro-EnSala_example =
    anda_dentro-EnSala metros irreflexive ℤ sala porche false hacia_atras (pos 3)
      (en_medio (pos 10)) (record { a_lo_ancho = refl; a_lo_largo = refl })

abbrev con_patio : ConPatio metros
con_patio = record {
  marco = porche;
  hw = pos 30;
  hd = pos 12;
  pat = record { x0 = pos 4; x1 = pos 16; z0 = pos 2; z1 = pos 20 };
  cerrado_a = true;
  cerrado_b = true;
  puerta_x = pos 10;
  puerta_dw = pos 2;
  puerta_zo = pos 3;
}

abbrev en_el_patio : Pulsadas → Caminante metros
en_el_patio k =
    anda_patio metros ℤ (λ x z. pos 1) (λ po. true) (λ x z. con_patio ∷ []) (pos 0) k (pos 1)
      (record (en_medio (pos 10)) { z = pos 4 })

courtyard_walked : en_el_patio hacia_atras ≡ record (en_medio (pos 10)) { y = pos 1; z = pos 10 }
unfolding anda_patio
courtyard_walked = refl
