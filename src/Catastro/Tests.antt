-- ===== src/Catastro/Tests.antt =====
-- A register of whole numbers, with two solids and one taken out again.
use mathlib.Core.List.{Memᴰ}
use rami_ledger.Prelude.{
  ℕ, ◌≡◌, refl, sym, subst, Bool, true, false, not, some, List, [], ◌∷◌, arith,
}
use rami_ledger.Flotantes.{ℤ, pos, negsuc}
use rami_ledger.Flotantes.Enteros.{enteros, es_menor, es_menor_trans}
use rami_ledger.Catastro.{Solido, Catastro, Punto, catastro_nuevo, catastro_alta}
use rami_ledger.Catastro.Consultas.{
  se_montan, contiene, huella_libre, empujar_fuera, solido_bajo, saca_de,
}
use rami_ledger.Catastro.Rayo.{Vector, rayo_solido, corta_caja, avanza_rayo}
use rami_ledger.Catastro.Celdas.{EnOrden}
use rami_ledger.Catastro.Indice.{
  IsIndexed, Cambio, alta, reconstruye, quita, cambios, lista_tras_todos, cambios-IsIndexed,
}
use rami_ledger.Catastro.Preguntas.{IsMonotone, Encierra, Responde, solido_bajo_lem}
use rami_ledger.Catastro.Huellas.{Respuesta, Montado, huella_libre_lem}
use rami_ledger.Catastro.Cortes.{Contesta, rayo_solido_ends}

abbrev casa : Solido enteros ℕ
casa = record {
  x = pos 3;
  z = pos 4;
  hw = pos 1;
  hd = pos 1;
  yaw = pos 0;
  y0 = pos 0;
  h = pos 9;
  ficha = 7;
}

abbrev torre : Solido enteros ℕ
torre = record casa { x = pos 9; ficha = 8 }

abbrev es_torre : Solido enteros ℕ → Bool
es_torre so = not (es_menor so.x (pos 9))

abbrev obras : List (Cambio enteros ℕ)
obras = alta torre ∷ alta casa ∷ quita es_torre ∷ reconstruye ∷ []

abbrev barrio : Catastro enteros ℕ
barrio = cambios enteros ℕ obras (catastro_nuevo enteros (λ a. a) (pos 0) (pos 0))

barrio_items : barrio.items ≡ casa ∷ []
unfolding catastro_alta
barrio_items = refl

cambios-IsIndexed_example :
    IsIndexed enteros ℕ barrio × (barrio.items ≡ lista_tras_todos enteros ℕ obras [])
cambios-IsIndexed_example = cambios-IsIndexed enteros ℕ obras (λ a. a) (pos 0) (pos 0)

mono : IsMonotone enteros ℕ
mono = record { celda_mono = ordered }
  where
    ordered : (a b : ℤ) → not (es_menor b a) ≡ true → EnOrden a b
    ordered (pos a) (pos b) h = ground arith
    ordered (pos a) (negsuc b) h = cc
    ordered (negsuc a) (pos b) h = tt
    ordered (negsuc a) (negsuc b) h = ground arith

barrio-IsIndexed : IsIndexed enteros ℕ barrio
barrio-IsIndexed = (cambios-IsIndexed enteros ℕ obras (λ a. a) (pos 0) (pos 0)).0

-- There is one solid only.
the_house :
    (P : Solido enteros ℕ → Type 0) → P casa → (so : Solido enteros ℕ) → Memᴰ so barrio.items → P so
unfolding catastro_alta
the_house P h so (Memᴰ.head e) = subst P (sym e) h
the_house P h so (Memᴰ.tail m) = elim m [ ]

under : solido_bajo enteros ℕ (some barrio) (pos 3) (pos 5) ≡ some casa
unfolding solido_bajo catastro_alta
under = refl

solido_bajo_lem_example :
    Responde enteros ℕ
      (contiene enteros ℕ (pos 3) (pos 5))
      barrio.items
      (solido_bajo enteros ℕ (some barrio) (pos 3) (pos 5))
unfolding catastro_alta
solido_bajo_lem_example =
    solido_bajo_lem enteros ℕ barrio (pos 3) (pos 5) barrio-IsIndexed mono
      (the_house
        (λ so. contiene enteros ℕ (pos 3) (pos 5) so ≡ true → Encierra enteros ℕ (pos 3) (pos 5) so)
        (λ e. ((refl, refl), (refl, refl))))
      (3, (5, ((refl, omega arith), (refl, omega arith))))

not_free : huella_libre enteros ℕ barrio (pos 2) (pos 4) (pos 1) ≡ false
unfolding huella_libre catastro_alta
not_free = refl

huella_libre_lem_example :
    Respuesta enteros ℕ
      (se_montan enteros ℕ (pos 2) (pos 4) (pos 1))
      barrio.items
      (huella_libre enteros ℕ barrio (pos 2) (pos 4) (pos 1))
unfolding catastro_alta
huella_libre_lem_example =
    huella_libre_lem enteros ℕ barrio (pos 2) (pos 4) (pos 1) barrio-IsIndexed mono (omega arith)
      (omega arith) (omega arith, omega arith) (omega arith, omega arith)
      (the_house
        (λ so.
          se_montan enteros ℕ (pos 2) (pos 4) (pos 1) so ≡ true
          → Montado enteros ℕ barrio (pos 2) (pos 4) (pos 1) so)
        (λ e. record {
          en_x = record { left = refl; right = refl; one = refl; other = refl };
          en_z = record { left = refl; right = refl; one = refl; other = refl };
          dentro_x = (omega arith, omega arith);
          dentro_z = (omega arith, omega arith);
        }))

abbrev esquina : Punto enteros
esquina = record { px = pos 1; pz = pos 4 }

pushed :
    empujar_fuera enteros ℕ (some barrio) (pos 2) esquina
    ≡ (record { px = pos 0; pz = pos 4 }, some casa)
unfolding empujar_fuera saca_de catastro_alta
pushed = refl

abbrev origen : Vector enteros ℕ
origen = record { vx = pos 1; vy = pos 1; vz = pos 4 }

abbrev al_este : Vector enteros ℕ
al_este = record { vx = pos 1; vy = pos 0; vz = pos 0 }

cut : rayo_solido enteros ℕ 3 (some barrio) origen al_este (pos 300) ≡ some (some (casa, pos 1))
unfolding rayo_solido avanza_rayo corta_caja catastro_alta
cut = refl

rayo_solido_ends_example :
    Contesta enteros ℕ origen al_este
      (pos 300)
      es_menor_trans
      barrio.items
      (rayo_solido enteros ℕ 3 (some barrio) origen al_este (pos 300))
rayo_solido_ends_example =
    rayo_solido_ends enteros ℕ origen al_este (pos 300) es_menor_trans barrio 2 refl
