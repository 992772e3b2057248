-- ===== src/Vida/Cuadro/Tests.antt =====
-- A frame in whole numbers: a walker at a crossing, and marks left from the frame before.
use rami_ledger.Prelude.{
  ℕ, ◌≡◌, refl, Bool, true, false, none, some, [], ◌∷◌, map, sort, ◌==◌, ◌||◌,
}
use rami_ledger.Flotantes.{ℤ, pos}
use rami_ledger.Vida.Diario.{Acceso, acc, Viaje, ida}
use rami_ledger.Vida.Enteros.{horas, less-IsOrder}
use rami_ledger.Vida.Rutas.{Trazado, Calles, ruta_nueva}
use rami_ledger.Vida.Rutas.Guardadas.{ruta_de, transcurrido, poda}
use rami_ledger.Vida.Calle.{en_ventana}
use rami_ledger.Vida.Cuadro.{
  Lugar3, Punta, ZonaCalle, Mirada, Trabajo, EstadoVida, avanza_reloj, cuadro,
}
use rami_ledger.Vida.Cuadro.Dibujados.{Dibujado, cuadro-Dibujado}

abbrev portal : Acceso
portal = record { id = 0; zona = 0; con_edificio = true }

abbrev viaje_de : ℕ → Viaje
viaje_de k = record {
  id = k;
  p = 0;
  zona = 0;
  t0 = 28800;
  src = portal;
  dst = acc portal;
  al_reves = false;
  tipo = ida;
}

abbrev recta : Trazado horas (Unit {0})
recta = record { linea = tt; largo = pos 300; ceb = (4, (pos 100, pos 110)) ∷ [] }

abbrev pueblo : Calles horas (Unit {0})
pueblo = record {
  viajes = viaje_de;
  paso_de = λ p. pos 2;
  lado_de = λ p. pos 0;
  viajes_de = λ i. some (0 ∷ []);
  es_suelta = λ z. false;
  tiene_taxi = λ a. false;
  es_portal = λ a. true;
  nodos = λ z. 0;
  paradas = λ z. [];
  accesos = λ z. [];
  dist = λ z a k. none;
  coste = λ z a b. none;
  camino = λ z a l r d. some recta;
  camino_recto = λ a r. none;
  camino_taxi = λ a r d. none;
  une = λ a b. a;
  fase_cebra = λ k. some 0;
  dmax = pos 4000;
}

abbrev lugar : ℕ → Lugar3 horas
lugar a = record { x = pos a; y = pos 0; z = pos 0 }

abbrev en_linea : Unit {0} → ℤ → Punta horas
en_linea u d = record { donde = record (lugar 0) { x = d }; dx = pos 1; dz = pos 0 }

abbrev zona : ZonaCalle horas
zona = record {
  id = 0;
  x = pos 50;
  z = pos 0;
  radio = pos 100;
  horas = record { t0s = some (28800 ∷ []); viajes = 3 ∷ [] };
}

abbrev estado : EstadoVida horas (Unit {0}) en_linea (Unit {0})
estado = record {
  hecho = true;
  pob = record {
    m = pueblo;
    zonas = zona ∷ [];
    guardado = record {
      cache = [];
      uso = λ k. none;
      n_cache = 0;
      dur = some (λ k. none);
      n_cuadro = 7;
      aplazados = 0;
      podas = 0;
    };
  };
  reloj = record { manual = none; hora_vista = some (pos 8); reloj = pos 28885 };
  hora = pos 28885;
  trabajo = none;
  marcadas = 9 ∷ [];
  ocu = some (λ k. k == 9);
  activos = 0;
  dibujados = [];
  n_ocupadas = 1;
}

abbrev mirada : Mirada horas (Unit {0}) en_linea
mirada = record { foco = lugar 0; camara = lugar 90; tope = record { tn = 5; tr = pos 260 } }

abbrev sin_prisa :
    Trabajo horas (Unit {0}) en_linea (Unit {0})
    → Bool × Trabajo horas (Unit {0}) en_linea (Unit {0})
sin_prisa j = (false, j)

abbrev tras : EstadoVida horas (Unit {0}) en_linea (Unit {0})
tras =
    cuadro horas (Unit {0}) en_linea (Unit {0}) sin_prisa (pos 5) (pos 0) (some (pos 8)) mirada
      (λ k. false) estado

crossing_taken : tras.marcadas ≡ 4 ∷ []
unfolding cuadro avanza_reloj en_ventana transcurrido ruta_de ruta_nueva poda sort
crossing_taken = refl

walker_drawn : map (λ q. q.v) tras.dibujados ≡ 3 ∷ []
unfolding cuadro avanza_reloj en_ventana transcurrido ruta_de ruta_nueva poda sort
walker_drawn = refl

cuadro-Dibujado_example : Dibujado horas (Unit {0}) en_linea (Unit {0}) sin_prisa mirada tras
cuadro-Dibujado_example =
    cuadro-Dibujado horas (Unit {0}) en_linea (Unit {0}) sin_prisa (pos 5) (pos 0) (some (pos 8))
      mirada (λ k. false) estado less-IsOrder listed
  where
    listed : (k : ℕ) → (k == 9) ≡ true → (k == 9 || false) ≡ true
    listed k e = rw e refl
