-- ===== src/Vida/Rutas/Tests.antt =====
-- A person who walks out and back, in whole seconds, and the theorems on the walk.
use mathlib.Core.Option.{some-injective}
use rami_ledger.Prelude.{
  ap, ◌∙◌, ℕ, ◌+◌, ◌-◌, ◌*◌, ◌/◌, ◌%◌, ◌≡◌, refl, Bool, true, false, Option, none, some, [], ◌∷◌,
  arith, ltb, leb, if◌then◌else◌,
}
use Prim.Native.Nat.{max}
use rami_ledger.Vida.Diario.{Acceso, acc, Viaje, ida}
use rami_ledger.Vida.Rutas.{Numeros, Trazado, Calles, ruta_nueva}
use rami_ledger.Vida.Rutas.Guardadas.{
  busca, Guardado, ruta_de, es_reciente, poda, transcurrido, posicion,
}
use rami_ledger.Vida.Rutas.Posiciones.{
  IsGuardado, IsAbove, Tells, transcurrido-Tells, posicion_pura, posicion-posicion_pura,
}
use rami_ledger.Vida.Rutas.Podas.{poda-IsGuardado}

-- Whole numbers from `-1` on; `none` is `-1`.
abbrev con : (ℕ → ℕ → ℕ) → Option ℕ → Option ℕ → Option ℕ
con f none b = none
con f (some a) none = none
con f (some a) (some b) = some (f a b)

abbrev bajo : Option ℕ → Option ℕ → Bool
bajo a none = false
bajo none (some b) = true
bajo (some a) (some b) = ltb a b

abbrev llega : Option ℕ → Option ℕ → Bool
llega a none = true
llega none (some b) = false
llega (some a) (some b) = leb b a

abbrev enteros : Numeros
enteros = record {
  N = Option ℕ;
  de = some;
  menos_uno = none;
  mas = con ◌+◌;
  menos = con ◌-◌;
  por = con ◌*◌;
  entre = con ◌/◌;
  resto = con ◌%◌;
  mayor = con max;
  menor = bajo;
  alcanza = llega;
}

abbrev portal : Acceso
portal = record { id = 0; zona = 0; con_edificio = true }

abbrev viaje_de : ℕ → Viaje
viaje_de k = record {
  id = k;
  p = 0;
  zona = 0;
  t0 = 28800;
  src = portal;
  dst = acc portal;
  al_reves = false;
  tipo = ida;
}

abbrev recta : Trazado enteros (Unit {0})
recta = record { linea = tt; largo = some 300; ceb = (4, (some 100, some 110)) ∷ [] }

abbrev pueblo : Calles enteros (Unit {0})
pueblo = record {
  viajes = viaje_de;
  paso_de = λ p. some 2;
  lado_de = λ p. some 0;
  viajes_de = λ i. some (0 ∷ []);
  es_suelta = λ z. false;
  tiene_taxi = λ a. false;
  es_portal = λ a. true;
  nodos = λ z. 0;
  paradas = λ z. [];
  accesos = λ z. [];
  dist = λ z a k. none;
  coste = λ z a b. none;
  camino = λ z a l r d. some recta;
  camino_recto = λ a r. none;
  camino_taxi = λ a r d. none;
  une = λ a b. a;
  fase_cebra = λ k. some 0;
  dmax = some 4000;
}

above : IsAbove enteros (Unit {0}) pueblo (λ k. refl)
above x none e = refl
above x (some d) e = ground arith

abbrev nada_guardado : Guardado enteros (Unit {0}) pueblo
nada_guardado = record {
  cache = [];
  uso = λ k. none;
  n_cache = 0;
  dur = some (λ k. none);
  n_cuadro = 7;
  aplazados = 0;
  podas = 0;
}

no_dur :
    (f : ℕ → Option (Option ℕ)) (k : ℕ) (d : Option ℕ)
    → some (λ (k : ℕ). none) ≡ some f
    → f k ≡ some d
    → {X : Type 0} → X
no_dur f k d e at =
    let gone = ap (λ (q : ℕ → Option (Option ℕ)). q k) (some-injective _ _ e) ∙ at in cc gone

vacio-IsGuardado : IsGuardado enteros (Unit {0}) pueblo (λ k. refl) nada_guardado
vacio-IsGuardado = record {
  right = λ k r e. cc e;
  known = λ f k d e at. no_dur f k d e at;
  count = refl;
  apart = tt;
}

-- Fifty-two seconds out, at eight in the morning, the walker stands at the crossing.
abbrev antes : Guardado enteros (Unit {0}) pueblo
antes = (posicion enteros (Unit {0}) pueblo 0 (some 28852) nada_guardado).1

waiting :
    (posicion enteros (Unit {0}) pueblo 0 (some 28852) nada_guardado).0
    ≡ some (record { viaje = 0; tipo = ida; andado = some 100; quieto = true })
unfolding posicion transcurrido ruta_de ruta_nueva
waiting = refl

antes-IsGuardado : IsGuardado enteros (Unit {0}) pueblo (λ k. refl) antes
antes-IsGuardado =
    (posicion-posicion_pura enteros (Unit {0}) pueblo (λ k. refl) above 0 (some 28852) nada_guardado
      vacio-IsGuardado).1

transcurrido-Tells_example :
    Tells enteros
      (Unit {0})
      pueblo
      (λ k. refl)
      0
      (some 29000)
      true
      antes
      (transcurrido enteros (Unit {0}) pueblo (viaje_de 0) (some 29000) true true antes)
transcurrido-Tells_example =
    transcurrido-Tells enteros (Unit {0}) pueblo (λ k. refl) above 0 (some 29000) true true antes
      antes-IsGuardado

posicion-posicion_pura_example :
    ((posicion enteros (Unit {0}) pueblo 0 (some 28900) antes).0
      ≡ posicion_pura enteros (Unit {0}) pueblo (λ k. refl) above (some (0 ∷ [])) (some 28900))
    × IsGuardado enteros
        (Unit {0})
        pueblo
        (λ k. refl)
        (posicion enteros (Unit {0}) pueblo 0 (some 28900) antes).1
posicion-posicion_pura_example =
    posicion-posicion_pura enteros (Unit {0}) pueblo (λ k. refl) above 0 (some 28900) antes
      antes-IsGuardado

poda-IsGuardado_case :
    IsGuardado enteros (Unit {0}) pueblo (λ k. refl) (poda enteros (Unit {0}) pueblo antes)
    × ((k : ℕ)
        → busca k (poda enteros (Unit {0}) pueblo antes).cache ≡ (
            if es_reciente enteros (Unit {0}) pueblo antes.n_cuadro (antes.uso k)
            then busca k antes.cache
            else none))
poda-IsGuardado_case = poda-IsGuardado enteros (Unit {0}) pueblo (λ k. refl) antes antes-IsGuardado
