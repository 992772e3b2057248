-- ===== src/Vida/Tests.antt =====
-- A few people, doors and draws, and the theorems on them.
use mathlib.Core.List.{Permᴰ}
use rami_ledger.Prelude.{
  ℕ, ◌+◌, ◌*◌, ◌/◌, ◌<◌, ◌≤◌, ◌≡◌, refl, arith, true, none, some, List, [], ◌∷◌, get_or, All,
  Ascends,
}
use rami_ledger.Semillas.{lcg_start, lcg_next}
use rami_ledger.Vida.Azar.{sorteo}
use rami_ledger.Vida.Sorteo.{before, sorteo_place}
use rami_ledger.Vida.Diario.{Acceso, Persona}
use rami_ledger.Vida.Diario.Cuenta.{Adds}
use rami_ledger.Vida.Agenda.{agenda}
use rami_ledger.Vida.Agenda.Dias.{IsTrip, agenda-Adds}
use rami_ledger.Vida.Empleo.{Parcela, Empleo, Plaza, recluta, plantilla}
use rami_ledger.Vida.Empleo.Plantilla.{plantilla_same_bit}
use rami_ledger.Vida.Empleo.Plazas.{Recruits, recluta-Recruits}
use rami_ledger.Vida.Oficinas.{
  Barrio, Oficina, towers, warehouses, Destinos, zonas_de_oficina, destino,
}
use rami_ledger.Vida.Oficinas.Barrios.{doors, IsBarrio, zonas_de_oficina_lem}
use rami_ledger.Vida.Oficinas.Asignados.{AreFull, IsMemoria, Followed, destino_lem}

sorteo_place_case :
    (sorteo (3 ∷ 10 ∷ []) 5 < 2)
    × (before 0 (3 ∷ 10 ∷ []) (sorteo (3 ∷ 10 ∷ []) 5) ≤ 5)
    × (5 < get_or (3 ∷ 10 ∷ []) (sorteo (3 ∷ 10 ∷ []) 5) 0)
sorteo_place_case =
    sorteo_place 0 5 3 (10 ∷ []) (omega arith, (omega arith, tt)) (omega arith) (omega arith)

abbrev casa : Acceso
casa = record { id = 0; zona = 4; con_edificio = true }

abbrev oficina : Acceso
oficina = record { id = 1; zona = 9; con_edificio = true }

abbrev nave : Acceso
nave = record { id = 2; zona = 4; con_edificio = true }

abbrev vecina : ℕ → Persona
vecina k = record {
  id = k;
  sem = 77 * k + 5;
  celda = some (3 + k, 8);
  casa = casa;
  trabaja = true;
  trabajo = none;
}

abbrev empleada : Persona
empleada = record {
  id = 6;
  sem = 12;
  celda = none;
  casa = casa;
  trabaja = true;
  trabajo = some nave;
}

agenda-Adds_example : Adds (IsTrip empleada) 8 (agenda (λ z. true) (λ a b. 300) empleada)
agenda-Adds_example = agenda-Adds empleada (λ z. true) (λ a b. 300)

abbrev hotel_pequeno : Parcela
hotel_pequeno = record { x = 3; y = 8; kind = 5; ingresos = 900_000_000; assets = 2 }

plantilla_same_bit_case :
    plantilla (record { x = 3; y = 8; kind = 5; ingresos = 1_500_000_000; assets = 2 })
    ≡ plantilla hotel_pequeno
plantilla_same_bit_case =
    plantilla_same_bit hotel_pequeno 1_500_000_000 3 (omega arith) (omega arith) (omega arith)
      (omega arith)

hotel_staff : plantilla hotel_pequeno ≡ 282
unfolding plantilla
hotel_staff = refl

abbrev sin_empleo : Empleo
sin_empleo = record { parcelas = 0; puestos = 0; oficinas = 0; por_zona = λ z. 0 }

abbrev barrio : Plaza
barrio = record { trab = 0 ∷ 1 ∷ 2 ∷ []; gente = vecina; empleo = sin_empleo }

recluta-Recruits_example :
    Recruits nave hotel_pequeno 2 0 barrio (recluta nave hotel_pequeno 2 0 barrio)
recluta-Recruits_example = recluta-Recruits nave hotel_pequeno 2 0 barrio (λ k. refl)

abbrev plantas : Acceso → ℕ
plantas a = 3 * a.id

abbrev de_oficinas : Oficina → List Barrio
de_oficinas towers = zonas_de_oficina plantas (oficina ∷ nave ∷ oficina ∷ [])
de_oficinas warehouses = []

zonas_de_oficina_lem_case :
    Permᴰ
      (doors (zonas_de_oficina plantas (oficina ∷ nave ∷ oficina ∷ [])))
      (oficina ∷ nave ∷ oficina ∷ [])
    × (All (IsBarrio plantas) (zonas_de_oficina plantas (oficina ∷ nave ∷ oficina ∷ []))
        × Ascends
            (λ (z : Barrio). z.zona)
            (zonas_de_oficina plantas (oficina ∷ nave ∷ oficina ∷ [])))
zonas_de_oficina_lem_case = zonas_de_oficina_lem plantas (oficina ∷ nave ∷ oficina ∷ [])

abbrev al_empezar : Destinos
al_empezar = record {
  memoria = λ t z. none;
  empleo = sin_empleo;
  libro = record { viajes = []; de_zona = λ z. []; de_persona = λ p. [] };
}

abbrev unas_oficinas : Oficina → List Barrio
unas_oficinas towers = record { zona = 9; lista = oficina ∷ []; acum = 3 ∷ []; cap = 3 } ∷ []
unas_oficinas warehouses = record { zona = 4; lista = nave ∷ []; acum = 6 ∷ []; cap = 6 } ∷ []

unas_oficinas-AreFull : (t : Oficina) → AreFull (unas_oficinas t)
unas_oficinas-AreFull towers = ((refl, omega arith), tt)
unas_oficinas-AreFull warehouses = ((refl, omega arith), tt)

destino_lem_example :
    (out : Persona × Destinos) × ((destino
          (λ y z. 2500)
          (λ s n. s * n / 4294967296)
          (λ z. true)
          (λ a b. 300)
          unas_oficinas
          (vecina 1)
          al_empezar
        ≡ some out)
      × (Followed
            (λ y z. 2500)
            (λ s n. s * n / 4294967296)
            (λ z. true)
            (λ a b. 300)
            unas_oficinas
            (vecina 1)
            (lcg_next (lcg_start (vecina 1).sem))
            al_empezar
            out
          × IsMemoria
              (λ y z. 2500)
              (λ s n. s * n / 4294967296)
              (λ z. true)
              (λ a b. 300)
              unas_oficinas
              out.1.memoria))
destino_lem_example =
    destino_lem (λ y z. 2500) (λ s n. s * n / 4294967296) (λ z. true) (λ a b. 300) unas_oficinas
      (vecina 1) al_empezar unas_oficinas-AreFull (λ t z g e. cc e)
