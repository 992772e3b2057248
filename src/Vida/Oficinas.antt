-- ===== src/Vida/Oficinas.antt =====
-- `zonasDeOficina`, `gravedad` and `destino`: the offices of those who have no other job.
pub mod Barrios
pub mod Asignados
use Prim.Native.Nat.{max}
use rami_ledger.Prelude.{
  ℕ, suc, ◌+◌, ◌*◌, ◌/◌, Bool, true, false, ◌&&◌, Option, none, some, List, [], ◌∷◌, ◌++◌, ltb,
  ◌==◌, if◌then◌else◌, length, sort, get_elem?,
}
use rami_ledger.Semillas.{lcg_start, lcg_next}
use rami_ledger.Vida.Azar.{por_ciento, sorteo}
use rami_ledger.Vida.Diario.{Acceso, Persona, Libro, Accion}
use rami_ledger.Vida.Agenda.{agenda}
use rami_ledger.Vida.Empleo.{Empleo, con_trabajo}

-- The offices of a zone, with the sums of their floors.
pub record Barrio : Type 0 where
  pub zona : ℕ
  pub lista : List Acceso
  pub acum : List ℕ
  pub cap : ℕ

abbrev pub con_portal : Acceso → ℕ → Barrio → Barrio
con_portal a plantas z = record {
  zona = z.zona;
  lista = z.lista ++ (a ∷ []);
  acum = z.acum ++ ((z.cap + plantas) ∷ []);
  cap = z.cap + plantas;
}

abbrev pub barrio_nuevo : ℕ → Barrio
barrio_nuevo zona = record { zona = zona; lista = []; acum = []; cap = 0 }

-- `acum` and `tot`, the weights of the zones as one zone sees them.
pub record Gravedad : Type 0 where
  pub acum : List ℕ
  pub tot : ℕ

pub data Oficina : Type 0 where
  towers warehouses : Oficina

abbrev pub es_mismo : Oficina → Oficina → Bool
es_mismo towers towers = true
es_mismo warehouses warehouses = true
es_mismo a b = false

abbrev pub hay : List Barrio → Bool
hay [] = false
hay (z ∷ zs) = true

abbrev pub no_tiene : Option Acceso → Bool
no_tiene none = true
no_tiene (some w) = false

abbrev pub de_oficina : Persona → Option Acceso → Persona
de_oficina per none = per
de_oficina per (some w) = con_trabajo w per

-- `alto` is the height of a door's building in floors of 3.2 m, rounded down.
module _ (alto : Acceso → ℕ) where
  -- One door of `lista`, on `out`.
  abbrev pub reune : List Barrio → Acceso → List Barrio
  reune [] a = con_portal a (max 1 (alto a)) (barrio_nuevo a.zona) ∷ []
  reune (z ∷ zs) a =
      let rest = reune zs a in
      if z.zona == a.zona then con_portal a (max 1 (alto a)) z ∷ zs else z ∷ rest

  abbrev pub reune_todos : List Barrio → List Acceso → List Barrio
  reune_todos out [] = out
  reune_todos out (a ∷ lista) = reune_todos (reune out a) lista

  unfoldable pub zonas_de_oficina : List Acceso → List Barrio
  zonas_de_oficina lista = sort (λ a b. ltb a.zona b.zona) (reune_todos [] lista)

-- `lejos` is the distance of two zones, along the axes and rounded.
module _ (lejos : ℕ → ℕ → ℕ) where
  -- The loop of `gravedad`, from the sum so far. The quotients are exact: a weight is far from the
  -- integer above it, by one part of `(1 + km)²` at least.
  abbrev pub pesos : ℕ → List Barrio → ℕ → List ℕ × ℕ
  pesos zh [] tot = ([], tot)
  pesos zh (z ∷ zs) tot =
      let km = lejos zh z.zona / 1000 in
      let t = tot + max 1 (z.cap * 10000 / ((1 + km) * (1 + km))) in
      let rest = pesos zh zs t in (t ∷ rest.0, rest.1)

  abbrev pub gravedad_de : List Barrio → ℕ → Gravedad
  gravedad_de lz zh = let out = pesos zh lz 0 in record { acum = out.0; tot = out.1 }

-- `J.porZona`
abbrev pub Memoria : Type 0
Memoria = Oficina → ℕ → Option Gravedad

abbrev pub guarda : Oficina → ℕ → Gravedad → Memoria → Memoria
guarda tipo zh g m t z = if es_mismo tipo t && zh == z then some g else m t z

-- What `destino` changes: `J.porZona`, `V.empleo` and the trips.
pub record Destinos : Type 0 where
  pub memoria : Memoria
  pub empleo : Empleo
  pub libro : Libro

-- `parte s n` is `Math.floor` of the product, in floating point, of the draw `s` and `n`; `of_zonas`
-- is `J.ofZonas`; the others are those above and those of `agenda`.
module _ (lejos : ℕ → ℕ → ℕ) (parte : ℕ → ℕ → ℕ) (es_trama : ℕ → Bool)
    (metros : Acceso → Acceso → ℕ) (of_zonas : Oficina → List Barrio) where
  abbrev pub recuerda : Oficina → ℕ → Memoria → Option Gravedad → Gravedad × Memoria
  recuerda tipo zh m (some g) = (g, m)
  recuerda tipo zh m none = let g = gravedad_de lejos (of_zonas tipo) zh in (g, guarda tipo zh g m)

  abbrev pub gravedad : Oficina → ℕ → Memoria → Gravedad × Memoria
  gravedad tipo zh m = recuerda tipo zh m (m tipo zh)

  abbrev pub tipo_de : ℕ → Oficina
  tipo_de a =
      if por_ciento a 75 && hay (of_zonas towers)
      then towers
      else (if hay (of_zonas warehouses) then warehouses else towers)

  abbrev pub sube_zona : ℕ → Empleo → Empleo
  sube_zona zona e = record {
    parcelas = e.parcelas;
    puestos = e.puestos;
    oficinas = suc e.oficinas;
    por_zona = λ z. if zona == z then suc (e.por_zona z) else e.por_zona z;
  }

  -- The place of work, from the zone of offices that the draws pick; without that zone the source
  -- throws.
  abbrev pub con_oficina : Persona → ℕ → Option Barrio → Destinos → Option (Persona × Destinos)
  con_oficina per c none d = none
  con_oficina per c (some zo) d = some (
    de_oficina per (get_elem? zo.lista (sorteo zo.acum (parte c zo.cap))),
    record { memoria = d.memoria; empleo = sube_zona zo.zona d.empleo; libro = d.libro },
  )

  abbrev pub busca_oficina : Persona → ℕ → ℕ → ℕ → Destinos → Option (Persona × Destinos)
  busca_oficina per a b c d =
      let tipo = tipo_de a in
      let lz = of_zonas tipo in
      let g = gravedad tipo per.casa.zona d.memoria in
      let d' : Destinos = record { memoria = g.1; empleo = d.empleo; libro = d.libro } in
      if hay lz
      then con_oficina per c (get_elem? lz (sorteo g.0.acum (parte b g.0.tot))) d'
      else some (per, d)

  abbrev pub emplea : Persona → ℕ → ℕ → ℕ → Destinos → Option (Persona × Destinos)
  emplea per a b c d =
      if per.trabaja && no_tiene per.trabajo then busca_oficina per a b c d else some (per, d)

  abbrev pub con_agenda : ℕ → Option (Persona × Destinos) → Option (Persona × Destinos)
  con_agenda c none = none
  con_agenda c (some (per, d)) = some (
    per,
    record {
      memoria = d.memoria;
      empleo = d.empleo;
      libro = (agenda es_trama metros per (c, d.libro)).1.1;
    },
  )

  -- `none` where the source throws.
  unfoldable pub destino : Persona → Destinos → Option (Persona × Destinos)
  destino per d =
      let a = lcg_next (lcg_start per.sem) in
      let b = lcg_next a in let c = lcg_next b in con_agenda c (emplea per a b c d)
