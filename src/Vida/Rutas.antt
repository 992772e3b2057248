-- ===== src/Vida/Rutas.antt =====
-- The ways of the trips and where the walkers are: `rutaDe` and its memory, `horario`, `andadoEn`,
-- `transcurrido`, `suelta`, `posicion`, `poda`.
pub mod Guardadas
pub mod Claves
pub mod Posiciones
pub mod Podas
pub mod Tests
use rami_ledger.Prelude.{
  ℕ, zero, suc, ◌+◌, ◌-◌, ◌*◌, ◌%◌, Bool, true, false, not, ◌&&◌, ◌||◌, Option, none, some, List,
  [], ◌∷◌, ◌++◌, ltb, leb, ◌==◌, if◌then◌else◌, length, get_elem?,
}
use rami_ledger.Vida.Azar.{mezcla}
use rami_ledger.Vida.Diario.{dia, Acceso, acc, parada, taxi, sitio, nodo, Meta, Tipo, Viaje}

-- The numbers of JavaScript, with the operations used here; `alcanza` is `>=`.
pub record Numeros : Type 1 where
  pub N : Type 0
  pub de : ℕ → N
  pub menos_uno : N
  pub mas : N → N → N
  pub menos : N → N → N
  pub por : N → N → N
  pub entre : N → N → N
  pub resto : N → N → N
  pub mayor : N → N → N
  pub menor : N → N → Bool
  pub alcanza : N → N → Bool

-- Where `camino` goes: to a door, or to a node, with its kerb or without.
pub data Llegada : Type 0 where
  al_acceso : Acceso → Llegada
  al_nodo : ℕ → Bool → Llegada

module _ (n : Numeros) where
  -- A way: its length, and its crossings with the metres where they begin and end; `camino`, `caminoRecto`
  -- and `caminoTaxi` give it with the points of its line, in `Linea`.
  pub record Trazado (Linea : Type 0) : Type 0 where
    pub linea : Linea
    pub largo : n.N
    pub ceb : List (ℕ × (n.N × n.N))

  -- With what `horario` adds: the waits, the crossings in seconds, and the whole time.
  pub record Ruta (Linea : Type 0) : Type 0 where
    pub trazado : Trazado Linea
    pub esperas : List (n.N × (n.N × n.N))
    pub ocupa : List (ℕ × (n.N × n.N))
    pub dur : n.N

  -- What the functions read: the zones, the people, the trees of ways, and the lines.
  pub record Calles (Linea : Type 0) : Type 0 where
    pub viajes : ℕ → Viaje
    pub paso_de : ℕ → n.N
    pub lado_de : ℕ → n.N
    pub viajes_de : ℕ → Option (List ℕ)
    pub es_suelta : ℕ → Bool
    pub tiene_taxi : Acceso → Bool
    pub es_portal : Acceso → Bool
    pub nodos : ℕ → ℕ
    pub paradas : ℕ → List ℕ
    pub accesos : ℕ → List Acceso
    pub dist : ℕ → Acceso → ℕ → Option ℕ
    pub coste : ℕ → Acceso → Acceso → Option ℕ
    pub camino : ℕ → Acceso → Llegada → Bool → n.N → Option (Trazado Linea)
    pub camino_recto : Acceso → Bool → Option (Trazado Linea)
    pub camino_taxi : Acceso → Bool → n.N → Option (Trazado Linea)
    pub une : Trazado Linea → Trazado Linea → Trazado Linea
    pub fase_cebra : ℕ → Option ℕ
    pub dmax : n.N

abbrev pub ciclo : ℕ
ciclo = 90

abbrev pub ventana : ℕ
ventana = 12

abbrev pub parada_max : ℕ
parada_max = 600

-- Whether a distance lies between two.
abbrev pub en_rango : ℕ → ℕ → Option ℕ → Bool
en_rango lo hi none = false
en_rango lo hi (some d) = leb lo d && leb d hi

abbrev pub es_menos : Option ℕ → ℕ → Bool
es_menos none mc = false
es_menos (some d) mc = ltb d mc

abbrev pub en_o : Option ℕ → ℕ → ℕ
en_o none mc = mc
en_o (some d) mc = d

-- The loop over the stops, from the best so far and its distance.
abbrev pub mas_cerca : (ℕ → Option ℕ) → List ℕ → Option ℕ → ℕ → Option ℕ
mas_cerca f [] mejor mc = mejor
mas_cerca f (q ∷ qs) mejor mc =
    let c = es_menos (f q) mc in
    mas_cerca f qs (if c then some q else mejor) (if c then en_o (f q) mc else mc)

-- `x[i % x.length]`, for a list that is not empty.
abbrev pub uno_de {ℓ} : {A : Type ℓ} → List A → ℕ → Option A
uno_de [] i = none
uno_de (x ∷ xs) i = get_elem? (x ∷ xs) (i % suc (length xs))

-- `nodosEntre`, over the first `k` nodes.
abbrev pub nodos_entre : (ℕ → Option ℕ) → ℕ → ℕ → ℕ → List ℕ
nodos_entre f lo hi zero = []
nodos_entre f lo hi (suc k) =
    let before = nodos_entre f lo hi k in
    if en_rango lo hi (f k) then before ++ (k ∷ []) else before

-- `accesosEntre`, over the doors of the zone; a door is known by its number.
abbrev pub accesos_entre :
    (Acceso → Bool) → (Acceso → Option ℕ) → Acceso → ℕ → ℕ → List Acceso → List Acceso
accesos_entre es_portal coste ac lo hi [] = []
accesos_entre es_portal coste ac lo hi (b ∷ bs) =
    let rest = accesos_entre es_portal coste ac lo hi bs in
    if (not (b.id == ac.id) && es_portal b) && en_rango lo hi (coste b) then b ∷ rest else rest

abbrev pub si_no_hay : List ℕ → List ℕ → List ℕ
si_no_hay [] ys = ys
si_no_hay (x ∷ xs) ys = x ∷ xs

module _ (n : Numeros) (Linea : Type 0) (m : Calles n Linea) where
  abbrev pub Camino : Type 0
  Camino = Option (Trazado n Linea)

  -- There and back, or nothing.
  abbrev pub ida_y_vuelta : Camino → Camino → Camino
  ida_y_vuelta (some a) (some b) = some (m.une a b)
  ida_y_vuelta a b = none

  abbrev pub a_la_parada : Viaje → Option ℕ → Camino
  a_la_parada v (some q) = m.camino v.zona v.src (al_nodo q true) v.al_reves (m.lado_de v.p)
  a_la_parada v none = m.camino_taxi v.src v.al_reves (m.lado_de v.p)

  abbrev pub al_sitio : Viaje → Option Acceso → Camino
  al_sitio v (some b) = m.camino v.zona v.src (al_acceso b) v.al_reves (m.lado_de v.p)
  al_sitio v none = none

  abbrev pub en_bucle : Viaje → Option ℕ → Camino
  en_bucle v (some q) =
      ida_y_vuelta (m.camino v.zona v.src (al_nodo q false) false (m.lado_de v.p))
        (m.camino v.zona v.src (al_nodo q false) true (m.lado_de v.p))
  en_bucle v none = none

  abbrev pub a_la_meta : Viaje → Meta → Camino
  a_la_meta v (acc b) = m.camino v.zona v.src (al_acceso b) v.al_reves (m.lado_de v.p)
  a_la_meta v parada =
      a_la_parada v (mas_cerca (m.dist v.zona v.src) (m.paradas v.zona) none (parada_max * 100 + 1))
  a_la_meta v taxi = none
  a_la_meta v (nodo s lo hi) =
      let f = m.dist v.zona v.src in
      let k = m.nodos v.zona in
      en_bucle v (uno_de (si_no_hay (nodos_entre f lo hi k) (nodos_entre f 0 hi k)) s)
  a_la_meta v (sitio s lo hi) =
      al_sitio v
        (uno_de (accesos_entre m.es_portal (m.coste v.zona v.src) v.src lo hi (m.accesos v.zona)) s)

  -- The way of a trip, but for its timetable.
  abbrev pub traza : Viaje → Camino
  traza v =
      if m.es_suelta v.zona
      then (if m.tiene_taxi v.src then m.camino_recto v.src (not v.al_reves) else none)
      else a_la_meta v v.dst

  -- The turn of a crossing.
  abbrev pub turno : ℕ → Option ℕ → n.N
  turno id (some f) = n.de f
  turno id none = n.de (mezcla id 97 % ciclo)

  abbrev pub Horas : Type 0
  Horas = List (n.N × (n.N × n.N)) × (List (ℕ × (n.N × n.N)) × (n.N × n.N))

  -- One crossing of `horario`, from the time and the metres before it.
  abbrev pub cruza : n.N → n.N → ℕ → n.N → n.N → Horas → Horas
  cruza v t0 id c0 c1 (esp, (ocup, (t, d))) =
      let d0 = if n.menor c0 d then d else c0 in
      let ta = n.mas t (n.entre (n.menos d0 d) v) in
      let c = n.de ciclo in
      let at = n.menos (n.mas t0 ta) (turno id (m.fase_cebra id)) in
      let loc = n.resto (n.mas (n.resto at c) c) c in
      let w = if n.menor loc (n.de ventana) then n.de 0 else n.menos c loc in
      let entra = n.mas ta w in
      let sale = n.mas entra (n.entre (n.mayor (n.de 0) (n.menos c1 d0)) v) in
      (
        if n.menor (n.de 0) w then esp ++ ((d0, (ta, n.mas ta w)) ∷ []) else esp,
        (ocup ++ ((id, (entra, sale)) ∷ []), (sale, n.mayor d0 c1)),
      )

  abbrev pub cruza_todos : n.N → n.N → List (ℕ × (n.N × n.N)) → Horas → Horas
  cruza_todos v t0 [] h = h
  cruza_todos v t0 ((id, (c0, c1)) ∷ ceb) h = cruza_todos v t0 ceb (cruza v t0 id c0 c1 h)

  abbrev pub horario : Viaje → Trazado n Linea → Ruta n Linea
  horario v r =
      let h = cruza_todos (m.paso_de v.p) (n.de v.t0) r.ceb ([], ([], (n.de 0, n.de 0))) in
      let rest = n.entre (n.mayor (n.de 0) (n.menos r.largo h.1.1.1)) (m.paso_de v.p) in
      record { trazado = r; esperas = h.0; ocupa = h.1.0; dur = n.mas h.1.1.0 rest }

  -- `if (R2 && R2.dur > DMAX) R2 = null`
  abbrev pub acorta : Camino → Viaje → Option (Ruta n Linea)
  acorta none v = none
  acorta (some r) v = let q = horario v r in if n.menor m.dmax q.dur then none else some q

  -- What `rutaDe` computes when it has nothing kept.
  unfoldable pub ruta_nueva : Viaje → Option (Ruta n Linea)
  ruta_nueva v = acorta (traza v) v

  -- `andadoEn(R, vp, el)`, over the waits, with the time stood still so far: the metres, and whether
  -- the walker stands.
  abbrev pub andado_en : List (n.N × (n.N × n.N)) → n.N → n.N → n.N → n.N × Bool
  andado_en [] vp el parado = (n.por (n.menos el parado) vp, false)
  andado_en ((d, (e1, e2)) ∷ es) vp el parado =
      let rest = andado_en es vp el (n.mas parado (n.menos e2 e1)) in
      if n.alcanza e1 el
      then (n.por (n.menos el parado) vp, false)
      else (if n.menor el e2 then (d, true) else rest)
