-- ===== src/Vida/Cuadro.antt =====
-- A frame of the city life: `cuadro`, with the clock (`avanzaReloj`), the slice of the work that is under
-- way (`trabajoPaso`, `trabajoFin`), the zones that are near (`zonasCerca`), who is in the street
-- (`enLaCalle`), the crossings that are taken and the walkers that are drawn.
pub mod Marcas
pub mod Dibujados
pub mod Tests
use rami_ledger.Prelude.{
  ℕ, zero, suc, ◌+◌, Bool, true, false, not, ◌&&◌, ◌||◌, Option, none, some, List, [], ◌∷◌, ◌++◌,
  ◌==◌, ltb, take, sort, map, length, if◌then◌else◌,
}
use rami_ledger.Vida.Diario.{dia, Viaje}
use rami_ledger.Vida.Rutas.{Numeros, Ruta, Calles, andado_en}
use rami_ledger.Vida.Rutas.Guardadas.{Guardado, ruta_de, transcurrido, poda, cambia_en}
use rami_ledger.Vida.Calle.{ZonaHoras, en_dia, en_ventana}

abbrev pub cache_max : ℕ
cache_max = 8000

-- The marks of the list are taken away.
abbrev pub desmarca : List ℕ → (ℕ → Bool) → ℕ → Bool
desmarca [] g = g
desmarca (m ∷ ms) g = desmarca ms (cambia_en g m false)

abbrev pub sin_marcas : List ℕ → Option (ℕ → Bool) → Option (ℕ → Bool)
sin_marcas ms none = none
sin_marcas ms (some g) = some (desmarca ms g)

module _ (n : Numeros) where
  abbrev pub cuadrado : n.N → n.N
  cuadrado a = n.por a a

  -- `!==`, for numbers.
  abbrev pub distinto : n.N → n.N → Bool
  distinto a b = n.menor a b || n.menor b a

  -- The clocks: the one set by hand, the hour of the viewer that was seen last, and the one that runs
  -- from there.
  pub record Reloj : Type 0 where
    pub manual : Option n.N
    pub hora_vista : Option n.N
    pub reloj : n.N

  abbrev pub otra_hora : n.N → Option n.N → Bool
  otra_hora h none = true
  otra_hora h (some v) = distinto h v

  abbrev pub con_hora : n.N → n.N → Option n.N → Reloj → n.N × Reloj
  con_hora dt ahora none r = (en_dia n (n.mas ahora (n.de 14400)), record r { hora_vista = none })
  con_hora dt ahora (some h) r =
      let t =
        if otra_hora h r.hora_vista
        then n.por h (n.de 3600)
        else n.resto (n.mas r.reloj dt) (n.de dia) in
      (t, record r { hora_vista = some h; reloj = t })

  abbrev pub con_manual : n.N → n.N → Option n.N → Option n.N → Reloj → n.N × Reloj
  con_manual dt ahora hour none r = con_hora dt ahora hour r
  con_manual dt ahora hour (some m) r =
      let t = en_dia n (n.mas m dt) in (t, record r { manual = some t })

  -- `avanzaReloj`, with the seconds of `Date.now()` and the hour of the viewer.
  unfoldable pub avanza_reloj : n.N → n.N → Option n.N → Reloj → n.N × Reloj
  avanza_reloj dt ahora hour r = con_manual dt ahora hour r.manual r

  pub record Lugar3 : Type 0 where
    pub x : n.N
    pub y : n.N
    pub z : n.N

  -- A point of a way, with the direction there.
  pub record Punta : Type 0 where
    pub donde : Lugar3
    pub dx : n.N
    pub dz : n.N

  pub record Peaton : Type 0 where
    pub p : ℕ
    pub v : ℕ
    pub punta : Punta
    pub andado : n.N
    pub quieto : Bool
    pub d2 : n.N

  pub record ZonaCalle : Type 0 where
    pub id : ℕ
    pub x : n.N
    pub z : n.N
    pub radio : n.N
    pub horas : ZonaHoras ℕ

  -- `zonasCerca`
  abbrev pub cercanas : Lugar3 → List ZonaCalle → List (n.N × ZonaCalle)
  cercanas f [] = []
  cercanas f (z ∷ zs) =
      let rest = cercanas f zs in
      let d2 = n.mas (cuadrado (n.menos z.x f.x)) (cuadrado (n.menos z.z f.z)) in
      if n.menor d2 (cuadrado (n.mas (n.de 1600) z.radio)) then (d2, z) ∷ rest else rest

  abbrev pub mas_cerca_zona : n.N × ZonaCalle → n.N × ZonaCalle → Bool
  mas_cerca_zona a b = n.menor a.0 b.0 || (not (n.menor b.0 a.0) && ltb a.1.id b.1.id)

  abbrev pub zonas_cerca : Lugar3 → List ZonaCalle → List ZonaCalle
  zonas_cerca f zs = map (λ q. q.1) (sort mas_cerca_zona (cercanas f zs))

  -- A frame marks the crossings that are taken, and lists them and the walkers.
  pub record Vistos : Type 0 where
    pub activos : ℕ
    pub ocu : Option (ℕ → Bool)
    pub marcadas : List ℕ
    pub lista : List Peaton

  -- `el >= R.ocupa[k + 1] - AVISO_CEBRA && el <= R.ocupa[k + 2] + 0.3`
  abbrev pub pisa : n.N → n.N × n.N → Bool
  pisa el (a, b) =
      n.alcanza el (n.menos a (n.de 4)) && n.alcanza (n.mas b (n.entre (n.de 3) (n.de 10))) el

  abbrev pub marca_una : n.N → ℕ × (n.N × n.N) → (ℕ → Bool) × List ℕ → (ℕ → Bool) × List ℕ
  marca_una el (k, ab) (g, ms) =
      if pisa el ab && not (g k) then (cambia_en g k true, ms ++ (k ∷ [])) else (g, ms)

  abbrev pub marca_todas : n.N → List (ℕ × (n.N × n.N)) → (ℕ → Bool) × List ℕ → (ℕ → Bool) × List ℕ
  marca_todas el [] gm = gm
  marca_todas el (c ∷ cs) gm = marca_todas el cs (marca_una el c gm)

  abbrev pub con_marcas : n.N → List (ℕ × (n.N × n.N)) → Option (ℕ → Bool) → Vistos → Vistos
  con_marcas el cs none s = s
  con_marcas el cs (some g) s =
      let q = marca_todas el cs (g, s.marcadas) in record s { ocu = some q.0; marcadas = q.1 }

  module _ (Linea : Type 0) (punto_ruta : Linea → n.N → Punta) where
    -- What `trabajoFin` takes over from the new state: what the ways are made of, the zones, and the ways
    -- that are kept.
    pub record Poblacion : Type 0 where
      pub m : Calles n Linea
      pub zonas : List ZonaCalle
      pub guardado : Guardado n Linea m

    pub record Tope : Type 0 where
      pub tn : ℕ
      pub tr : n.N

    -- The camera and where the viewer looks, `foco`.
    pub record Mirada : Type 0 where
      pub foco : Lugar3
      pub camara : Lugar3
      pub tope : Tope

    module _ (m : Calles n Linea) where
      -- `enLaCalle`: whoever is on the way at the hour.
      abbrev pub si_camina :
          {S : Type 0}
          → (ℕ → n.N → Guardado n Linea m × S → Guardado n Linea m × S)
          → ℕ
          → Option n.N × Guardado n Linea m
          → S
          → Guardado n Linea m × S
      si_camina g k (none, w) s = (w, s)
      si_camina g k (some el, w) s = g k el (w, s)

      abbrev pub de_viaje :
          {S : Type 0}
          → (ℕ → n.N → Guardado n Linea m × S → Guardado n Linea m × S)
          → n.N
          → Bool
          → (ℕ → Bool)
          → ZonaHoras ℕ
          → ℕ
          → Guardado n Linea m × S
          → Guardado n Linea m × S
      de_viaje g t pres tarde z k (w, s) =
          si_camina g k (transcurrido n Linea m (m.viajes k) t pres (tarde k) w) s

      abbrev pub en_la_calle :
          {S : Type 0}
          → (ℕ → n.N → Guardado n Linea m × S → Guardado n Linea m × S)
          → n.N
          → Bool
          → (ℕ → Bool)
          → List (ZonaHoras ℕ)
          → Guardado n Linea m × S
          → Guardado n Linea m × S
      en_la_calle g t pres tarde zs s = en_ventana n (de_viaje g t pres tarde) t m.dmax zs s

      -- A walker of the frame: the crossings, and the place in the list if it is near enough.
      abbrev pub apunta_peaton : n.N → Peaton → Vistos → Vistos
      apunta_peaton r2 q s = if n.menor q.d2 r2 then record s { lista = s.lista ++ (q ∷ []) } else s

      abbrev pub peaton : Lugar3 → Viaje → Punta → n.N × Bool → Peaton
      peaton cam v pt a = record {
        p = v.p;
        v = v.id;
        punta = pt;
        andado = a.0;
        quieto = a.1;
        d2 = n.mas (cuadrado (n.menos pt.donde.x cam.x)) (cuadrado (n.menos pt.donde.z cam.z));
      }

      abbrev pub en_camino : Mirada → Viaje → n.N → Ruta n Linea → Vistos → Vistos
      en_camino mi v el r s =
          let a = andado_en n Linea m r.esperas (m.paso_de v.p) el (n.de 0) in
          let pt : Punta = punto_ruta r.trazado.linea a.0 in
          apunta_peaton (cuadrado mi.tope.tr) (peaton mi.camara v pt a)
            (con_marcas el r.ocupa s.ocu (record s { activos = suc s.activos }))

      -- The way is there, since `transcurrido` has found that it is under way.
      abbrev pub con_ruta :
          Mirada
          → Viaje
          → n.N
          → Option (Option (Ruta n Linea)) × Guardado n Linea m
          → Vistos
          → Guardado n Linea m × Vistos
      con_ruta mi v el (some (some r), w) s = (w, en_camino mi v el r s)
      con_ruta mi v el (some none, w) s = (w, s)
      con_ruta mi v el (none, w) s = (w, s)

      abbrev pub ve_peaton :
          Mirada → ℕ → n.N → Guardado n Linea m × Vistos → Guardado n Linea m × Vistos
      ve_peaton mi k el (w, s) =
          con_ruta mi (m.viajes k) el (ruta_de n Linea m (m.viajes k) false false w) s

    -- The work that is under way: the new population, and what is left to do, in `W`.
    pub record Trabajo (W : Type 0) : Type 0 where
      pub nueva : Poblacion
      pub hora : n.N
      pub resto : W
      pub trozos : ℕ

    pub record EstadoVida (W : Type 0) : Type 0 where
      pub hecho : Bool
      pub pob : Poblacion
      pub reloj : Reloj
      pub hora : n.N
      pub trabajo : Option (Trabajo W)
      pub marcadas : List ℕ
      pub ocu : Option (ℕ → Bool)
      pub activos : ℕ
      pub dibujados : List Peaton
      pub n_ocupadas : ℕ

    module _ (W : Type 0) (fases : Trabajo W → Bool × Trabajo W) where
      -- `trabajoPaso`: `fases`, with the clock and the frame of the state in use.
      abbrev pub con_cuadro : ℕ → Poblacion → Poblacion
      con_cuadro k q = record q { guardado = record q.guardado { n_cuadro = k } }

      abbrev pub un_trozo : Bool × Trabajo W → Bool × Trabajo W
      un_trozo (b, j) = (b, record j { trozos = suc j.trozos })

      abbrev pub trabajo_paso : Trabajo W → EstadoVida W → Bool × Trabajo W
      trabajo_paso j s =
          un_trozo
            (fases (record j { nueva = con_cuadro s.pob.guardado.n_cuadro j.nueva; hora = s.hora }))

      -- `trabajoFin`: what was warmed up counts as used in this frame.
      abbrev pub usados_en : ℕ → (ℕ → Option ℕ) → ℕ → Option ℕ
      usados_en c uso k = elim (uso k) [ none ↦ none | some u ↦ some c ]

      abbrev pub trabajo_fin : Trabajo W → EstadoVida W → EstadoVida W
      trabajo_fin j s = record s {
        hecho = true;
        pob = record {
          m = j.nueva.m;
          zonas = j.nueva.zonas;
          guardado = record j.nueva.guardado {
            uso = usados_en s.pob.guardado.n_cuadro j.nueva.guardado.uso;
            n_cuadro = s.pob.guardado.n_cuadro;
            aplazados = s.pob.guardado.aplazados;
            podas = s.pob.guardado.podas;
          };
        };
      }

      -- `construye`
      abbrev pub construye_ya : Trabajo W → EstadoVida W → EstadoVida W
      construye_ya nuevo s = record (trabajo_fin (trabajo_paso nuevo s).1 s) { trabajo = none }

      abbrev pub tras_trozo : Bool × Trabajo W → EstadoVida W → EstadoVida W
      tras_trozo (true, j) s = record (trabajo_fin j s) { trabajo = none }
      tras_trozo (false, j) s = record s { trabajo = some j }

      abbrev pub trabaja : Option (Trabajo W) → EstadoVida W → EstadoVida W
      trabaja none s = s
      trabaja (some j) s = tras_trozo (trabajo_paso j s) s

      -- The beginning of `cuadro`: the clock, the count, the work, and the marks of the last frame.
      abbrev pub empieza_cuadro : n.N → n.N → Option n.N → EstadoVida W → EstadoVida W
      empieza_cuadro dt ahora hour s =
          let r = avanza_reloj dt ahora hour s.reloj in
          record s {
            hora = r.0;
            reloj = r.1;
            pob = record s.pob {
              guardado = record s.pob.guardado {
                n_cuadro = suc s.pob.guardado.n_cuadro;
                aplazados = 0;
              };
            };
          }

      abbrev pub borra_marcas : EstadoVida W → EstadoVida W
      borra_marcas s = record s { ocu = sin_marcas s.marcadas s.ocu; marcadas = [] }

      abbrev pub si_sobran : (m : Calles n Linea) → Guardado n Linea m → Guardado n Linea m
      si_sobran m w = if ltb cache_max w.n_cache then poda n Linea m w else w

      -- The walkers of the frame: those that are nearest are drawn.
      abbrev pub mas_cerca_de : Peaton → Peaton → Bool
      mas_cerca_de a b = n.menor a.d2 b.d2

      abbrev pub cierra_cuadro :
          Mirada → (s : EstadoVida W) → Guardado n Linea s.pob.m × Vistos → EstadoVida W
      cierra_cuadro mi s q = record s {
        pob = record s.pob { guardado = si_sobran s.pob.m q.0 };
        ocu = q.1.ocu;
        marcadas = q.1.marcadas;
        activos = q.1.activos;
        dibujados = take mi.tope.tn (sort mas_cerca_de q.1.lista);
        n_ocupadas = length q.1.marcadas;
      }

      abbrev pub observa :
          Mirada → (ℕ → Bool) → (s : EstadoVida W) → Guardado n Linea s.pob.m × Vistos
      observa mi tarde s =
          en_la_calle s.pob.m (ve_peaton s.pob.m mi) s.hora true tarde
            (map (λ z. z.horas) (zonas_cerca mi.foco s.pob.zonas))
            (s.pob.guardado, record { activos = 0; ocu = s.ocu; marcadas = s.marcadas; lista = [] })

      abbrev pub con_gente : Mirada → (ℕ → Bool) → EstadoVida W → EstadoVida W
      con_gente mi tarde s =
          if not s.hecho || mi.tope.tn == 0
          then record s { activos = 0; dibujados = [] }
          else cierra_cuadro mi s (observa mi tarde s)

      -- `cuadro`, but for the meshes; `tarde` tells of a trip whether the time of the frame for new ways
      -- is used up when it is looked at.
      unfoldable pub cuadro :
          n.N → n.N → Option n.N → Mirada → (ℕ → Bool) → EstadoVida W → EstadoVida W
      cuadro dt ahora hour mi tarde s =
          let t : EstadoVida W = empieza_cuadro dt ahora hour s in
          con_gente mi tarde (borra_marcas (trabaja t.trabajo t))
