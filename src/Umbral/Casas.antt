-- ===== src/Umbral/Casas.antt =====
-- The house: `abreCasa`, `cierraCasa`, `ponVisible`, `montaPlanta`, `pisoEnPlanta`, and the walker in the
-- frame of the building.
use rami_ledger.Prelude.{
  ℕ, ◌+◌, ◌-◌, Bool, true, false, Option, none, some, List, [], ◌∷◌, ltb, ◌==◌, if◌then◌else◌,
}
use rami_ledger.Flotantes.{Flotantes, cero}
use rami_ledger.Catastro.{Punto, Catastro}
use rami_ledger.Umbral.Estado.{
  Piso, TipoEdificio, villa, nave, bloque, Cual, el_bajo, la_planta, Espacio, Portal, PlanCasa,
  Casa, Caminante, Visita,
}
use rami_ledger.Umbral.Salas.{Sala, ConPatio}
use rami_ledger.Umbral.Pisos.{Navegador, lee_piso}

-- `Math.abs(a - b)`
abbrev pub distancia : ℕ → ℕ → ℕ
distancia a b = (a - b) + (b - a)

-- The loop of `pisoEnPlanta`: the floor that is nearest to `n`.
abbrev pub mas_cercana : ℕ → List ℕ → ℕ → ℕ
mas_cercana n [] k = k
mas_cercana n (v ∷ vs) k = mas_cercana n vs (if ltb (distancia v n) (distancia k n) then v else k)

-- `pisoEnPlanta`, for the number of a new object; a building with no floor has none.
abbrev pub piso_en_planta : List ℕ → ℕ → Piso → ℕ → Option Piso
piso_en_planta [] n actual obj = none
piso_en_planta (v ∷ vs) n actual obj =
    let k = mas_cercana n (v ∷ vs) v in
    some (if actual.planta == k then actual else record { obj = obj; planta = k })

-- The options of `entrar`, with the number of a new object.
pub record Opciones : Type 0 where
  pub inmediato : Bool
  pub planta : Option ℕ
  pub obj : ℕ

module _ (f : Flotantes) (Texto : Type 0) where
  -- What the module builds with: the plan of a building, its spaces, the choice of a floor, the ground of
  -- the street; the browser, the register of solids; how the viewer sets a walker down, the courtyards of a
  -- cell of their index and whether one is drawn, the speed of the viewer, and the space to walk in that
  -- a house shows.
  pub record Taller : Type 0 where
    pub nav : Navegador f Texto
    pub planifica : Portal f → PlanCasa f
    pub construye : Portal f → PlanCasa f → Espacio f
    pub construye_planta : PlanCasa f → Piso → Espacio f
    pub elige_piso : PlanCasa f → Piso
    pub suelo_en : f.N → f.N → f.N
    pub catastro : Option (Catastro f ℕ)
    pub a_pie_desde : Caminante f → Caminante f
    pub celda_patios : f.N → f.N → List (ConPatio f)
    pub dibujado : ConPatio f → Bool
    pub speed : f.N
    pub sala_de : Casa f → Cual → Sala f

  -- `aMundo`, `aLocal`
  abbrev pub a_mundo : Portal f → f.N → f.N → Punto f
  a_mundo po lx lz =
      let c = f.coseno po.giro in
      let s = f.seno po.giro in
      record {
        px = f.mas (f.mas po.ox (f.por lx c)) (f.por lz s);
        pz = f.mas (f.menos po.oz (f.por lx s)) (f.por lz c);
      }

  abbrev pub al_local : Portal f → f.N → f.N → Punto f
  al_local po wx wz =
      let dx = f.menos wx po.ox in
      let dz = f.menos wz po.oz in
      let c = f.coseno po.giro in
      let s = f.seno po.giro in
      record { px = f.menos (f.por dx c) (f.por dz s); pz = f.mas (f.por dx s) (f.por dz c) }

  abbrev pub angulo : f.N → f.N
  angulo a = f.arco (f.seno a) (f.coseno a)

  -- `ponLocal`, with a height and without
  abbrev pub pon_local : Portal f → f.N → f.N → Caminante f → Caminante f
  pon_local po x z pie = let w : Punto f = a_mundo po x z in record pie { x = w.px; z = w.pz }

  abbrev pub pon_local_y : Portal f → f.N → f.N → f.N → Caminante f → Caminante f
  pon_local_y po x z y pie = record (pon_local po x z pie) { y = f.mas po.oy y }

  abbrev pub yaw_local : Portal f → Caminante f → f.N
  yaw_local po pie = angulo (f.menos pie.yaw po.giro)

  abbrev pub pon_yaw_local : Portal f → f.N → Caminante f → Caminante f
  pon_yaw_local po yl pie = record pie { yaw = angulo (f.mas yl po.giro) }

  abbrev pub yaw_hacia : f.N → f.N → f.N
  yaw_hacia dx dz = f.arco (f.opuesto dx) (f.opuesto dz)

  -- `ponVisible`, but for the lamps
  abbrev pub pon_visible : Cual → Casa f → Casa f
  pon_visible e c = record c { visible = some e; solo_cabina = false }

  abbrev pub solo_la_cabina : Casa f → Casa f
  solo_la_cabina c = record c { visible = none; solo_cabina = true }

  abbrev pub es_bajo : Option Cual → Bool
  es_bajo none = false
  es_bajo (some el_bajo) = true
  es_bajo (some la_planta) = false

  module _ (ta : Taller) where
    abbrev pub con_leido : (ℕ → Option Texto) → Espacio f → Espacio f
    con_leido almacen e = elim e.muebles [ [] ↦ e | mu ∷ mus ↦ lee_piso f ta.nav almacen e ]

    abbrev pub piso_pedido : PlanCasa f → Option ℕ → ℕ → Option Piso
    piso_pedido plan none obj = some (ta.elige_piso plan)
    piso_pedido plan (some n) obj = piso_en_planta plan.plantas n (ta.elige_piso plan) obj

    abbrev pub con_tipo : TipoEdificio → Opciones → Casa f → Casa f
    con_tipo villa op c = c
    con_tipo nave op c = c
    con_tipo bloque op c = record c {
      cabina = true;
      cab_y = c.plan.suelo;
      piso = piso_pedido c.plan op.planta op.obj;
    }

    -- `abreCasa`, but for the meshes
    abbrev pub casa_nueva : Portal f → Opciones → (ℕ → Option Texto) → Casa f
    casa_nueva po op almacen =
        let plan : PlanCasa f = ta.planifica po in
        con_tipo plan.tipo op (record {
          po = po;
          plan = plan;
          bajo = con_leido almacen (ta.construye po plan);
          planta = none;
          cabina = false;
          cab_y = cero f;
          entrado = false;
          a_la_vista = false;
          visible = some el_bajo;
          solo_cabina = false;
          piso = none;
          viaje = none;
        })

    abbrev pub abre_casa : Portal f → Opciones → Visita f Texto → Visita f Texto
    abre_casa po op w = record w { casa = some (casa_nueva po op w.almacen) }

    -- `montaPlanta`
    abbrev pub monta_planta : (ℕ → Option Texto) → Piso → Casa f → Casa f
    monta_planta almacen p c = record c {
      planta =
          some (record {
            piso = p;
            espacio = lee_piso f ta.nav almacen (ta.construye_planta c.plan p);
          });
    }

  -- `cierraCasa`, but for the meshes and the lamps
  abbrev pub cierra_casa : Visita f Texto → Visita f Texto
  cierra_casa w = elim w.casa [
    | none ↦ w
    | some c ↦ record w { casa = none; seq = none; sel = none }
  ]
