-- ===== src/Umbral/Estado.antt =====
-- The state: the house that is open, its spaces, the walker, and the steps of a guided walk.
use rami_ledger.Prelude.{ℕ, Bool, Option, List}
pub use rami_ledger.Camara.{Modo, a_pie, orbita}
use rami_ledger.Flotantes.{Flotantes}
use rami_ledger.Catastro.{Punto}

-- An object of a floor: `obj` tells it from others, as `===` does.
pub record Piso : Type 0 where
  pub obj : ℕ
  pub planta : ℕ

pub data Destino : Type 0 where
  al_bajo : Destino
  al_piso : Piso → Destino

pub data TipoEdificio : Type 0 where
  villa nave bloque : TipoEdificio

pub data Cual : Type 0 where
  el_bajo la_planta : Cual

pub record Lampara : Type 0 where
  pub on : Bool
  pub fija : Bool
  pub techo_fijo : Bool

module _ (f : Flotantes) where
  pub record Caja : Type 0 where
    pub x0 : f.N
    pub x1 : f.N
    pub z0 : f.N
    pub z1 : f.N

  -- A piece of furniture, with its room (`cuarto`), and the size that its pieces have.
  pub record Mueble : Type 0 where
    pub id : ℕ
    pub mx : f.N
    pub mz : f.N
    pub r : ℕ
    pub x0 : f.N
    pub z0 : f.N
    pub r0 : ℕ
    pub habitacion : Caja
    pub sx : f.N
    pub sz : f.N

  pub record Espacio : Type 0 where
    pub piso_id : Option ℕ
    pub muebles : List Mueble
    pub lamparas : List (Option Lampara)
    pub recuperado : Bool
    pub yb : f.N
    pub salida_z : f.N
    pub puerta_piso : Option (Punto f)

  pub record Portal : Type 0 where
    pub ox : f.N
    pub oy : f.N
    pub oz : f.N
    pub giro : f.N
    pub px : f.N
    pub zf : f.N
    pub z_acera : f.N
    pub patio : Bool

  pub record PlanCasa : Type 0 where
    pub tipo : TipoEdificio
    pub suelo : f.N
    pub cab_z0 : f.N
    pub cab_z1 : f.N
    pub ex : f.N
    pub z_l0 : f.N
    pub centro_x : f.N
    pub frente_z : f.N
    pub plantas : List ℕ

  -- A point to walk to, with the height of the feet where it is given.
  pub record Parada : Type 0 where
    pub lugar : Punto f
    pub altura : Option f.N

  -- Where to look at the end of a walk.
  pub data Giro : Type 0 where
    sin_giro : Giro
    hacia : f.N → Giro
    al_salir : Giro

  -- The steps that the guided walks are made of: `pasoAndar`, `pasoPuertas`, `pasoViaje`, and the
  -- functions that they give to `pasoFn`.
  pub data Paso : Type 0 where
    andar : List Parada → Giro → f.N → Paso
    puertas : Bool → Paso
    viaje : f.N → f.N → Paso
    ya_dentro : Paso
    a_la_calle : Paso
    monta : Destino → Paso
    llega : Destino → Paso

  -- A point of the walk that is under way, with its distance from the start.
  pub record Hito : Type 0 where
    pub hx : f.N
    pub hz : f.N
    pub hy : f.N
    pub hs : f.N

  pub record TramoGuiado : Type 0 where
    pub pts : List Hito
    pub largo : f.N
    pub vel : f.N
    pub girado : f.N

  pub record Seq : Type 0 where
    pub pasos : List Paso
    pub i : ℕ
    pub t : f.N
    pub ini : Bool
    pub salida : Bool
    pub tramo : Option TramoGuiado

  pub record Planta : Type 0 where
    pub piso : Piso
    pub espacio : Espacio

  pub record Casa : Type 0 where
    pub po : Portal
    pub plan : PlanCasa
    pub bajo : Espacio
    pub planta : Option Planta
    pub cabina : Bool
    pub cab_y : f.N
    pub entrado : Bool
    pub a_la_vista : Bool
    pub visible : Option Cual
    pub solo_cabina : Bool
    pub piso : Option Piso
    pub viaje : Option (f.N × f.N)

  pub record Caminante : Type 0 where
    pub x : f.N
    pub y : f.N
    pub z : f.N
    pub yaw : f.N
    pub pitch : f.N
    pub fly : f.N

  pub record Visita (Texto : Type 0) : Type 0 where
    pub ready : Bool
    pub xr : Bool
    pub modo : Modo
    pub pie : Caminante
    pub casa : Option Casa
    pub seq : Option Seq
    pub sel : Option ℕ
    pub hojas : f.N
    pub congelado : Bool
    pub almacen : ℕ → Option Texto
