-- ===== src/Camara.antt =====
-- The camera of the viewer (city3d.js): orbit and walk, `setMode`, `ponVista`, and the points from which
-- the measure of fluency looks.
pub mod Medida
pub mod Medidas
pub mod Foto
pub mod Fotos
pub mod Salidas
pub mod Tests
use rami_ledger.Prelude.{ℕ, Bool, true, false, Option, none, some, List, [], ◌∷◌, if◌then◌else◌}
use rami_ledger.Flotantes.{Flotantes, clamp, el_mayor, decimal, cero}

pub data Modo : Type 0 where
  a_pie orbita : Modo

abbrev pub mismo_modo : Modo → Modo → Bool
mismo_modo a_pie a_pie = true
mismo_modo orbita orbita = true
mismo_modo a_pie orbita = false
mismo_modo orbita a_pie = false

module _ (f : Flotantes) where
  pub record Vec3 : Type 0 where
    pub x : f.N
    pub y : f.N
    pub z : f.N

  pub record Orbita : Type 0 where
    pub theta : f.N
    pub phi : f.N
    pub radius : f.N
    pub target : Vec3

  pub record Andar : Type 0 where
    pub pos : Vec3
    pub yaw : f.N
    pub pitch : f.N
    pub fly : f.N

  -- What a visitor moves: the orbit, where it goes to, a flight, and the walker.
  pub record Pose : Type 0 where
    pub cur : Orbita
    pub goal : Orbita
    pub flight : Option ℕ
    pub andar : Andar

  pub record Camara : Type 0 where
    pub modo : Modo
    pub pose : Pose
    pub fov : f.N

  pub record Trama : Type 0 where
    pub alcance : f.N
    pub ang : f.N
    pub paso : f.N
    pub tx : f.N
    pub tz : f.N

  pub record Torre : Type 0 where
    pub lugar : Vec3
    pub alto : f.N
    pub ancho : f.N

  -- What the camera reads of the city, and what the hooks of a change of mode make of a pose.
  pub record Ciudad : Type 0 where
    pub sel : Option Vec3
    pub cell : f.N
    pub cos_r : f.N
    pub sin_r : f.N
    pub sin_hitos : f.N → f.N → f.N × f.N
    pub min_r : f.N
    pub max_r : f.N
    pub vista_ciudad : Orbita
    pub vista_centro : Orbita
    pub torre : Option Torre
    pub tramas : List Trama
    pub centro_x : f.N
    pub centro_z : f.N
    pub al_cambiar : Modo → Pose → Pose

  -- `rotOff`
  abbrev pub rot_off : Ciudad → f.N → f.N → f.N × f.N
  rot_off c dx dz = (
    f.mas (f.por dx c.cos_r) (f.por dz c.sin_r),
    f.mas (f.por (f.opuesto dx) c.sin_r) (f.por dz c.cos_r),
  )

  -- Where `setMode` sets the walker down: by the selected parcel, or where the orbit looked.
  abbrev pub baja_a_pie : Ciudad → Option Vec3 → Pose → Andar
  baja_a_pie c none p =
      let sp = c.sin_hitos (f.mas p.cur.target.x (f.de 0)) (f.mas p.cur.target.z (f.de 0)) in
      record {
        pos = record { x = sp.0; y = f.de 0; z = sp.1 };
        yaw = f.mas p.cur.theta f.pi;
        pitch = decimal f 8 100;
        fly = f.de 0;
      }
  baja_a_pie c (some start) p =
      let off = rot_off c (f.de 0) (f.mas (f.por c.cell (decimal f 5 10)) (f.de 12)) in
      let sp = c.sin_hitos (f.mas start.x off.0) (f.mas start.z off.1) in
      record {
        pos = record { x = sp.0; y = f.de 0; z = sp.1 };
        yaw = f.arco (f.opuesto (f.menos start.x sp.0)) (f.opuesto (f.menos start.z sp.1));
        pitch = decimal f 8 100;
        fly = f.de 0;
      }

  -- Back to the orbit, over where the walker was.
  abbrev pub sube_a_orbita : Ciudad → Pose → Pose
  sube_a_orbita c p =
      let o : Orbita = record {
        theta = f.menos p.andar.yaw f.pi;
        phi = decimal f 95 100;
        radius = f.por c.cell (decimal f 25 10);
        target = p.andar.pos;
      } in
      record p { cur = o; goal = o }

  -- `setMode`
  abbrev pub cambia_modo : Ciudad → Modo → Camara → Camara
  cambia_modo c a_pie cam = record cam {
    modo = a_pie;
    pose = c.al_cambiar a_pie (record cam.pose { andar = baja_a_pie c c.sel cam.pose });
  }
  cambia_modo c orbita cam = record cam {
    modo = orbita;
    pose = c.al_cambiar orbita (sube_a_orbita c cam.pose);
  }

  unfoldable pub set_mode : Ciudad → Modo → Camara → Camara
  set_mode c m cam = if mismo_modo cam.modo m then cam else cambia_modo c m cam

  -- `ponVista`
  abbrev pub pon_vista : Ciudad → Orbita → Camara → Camara
  pon_vista c v cam =
      let o : Orbita = record v { radius = clamp f v.radius c.min_r c.max_r } in
      record cam { pose = record cam.pose { cur = o; goal = o; flight = none } }

  -- `puntoAPie`: the largest grid, and a crossing of it.
  abbrev pub mayor_trama : Option Trama → List Trama → Option Trama
  mayor_trama t [] = t
  mayor_trama none (u ∷ us) = mayor_trama (some u) us
  mayor_trama (some t) (u ∷ us) =
      mayor_trama (some (if f.menor t.alcance u.alcance then u else t)) us

  abbrev pub cruce_de : Ciudad → Option Trama → Andar
  cruce_de c none = record {
    pos = record { x = c.centro_x; y = f.de 0; z = c.centro_z };
    yaw = f.de 0;
    pitch = decimal f 5 100;
    fly = f.de 0;
  }
  cruce_de c (some t) =
      let cs = f.coseno t.ang in
      let sn = f.seno t.ang in
      record {
        pos = record {
          x = f.mas (f.menos (f.mas t.tx (f.por cs t.paso)) (f.por sn t.paso)) (f.por cs (f.de 12));
          y = f.de 0;
          z = f.mas (f.mas (f.mas t.tz (f.por sn t.paso)) (f.por cs t.paso)) (f.por sn (f.de 12));
        };
        yaw = f.arco (f.opuesto cs) (f.opuesto sn);
        pitch = decimal f 5 100;
        fly = f.de 0;
      }

  -- The view of the third measure: a landmark from near, or the city.
  abbrev pub de_cerca : Ciudad → Option Torre → Orbita
  de_cerca c none = c.vista_ciudad
  de_cerca c (some l) = record {
    theta = decimal f 26 10;
    phi = decimal f 105 100;
    radius =
        el_mayor f (el_mayor f (f.por l.alto (decimal f 22 10)) (f.por l.ancho (f.de 3)))
          (f.de 300);
    target = l.lugar;
  }
