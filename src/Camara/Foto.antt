-- ===== src/Camara/Foto.antt =====
-- The photo mode (city/extras.js): `entraFoto`, `saleFoto`, `camaraLibre`, `cuadroFoto`, `ocultaEtiquetas`
-- and the buttons.
use rami_ledger.Prelude.{
  ℕ, suc, ◌%◌, Bool, true, false, not, ◌&&◌, ◌||◌, Option, none, some, List, [], ◌∷◌, ◌++◌, ◌==◌,
  if◌then◌else◌,
}
use rami_ledger.Flotantes.{Flotantes, clamp, el_mayor, decimal}
use rami_ledger.Catastro.{Catastro, Punto}
use rami_ledger.Catastro.Consultas.{empujar_fuera}
use rami_ledger.Camara.{Modo, a_pie, orbita, Orbita, Andar, Pose, Camara, Ciudad, set_mode}

-- What is drawn or not, by the object's number.
abbrev pub con {ℓ} : {A : Type ℓ} → ℕ → A → (ℕ → A) → ℕ → A
con o v g k = if k == o then v else g k

-- Those that are visible are hidden, and their numbers kept.
abbrev pub oculta : List ℕ → (ℕ → Bool) × List ℕ → (ℕ → Bool) × List ℕ
oculta [] (v, os) = (v, os)
oculta (o ∷ xs) (v, os) = oculta xs (if v o then (con o false v, os ++ (o ∷ [])) else (v, os))

abbrev pub pone_todos : Bool → List ℕ → (ℕ → Bool) → ℕ → Bool
pone_todos b [] v = v
pone_todos b (o ∷ os) v = pone_todos b os (con o b v)

-- The loop over the children: what they were, and all hidden; `0` is `none`.
abbrev pub esconde : List ℕ → (ℕ → ℕ) × List (ℕ × ℕ) → (ℕ → ℕ) × List (ℕ × ℕ)
esconde [] (d, ps) = (d, ps)
esconde (h ∷ hs) (d, ps) = esconde hs (con h 0 d, ps ++ ((h, d h) ∷ []))

abbrev pub vuelve : List (ℕ × ℕ) → (ℕ → ℕ) → ℕ → ℕ
vuelve [] d = d
vuelve ((h, x) ∷ ps) d = vuelve ps (con h x d)

module _ (f : Flotantes) where
  -- What `entraFoto` keeps.
  pub record PoseGuardada : Type 0 where
    pub camara : Camara f
    pub pantalla : List (ℕ × ℕ)
    pub estilo : Option ℕ
    pub scroll : f.N × f.N

  pub record Foto : Type 0 where
    pub activo : Bool
    pub focal : f.N
    pub nivel : Bool
    pub travelling : Bool
    pub pendiente : Bool
    pub guardado : Option PoseGuardada
    pub ocultas : List ℕ
    pub objetos : List ℕ

  -- The page and the scene: the children of the container that are not the canvas nor the bar, with their
  -- `display`; the style; the materials of the scene, which are labels or not, and the three marks of the
  -- cursor, with what of them is visible.
  pub record Pantalla : Type 0 where
    pub ready : Bool
    pub xr : Bool
    pub frame : ℕ
    pub camara : Camara f
    pub hijos : List ℕ
    pub display : ℕ → ℕ
    pub estilo : Option ℕ
    pub scroll : f.N × f.N
    pub barra : Bool
    pub etiquetas : List ℕ
    pub se_ve : ℕ → Bool
    pub marcas : List ℕ
    pub se_marca : ℕ → Bool
    pub foto : Foto

  -- `fovDeFocal`, `focalDeFov`, `focalDeRango`
  abbrev pub fov_de_focal : f.N → f.N
  fov_de_focal x =
      f.entre (f.por (f.por (f.de 2) (f.arco (f.entre (f.de 12) x) (f.de 1))) (f.de 180)) f.pi

  abbrev pub focal_de_fov : f.N → f.N
  focal_de_fov fov = f.entre (f.de 12) (f.tangente (f.entre (f.por fov f.pi) (f.de 360)))

  abbrev pub focal_de_rango : f.N → f.N
  focal_de_rango v =
      f.por (f.de 14) (f.potencia (f.entre (f.de 200) (f.de 14)) (f.entre v (f.de 1000)))

  -- `ocultaEtiquetas`
  abbrev pub oculta_etiquetas : Pantalla → Pantalla
  oculta_etiquetas s =
      let l = oculta s.etiquetas (s.se_ve, s.foto.ocultas) in
      let m = oculta s.marcas (s.se_marca, s.foto.objetos) in
      record s {
        se_ve = l.0;
        se_marca = m.0;
        foto = record s.foto { ocultas = l.1; objetos = m.1 };
      }

  -- `entraFoto`, for the style of the whole screen.
  abbrev pub entra_ya : ℕ → Pantalla → Pantalla
  entra_ya fijo s =
      let e = esconde s.hijos (s.display, []) in
      oculta_etiquetas (record s {
        display = e.0;
        estilo = some fijo;
        barra = true;
        foto = record s.foto {
          activo = true;
          focal = clamp f (focal_de_fov s.camara.fov) (f.de 14) (f.de 200);
          guardado =
              some (record {
                camara = s.camara;
                pantalla = e.1;
                estilo = s.estilo;
                scroll = s.scroll;
              });
        };
      })

  unfoldable pub entra_foto : ℕ → Pantalla → Pantalla
  entra_foto fijo s = if (s.foto.activo || not s.ready) || s.xr then s else entra_ya fijo s

  module _ (c : Ciudad f) (cat : Option (Catastro f ℕ)) where
    -- `saleFoto`: the pose as it was, but for the orbit of a photo that began on foot.
    abbrev pub con_orbita : Modo → Pose f → Pose f → Pose f
    con_orbita a_pie g p = p
    con_orbita orbita g p = record p { cur = g.cur; goal = g.goal; flight = g.flight }

    abbrev pub camara_guardada : Camara f → Camara f → Camara f
    camara_guardada g cam =
        let w : Camara f = set_mode f c g.modo cam in
        record w { pose = con_orbita g.modo g.pose (record w.pose { andar = g.pose.andar }) }

    abbrev pub sale_a : PoseGuardada → Pantalla → Pantalla
    sale_a g s =
        let cam : Camara f = record s.camara { fov = g.camara.fov } in
        record s {
          camara = if s.xr then cam else camara_guardada g.camara cam;
          display = vuelve g.pantalla s.display;
          estilo = g.estilo;
          scroll = g.scroll;
          se_ve = pone_todos true s.foto.ocultas s.se_ve;
          se_marca = pone_todos true s.foto.objetos s.se_marca;
          barra = false;
          foto = record s.foto { activo = false; pendiente = false; ocultas = []; objetos = [] };
        }

    abbrev pub con_guardado : Option PoseGuardada → Pantalla → Pantalla
    con_guardado none s = s
    con_guardado (some g) s = sale_a g s

    unfoldable pub sale_foto : Pantalla → Pantalla
    sale_foto s = if s.foto.activo then con_guardado s.foto.guardado s else s

    -- `camaraLibre`
    abbrev pub vuela : Andar f → Andar f
    vuela a = record a {
      fly = if f.alcanza a.fly (f.de 2) then f.de 0 else el_mayor f a.fly (f.de 40);
    }

    unfoldable pub camara_libre : Pantalla → Pantalla
    camara_libre s =
        let w : Camara f = set_mode f c a_pie s.camara in
        record s { camara = record w { pose = record w.pose { andar = vuela w.pose.andar } } }

    -- The travelling of `cuadroFoto`.
    abbrev pub aparta : Andar f → Andar f
    aparta a =
        let q : Punto f =
          (empujar_fuera f ℕ cat (decimal f 42 100) (record { px = a.pos.x; pz = a.pos.z })).0 in
        record a { pos = record a.pos { x = q.px; z = q.pz } }

    abbrev pub de_lado : f.N → Andar f → Andar f
    de_lado dt a =
        let r = f.por (decimal f 12 10) dt in
        let b : Andar f = record a {
          pos = record a.pos {
            x = f.mas a.pos.x (f.por (f.coseno a.yaw) r);
            z = f.menos a.pos.z (f.por (f.seno a.yaw) r);
          };
        } in
        if f.menor a.fly (f.de 2) then aparta b else b

    abbrev pub gira : f.N → Orbita f → Orbita f
    gira dt o = record o { theta = f.mas o.theta (f.por (decimal f 21 1000) dt) }

    abbrev pub viaja_con : f.N → Modo → Pose f → Pose f
    viaja_con dt a_pie p = record p { andar = de_lado dt p.andar }
    viaja_con dt orbita p = record p { goal = gira dt p.goal; cur = gira dt p.cur }

    abbrev pub cuadro_activo : f.N → Pantalla → Pantalla
    cuadro_activo dt s =
        let t : Pantalla = if s.frame % 16 == 0 then oculta_etiquetas s else s in
        let p : Pose f =
          if t.foto.travelling then viaja_con dt t.camara.modo t.camara.pose else t.camara.pose in
        record t {
          se_marca = pone_todos false t.foto.objetos t.se_marca;
          camara = record t.camara { pose = p; fov = fov_de_focal t.foto.focal };
        }

    -- `cuadroFoto`, but for the level horizon, which turns the camera of the frame only.
    unfoldable pub cuadro_foto : f.N → Pantalla → Pantalla
    cuadro_foto dt s = if s.foto.activo then cuadro_activo dt s else s

    -- The buttons and the slider.
    pub data Boton : Type 0 where
      entra : Boton
      libre : Boton
      focal : f.N → Boton
      nivel : Boton
      travelling : Boton
      guardar : Boton
      captura : Boton
      cuadro : f.N → Boton
      pasa_cuadro : Boton

    abbrev pub pulsa : ℕ → Boton → Pantalla → Pantalla
    pulsa fijo entra s = entra_foto fijo s
    pulsa fijo libre s = camara_libre s
    pulsa fijo (focal v) s = record s { foto = record s.foto { focal = focal_de_rango v } }
    pulsa fijo nivel s = record s { foto = record s.foto { nivel = not s.foto.nivel } }
    pulsa fijo travelling s = record s {
      foto = record s.foto { travelling = not s.foto.travelling };
    }
    pulsa fijo guardar s = record s { foto = record s.foto { pendiente = true } }
    pulsa fijo captura s =
        if s.foto.activo && s.foto.pendiente
        then record s { foto = record s.foto { pendiente = false } }
        else s
    pulsa fijo (cuadro dt) s = cuadro_foto dt s
    pulsa fijo pasa_cuadro s = record s { frame = suc s.frame }

    abbrev pub pulsan : ℕ → List Boton → Pantalla → Pantalla
    pulsan fijo [] s = s
    pulsan fijo (b ∷ bs) s = pulsan fijo bs (pulsa fijo b s)
