-- ===== src/Camara/Salidas.antt =====
-- Behind a photo, the camera, the page and the scene are as they were.
use rami_ledger.Prelude.{
  ℕ, ◌%◌, ◌≡◌, refl, sym, ap, subst, ◌∙◌, inl, inr, Bool, true, false, not, ◌&&◌, ◌||◌, Option,
  some, List, [], ◌∷◌, ◌==◌, if◌then◌else◌, Bool-cases,
}
use mathlib.Core.Logic.{◌⊎◌}
use rami_ledger.Flotantes.{Flotantes}
use rami_ledger.Catastro.{Catastro, es_visto}
use rami_ledger.Camara.{Modo, a_pie, orbita, Camara, Ciudad, set_mode}
use rami_ledger.Camara.Medidas.{set_mode-modo, Devuelta}
use rami_ledger.Camara.Foto.{
  PoseGuardada, Pantalla, oculta_etiquetas, esconde, vuelve, entra_ya, entra_foto, camara_guardada,
  con_guardado, sale_foto, camara_libre, cuadro_activo, cuadro_foto, Boton, entra, libre, focal,
  nivel, travelling, guardar, captura, cuadro, pasa_cuadro, pulsa, pulsan, pone_todos,
}
use rami_ledger.Camara.Fotos.{
  SeVeia, hide-SeVeia, show_all, keep_hidden, Distintos, kept_all, back_at, hidden_at,
}

module _ (f : Flotantes) (c : Ciudad f) (cat : Option (Catastro f ℕ)) (fijo : ℕ)
    (s0 : Pantalla f) where
  abbrev kept : PoseGuardada f
  kept = record {
    camara = s0.camara;
    pantalla = (esconde s0.hijos (s0.display, [])).1;
    estilo = s0.estilo;
    scroll = s0.scroll;
  }

  -- A photo of `s0` is under way.
  record EnFoto (s : Pantalla f) : Type 0 where
    activa : s.foto.activo ≡ true
    sin_gafas : s.xr ≡ false
    guardada : s.foto.guardado ≡ some kept
    escondida : s.display ≡ (esconde s0.hijos (s0.display, [])).0
    etiquetas : SeVeia s0.se_ve s.se_ve s.foto.ocultas
    marcas : SeVeia s0.se_marca s.se_marca s.foto.objetos

  hidden-EnFoto : (s : Pantalla f) → EnFoto s → EnFoto (oculta_etiquetas f s)
  hidden-EnFoto s h = record {
    activa = h.activa;
    sin_gafas = h.sin_gafas;
    guardada = h.guardada;
    escondida = h.escondida;
    etiquetas = hide-SeVeia s0.se_ve s.etiquetas s.se_ve s.foto.ocultas h.etiquetas;
    marcas = hide-SeVeia s0.se_marca s.marcas s.se_marca s.foto.objetos h.marcas;
  }

  si_toca-EnFoto :
      (b : Bool) (s : Pantalla f) → EnFoto s → EnFoto (if b then oculta_etiquetas f s else s)
  si_toca-EnFoto true s h = hidden-EnFoto s h
  si_toca-EnFoto false s h = h

  moved-EnFoto :
      (s : Pantalla f) (cam : Camara f)
      → EnFoto s
      → EnFoto (record s { se_marca = pone_todos false s.foto.objetos s.se_marca; camara = cam })
  moved-EnFoto s cam h = record {
    activa = h.activa;
    sin_gafas = h.sin_gafas;
    guardada = h.guardada;
    escondida = h.escondida;
    etiquetas = h.etiquetas;
    marcas = keep_hidden s0.se_marca s.se_marca s.foto.objetos h.marcas;
  }

  frame-EnFoto : (dt : f.N) (s : Pantalla f) → EnFoto s → EnFoto (cuadro_foto f c cat dt s)
  unfolding cuadro_foto
  frame-EnFoto dt s h =
      subst (λ (b : Bool). EnFoto (if b then cuadro_activo f c cat dt s else s)) (sym h.activa)
        (moved-EnFoto (if s.frame % 16 == 0 then oculta_etiquetas f s else s) _
          (si_toca-EnFoto (s.frame % 16 == 0) s h))

  pulsa-EnFoto : (b : Boton f c cat) (s : Pantalla f) → EnFoto s → EnFoto (pulsa f c cat fijo b s)
  unfolding entra_foto camara_libre
  pulsa-EnFoto entra s h =
      subst (λ (b : Bool). EnFoto (if (b || not s.ready) || s.xr then s else entra_ya f fijo s))
        (sym h.activa) h
  pulsa-EnFoto libre s h = record {
    activa = h.activa;
    sin_gafas = h.sin_gafas;
    guardada = h.guardada;
    escondida = h.escondida;
    etiquetas = h.etiquetas;
    marcas = h.marcas;
  }
  pulsa-EnFoto (focal v) s h = record {
    activa = h.activa;
    sin_gafas = h.sin_gafas;
    guardada = h.guardada;
    escondida = h.escondida;
    etiquetas = h.etiquetas;
    marcas = h.marcas;
  }
  pulsa-EnFoto nivel s h = record {
    activa = h.activa;
    sin_gafas = h.sin_gafas;
    guardada = h.guardada;
    escondida = h.escondida;
    etiquetas = h.etiquetas;
    marcas = h.marcas;
  }
  pulsa-EnFoto travelling s h = record {
    activa = h.activa;
    sin_gafas = h.sin_gafas;
    guardada = h.guardada;
    escondida = h.escondida;
    etiquetas = h.etiquetas;
    marcas = h.marcas;
  }
  pulsa-EnFoto guardar s h = record {
    activa = h.activa;
    sin_gafas = h.sin_gafas;
    guardada = h.guardada;
    escondida = h.escondida;
    etiquetas = h.etiquetas;
    marcas = h.marcas;
  }
  pulsa-EnFoto captura s h = by_pending (s.foto.activo && s.foto.pendiente)
    where
      by_pending :
          (b : Bool)
          → EnFoto (if b then record s { foto = record s.foto { pendiente = false } } else s)
      by_pending true = record {
        activa = h.activa;
        sin_gafas = h.sin_gafas;
        guardada = h.guardada;
        escondida = h.escondida;
        etiquetas = h.etiquetas;
        marcas = h.marcas;
      }
      by_pending false = h
  pulsa-EnFoto (cuadro dt) s h = frame-EnFoto dt s h
  pulsa-EnFoto pasa_cuadro s h = record {
    activa = h.activa;
    sin_gafas = h.sin_gafas;
    guardada = h.guardada;
    escondida = h.escondida;
    etiquetas = h.etiquetas;
    marcas = h.marcas;
  }

  pulsan-EnFoto :
      (bs : List (Boton f c cat)) (s : Pantalla f) → EnFoto s → EnFoto (pulsan f c cat fijo bs s)
  pulsan-EnFoto [] s h = h
  pulsan-EnFoto (b ∷ bs) s h = pulsan-EnFoto bs (pulsa f c cat fijo b s) (pulsa-EnFoto b s h)

  -- As before the photo.
  pub record ComoAntes (s : Pantalla f) : Type 0 where
    pub camara_igual : Devuelta f s0.camara.modo s0.camara s.camara
    pub fov_igual : s.camara.fov ≡ s0.camara.fov
    pub pagina_igual : (k : ℕ) → s.display k ≡ s0.display k
    pub estilo_igual : (s.estilo ≡ s0.estilo) × (s.scroll ≡ s0.scroll)
    pub etiquetas_iguales : (k : ℕ) → s.se_ve k ≡ s0.se_ve k
    pub marcas_iguales : (k : ℕ) → s.se_marca k ≡ s0.se_marca k
    pub sin_foto : s.foto.activo ≡ false

  camera_back :
      (m : Modo) (cam : Camara f)
      → m ≡ s0.camara.modo
      → Devuelta f m s0.camara (camara_guardada f c cat (record s0.camara { modo = m }) cam)
  camera_back a_pie cam e = (set_mode-modo f c a_pie cam, refl)
  camera_back orbita cam e = (set_mode-modo f c orbita cam, (refl, (refl, refl)))

  page_back :
      (k : ℕ)
      → Distintos s0.hijos
      → vuelve kept.pantalla (esconde s0.hijos (s0.display, [])).0 k ≡ s0.display k
  page_back k d =
      ap (λ l. vuelve l (esconde s0.hijos (s0.display, [])).0 k) (kept_all s0.hijos s0.display [] d)
      ∙ (back_at s0.hijos s0.display (esconde s0.hijos (s0.display, [])).0 k
          ∙ by_seen (Bool-cases (es_visto k s0.hijos)))
    where
      by_seen :
          (es_visto k s0.hijos ≡ true) ⊎ (es_visto k s0.hijos ≡ false)
          → (if es_visto k s0.hijos then s0.display k else (esconde s0.hijos (s0.display, [])).0 k)
            ≡ s0.display k
      by_seen (inl q) = rw q refl
      by_seen (inr q) = rw q (hidden_at s0.hijos s0.display [] k q)

  fov_kept : (m : Modo) (cam : Camara f) → (set_mode f c m cam).fov ≡ cam.fov
  unfolding set_mode
  fov_kept m cam = by_modes cam.modo m
    where
      by_modes : (a b : Modo) → (set_mode f c b (record cam { modo = a })).fov ≡ cam.fov
      by_modes a_pie a_pie = refl
      by_modes a_pie orbita = refl
      by_modes orbita a_pie = refl
      by_modes orbita orbita = refl

  left : (s : Pantalla f) → Distintos s0.hijos → EnFoto s → ComoAntes (sale_foto f c cat s)
  unfolding sale_foto
  left s d h =
      subst (λ (b : Bool). ComoAntes (if b then con_guardado f c cat s.foto.guardado s else s))
        (sym h.activa)
        (subst (λ o. ComoAntes (con_guardado f c cat o s)) (sym h.guardada)
          (record {
            camara_igual =
                subst
                  (λ (b : Bool).
                    let cam : Camara f = record s.camara { fov = s0.camara.fov } in
                    Devuelta f s0.camara.modo s0.camara
                      (if b then cam else camara_guardada f c cat s0.camara cam))
                  (sym h.sin_gafas) (camera_back s0.camara.modo _ refl);
            fov_igual =
                subst
                  (λ (b : Bool).
                    let cam : Camara f = record s.camara { fov = s0.camara.fov } in
                    (if b then cam else camara_guardada f c cat s0.camara cam).fov ≡ s0.camara.fov)
                  (sym h.sin_gafas) (fov_kept s0.camara.modo _);
            pagina_igual = λ k. ap (λ e. vuelve kept.pantalla e k) h.escondida ∙ page_back k d;
            estilo_igual = (refl, refl);
            etiquetas_iguales = λ k. show_all s.foto.ocultas s.se_ve k ∙ sym (h.etiquetas k);
            marcas_iguales = λ k. show_all s.foto.objetos s.se_marca k ∙ sym (h.marcas k);
            sin_foto = refl;
          }))

  -- A photo that is entered and left, with any of the other buttons and any frames in between, leaves the mode, the view
  -- angle, the walker on foot or the orbit, the page and its style, the labels and the marks as they were,
  -- if the city is loaded, with no glasses and no photo under way, nothing hidden for one, and no child of
  -- the container there twice.
  pub sale_foto-entra_foto :
      (bs : List (Boton f c cat))
      → s0.foto.activo ≡ false
      → s0.ready ≡ true
      → s0.xr ≡ false
      → s0.foto.ocultas ≡ []
      → s0.foto.objetos ≡ []
      → Distintos s0.hijos
      → ComoAntes (sale_foto f c cat (pulsan f c cat fijo bs (entra_foto f fijo s0)))
  unfolding entra_foto
  sale_foto-entra_foto bs a r x os ms d = left (pulsan f c cat fijo bs (entra_foto f fijo s0)) d (
      pulsan-EnFoto bs (entra_foto f fijo s0) (
        subst (λ (b : Bool). EnFoto (if b then s0 else entra_ya f fijo s0))
          (sym (ap (λ b. (b || not s0.ready) || s0.xr) a ∙ ap (λ b. not b || s0.xr) r ∙ x))
          (record {
            activa = refl;
            sin_gafas = x;
            guardada = refl;
            escondida = refl;
            etiquetas =
                hide-SeVeia s0.se_ve s0.etiquetas s0.se_ve s0.foto.ocultas
                  (λ k. ap (λ l. es_visto k l || s0.se_ve k) (sym os));
            marcas =
                hide-SeVeia s0.se_marca s0.marcas s0.se_marca s0.foto.objetos
                  (λ k. ap (λ l. es_visto k l || s0.se_marca k) (sym ms));
          })))
