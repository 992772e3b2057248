-- ===== src/Umbral/Rondas.antt =====
-- The frames of a guided walk keep what holds inside a house.
use rami_ledger.Prelude.{
  ℕ, zero, suc, ◌≡◌, refl, sym, ap, subst, ◌∙◌, Bool, true, false, Option, none, some, List, [],
  ◌∷◌, if◌then◌else◌, get_elem?, drop,
}
use rami_ledger.Flotantes.{Flotantes, cero, el_menor}
use rami_ledger.Umbral.Estado.{
  Piso, Destino, al_bajo, al_piso, Giro, TramoGuiado, Cual, la_planta, Paso, andar, puertas, viaje,
  ya_dentro, a_la_calle, monta, llega, Seq, Planta, Casa, Caminante, Visita,
}
use rami_ledger.Umbral.Casas.{Taller, monta_planta}
use rami_ledger.Umbral.Pasos.{
  tiene_piso, con_planta, al_viaje, al_llegar, si_empieza, inicia, da_paso, yaw_final, tras_paso,
  ronda_seq, con_ronda, rondas_seq, mueve_puertas, anda, con_lados, lados_de, duracion, cota_en,
  suave,
}
use rami_ledger.Umbral.Dentro.{
  Si, si_map, at_drop, Llega, Bien, Ve, Sigue, DentroDe, IsDentro, Keeps, step_over,
}

module _ (f : Flotantes) (Texto : Type 0) (ta : Taller f Texto) where
  Sig : Bool → Option Cual → Option (Planta f) → List (Paso f) → Type 0
  Sig b v p ps = Ve f Texto b v p × (Si b (Llega f Texto ps) × Bien f Texto ps)

  same_sig :
      (c c' : Casa f) (ps : List (Paso f))
      → Sigue f Texto c ps
      → c'.solo_cabina ≡ c.solo_cabina
      → c'.visible ≡ c.visible
      → c'.planta ≡ c.planta
      → Sigue f Texto c' ps
  unfolding Sig
  same_sig c c' ps h b v p =
      subst (λ z. Sig z c'.visible c'.planta ps) (sym b)
        (subst (λ z. Sig c.solo_cabina z c'.planta ps) (sym v)
          (subst (λ z. Sig c.solo_cabina c.visible z ps) (sym p) h))

  has_floor :
      (almacen : ℕ → Option Texto) (p : Piso) (c : Casa f)
      → Ve f Texto false (some la_planta) (con_planta f Texto ta almacen p c).planta
  has_floor almacen p c = by_floor c.planta
    where
      by_floor :
          (q : Option (Planta f))
          → Ve f Texto false
              (some la_planta)
              (if tiene_piso f Texto ta p q
                then record c { planta = q }
                else monta_planta f Texto ta almacen p (record c { planta = q })).planta
      by_floor none = tt
      by_floor (some q) = pick (tiene_piso f Texto ta p (some q))
        where
          pick :
              (b : Bool)
              → Ve f Texto false
                  (some la_planta)
                  (if b
                    then record c { planta = some q }
                    else monta_planta f Texto ta almacen p (record c { planta = some q })).planta
          pick true = tt
          pick false = tt

  pub arrived-Ve :
      (almacen : ℕ → Option Texto) (d : Destino) (c : Casa f) (ps : List (Paso f))
      → Bien f Texto ps
      → Sigue f Texto (al_llegar f Texto ta almacen d c) ps
  arrived-Ve almacen al_bajo c ps h = (tt, (tt, h))
  arrived-Ve almacen (al_piso p) c ps h = (has_floor almacen p c, (tt, h))

  riding-Ve :
      (almacen : ℕ → Option Texto) (d : Destino) (c : Casa f) (ps : List (Paso f))
      → Llega f Texto ps
      → Bien f Texto ps
      → Sigue f Texto (al_viaje f Texto ta almacen d c) ps
  riding-Ve almacen al_bajo c ps l h = (tt, (l, h))
  riding-Ve almacen (al_piso p) c ps l h = (tt, (l, h))

  -- Steps that leave what is seen alone.
  next_of :
      (c : Casa f) (p : Paso f) (ps : List (Paso f))
      → Ve f Texto c.solo_cabina c.visible c.planta
      → Si c.solo_cabina (Llega f Texto ps)
      → Bien f Texto ps
      → (c' : Casa f) → c'.solo_cabina ≡ c.solo_cabina
      → c'.visible ≡ c.visible
      → c'.planta ≡ c.planta
      → Sigue f Texto c' ps
  next_of c p ps v l b c' e e' e'' = same_sig c c' ps (v, (l, b)) e e' e''

  -- A walk of a step: the stretch that it has, or none.
  walk-IsDentro :
      (more : Visita f Texto → Visita f Texto) (p : Paso f) (y : Option f.N) (tt' dt : f.N)
      (c : Casa f) (s : Seq f) (w : Visita f Texto) (o : Option (TramoGuiado f))
      → (g : Giro f) → Keeps f Texto ta more
      → Sigue f Texto c (drop s.i s.pasos)
      → ((c' : Casa f)
          → c'.solo_cabina ≡ c.solo_cabina
          → c'.visible ≡ c.visible
          → c'.planta ≡ c.planta
          → Sigue f Texto c' (drop (suc s.i) s.pasos))
      → IsDentro f Texto (
          tras_paso f Texto ta more p
            (anda f Texto g tt' dt c s o (record w { casa = some c; seq = some s })))
  walk-IsDentro more p y tt' dt c s w none g keeps now next =
      step_over f Texto ta more p true c s w keeps now next
  walk-IsDentro more p y tt' dt c s w (some tr) g keeps now next =
      let r =
        con_lados f Texto (yaw_final f Texto g c) tt' dt c tr w.pie
          (lados_de f Texto (el_menor f tr.largo (f.por tt' tr.vel)) tr.pts) in
      step_over f Texto ta more p r.0 c (record s { tramo = some r.1.0 }) (record w { pie = r.1.1 })
        keeps now next

  -- One step of a walk.
  paso-IsDentro :
      (more : Visita f Texto → Visita f Texto) (dt : f.N) (p : Paso f) (c : Casa f) (s : Seq f)
      (w : Visita f Texto)
      → Keeps f Texto ta more
      → drop s.i s.pasos ≡ p ∷ drop (suc s.i) s.pasos
      → Sigue f Texto c (p ∷ drop (suc s.i) s.pasos)
      → IsDentro f Texto (
          tras_paso f Texto ta more p
            (da_paso f Texto ta p s.t dt c s (record w { casa = some c; seq = some s })))
  paso-IsDentro more dt (andar a g v) c s w keeps e h =
      let ps = drop (suc s.i) s.pasos in
      let l =
        si_map c.solo_cabina (Llega f Texto (andar a g v ∷ ps)) (Llega f Texto ps) (λ q. q) h.1.0 in
      walk-IsDentro more (andar a g v) none s.t dt c s w s.tramo g keeps
        (subst (Sigue f Texto c) (sym e) h) (next_of c (andar a g v) ps h.0 l h.1.1)
  paso-IsDentro more dt (puertas b) c s w keeps e h =
      let ps = drop (suc s.i) s.pasos in
      let l =
        si_map c.solo_cabina (Llega f Texto (puertas b ∷ ps)) (Llega f Texto ps) (λ q. q) h.1.0 in
      let r = mueve_puertas f Texto b s.t (record w { casa = some c; seq = some s }) in
      step_over f Texto ta more (puertas b) r.0 c s (record w { hojas = r.1.hojas }) keeps
        (subst (Sigue f Texto c) (sym e) h) (next_of c (puertas b) ps h.0 l h.1.1)
  paso-IsDentro more dt (viaje y0 y1) c s w keeps e h =
      let ps = drop (suc s.i) s.pasos in
      let l =
        si_map c.solo_cabina (Llega f Texto (viaje y0 y1 ∷ ps)) (Llega f Texto ps) (λ q. q) h.1.0 in
      step_over f Texto ta more (viaje y0 y1) (f.alcanza s.t (duracion f Texto y0 y1))
        (record c {
          cab_y = cota_en f Texto y0 y1 s.t;
          viaje =
              some (suave f Texto (f.entre s.t (duracion f Texto y0 y1)), duracion f Texto y0 y1);
        })
        s (record w { pie = record w.pie { y = f.mas c.po.oy (cota_en f Texto y0 y1 s.t) } }) keeps
        (subst (Sigue f Texto c) (sym e) h) (next_of c (viaje y0 y1) ps h.0 l h.1.1)
  paso-IsDentro more dt ya_dentro c s w keeps e h =
      let ps = drop (suc s.i) s.pasos in
      let l =
        si_map c.solo_cabina (Llega f Texto (ya_dentro ∷ ps)) (Llega f Texto ps) (λ q. q) h.1.0 in
      step_over f Texto ta more ya_dentro true (record c { entrado = true }) s w keeps
        (subst (Sigue f Texto c) (sym e) h) (next_of c ya_dentro ps h.0 l h.1.1)
  paso-IsDentro more dt a_la_calle c s w keeps e h = record { dentro = tt }
  paso-IsDentro more dt (monta d) c s w keeps e h =
      let ps = drop (suc s.i) s.pasos in
      let c' = al_viaje f Texto ta w.almacen d c in
      let q = riding-Ve w.almacen d c ps h.1.1.0 h.1.1.1 in
      step_over f Texto ta more (monta d) true c' s w keeps
        (subst (Sigue f Texto c') (sym e) (q.0, (q.1.0, h.1.1)))
        (λ c'' a b p. same_sig c' c'' ps q a b p)
  paso-IsDentro more dt (llega d) c s w keeps e h =
      let ps = drop (suc s.i) s.pasos in
      let c' = al_llegar f Texto ta w.almacen d c in
      let q = arrived-Ve w.almacen d c ps h.1.1 in
      step_over f Texto ta more (llega d) true c' s w keeps
        (subst (Sigue f Texto c') (sym e) (
          q.0,
          (
            si_map c'.solo_cabina (Llega f Texto ps) (Llega f Texto (llega d ∷ ps)) (λ z. tt) q.1.0,
            h.1.1,
          ),
        ))
        (λ c'' a b p. same_sig c' c'' ps q a b p)

  start_same :
      (p : Paso f) (c : Casa f) (pie : Caminante f) (s : Seq f)
      → (drop (si_empieza f Texto ta p c pie s).i (si_empieza f Texto ta p c pie s).pasos
          ≡ drop s.i s.pasos)
        × (drop (suc (si_empieza f Texto ta p c pie s).i) (si_empieza f Texto ta p c pie s).pasos
            ≡ drop (suc s.i) s.pasos)
  start_same p c pie s = by_ini s.ini
    where
      begun :
          (q : Paso f)
          → ((inicia f Texto ta q c pie s).i ≡ s.i)
            × ((inicia f Texto ta q c pie s).pasos ≡ s.pasos)
      begun (andar a g v) = (refl, refl)
      begun (puertas b) = (refl, refl)
      begun (viaje a b) = (refl, refl)
      begun ya_dentro = (refl, refl)
      begun a_la_calle = (refl, refl)
      begun (monta d) = (refl, refl)
      begun (llega d) = (refl, refl)

      by_ini :
          (b : Bool)
          → let t : Seq f = if b then s else inicia f Texto ta p c pie s in
            (drop t.i t.pasos ≡ drop s.i s.pasos)
            × (drop (suc t.i) t.pasos ≡ drop (suc s.i) s.pasos)
      by_ini true = (refl, refl)
      by_ini false =
          let (e, e') = begun p in
          (
            ap (λ k. drop k (inicia f Texto ta p c pie s).pasos) e ∙ ap (drop s.i) e',
            ap (λ k. drop (suc k) (inicia f Texto ta p c pie s).pasos) e ∙ ap (drop (suc s.i)) e',
          )

  ronda-IsDentro :
      (more : Visita f Texto → Visita f Texto) (dt : f.N) (o : Option (Paso f)) (c : Casa f)
      (s : Seq f) (w : Visita f Texto)
      → Keeps f Texto ta more
      → get_elem? s.pasos s.i ≡ o
      → Sigue f Texto c (drop s.i s.pasos)
      → IsDentro f Texto
          (ronda_seq f Texto ta more dt o c s (record w { casa = some c; seq = some s }))
  ronda-IsDentro more dt none c s w keeps e h = record {
    dentro = subst (Sigue f Texto c) (past s.pasos s.i e) h;
  }
    where
      past : (xs : List (Paso f)) (i : ℕ) → get_elem? xs i ≡ none → drop i xs ≡ []
      past [] zero e = refl
      past [] (suc i) e = refl
      past (x ∷ xs) zero e = cc
      past (x ∷ xs) (suc i) e = past xs i e
  ronda-IsDentro more dt (some p) c s w keeps e h =
      let s1 : Seq f = si_empieza f Texto ta p c w.pie s in
      let s2 : Seq f = record s1 { t = f.mas s1.t dt } in
      let (a, b) = start_same p c w.pie s in
      paso-IsDentro more dt p c s2 w keeps (a ∙ at_drop s.pasos s.i e ∙ ap (λ q. p ∷ q) (sym b))
        (subst (Sigue f Texto c) (at_drop s.pasos s.i e ∙ ap (λ q. p ∷ q) (sym b)) h)

  con_ronda-IsDentro :
      (more : Visita f Texto → Visita f Texto) (dt : f.N) (c : Option (Casa f)) (s : Option (Seq f))
      (w : Visita f Texto)
      → Keeps f Texto ta more
      → DentroDe f Texto c s
      → IsDentro f Texto (con_ronda f Texto ta more dt c s (record w { casa = c; seq = s }))
  con_ronda-IsDentro more dt none none w keeps h = record { dentro = tt }
  con_ronda-IsDentro more dt (some c) none w keeps h = record { dentro = h }
  con_ronda-IsDentro more dt none (some s) w keeps h = elim h [ ]
  con_ronda-IsDentro more dt (some c) (some s) w keeps h =
      ronda-IsDentro more dt (get_elem? s.pasos s.i) c s w keeps refl h

  pub rondas-IsDentro :
      (k : ℕ) (dt : f.N) (w : Visita f Texto)
      → IsDentro f Texto w
      → IsDentro f Texto (rondas_seq f Texto ta k dt w)
  unfolding rondas_seq
  rondas-IsDentro zero dt w h = h
  rondas-IsDentro (suc k) dt w h =
      con_ronda-IsDentro (rondas_seq f Texto ta k (cero f)) dt w.casa w.seq w
        (λ v g. rondas-IsDentro k (cero f) v g) h.dentro
