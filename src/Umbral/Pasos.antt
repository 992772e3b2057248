-- ===== src/Umbral/Pasos.antt =====
-- The steps of a guided walk, and `corre` and `avanza`, which go through them.
use rami_ledger.Prelude.{
  ℕ, zero, suc, Bool, true, false, ◌||◌, Option, none, some, List, [], ◌∷◌, ◌==◌, if◌then◌else◌,
  get_elem?,
}
use rami_ledger.Flotantes.{Flotantes, cero, modulo, clamp, el_menor, lerp, decimal}
use rami_ledger.Catastro.{Punto}
use rami_ledger.Umbral.Estado.{
  Piso, Destino, al_bajo, al_piso, el_bajo, la_planta, Espacio, PlanCasa, Parada, Giro, sin_giro,
  hacia, al_salir, Paso, andar, puertas, viaje, ya_dentro, a_la_calle, monta, llega, Hito,
  TramoGuiado, Seq, Planta, Casa, Caminante, Visita,
}
use rami_ledger.Umbral.Casas.{
  Taller, al_local, angulo, pon_local_y, yaw_local, pon_yaw_local, yaw_hacia, pon_visible,
  solo_la_cabina, monta_planta, cierra_casa,
}

module _ (f : Flotantes) (Texto : Type 0) where
  -- `corre`
  abbrev pub corre : List (Paso f) → Visita f Texto → Visita f Texto
  corre pasos w = record w {
    seq =
        some
          (record { pasos = pasos; i = 0; t = cero f; ini = false; salida = false; tramo = none });
  }

  -- `pasoAndar`, `inicio`: the points with the heights filled in and the distances summed.
  abbrev pub altura_o : Option f.N → f.N → f.N
  altura_o none y = y
  altura_o (some y') y = y'

  abbrev pub hitos : Hito f → List (Parada f) → List (Hito f)
  hitos h [] = []
  hitos h (p ∷ ps) =
      let k : Hito f = record {
        hx = p.lugar.px;
        hz = p.lugar.pz;
        hy = altura_o p.altura h.hy;
        hs = f.mas h.hs (f.hipot (f.menos p.lugar.px h.hx) (f.menos p.lugar.pz h.hz));
      } in
      k ∷ hitos k ps

  abbrev pub ultimo_hito : Hito f → List (Hito f) → f.N
  ultimo_hito h [] = h.hs
  ultimo_hito h (k ∷ ks) = ultimo_hito k ks

  abbrev pub tramo_de : List (Parada f) → f.N → Casa f → Caminante f → TramoGuiado f
  tramo_de puntos vel c pie =
      let p0 : Punto f = al_local f Texto c.po pie.x pie.z in
      let h : Hito f = record { hx = p0.px; hz = p0.pz; hy = f.menos pie.y c.po.oy; hs = cero f } in
      record {
        pts = h ∷ hitos h puntos;
        largo = ultimo_hito h (hitos h puntos);
        vel = vel;
        girado = cero f;
      }

  -- The stretch of the walk at a distance, its two ends.
  abbrev pub lados : f.N → Hito f → List (Hito f) → Option (Hito f × Hito f)
  lados s a [] = none
  lados s a (b ∷ []) = some (a, b)
  lados s a (b ∷ c ∷ ks) =
      let more = lados s b (c ∷ ks) in if f.menor b.hs s then more else some (a, b)

  abbrev pub lados_de : f.N → List (Hito f) → Option (Hito f × Hito f)
  lados_de s [] = none
  lados_de s (a ∷ ks) = lados s a ks

  -- `mirarAlSalir`
  abbrev pub puerta_de : PlanCasa f → Option (Punto f) → Punto f
  puerta_de plan none = record { px = plan.centro_x; pz = plan.frente_z }
  puerta_de plan (some p) = p

  abbrev pub espacio_visible : Casa f → Option (Espacio f)
  espacio_visible c = elim c.visible [
    | none ↦ none
    | some el_bajo ↦ some c.bajo
    | some la_planta ↦ elim c.planta [ none ↦ none | some p ↦ some p.espacio ]
  ]

  abbrev pub puerta_visible : Option (Espacio f) → Option (Punto f)
  puerta_visible none = none
  puerta_visible (some e) = e.puerta_piso

  abbrev pub mirar_al_salir : Casa f → f.N
  mirar_al_salir c =
      let p : Punto f = puerta_de c.plan (puerta_visible (espacio_visible c)) in
      yaw_hacia f Texto (f.menos p.px c.plan.ex)
        (f.menos p.pz (f.mas c.plan.z_l0 (decimal f 13 10)))

  abbrev pub yaw_final : Giro f → Casa f → Option f.N
  yaw_final sin_giro c = none
  yaw_final (hacia y) c = some y
  yaw_final al_salir c = some (mirar_al_salir c)

  -- `pasoAndar`, `paso`: whether the walk has ended, the walk, and the walker.
  abbrev pub da_pasos :
      Option f.N
      → f.N
      → f.N
      → Casa f
      → TramoGuiado f
      → Caminante f
      → Hito f × Hito f
      → Bool × (TramoGuiado f × Caminante f)
  da_pasos yf tt dt c tr pie (a, b) =
      let s = el_menor f tr.largo (f.por tt tr.vel) in
      let q =
        if f.menor a.hs b.hs
        then clamp f (f.entre (f.menos s a.hs) (f.menos b.hs a.hs)) (f.de 0) (f.de 1)
        else f.de 1 in
      let p1 : Caminante f =
        pon_local_y f Texto c.po (lerp f a.hx b.hx q) (lerp f a.hz b.hz q) (lerp f a.hy b.hy q)
          pie in
      let yl = yaw_local f Texto c.po p1 in
      let obj =
        if f.menor s (f.menos tr.largo (decimal f 5 100))
        then yaw_hacia f Texto (f.menos b.hx a.hx) (f.menos b.hz a.hz)
        else altura_o yf yl in
      let d = angulo f Texto (f.menos obj yl) in
      let p2 : Caminante f =
        pon_yaw_local f Texto c.po (f.mas yl (f.por d (el_menor f (f.de 1) (f.por dt (f.de 7)))))
          p1 in
      let p3 : Caminante f = record p2 {
        pitch =
            f.mas p2.pitch
              (f.por (f.menos (f.de 0) p2.pitch) (el_menor f (f.de 1) (f.por dt (f.de 5))));
      } in
      let tr' : TramoGuiado f = record tr { girado = f.mas tr.girado dt } in
      if f.menor s tr.largo then (false, (tr, p3)) else (
        f.menor (modulo f d) (decimal f 2 100) || f.menor (decimal f 6 10) tr'.girado,
        (tr', p3),
      )

  abbrev pub con_lados :
      Option f.N
      → f.N
      → f.N
      → Casa f
      → TramoGuiado f
      → Caminante f
      → Option (Hito f × Hito f)
      → Bool × (TramoGuiado f × Caminante f)
  con_lados yf tt dt c tr pie none = (true, (tr, pie))
  con_lados yf tt dt c tr pie (some ab) = da_pasos yf tt dt c tr pie ab

  abbrev pub con_tramo : Seq f → TramoGuiado f × Caminante f → Visita f Texto → Visita f Texto
  con_tramo s (tr, pie) w = record w { pie = pie; seq = some (record s { tramo = some tr }) }

  abbrev pub anda :
      Giro f
      → f.N
      → f.N
      → Casa f
      → Seq f
      → Option (TramoGuiado f)
      → Visita f Texto
      → Bool × Visita f Texto
  anda g tt dt c s none w = (true, w)
  anda g tt dt c s (some tr) w =
      let (fin, r) =
        con_lados (yaw_final g c) tt dt c tr w.pie
          (lados_de (el_menor f tr.largo (f.por tt tr.vel)) tr.pts) in
      (fin, con_tramo s r w)

  -- `pasoPuertas`
  abbrev pub mueve_puertas : Bool → f.N → Visita f Texto → Bool × Visita f Texto
  mueve_puertas abrir tt w =
      let q = clamp f (f.entre tt (decimal f 9 10)) (f.de 0) (f.de 1) in
      (
        f.alcanza q (f.de 1),
        record w { hojas = f.por (decimal f 52 100) (if abrir then q else f.menos (f.de 1) q) },
      )

  -- `pasoViaje`
  abbrev pub alto_planta : f.N
  alto_planta = decimal f 36 10

  abbrev pub suave : f.N → f.N
  suave x =
      let t = clamp f x (f.de 0) (f.de 1) in f.por (f.por t t) (f.menos (f.de 3) (f.por (f.de 2) t))

  abbrev pub duracion : f.N → f.N → f.N
  duracion y0 y1 =
      clamp f
        (f.mas (decimal f 16 10)
          (f.por (f.entre (modulo f (f.menos y1 y0)) alto_planta) (decimal f 9 100)))
        (decimal f 25 10) (f.de 6)

  abbrev pub cota_en : f.N → f.N → f.N → f.N
  cota_en y0 y1 tt = lerp f y0 y1 (suave (f.entre tt (duracion y0 y1)))

  abbrev pub viaja : f.N → f.N → f.N → Casa f → Visita f Texto → Bool × Visita f Texto
  viaja y0 y1 tt c w = (
    f.alcanza tt (duracion y0 y1),
    record w {
      casa = some (record c {
        cab_y = cota_en y0 y1 tt;
        viaje = some (suave (f.entre tt (duracion y0 y1)), duracion y0 y1);
      });
      pie = record w.pie { y = f.mas c.po.oy (cota_en y0 y1 tt) };
    },
  )

  module _ (ta : Taller f Texto) where
    -- The functions of `tomaAscensor`: the floor is there, and the lift arrives.
    abbrev pub tiene_piso : Piso → Option (Planta f) → Bool
    tiene_piso p none = false
    tiene_piso p (some q) = q.piso.obj == p.obj

    abbrev pub con_planta : (ℕ → Option Texto) → Piso → Casa f → Casa f
    con_planta almacen p c =
        if tiene_piso p c.planta then c else monta_planta f Texto ta almacen p c

    abbrev pub al_viaje : (ℕ → Option Texto) → Destino → Casa f → Casa f
    al_viaje almacen al_bajo c = solo_la_cabina f Texto c
    al_viaje almacen (al_piso p) c = solo_la_cabina f Texto (con_planta almacen p c)

    abbrev pub cota : PlanCasa f → Destino → f.N
    cota plan al_bajo = plan.suelo
    cota plan (al_piso p) = f.mas plan.suelo (f.por alto_planta (f.de p.planta))

    abbrev pub al_llegar : (ℕ → Option Texto) → Destino → Casa f → Casa f
    al_llegar almacen al_bajo c =
        pon_visible f Texto el_bajo (record c { cab_y = cota c.plan al_bajo })
    al_llegar almacen (al_piso p) c =
        pon_visible f Texto la_planta
          (record (con_planta almacen p c) { cab_y = cota c.plan (al_piso p) })

    -- `p.inicio`, where the step has one, and what `pasoAndar` keeps.
    abbrev pub inicia : Paso f → Casa f → Caminante f → Seq f → Seq f
    inicia (andar puntos g vel) c pie s = record s {
      ini = true;
      t = cero f;
      tramo = some (tramo_de puntos vel c pie);
    }
    inicia p c pie s = record s { ini = true; t = cero f }

    abbrev pub si_empieza : Paso f → Casa f → Caminante f → Seq f → Seq f
    si_empieza p c pie s = if s.ini then s else inicia p c pie s

    -- `p.paso`: whether the step has ended.
    abbrev pub da_paso :
        Paso f → f.N → f.N → Casa f → Seq f → Visita f Texto → Bool × Visita f Texto
    da_paso (andar puntos g vel) tt dt c s w = anda g tt dt c s s.tramo w
    da_paso (puertas abrir) tt dt c s w = mueve_puertas abrir tt w
    da_paso (viaje y0 y1) tt dt c s w = viaja y0 y1 tt c w
    da_paso ya_dentro tt dt c s w = (true, record w { casa = some (record c { entrado = true }) })
    da_paso a_la_calle tt dt c s w = (true, cierra_casa f Texto w)
    da_paso (monta d) tt dt c s w = (true, record w { casa = some (al_viaje w.almacen d c) })
    da_paso (llega d) tt dt c s w = (true, record w { casa = some (al_llegar w.almacen d c) })

    -- `p.fin`
    abbrev pub con_yaw : Option f.N → Casa f → Visita f Texto → Visita f Texto
    con_yaw none c w = w
    con_yaw (some y) c w = record w { pie = pon_yaw_local f Texto c.po y w.pie }

    abbrev pub acaba_en : Paso f → Option (Casa f) → Visita f Texto → Visita f Texto
    acaba_en p none w = w
    acaba_en (andar puntos g vel) (some c) w = con_yaw (yaw_final g c) c w
    acaba_en (viaje y0 y1) (some c) w = record w { casa = some (record c { viaje = none }) }
    acaba_en p (some c) w = w

    abbrev pub sigue_con :
        (Visita f Texto → Visita f Texto) → Option (Seq f) → Visita f Texto → Visita f Texto
    sigue_con more none w = w
    sigue_con more (some s) w =
        more (record w { seq = some (record s { i = suc s.i; ini = false }) })

    abbrev pub tras_paso :
        (Visita f Texto → Visita f Texto) → Paso f → Bool × Visita f Texto → Visita f Texto
    tras_paso more p (false, w) = w
    tras_paso more p (true, w) =
        let v : Visita f Texto = acaba_en p w.casa w in sigue_con more v.seq v

    -- One round of the loop of `avanza`; `more` is the next.
    abbrev pub ronda_seq :
        (Visita f Texto → Visita f Texto)
        → f.N
        → Option (Paso f)
        → Casa f
        → Seq f
        → Visita f Texto
        → Visita f Texto
    ronda_seq more dt none c s w = record w { seq = none }
    ronda_seq more dt (some p) c s w =
        let s1 : Seq f = si_empieza p c w.pie s in
        let s2 : Seq f = record s1 { t = f.mas s1.t dt } in
        tras_paso more p (da_paso p s2.t dt c s2 (record w { seq = some s2 }))

    abbrev pub con_ronda :
        (Visita f Texto → Visita f Texto)
        → f.N
        → Option (Casa f)
        → Option (Seq f)
        → Visita f Texto
        → Visita f Texto
    con_ronda more dt c none w = w
    con_ronda more dt none (some s) w = w
    con_ronda more dt (some c) (some s) w = ronda_seq more dt (get_elem? s.pasos s.i) c s w

    -- The loop of `avanza`, of so many rounds; behind the first no time passes.
    unfoldable pub rondas_seq : ℕ → f.N → Visita f Texto → Visita f Texto
    rondas_seq zero dt w = w
    rondas_seq (suc k) dt w = con_ronda (rondas_seq k (cero f)) dt w.casa w.seq w

    -- `avanza`
    abbrev pub avanza : f.N → Visita f Texto → Visita f Texto
    avanza dt w = rondas_seq 20 dt w
