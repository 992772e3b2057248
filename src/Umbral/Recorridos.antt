-- ===== src/Umbral/Recorridos.antt =====
-- What a visitor does: `entrar`, `salirAndando`, `salirYa`, `tomaAscensor`, and the hooks that a frame, a
-- key, a change of mode and the glasses call.
use rami_ledger.Prelude.{
  ℕ, Bool, true, false, not, ◌&&◌, Option, none, some, List, [], ◌∷◌, if◌then◌else◌,
}
use rami_ledger.Flotantes.{Flotantes, decimal}
use rami_ledger.Catastro.{Punto}
use rami_ledger.Catastro.Consultas.{empujar_fuera}
use rami_ledger.Umbral.Estado.{
  Destino, Cual, Modo, a_pie, orbita, Portal, Parada, hacia, al_salir, Paso, andar, puertas, viaje,
  ya_dentro, a_la_calle, monta, llega, Seq, Casa, Caminante, Visita,
}
use rami_ledger.Umbral.Casas.{
  Taller, Opciones, a_mundo, angulo, pon_local_y, pon_yaw_local, es_bajo, abre_casa, cierra_casa,
}
use rami_ledger.Umbral.Salas.{Pulsadas, Sala}
use rami_ledger.Umbral.Choques.{anda_dentro}
use rami_ledger.Umbral.Patios.{anda_patio}
use rami_ledger.Umbral.Pasos.{corre, mirar_al_salir, al_llegar, cota, avanza}

module _ (f : Flotantes) (Texto : Type 0) (ta : Taller f Texto) where
  abbrev pub vel_dentro : f.N
  vel_dentro = decimal f 24 10

  abbrev pub punto : f.N → f.N → Punto f
  punto x z = record { px = x; pz = z }

  abbrev pub parada_en : f.N → f.N → Parada f
  parada_en x z = record { lugar = punto x z; altura = none }

  abbrev pub parada_a : f.N → f.N → f.N → Parada f
  parada_a x z y = record { lugar = punto x z; altura = some y }

  -- `ctx.setMode('walk')`, where it is called
  abbrev pub a_pie_ya : Visita f Texto → Visita f Texto
  a_pie_ya w = elim w.modo [
    | a_pie ↦ w
    | orbita ↦ record w { modo = a_pie; pie = ta.a_pie_desde w.pie }
  ]

  abbrev pub colocado : Portal f → Casa f → Caminante f → Caminante f
  colocado po c pie =
      let p : Caminante f =
        pon_yaw_local f Texto po (f.de 0) (
          pon_local_y f Texto po po.px (f.menos c.bajo.salida_z (decimal f 16 10)) c.bajo.yb pie) in
      record p { pitch = f.de 0 }

  abbrev pub dentro_ya : Casa f → Visita f Texto → Visita f Texto
  dentro_ya c w = record w {
    pie = colocado c.po c w.pie;
    casa = some (record c { entrado = true; a_la_vista = true });
  }

  abbrev pub entra_andando : Portal f → Casa f → Visita f Texto → Visita f Texto
  entra_andando po c w =
      corre f Texto
        (andar
            (parada_en po.px po.z_acera
              ∷ parada_a po.px (f.mas po.zf (decimal f 4 10)) c.bajo.yb
              ∷ parada_en po.px (f.menos c.bajo.salida_z (decimal f 16 10))
              ∷ [])
            (hacia (f.de 0)) vel_dentro
          ∷ ya_dentro
          ∷ [])
        w

  abbrev pub abierta : Portal f → Bool → Option (Casa f) → Visita f Texto → Visita f Texto
  abierta po inmediato none w = w
  abierta po true (some c) w = dentro_ya c w
  abierta po false (some c) w = entra_andando po c w

  abbrev pub entra_en : Portal f → Opciones → Visita f Texto → Visita f Texto
  entra_en po op w =
      let w1 : Visita f Texto = abre_casa f Texto ta po op (a_pie_ya (cierra_casa f Texto w)) in
      let w2 : Visita f Texto = record w1 { sel = none; pie = record w1.pie { fly = f.de 0 } } in
      abierta po op.inmediato w2.casa w2

  -- `entrar`
  unfoldable pub entrar : Option (Portal f) → Opciones → Visita f Texto → Bool × Visita f Texto
  entrar none op w = (false, w)
  entrar (some po) op w = if w.ready then (true, entra_en po op w) else (false, w)

  -- `salirYa`
  abbrev pub fuera_de : Portal f → Caminante f → Caminante f
  fuera_de po pie =
      let w : Punto f = a_mundo f Texto po po.px (f.mas po.z_acera (decimal f 12 10)) in
      let q : Punto f =
        if po.patio then w else (empujar_fuera f ℕ ta.catastro (decimal f 42 100) w).0 in
      record pie {
        x = q.px;
        z = q.pz;
        y = ta.suelo_en q.px q.pz;
        yaw = angulo f Texto (f.mas po.giro f.pi);
        pitch = decimal f 5 100;
        fly = f.de 0;
      }

  abbrev pub sale_de : Option (Casa f) → Visita f Texto → Bool × Visita f Texto
  sale_de none w = (false, w)
  sale_de (some c) w = (true, cierra_casa f Texto (record w { pie = fuera_de c.po w.pie }))

  unfoldable pub salir_ya : Visita f Texto → Bool × Visita f Texto
  salir_ya w = sale_de w.casa w

  -- `seq.salida = true`
  abbrev pub marca_salida : Visita f Texto → Visita f Texto
  marca_salida w = elim w.seq [
    | none ↦ w
    | some s ↦ record w { seq = some (record s { salida = true }) }
  ]

  -- `salirAndando`
  abbrev pub sale_por_la_puerta : Casa f → Visita f Texto → Visita f Texto
  sale_por_la_puerta c w =
      let po : Portal f = c.po in
      let out = f.mas po.z_acera (decimal f 12 10) in
      let fuera : Punto f = a_mundo f Texto po po.px out in
      marca_salida (
        corre f Texto
          (andar
              (parada_en po.px (f.menos c.bajo.salida_z (decimal f 3 10))
                ∷ parada_en po.px (f.mas po.zf (decimal f 4 10))
                ∷ parada_a po.px out (f.menos (ta.suelo_en fuera.px fuera.pz) po.oy)
                ∷ [])
              (hacia f.pi) vel_dentro
            ∷ a_la_calle
            ∷ [])
          (record w { casa = some (record c { entrado = false }); sel = none }))

  abbrev pub sale_andando_de :
      Option (Casa f) → Option (Seq f) → Visita f Texto → Bool × Visita f Texto
  sale_andando_de none s w = (false, w)
  sale_andando_de (some c) (some s) w = (false, w)
  sale_andando_de (some c) none w =
      if es_bajo f Texto c.visible then (true, sale_por_la_puerta c w) else salir_ya w

  unfoldable pub salir_andando : Visita f Texto → Bool × Visita f Texto
  salir_andando w = sale_andando_de w.casa w.seq w

  -- `tomaAscensor`
  abbrev pub pasos_ascensor : Destino → Casa f → List (Paso f)
  pasos_ascensor d c =
      let ex = c.plan.ex in
      let zc = f.menos (f.entre (f.mas c.plan.cab_z0 c.plan.cab_z1) (f.de 2)) (decimal f 1 10) in
      let v = decimal f 16 10 in
      puertas true
      ∷ andar (parada_en ex (f.mas c.plan.cab_z1 (decimal f 2 10)) ∷ parada_en ex zc ∷ [])
          (hacia f.pi) v
      ∷ puertas false
      ∷ monta d
      ∷ viaje c.cab_y (cota f Texto ta c.plan d)
      ∷ llega d
      ∷ puertas true
      ∷ andar
          (parada_en ex (f.mas c.plan.cab_z1 (decimal f 3 10))
            ∷ parada_en ex (f.mas c.plan.z_l0 (decimal f 13 10))
            ∷ [])
          al_salir v
      ∷ puertas false
      ∷ []

  abbrev pub llega_ya : Destino → Casa f → Visita f Texto → Visita f Texto
  llega_ya d c w =
      let c' : Casa f = al_llegar f Texto ta w.almacen d c in
      let p : Caminante f =
        pon_local_y f Texto c.po c.plan.ex (f.mas c.plan.z_l0 (decimal f 13 10))
          (cota f Texto ta c.plan d) w.pie in
      let q : Caminante f = pon_yaw_local f Texto c.po (mirar_al_salir f Texto c') p in
      record w { casa = some c'; pie = record q { pitch = f.de 0 }; hojas = f.de 0 }

  abbrev pub toma :
      Destino → Bool → Option (Casa f) → Option (Seq f) → Visita f Texto → Bool × Visita f Texto
  toma d inmediato none s w = (false, w)
  toma d inmediato (some c) (some s) w = (false, w)
  toma d inmediato (some c) none w =
      if c.cabina
      then (
        true,
        if inmediato
            then llega_ya d c w
            else corre f Texto (pasos_ascensor d c) (record w { sel = none }),
      )
      else (false, w)

  unfoldable pub toma_ascensor : Destino → Bool → Visita f Texto → Bool × Visita f Texto
  toma_ascensor d inmediato w = toma d inmediato w.casa w.seq w

  -- The hook `andar`: who is in a house that was not entered is let go.
  abbrev es_a_pie : Modo → Bool
  es_a_pie a_pie = true
  es_a_pie orbita = false

  abbrev pub puede_entrar : Visita f Texto → Bool
  puede_entrar w = w.ready && (es_a_pie w.modo && (not w.xr && f.menor w.pie.fly (f.de 2)))

  abbrev pub sala_vista : Casa f → Option Cual → Option (Sala f)
  sala_vista c none = none
  sala_vista c (some e) = some (ta.sala_de c e)

  abbrev pub hay_sel : Option ℕ → Bool
  hay_sel none = false
  hay_sel (some mu) = true

  -- `if (sale) salirAndando()`
  abbrev pub tras_andar : Bool × Caminante f → Visita f Texto → Visita f Texto
  tras_andar (sale, pie) w =
      let v : Visita f Texto = record w { pie = pie } in if sale then (salir_andando v).1 else v

  abbrev pub anda_en :
      f.N → Pulsadas → Option (Casa f) → Option (Seq f) → Visita f Texto → Visita f Texto
  anda_en dt k none s w = record w {
    pie =
        if puede_entrar w
        then anda_patio f Texto ta.suelo_en ta.dibujado ta.celda_patios ta.speed k dt w.pie
        else w.pie;
  }
  anda_en dt k (some c) (some s) w = if w.congelado then w else avanza f Texto ta dt w
  anda_en dt k (some c) none w =
      if c.entrado
      then tras_andar (anda_dentro f Texto (sala_vista c c.visible) c.po (hay_sel w.sel) k dt w.pie)
          w
      else cierra_casa f Texto w

  unfoldable pub gancho_andar : f.N → Pulsadas → Visita f Texto → Visita f Texto
  gancho_andar dt k w = anda_en dt k w.casa w.seq w

  -- The hook `cuadro`, what it does to the house.
  abbrev pub cuadro_en : Modo → Option (Casa f) → Option (Seq f) → Visita f Texto → Visita f Texto
  cuadro_en orbita (some c) (some s) w = (salir_ya w).1
  cuadro_en m c s w = w

  unfoldable pub gancho_cuadro : Visita f Texto → Visita f Texto
  gancho_cuadro w = cuadro_en w.modo w.casa w.seq w

  -- The hooks `modo` and `vr`, behind the change of mode.
  unfoldable pub gancho_modo : Modo → Visita f Texto → Visita f Texto
  gancho_modo a_pie w = record w { modo = a_pie }
  gancho_modo orbita w = (salir_ya (record w { modo = orbita })).1

  unfoldable pub gancho_vr : Bool → Visita f Texto → Visita f Texto
  gancho_vr activo w =
      let v : Visita f Texto = record w { xr = activo } in if activo then (salir_ya v).1 else v

  -- The key Escape, of the hook `tecla`.
  abbrev pub escape_en :
      Option ℕ → Option (Casa f) → Option (Seq f) → Visita f Texto → Bool × Visita f Texto
  escape_en sel none s w = (false, w)
  escape_en (some mu) (some c) s w = (true, record w { sel = none })
  escape_en none (some c) (some s) w = (true, w)
  escape_en none (some c) none w =
      (true, if es_bajo f Texto c.visible then (salir_andando w).1 else (salir_ya w).1)
