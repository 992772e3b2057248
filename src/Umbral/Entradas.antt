-- ===== src/Umbral/Entradas.antt =====
-- Entering, leaving, the lift, a frame and Escape keep what holds inside.
use rami_ledger.Prelude.{ℕ, Bool, true, false, Option, none, some, [], if◌then◌else◌}
use rami_ledger.Flotantes.{Flotantes}
use rami_ledger.Umbral.Estado.{
  Destino, TipoEdificio, villa, nave, bloque, Modo, a_pie, orbita, Portal, Seq, Casa, Caminante,
  Visita,
}
use rami_ledger.Umbral.Casas.{Taller, Opciones, con_tipo, casa_nueva, cierra_casa, es_bajo}
use rami_ledger.Umbral.Salas.{Pulsadas}
use rami_ledger.Umbral.Choques.{anda_dentro}
use rami_ledger.Umbral.Pasos.{avanza, corre}
use rami_ledger.Umbral.Recorridos.{
  sale_por_la_puerta, pasos_ascensor, abierta, entra_en, sale_de, salir_ya, sale_andando_de,
  salir_andando, llega_ya, toma, sala_vista, hay_sel, tras_andar, anda_en, cuadro_en, escape_en,
}
use rami_ledger.Umbral.Dentro.{Si, Sigue, DentroDe, IsDentro}
use rami_ledger.Umbral.Rondas.{arrived-Ve, rondas-IsDentro}

module _ (f : Flotantes) (Texto : Type 0) (ta : Taller f Texto) where
  new-Ve :
      (t : TipoEdificio) (op : Opciones) (c : Casa f)
      → Sigue f Texto c []
      → Sigue f Texto (con_tipo f Texto ta t op c) []
  new-Ve villa op c h = h
  new-Ve nave op c h = h
  new-Ve bloque op c h = h

  open-IsDentro :
      (po : Portal f) (inmediato : Bool) (c : Casa f) (w : Visita f Texto)
      → Sigue f Texto c []
      → IsDentro f Texto
          (abierta f Texto ta po inmediato (some c) (record w { casa = some c; seq = none }))
  open-IsDentro po true c w h = record { dentro = h }
  open-IsDentro po false c w h = record { dentro = h }

  pub entra-IsDentro :
      (po : Portal f) (op : Opciones) (w : Visita f Texto) (m : Modo) (c : Option (Casa f))
      (s : Option (Seq f))
      → DentroDe f Texto c s
      → IsDentro f Texto (entra_en f Texto ta po op (record w { modo = m; casa = c; seq = s }))
  entra-IsDentro po op w m none (some s) h = elim h [ ]
  entra-IsDentro po op w a_pie none none h =
      open-IsDentro po op.inmediato (casa_nueva f Texto ta po op w.almacen)
        (record w { modo = a_pie; sel = none; pie = record w.pie { fly = f.de 0 } })
        (new-Ve (ta.planifica po).tipo op _ (tt, (tt, tt)))
  entra-IsDentro po op w orbita none none h =
      open-IsDentro po op.inmediato (casa_nueva f Texto ta po op w.almacen)
        (record w {
          modo = a_pie;
          sel = none;
          pie = record (ta.a_pie_desde w.pie) { fly = f.de 0 };
        })
        (new-Ve (ta.planifica po).tipo op _ (tt, (tt, tt)))
  entra-IsDentro po op w a_pie (some c) s h =
      open-IsDentro po op.inmediato (casa_nueva f Texto ta po op w.almacen)
        (record w { modo = a_pie; sel = none; pie = record w.pie { fly = f.de 0 } })
        (new-Ve (ta.planifica po).tipo op _ (tt, (tt, tt)))
  entra-IsDentro po op w orbita (some c) s h =
      open-IsDentro po op.inmediato (casa_nueva f Texto ta po op w.almacen)
        (record w {
          modo = a_pie;
          sel = none;
          pie = record (ta.a_pie_desde w.pie) { fly = f.de 0 };
        })
        (new-Ve (ta.planifica po).tipo op _ (tt, (tt, tt)))

  sale-IsDentro :
      (c : Option (Casa f)) (s : Option (Seq f)) (w : Visita f Texto)
      → DentroDe f Texto c s
      → IsDentro f Texto (sale_de f Texto ta c (record w { casa = c; seq = s })).1
  sale-IsDentro none s w h = record { dentro = h }
  sale-IsDentro (some c) s w h = record { dentro = tt }

  pub ya-IsDentro :
      (w : Visita f Texto) → IsDentro f Texto w → IsDentro f Texto (salir_ya f Texto ta w).1
  unfolding salir_ya
  ya-IsDentro w h = sale-IsDentro w.casa w.seq w h.dentro

  andando-IsDentro :
      (c : Option (Casa f)) (s : Option (Seq f)) (w : Visita f Texto)
      → DentroDe f Texto c s
      → IsDentro f Texto (sale_andando_de f Texto ta c s (record w { casa = c; seq = s })).1
  andando-IsDentro none s w h = record { dentro = h }
  andando-IsDentro (some c) (some s) w h = record { dentro = h }
  andando-IsDentro (some c) none w h = by_floor (es_bajo f Texto c.visible)
    where
      by_floor :
          (b : Bool)
          → IsDentro f Texto
              (if b
                then (
                  true,
                  sale_por_la_puerta f Texto ta c (record w { casa = some c; seq = none }),
                )
                else salir_ya f Texto ta (record w { casa = some c; seq = none })).1
      by_floor true = record { dentro = h }
      by_floor false = ya-IsDentro (record w { casa = some c; seq = none }) (record { dentro = h })

  pub salir_andando-IsDentro :
      (w : Visita f Texto) → IsDentro f Texto w → IsDentro f Texto (salir_andando f Texto ta w).1
  unfolding salir_andando
  salir_andando-IsDentro w h = andando-IsDentro w.casa w.seq w h.dentro

  pub toma-IsDentro :
      (d : Destino) (inmediato : Bool) (c : Option (Casa f)) (s : Option (Seq f))
      (w : Visita f Texto)
      → DentroDe f Texto c s
      → IsDentro f Texto (toma f Texto ta d inmediato c s (record w { casa = c; seq = s })).1
  toma-IsDentro d inmediato none s w h = record { dentro = h }
  toma-IsDentro d inmediato (some c) (some s) w h = record { dentro = h }
  toma-IsDentro d inmediato (some c) none w h = by_lift c.cabina inmediato
    where
      by_lift :
          (b inm : Bool)
          → let v : Visita f Texto = record w { casa = some c; seq = none } in
            let r : Bool × Visita f Texto =
              if b
              then (
                true,
                if inm
                    then llega_ya f Texto ta d c v
                    else corre f Texto (pasos_ascensor f Texto ta d c) (record v { sel = none }),
              )
              else (false, v) in
            IsDentro f Texto r.1
      by_lift true true = record { dentro = arrived-Ve f Texto ta w.almacen d c [] tt }
      by_lift true false = record { dentro = (h.0, (waits c.solo_cabina h.1.0, (tt, tt))) }
        where
          waits : (b : Bool) → Si b ⊥ → Si b Unit
          waits true q = elim q [ ]
          waits false q = tt
      by_lift false inm = record { dentro = h }

  walked-IsDentro :
      (r : Bool × Caminante f) (w : Visita f Texto)
      → IsDentro f Texto w
      → IsDentro f Texto (tras_andar f Texto ta r w)
  walked-IsDentro (true, pie) w h =
      salir_andando-IsDentro (record w { pie = pie }) (record { dentro = h.dentro })
  walked-IsDentro (false, pie) w h = record { dentro = h.dentro }

  pub anda-IsDentro :
      (dt : f.N) (k : Pulsadas) (c : Option (Casa f)) (s : Option (Seq f)) (w : Visita f Texto)
      → DentroDe f Texto c s
      → IsDentro f Texto (anda_en f Texto ta dt k c s (record w { casa = c; seq = s }))
  anda-IsDentro dt k none s w h = record { dentro = h }
  anda-IsDentro dt k (some c) (some s) w h = by_frozen w.congelado
    where
      by_frozen :
          (b : Bool)
          → let v : Visita f Texto = record w { casa = some c; seq = some s } in
            IsDentro f Texto (if b then v else avanza f Texto ta dt v)
      by_frozen true = record { dentro = h }
      by_frozen false =
          rondas-IsDentro f Texto ta 20 dt (record w { casa = some c; seq = some s })
            (record { dentro = h })
  anda-IsDentro dt k (some c) none w h = by_entered c.entrado
    where
      by_entered :
          (b : Bool)
          → let v : Visita f Texto = record w { casa = some c; seq = none } in
            IsDentro f Texto (
              if b
              then tras_andar f Texto ta
                  (anda_dentro f Texto
                    (sala_vista f Texto ta c c.visible)
                    c.po
                    (hay_sel f Texto ta w.sel)
                    k
                    dt
                    w.pie)
                  v
              else cierra_casa f Texto v)
      by_entered true =
          walked-IsDentro _ (record w { casa = some c; seq = none }) (record { dentro = h })
      by_entered false = record { dentro = tt }

  pub cuadro-IsDentro :
      (m : Modo) (c : Option (Casa f)) (s : Option (Seq f)) (w : Visita f Texto)
      → DentroDe f Texto c s
      → IsDentro f Texto (cuadro_en f Texto ta m c s (record w { casa = c; seq = s }))
  cuadro-IsDentro orbita (some c) (some s) w h =
      ya-IsDentro (record w { casa = some c; seq = some s }) (record { dentro = h })
  cuadro-IsDentro orbita (some c) none w h = record { dentro = h }
  cuadro-IsDentro orbita none s w h = record { dentro = h }
  cuadro-IsDentro a_pie c s w h = record { dentro = h }

  pub escape-IsDentro :
      (sel : Option ℕ) (c : Option (Casa f)) (s : Option (Seq f)) (w : Visita f Texto)
      → DentroDe f Texto c s
      → IsDentro f Texto (escape_en f Texto ta sel c s (record w { casa = c; seq = s })).1
  escape-IsDentro sel none s w h = record { dentro = h }
  escape-IsDentro (some mu) (some c) s w h = record { dentro = h }
  escape-IsDentro none (some c) (some s) w h = record { dentro = h }
  escape-IsDentro none (some c) none w h = by_floor (es_bajo f Texto c.visible)
    where
      by_floor :
          (b : Bool)
          → let v : Visita f Texto = record w { casa = some c; seq = none } in
            IsDentro f Texto
              (if b then (salir_andando f Texto ta v).1 else (salir_ya f Texto ta v).1)
      by_floor true =
          salir_andando-IsDentro (record w { casa = some c; seq = none }) (record { dentro = h })
      by_floor false = ya-IsDentro (record w { casa = some c; seq = none }) (record { dentro = h })
