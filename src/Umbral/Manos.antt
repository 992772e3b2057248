-- ===== src/Umbral/Manos.antt =====
-- The keys and the clicks keep what holds inside.
use rami_ledger.Prelude.{ℕ, Bool, true, false, ◌&&◌, Option, none, some, if◌then◌else◌}
use rami_ledger.Flotantes.{Flotantes}
use rami_ledger.Umbral.Estado.{Piso, al_bajo, al_piso, Portal, Seq, Casa, Visita}
use rami_ledger.Umbral.Casas.{Taller, es_bajo}
use rami_ledger.Umbral.Recorridos.{puede_entrar, entrar, entra_en, toma_ascensor}
use rami_ledger.Umbral.Muebles.{espacio_en}
use rami_ledger.Umbral.Teclas.{
  Objeto, la_lampara, el_ascensor, la_salida, el_mueble, Tecla, t_escape, t_f, t_r, t_arriba,
  t_abajo, t_izquierda, t_derecha, t_suprimir, t_retroceso, t_otra, es_f, hay_casa, Mano, sube,
  accion_en, accion, entra_cercano, tecla_sel, tecla_quieta, tecla_f, tecla_dentro, tecla_en,
  gancho_tecla, clic_en, clic_con, gancho_clic,
}
use rami_ledger.Umbral.Dentro.{IsDentro}
use rami_ledger.Umbral.Entradas.{
  entra-IsDentro, salir_andando-IsDentro, toma-IsDentro, escape-IsDentro,
}
use rami_ledger.Umbral.Luces.{Keeps, toggled_in, moved}

module _ (f : Flotantes) (Texto : Type 0) (ta : Taller f Texto) (ma : Mano f Texto) where
  acted :
      (o : Option Objeto) (c : Option (Casa f)) (s : Option (Seq f))
      → Keeps f Texto ta c s (λ w. (accion_en f Texto ta ma o c w).1)
  unfolding Keeps toma_ascensor
  acted none c s w h = record { dentro = h }
  acted (some o) none s w h = record { dentro = h }
  acted (some (la_lampara i)) (some c) s w h =
      toggled_in f Texto ta i none (espacio_en f Texto c.visible c.planta c) c s w h
  acted (some el_ascensor) (some c) s w h = by_floor (es_bajo f Texto c.visible) c.piso
    where
      by_floor :
          (b : Bool) (p : Option Piso)
          → let v : Visita f Texto = record w { casa = some c; seq = s } in
            let r : Bool × Visita f Texto =
              if b then sube f Texto ta ma p v else toma_ascensor f Texto ta al_bajo false v in
            IsDentro f Texto r.1
      by_floor true none = record { dentro = h }
      by_floor true (some p) = toma-IsDentro f Texto ta (al_piso p) false (some c) s w h
      by_floor false p = toma-IsDentro f Texto ta al_bajo false (some c) s w h
  acted (some la_salida) (some c) s w h =
      salir_andando-IsDentro f Texto ta (record w { casa = some c; seq = s })
        (record { dentro = h })
  acted (some (el_mueble mu)) (some c) s w h = record { dentro = h }

  accion-IsDentro :
      (o : Option Objeto) (w : Visita f Texto)
      → IsDentro f Texto w
      → IsDentro f Texto (accion f Texto ta ma o w).1
  unfolding accion Keeps
  accion-IsDentro o w h = acted o w.casa w.seq w h.dentro

  near_in :
      (po : Option (Portal f)) (w : Visita f Texto)
      → IsDentro f Texto w
      → IsDentro f Texto (entra_cercano f Texto ta ma po w).1
  unfolding entrar
  near_in none w h = h
  near_in (some po) w h = by_can (puede_entrar f Texto ta w) w.ready
    where
      by_can :
          (b r : Bool)
          → let q : Bool × Visita f Texto =
              if r
              then (
                true,
                entra_en f Texto ta po (record { inmediato = false; planta = none; obj = 0 }) w,
              )
              else (false, w) in
            let z : Bool × Visita f Texto = if b then q else (false, w) in IsDentro f Texto z.1
      by_can true true =
          entra-IsDentro f Texto ta po (record { inmediato = false; planta = none; obj = 0 }) w
            w.modo w.casa w.seq h.dentro
      by_can true false = h
      by_can false r = h

  key_selected :
      (k : Tecla) (sel : Option ℕ) (c : Casa f) (s : Option (Seq f))
      → Keeps f Texto ta (some c) s (λ w. (tecla_sel f Texto ta ma k sel c w).1)
  unfolding Keeps
  key_selected t_escape sel c s w h = record { dentro = h }
  key_selected t_f sel c s w h = record { dentro = h }
  key_selected t_r sel c s w h = moved f Texto ta _ sel c s w h
  key_selected t_arriba sel c s w h = moved f Texto ta _ sel c s w h
  key_selected t_abajo sel c s w h = moved f Texto ta _ sel c s w h
  key_selected t_izquierda sel c s w h = moved f Texto ta _ sel c s w h
  key_selected t_derecha sel c s w h = moved f Texto ta _ sel c s w h
  key_selected t_suprimir sel c s w h = record { dentro = h }
  key_selected t_retroceso sel c s w h = record { dentro = h }
  key_selected t_otra sel c s w h = record { dentro = h }

  key_still :
      (k : Tecla) (sel : Option ℕ) (c : Casa f) (s : Option (Seq f))
      → Keeps f Texto ta (some c) s (λ w. (tecla_quieta f Texto ta ma k sel s c w).1)
  unfolding Keeps
  key_still k none c s w h = record { dentro = h }
  key_still k (some id) c none w h = key_selected k (some id) c none w h
  key_still k (some id) c (some s) w h = record { dentro = h }

  key_f :
      (c : Casa f) (s : Option (Seq f))
      → Keeps f Texto ta (some c) s (λ w. (tecla_f f Texto ta ma s w).1)
  unfolding Keeps
  key_f c none w h =
      accion-IsDentro (ma.objetivo (record w { casa = some c; seq = none }))
        (record w { casa = some c; seq = none }) (record { dentro = h })
  key_f c (some s) w h = record { dentro = h }

  key_inside :
      (k : Tecla) (c : Casa f) (s : Option (Seq f))
      → Keeps f Texto ta (some c) s (λ w. (tecla_dentro f Texto ta ma k s c w).1)
  unfolding Keeps
  key_inside t_escape c s w h = escape-IsDentro f Texto ta w.sel (some c) s w h
  key_inside t_f c s w h = key_f c s w h
  key_inside t_r c s w h = key_still t_r w.sel c s w h
  key_inside t_arriba c s w h = key_still t_arriba w.sel c s w h
  key_inside t_abajo c s w h = key_still t_abajo w.sel c s w h
  key_inside t_izquierda c s w h = key_still t_izquierda w.sel c s w h
  key_inside t_derecha c s w h = key_still t_derecha w.sel c s w h
  key_inside t_suprimir c s w h = key_still t_suprimir w.sel c s w h
  key_inside t_retroceso c s w h = key_still t_retroceso w.sel c s w h
  key_inside t_otra c s w h = key_still t_otra w.sel c s w h

  key_in :
      (po : Option (Portal f)) (k : Tecla) (c : Option (Casa f)) (s : Option (Seq f))
      → Keeps f Texto ta c s (λ w. (tecla_en f Texto ta ma po k c s w).1)
  unfolding Keeps
  key_in po k (some c) s w h = key_inside k c s w h
  key_in po t_f none s w h = near_in po (record w { casa = none; seq = s }) (record { dentro = h })
  key_in po t_escape none s w h = record { dentro = h }
  key_in po t_r none s w h = record { dentro = h }
  key_in po t_arriba none s w h = record { dentro = h }
  key_in po t_abajo none s w h = record { dentro = h }
  key_in po t_izquierda none s w h = record { dentro = h }
  key_in po t_derecha none s w h = record { dentro = h }
  key_in po t_suprimir none s w h = record { dentro = h }
  key_in po t_retroceso none s w h = record { dentro = h }
  key_in po t_otra none s w h = record { dentro = h }

  pub tecla-IsDentro :
      (po : Option (Portal f)) (k : Tecla) (repite abajo : Bool) (w : Visita f Texto)
      → IsDentro f Texto w
      → IsDentro f Texto (gancho_tecla f Texto ta ma po k repite abajo w).1
  unfolding gancho_tecla Keeps
  tecla-IsDentro po k repite false w h = h
  tecla-IsDentro po k repite true w h = by_repeat (repite && es_f k)
    where
      by_repeat :
          (b : Bool)
          → let r : Bool × Visita f Texto =
              if b then (hay_casa w.casa, w) else tecla_en f Texto ta ma po k w.casa w.seq w in
            IsDentro f Texto r.1
      by_repeat true = h
      by_repeat false = key_in po k w.casa w.seq w h.dentro

  click_on :
      (o : Option Objeto) (sel : Option ℕ) (w : Visita f Texto)
      → IsDentro f Texto w
      → IsDentro f Texto (clic_en f Texto ta ma o sel w)
  click_on (some (el_mueble mu)) sel w h = record { dentro = h.dentro }
  click_on none (some id) w h = record { dentro = h.dentro }
  click_on (some (la_lampara i)) (some id) w h = record { dentro = h.dentro }
  click_on (some el_ascensor) (some id) w h = record { dentro = h.dentro }
  click_on (some la_salida) (some id) w h = record { dentro = h.dentro }
  click_on none none w h = accion-IsDentro none w h
  click_on (some (la_lampara i)) none w h = accion-IsDentro (some (la_lampara i)) w h
  click_on (some el_ascensor) none w h = accion-IsDentro (some el_ascensor) w h
  click_on (some la_salida) none w h = accion-IsDentro (some la_salida) w h

  click_in :
      (po : Option (Portal f)) (o : Option Objeto) (c : Option (Casa f)) (s : Option (Seq f))
      → Keeps f Texto ta c s (λ w. (clic_con f Texto ta ma po o c s w).1)
  unfolding Keeps
  click_in none o none s w h = record { dentro = h }
  click_in (some po) o none s w h = by_door (ma.toca_puerta po)
    where
      by_door :
          (b : Bool)
          → let v : Visita f Texto = record w { casa = none; seq = s } in
            let r : Bool × Visita f Texto =
              if b then entra_cercano f Texto ta ma (some po) v else (false, v) in
            IsDentro f Texto r.1
      by_door true = near_in (some po) (record w { casa = none; seq = s }) (record { dentro = h })
      by_door false = record { dentro = h }
  click_in po o (some c) (some s) w h = record { dentro = h }
  click_in po o (some c) none w h = by_entered c.entrado
    where
      by_entered :
          (b : Bool)
          → let v : Visita f Texto = record w { casa = some c; seq = none } in
            IsDentro f Texto (if b then clic_en f Texto ta ma o w.sel v else v)
      by_entered true =
          click_on o w.sel (record w { casa = some c; seq = none }) (record { dentro = h })
      by_entered false = record { dentro = h }

  pub clic-IsDentro :
      (po : Option (Portal f)) (o : Option Objeto) (w : Visita f Texto)
      → IsDentro f Texto w
      → IsDentro f Texto (gancho_clic f Texto ta ma po o w).1
  unfolding gancho_clic Keeps
  clic-IsDentro po o w h = click_in po o w.casa w.seq w h.dentro
