-- ===== src/Umbral/Visitas.antt =====
-- Whatever a visitor does, one is never left shut in the cabin, and always sees a space that is there.
use rami_ledger.Prelude.{ℕ, Bool, true, false, Option, none, some, List, [], ◌∷◌, if◌then◌else◌}
use rami_ledger.Flotantes.{Flotantes}
use rami_ledger.Umbral.Estado.{Destino, Modo, a_pie, orbita, Portal, Visita}
use rami_ledger.Umbral.Salas.{Pulsadas}
use rami_ledger.Umbral.Casas.{Taller, Opciones}
use rami_ledger.Umbral.Recorridos.{
  entra_en, entrar, salir_ya, salir_andando, toma_ascensor, gancho_andar, gancho_cuadro,
  gancho_modo, gancho_vr,
}
use rami_ledger.Umbral.Muebles.{conmuta}
use rami_ledger.Umbral.Teclas.{Mano, Tecla, Objeto, gancho_tecla, gancho_clic}
use rami_ledger.Umbral.Entradas.{
  entra-IsDentro, ya-IsDentro, salir_andando-IsDentro, toma-IsDentro, anda-IsDentro,
  cuadro-IsDentro,
}
use rami_ledger.Umbral.Luces.{luz-IsDentro}
use rami_ledger.Umbral.Manos.{tecla-IsDentro, clic-IsDentro}
use rami_ledger.Umbral.Dentro.{IsDentro}

module _ (f : Flotantes) (Texto : Type 0) (ta : Taller f Texto) (ma : Mano f Texto) where
  -- What happens to a visitor.
  pub data Orden : Type 0 where
    entra : Option (Portal f) → Opciones → Orden
    sale_andando : Orden
    sale_ya : Orden
    ascensor : Destino → Bool → Orden
    anda : f.N → Pulsadas → Orden
    cuadro : Orden
    cambia_modo : Modo → Orden
    gafas : Bool → Orden
    tecla : Option (Portal f) → Tecla → Bool → Bool → Orden
    clic : Option (Portal f) → Option Objeto → Orden
    da_la_luz : ℕ → Option Bool → Orden

  abbrev pub hace : Orden → Visita f Texto → Visita f Texto
  hace (entra po op) w = (entrar f Texto ta po op w).1
  hace sale_andando w = (salir_andando f Texto ta w).1
  hace sale_ya w = (salir_ya f Texto ta w).1
  hace (ascensor d inmediato) w = (toma_ascensor f Texto ta d inmediato w).1
  hace (anda dt k) w = gancho_andar f Texto ta dt k w
  hace cuadro w = gancho_cuadro f Texto ta w
  hace (cambia_modo m) w = gancho_modo f Texto ta m w
  hace (gafas activo) w = gancho_vr f Texto ta activo w
  hace (tecla cercano k repite abajo) w = (gancho_tecla f Texto ta ma cercano k repite abajo w).1
  hace (clic cercano ob) w = (gancho_clic f Texto ta ma cercano ob w).1
  hace (da_la_luz i on) w = (conmuta f Texto ta i on w).1

  abbrev pub hacen : List Orden → Visita f Texto → Visita f Texto
  hacen [] w = w
  hacen (o ∷ os) w = hacen os (hace o w)

  hace-IsDentro :
      (o : Orden) (w : Visita f Texto) → IsDentro f Texto w → IsDentro f Texto (hace o w)
  unfolding entrar toma_ascensor gancho_andar gancho_cuadro gancho_modo gancho_vr
  hace-IsDentro (entra none op) w h = h
  hace-IsDentro (entra (some po) op) w h = by_ready w.ready
    where
      by_ready :
          (b : Bool)
          → let r : Bool × Visita f Texto =
              if b then (true, entra_en f Texto ta po op w) else (false, w) in
            IsDentro f Texto r.1
      by_ready true = entra-IsDentro f Texto ta po op w w.modo w.casa w.seq h.dentro
      by_ready false = h
  hace-IsDentro sale_andando w h = salir_andando-IsDentro f Texto ta w h
  hace-IsDentro sale_ya w h = ya-IsDentro f Texto ta w h
  hace-IsDentro (ascensor d inmediato) w h =
      toma-IsDentro f Texto ta d inmediato w.casa w.seq w h.dentro
  hace-IsDentro (anda dt k) w h = anda-IsDentro f Texto ta dt k w.casa w.seq w h.dentro
  hace-IsDentro cuadro w h = cuadro-IsDentro f Texto ta w.modo w.casa w.seq w h.dentro
  hace-IsDentro (cambia_modo a_pie) w h = record { dentro = h.dentro }
  hace-IsDentro (cambia_modo orbita) w h =
      ya-IsDentro f Texto ta (record w { modo = orbita }) (record { dentro = h.dentro })
  hace-IsDentro (gafas true) w h =
      ya-IsDentro f Texto ta (record w { xr = true }) (record { dentro = h.dentro })
  hace-IsDentro (gafas false) w h = record { dentro = h.dentro }
  hace-IsDentro (tecla cercano k repite abajo) w h =
      tecla-IsDentro f Texto ta ma cercano k repite abajo w h
  hace-IsDentro (clic cercano ob) w h = clic-IsDentro f Texto ta ma cercano ob w h
  hace-IsDentro (da_la_luz i on) w h = luz-IsDentro f Texto ta i on w h

  -- Whatever is done, in any order, by a visitor who starts in the street: a guided walk is under way in
  -- an open house only; where the cabin alone is seen, one is under way whose steps to come hold the
  -- arrival; and otherwise an open house shows its ground floor, or a floor that has been built.
  pub hacen-IsDentro :
      (os : List Orden) (w : Visita f Texto)
      → IsDentro f Texto (hacen os (record w { casa = none; seq = none }))
  hacen-IsDentro os w = all os (record w { casa = none; seq = none }) (record { dentro = tt })
    where
      all :
          (l : List Orden) (v : Visita f Texto) → IsDentro f Texto v → IsDentro f Texto (hacen l v)
      all [] v h = h
      all (o ∷ l) v h = all l (hace o v) (hace-IsDentro o v h)
