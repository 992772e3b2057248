-- ===== src/Umbral/Luces.antt =====
-- A lamp that is switched and furniture that is moved keep what holds inside.
use rami_ledger.Prelude.{ℕ, Bool, true, false, Option, none, some}
use rami_ledger.Flotantes.{Flotantes}
use rami_ledger.Umbral.Estado.{
  Cual, el_bajo, la_planta, Lampara, Mueble, Espacio, Seq, Planta, Casa, Visita,
}
use rami_ledger.Umbral.Casas.{Taller}
use rami_ledger.Umbral.Muebles.{
  lampara_en, espacio_en, pon_espacio, conmuta_una, conmuta_en, conmuta_de, cambia_mueble,
  cambia_sel,
}
use rami_ledger.Umbral.Dentro.{Ve, DentroDe, IsDentro}

module _ (f : Flotantes) (Texto : Type 0) where
  still_there :
      (b : Bool) (p q : Planta f)
      → Ve f Texto b (some la_planta) (some p)
      → Ve f Texto b (some la_planta) (some q)
  still_there true p q h = elim h [ ]
  still_there false p q h = tt

  put_Dentro :
      (e : Espacio f) (v : Option Cual) (p : Option (Planta f)) (c : Casa f) (s : Option (Seq f))
      → DentroDe f Texto (some (record c { visible = v; planta = p })) s
      → DentroDe f Texto (some (pon_espacio f Texto e v p (record c { visible = v; planta = p }))) s
  put_Dentro e none p c s h = h
  put_Dentro e (some el_bajo) p c none h = h
  put_Dentro e (some el_bajo) p c (some s) h = h
  put_Dentro e (some la_planta) none c s h = h
  put_Dentro e (some la_planta) (some p) c none h =
      (still_there c.solo_cabina p (record p { espacio = e }) h.0, h.1)
  put_Dentro e (some la_planta) (some p) c (some s) h =
      (still_there c.solo_cabina p (record p { espacio = e }) h.0, h.1)

  module _ (ta : Taller f Texto) where
    unfoldable pub Keeps :
        Option (Casa f) → Option (Seq f) → (Visita f Texto → Visita f Texto) → Type 0
    Keeps c s g =
        (w : Visita f Texto)
        → DentroDe f Texto c s
        → IsDentro f Texto (g (record w { casa = c; seq = s }))

    toggled :
        (i : ℕ) (on : Option Bool) (l : Option Lampara) (e : Espacio f) (c : Casa f)
        (s : Option (Seq f))
        → Keeps (some c) s (λ w. (conmuta_una f Texto ta i on l e c w).1)
    unfolding Keeps
    toggled i on none e c s w h = record { dentro = h }
    toggled i on (some l) e c s w h = record { dentro = put_Dentro _ c.visible c.planta c s h }

    pub toggled_in :
        (i : ℕ) (on : Option Bool) (e : Option (Espacio f)) (c : Casa f) (s : Option (Seq f))
        → Keeps (some c) s (λ w. (conmuta_en f Texto ta i on e c w).1)
    unfolding Keeps
    toggled_in i on none c s w h = record { dentro = h }
    toggled_in i on (some e) c s w h = toggled i on (lampara_en i e.lamparas) e c s w h

    luz_in :
        (i : ℕ) (on : Option Bool) (c : Option (Casa f)) (s : Option (Seq f))
        → Keeps c s (λ w. (conmuta_de f Texto ta i on c w).1)
    unfolding Keeps
    luz_in i on none s w h = record { dentro = h }
    luz_in i on (some c) s w h = toggled_in i on (espacio_en f Texto c.visible c.planta c) c s w h

    pub luz-IsDentro :
        (i : ℕ) (on : Option Bool) (w : Visita f Texto)
        → IsDentro f Texto w
        → IsDentro f Texto (conmuta_de f Texto ta i on w.casa w).1
    unfolding Keeps
    luz-IsDentro i on w h = luz_in i on w.casa w.seq w h.dentro

    moved_in :
        (g : Mueble f → Mueble f) (id : ℕ) (e : Option (Espacio f)) (c : Casa f)
        (s : Option (Seq f))
        → Keeps (some c) s (λ w. (cambia_mueble f Texto ta g id e c w).1)
    unfolding Keeps
    moved_in g id none c s w h = record { dentro = h }
    moved_in g id (some e) c s w h = record { dentro = put_Dentro _ c.visible c.planta c s h }

    pub moved :
        (g : Mueble f → Mueble f) (sel : Option ℕ) (c : Casa f) (s : Option (Seq f))
        → Keeps (some c) s (λ w. (cambia_sel f Texto ta g sel c w).1)
    unfolding Keeps
    moved g none c s w h = record { dentro = h }
    moved g (some id) c s w h = moved_in g id (espacio_en f Texto c.visible c.planta c) c s w h
