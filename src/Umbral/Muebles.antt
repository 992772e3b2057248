-- ===== src/Umbral/Muebles.antt =====
-- The lamps and the furniture of the space that is seen: `conmuta`, `mueveSel`, `giraSel`.
use rami_ledger.Prelude.{
  ℕ, zero, suc, ◌+◌, ◌%◌, Bool, true, false, not, Option, none, some, List, [], ◌∷◌, ◌==◌, map,
  if◌then◌else◌,
}
use rami_ledger.Flotantes.{Flotantes, modulo, decimal}
use rami_ledger.Umbral.Estado.{
  Cual, el_bajo, la_planta, Lampara, Mueble, Espacio, Planta, Casa, Visita,
}
use rami_ledger.Umbral.Pisos.{guarda_piso, encaja}
use rami_ledger.Umbral.Casas.{Taller}

-- `E.lamparas[i]`, which may be missing, and the list with another lamp there.
abbrev pub lampara_en : ℕ → List (Option Lampara) → Option Lampara
lampara_en i [] = none
lampara_en zero (l ∷ ls) = l
lampara_en (suc i) (l ∷ ls) = lampara_en i ls

abbrev pub pon_lampara : ℕ → Lampara → List (Option Lampara) → List (Option Lampara)
pon_lampara i l [] = []
pon_lampara zero l (x ∷ ls) = some l ∷ ls
pon_lampara (suc i) l (x ∷ ls) = x ∷ pon_lampara i l ls

abbrev pub o_lo_contrario : Option Bool → Bool → Bool
o_lo_contrario none b = not b
o_lo_contrario (some on) b = on

module _ (f : Flotantes) (Texto : Type 0) where
  -- `casa.visible`, and the house with another space there.
  abbrev pub espacio_en : Option Cual → Option (Planta f) → Casa f → Option (Espacio f)
  espacio_en none p c = none
  espacio_en (some el_bajo) p c = some c.bajo
  espacio_en (some la_planta) none c = none
  espacio_en (some la_planta) (some p) c = some p.espacio

  abbrev pub pon_espacio : Espacio f → Option Cual → Option (Planta f) → Casa f → Casa f
  pon_espacio e none p c = c
  pon_espacio e (some el_bajo) p c = record c { bajo = e }
  pon_espacio e (some la_planta) none c = c
  pon_espacio e (some la_planta) (some p) c = record c { planta = some (record p { espacio = e }) }

  abbrev pub con_espacio : Espacio f → Casa f → Visita f Texto → Visita f Texto
  con_espacio e c w = record w { casa = some (pon_espacio e c.visible c.planta c) }

  -- `Math.sign`, and a whole number with its sign.
  abbrev pub signo_de : f.N → f.N
  signo_de a =
      if f.menor (f.de 0) a then f.de 1 else (if f.menor a (f.de 0) then f.opuesto (f.de 1) else a)

  abbrev pub con_signo : Bool × ℕ → f.N
  con_signo (true, n) = f.de n
  con_signo (false, n) = f.opuesto (f.de n)

  -- The front, rounded to a side of the grid.
  abbrev pub frente : f.N → f.N × f.N
  frente yl =
      let fx = f.opuesto (f.seno yl) in
      let fz = f.opuesto (f.coseno yl) in
      if f.menor (modulo f fz) (modulo f fx) then (signo_de fx, f.de 0) else (f.de 0, signo_de fz)

  -- `Math.round(a * 4) / 4`
  abbrev pub a_la_rejilla : f.N → f.N
  a_la_rejilla a = f.entre (f.redondo (f.por a (f.de 4))) (f.de 4)

  abbrev pub movido : f.N → (Bool × ℕ) × (Bool × ℕ) → Mueble f → Mueble f
  movido yl (ad, de) mu =
      let a = frente yl in
      let dx = f.menos (f.por a.0 (con_signo ad)) (f.por a.1 (con_signo de)) in
      let dz = f.mas (f.por a.1 (con_signo ad)) (f.por a.0 (con_signo de)) in
      record mu {
        mx = a_la_rejilla (f.mas mu.mx (f.por dx (decimal f 25 100)));
        mz = a_la_rejilla (f.mas mu.mz (f.por dz (decimal f 25 100)));
      }

  abbrev pub girado_uno : Mueble f → Mueble f
  girado_uno mu = record mu { r = (mu.r + 1) % 4 }

  module _ (ta : Taller f Texto) where
    -- `conmuta`
    abbrev pub guarda_si_hay : Espacio f → (ℕ → Option Texto) → ℕ → Option Texto
    guarda_si_hay e almacen = elim e.muebles [
      | [] ↦ almacen
      | mu ∷ mus ↦ (guarda_piso f ta.nav (some e) almacen).1
    ]

    abbrev pub conmuta_una :
        ℕ
        → Option Bool
        → Option Lampara
        → Espacio f
        → Casa f
        → Visita f Texto
        → Bool × Visita f Texto
    conmuta_una i on none e c w = (false, w)
    conmuta_una i on (some l) e c w =
        let e' : Espacio f = record e {
          lamparas = pon_lampara i (record l { on = o_lo_contrario on l.on }) e.lamparas;
        } in
        (true, record (con_espacio e' c w) { almacen = guarda_si_hay e' w.almacen })

    abbrev pub conmuta_en :
        ℕ → Option Bool → Option (Espacio f) → Casa f → Visita f Texto → Bool × Visita f Texto
    conmuta_en i on none c w = (false, w)
    conmuta_en i on (some e) c w = conmuta_una i on (lampara_en i e.lamparas) e c w

    abbrev pub conmuta_de :
        ℕ → Option Bool → Option (Casa f) → Visita f Texto → Bool × Visita f Texto
    conmuta_de i on none w = (false, w)
    conmuta_de i on (some c) w = conmuta_en i on (espacio_en c.visible c.planta c) c w

    abbrev pub conmuta : ℕ → Option Bool → Visita f Texto → Bool × Visita f Texto
    conmuta i on w = conmuta_de i on w.casa w

    -- `mueveSel` and `giraSel`: the piece of furniture that is selected is changed and fitted, and the
    -- floor kept. A number stands for one piece of the house.
    abbrev pub con_mueble : (Mueble f → Mueble f) → ℕ → Mueble f → Mueble f
    con_mueble g id mu = if mu.id == id then encaja f (g mu) else mu

    abbrev pub cambia_mueble :
        (Mueble f → Mueble f)
        → ℕ
        → Option (Espacio f)
        → Casa f
        → Visita f Texto
        → Bool × Visita f Texto
    cambia_mueble g id none c w = (false, w)
    cambia_mueble g id (some e) c w =
        let e' : Espacio f = record e { muebles = map (con_mueble g id) e.muebles } in
        (
          true,
          record (con_espacio e' c w) { almacen = (guarda_piso f ta.nav (some e') w.almacen).1 },
        )

    abbrev pub cambia_sel :
        (Mueble f → Mueble f) → Option ℕ → Casa f → Visita f Texto → Bool × Visita f Texto
    cambia_sel g none c w = (false, w)
    cambia_sel g (some id) c w = cambia_mueble g id (espacio_en c.visible c.planta c) c w
