-- ===== src/Umbral/Patios.antt =====
-- Walking in the courtyard of a building: `patioEn`, `andaPatio`.
use rami_ledger.Prelude.{
  ℕ, zero, suc, Bool, false, ◌&&◌, Option, none, some, List, [], ◌∷◌, ◌++◌, if◌then◌else◌,
}
use rami_ledger.Flotantes.{Flotantes, cero, hipotenusa, el_menor, el_mayor, decimal}
use rami_ledger.Catastro.{Punto}
use rami_ledger.Umbral.Estado.{Caminante}
use rami_ledger.Umbral.Salas.{Pulsadas, Caja, ConPatio}
use rami_ledger.Umbral.Casas.{al_local, yaw_local, pon_local}
use rami_ledger.Umbral.Choques.{algo, paso_de_teclas, subpasos, empuja_de}

module _ (f : Flotantes) (Texto : Type 0) where
  abbrev en_este_patio : ConPatio f → Punto f → Bool
  en_este_patio po l =
      f.menor po.pat.x0 l.px
      && (f.menor l.px po.pat.x1
          && (f.menor (f.menos po.pat.z0 (decimal f 5 10)) l.pz && f.menor l.pz po.pat.z1))

  -- `patioEn`, among those of a cell of the index
  abbrev pub patio_en : (ConPatio f → Bool) → List (ConPatio f) → f.N → f.N → Option (ConPatio f)
  patio_en dibujado [] x z = none
  patio_en dibujado (po ∷ pos) x z =
      let rest = patio_en dibujado pos x z in
      if en_este_patio po (al_local f Texto po.marco x z) && dibujado po then some po else rest

  abbrev con_ala : Bool → Caja f → List (Caja f)
  con_ala b c = if b then c ∷ [] else []

  -- The building's depth behind the courtyard, the box of the door, and the wings.
  abbrev solidos_patio : ConPatio f → List (Caja f)
  solidos_patio po =
      let medio = f.entre po.puerta_dw (f.de 2) in
      (record {
        x0 = f.opuesto po.hw;
        x1 = po.hw;
        z0 = f.opuesto po.hd;
        z1 = f.mas po.pat.z0 (decimal f 2 10);
      }
        ∷ record {
          x0 = f.menos po.puerta_x medio;
          x1 = f.mas po.puerta_x medio;
          z0 = po.pat.z0;
          z1 = po.puerta_zo;
        }
        ∷ [])
      ++ (con_ala po.cerrado_a
            (record { x0 = f.opuesto po.hw; x1 = po.pat.x0; z0 = f.opuesto po.hd; z1 = po.hd })
          ++ con_ala po.cerrado_b
              (record { x0 = po.pat.x1; x1 = po.hw; z0 = f.opuesto po.hd; z1 = po.hd }))

  -- `6 * (walk.speed || 1) * (k.shift ? 5 : 1) * dt`
  abbrev ritmo : f.N → Pulsadas → f.N → f.N
  ritmo speed k dt =
      f.por
        (f.por (f.por (f.de 6) (if algo f speed then speed else f.de 1))
          (if k.shift then f.de 5 else f.de 1))
        dt

  abbrev baja_y_sube : Pulsadas → f.N → f.N → f.N
  baja_y_sube k sp fly =
      let v = if k.q then el_mayor f (cero f) (f.menos fly sp) else fly in
      if k.e then el_menor f (f.de 3000) (f.mas v sp) else v

  abbrev pasos_patio : List (Caja f) → f.N → f.N → ℕ → Punto f → Punto f
  pasos_patio cs vx vz zero q = q
  pasos_patio cs vx vz (suc n) q =
      pasos_patio cs vx vz n
        (empuja_de f (decimal f 42 100) cs (record { px = f.mas q.px vx; pz = f.mas q.pz vz }))

  abbrev andado_patio : (f.N → f.N → f.N) → ConPatio f → f.N × f.N → Caminante f → Caminante f
  andado_patio suelo_en po v pie =
      let np = subpasos f (f.entre (hipotenusa f v.0 v.1) (decimal f 3 10)) in
      let q =
        pasos_patio (solidos_patio po) (f.entre v.0 (f.de np)) (f.entre v.1 (f.de np)) np
          (al_local f Texto po.marco pie.x pie.z) in
      let p : Caminante f = pon_local f Texto po.marco q.px q.pz pie in
      record p { y = suelo_en p.x p.z }

  -- `andaPatio` behind `puedeEntrar`: who flies is left where one is.
  abbrev anda_en_patio :
      (f.N → f.N → f.N) → f.N → Pulsadas → f.N → Option (ConPatio f) → Caminante f → Caminante f
  anda_en_patio suelo_en speed k dt none pie = pie
  anda_en_patio suelo_en speed k dt (some po) pie =
      let sp = ritmo speed k dt in
      let v : Caminante f = record pie { fly = baja_y_sube k sp pie.fly } in
      if f.alcanza v.fly (f.de 2)
      then v
      else andado_patio suelo_en po (paso_de_teclas f false k sp (yaw_local f Texto po.marco pie)) v

  unfoldable pub anda_patio :
      (f.N → f.N → f.N)
      → (ConPatio f → Bool)
      → (f.N → f.N → List (ConPatio f))
      → f.N
      → Pulsadas
      → f.N
      → Caminante f
      → Caminante f
  anda_patio suelo_en dibujado celda speed k dt pie =
      anda_en_patio suelo_en speed k dt (patio_en dibujado (celda pie.x pie.z) pie.x pie.z) pie
