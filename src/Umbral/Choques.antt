-- ===== src/Umbral/Choques.antt =====
-- Walking inside with no guide: `empuja`, `huellaMueble`, `solidosDe`, `andaDentro`.
use rami_ledger.Prelude.{
  ℕ, zero, suc, Bool, true, false, not, ◌&&◌, ◌||◌, Option, none, some, List, [], ◌∷◌, ◌++◌, ltb,
  if◌then◌else◌,
}
use rami_ledger.Flotantes.{
  Flotantes, cero, desde_cero, modulo, clamp, hipotenusa, el_menor, decimal,
}
use rami_ledger.Flotantes.Enteros.{negado}
use rami_ledger.Catastro.{Punto}
use rami_ledger.Umbral.Estado.{Portal, Caminante}
use rami_ledger.Umbral.Pisos.{huella_en}
use rami_ledger.Umbral.Salas.{Pulsadas, Caja, Enser, Boca, Sala}
use rami_ledger.Umbral.Casas.{al_local, pon_local_y, yaw_local}

module _ (f : Flotantes) where
  abbrev r_jugador : f.N
  r_jugador = decimal f 3 10

  -- `===`
  abbrev iguales : f.N → f.N → Bool
  iguales a b = f.alcanza a b && f.alcanza b a

  -- A centre that is inside a solid leaves it by the nearest side.
  abbrev por_el_lado : f.N → Caja f → Punto f → Punto f
  por_el_lado r c p =
      let ex0 = f.menos p.px c.x0 in
      let ex1 = f.menos c.x1 p.px in
      let ez0 = f.menos p.pz c.z0 in
      let ez1 = f.menos c.z1 p.pz in
      let m = el_menor f (el_menor f (el_menor f ex0 ex1) ez0) ez1 in
      if iguales m ex0
      then record p { px = f.menos c.x0 r }
      else (if iguales m ex1
          then record p { px = f.mas c.x1 r }
          else (if iguales m ez0
              then record p { pz = f.menos c.z0 r }
              else record p { pz = f.mas c.z1 r }))

  abbrev aparta_de : f.N → Caja f → f.N → f.N → f.N → Punto f → Punto f
  aparta_de r c dx dz d2 p =
      let d = f.raiz d2 in
      if f.menor (decimal f 1 10_000_000_000) d2
      then record {
        px = f.mas p.px (f.por (f.entre dx d) (f.menos r d));
        pz = f.mas p.pz (f.por (f.entre dz d) (f.menos r d));
      }
      else por_el_lado r c p

  abbrev un_choque : f.N → Caja f → Punto f × Bool → Punto f × Bool
  un_choque r c (p, movido) =
      let dx = f.menos p.px (clamp f p.px c.x0 c.x1) in
      let dz = f.menos p.pz (clamp f p.pz c.z0 c.z1) in
      let d2 = f.mas (f.por dx dx) (f.por dz dz) in
      if f.alcanza d2 (f.por r r) then (p, movido) else (aparta_de r c dx dz d2 p, true)

  abbrev una_pasada : f.N → List (Caja f) → Punto f × Bool → Punto f × Bool
  una_pasada r [] q = q
  una_pasada r (c ∷ cs) q = una_pasada r cs (un_choque r c q)

  -- `empuja`
  abbrev pub empuja_de : f.N → List (Caja f) → Punto f → Punto f
  empuja_de r cs p =
      let q = una_pasada r cs (p, false) in if q.1 then (una_pasada r cs (q.0, false)).0 else q.0

  abbrev huella_mueble : Enser f → Caja f
  huella_mueble e = huella_en f e.x e.z e.r e.sx e.sz

  abbrev huellas : List (Enser f) → List (Caja f)
  huellas [] = []
  huellas (e ∷ es) = let rest = huellas es in if e.pasa then rest else huella_mueble e ∷ rest

  abbrev con_cab : Option (Caja f) → List (Caja f)
  con_cab none = []
  con_cab (some c) = c ∷ []

  abbrev solidos_de : Sala f → List (Caja f)
  solidos_de e = e.solidos ++ (huellas e.enseres ++ con_cab e.cab)

  -- `mx`, `mz`: where the keys lead.
  abbrev si_va : Bool → f.N → f.N
  si_va b v = if b then v else cero f

  abbrev lleva_x : Bool → Pulsadas → f.N
  lleva_x sel k =
      f.mas (f.menos (cero f) (si_va (k.a || (not sel && k.arrowleft)) (f.de 1)))
        (si_va (k.d || (not sel && k.arrowright)) (f.de 1))

  abbrev lleva_z : Bool → Pulsadas → f.N
  lleva_z sel k =
      f.mas (f.menos (cero f) (si_va (k.w || (not sel && k.arrowup)) (f.de 1)))
        (si_va (k.s || (not sel && k.arrowdown)) (f.de 1))

  -- A number that is neither 0 nor `NaN`.
  abbrev pub algo : f.N → Bool
  algo v = f.menor v (cero f) || f.menor (cero f) v

  -- The way of a frame, `ddx` and `ddz`.
  abbrev pub paso_de_teclas : Bool → Pulsadas → f.N → f.N → f.N × f.N
  paso_de_teclas sel k sp yl =
      let mx = lleva_x sel k in
      let mz = lleva_z sel k in
      let n = hipotenusa f mx mz in
      let ux = f.entre mx n in
      let uz = f.opuesto (f.entre mz n) in
      let fx = f.opuesto (f.seno yl) in
      let fz = f.opuesto (f.coseno yl) in
      let rx = f.coseno yl in
      let rz = f.opuesto (f.seno yl) in
      if algo mx || algo mz
      then (
        f.por (f.mas (f.por fx uz) (f.por rx ux)) sp,
        f.por (f.mas (f.por fz uz) (f.por rz ux)) sp,
      )
      else (cero f, cero f)

  abbrev pub de_prisa : Pulsadas → f.N → f.N
  de_prisa k dt = f.por (f.por (decimal f 24 10) (if k.shift then decimal f 17 10 else f.de 1)) dt

  -- `Math.max(1, Math.ceil(v))`
  abbrev pub subpasos : f.N → ℕ
  subpasos v = let n = desde_cero (negado (f.suelo (f.opuesto v))) in if ltb n 1 then 1 else n

  abbrev pub ante_boca : Option (Boca f) → f.N → Bool
  ante_boca none x = false
  ante_boca (some b) x = f.menor (modulo f (f.menos x b.x)) (f.entre b.ancho (f.de 2))

  abbrev pub pasa_boca : Option (Boca f) → Punto f → Bool
  pasa_boca none q = false
  pasa_boca (some b) q = f.menor (f.menos b.z (decimal f 12 100)) q.pz && ante_boca (some b) q.px

  abbrev pub acota_x : Sala f → f.N → f.N
  acota_x e v =
      clamp f v (f.mas e.limites.x0 (decimal f 5 100)) (f.menos e.limites.x1 (decimal f 5 100))

  abbrev pub acota_z : Sala f → f.N → f.N
  acota_z e v =
      clamp f v (f.mas e.limites.z0 (decimal f 5 100)) (f.menos e.limites.z1 (decimal f 5 100))

  -- What a place becomes within the limits, and whether it is past the way out.
  abbrev pub acotado : Sala f → Punto f → Punto f × Bool
  acotado e p =
      let x = acota_x e p.px in
      let r : Punto f = record {
        px = x;
        pz = if ante_boca e.boca x then p.pz else acota_z e p.pz;
      } in
      (r, pasa_boca e.boca r)

  -- One of the shorter steps of a frame.
  abbrev pub subpaso : Sala f → f.N → f.N → Punto f → Punto f × Bool
  subpaso e vx vz q =
      acotado e
        (empuja_de r_jugador (solidos_de e) (record { px = f.mas q.px vx; pz = f.mas q.pz vz }))

  abbrev pub en_subpasos : Sala f → f.N → f.N → ℕ → Punto f × Bool → Punto f × Bool
  en_subpasos e vx vz zero q = q
  en_subpasos e vx vz (suc n) q =
      let rest = en_subpasos e vx vz n (subpaso e vx vz q.0) in if q.1 then q else rest

  -- The loop of a frame, from a place: the number of its steps is at least one.
  abbrev pub recorre_sala : Sala f → f.N × f.N → Punto f → Punto f × Bool
  recorre_sala e v q =
      let np = subpasos (f.entre (hipotenusa f v.0 v.1) (decimal f 1 10)) in
      en_subpasos e (f.entre v.0 (f.de np)) (f.entre v.1 (f.de np)) np (q, false)

  module _ (Texto : Type 0) where
    -- `andaDentro`: the walker, and whether the walk out is called.
    unfoldable pub anda_dentro :
        Option (Sala f) → Portal f → Bool → Pulsadas → f.N → Caminante f → Bool × Caminante f
    anda_dentro none po sel k dt pie = (false, pie)
    anda_dentro (some e) po sel k dt pie =
        let r =
          recorre_sala e (paso_de_teclas sel k (de_prisa k dt) (yaw_local f Texto po pie))
            (al_local f Texto po pie.x pie.z) in
        (r.1, pon_local_y f Texto po r.0.px r.0.pz e.suelo (record pie { fly = f.de 0 }))
