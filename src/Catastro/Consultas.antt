-- ===== src/Catastro/Consultas.antt =====
-- The questions to the register: `huellaLibre`, `aLocal`, `empujarFuera`, `solidoBajo`.
use rami_ledger.Prelude.{
  ℕ, zero, suc, ◌+◌, ◌*◌, Bool, true, false, not, ◌&&◌, ◌||◌, Option, none, some, List, [], ◌∷◌,
  leb, if◌then◌else◌, get_elem?,
}
use rami_ledger.Flotantes.{ℤ, pos, negsuc, Flotantes, desde_cero, cero, modulo, clamp}
use rami_ledger.Catastro.{Solido, Catastro, Punto, es_visto, celda_de, radio, celdas, celdas_cerca}

-- One cell more at each side.
abbrev pub menos_una : ℤ → ℤ
menos_una (pos zero) = negsuc 0
menos_una (pos (suc n)) = pos n
menos_una (negsuc n) = negsuc (suc n)

abbrev pub una_mas : ℤ → ℤ
una_mas (pos n) = pos (suc n)
una_mas (negsuc zero) = pos 0
una_mas (negsuc (suc n)) = negsuc n

module _ (f : Flotantes) (Ficha : Type 0) where
  -- Whether two circles overlap by more than a fifth.
  abbrev pub se_montan : f.N → f.N → f.N → Solido f Ficha → Bool
  se_montan wx wz r so =
      let dx = f.menos so.x wx in
      let dz = f.menos so.z wz in
      let both = f.mas r (radio f so) in
      f.menor (f.mas (f.por dx dx) (f.por dz dz))
        (f.por (f.por both both) (f.entre (f.de 64) (f.de 100)))

  abbrev pub cumple : (Solido f Ficha → Bool) → Option (Solido f Ficha) → Bool
  cumple p none = false
  cumple p (some so) = p so

  -- The list of one cell, with the solids seen before; `none` is `return false`.
  abbrev pub mira_lista :
      (Solido f Ficha → Bool) → List (Solido f Ficha) → List ℕ → List ℕ → Option (List ℕ)
  mira_lista p items [] vistos = some vistos
  mira_lista p items (id ∷ ids) vistos =
      let visto = es_visto id vistos in
      if not visto && cumple p (get_elem? items id)
      then none
      else mira_lista p items ids (if visto then vistos else id ∷ vistos)

  abbrev pub tras_lista : (List ℕ → Bool) → Option (List ℕ) → Bool
  tras_lista more none = false
  tras_lista more (some vistos) = more vistos

  abbrev pub mira_celdas : (Solido f Ficha → Bool) → Catastro f Ficha → List ℕ → List ℕ → Bool
  mira_celdas p cat [] vistos = true
  mira_celdas p cat (k ∷ ks) vistos =
      tras_lista (mira_celdas p cat ks) (mira_lista p cat.items (cat.bins k) vistos)

  abbrev pub celdas_vecinas : Catastro f Ficha → f.N → f.N → f.N → List ℕ
  celdas_vecinas cat wx wz r =
      celdas cat.nx cat.nz (desde_cero (menos_una (celda_de f (f.menos wx r))))
        (una_mas (celda_de f (f.mas wx r))) (desde_cero (menos_una (celda_de f (f.menos wz r))))
        (una_mas (celda_de f (f.mas wz r)))

  -- `huellaLibre`
  unfoldable pub huella_libre : Catastro f Ficha → f.N → f.N → f.N → Bool
  huella_libre cat wx wz r = mira_celdas (se_montan wx wz r) cat (celdas_vecinas cat wx wz r) []

  -- `aLocal`
  abbrev pub a_local : Solido f Ficha → f.N → f.N → Punto f
  a_local so wx wz =
      let dx = f.menos wx so.x in
      let dz = f.menos wz so.z in
      let c = f.coseno so.yaw in
      let sn = f.seno so.yaw in
      record { px = f.menos (f.por dx c) (f.por dz sn); pz = f.mas (f.por dx sn) (f.por dz c) }

  abbrev pub signo : f.N → f.N
  signo a = if f.alcanza a (cero f) then f.de 1 else f.opuesto (f.de 1)

  -- The direction of the push, in the frame of the solid, and the distance to its border.
  abbrev pub por_la_cara : Solido f Ficha → Punto f → Punto f × f.N
  por_la_cara so loc =
      let px = f.menos so.hw (modulo f loc.px) in
      let pz = f.menos so.hd (modulo f loc.pz) in
      if f.menor px pz
      then (record { px = signo loc.px; pz = cero f }, f.opuesto px)
      else (record { px = cero f; pz = signo loc.pz }, f.opuesto pz)

  abbrev pub normal : Solido f Ficha → Punto f → f.N → f.N → f.N → Punto f × f.N
  normal so loc ex ez d =
      if f.menor (f.entre (f.de 1) (f.de 10_000)) d
      then (record { px = f.entre ex d; pz = f.entre ez d }, d)
      else por_la_cara so loc

  -- Back to the world: the inverse of `aLocal`.
  abbrev pub desplaza : Solido f Ficha → Punto f → f.N → Punto f × f.N → Punto f
  desplaza so p r (e, d) =
      let empuje = f.menos r d in
      let c = f.coseno so.yaw in
      let sn = f.seno so.yaw in
      let nx2 = f.mas (f.por e.px c) (f.por e.pz sn) in
      let nz2 = f.mas (f.por (f.opuesto e.px) sn) (f.por e.pz c) in
      record { px = f.mas p.px (f.por nx2 empuje); pz = f.mas p.pz (f.por nz2 empuje) }

  -- What a solid makes of the position, or `none` if the circle does not touch it.
  unfoldable pub saca_de : Solido f Ficha → f.N → Punto f → Option (Punto f)
  saca_de so r p =
      let loc : Punto f = a_local so p.px p.pz in
      let ex = f.menos loc.px (clamp f loc.px (f.opuesto so.hw) so.hw) in
      let ez = f.menos loc.pz (clamp f loc.pz (f.opuesto so.hd) so.hd) in
      let d2 = f.mas (f.por ex ex) (f.por ez ez) in
      if f.alcanza d2 (f.por r r)
      then none
      else some (desplaza so p r (normal so loc ex ez (f.raiz d2)))

  -- Where a pass stands: the position, whether it moved, and the last solid that pushed it.
  pub record Empuje : Type 0 where
    pub donde : Punto f
    pub movido : Bool
    pub choque : Option (Solido f Ficha)

  abbrev pub tras_saca : Empuje → Solido f Ficha → Option (Punto f) → Empuje
  tras_saca s so none = s
  tras_saca s so (some p) = record { donde = p; movido = true; choque = some so }

  abbrev pub empuja_uno : f.N → Option (Solido f Ficha) → Empuje → Empuje
  empuja_uno r none s = s
  empuja_uno r (some so) s = tras_saca s so (saca_de so r s.donde)

  abbrev pub empuja_lista : f.N → List (Solido f Ficha) → List ℕ → Empuje → Empuje
  empuja_lista r items [] s = s
  empuja_lista r items (id ∷ ids) s = empuja_lista r items ids (empuja_uno r (get_elem? items id) s)

  abbrev pub empuja_celdas : f.N → Catastro f Ficha → List ℕ → Empuje → Empuje
  empuja_celdas r cat [] s = s
  empuja_celdas r cat (k ∷ ks) s = empuja_celdas r cat ks (empuja_lista r cat.items (cat.bins k) s)

  abbrev pub pasada : f.N → Catastro f Ficha → Empuje → Empuje
  pasada r cat s =
      empuja_celdas r cat (celdas_cerca f cat.nx cat.nz s.donde.px s.donde.pz r)
        (record s { movido = false })

  abbrev pub pasadas : ℕ → f.N → Catastro f Ficha → Empuje → Empuje
  pasadas zero r cat s = s
  pasadas (suc n) r cat s =
      let t : Empuje = pasada r cat s in if t.movido then pasadas n r cat t else t

  -- `empujarFuera`: the position behind it, and the solid.
  unfoldable pub empujar_fuera :
      Option (Catastro f Ficha) → f.N → Punto f → Punto f × Option (Solido f Ficha)
  empujar_fuera none r p = (p, none)
  empujar_fuera (some cat) r p =
      let s : Empuje = pasadas 2 r cat (record { donde = p; movido = false; choque = none }) in
      (s.donde, s.choque)

  -- Whether the box of a solid contains a point.
  abbrev pub contiene : f.N → f.N → Solido f Ficha → Bool
  contiene wx wz so =
      let loc : Punto f = a_local so wx wz in
      f.alcanza so.hw (modulo f loc.px) && f.alcanza so.hd (modulo f loc.pz)

  abbrev pub el_que : (Solido f Ficha → Bool) → Option (Solido f Ficha) → Option (Solido f Ficha)
  el_que p none = none
  el_que p (some so) = if p so then some so else none

  abbrev pub o_el : Option (Solido f Ficha) → Option (Solido f Ficha) → Option (Solido f Ficha)
  o_el none o = o
  o_el (some so) o = some so

  abbrev pub primero_de :
      (Solido f Ficha → Bool) → List (Solido f Ficha) → List ℕ → Option (Solido f Ficha)
  primero_de p items [] = none
  primero_de p items (id ∷ ids) = o_el (el_que p (get_elem? items id)) (primero_de p items ids)

  -- The list of a cell, where the grid has it.
  abbrev pub lista_en : Catastro f Ficha → ℤ → ℤ → List ℕ
  lista_en cat (pos i) (pos j) =
      if leb cat.nx i || leb cat.nz j then [] else cat.bins (j * cat.nx + i)
  lista_en cat i j = []

  -- `solidoBajo`
  unfoldable pub solido_bajo : Option (Catastro f Ficha) → f.N → f.N → Option (Solido f Ficha)
  solido_bajo none wx wz = none
  solido_bajo (some cat) wx wz =
      primero_de (contiene wx wz) cat.items (lista_en cat (celda_de f wx) (celda_de f wz))
