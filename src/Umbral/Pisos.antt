-- ===== src/Umbral/Pisos.antt =====
-- The floor that is kept in the browser: `leePiso`, `guardaPiso`, `restauraPiso`.
use rami_ledger.Prelude.{
  ℕ, ◌-◌, ◌%◌, Bool, true, false, ◌&&◌, ◌||◌, Option, none, some, List, [], ◌∷◌, ◌==◌,
  if◌then◌else◌, map,
}
use rami_ledger.Flotantes.{ℤ, pos, negsuc, Flotantes, clamp, el_mayor, decimal}
use rami_ledger.Umbral.Estado.{Caja, Mueble, Lampara, Espacio}

-- `((r | 0) % 4 + 4) % 4`
abbrev pub cuarto : ℤ → ℕ
cuarto (pos n) = n % 4
cuarto (negsuc n) = 3 - n % 4

module _ (f : Flotantes) where
  -- What is kept of a piece of furniture: three numbers, or something else.
  pub data Nota : Type 0 where
    tres : f.N → f.N → ℤ → Nota
    otra : Nota

  pub record Datos : Type 0 where
    pub v : ℕ
    pub m : List (ℕ × Nota)
    pub l : Option (List Bool)

  -- `JSON.parse`, which may throw or give `null`, `JSON.stringify`, and whether the browser takes a text.
  pub record Navegador (Texto : Type 0) : Type 0 where
    pub parse : Texto → Option Datos
    pub stringify : Datos → Texto
    pub cabe : ℕ → Texto → Bool

  -- `huellaMueble`, of a piece with this place, turn and size
  abbrev pub huella_en : f.N → f.N → ℕ → f.N → f.N → Caja f
  huella_en x z r sx sz =
      let impar = r % 2 == 1 in
      let hx = f.entre (if impar then sz else sx) (f.de 2) in
      let hz = f.entre (if impar then sx else sz) (f.de 2) in
      record { x0 = f.menos x hx; x1 = f.mas x hx; z0 = f.menos z hz; z1 = f.mas z hz }

  -- A coordinate held in a room, half the size away from its walls and two centimetres more.
  abbrev pub en_cuarto : f.N → f.N → f.N → f.N → f.N
  en_cuarto v h a b =
      let low = f.mas (f.mas a h) (decimal f 2 100) in
      clamp f v low (el_mayor f low (f.menos (f.menos b h) (decimal f 2 100)))

  -- `encaja`
  unfoldable pub encaja : Mueble f → Mueble f
  encaja mu =
      let h : Caja f = huella_en mu.mx mu.mz mu.r mu.sx mu.sz in
      record mu {
        mx =
            en_cuarto mu.mx (f.entre (f.menos h.x1 h.x0) (f.de 2)) mu.habitacion.x0
              mu.habitacion.x1;
        mz =
            en_cuarto mu.mz (f.entre (f.menos h.z1 h.z0) (f.de 2)) mu.habitacion.z0
              mu.habitacion.z1;
      }

  -- `m[id]`: what was written last.
  abbrev pub nota_de : ℕ → List (ℕ × Nota) → Option Nota
  nota_de id [] = none
  nota_de id ((k, n) ∷ m) = elim (nota_de id m) [
    | some n' ↦ some n'
    | none ↦ if id == k then some n else none
  ]

  abbrev pub centimetros : f.N → f.N
  centimetros x = f.entre (f.redondo (f.por x (f.de 100))) (f.de 100)

  module _ {Texto : Type 0} (nav : Navegador Texto) where
    abbrev pub con_nota : Mueble f → Option Nota → Mueble f
    con_nota mu none = mu
    con_nota mu (some otra) = mu
    con_nota mu (some (tres x z r)) =
        if f.finito x && f.finito z then encaja (record mu { mx = x; mz = z; r = cuarto r }) else mu

    abbrev pub lee_muebles : List (ℕ × Nota) → List (Mueble f) → List (Mueble f)
    lee_muebles m [] = []
    lee_muebles m (mu ∷ mus) = con_nota mu (nota_de mu.id m) ∷ lee_muebles m mus

    abbrev pub enciende : Option Lampara → Bool → Option Lampara
    enciende none b = none
    enciende (some l) b = if l.fija then some l else some (record l { on = b })

    -- A lamp for which nothing is kept stays as it is.
    abbrev pub lee_lamparas : List Bool → List (Option Lampara) → List (Option Lampara)
    lee_lamparas [] ls = ls
    lee_lamparas (b ∷ bs) [] = []
    lee_lamparas (b ∷ bs) (l ∷ ls) = enciende l b ∷ lee_lamparas bs ls

    abbrev pub con_luces : Option (List Bool) → List (Option Lampara) → List (Option Lampara)
    con_luces none ls = ls
    con_luces (some bs) ls = lee_lamparas bs ls

    abbrev pub con_datos : Espacio f → Option Datos → Espacio f
    con_datos e none = e
    con_datos e (some d) =
        if d.v == 1
        then record e {
          muebles = lee_muebles d.m e.muebles;
          lamparas = con_luces d.l e.lamparas;
          recuperado = true;
        }
        else e

    abbrev pub leido : Option Texto → Option Datos
    leido none = none
    leido (some t) = nav.parse t

    -- `leePiso`
    unfoldable pub lee_piso : (ℕ → Option Texto) → Espacio f → Espacio f
    lee_piso almacen e = elim e.piso_id [ none ↦ e | some id ↦ con_datos e (leido (almacen id)) ]

    abbrev pub anota_muebles : List (Mueble f) → List (ℕ × Nota)
    anota_muebles [] = []
    anota_muebles (mu ∷ mus) =
        (mu.id, tres (centimetros mu.mx) (centimetros mu.mz) (pos mu.r)) ∷ anota_muebles mus

    abbrev pub luz : Option Lampara → Bool
    luz none = false
    luz (some l) = l.on

    abbrev pub luces : List (Option Lampara) → List Bool
    luces [] = []
    luces (l ∷ ls) = luz l ∷ luces ls

    abbrev pub datos : Espacio f → Datos
    datos e = record { v = 1; m = anota_muebles e.muebles; l = some (luces e.lamparas) }

    abbrev pub guarda_en : ℕ → Option Texto → (ℕ → Option Texto) → ℕ → Option Texto
    guarda_en id t almacen k = if k == id then t else almacen k

    -- `guardaPiso`: whether it was kept, and what the browser then has.
    unfoldable pub guarda_piso : Option (Espacio f) → (ℕ → Option Texto) → Bool × (ℕ → Option Texto)
    guarda_piso none almacen = (false, almacen)
    guarda_piso (some e) almacen = elim e.piso_id [
      | none ↦ (false, almacen)
      | some id ↦
          let t = nav.stringify (datos e) in
          if nav.cabe id t then (true, guarda_en id (some t) almacen) else (false, almacen)
    ]

    abbrev pub en_su_sitio : Mueble f → Mueble f
    en_su_sitio mu = record mu { mx = mu.x0; mz = mu.z0; r = mu.r0 }

    abbrev pub apaga : Option Lampara → Option Lampara
    apaga none = none
    apaga (some l) = if l.fija || l.techo_fijo then some l else some (record l { on = false })

    abbrev pub sin_clave : Option ℕ → (ℕ → Option Texto) → ℕ → Option Texto
    sin_clave none almacen = almacen
    sin_clave (some id) almacen = guarda_en id none almacen

    -- `restauraPiso`, but for the meshes: whether it did, the space, and what the browser then has.
    unfoldable pub restaura_piso :
        Espacio f → (ℕ → Option Texto) → Bool × (Espacio f × (ℕ → Option Texto))
    restaura_piso e almacen = elim e.muebles [
      | [] ↦ (false, (e, almacen))
      | mu ∷ mus ↦ (
        true,
        (
          record e { muebles = map en_su_sitio (mu ∷ mus); lamparas = map apaga e.lamparas },
          sin_clave e.piso_id almacen,
        ),
      )
    ]
