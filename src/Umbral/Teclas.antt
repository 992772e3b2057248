-- ===== src/Umbral/Teclas.antt =====
-- The keys and the clicks: the hooks `tecla` and `clic`, `accion`, `puedeEntrar`.
use rami_ledger.Prelude.{ℕ, Bool, true, false, ◌&&◌, Option, none, some, ◌==◌, if◌then◌else◌}
use rami_ledger.Flotantes.{Flotantes}
use rami_ledger.Umbral.Estado.{Piso, al_bajo, al_piso, Portal, Seq, Casa, Visita}
use rami_ledger.Umbral.Casas.{Taller, es_bajo, yaw_local}
use rami_ledger.Umbral.Recorridos.{puede_entrar, entrar, salir_andando, toma_ascensor, escape_en}
use rami_ledger.Umbral.Muebles.{espacio_en, movido, girado_uno, conmuta_en, cambia_sel}

-- What is looked at or touched.
pub data Objeto : Type 0 where
  la_lampara : ℕ → Objeto
  el_ascensor la_salida : Objeto
  el_mueble : ℕ → Objeto

pub data Tecla : Type 0 where
  t_escape t_f t_r t_arriba t_abajo t_izquierda t_derecha t_suprimir t_retroceso t_otra : Tecla

abbrev pub es_f : Tecla → Bool
es_f t_f = true
es_f k = false

abbrev pub hay_casa {ℓ} : {A : Type ℓ} → Option A → Bool
hay_casa none = false
hay_casa (some c) = true

-- `selecciona(sel === ob.mu ? null : ob.mu)`
abbrev pub alterna : ℕ → Option ℕ → Option ℕ
alterna mu none = some mu
alterna mu (some s) = if s == mu then none else some mu

-- A step of the grid, forwards and to the right.
abbrev pub adelante_de : Tecla → Option ((Bool × ℕ) × (Bool × ℕ))
adelante_de t_arriba = some ((true, 1), (true, 0))
adelante_de t_abajo = some ((false, 1), (true, 0))
adelante_de t_izquierda = some ((true, 0), (false, 1))
adelante_de t_derecha = some ((true, 0), (true, 1))
adelante_de k = none

module _ (f : Flotantes) (Texto : Type 0) where
  -- What the eye and a ray find: `objetivo`, and whether the ray of a click meets the door of a portal.
  pub record Mano : Type 0 where
    pub objetivo : Visita f Texto → Option Objeto
    pub toca_puerta : Portal f → Bool

  module _ (ta : Taller f Texto) (ma : Mano) where
    -- `accion`; a house with a lift has a floor to go to.
    abbrev pub sube : Option Piso → Visita f Texto → Bool × Visita f Texto
    sube none w = (false, w)
    sube (some p) w = toma_ascensor f Texto ta (al_piso p) false w

    abbrev pub accion_en : Option Objeto → Option (Casa f) → Visita f Texto → Bool × Visita f Texto
    accion_en none c w = (false, w)
    accion_en (some o) none w = (false, w)
    accion_en (some (la_lampara i)) (some c) w =
        conmuta_en f Texto ta i none (espacio_en f Texto c.visible c.planta c) c w
    accion_en (some el_ascensor) (some c) w =
        if es_bajo f Texto c.visible
        then sube c.piso w
        else toma_ascensor f Texto ta al_bajo false w
    accion_en (some la_salida) (some c) w = salir_andando f Texto ta w
    accion_en (some (el_mueble mu)) (some c) w = (false, w)

    unfoldable pub accion : Option Objeto → Visita f Texto → Bool × Visita f Texto
    accion o w = accion_en o w.casa w

    abbrev pub entra_cercano : Option (Portal f) → Visita f Texto → Bool × Visita f Texto
    entra_cercano none w = (false, w)
    entra_cercano (some po) w =
        if puede_entrar f Texto ta w
        then entrar f Texto ta (some po) (record { inmediato = false; planta = none; obj = 0 }) w
        else (false, w)

    -- The keys with a piece of furniture selected.
    abbrev pub mueve_con :
        Option ((Bool × ℕ) × (Bool × ℕ))
        → Option ℕ
        → Casa f
        → Visita f Texto
        → Bool × Visita f Texto
    mueve_con none sel c w = (false, w)
    mueve_con (some d) sel c w =
        cambia_sel f Texto ta (movido f Texto (yaw_local f Texto c.po w.pie) d) sel c w

    abbrev pub tecla_sel : Tecla → Option ℕ → Casa f → Visita f Texto → Bool × Visita f Texto
    tecla_sel t_r sel c w = cambia_sel f Texto ta (girado_uno f Texto) sel c w
    tecla_sel t_suprimir sel c w = (true, record w { sel = none })
    tecla_sel t_retroceso sel c w = (true, record w { sel = none })
    tecla_sel k sel c w = mueve_con (adelante_de k) sel c w

    abbrev pub tecla_quieta :
        Tecla → Option ℕ → Option (Seq f) → Casa f → Visita f Texto → Bool × Visita f Texto
    tecla_quieta k (some id) none c w = tecla_sel k (some id) c w
    tecla_quieta k sel s c w = (false, w)

    abbrev pub tecla_f : Option (Seq f) → Visita f Texto → Bool × Visita f Texto
    tecla_f (some s) w = (true, w)
    tecla_f none w = (true, (accion (ma.objetivo w) w).1)

    abbrev pub tecla_dentro :
        Tecla → Option (Seq f) → Casa f → Visita f Texto → Bool × Visita f Texto
    tecla_dentro t_escape s c w = escape_en f Texto ta w.sel (some c) s w
    tecla_dentro t_f s c w = tecla_f s w
    tecla_dentro k s c w = tecla_quieta k w.sel s c w

    abbrev pub tecla_en :
        Option (Portal f)
        → Tecla
        → Option (Casa f)
        → Option (Seq f)
        → Visita f Texto
        → Bool × Visita f Texto
    tecla_en cercano k (some c) s w = tecla_dentro k s c w
    tecla_en cercano t_f none s w = entra_cercano cercano w
    tecla_en cercano k none s w = (false, w)

    -- The hook `tecla`, with the portal that is near.
    unfoldable pub gancho_tecla :
        Option (Portal f) → Tecla → Bool → Bool → Visita f Texto → Bool × Visita f Texto
    gancho_tecla cercano k repite abajo w =
        if abajo
        then (if repite && es_f k then (hay_casa w.casa, w) else tecla_en cercano k w.casa w.seq w)
        else (false, w)

    -- The hook `clic`, with what the ray touches.
    abbrev pub clic_en : Option Objeto → Option ℕ → Visita f Texto → Visita f Texto
    clic_en (some (el_mueble mu)) sel w = record w { sel = alterna mu sel }
    clic_en ob (some id) w = record w { sel = none }
    clic_en ob none w = (accion ob w).1

    abbrev pub clic_dentro :
        Option Objeto → Option (Seq f) → Casa f → Visita f Texto → Visita f Texto
    clic_dentro ob (some s) c w = w
    clic_dentro ob none c w = if c.entrado then clic_en ob w.sel w else w

    abbrev pub clic_fuera : Option (Portal f) → Visita f Texto → Bool × Visita f Texto
    clic_fuera none w = (false, w)
    clic_fuera (some po) w = if ma.toca_puerta po then entra_cercano (some po) w else (false, w)

    abbrev pub clic_con :
        Option (Portal f)
        → Option Objeto
        → Option (Casa f)
        → Option (Seq f)
        → Visita f Texto
        → Bool × Visita f Texto
    clic_con cercano ob (some c) s w = (true, clic_dentro ob s c w)
    clic_con cercano ob none s w = clic_fuera cercano w

    unfoldable pub gancho_clic :
        Option (Portal f) → Option Objeto → Visita f Texto → Bool × Visita f Texto
    gancho_clic cercano ob w = clic_con cercano ob w.casa w.seq w
