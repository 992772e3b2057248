-- ===== src/Sonido.antt =====
-- The sound (city/extras.js): `creaAudio` but for its graph, `alternaSonido`, `aplicaVolumen`,
-- `primerGesto`, `visibilidad`, the timer that suspends and the watch that silences.
pub mod Gestos
pub mod Tests
use rami_ledger.Prelude.{
  ℕ, zero, suc, Bool, true, false, not, ◌&&◌, ◌||◌, Option, none, some, List, [], ◌∷◌, ◌++◌,
  if◌then◌else◌,
}

-- The state of an `AudioContext`.
pub data Audio : Type 0 where
  suspendido corriendo : Audio

-- What the browser gives: an `AudioContext` or none, the state in which it is born, and whether it keeps
-- what is written.
pub record Equipo : Type 0 where
  pub con_audio : Bool
  pub nace : Audio
  pub almacena : Bool

-- The state that `snd.ac` tells, the calls of its `resume()` and `suspend()` that the browser has not carried
-- out yet, in their order (`corriendo` is a `resume()`), `snd.activo`, whether the master volume goes to the volume, `rami.sonido` in the browser, the
-- two listeners of the first gesture, and the timers that are to suspend.
pub record EstadoSonido : Type 0 where
  pub ac : Option Audio
  pub pedidos : List Audio
  pub activo : Bool
  pub suena_alto : Bool
  pub pref : Option Bool
  pub espera : Bool
  pub relojes : ℕ

abbrev pub es_si : Option Bool → Bool
es_si none = false
es_si (some b) = b

-- The module begins: the listeners are there if the sound was on.
abbrev pub empieza_sonido : Option Bool → EstadoSonido
empieza_sonido pref = record {
  ac = none;
  pedidos = [];
  activo = false;
  suena_alto = false;
  pref = pref;
  espera = es_si pref;
  relojes = 0;
}

abbrev pub hay_audio : Option Audio → Bool
hay_audio none = false
hay_audio (some a) = true

-- A press of the button that is a click is a gesture first; `toca_boton` is one that is no click: it ends
-- elsewhere, or is of another button of the mouse or another key. `atiende` is the browser that carries out
-- the oldest call.
pub data Suceso : Type 0 where
  pulsa_boton : Suceso
  toca_boton : Suceso
  gesto : Suceso
  ve : Bool → Suceso
  reloj : Suceso
  atiende : Suceso
  segundo : Bool → Suceso

module _ (eq : Equipo) where
  -- `creaAudio`
  abbrev pub crea_audio : Option Audio → EstadoSonido → Bool × EstadoSonido
  crea_audio (some a) s = (true, s)
  crea_audio none s = if eq.con_audio then (true, record s { ac = some eq.nace }) else (false, s)

  -- `ac.resume()` and `ac.suspend()` are promises: `ac.state` changes later.
  abbrev pub pide : Audio → EstadoSonido → EstadoSonido
  pide a s = record s { pedidos = s.pedidos ++ (a ∷ []) }

  abbrev pub corre_ya : Option Audio → Bool
  corre_ya none = false
  corre_ya (some suspendido) = false
  corre_ya (some corriendo) = true

  abbrev pub reanuda : EstadoSonido → EstadoSonido
  reanuda s = if corre_ya s.ac then s else pide corriendo s

  -- `lsPon`, and `aplicaVolumen`
  abbrev pub guarda_pref : EstadoSonido → EstadoSonido
  guarda_pref s = record s { pref = if eq.almacena then some s.activo else s.pref }

  abbrev pub aplica_volumen : EstadoSonido → EstadoSonido
  aplica_volumen s = record s { suena_alto = if hay_audio s.ac then s.activo else s.suena_alto }

  abbrev pub enciende_si : Bool × EstadoSonido → EstadoSonido
  enciende_si (false, s) = s
  enciende_si (true, s) = aplica_volumen (guarda_pref (reanuda (record s { activo = true })))

  abbrev pub apaga_sonido : EstadoSonido → EstadoSonido
  apaga_sonido s =
      let t : EstadoSonido = aplica_volumen (guarda_pref (record s { activo = false })) in
      record t { relojes = if hay_audio s.ac then suc s.relojes else s.relojes }

  -- `alternaSonido`
  unfoldable pub alterna_sonido : EstadoSonido → EstadoSonido
  alterna_sonido s = if s.activo then apaga_sonido s else enciende_si (crea_audio s.ac s)

  -- `primerGesto`: on the button of the sound, or elsewhere.
  unfoldable pub primer_gesto : Bool → EstadoSonido → EstadoSonido
  primer_gesto en_boton s =
      let t : EstadoSonido = record s { espera = false } in
      if s.espera
      then (if en_boton then t else (if es_si s.pref && not s.activo then alterna_sonido t else t))
      else s

  -- `visibilidad`
  unfoldable pub visibilidad : Bool → EstadoSonido → EstadoSonido
  visibilidad oculta s =
      if hay_audio s.ac
      then (if oculta then pide suspendido s else (if s.activo then pide corriendo s else s))
      else s

  -- The timer of `alternaSonido`, 400 ms later, and the watch of every second.
  abbrev pub al_sonar : ℕ → EstadoSonido → EstadoSonido
  al_sonar zero s = s
  al_sonar (suc k) s =
      let t : EstadoSonido = record s { relojes = k } in
      if not s.activo && corre_ya s.ac then pide suspendido t else t

  abbrev pub cumplido : List Audio → EstadoSonido → EstadoSonido
  cumplido [] s = s
  cumplido (a ∷ bs) s = record s { ac = some a; pedidos = bs }

  abbrev pub vigia : Bool → EstadoSonido → EstadoSonido
  vigia tarde s = record s {
    suena_alto = if (hay_audio s.ac && s.activo) && tarde then false else s.suena_alto;
  }

  unfoldable pub sucede : Suceso → EstadoSonido → EstadoSonido
  sucede pulsa_boton s = alterna_sonido (primer_gesto true s)
  sucede toca_boton s = primer_gesto true s
  sucede gesto s = primer_gesto false s
  sucede (ve oculta) s = visibilidad oculta s
  sucede reloj s = al_sonar s.relojes s
  sucede atiende s = cumplido s.pedidos s
  sucede (segundo tarde) s = vigia tarde s

  abbrev pub suceden : List Suceso → EstadoSonido → EstadoSonido
  suceden [] s = s
  suceden (e ∷ es) s = suceden es (sucede e s)
