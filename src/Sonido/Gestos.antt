-- ===== src/Sonido/Gestos.antt =====
-- What holds of the sound whatever happens, what putting it off leads to, and what the first gesture does.
use rami_ledger.Prelude.{
  ℕ, zero, suc, ◌≡◌, refl, sym, subst, ap, ◌∙◌, Bool, true, false, not, ◌&&◌, Option, none, some,
  List, [], ◌∷◌, if◌then◌else◌, arith, length, replicate,
}
use rami_ledger.Sonido.{
  Audio, suspendido, corriendo, Equipo, EstadoSonido, es_si, empieza_sonido, alterna_sonido,
  primer_gesto, visibilidad, al_sonar, cumplido, vigia, Suceso, pulsa_boton, toca_boton, gesto, ve,
  reloj, atiende, segundo, sucede, suceden,
}

-- A sound that is on has a context, so have the calls that are under way, and no volume is heard of one
-- that is off.
abbrev pub Tiene : Bool → List Audio → Option Audio → Type 0
Tiene activo ps (some a) = Unit
Tiene true ps none = ⊥
Tiene false [] none = Unit
Tiene false (p ∷ ps) none = ⊥

abbrev pub Alto : Bool → Bool → Type 0
Alto alto true = Unit
Alto true false = ⊥
Alto false false = Unit

pub record IsSonido (s : EstadoSonido) : Type 0 where
  pub tiene : Tiene s.activo s.pedidos s.ac
  pub alto : Alto s.suena_alto s.activo
  pub escrito : s.activo ≡ true → s.pref ≡ some true

module _ (eq : Equipo) (stores : eq.almacena ≡ true) where
  toggle-IsSonido : (s : EstadoSonido) → IsSonido s → IsSonido (alterna_sonido eq s)
  unfolding alterna_sonido
  toggle-IsSonido s h = ground arith

  first-IsSonido : (b : Bool) (s : EstadoSonido) → IsSonido s → IsSonido (primer_gesto eq b s)
  unfolding primer_gesto
  first-IsSonido b s h =
      let t : EstadoSonido = record s { espera = false } in
      let t_is : IsSonido t = record { tiene = h.tiene; alto = h.alto; escrito = h.escrito } in
      by_gesture s.espera b (es_si s.pref && not s.activo) t t_is (toggle-IsSonido t t_is)
    where
      by_gesture :
          (w e c : Bool) (t : EstadoSonido)
          → IsSonido t
          → IsSonido (alterna_sonido eq t)
          → IsSonido (if w then (if e then t else (if c then alterna_sonido eq t else t)) else s)
      by_gesture false e c t k l = h
      by_gesture true true c t k l = k
      by_gesture true false true t k l = l
      by_gesture true false false t k l = k

  seen-IsSonido : (b : Bool) (s : EstadoSonido) → IsSonido s → IsSonido (visibilidad eq b s)
  unfolding visibilidad
  seen-IsSonido b s h = ground arith

  timer-IsSonido : (k : ℕ) (s : EstadoSonido) → IsSonido s → IsSonido (al_sonar eq k s)
  timer-IsSonido zero s h = h
  timer-IsSonido (suc k) s h = ground arith

  done-IsSonido : (ps : List Audio) (s : EstadoSonido) → IsSonido s → IsSonido (cumplido eq ps s)
  done-IsSonido [] s h = h
  done-IsSonido (p ∷ ps) s h = record { tiene = tt; alto = h.alto; escrito = h.escrito }

  watch-IsSonido : (b : Bool) (s : EstadoSonido) → IsSonido s → IsSonido (vigia eq b s)
  watch-IsSonido b s h = ground arith

  event-IsSonido : (e : Suceso) (s : EstadoSonido) → IsSonido s → IsSonido (sucede eq e s)
  unfolding sucede
  event-IsSonido pulsa_boton s h =
      toggle-IsSonido (primer_gesto eq true s) (first-IsSonido true s h)
  event-IsSonido toca_boton s h = first-IsSonido true s h
  event-IsSonido gesto s h = first-IsSonido false s h
  event-IsSonido (ve oculta) s h = seen-IsSonido oculta s h
  event-IsSonido reloj s h = timer-IsSonido s.relojes s h
  event-IsSonido atiende s h = done-IsSonido s.pedidos s h
  event-IsSonido (segundo tarde) s h = watch-IsSonido tarde s h

  events-IsSonido : (es : List Suceso) (s : EstadoSonido) → IsSonido s → IsSonido (suceden eq es s)
  events-IsSonido [] s h = h
  events-IsSonido (e ∷ es) s h = events-IsSonido es (sucede eq e s) (event-IsSonido e s h)

  -- Whatever happens to a page that was just loaded, and whenever the browser carries out the calls of
  -- `resume()` and `suspend()`: a sound that is on has a context and is written down as on; none is heard
  -- of one that is off; and no call is under way without a context. Here the browser keeps what is
  -- written.
  pub suceden-IsSonido :
      (es : List Suceso) (pref : Option Bool) → IsSonido (suceden eq es (empieza_sonido pref))
  suceden-IsSonido es pref =
      events-IsSonido es (empieza_sonido pref)
        (record { tiene = tt; alto = tt; escrito = λ e. cc e })

  -- A state with the sound off, a context, and a timer that is to suspend it.
  abbrev apagado : Bool → Option Bool → Bool → Audio → List Audio → ℕ → EstadoSonido
  apagado alto pref espera a ps k = record {
    ac = some a;
    pedidos = ps;
    activo = false;
    suena_alto = alto;
    pref = pref;
    espera = espera;
    relojes = suc k;
  }

  abbrev EstaApagado : EstadoSonido → Type 0
  EstaApagado s =
      (alto : Bool) × (pref : Option Bool) × (espera : Bool) × (a : Audio) × (ps : List Audio)
      × (k : ℕ) × (s ≡ apagado alto pref espera a ps k)

  off_from :
      (ac : Option Audio) (espera : Bool) (s : EstadoSonido)
      → Tiene true s.pedidos ac
      → EstaApagado (sucede eq pulsa_boton (record s { ac = ac; activo = true; espera = espera }))
  unfolding sucede primer_gesto alterna_sonido
  off_from none espera s h = elim h [ ]
  off_from (some a) true s h = (_, _, false, a, s.pedidos, s.relojes, refl)
  off_from (some a) false s h = (_, _, false, a, s.pedidos, s.relojes, refl)

  drained :
      (alto : Bool) (pref : Option Bool) (espera : Bool) (a : Audio) (ps : List Audio) (k : ℕ)
      → (suceden eq
          (reloj ∷ atiende ∷ [])
          (suceden eq (replicate (length ps) atiende) (apagado alto pref espera a ps k))).ac
        ≡ some suspendido
  unfolding sucede
  drained alto pref espera suspendido [] k = refl
  drained alto pref espera corriendo [] k = refl
  drained alto pref espera a (p ∷ ps) k = drained alto pref espera p ps k

  quiet :
      (s : EstadoSonido)
      → EstaApagado s
      → (suceden eq (reloj ∷ atiende ∷ []) (suceden eq (replicate (length s.pedidos) atiende) s)).ac
        ≡ some suspendido
  quiet s (alto, pref, espera, a, ps, k, e) =
      subst
        (λ (t : EstadoSonido).
          (suceden eq (reloj ∷ atiende ∷ [])
            (suceden eq (replicate (length t.pedidos) atiende) t)).ac
          ≡ some suspendido)
        (sym e) (drained alto pref espera a ps k)

  -- A sound that is on, whatever happened before, and is put off with its button leaves its context
  -- suspended, if the browser has carried out the calls that were under way when the timer of 400 ms
  -- ends, and then carries out the call of that. Here the browser keeps what is written.
  pub pulsa_boton-suspendido :
      (es : List Suceso) (pref : Option Bool)
      → (suceden eq es (empieza_sonido pref)).activo ≡ true
      → let t = sucede eq pulsa_boton (suceden eq es (empieza_sonido pref)) in
        (suceden eq (reloj ∷ atiende ∷ []) (suceden eq (replicate (length t.pedidos) atiende) t)).ac
        ≡ some suspendido
  pulsa_boton-suspendido es pref on =
      let s = suceden eq es (empieza_sonido pref) in
      let h = suceden-IsSonido es pref in
      let has : Tiene true s.pedidos s.ac = subst (λ b. Tiene b s.pedidos s.ac) on h.tiene in
      quiet (sucede eq pulsa_boton s) (
        subst (λ b. EstaApagado (sucede eq pulsa_boton (record s { activo = b }))) (sym on)
          (off_from s.ac s.espera s has))

  -- Touches of the button that are no clicks, one at least, leave the page as with no listener.
  abbrev tras_toques : ℕ → EstadoSonido
  tras_toques zero = empieza_sonido (some true)
  tras_toques (suc n) = record (empieza_sonido (some true)) { espera = false }

  touched :
      (n : ℕ) (s : EstadoSonido)
      → let t : EstadoSonido = record s { espera = false } in
        suceden eq (replicate n toca_boton) t ≡ t
  unfolding sucede primer_gesto
  touched zero s = refl
  touched (suc n) s = touched n s

  touches :
      (n : ℕ) → suceden eq (replicate n toca_boton) (empieza_sonido (some true)) ≡ tras_toques n
  unfolding sucede primer_gesto
  touches zero = refl
  touches (suc n) = touched n (empieza_sonido (some true))

  click_on : (n : ℕ) → eq.con_audio ≡ true → (sucede eq pulsa_boton (tras_toques n)).activo ≡ true
  unfolding sucede primer_gesto alterna_sonido
  click_on zero a = by_state eq.nace
    where
      by_state :
          (x : Audio) → (sucede (record eq { nace = x }) pulsa_boton (tras_toques 0)).activo ≡ true
      by_state suspendido = rw a refl
      by_state corriendo = rw a refl
  click_on (suc n) a = by_state eq.nace
    where
      by_state :
          (x : Audio)
          → (sucede (record eq { nace = x }) pulsa_boton (tras_toques (suc n))).activo ≡ true
      by_state suspendido = rw a refl
      by_state corriendo = rw a refl

  gesture_on : eq.con_audio ≡ true → (sucede eq gesto (empieza_sonido (some true))).activo ≡ true
  unfolding sucede primer_gesto alterna_sonido
  gesture_on a = by_state eq.nace
    where
      by_state :
          (x : Audio)
          → (sucede (record eq { nace = x }) gesto (empieza_sonido (some true))).activo ≡ true
      by_state suspendido = rw a refl
      by_state corriendo = rw a refl

  -- A sound that is on when the page is left, whatever happened before, comes back on the page that is
  -- loaded then: with the first gesture of all, if it is not on the button of the sound; and with the first
  -- click of the button, however often the button was touched before with no click. Here the browser has
  -- an `AudioContext` and keeps what is written.
  pub sucede-empieza_sonido :
      (es : List Suceso) (pref : Option Bool) (n : ℕ)
      → eq.con_audio ≡ true
      → (suceden eq es (empieza_sonido pref)).activo ≡ true
      → let s = empieza_sonido (suceden eq es (empieza_sonido pref)).pref in
        ((sucede eq gesto s).activo ≡ true)
        × ((sucede eq pulsa_boton (suceden eq (replicate n toca_boton) s)).activo ≡ true)
  sucede-empieza_sonido es pref n a on =
      let kept = (suceden-IsSonido es pref).escrito on in
      subst
        (λ (o : Option Bool).
          ((sucede eq gesto (empieza_sonido o)).activo ≡ true)
          × ((sucede eq pulsa_boton (suceden eq (replicate n toca_boton) (empieza_sonido o))).activo
              ≡ true))
        (sym kept)
        (
          gesture_on a,
          ap (λ (s : EstadoSonido). (sucede eq pulsa_boton s).activo) (touches n) ∙ click_on n a,
        )
