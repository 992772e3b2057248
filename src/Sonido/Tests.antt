-- ===== src/Sonido/Tests.antt =====
-- A page that is left with the sound on, and loaded again.
use rami_ledger.Prelude.{◌≡◌, refl, true, false, none, some, List, [], ◌∷◌, length, replicate}
use rami_ledger.Sonido.{
  suspendido, corriendo, Equipo, EstadoSonido, empieza_sonido, alterna_sonido, primer_gesto,
  visibilidad, Suceso, pulsa_boton, toca_boton, gesto, ve, reloj, atiende, sucede, suceden,
}
use rami_ledger.Sonido.Gestos.{
  IsSonido, suceden-IsSonido, pulsa_boton-suspendido, sucede-empieza_sonido,
}

abbrev equipo : Equipo
equipo = record { con_audio = true; nace = suspendido; almacena = true }

abbrev tarde : List Suceso
tarde =
    gesto
    ∷ pulsa_boton
    ∷ atiende
    ∷ ve true
    ∷ ve false
    ∷ atiende
    ∷ pulsa_boton
    ∷ reloj
    ∷ pulsa_boton
    ∷ atiende
    ∷ []

abbrev dejado : EstadoSonido
dejado = suceden equipo tarde (empieza_sonido none)

suceden-IsSonido_example : IsSonido (suceden equipo tarde (empieza_sonido none))
suceden-IsSonido_example = suceden-IsSonido equipo refl tarde none

left_on : dejado.activo ≡ true
unfolding sucede alterna_sonido primer_gesto visibilidad
left_on = refl

pulsa_boton-suspendido_example :
    let t = sucede equipo pulsa_boton dejado in
    (suceden equipo
      (reloj ∷ atiende ∷ [])
      (suceden equipo (replicate (length t.pedidos) atiende) t)).ac
    ≡ some suspendido
pulsa_boton-suspendido_example = pulsa_boton-suspendido equipo refl tarde none left_on

-- The browser carries out a `resume()` when the timer has ended already: the context runs on, with the
-- sound off and nothing that is to suspend it.
late_resume :
    let s =
      suceden equipo (pulsa_boton ∷ pulsa_boton ∷ reloj ∷ atiende ∷ []) (empieza_sonido none) in
    (s.ac ≡ some corriendo) × (s.activo ≡ false) × (s.relojes ≡ 0) × (s.pedidos ≡ [])
unfolding sucede alterna_sonido primer_gesto visibilidad
late_resume = (refl, refl, refl, refl)

-- Behind a touch of the button that is no click, a gesture elsewhere does not bring the sound back.
touched_first :
    (suceden equipo (toca_boton ∷ gesto ∷ []) (empieza_sonido (some true))).activo ≡ false
unfolding sucede alterna_sonido primer_gesto visibilidad
touched_first = refl

sucede-empieza_sonido_example :
    let s = empieza_sonido dejado.pref in
    ((sucede equipo gesto s).activo ≡ true)
    × ((sucede equipo pulsa_boton (suceden equipo (replicate 2 toca_boton) s)).activo ≡ true)
sucede-empieza_sonido_example = sucede-empieza_sonido equipo refl tarde none 2 refl left_on
