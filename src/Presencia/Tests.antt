-- ===== src/Presencia/Tests.antt =====
-- A visitor who stays, one who leaves, and two entries of a new one, in whole numbers.
use rami_ledger.Prelude.{
  ℕ, ◌≡◌, refl, Bool, true, false, Option, none, some, List, [], ◌∷◌, ◌==◌, ◌||◌, if◌then◌else◌,
  arith,
}
use rami_ledger.Flotantes.{pos}
use rami_ledger.Flotantes.Enteros.{enteros}
use rami_ledger.Presencia.{hay_avatar, Anuncio, Avatares, Suelo, nuevo, set_presence}
use rami_ledger.Presencia.Lista.{AlDia, claves, set_presence-AlDia}

abbrev suelo : Suelo enteros
suelo = record { local_to_world = λ x y. (x, y); ground_h = λ x z. pos 1; fase = λ i. pos i }

abbrev anuncio : ℕ → Bool → Anuncio enteros
anuncio k yo = record {
  pk = k;
  me = yo;
  x = pos k;
  y = pos 2;
  yaw = pos 0;
  name = 65 ∷ [];
  handle = [];
  verified = false;
  color = 0;
  style = 0;
  avatar = 6;
}

abbrev dos : Avatares enteros
dos = record {
  avatars =
      λ k. if k == 3 || k == 5 then some (nuevo enteros suelo true 0 (anuncio k false)) else none;
  orden = 3 ∷ 5 ∷ [];
  vistos = λ k. false;
  cambia = false;
}

abbrev lista : List (Option (Anuncio enteros))
lista =
    some (anuncio 7 false)
    ∷ none
    ∷ some (anuncio 1 true)
    ∷ some (anuncio 5 false)
    ∷ some (anuncio 7 false)
    ∷ []

abbrev tras : Bool × Avatares enteros
tras = set_presence enteros suelo true lista dos

order_after : tras.1.orden ≡ 5 ∷ 7 ∷ []
unfolding set_presence
order_after = refl

labels_again : tras.0 ≡ true
unfolding set_presence
labels_again = refl

set_presence-AlDia_example : AlDia enteros suelo true dos (claves enteros suelo true lista) tras.1
set_presence-AlDia_example =
    set_presence-AlDia enteros suelo true lista dos
      (record { presentes = there; sin_repetir = (refl, (refl, tt)) })
  where
    there :
        (k : ℕ)
        → hay_avatar
            (if k == 3 || k == 5 then some (nuevo enteros suelo true 0 (anuncio k false)) else none)
          ≡ (k == 3 || (k == 5 || false))
    there k = ground arith
