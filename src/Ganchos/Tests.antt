-- ===== src/Ganchos/Tests.antt =====
-- Three extensions: one answers 0, one throws, one answers the world.
use rami_ledger.Prelude.{
  ℕ, ◌+◌, Bool, not, ◌≡◌, refl, none, some, [], ◌∷◌, ◌++◌, ◌==◌, if◌then◌else◌,
}
use rami_ledger.Ganchos.{
  Texto, devuelve, lanza, Extension, Mundo, fallo_de, ext_llama, es_verdadero, emitir, emitir_hasta,
  emitir_valor,
}
use rami_ledger.Ganchos.Llamadas.{
  efectos, emitir-efectos, emitir_hasta_first, emitir_hasta-none, emitir_valor_last,
}
use rami_ledger.Ganchos.Fallos.{emitir_keeps}

-- Numbers are true but for 0.
abbrev cierto : ℕ → Bool
cierto n = not (n == 0)

abbrev cuenta : Extension ℕ ℕ ℕ
cuenta = record { nombre = b'a' ∷ []; ganchos = λ g. some (λ a w. (devuelve 0, w + a)) }

abbrev falla : Extension ℕ ℕ ℕ
falla = record { nombre = b'b' ∷ []; ganchos = λ g. some (λ a w. (lanza (b'!' ∷ []), w + 1)) }

abbrev responde : Extension ℕ ℕ ℕ
responde = record { nombre = b'c' ∷ []; ganchos = λ g. some (λ a w. (devuelve w, w)) }

abbrev gancho : Texto
gancho = b'g' ∷ []

abbrev mundo : Mundo ℕ
mundo = record { w = 5; fallos = [] }

abbrev roto : Mundo ℕ
roto = record { w = 5; fallos = (b'b' ∷ b'.' ∷ b'g' ∷ [], b'?' ∷ []) ∷ [] }

emitir-efectos_example :
    (emitir (falla ∷ cuenta ∷ []) gancho 3 mundo).w ≡ efectos gancho 3 (falla ∷ cuenta ∷ []) 5
emitir-efectos_example = emitir-efectos gancho 3 (falla ∷ cuenta ∷ []) mundo

emitir_hasta_first_case :
    emitir_hasta cierto ((falla ∷ cuenta ∷ []) ++ (responde ∷ falla ∷ [])) gancho 3 mundo
    ≡ ext_llama responde gancho 3 (emitir (falla ∷ cuenta ∷ []) gancho 3 mundo)
unfolding ext_llama emitir
emitir_hasta_first_case =
    emitir_hasta_first cierto gancho 3 (falla ∷ cuenta ∷ []) (falla ∷ []) responde mundo
      (refl, (refl, tt)) refl

emitir_hasta-none_case :
    emitir_hasta cierto (falla ∷ cuenta ∷ []) gancho 3 mundo
    ≡ (none, emitir (falla ∷ cuenta ∷ []) gancho 3 mundo)
unfolding ext_llama
emitir_hasta-none_case =
    emitir_hasta-none cierto gancho 3 (falla ∷ cuenta ∷ []) mundo (refl, (refl, tt))

emitir_valor_last_case : emitir_valor cierto ((responde ∷ []) ++ (cuenta ∷ [])) gancho 3 mundo ≡ (
  if es_verdadero cierto (some 0)
      then some 0
      else (emitir_valor cierto (responde ∷ []) gancho 3 mundo).0,
  emitir ((responde ∷ []) ++ (cuenta ∷ [])) gancho 3 mundo,
)
unfolding ext_llama
emitir_valor_last_case =
    emitir_valor_last cierto gancho 3 (responde ∷ []) cuenta mundo (some 0) refl

emitir_keeps_case :
    fallo_de (emitir (cuenta ∷ falla ∷ []) gancho 3 roto).fallos (b'b' ∷ b'.' ∷ b'g' ∷ [])
    ≡ b'?' ∷ []
emitir_keeps_case =
    emitir_keeps gancho 3 (cuenta ∷ falla ∷ []) roto (b'b' ∷ b'.' ∷ b'g' ∷ []) (λ e. cc)
