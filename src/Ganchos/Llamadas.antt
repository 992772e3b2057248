-- ===== src/Ganchos/Llamadas.antt =====
-- An extension that throws stops no other, and what the loops over the extensions return.
use mathlib.Core.Path.{ap₂}
use rami_ledger.Prelude.{
  Bool, true, false, ◌≡◌, refl, ◌∙◌, ap, Option, none, some, List, [], ◌∷◌, ◌++◌, if◌then◌else◌,
}
use rami_ledger.Ganchos.{
  Texto, Salida, devuelve, lanza, Extension, Mundo, clave, Gancho, anota, llama, ext_llama, emitir,
  es_verdadero, emitir_hasta, valor_loop, emitir_valor,
}

anota-w :
    {W V : Type 0} (k : Texto) (fs : List (Texto × Texto)) (r : Salida V × W)
    → (anota k fs r).1.w ≡ r.1
anota-w k fs (devuelve v, w) = refl
anota-w k fs (lanza m, w) = refl

module _ {W A V : Type 0} (gancho : Texto) (args : A) where
  -- What the hook of one extension does to the world, whether it returns or throws.
  abbrev pub efecto_de : Option (A → W → Salida V × W) → W → W
  efecto_de none w = w
  efecto_de (some f) w = (f args w).1

  abbrev pub efectos : List (Extension W A V) → W → W
  efectos [] w = w
  efectos (e ∷ ext) w = efectos ext (efecto_de (e.ganchos gancho) w)

  llama-efecto :
      (k : Texto) (s : Mundo W) (o : Option (Gancho W A V))
      → (llama k args s o).1.w ≡ efecto_de o s.w
  llama-efecto k s none = refl
  llama-efecto k s (some f) = anota-w k s.fallos (f args s.w)

  ext_llama-efecto :
      (e : Extension W A V) (s : Mundo W)
      → (ext_llama e gancho args s).1.w ≡ efecto_de (e.ganchos gancho) s.w
  unfolding ext_llama
  ext_llama-efecto e s = llama-efecto (clave e.nombre gancho) s (e.ganchos gancho)

  -- `emitir` carries out the hook of every extension, in their order: one that throws stops no other.
  pub emitir-efectos :
      (ext : List (Extension W A V)) (s : Mundo W) → (emitir ext gancho args s).w ≡ efectos ext s.w
  unfolding emitir
  emitir-efectos [] s = refl
  emitir-efectos (e ∷ ext) s =
      emitir-efectos ext (ext_llama e gancho args s).1 ∙ ap (efectos ext) (ext_llama-efecto e s)

module _ {W A V : Type 0} (verdadero : V → Bool) (gancho : Texto) (args : A) where
  -- No extension of the list returns a value that counts as true, one called behind the other.
  abbrev pub IsSilent : List (Extension W A V) → Mundo W → Type 0
  IsSilent [] s = Unit
  IsSilent (e ∷ ext) s =
      (es_verdadero verdadero (ext_llama e gancho args s).0 ≡ false)
      × IsSilent ext (ext_llama e gancho args s).1

  -- `emitirHasta` returns the value of the first extension whose value counts as true, and calls
  -- none behind it.
  pub emitir_hasta_first :
      (pre post : List (Extension W A V)) (e : Extension W A V) (s : Mundo W)
      → IsSilent pre s
      → es_verdadero verdadero (ext_llama e gancho args (emitir pre gancho args s)).0 ≡ true
      → emitir_hasta verdadero (pre ++ (e ∷ post)) gancho args s
        ≡ ext_llama e gancho args (emitir pre gancho args s)
  unfolding emitir_hasta emitir
  emitir_hasta_first [] post e s h v = rw v refl
  emitir_hasta_first (p ∷ pre) post e s (h, hs) v =
      rw h (emitir_hasta_first pre post e (ext_llama p gancho args s).1 hs v)

  -- If no extension returns a value that counts as true, all are called, and the answer is false.
  pub emitir_hasta-none :
      (ext : List (Extension W A V)) (s : Mundo W)
      → IsSilent ext s
      → emitir_hasta verdadero ext gancho args s ≡ (none, emitir ext gancho args s)
  unfolding emitir_hasta emitir
  emitir_hasta-none [] s h = refl
  emitir_hasta-none (e ∷ ext) s (h, hs) =
      rw h (emitir_hasta-none ext (ext_llama e gancho args s).1 hs)

  valor_loop-append :
      (ext : List (Extension W A V)) (e : Extension W A V) (out : Option V) (s : Mundo W)
      → valor_loop verdadero (ext ++ (e ∷ [])) gancho args out s
        ≡ valor_loop verdadero
            (e ∷ [])
            gancho
            args
            (valor_loop verdadero ext gancho args out s).0
            (valor_loop verdadero ext gancho args out s).1
  unfolding valor_loop
  valor_loop-append [] e out s = refl
  valor_loop-append (x ∷ ext) e out s = valor_loop-append ext e _ _

  valor_last :
      (e : Extension W A V) (out : Option V) (s : Mundo W)
      → (valor_loop verdadero (e ∷ []) gancho args out s).0
        ≡ (let r = (ext_llama e gancho args s).0 in if es_verdadero verdadero r then r else out)
  unfolding valor_loop
  valor_last e out s = refl

  valor_loop-emitir :
      (ext : List (Extension W A V)) (out : Option V) (s : Mundo W)
      → (valor_loop verdadero ext gancho args out s).1 ≡ emitir ext gancho args s
  unfolding valor_loop emitir
  valor_loop-emitir [] out s = refl
  valor_loop-emitir (x ∷ ext) out s = valor_loop-emitir ext _ _

  -- `emitirValor` calls all the extensions as `emitir` does, and the last one has the last word: its
  -- value is the answer if it counts as true, else the answer is that of the extensions before it.
  pub emitir_valor_last :
      (ext : List (Extension W A V)) (e : Extension W A V) (s : Mundo W) (r : Option V)
      → (ext_llama e gancho args (emitir ext gancho args s)).0 ≡ r
      → emitir_valor verdadero (ext ++ (e ∷ [])) gancho args s ≡ (
        if es_verdadero verdadero r then r else (emitir_valor verdadero ext gancho args s).0,
        emitir (ext ++ (e ∷ [])) gancho args s,
      )
  unfolding emitir_valor
  emitir_valor_last ext e s r h =
      let before = valor_loop-emitir ext none s in
      let last = ap (λ (m : Mundo W). (ext_llama e gancho args m).0) before ∙ h in
      ap₂ (λ (x : Option V) (m : Mundo W). (x, m))
        (ap (λ (p : Option V × Mundo W). p.0) (valor_loop-append ext e none s)
          ∙ valor_last e (valor_loop verdadero ext gancho args none s).0 _
          ∙ ap
              (λ (x : Option V).
                if es_verdadero verdadero x
                then x
                else (valor_loop verdadero ext gancho args none s).0)
              last)
        (valor_loop-emitir (ext ++ (e ∷ [])) none s)
