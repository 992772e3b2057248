-- ===== src/Ganchos.antt =====
-- The extension hooks of chain/crates/rami-gui/src/city3d.js: `extLlama`, `emitir`, `emitirHasta`
-- and `emitirValor`. The extensions' own code is a parameter: a hook takes the arguments and the
-- state of the world, and returns or throws.
pub mod Llamadas
pub mod Fallos
pub mod Tests
use rami_ledger.Prelude.{
  ℕ, Bool, true, false, ◌&&◌, ◌==◌, Option, none, some, List, [], ◌∷◌, ◌++◌, if◌then◌else◌,
}

-- Texts are lists of code units.
abbrev pub Texto : Type 0
Texto = List ℕ

abbrev pub igual : Texto → Texto → Bool
igual [] [] = true
igual [] (y ∷ ys) = false
igual (x ∷ xs) [] = false
igual (x ∷ xs) (y ∷ ys) = x == y && igual xs ys

-- How a hook ends; what it throws is the text that the console shows.
pub data Salida (V : Type 0) : Type 0 where
  devuelve : V → Salida V
  lanza : Texto → Salida V

abbrev pub Gancho : Type 0 → Type 0 → Type 0 → Type 0
Gancho W A V = A → W → Salida V × W

-- An extension: its name and its hooks, by theirs.
pub record Extension (W A V : Type 0) : Type 0 where
  pub nombre : Texto
  pub ganchos : Texto → Option (Gancho W A V)

-- The world and `extFallos`, in which a missing key reads as the empty text.
pub record Mundo (W : Type 0) : Type 0 where
  pub w : W
  pub fallos : List (Texto × Texto)

abbrev pub fallo_de : List (Texto × Texto) → Texto → Texto
fallo_de [] k = []
fallo_de ((k', m) ∷ fs) k = if igual k' k then m else fallo_de fs k

abbrev pub es_vacio : Texto → Bool
es_vacio [] = true
es_vacio (x ∷ xs) = false

abbrev pub clave : Texto → Texto → Texto
clave nombre gancho = nombre ++ (b'.' ∷ gancho)

-- What `extLlama` makes of the end of a hook; `undefined` is `none`.
abbrev pub anota : {W V : Type 0} → Texto → List (Texto × Texto) → Salida V × W → Option V × Mundo W
anota k fs (devuelve v, w) = (some v, record { w = w; fallos = fs })
anota k fs (lanza m, w) =
    (none, record { w = w; fallos = if es_vacio (fallo_de fs k) then (k, m) ∷ fs else fs })

abbrev pub es_verdadero : {V : Type 0} → (V → Bool) → Option V → Bool
es_verdadero verdadero none = false
es_verdadero verdadero (some v) = verdadero v

module _ {W A V : Type 0} where
  abbrev pub llama : Texto → A → Mundo W → Option (Gancho W A V) → Option V × Mundo W
  llama k args s none = (none, s)
  llama k args s (some f) = anota k s.fallos (f args s.w)

  unfoldable pub ext_llama : Extension W A V → Texto → A → Mundo W → Option V × Mundo W
  ext_llama e gancho args s = llama (clave e.nombre gancho) args s (e.ganchos gancho)

  unfoldable pub emitir : List (Extension W A V) → Texto → A → Mundo W → Mundo W
  emitir [] gancho args s = s
  emitir (e ∷ ext) gancho args s = emitir ext gancho args (ext_llama e gancho args s).1

module _ {W A V : Type 0} (verdadero : V → Bool) where
  -- `none` stands for the source's `false`.
  unfoldable pub emitir_hasta : List (Extension W A V) → Texto → A → Mundo W → Option V × Mundo W
  emitir_hasta [] gancho args s = (none, s)
  emitir_hasta (e ∷ ext) gancho args s =
      let (r, s') = ext_llama e gancho args s in
      let rest = emitir_hasta ext gancho args s' in
      if es_verdadero verdadero r then (r, s') else rest

  -- The loop of `emitirValor` from the value `out` on; `none` stands for `null`.
  unfoldable pub valor_loop :
      List (Extension W A V) → Texto → A → Option V → Mundo W → Option V × Mundo W
  valor_loop [] gancho args out s = (out, s)
  valor_loop (e ∷ ext) gancho args out s =
      let (r, s') = ext_llama e gancho args s in
      valor_loop ext gancho args (if es_verdadero verdadero r then r else out) s'

  unfoldable pub emitir_valor : List (Extension W A V) → Texto → A → Mundo W → Option V × Mundo W
  emitir_valor ext gancho args s = valor_loop ext gancho args none s
