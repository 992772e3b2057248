-- ===== src/Flotantes.antt =====
-- The numbers of JavaScript, as the geometry of the city uses them: a parameter, with the operations
-- of the language and of `Math`; what is done on integers alone is written out on `ℤ`.
pub mod Enteros
use rami_ledger.Prelude.{ℕ, zero, suc, ◌-◌, Bool, true, false, leb, if◌then◌else◌}

pub data ℤ : Type 0 where
  pos : ℕ → ℤ
  negsuc : ℕ → ℤ

-- `menor` is `<` and `alcanza` is `>=`; `suelo` is `Math.floor`, `redondo` `Math.round`, `finito`
-- `isFinite`, `hipot` `Math.hypot`, `arco` `Math.atan2`, `tangente` `Math.tan`,
-- `potencia` `Math.pow`, `pi` `Math.PI`.
pub record Flotantes : Type 1 where
  pub N : Type 0
  pub de : ℕ → N
  pub mas : N → N → N
  pub menos : N → N → N
  pub por : N → N → N
  pub entre : N → N → N
  pub opuesto : N → N
  pub raiz : N → N
  pub seno : N → N
  pub coseno : N → N
  pub menor : N → N → Bool
  pub alcanza : N → N → Bool
  pub suelo : N → ℤ
  pub redondo : N → N
  pub finito : N → Bool
  pub hipot : N → N → N
  pub arco : N → N → N
  pub tangente : N → N
  pub potencia : N → N → N
  pub pi : N

-- `Math.max(0, z)`, and `Math.min(n, z)` for a natural `n`.
abbrev pub desde_cero : ℤ → ℕ
desde_cero (pos n) = n
desde_cero (negsuc n) = 0

abbrev pub hasta_tope : ℕ → ℤ → ℤ
hasta_tope top (pos n) = pos (if leb top n then top else n)
hasta_tope top (negsuc n) = negsuc n

module _ (f : Flotantes) where
  abbrev pub cero : f.N
  cero = f.de 0

  -- `Math.abs`
  abbrev pub modulo : f.N → f.N
  modulo x = if f.menor x cero then f.opuesto x else x

  -- `clamp`
  abbrev pub clamp : f.N → f.N → f.N → f.N
  clamp v a b = if f.menor v a then a else (if f.menor b v then b else v)

  -- `Math.sqrt(a * a + b * b)`
  abbrev pub hipotenusa : f.N → f.N → f.N
  hipotenusa a b = f.raiz (f.mas (f.por a a) (f.por b b))

  -- `Math.min`, `Math.max`
  abbrev pub el_menor : f.N → f.N → f.N
  el_menor a b = if f.menor b a then b else a

  abbrev pub el_mayor : f.N → f.N → f.N
  el_mayor a b = if f.menor a b then b else a

  -- `lerp`
  abbrev pub lerp : f.N → f.N → f.N → f.N
  lerp a b t = f.mas a (f.por (f.menos b a) t)

  -- A decimal number, `a / b`.
  abbrev pub decimal : ℕ → ℕ → f.N
  decimal a b = f.entre (f.de a) (f.de b)
