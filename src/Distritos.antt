-- ===== src/Distritos.antt =====
-- The districts of the grid in chain/crates/rami-gui/src/city3d.js: `esMar` and `districtOf`, for a
-- cell of natural coordinates.
pub mod Reparto
pub mod Tests
use rami_ledger.Prelude.{
  ℕ, ◌+◌, ◌*◌, Bool, true, false, not, ◌&&◌, Option, none, some, List, [], ◌∷◌, ltb, leb,
  if◌then◌else◌,
}

-- The key of a district; the two keys that name what is left of the grid stand apart.
pub data Clave : Type 0 where
  golfo desierto : Clave
  otra : List ℕ → Clave

pub record Zona : Type 0 where
  pub clave : Clave
  pub x0 : ℕ
  pub x1 : ℕ
  pub y0 : ℕ
  pub y1 : ℕ

abbrev pub es_mar : ℕ → ℕ → Bool
es_mar x y = ltb (63 * y + 3 * x) 819

abbrev pub es_resto : Clave → Bool
es_resto golfo = true
es_resto desierto = true
es_resto (otra c) = false

abbrev pub es_clave : Clave → Bool → Bool
es_clave golfo mar = mar
es_clave desierto mar = not mar
es_clave (otra c) mar = false

-- The two tests of the first loop.
abbrev pub cubre : ℕ → ℕ → Zona → Bool
cubre x y d = not (es_resto d.clave) && leb d.x0 x && leb x d.x1 && leb d.y0 y && leb y d.y1

unfoldable pub primera : (Zona → Bool) → List Zona → Option Zona
primera p [] = none
primera p (d ∷ ds) = let rest = primera p ds in if p d then some d else rest

abbrev pub o_si_no : Option Zona → Option Zona → Option Zona
o_si_no none b = b
o_si_no (some d) b = some d

-- The first loop, and the second one where it finds nothing.
unfoldable pub district_of : List Zona → ℕ → ℕ → Option Zona
unfolding primera
district_of ds x y =
    o_si_no (primera (cubre x y) ds) (primera (λ d. es_clave d.clave (es_mar x y)) ds)
