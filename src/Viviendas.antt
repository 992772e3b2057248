-- ===== src/Viviendas.antt =====
-- The numbering of the homes of a building in chain/crates/rami-gui/src/city/umbral.js:
-- `sitioUnidad` and `numeroUnidad`. The plan of a building is its floors, from below, and the homes
-- on each; numbers are natural numbers below 2 ^ 31, on which `| 0` does nothing.
pub mod Numeros
pub mod Tests
use rami_ledger.Prelude.{
  ℕ, zero, suc, ◌+◌, ◌-◌, ◌*◌, ◌/◌, ◌%◌, Option, none, some, List, [], ◌∷◌, leb, ◌==◌,
  if◌then◌else◌, get_elem?,
}

pub record Plan : Type 0 where
  pub plantas : List ℕ
  pub upp : ℕ

pub record Sitio : Type 0 where
  pub planta : ℕ
  pub slot : ℕ

-- `plan.plantas.indexOf(planta)`; `none` stands for -1.
unfoldable pub index_of : List ℕ → ℕ → Option ℕ
index_of [] planta = none
index_of (p ∷ plantas) planta =
    let rest = index_of plantas planta in
    if p == planta then some 0 else elim rest [ none ↦ none | some i ↦ some (i + 1) ]

-- The place of the floor `f`, where there is one.
abbrev pub en_planta : Option ℕ → ℕ → Option Sitio
en_planta none slot = none
en_planta (some p) slot = some (record { planta = p; slot = slot })

-- The home `n`, from 1 on: the index -1 of the number 0 has no place.
unfoldable pub sitio_unidad : Plan → ℕ → Option Sitio
sitio_unidad plan zero = none
sitio_unidad plan (suc idx) = en_planta (get_elem? plan.plantas (idx / plan.upp)) (idx % plan.upp)

abbrev pub numero_en : Option ℕ → ℕ → ℕ → ℕ
numero_en none upp slot = 0
numero_en (some f) upp slot = f * upp + slot + 1

unfoldable pub numero_unidad : Plan → ℕ → ℕ → ℕ
numero_unidad plan planta slot = numero_en (index_of plan.plantas planta) plan.upp slot
