-- ===== src/Distritos/Tests.antt =====
-- A grid with one district.
use rami_ledger.Prelude.{◌≡◌, refl, some, [], ◌∷◌, ◌++◌}
use rami_ledger.Distritos.{Zona, golfo, desierto, otra, district_of}
use rami_ledger.Distritos.Reparto.{district_of_first, district_of_rest}

abbrev mar : Zona
mar = record { clave = golfo; x0 = 0; x1 = 62; y0 = 0; y1 = 62 }

abbrev arena : Zona
arena = record { clave = desierto; x0 = 0; x1 = 62; y0 = 0; y1 = 62 }

abbrev marina : Zona
marina = record { clave = otra (b'm' ∷ []); x0 = 3; x1 = 9; y0 = 20; y1 = 30 }

district_of_first_case : district_of ((mar ∷ arena ∷ []) ++ (marina ∷ [])) 4 25 ≡ some marina
district_of_first_case = district_of_first (mar ∷ arena ∷ []) [] marina 4 25 (refl, (refl, tt)) refl

district_of_rest_case : district_of ((mar ∷ []) ++ (arena ∷ marina ∷ [])) 40 50 ≡ some arena
district_of_rest_case =
    district_of_rest (mar ∷ []) (marina ∷ []) arena 40 50 (refl, (refl, (refl, tt))) (refl, tt) refl
