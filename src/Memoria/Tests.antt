-- ===== src/Memoria/Tests.antt =====
-- A small city, and the theorems on it.
use mathlib.Core.List.Permᴰ
use rami_ledger.Prelude.{◌-◌, ◌/◌, ◌≡◌, refl, true, false, none, some, [], ◌∷◌}
use rami_ledger.Memoria.{
  nivel_patina, int, Vista, suma_uno, cuenta_huecos, apunta, ronda, recorre, encargos,
}
use rami_ledger.Memoria.Nivel.{IsLevel, nivel_patina-IsLevel}
use rami_ledger.Memoria.Cuentas.{necesita, total, faltan_en}
use rami_ledger.Memoria.Encargos.{encargos-total}

nivel_patina-IsLevel_case : IsLevel 12 ((int 20000 - int 3) / 1440) (nivel_patina 20000 3)
nivel_patina-IsLevel_case = nivel_patina-IsLevel 20000 3

day_nine : nivel_patina 12960 0 ≡ 3
unfolding nivel_patina
day_nine = refl

-- Nobody offers the sector 2, which the sector 0 needs; the last parcel is pending.
abbrev ciudad : Vista
ciudad = record {
  huecos = (2, 2) ∷ [];
  parcels =
      record { pending = false; kind = 0; distrito = 7 }
      ∷ record { pending = false; kind = 1; distrito = 7 }
      ∷ record { pending = false; kind = 0; distrito = 7 }
      ∷ record { pending = true; kind = 0; distrito = 7 }
      ∷ [];
  sectors = some (2 ∷ 1 ∷ []) ∷ none ∷ some [] ∷ [];
  districts = record { id = 7; nombre = b'A' ∷ []; precio = 5 } ∷ [];
}

listed :
    encargos (λ before fs. fs) (λ before es. es) ciudad
    ≡ record { distrito = 7; nombre = b'A' ∷ []; precio = 5; empresas = 2; faltan = (2, 2) ∷ [] }
      ∷ []
unfolding encargos recorre ronda apunta cuenta_huecos suma_uno
listed = refl

encargos-total_example :
    faltan_en 7 2 (encargos (λ before fs. fs) (λ before es. es) ciudad)
    ≡ total (necesita ciudad 7 2) ciudad.parcels
encargos-total_example =
    encargos-total (λ before fs. fs) (λ before es. es) ciudad 7 2 (λ ys. Permᴰ.refl ys)
      (λ ys. Permᴰ.refl ys)
