-- ===== src/Viviendas/Tests.antt =====
-- A building of two floors with three homes each.
use rami_ledger.Prelude.{ℕ, zero, suc, ◌<◌, ◌≡◌, ◌↔◌, refl, some, none, [], ◌∷◌, arith}
use rami_ledger.Viviendas.{Plan, sitio_unidad, numero_unidad}
use rami_ledger.Viviendas.Numeros.{IsDistinct, sitio_unidad-numero_unidad}

abbrev torre : Plan
torre = record { plantas = 4 ∷ 9 ∷ []; upp = 3 }

quinta : sitio_unidad torre 5 ≡ some (record { planta = 9; slot = 1 })
unfolding sitio_unidad
quinta = refl

sin_sitio : sitio_unidad torre 7 ≡ none
unfolding sitio_unidad
sin_sitio = refl

torre-IsDistinct : IsDistinct (4 ∷ 9 ∷ [])
torre-IsDistinct zero zero p a b = refl
torre-IsDistinct zero (suc zero) p a b =
    let same : ◌≡◌ {A = ℕ} 4 9 = cc (a, b) in absurd (omega (arith, same))
torre-IsDistinct (suc zero) zero p a b =
    let same : ◌≡◌ {A = ℕ} 4 9 = cc (a, b) in absurd (omega (arith, same))
torre-IsDistinct (suc zero) (suc zero) p a b = refl
torre-IsDistinct (suc (suc i)) j p a b = cc
torre-IsDistinct zero (suc (suc j)) p a b = cc
torre-IsDistinct (suc zero) (suc (suc j)) p a b = cc

sitio_unidad-numero_unidad_example :
    (sitio_unidad torre 5 ≡ some (record { planta = 9; slot = 1 }))
    ↔ ((numero_unidad torre 9 1 ≡ 5) × (1 < 3))
sitio_unidad-numero_unidad_example =
    sitio_unidad-numero_unidad torre 4 9 1 torre-IsDistinct (omega arith)
