-- ===== src/Vida/Empujones.antt =====
-- The hook `empujar`: the walkers that are drawn push who comes too near.
use rami_ledger.Prelude.{
  ℕ, zero, suc, ◌≡◌, refl, Bool, true, false, List, [], ◌∷◌, All, if◌then◌else◌,
}
use rami_ledger.Flotantes.{pos, Flotantes, decimal}
use rami_ledger.Flotantes.Enteros.{enteros, raiz_de}
use rami_ledger.Catastro.{Punto}
use rami_ledger.Vida.Enteros.{cociente}

module _ (f : Flotantes) where
  -- `d2`
  abbrev lejos2 : Punto f → Punto f → f.N
  lejos2 p q =
      let dx = f.menos p.px q.px in let dz = f.menos p.pz q.pz in f.mas (f.por dx dx) (f.por dz dz)

  abbrev empujon : f.N → Punto f → Punto f → Punto f
  empujon rr q p =
      let d = f.raiz (lejos2 p q) in
      let d0 = decimal f 1 10_000 in
      if f.menor d d0
      then record {
        px = f.mas p.px (f.por (f.de 1) (f.menos rr d0));
        pz = f.mas p.pz (f.por (f.de 0) (f.menos rr d0));
      }
      else record {
        px = f.mas p.px (f.por (f.entre (f.menos p.px q.px) d) (f.menos rr d));
        pz = f.mas p.pz (f.por (f.entre (f.menos p.pz q.pz) d) (f.menos rr d));
      }

  -- One of the walkers; the second part is whether somebody touches.
  abbrev un_peaton : f.N → Punto f → Punto f × Bool → Punto f × Bool
  un_peaton rr q (p, toco) =
      if f.alcanza (lejos2 p q) (f.por rr rr) then (p, toco) else (empujon rr q p, true)

  abbrev los_primeros : ℕ → f.N → List (Punto f) → Punto f × Bool → Punto f × Bool
  los_primeros zero rr qs s = s
  los_primeros (suc n) rr [] s = s
  los_primeros (suc n) rr (q ∷ qs) s = los_primeros n rr qs (un_peaton rr q s)

  -- The first 64 of those that are drawn.
  unfoldable empujar : List (Punto f) → Punto f → f.N → Punto f × Bool
  empujar dibujados p r = los_primeros 64 (f.mas r (decimal f 35 100)) dibujados (p, false)

  far_off :
      (n : ℕ) (rr : f.N) (qs : List (Punto f)) (p : Punto f)
      → All (λ q. f.alcanza (lejos2 p q) (f.por rr rr) ≡ true) qs
      → los_primeros n rr qs (p, false) ≡ (p, false)
  far_off zero rr qs p h = refl
  far_off (suc n) rr [] p h = refl
  far_off (suc n) rr (q ∷ qs) p h = rw h.0 (far_off n rr qs p h.1)

  -- Who is far from all of them stays and is touched by none.
  empujar-far_off :
      (qs : List (Punto f)) (p : Punto f) (r : f.N)
      → let rr = f.mas r (decimal f 35 100) in
        All (λ q. f.alcanza (lejos2 p q) (f.por rr rr) ≡ true) qs → empujar qs p r ≡ (p, false)
  unfolding empujar
  empujar-far_off qs p r h = far_off 64 (f.mas r (decimal f 35 100)) qs p h

-- In metres, of which the divisions keep the whole part.
abbrev en_metros : Flotantes
en_metros = record enteros { entre = cociente; raiz = raiz_de }

abbrev aqui : Punto en_metros
aqui = record { px = pos 5; pz = pos 5 }

abbrev ahi : Punto en_metros
ahi = record { px = pos 5; pz = pos 4 }

pushed_on : empujar en_metros (ahi ∷ []) aqui (pos 3) ≡ (record { px = pos 5; pz = pos 7 }, true)
unfolding empujar
pushed_on = refl
