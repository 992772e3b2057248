-- ===== src/Umbral/Dentro.antt =====
-- What holds inside a house, and what a step of a walk leaves of it.
use rami_ledger.Prelude.{
  ℕ, zero, suc, ◌≡◌, refl, ap, Bool, true, false, Option, none, some, List, [], ◌∷◌, get_elem?,
  drop,
}
use mathlib.Core.Option.{some-injective}
use rami_ledger.Flotantes.{Flotantes}
use rami_ledger.Umbral.Estado.{
  Cual, el_bajo, la_planta, Paso, andar, puertas, viaje, ya_dentro, a_la_calle, monta, llega, Seq,
  Planta, Casa, Visita,
}
use rami_ledger.Umbral.Casas.{Taller}
use rami_ledger.Umbral.Pasos.{con_yaw, sigue_con, yaw_final, tras_paso}

-- A condition, where the test holds.
abbrev pub Si : Bool → Type 0 → Type 0
Si true A = A
Si false A = Unit

pub si_map : (b : Bool) (A B : Type 0) → (A → B) → Si b A → Si b B
si_map true A B g h = g h
si_map false A B g h = tt

pub at_drop {ℓ} :
    {A : Type ℓ} (xs : List A) (i : ℕ) {x : A}
    → get_elem? xs i ≡ some x
    → drop i xs ≡ x ∷ drop (suc i) xs
at_drop [] i e = cc
at_drop (y ∷ ys) zero e = ap (λ q. q ∷ ys) (some-injective _ _ e)
at_drop (y ∷ ys) (suc i) e = at_drop ys i e

module _ (f : Flotantes) (Texto : Type 0) where
  -- The lift arrives in one of these steps.
  abbrev pub Llega : List (Paso f) → Type 0
  Llega [] = ⊥
  Llega (llega d ∷ ps) = Unit
  Llega (andar a g v ∷ ps) = Llega ps
  Llega (puertas b ∷ ps) = Llega ps
  Llega (viaje a b ∷ ps) = Llega ps
  Llega (ya_dentro ∷ ps) = Llega ps
  Llega (a_la_calle ∷ ps) = Llega ps
  Llega (monta d ∷ ps) = Llega ps

  -- Whoever gets into the lift gets out.
  abbrev pub Bien : List (Paso f) → Type 0
  Bien [] = Unit
  Bien (monta d ∷ ps) = Llega ps × Bien ps
  Bien (andar a g v ∷ ps) = Bien ps
  Bien (puertas b ∷ ps) = Bien ps
  Bien (viaje a b ∷ ps) = Bien ps
  Bien (ya_dentro ∷ ps) = Bien ps
  Bien (a_la_calle ∷ ps) = Bien ps
  Bien (llega d ∷ ps) = Bien ps

  -- What is seen: the cabin alone, the ground floor, or a floor that is there.
  abbrev pub Ve : Bool → Option Cual → Option (Planta f) → Type 0
  Ve true none p = Unit
  Ve true (some e) p = ⊥
  Ve false none p = ⊥
  Ve false (some el_bajo) p = Unit
  Ve false (some la_planta) none = ⊥
  Ve false (some la_planta) (some p) = Unit

  abbrev pub Sigue : Casa f → List (Paso f) → Type 0
  Sigue c ps = Ve c.solo_cabina c.visible c.planta × (Si c.solo_cabina (Llega ps) × Bien ps)

  -- A guided walk goes on in a house only; where the cabin alone is seen, one is under way whose steps to
  -- come hold an arrival.
  abbrev pub DentroDe : Option (Casa f) → Option (Seq f) → Type 0
  DentroDe none none = Unit
  DentroDe none (some s) = ⊥
  DentroDe (some c) none = Sigue c []
  DentroDe (some c) (some s) = Sigue c (drop s.i s.pasos)

  pub record IsDentro (w : Visita f Texto) : Type 0 where
    pub dentro : DentroDe w.casa w.seq

  module _ (ta : Taller f Texto) where
    abbrev pub Keeps : (Visita f Texto → Visita f Texto) → Type 0
    Keeps more = (w : Visita f Texto) → IsDentro w → IsDentro (more w)

    -- Behind a step that has ended, or has not.
    pub step_over :
        (more : Visita f Texto → Visita f Texto) (p : Paso f) (b : Bool) (c : Casa f) (s : Seq f)
        (w : Visita f Texto)
        → Keeps more
        → Sigue c (drop s.i s.pasos)
        → ((c' : Casa f)
            → c'.solo_cabina ≡ c.solo_cabina
            → c'.visible ≡ c.visible
            → c'.planta ≡ c.planta
            → Sigue c' (drop (suc s.i) s.pasos))
        → IsDentro (tras_paso f Texto ta more p (b, record w { casa = some c; seq = some s }))
    step_over more p false c s w keeps now next = record { dentro = now }
    step_over more (andar a g v) true c s w keeps now next = ended (yaw_final f Texto g c)
      where
        ended :
            (y : Option f.N)
            → IsDentro (
                sigue_con f Texto ta more
                  (con_yaw f Texto ta y c (record w { casa = some c; seq = some s })).seq
                  (con_yaw f Texto ta y c (record w { casa = some c; seq = some s })))
        ended none = keeps _ (record { dentro = next c refl refl refl })
        ended (some y) = keeps _ (record { dentro = next c refl refl refl })
    step_over more (puertas b') true c s w keeps now next =
        keeps _ (record { dentro = next c refl refl refl })
    step_over more (viaje y0 y1) true c s w keeps now next =
        keeps _ (record { dentro = next (record c { viaje = none }) refl refl refl })
    step_over more ya_dentro true c s w keeps now next =
        keeps _ (record { dentro = next c refl refl refl })
    step_over more a_la_calle true c s w keeps now next =
        keeps _ (record { dentro = next c refl refl refl })
    step_over more (monta d) true c s w keeps now next =
        keeps _ (record { dentro = next c refl refl refl })
    step_over more (llega d) true c s w keeps now next =
        keeps _ (record { dentro = next c refl refl refl })
