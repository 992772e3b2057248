-- ===== src/Tramos.antt =====
-- The stretches of chain/crates/rami-gui/src/city3d.js: `fundeTramos`, `restaTramos` and `enTramo`.
-- The numbers are any type with the order `menor` of the floating-point numbers without NaN:
-- `a <= b` is `not (menor b a)`.
pub mod Unidos
pub mod Restados
pub mod Tests
use rami_ledger.Prelude.{Bool, true, false, not, ◌&&◌, ◌||◌, List, [], ◌∷◌, ◌++◌, if◌then◌else◌}

-- A stretch `[a, b]`.
pub record Tramo (T : Type 0) : Type 0 where
  pub a : T
  pub b : T

abbrev pub alguno : {T : Type 0} → (Tramo T → Bool) → List (Tramo T) → Bool
alguno p [] = false
alguno p (x ∷ xs) = p x || alguno p xs

module _ {T : Type 0} (menor : T → T → Bool) where
  unfoldable pub en_tramo : List (Tramo T) → T → Bool
  en_tramo [] s = false
  en_tramo (x ∷ tramos) s =
      let rest = en_tramo tramos s in
      if menor s x.a then false else if not (menor x.b s) then true else rest

  -- `Math.max`
  abbrev pub mayor : T → T → T
  mayor x y = if menor x y then y else x

  -- The loop of `fundeTramos`, with `u` the last stretch of `out`.
  unfoldable pub funde_loop : Tramo T → List (Tramo T) → List (Tramo T)
  funde_loop u [] = u ∷ []
  funde_loop u (x ∷ t) =
      let joined = funde_loop (record { a = u.a; b = mayor u.b x.b }) t in
      let apart = u ∷ funde_loop x t in if not (menor u.b x.a) then joined else apart

  abbrev pub funde_de : List (Tramo T) → List (Tramo T)
  funde_de [] = []
  funde_de (u ∷ t) = funde_loop u t

  -- `ordena` is the library's `sort` by the beginnings.
  unfoldable pub funde_tramos : (List (Tramo T) → List (Tramo T)) → List (Tramo T) → List (Tramo T)
  funde_tramos ordena [] = []
  funde_tramos ordena (x ∷ []) = x ∷ []
  funde_tramos ordena (x ∷ y ∷ t) = funde_de (ordena (x ∷ y ∷ t))

  -- The pieces that are left of one stretch.
  abbrev pub resta_uno : Tramo T → Tramo T → List (Tramo T)
  resta_uno q x =
      if not (menor x.a q.b) || not (menor q.a x.b)
      then x ∷ []
      else (if menor x.a q.a then record { a = x.a; b = q.a } ∷ [] else [])
        ++ (if menor q.b x.b then record { a = q.b; b = x.b } ∷ [] else [])

  unfoldable pub resta_ronda : Tramo T → List (Tramo T) → List (Tramo T)
  resta_ronda q [] = []
  resta_ronda q (x ∷ out) = resta_uno q x ++ resta_ronda q out

  unfoldable pub resta_tramos : List (Tramo T) → List (Tramo T) → List (Tramo T)
  resta_tramos out [] = out
  resta_tramos out (q ∷ quita) = resta_tramos (resta_ronda q out) quita

  -- A point in a stretch, its ends included or not.
  abbrev pub dentro : T → Tramo T → Bool
  dentro s x = not (menor s x.a) && not (menor x.b s)

  abbrev pub interior : T → Tramo T → Bool
  interior s x = menor x.a s && menor s x.b
