-- ===== src/Vida/Caminos/Pasos.antt =====
-- What every step of the loop keeps.
use mathlib.Core.List.{Permᴰ}
use mathlib.Core.Option.{some-injective}
use rami_ledger.Prelude.{
  ℕ, ◌+◌, ◌-◌, ◌≤◌, ◌<◌, ◌≡◌, refl, ◌∙◌, ap, ◌⊎◌, inl, inr, true, false, Option, none, some, List,
  [], ◌∷◌, ◌++◌, arith, leb, leb→le, ◌==◌, ==_iff, Bool-cases, length, length-append, All,
}
use rami_ledger.Vida.Caminos.{Grafo, Pie, Previo, Arbol, pone, no_mejora, apunta, otro}
use rami_ledger.Vida.Caminos.Monton.{sube-Permᴰ}

abbrev pub Has : {A : Type 0} → A → List A → Type 0
Has x [] = ⊥
Has x (y ∷ ys) = (x ≡ y) ⊎ Has x ys

pub Has-Permᴰ : {A : Type 0} (x : A) {xs ys : List A} → Permᴰ xs ys → Has x xs → Has x ys
Has-Permᴰ x Permᴰ.nil h = h
Has-Permᴰ x (Permᴰ.cons e p) (inl h) = inl (h ∙ e)
Has-Permᴰ x (Permᴰ.cons e p) (inr h) = inr (Has-Permᴰ x p h)
Has-Permᴰ x (Permᴰ.swap e f) (inl h) = inr (inl (h ∙ e))
Has-Permᴰ x (Permᴰ.swap e f) (inr (inl h)) = inl (h ∙ f)
Has-Permᴰ x (Permᴰ.swap e f) (inr (inr h)) = inr (inr h)
Has-Permᴰ x (Permᴰ.trans p q) h = Has-Permᴰ x q (Has-Permᴰ x p h)

pub Has-left : {A : Type 0} (x : A) (xs ys : List A) → Has x xs → Has x (xs ++ ys)
Has-left x [] ys h = elim h [ ]
Has-left x (y ∷ xs) ys (inl e) = inl e
Has-left x (y ∷ xs) ys (inr h) = inr (Has-left x xs ys h)

pub Has-last : {A : Type 0} (xs : List A) (x : A) → Has x (xs ++ (x ∷ []))
Has-last [] x = inl refl
Has-last (y ∷ xs) x = inr (Has-last xs x)

abbrev pub Reaches : (ℕ → Option ℕ) → ℕ → ℕ → Type 0
Reaches dist m k = (d : ℕ) × ((dist m ≡ some d) × (d ≤ k))

module _ (z : Grafo) (ac : Pie) where
  -- The ways from the door along the pavements, with their lengths: to either end of its edge, and on
  -- over the edges of a node.
  pub data Camino : ℕ → ℕ → Type 0 where
    desde_a : Camino (z.aristas ac.e).a ac.u
    desde_b : Camino (z.aristas ac.e).b ((z.aristas ac.e).peso - ac.u)
    paso :
        {n d : ℕ} (i : ℕ)
        → Has i (z.adj n)
        → Camino n d
        → Camino (otro (z.aristas i) n) (d + (z.aristas i).peso)

  abbrev pub Relaxed : (ℕ → Option ℕ) → ℕ → ℕ → Type 0
  Relaxed dist n d =
      (i : ℕ) → Has i (z.adj n) → Reaches dist (otro (z.aristas i) n) (d + (z.aristas i).peso)

  -- Every distance is that of a way; what the heap holds is no less than the distance of its node;
  -- and the edges of a node have been gone over unless it stands in the heap, or is excused.
  pub record Steady (X : ℕ → ℕ → Type 0) (t : Arbol) : Type 0 where
    pub sound : (n d : ℕ) → t.dist n ≡ some d → Camino n d
    pub heap : All (λ (q : ℕ × ℕ). Reaches t.dist q.1 q.0) t.monton
    pub ready : (n d : ℕ) → t.dist n ≡ some d → Has (d, n) t.monton ⊎ (Relaxed t.dist n d ⊎ X n d)

less : (c dd d : ℕ) → leb c dd ≡ false → c ≡ d → dd < d
less c dd d e f = ground arith

-- The new distance is an improvement.
unfoldable pub Better : Option ℕ → ℕ → Type 0
Better o dd = (d : ℕ) → o ≡ some d → dd < d

pub better_lem : (o : Option ℕ) (dd : ℕ) → no_mejora o dd ≡ false → Better o dd
unfolding Better
better_lem none dd e d f = cc f
better_lem (some c) dd e d f = let same = some-injective _ _ f in less c dd d e same

pub worse_lem :
    (o : Option ℕ) (dd : ℕ) → no_mejora o dd ≡ true → (d : ℕ) × ((o ≡ some d) × (d ≤ dd))
worse_lem none dd e = cc e
worse_lem (some c) dd e = (c, (refl, leb→le c dd e))

module _ (nd dd : ℕ) (pe : Previo) (t : Arbol) where
  pub pone_here : pone t.dist nd (some dd) nd ≡ some dd
  pone_here = rw ((==_iff nd nd).1 refl) refl

  pub pone-Reaches :
      Better (t.dist nd) dd
      → (m k : ℕ) → Reaches t.dist m k
      → Reaches (pone t.dist nd (some dd)) m k
  unfolding Better
  pone-Reaches b m k (d, (e, le)) = elim (Bool-cases (nd == m)) [
    | inl same ↦
        let lt = b d (ap t.dist ((==_iff nd m).0 same) ∙ e) in (dd, (rw same refl, omega arith))
    | inr other ↦ (d, (rw other e, le))
  ]

  -- The heap after a push.
  pub pushed-Permᴰ : Permᴰ (apunta nd dd pe t).monton (t.monton ++ ((dd, nd) ∷ []))
  pushed-Permᴰ =
      sube-Permᴰ (length t.monton) (t.monton ++ ((dd, nd) ∷ [])) (length t.monton)
        (omega (arith, length-append t.monton ((dd, nd) ∷ [])))
