-- ===== src/Vida/Caminos/Llegada.antt =====
-- The cost from door to door.
use mathlib.Core.Option.{some-injective}
use rami_ledger.Prelude.{
  sym, ℕ, ◌+◌, ◌-◌, ◌≤◌, ◌≡◌, refl, inl, inr, Bool, true, false, Option, none, some, arith, ltb,
  leb, ◌==◌, ==_iff, if◌then◌else◌, Bool-cases,
}
use rami_ledger.Vida.Caminos.{
  Arista, Grafo, Pie, Arbol, Via, por, directo, Coste, rebaja, iguala, por_nodo, hasta_acceso,
}
use rami_ledger.Vida.Caminos.Pasos.{Camino}
use rami_ledger.Vida.Caminos.Final.{IsTree}

module _ (z : Grafo) (ac b : Pie) where
  -- The ways from one door to the other: through an end of the edge of the second, or along the edge.
  pub data Trayecto : ℕ → Type 0 where
    por_a : {k : ℕ} → Camino z ac (z.aristas b.e).a k → Trayecto (k + b.u)
    por_b : {k : ℕ} → Camino z ac (z.aristas b.e).b k → Trayecto ((k + (z.aristas b.e).peso) - b.u)
    por_arista : ac.e ≡ b.e → Trayecto ((ac.u - b.u) + (b.u - ac.u))

  -- The cost is that of a way, if there is one at all.
  abbrev pub IsWay : Coste → Type 0
  IsWay none = Unit
  IsWay (some (k, v)) = Trayecto k

  abbrev pub AtMost : Coste → ℕ → Type 0
  AtMost none k = ⊥
  AtMost (some (m, v)) k = m ≤ k

  rebaja_here : (c : Coste) (x : ℕ) (via : Via) → AtMost (rebaja c x via) x
  rebaja_here none x via = omega arith
  rebaja_here (some (best, v)) x via = elim (Bool-cases (ltb x best)) [
    | inl e ↦ rw e (omega arith)
    | inr e ↦ rw e (ground arith)
  ]

  rebaja_keeps : (c : Coste) (x : ℕ) (via : Via) (k : ℕ) → AtMost c k → AtMost (rebaja c x via) k
  rebaja_keeps none x via k h = elim h [ ]
  rebaja_keeps (some (best, v)) x via k h = elim (Bool-cases (ltb x best)) [
    | inl e ↦ rw e (ground arith)
    | inr e ↦ rw e h
  ]

  rebaja-IsWay : (c : Coste) (x : ℕ) (via : Via) → Trayecto x → IsWay c → IsWay (rebaja c x via)
  rebaja-IsWay none x via w h = w
  rebaja-IsWay (some (best, v)) x via w h = elim (Bool-cases (ltb x best)) [
    | inl e ↦ rw e w
    | inr e ↦ rw e h
  ]

  iguala_here : (c : Coste) (x : ℕ) (via : Via) → AtMost (iguala c x via) x
  iguala_here none x via = omega arith
  iguala_here (some (best, v)) x via = elim (Bool-cases (leb x best)) [
    | inl e ↦ rw e (omega arith)
    | inr e ↦ rw e (ground arith)
  ]

  iguala_keeps : (c : Coste) (x : ℕ) (via : Via) (k : ℕ) → AtMost c k → AtMost (iguala c x via) k
  iguala_keeps none x via k h = elim h [ ]
  iguala_keeps (some (best, v)) x via k h = elim (Bool-cases (leb x best)) [
    | inl e ↦ rw e (ground arith)
    | inr e ↦ rw e h
  ]

  iguala-IsWay : (c : Coste) (x : ℕ) (via : Via) → Trayecto x → IsWay c → IsWay (iguala c x via)
  iguala-IsWay none x via w h = w
  iguala-IsWay (some (best, v)) x via w h = elim (Bool-cases (leb x best)) [
    | inl e ↦ rw e w
    | inr e ↦ rw e h
  ]

  por_nodo-IsWay :
      (c : Coste) (o : Option ℕ) (f : ℕ → ℕ) (n : ℕ)
      → ((d : ℕ) → o ≡ some d → Trayecto (f d))
      → IsWay c
      → IsWay (por_nodo c o f n)
  por_nodo-IsWay c none f n w h = h
  por_nodo-IsWay c (some d) f n w h = rebaja-IsWay c (f d) (por n) (w d refl) h

  por_nodo_keeps :
      (c : Coste) (o : Option ℕ) (f : ℕ → ℕ) (n k : ℕ) → AtMost c k → AtMost (por_nodo c o f n) k
  por_nodo_keeps c none f n k h = h
  por_nodo_keeps c (some d) f n k h = rebaja_keeps c (f d) (por n) k h

  most_weaken : (c : Coste) (j k : ℕ) → j ≤ k → AtMost c j → AtMost c k
  most_weaken none j k le h = h
  most_weaken (some (m, v)) j k le h = omega arith

  por_nodo_here :
      (c : Coste) (o : Option ℕ) (f : ℕ → ℕ) (n d k : ℕ)
      → o ≡ some d
      → f d ≤ k
      → AtMost (por_nodo c o f n) k
  por_nodo_here c none f n d k e le = cc e
  por_nodo_here c (some d') f n d k e le =
      most_weaken (rebaja c (f d') (por n)) (f d') k (rw (sym (some-injective _ _ e)) at le)
        (rebaja_here c (f d') (por n))

  module _ (t : Arbol) (tree : IsTree z ac t) where
    abbrev e : Arista
    e = z.aristas b.e

    abbrev x1 : Coste
    x1 = por_nodo none (t.dist e.a) (λ d. d + b.u) e.a

    abbrev x2 : Coste
    x2 = por_nodo x1 (t.dist e.b) (λ d. (d + e.peso) - b.u) e.b

    x2-IsWay : IsWay x2
    x2-IsWay =
        por_nodo-IsWay x1 (t.dist e.b) _ e.b (λ d at_b. por_b (tree.sound e.b d at_b))
          (por_nodo-IsWay none (t.dist e.a) _ e.a (λ d at_a. por_a (tree.sound e.a d at_a)) tt)

    -- Either end is no farther than a way through it.
    x2_a : (k : ℕ) → Camino z ac e.a k → AtMost x2 (k + b.u)
    x2_a k way =
        let (d, (at_a, le)) = tree.least e.a k way in
        por_nodo_keeps x1 (t.dist e.b) _ e.b (k + b.u)
          (por_nodo_here none (t.dist e.a) _ e.a d (k + b.u) at_a (omega arith))

    x2_b : (k : ℕ) → Camino z ac e.b k → AtMost x2 ((k + e.peso) - b.u)
    x2_b k way =
        let (d, (at_b, le)) = tree.least e.b k way in
        por_nodo_here x1 (t.dist e.b) _ e.b d ((k + e.peso) - b.u) at_b (omega arith)

    same_edge :
        (c : Bool) (k : ℕ)
        → AtMost x2 k
        → AtMost (if c then iguala x2 ((ac.u - b.u) + (b.u - ac.u)) directo else x2) k
    same_edge true k h = iguala_keeps x2 _ directo k h
    same_edge false k h = h

    least_of :
        {k : ℕ}
        → Trayecto k
        → AtMost (if ac.e == b.e then iguala x2 ((ac.u - b.u) + (b.u - ac.u)) directo else x2) k
    least_of (por_a {k} way) = same_edge (ac.e == b.e) (k + b.u) (x2_a k way)
    least_of (por_b {k} way) = same_edge (ac.e == b.e) ((k + e.peso) - b.u) (x2_b k way)
    least_of (por_arista same) =
        rw ((==_iff ac.e b.e).1 same) (iguala_here x2 ((ac.u - b.u) + (b.u - ac.u)) directo)

    -- On the tree of the first door, the cost is that of a way to the second, and no way costs less.
    pub hasta_acceso_least :
        IsWay (hasta_acceso z t.dist ac b)
        × ((k : ℕ) → Trayecto k → AtMost (hasta_acceso z t.dist ac b) k)
    unfolding hasta_acceso
    hasta_acceso_least = (
      elim (Bool-cases (ac.e == b.e)) [
        | inl e ↦ rw e (iguala-IsWay x2 _ directo (por_arista ((==_iff ac.e b.e).0 e)) x2-IsWay)
        | inr e ↦ rw e x2-IsWay
      ],
      λ k way. least_of way,
    )
