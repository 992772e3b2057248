-- ===== src/Vida/Caminos/Final.antt =====
-- The tree of the shortest ways: the loop ends, and every distance is the least.
use native.Mathlib.Nat.{suc-mul, mul-le-mul_right, zero-mul}
use rami_ledger.Prelude.{
  ℕ, zero, suc, ◌+◌, ◌-◌, ◌*◌, ◌≤◌, ◌<◌, ◌≡◌, refl, sym, ◌∙◌, ap, subst, inl, inr, true, false,
  Option, some, [], ◌∷◌, arith, ltb, Bool-cases, length,
}
use rami_ledger.Vida.Caminos.{
  Grafo, Pie, Monton, desde_acceso, Arbol, vacio, mete, otro, relaja, es_viejo, vuelta, bucle,
  raices, arbol_de,
}
use rami_ledger.Vida.Caminos.Cotas.{
  total, left, Capped, Spends, mete-Spends, trans-Spends, vuelta-Spends,
}
use rami_ledger.Vida.Caminos.Pasos.{Has, Reaches, Camino, desde_a, desde_b, paso, Relaxed, Steady}
use rami_ledger.Vida.Caminos.Minimos.{
  mete-Reaches, mete_here, mete-Steady, relaja-Reaches, relaja_done, relaja-Steady, This, NoOne,
  all_ready, popped, popped-Steady,
}

fresh_eq : (d dk : ℕ) → ltb d dk ≡ false → d ≤ dk → d ≡ dk
fresh_eq d dk e le = ground arith

module _ (z : Grafo) (ac : Pie) where
  -- An entry that is not stale has the distance of its node.
  not_stale :
      (t : Arbol) (n k : ℕ)
      → Reaches t.dist n k
      → es_viejo z k (t.dist n) ≡ false
      → t.dist n ≡ some k
  not_stale t n k (d, (e, le)) fresh = e ∙ ap some (fresh_eq d k (rw e at fresh) le)

  stale : (t : Arbol) (n k : ℕ) → es_viejo z k (t.dist n) ≡ true → t.dist n ≡ some k → ⊥
  stale t n k old e = let lt = rw e at old in ground arith

  at_edges :
      (nd dk : ℕ) (t : Arbol) (n d : ℕ)
      → (n ≡ nd) × (d ≡ dk)
      → Relaxed z ac (relaja z nd dk (z.adj nd) t).dist n d
  at_edges nd dk t n d (a, b) =
      subst (λ m. Relaxed z ac (relaja z nd dk (z.adj nd) t).dist m d) (sym a)
        (subst (λ k. Relaxed z ac (relaja z nd dk (z.adj nd) t).dist nd k) (sym b)
          (relaja_done z ac nd dk (z.adj nd) t))

  vuelta-Steady :
      (t : Arbol) (p : ℕ × ℕ) (rest : Monton)
      → t.monton ≡ p ∷ rest
      → Steady z ac (NoOne z ac) t
      → Steady z ac (NoOne z ac) (vuelta z p t)
  vuelta-Steady t p rest e s =
      let s' = popped-Steady z ac t p rest e s in
      elim (Bool-cases (es_viejo z p.0 (t.dist p.1))) [
        | inl old ↦ rw old (
            all_ready z ac (This z ac p.1 p.0) (popped z ac t)
              (λ n d at_n x.
                absurd (stale t p.1 p.0 old (ap t.dist (sym x.0) ∙ at_n ∙ ap some x.1)))
              s')
        | inr new ↦
            let way = s.sound p.1 p.0 (not_stale t p.1 p.0 (rw e at s.heap).0 new) in
            rw new (
              all_ready z ac (This z ac p.1 p.0) (relaja z p.1 p.0 (z.adj p.1) (popped z ac t))
                (λ n d at_n x i h. at_edges p.1 p.0 (popped z ac t) n d x i h)
                (relaja-Steady z ac (This z ac p.1 p.0) p.1 p.0 (z.adj p.1) (popped z ac t)
                  (λ i h. h) way s'))
      ]

  vuelta-Reaches :
      (t : Arbol) (p : ℕ × ℕ) (m k : ℕ) → Reaches t.dist m k → Reaches (vuelta z p t).dist m k
  vuelta-Reaches t p m k r = elim (Bool-cases (es_viejo z p.0 (t.dist p.1))) [
    | inl old ↦ rw old r
    | inr new ↦ rw new (relaja-Reaches z ac p.1 p.0 (z.adj p.1) (popped z ac t) m k r)
  ]

  -- The tree is done: the heap is empty, every distance is that of a way, and no way is shorter.
  pub record IsTree (t : Arbol) : Type 0 where
    pub sound : (n d : ℕ) → t.dist n ≡ some d → Camino z ac n d
    pub least : (n k : ℕ) → Camino z ac n k → Reaches t.dist n k

  -- Both ends of the door's edge are reached.
  abbrev Begun : Arbol → Type 0
  Begun t =
      Reaches t.dist (z.aristas ac.e).a ac.u
      × Reaches t.dist (z.aristas ac.e).b ((z.aristas ac.e).peso - ac.u)

  further : (f : ℕ → Option ℕ) (n k d d' : ℕ) → d' ≤ d → Reaches f n (d' + k) → Reaches f n (d + k)
  further f n k d d' le (c, (e, le')) = (c, (e, omega arith))

  least_way :
      (t : Arbol)
      → t.monton ≡ []
      → Steady z ac (NoOne z ac) t
      → Begun t
      → {n k : ℕ} → Camino z ac n k
      → Reaches t.dist n k
  least_way t none_left s b desde_a = b.0
  least_way t none_left s b desde_b = b.1
  least_way t none_left s b (paso {n} {d} i h way) =
      let (d', (e, le)) = least_way t none_left s b way in
      elim (rw none_left at (s.ready n d' e)) [
        | inl x ↦ elim x [ ]
        | inr (inl r) ↦ further t.dist (otro (z.aristas i) n) _ d d' le (r i h)
        | inr (inr x) ↦ elim x [ ]
      ]

  vacio-Steady : Steady z ac (NoOne z ac) vacio
  vacio-Steady = record { sound = λ n d e. cc e; heap = tt; ready = λ n d e. cc e }

  raices-Steady : Steady z ac (NoOne z ac) (raices z ac)
  raices-Steady =
      let e = z.aristas ac.e in
      mete-Steady e.b (e.peso - ac.u) desde_acceso (mete e.a ac.u desde_acceso vacio) z ac
        (NoOne z ac) desde_b
        (mete-Steady e.a ac.u desde_acceso vacio z ac (NoOne z ac) desde_a vacio-Steady)

  raices-Begun : Begun (raices z ac)
  raices-Begun =
      let e = z.aristas ac.e in
      let t = mete e.a ac.u desde_acceso vacio in
      (
        mete-Reaches e.b (e.peso - ac.u) desde_acceso t e.a ac.u
            (mete_here e.a ac.u desde_acceso vacio),
        mete_here e.b (e.peso - ac.u) desde_acceso t,
      )

  -- The graph has its ends among its nodes, and no edge weighs more than `w`.
  pub record IsGrafo (w : ℕ) : Type 0 where
    pub end_a : (z.aristas ac.e).a < z.nodos
    pub end_b : (z.aristas ac.e).b < z.nodos
    pub edges :
        (m i : ℕ) → Has i (z.adj m) → (otro (z.aristas i) m < z.nodos) × ((z.aristas i).peso ≤ w)

  -- What bounds a distance when `c` nodes are reached.
  abbrev cap : ℕ → ℕ → ℕ
  cap w c = ac.u + (z.aristas ac.e).peso + c * w

  cap_step : (w c : ℕ) → cap w c + w ≤ cap w (suc c)
  cap_step w c = omega (arith, suc-mul c w)

  cap_mono : (w b c : ℕ) → b ≤ c → cap w b ≤ cap w c
  cap_mono w b c le = omega (arith, mul-le-mul_right w le)

  bucle_step :
      (rounds : ℕ) (t : Arbol) (p : ℕ × ℕ) (rest : Monton)
      → t.monton ≡ p ∷ rest
      → bucle z (suc rounds) t ≡ bucle z rounds (vuelta z p t)
  bucle_step rounds t p rest e =
      ap
        (λ (h : Monton). elim h as (λ _. Option Arbol) [
          | [] ↦ some t
          | q ∷ left ↦ bucle z rounds (vuelta z q t)
        ])
        e

  module _ (w : ℕ) (g : IsGrafo w) where
    abbrev IsCapped : Arbol → Type 0
    IsCapped = Capped z.nodos w (cap w) (cap_step w) (cap_mono w)

    abbrev measure : Arbol → ℕ
    measure t =
        let rest = left z.nodos w (cap w) (cap_step w) (cap_mono w) t in
        rest + rest + length t.monton

    bucle-IsTree :
        (rounds : ℕ) (t : Arbol) (h : Monton)
        → t.monton ≡ h
        → measure t < rounds
        → Steady z ac (NoOne z ac) t
        → Begun t
        → IsCapped t
        → (u : Arbol) × ((bucle z rounds t ≡ some u) × IsTree u)
    bucle-IsTree zero t h e lt s b c = absurd (omega arith)
    bucle-IsTree (suc rounds) t [] e lt s b c =
        (t, (rw e refl, record { sound = s.sound; least = λ n k way. least_way t e s b way }))
    bucle-IsTree (suc rounds) t (p ∷ rest) e lt s b c =
        let now : es_viejo z p.0 (t.dist p.1) ≡ false → t.dist p.1 ≡ some p.0 =
          λ new. not_stale t p.1 p.0 (rw e at s.heap).0 new in
        let (c', less) =
          vuelta-Spends z.nodos w (cap w) (cap_step w) (cap_mono w) z g.edges t p rest e c now in
        let b' : Begun (vuelta z p t) = (vuelta-Reaches t p _ _ b.0, vuelta-Reaches t p _ _ b.1) in
        let (u, (is, tree)) =
          bucle-IsTree rounds (vuelta z p t) (vuelta z p t).monton refl (omega arith)
            (vuelta-Steady t p rest e s) b' c' in
        (u, (bucle_step rounds t p rest e ∙ is, tree))

    vacio-Capped : IsCapped vacio
    vacio-Capped = record { at = λ k d e. cc e }

    raices-Spends : Spends z.nodos w (cap w) (cap_step w) (cap_mono w) vacio (raices z ac)
    raices-Spends =
        let e = z.aristas ac.e in
        let t = mete e.a ac.u desde_acceso vacio in
        let h =
          mete-Spends z.nodos w (cap w) (cap_step w) (cap_mono w) e.a ac.u desde_acceso vacio
            g.end_a vacio-Capped (omega arith) in
        let k =
          mete-Spends z.nodos w (cap w) (cap_step w) (cap_mono w) e.b (e.peso - ac.u) desde_acceso t
            g.end_b h.capped (omega arith) in
        trans-Spends z.nodos w (cap w) (cap_step w) (cap_mono w) h k

    -- Rounds that are enough.
    abbrev pub enough : ℕ
    enough = suc (2 * (z.nodos * suc (cap w z.nodos)))

    left_vacio : (n c : ℕ) → total (λ k. c) n ≡ n * c
    left_vacio zero c = omega (arith, zero-mul c)
    left_vacio (suc n) c = omega (arith, left_vacio n c, suc-mul n c)

    -- With enough rounds the loop ends, and then every distance is the length of a way from the door
    -- and no way is shorter. Here the edges of the graph end at its nodes, and weigh at most `w`.
    pub arbol_de-IsTree :
        (rounds : ℕ) → enough ≤ rounds → (t : Arbol) × ((arbol_de z rounds ac ≡ some t) × IsTree t)
    unfolding arbol_de
    arbol_de-IsTree rounds le =
        let start = raices-Spends in
        let less = start.spent in
        bucle-IsTree rounds (raices z ac) (raices z ac).monton refl
          (omega (arith, left_vacio z.nodos (suc (cap w z.nodos)))) raices-Steady raices-Begun
          start.capped
