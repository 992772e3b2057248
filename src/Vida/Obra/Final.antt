-- ===== src/Vida/Obra/Final.antt =====
-- The first phases end too, and so does the whole.
use rami_ledger.Prelude.{
  ℕ, zero, suc, ◌+◌, ◌*◌, ◌≤◌, ◌≡◌, refl, sym, ◌∙◌, ap, subst, inl, inr, Bool, true, false, some,
  List, arith, length, ltb, leb, if◌then◌else◌, Bool-cases,
}
use rami_ledger.Vida.Obra.{
  Fase, calzada, aceras, portales, Obra, Oficios, hecho, sigue, mira, trabajo_nuevo, a_fase,
  con_indice, avanza_calzada, con_zona, cruza_calle, un_portal, vuelta_fase, acabada, fases,
  cuadros,
}
use rami_ledger.Vida.Obra.Cortes.{After, EndsIn, fases_at_once, cuadros_done}
use rami_ledger.Vida.Obra.Plazo.{IsOficios, Fin, FinOf, step, Fin-parcelas}

passed : (n k : ℕ) → n ≤ k + 0 → leb n k ≡ false → ⊥
passed n k le e = ground arith

no_via : (n k : ℕ) → n ≤ k + 0 → ltb k n ≡ true → ⊥
no_via n k le e = ground arith

full : (n k : ℕ) → suc k ≤ n → n ≤ k → ⊥
full n k a b = omega arith

not_over : (n k : ℕ) → ltb n k ≡ false → k ≤ n
not_over n k e = ground arith

module _ {W : Type 0} (o : Oficios W) (h : IsOficios o) where
  portal_step :
      (s : Obra W) (x : Bool × W)
      → ((w : W) → Fin o portales (record s { j = suc s.j; n = w }))
      → FinOf o (un_portal o s x)
  portal_step s (true, w) f = f w
  portal_step s (false, w) f = f w

  -- The rest of a list of buildings, for a next list that ends.
  Fin-lista :
      (b : ℕ) (s : Obra W)
      → o.edificios s.i ≤ s.j + b
      → leb o.barrios s.i ≡ false
      → ((t : Obra W) → t.i ≡ suc s.i → Fin o portales t)
      → Fin o portales s
  unfolding vuelta_fase
  Fin-lista zero s le e next = step o portales s (elim (Bool-cases (leb (o.edificios s.i) s.j)) [
    | inl f ↦ rw (e, f) (next _ refl)
    | inr f ↦ absurd (passed (o.edificios s.i) s.j le f)
  ])
  Fin-lista (suc b) s le e next = step o portales s (elim (Bool-cases (leb (o.edificios s.i) s.j)) [
    | inl f ↦ rw (e, f) (next _ refl)
    | inr f ↦
        rw (e, f)
          (portal_step s (o.portal s.i s.j s.n)
            (λ w. Fin-lista b (record s { j = suc s.j; n = w }) (omega arith) e next))
  ])

  Fin-portales : (a : ℕ) (s : Obra W) → o.barrios ≤ s.i + a → Fin o portales s
  unfolding vuelta_fase
  Fin-portales zero s le = step o portales s (elim (Bool-cases (leb o.barrios s.i)) [
    | inl e ↦ rw e (Fin-parcelas o h _)
    | inr e ↦ absurd (passed o.barrios s.i le e)
  ])
  Fin-portales (suc a) s le = elim (Bool-cases (leb o.barrios s.i)) [
    | inl e ↦ step o portales s (rw e (Fin-parcelas o h _))
    | inr e ↦ Fin-lista (o.edificios s.i) s (omega arith) e (λ t i. Fin-portales a t (omega arith))
  ]

  -- A crossing: behind it comes another of its row, the next row, or the next zone.
  Fin-cruce :
      (s : Obra W)
      → s.en_zona ≡ true
      → leb o.tramas s.i ≡ false
      → ((t : Obra W)
          → t.en_zona ≡ true
          → t.i ≡ s.i
          → t.k ≡ s.k
          → t.j ≡ suc s.j
          → suc s.j ≤ 2 * o.lado s.i
          → Fin o aceras t)
      → ((t : Obra W)
          → t.en_zona ≡ true
          → t.i ≡ s.i
          → t.k ≡ suc s.k
          → t.j ≡ 0
          → suc s.k ≤ 2 * o.lado s.i
          → Fin o aceras t)
      → ((t : Obra W) → t.i ≡ suc s.i → Fin o aceras t)
      → Fin o aceras s
  unfolding vuelta_fase
  Fin-cruce s z e again row zone =
      let n2 = 2 * o.lado s.i in
      step o aceras s (
        rw (e, z)
          (elim (Bool-cases (ltb n2 (suc s.j))) [
            | inl f ↦ elim (Bool-cases (ltb n2 (suc s.k))) [
              | inl g ↦ rw (f, g) (zone _ refl)
              | inr g ↦ rw (f, g) (row _ refl refl refl refl (not_over n2 (suc s.k) g))
            ]
            | inr f ↦ elim (Bool-cases (ltb n2 s.k)) [
              | inl g ↦ rw (f, g) (zone _ refl)
              | inr g ↦ rw (f, g) (again _ refl refl refl refl (not_over n2 (suc s.j) f))
            ]
          ]))

  -- The rest of the zone: `b` crossings of the row, and `a` rows.
  Fin-zona :
      (n2 i : ℕ)
      → 2 * o.lado i ≡ n2
      → leb o.tramas i ≡ false
      → ((t : Obra W) → t.i ≡ suc i → Fin o aceras t)
      → (a b : ℕ) (s : Obra W) → s.i ≡ i
      → s.en_zona ≡ true
      → n2 ≤ s.k + a
      → n2 ≤ s.j + b
      → Fin o aceras s
  Fin-zona n2 i size e zone zero zero s at z lk lj =
      let size' = ap (λ q. 2 * o.lado q) at in
      Fin-cruce s z (rw (sym at) at e)
        (λ t z' i' k' j' le. absurd (full (2 * o.lado s.i) s.j le (omega arith)))
        (λ t z' i' k' j' le. absurd (full (2 * o.lado s.i) s.k le (omega arith)))
        (λ t i'. zone t (i' ∙ ap suc at))
  Fin-zona n2 i size e zone zero (suc b) s at z lk lj =
      let size' = ap (λ q. 2 * o.lado q) at in
      Fin-cruce s z (rw (sym at) at e)
        (λ t z' i' k' j' le.
          Fin-zona n2 i size e zone zero b t (i' ∙ at) z' (omega arith) (omega arith))
        (λ t z' i' k' j' le. absurd (full (2 * o.lado s.i) s.k le (omega arith)))
        (λ t i'. zone t (i' ∙ ap suc at))
  Fin-zona n2 i size e zone (suc a) zero s at z lk lj =
      let size' = ap (λ q. 2 * o.lado q) at in
      Fin-cruce s z (rw (sym at) at e)
        (λ t z' i' k' j' le. absurd (full (2 * o.lado s.i) s.j le (omega arith)))
        (λ t z' i' k' j' le.
          Fin-zona n2 i size e zone a n2 t (i' ∙ at) z' (omega arith) (omega arith))
        (λ t i'. zone t (i' ∙ ap suc at))
  Fin-zona n2 i size e zone (suc a) (suc b) s at z lk lj =
      let size' = ap (λ q. 2 * o.lado q) at in
      Fin-cruce s z (rw (sym at) at e)
        (λ t z' i' k' j' le.
          Fin-zona n2 i size e zone (suc a) b t (i' ∙ at) z' (omega arith) (omega arith))
        (λ t z' i' k' j' le.
          Fin-zona n2 i size e zone a n2 t (i' ∙ at) z' (omega arith) (omega arith))
        (λ t i'. zone t (i' ∙ ap suc at))

  same_round :
      (f : Fase) (s t : Obra W) → vuelta_fase o f s ≡ vuelta_fase o f t → Fin o f t → Fin o f s
  same_round f s t e (zero, (u, q)) = elim q [ ]
  same_round f s t e (suc k, (u, q)) = (suc k, (u, subst (λ x. After o (EndsIn o k) x u) (sym e) q))

  zone_ready :
      (s : Obra W) (b : Bool)
      → s.en_zona ≡ b
      → ((con_zona o s).en_zona ≡ true)
        × (((con_zona o s).i ≡ s.i) × (con_zona o (con_zona o s) ≡ con_zona o s))
  zone_ready s true e = rw e (refl, (refl, refl))
  zone_ready s false e = rw e (refl, (refl, refl))

  round_acera :
      (s : Obra W)
      → leb o.tramas s.i ≡ false
      → vuelta_fase o aceras s ≡ mira aceras (cruza_calle o (con_zona o s))
  unfolding vuelta_fase
  round_acera s e =
      ap
        (λ b. if b then sigue portales (a_fase o s) else mira aceras (cruza_calle o (con_zona o s)))
        e

  Fin-aceras : (d : ℕ) (s : Obra W) → o.tramas ≤ s.i + d → Fin o aceras s
  unfolding vuelta_fase
  Fin-aceras zero s le = step o aceras s (elim (Bool-cases (leb o.tramas s.i)) [
    | inl e ↦ rw e (Fin-portales o.barrios _ (omega arith))
    | inr e ↦ absurd (passed o.tramas s.i le e)
  ])
  Fin-aceras (suc d) s le = elim (Bool-cases (leb o.tramas s.i)) [
    | inl e ↦ step o aceras s (rw e (Fin-portales o.barrios _ (omega arith)))
    | inr e ↦
        let (in_zone, (same, again)) = zone_ready s s.en_zona refl in
        let t = con_zona o s in
        same_round aceras s t
          (round_acera s e
            ∙ ap (λ q. mira aceras (cruza_calle o q)) (sym again)
            ∙ sym (round_acera t (ap (leb o.tramas) same ∙ e)))
          (Fin-zona (2 * o.lado s.i) s.i refl e (λ u i. Fin-aceras d u (omega arith))
            (2 * o.lado s.i) (2 * o.lado s.i) t same in_zone (omega arith) (omega arith))
  ]

  index_ready :
      (s : Obra W) (b : Bool)
      → s.con_asfalto ≡ b
      → ((con_indice o s).con_asfalto ≡ true) × (con_indice o (con_indice o s) ≡ con_indice o s)
  index_ready s true e = rw e (refl, refl)
  index_ready s false e = rw e (refl, refl)

  avanza-FinOf :
      (d : ℕ) (s : Obra W)
      → o.hay_calles ≡ true
      → s.con_asfalto ≡ true
      → o.vias ≤ s.k + d
      → FinOf o (avanza_calzada o s)
  unfolding vuelta_fase
  avanza-FinOf zero s y e le = elim (Bool-cases (ltb s.k o.vias)) [
    | inl f ↦ absurd (no_via o.vias s.k le f)
    | inr f ↦ rw f (Fin-aceras o.tramas _ (omega arith))
  ]
  avanza-FinOf (suc d) s y e le =
      let t : Obra W = record s { k = s.k + 10; n = o.indice_asfalto s.k s.n } in
      let kept : con_indice o t ≡ t =
        ap (λ b. if b then t else record t { con_asfalto = true; k = 0; n = o.nuevo_asfalto t.n })
          e in
      elim (Bool-cases (ltb s.k o.vias)) [
        | inl f ↦ rw f (
            step o calzada t (
              subst
                (λ (b : Bool). FinOf o (if b then avanza_calzada o (con_indice o t) else hecho t))
                (sym y)
                (subst (λ q. FinOf o (avanza_calzada o q)) (sym kept)
                  (avanza-FinOf d t y e (omega arith)))))
        | inr f ↦ rw f (Fin-aceras o.tramas _ (omega arith))
      ]

  Fin-calzada : (s : Obra W) → Fin o calzada s
  unfolding vuelta_fase
  Fin-calzada s = step o calzada s (elim (Bool-cases o.hay_calles) [
    | inl y ↦
        subst (λ (b : Bool). FinOf o (if b then avanza_calzada o (con_indice o s) else hecho s))
          (sym y)
          (avanza-FinOf o.vias (con_indice o s) y (index_ready s s.con_asfalto refl).0
            (omega arith))
    | inr y ↦
        subst (λ (b : Bool). FinOf o (if b then avanza_calzada o (con_indice o s) else hecho s))
          (sym y) tt
  ])

  -- From some number of rounds on, the work ends, with one and the same result: at once, and in frames,
  -- whatever their clocks let pass, as soon as there are as many frames as that. Here the phases leave
  -- the lengths of the lists that they go through alone, and the city, the hour and the camera stay as
  -- they are.
  pub work_ends :
      (calienta : Bool) (w : W)
      → (k : ℕ) × ((u : Obra W) × ((rounds : ℕ)
            → k ≤ rounds
            → (fases o rounds rounds calzada (trabajo_nuevo calienta w) ≡ some (acabada u))
              × ((plazos : List ℕ)
                  → k ≤ length plazos
                  → cuadros o rounds plazos calzada (trabajo_nuevo calienta w) ≡ some (acabada u))))
  work_ends calienta w =
      let s = trabajo_nuevo calienta w in
      let (k, (u, q)) = Fin-calzada s in
      (
        k,
        (
          u,
          λ rounds le. (
            fases_at_once o k rounds calzada s u le q,
            λ plazos le'. cuadros_done o k rounds plazos calzada s u le le' q,
          ),
        ),
      )
