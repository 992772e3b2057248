-- ===== src/Vida/Calle/Ventanas.antt =====
-- The search finds those that the window holds.
use rami_ledger.Prelude.{
  ltb→lt, not_ltb, ℕ, zero, suc, ◌+◌, ◌/◌, ◌≤◌, ◌<◌, ◌≡◌, refl, sym, ap, subst, ◌∙◌, Bool, true,
  false, not, ◌&&◌, Option, none, some, List, [], ◌∷◌, ◌++◌, ltb, length, get_elem?, drop, All, map,
  if◌then◌else◌, Bool-cases, inl, inr, arith,
}
use rami_ledger.Vida.Rutas.{Numeros}
use rami_ledger.Vida.Calle.{
  ZonaHoras, en_dia, sale_antes, busca_en, rangos, hasta_hora, un_rango, cada_rango, una_zona,
  cada_zona, en_ventana,
}

module _ (n : Numeros) where
  -- The comparisons of whole numbers with others are monotone.
  pub record EsOrden : Type 0 where
    pub menor_baja :
        (x y : ℕ) (a : n.N) → x ≤ y → n.menor (n.de y) a ≡ true → n.menor (n.de x) a ≡ true
    pub alcanza_baja :
        (x y : ℕ) (b : n.N) → x ≤ y → n.alcanza b (n.de y) ≡ true → n.alcanza b (n.de x) ≡ true

  abbrev pub Ascienden : List ℕ → Type 0
  Ascienden [] = Unit
  Ascienden (t ∷ ts) = All (λ u. t ≤ u) ts × Ascienden ts

  -- How many at the head are before a time.
  abbrev anteriores : n.N → List ℕ → ℕ
  anteriores a [] = 0
  anteriores a (t ∷ ts) = let rest = anteriores a ts in if n.menor (n.de t) a then suc rest else 0

  at_least : (a : n.N) (ts : List ℕ) → anteriores a ts ≤ length ts
  at_least a [] = omega arith
  at_least a (t ∷ ts) = elim (Bool-cases (n.menor (n.de t) a)) [
    | inl e ↦ rw e (let k = at_least a ts in omega arith)
    | inr e ↦ rw e (omega arith)
  ]

  module _ (o : EsOrden) where
    none_before :
        (a : n.N) (t : ℕ) (ts : List ℕ) (i : ℕ)
        → n.menor (n.de t) a ≡ false
        → All (λ u. t ≤ u) ts
        → sale_antes n a (get_elem? ts i) ≡ false
    none_before a t [] i e h = refl
    none_before a t (u ∷ ts) zero e h = elim (Bool-cases (n.menor (n.de u) a)) [
      | inl d ↦ cc (o.menor_baja t u a h.0 d)
      | inr d ↦ d
    ]
    none_before a t (u ∷ ts) (suc i) e h = none_before a t ts i e h.1

    one_more : (i k : ℕ) → ltb i k ≡ ltb (suc i) (suc k)
    one_more i k = ground arith

    before_at :
        (a : n.N) (ts : List ℕ) (i : ℕ)
        → Ascienden ts
        → sale_antes n a (get_elem? ts i) ≡ ltb i (anteriores a ts)
    before_at a [] i h = ground arith
    before_at a (t ∷ ts) zero h = elim (Bool-cases (n.menor (n.de t) a)) [
      | inl e ↦ rw e (ground arith)
      | inr e ↦ rw e (ground arith)
    ]
    before_at a (t ∷ ts) (suc i) h = elim (Bool-cases (n.menor (n.de t) a)) [
      | inl e ↦ rw e (before_at a ts i h.1 ∙ one_more i (anteriores a ts))
      | inr e ↦ rw e (none_before a t ts i e h.0 ∙ sym (not_ltb (suc i) 0 (omega arith)))
    ]

    le_of_not : (i k : ℕ) → ltb i k ≡ false → k ≤ i
    le_of_not i k h = ground arith

    -- Enough fuel finds the first that is not before.
    search_ends :
        (g : ℕ) (a : n.N) (ts : List ℕ) (lo hi : ℕ)
        → Ascienden ts
        → lo ≤ anteriores a ts
        → anteriores a ts ≤ hi
        → hi ≤ lo + g
        → busca_en n g a ts (lo, hi) ≡ anteriores a ts
    search_ends zero a ts lo hi h l r e = omega arith
    search_ends (suc g) a ts lo hi h l r e = elim (Bool-cases (ltb lo hi)) [
      | inl q ↦ rw q (
          by_half (sale_antes n a (get_elem? ts ((lo + hi) / 2))) refl
            (λ lo' hi'. search_ends g a ts lo' hi' h) (ltb→lt lo hi q))
      | inr q ↦ rw q (ground arith)
    ]
      where
        by_half :
            (b : Bool)
            → sale_antes n a (get_elem? ts ((lo + hi) / 2)) ≡ b
            → ((lo' hi' : ℕ)
                → lo' ≤ anteriores a ts
                → anteriores a ts ≤ hi'
                → hi' ≤ lo' + g
                → busca_en n g a ts (lo', hi') ≡ anteriores a ts)
            → lo < hi
            → busca_en n g a ts (if b then (suc ((lo + hi) / 2), hi) else (lo, (lo + hi) / 2))
              ≡ anteriores a ts
        by_half true d ih q =
            let k =
              ltb→lt ((lo + hi) / 2) (anteriores a ts)
                (sym (before_at a ts ((lo + hi) / 2) h) ∙ d) in
            ih (suc ((lo + hi) / 2)) hi (omega arith) r (omega arith)
        by_half false d ih q =
            let k =
              le_of_not ((lo + hi) / 2) (anteriores a ts)
                (sym (before_at a ts ((lo + hi) / 2) h) ∙ d) in
            ih lo ((lo + hi) / 2) l k (omega arith)

    -- The reference: those of the trips, in their order, that go out within the stretch.
    module _ {V : Type 0} (hora_de : V → ℕ) where
      abbrev pub en_tramo : n.N × n.N → V → Bool
      en_tramo (a, b) v = not (n.menor (n.de (hora_de v)) a) && n.alcanza b (n.de (hora_de v))

      abbrev pub del_tramo : n.N × n.N → List V → List V
      del_tramo r [] = []
      del_tramo r (v ∷ vs) = let rest = del_tramo r vs in if en_tramo r v then v ∷ rest else rest

      late_out :
          (a b : n.N) (t : ℕ) (vs : List V)
          → n.alcanza b (n.de t) ≡ false
          → All (λ u. t ≤ u) (map hora_de vs)
          → del_tramo (a, b) vs ≡ []
      late_out a b t [] e h = refl
      late_out a b t (v ∷ vs) e h = elim (Bool-cases (n.alcanza b (n.de (hora_de v)))) [
        | inl d ↦ cc (o.alcanza_baja t (hora_de v) b h.0 d)
        | inr d ↦ elim (Bool-cases (n.menor (n.de (hora_de v)) a)) [
          | inl c ↦ rw (d, c) (late_out a b t vs e h.1)
          | inr c ↦ rw (d, c) (late_out a b t vs e h.1)
        ]
      ]

      late-All :
          (a : n.N) (t : ℕ) (ts : List ℕ)
          → n.menor (n.de t) a ≡ false
          → All (λ u. t ≤ u) ts
          → All (λ u. n.menor (n.de u) a ≡ false) ts
      late-All a t [] e h = tt
      late-All a t (u ∷ ts) e h = (none_before a t (u ∷ []) 0 e (h.0, tt), late-All a t ts e h.1)

      module _ {S : Type 0} (cada : ZonaHoras V → V → S → S) where
        abbrev pub en_orden : (V → S → S) → List V → S → S
        en_orden g [] s = s
        en_orden g (v ∷ vs) s = en_orden g vs (g v s)

        en_orden-append :
            (g : V → S → S) (vs ws : List V) (s : S)
            → en_orden g (vs ++ ws) s ≡ en_orden g ws (en_orden g vs s)
        en_orden-append g [] ws s = refl
        en_orden-append g (v ∷ vs) ws s = en_orden-append g vs ws (g v s)

        loop_lem :
            (a b : n.N) (z : ZonaHoras V) (vs : List V) (s : S)
            → Ascienden (map hora_de vs)
            → All (λ u. n.menor (n.de u) a ≡ false) (map hora_de vs)
            → hasta_hora n cada b z (map hora_de vs) vs s
              ≡ en_orden (cada z) (del_tramo (a, b) vs) s
        loop_lem a b z [] s h l = refl
        loop_lem a b z (v ∷ vs) s h l = elim (Bool-cases (n.alcanza b (n.de (hora_de v)))) [
          | inl d ↦ rw (d, l.0) (loop_lem a b z vs (cada z v s) h.1 l.1)
          | inr d ↦
              rw (d, l.0)
                (ap (λ q. en_orden (cada z) q s) (sym (late_out a b (hora_de v) vs d h.0)))
        ]

        skip_lem :
            (a b : n.N) (z : ZonaHoras V) (vs : List V) (s : S)
            → Ascienden (map hora_de vs)
            → hasta_hora n cada b z
                (drop (anteriores a (map hora_de vs)) (map hora_de vs))
                (drop (anteriores a (map hora_de vs)) vs)
                s
              ≡ en_orden (cada z) (del_tramo (a, b) vs) s
        skip_lem a b z [] s h = refl
        skip_lem a b z (v ∷ vs) s h = elim (Bool-cases (n.menor (n.de (hora_de v)) a)) [
          | inl e ↦ rw e (skip_lem a b z vs s h.1)
          | inr e ↦ by_late e
        ]
          where
            by_late :
                n.menor (n.de (hora_de v)) a ≡ false
                → hasta_hora n cada b z
                    (drop (anteriores a (map hora_de (v ∷ vs))) (map hora_de (v ∷ vs)))
                    (drop (anteriores a (map hora_de (v ∷ vs))) (v ∷ vs))
                    s
                  ≡ en_orden (cada z) (del_tramo (a, b) (v ∷ vs)) s
            by_late e =
                ap
                  (λ (c : Bool).
                    let k = if c then suc (anteriores a (map hora_de vs)) else 0 in
                    hasta_hora n cada b z (drop k (map hora_de (v ∷ vs))) (drop k (v ∷ vs)) s)
                  e
                ∙ loop_lem a b z (v ∷ vs) s h (e, late-All a (hora_de v) (map hora_de vs) e h.0)

        one_range :
            (r : n.N × n.N) (z : ZonaHoras V) (s : S)
            → Ascienden (map hora_de z.viajes)
            → un_rango n cada z (map hora_de z.viajes) r s
              ≡ en_orden (cada z) (del_tramo r z.viajes) s
        one_range (a, b) z s h =
            ap (λ k. hasta_hora n cada b z (drop k (map hora_de z.viajes)) (drop k z.viajes) s)
              (search_ends (length (map hora_de z.viajes)) a (map hora_de z.viajes) 0
                (length (map hora_de z.viajes)) h (omega arith) (at_least a (map hora_de z.viajes))
                (omega arith))
            ∙ skip_lem a b z z.viajes s h

        abbrev pub de_tramos : List (n.N × n.N) → List V → List V
        de_tramos [] vs = []
        de_tramos (r ∷ rs) vs = del_tramo r vs ++ de_tramos rs vs

        ranges_lem :
            (rs : List (n.N × n.N)) (z : ZonaHoras V) (s : S)
            → Ascienden (map hora_de z.viajes)
            → cada_rango n cada z (map hora_de z.viajes) rs s
              ≡ en_orden (cada z) (de_tramos rs z.viajes) s
        ranges_lem [] z s h = refl
        ranges_lem (r ∷ rs) z s h =
            ap (cada_rango n cada z (map hora_de z.viajes) rs) (one_range r z s h)
            ∙ (ranges_lem rs z _ h
                ∙ sym (en_orden-append (cada z) (del_tramo r z.viajes) (de_tramos rs z.viajes) s))

        -- The times of a zone, once they are there, are those of its trips, in order.
        abbrev pub Conoce : Option (List ℕ) → List V → Type 0
        Conoce none vs = Unit
        Conoce (some ts) vs = (ts ≡ map hora_de vs) × Ascienden ts

        abbrev pub salidas : Option (List ℕ) → List (n.N × n.N) → List V → List V
        salidas none rs vs = []
        salidas (some ts) rs vs = de_tramos rs vs

        abbrev pub por_zonas : List (ZonaHoras V) → List (n.N × n.N) → S → S
        por_zonas [] rs s = s
        por_zonas (z ∷ zs) rs s = por_zonas zs rs (en_orden (cada z) (salidas z.t0s rs z.viajes) s)

        no_trips : (rs : List (n.N × n.N)) → de_tramos rs [] ≡ []
        no_trips [] = refl
        no_trips (r ∷ rs) = no_trips rs

        one_zone :
            (o' : Option (List ℕ)) (vs : List V) (rs : List (n.N × n.N)) (s : S)
            → Conoce o' vs
            → let z : ZonaHoras V = record { t0s = o'; viajes = vs } in
              una_zona n cada z o' rs s ≡ en_orden (cada z) (salidas o' rs vs) s
        one_zone none vs rs s h = refl
        one_zone (some []) [] rs s h =
            ap (λ q. en_orden (cada (record { t0s = some []; viajes = [] })) q s)
              (sym (no_trips rs))
        one_zone (some []) (v ∷ vs) rs s h = cc h.0
        one_zone (some (t ∷ ts)) vs rs s h =
            let z : ZonaHoras V = record { t0s = some (t ∷ ts); viajes = vs } in
            ap (λ q. cada_rango n cada z q rs s) h.0 ∙ ranges_lem rs z s (subst Ascienden h.0 h.1)

        zones_lem :
            (zs : List (ZonaHoras V)) (rs : List (n.N × n.N)) (s : S)
            → All (λ z. Conoce z.t0s z.viajes) zs
            → cada_zona n cada zs rs s ≡ por_zonas zs rs s
        zones_lem [] rs s h = refl
        zones_lem (z ∷ zs) rs s h =
            ap (cada_zona n cada zs rs) (one_zone z.t0s z.viajes rs s h.0) ∙ zones_lem zs rs _ h.1

        -- The trips of a window are visited zone by zone, and in a zone stretch by stretch and in order of
        -- their times: those, and no others, that go out within the stretch, its two ends included. Here
        -- the times of a zone, where they are known, are those of its trips in ascending order, and the
        -- comparisons of whole numbers with others are monotone.
        pub en_ventana-por_zonas :
            (t ancho : n.N) (zs : List (ZonaHoras V)) (s : S)
            → All (λ z. Conoce z.t0s z.viajes) zs
            → en_ventana n cada t ancho zs s ≡ por_zonas zs (rangos n (en_dia n t) ancho) s
        unfolding en_ventana
        en_ventana-por_zonas t ancho zs s h = zones_lem zs (rangos n (en_dia n t) ancho) s h
