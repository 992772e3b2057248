-- ===== src/Umbral/Limites.antt =====
-- Whoever walks inside stays within the space, but for the way out.
use rami_ledger.Prelude.{
  ℕ, zero, suc, ◌≡◌, refl, sym, subst, ◌⊎◌, inl, inr, Bool, true, false, some, ltb, if◌then◌else◌,
  Bool-cases, arith,
}
use rami_ledger.Flotantes.{Flotantes, desde_cero, clamp, decimal, hipotenusa}
use rami_ledger.Flotantes.Enteros.{negado}
use rami_ledger.Catastro.{Punto}
use rami_ledger.Umbral.Estado.{Portal, Caminante}
use rami_ledger.Umbral.Salas.{Pulsadas, Sala}
use rami_ledger.Umbral.Casas.{pon_local_y, al_local, yaw_local}
use rami_ledger.Umbral.Choques.{
  subpasos, ante_boca, pasa_boca, acota_x, acota_z, acotado, subpaso, paso_de_teclas, de_prisa,
  en_subpasos, recorre_sala, anda_dentro,
}

module _ (f : Flotantes) where
  -- A number that is not less than one nor greater than another.
  abbrev pub Entre : f.N → f.N → f.N → Type 0
  Entre a b v = (f.menor v a ≡ false) × (f.menor b v ≡ false)

  clamp-Entre :
      (a b v : f.N)
      → ((x : f.N) → f.menor x x ≡ false)
      → f.menor b a ≡ false
      → Entre a b (clamp f v a b)
  clamp-Entre a b v irr nc = elim (Bool-cases (f.menor v a)) [
    | inl e ↦ rw e (irr a, nc)
    | inr e ↦ elim (Bool-cases (f.menor b v)) [
      | inl d ↦ rw (e, d) (nc, irr b)
      | inr d ↦ rw (e, d) (e, d)
    ]
  ]

  abbrev margen : f.N
  margen = decimal f 5 100

  -- A place within the limits, a twentieth of a metre from them, but before the way out, where only the
  -- walls hold the walker.
  pub record EnSala (e : Sala f) (q : Punto f) : Type 0 where
    pub por_los_lados : Entre (f.mas e.limites.x0 margen) (f.menos e.limites.x1 margen) q.px
    pub fondo :
        (ante_boca f e.boca q.px ≡ true)
        ⊎ Entre (f.mas e.limites.z0 margen) (f.menos e.limites.z1 margen) q.pz

  -- The limits are not nearer to each other than the two margins.
  pub record EsAncha (e : Sala f) : Type 0 where
    pub a_lo_ancho : f.menor (f.menos e.limites.x1 margen) (f.mas e.limites.x0 margen) ≡ false
    pub a_lo_largo : f.menor (f.menos e.limites.z1 margen) (f.mas e.limites.z0 margen) ≡ false

  abbrev Acaba : Sala f → Punto f × Bool → Type 0
  Acaba e (q, sale) = EnSala e q × (sale ≡ pasa_boca f e.boca q)

  module _ (irr : (x : f.N) → f.menor x x ≡ false) where
    held-Acaba : (e : Sala f) (p : Punto f) → EsAncha e → Acaba e (acotado f e p)
    held-Acaba e p h = by_mouth (ante_boca f e.boca (acota_x f e p.px)) refl
      where
        by_mouth :
            (b : Bool)
            → ante_boca f e.boca (acota_x f e p.px) ≡ b
            → let r : Punto f = record {
              px = acota_x f e p.px;
              pz = if b then p.pz else acota_z f e p.pz;
            } in
              Acaba e (r, pasa_boca f e.boca r)
        by_mouth true d =
            (record { por_los_lados = clamp-Entre _ _ p.px irr h.a_lo_ancho; fondo = inl d }, refl)
        by_mouth false d = (
          record {
            por_los_lados = clamp-Entre _ _ p.px irr h.a_lo_ancho;
            fondo = inr (clamp-Entre _ _ p.pz irr h.a_lo_largo);
          },
          refl,
        )

    steps-Acaba :
        (e : Sala f) (vx vz : f.N) (n : ℕ) (q : Punto f × Bool)
        → EsAncha e
        → Acaba e q
        → Acaba e (en_subpasos f e vx vz n q)
    steps-Acaba e vx vz zero q h k = k
    steps-Acaba e vx vz (suc n) (q, true) h k = k
    steps-Acaba e vx vz (suc n) (q, false) h k =
        steps-Acaba e vx vz n (subpaso f e vx vz q) h (held-Acaba e _ h)

    some_step : (n : ℕ) → (m : ℕ) × ((if ltb n 1 then 1 else n) ≡ suc m)
    some_step zero = (0, refl)
    some_step (suc n) = (n, ground arith)

    at_least_one : (v : f.N) → (m : ℕ) × (subpasos f v ≡ suc m)
    at_least_one v = some_step (desde_cero (negado (f.suelo (f.opuesto v))))

    loop-Acaba :
        (e : Sala f) (vx vz : f.N) (n : ℕ) (q : Punto f)
        → EsAncha e
        → (m : ℕ) × (n ≡ suc m)
        → Acaba e (en_subpasos f e vx vz n (q, false))
    loop-Acaba e vx vz n q h (m, s) =
        subst (λ k. Acaba e (en_subpasos f e vx vz k (q, false))) (sym s)
          (steps-Acaba e vx vz m (subpaso f e vx vz q) h (held-Acaba e _ h))

    module _ (Texto : Type 0) where
      -- Where a walk ends in the space, and whether it leads out.
      pub record Anda (e : Sala f) (po : Portal f) (pie : Caminante f) (r : Bool × Caminante f)
          : Type 0 where
        pub lugar : Punto f
        pub en_sala : EnSala e lugar
        pub sale : r.0 ≡ pasa_boca f e.boca lugar
        pub puesto :
            r.1 ≡ pon_local_y f Texto po lugar.px lugar.pz e.suelo (record pie { fly = f.de 0 })

      -- Wherever one stands and whatever keys are down, for however long, a frame of walking in a space
      -- puts the walker at a place of the space: within its limits, or, before the way out, within those
      -- to its sides; and the walk out is called exactly when that place is past the way out. Here no
      -- number is less than itself, and the limits are farther apart than their margins.
      pub anda_dentro-EnSala :
          (e : Sala f) (po : Portal f) (sel : Bool) (k : Pulsadas) (dt : f.N) (pie : Caminante f)
          → EsAncha e
          → Anda e po pie (anda_dentro f Texto (some e) po sel k dt pie)
      unfolding anda_dentro
      anda_dentro-EnSala e po sel k dt pie h =
          let v = paso_de_teclas f sel k (de_prisa f k dt) (yaw_local f Texto po pie) in
          let q = al_local f Texto po pie.x pie.z in
          let np = subpasos f (f.entre (hipotenusa f v.0 v.1) (decimal f 1 10)) in
          let there =
            loop-Acaba e (f.entre v.0 (f.de np)) (f.entre v.1 (f.de np)) np q h
              (at_least_one (f.entre (hipotenusa f v.0 v.1) (decimal f 1 10))) in
          let r = recorre_sala f e v q in
          record { lugar = r.0; en_sala = there.0; sale = there.1; puesto = refl }
