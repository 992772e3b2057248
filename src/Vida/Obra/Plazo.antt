-- ===== src/Vida/Obra/Plazo.antt =====
-- The work ends, at once and in slices, with the same result.
use rami_ledger.Prelude.{
  ℕ, zero, suc, ◌+◌, ◌≤◌, ◌≡◌, refl, sym, subst, inl, inr, Bool, true, false, arith, leb,
  if◌then◌else◌, Bool-cases,
}
use rami_ledger.Vida.Obra.{
  Fase, parcelas, casas, contratos, oficinas, horas, calentado, Obra, Oficios, Ronda, hecho, sigue,
  mira, a_fase, con_parcelas, con_oficinas_zonas, con_lista, acaba_horas, vuelta_fase,
}
use rami_ledger.Vida.Obra.Cortes.{EndsIn}

short : (count i : ℕ) → count ≤ i + 0 → leb count i ≡ false → ⊥
short count i le e = ground arith

-- What the phases leave alone: a list that a phase goes through keeps its length.
pub record IsOficios {W : Type 0} (o : Oficios W) : Type 0 where
  pub casas_kept : (i : ℕ) (w : W) → o.n_casas (o.vecinos i w) ≡ o.n_casas w
  pub empresas_kept : (i : ℕ) (w : W) → o.n_empresas (o.recluta i w) ≡ o.n_empresas w
  pub personas_kept : (i : ℕ) (w : W) → o.n_personas (o.destino i w) ≡ o.n_personas w
  pub zonas_kept : (i : ℕ) (w : W) → o.n_zonas (o.ordena_zona i w) ≡ o.n_zonas w
  pub pre_kept : (i : ℕ) (w : W) → o.n_pre (o.calienta_viaje i w) ≡ o.n_pre w

module _ {W : Type 0} (o : Oficios W) where
  -- The work ends from here.
  abbrev pub Fin : Fase → Obra W → Type 0
  Fin f s = (k : ℕ) × ((u : Obra W) × EndsIn o k f s u)

  abbrev pub FinOf : Ronda W → Type 0
  FinOf (hecho s) = Unit
  FinOf (sigue f s) = Fin f s
  FinOf (mira f s) = Fin f s

  step_at : (f : Fase) (s : Obra W) (x : Ronda W) → vuelta_fase o f s ≡ x → FinOf x → Fin f s
  step_at f s (hecho u) e h = (1, (u, rw e refl))
  step_at f s (sigue g t) e (k, (u, h)) = (suc k, (u, rw e h))
  step_at f s (mira g t) e (k, (u, h)) = (suc k, (u, rw e h))

  pub step : (f : Fase) (s : Obra W) → FinOf (vuelta_fase o f s) → Fin f s
  step f s h = step_at f s (vuelta_fase o f s) refl h

  -- A phase that prepares itself and goes through a list.
  module _ (f : Fase) (count : W → ℕ) (work : ℕ → W → W) (prep : Obra W → Obra W)
      (P : Obra W → Type 0) (end : Obra W → Ronda W) where
    abbrev body : Obra W → Ronda W
    body s =
        if leb (count s.n) s.i then end s else mira f (record s { i = suc s.i; n = work s.i s.n })

    walk_on :
        ((s : Obra W) → vuelta_fase o f s ≡ body (prep s))
        → ((s : Obra W) → P s → prep s ≡ s)
        → ((s : Obra W) → P s → P (record s { i = suc s.i; n = work s.i s.n }))
        → ((i : ℕ) (w : W) → count (work i w) ≡ count w)
        → ((s : Obra W) → FinOf (end s))
        → (d : ℕ) (s : Obra W) → P s
        → count s.n ≤ s.i + d
        → leb (count s.n) s.i ≡ false
        → Fin f (record s { i = suc s.i; n = work s.i s.n })
    walk_on is stays keeps kept next zero s p le e = absurd (short (count s.n) s.i le e)
    walk_on is stays keeps kept next (suc d) s p le e =
        let t : Obra W = record s { i = suc s.i; n = work s.i s.n } in
        let same = kept s.i s.n in
        let more : count t.n ≤ t.i + d = omega arith in
        let rest : FinOf (body t) = elim (Bool-cases (leb (count t.n) t.i)) [
          | inl c ↦ rw c (next t)
          | inr c ↦ rw c (walk_on is stays keeps kept next d t (keeps s p) more c)
        ] in
        step f t
          (subst FinOf (sym (is t)) (subst (λ q. FinOf (body q)) (sym (stays t (keeps s p))) rest))

    walk :
        ((s : Obra W) → vuelta_fase o f s ≡ body (prep s))
        → ((s : Obra W) → P s → prep s ≡ s)
        → ((s : Obra W) → P s → P (record s { i = suc s.i; n = work s.i s.n }))
        → ((i : ℕ) (w : W) → count (work i w) ≡ count w)
        → ((s : Obra W) → FinOf (end s))
        → (d : ℕ) (s : Obra W) → P s
        → count s.n ≤ s.i + d
        → FinOf (body s)
    walk is stays keeps kept next d s p le = elim (Bool-cases (leb (count s.n) s.i)) [
      | inl e ↦ rw e (next s)
      | inr e ↦ rw e (walk_on is stays keeps kept next d s p le e)
    ]

    -- The phase ends, from wherever it stands.
    phase :
        ((s : Obra W) → vuelta_fase o f s ≡ body (prep s))
        → ((s : Obra W) → P (prep s))
        → ((s : Obra W) → P s → prep s ≡ s)
        → ((s : Obra W) → P s → P (record s { i = suc s.i; n = work s.i s.n }))
        → ((i : ℕ) (w : W) → count (work i w) ≡ count w)
        → ((s : Obra W) → FinOf (end s))
        → (s : Obra W) → Fin f s
    phase is ready stays keeps kept next s = step f s (
        subst FinOf (sym (is s))
          (walk is stays keeps kept next (count (prep s).n) (prep s) (ready s) (omega arith)))

  has_list : (s : Obra W) (b : Bool) → s.con_pre ≡ b → (con_lista o s).con_pre ≡ true
  has_list s true e = rw e refl
  has_list s false e = rw e refl

  has_offices :
      (s : Obra W) (b : Bool) → s.con_oficinas ≡ b → (con_oficinas_zonas o s).con_oficinas ≡ true
  has_offices s true e = rw e refl
  has_offices s false e = rw e refl

  has_parcels : (s : Obra W) (b : Bool) → s.con_pcs ≡ b → (con_parcelas o s).con_pcs ≡ true
  has_parcels s true e = rw e refl
  has_parcels s false e = rw e refl

  module _ (h : IsOficios o) where
    Fin-calentado : (s : Obra W) → Fin calentado s
    unfolding vuelta_fase
    Fin-calentado =
        phase calentado o.n_pre o.calienta_viaje (con_lista o) (λ s. s.con_pre ≡ true) hecho
          (λ s. refl) (λ s. has_list s s.con_pre refl) (λ s e. rw e refl) (λ s e. e) h.pre_kept
          (λ s. tt)

    fin_acaba : (s : Obra W) → FinOf (acaba_horas o s)
    fin_acaba s = elim (Bool-cases s.calienta) [ inl e ↦ rw e (Fin-calentado _) | inr e ↦ rw e tt ]

    Fin-horas : (s : Obra W) → Fin horas s
    unfolding vuelta_fase
    Fin-horas =
        phase horas o.n_zonas o.ordena_zona (λ s. s) (λ s. Unit)
          (λ s. acaba_horas o (record s { n = o.duraciones s.n })) (λ s. refl) (λ s. tt)
          (λ s e. refl) (λ s e. tt) h.zonas_kept (λ s. fin_acaba _)

    Fin-oficinas : (s : Obra W) → Fin oficinas s
    unfolding vuelta_fase
    Fin-oficinas =
        phase oficinas o.n_personas o.destino (con_oficinas_zonas o) (λ s. s.con_oficinas ≡ true)
          (λ s. sigue horas (a_fase o s)) (λ s. refl) (λ s. has_offices s s.con_oficinas refl)
          (λ s e. rw e refl) (λ s e. e) h.personas_kept (λ s. Fin-horas (a_fase o s))

    Fin-contratos : (s : Obra W) → Fin contratos s
    unfolding vuelta_fase
    Fin-contratos =
        phase contratos o.n_empresas o.recluta (λ s. s) (λ s. Unit)
          (λ s. sigue oficinas (a_fase o s)) (λ s. refl) (λ s. tt) (λ s e. refl) (λ s e. tt)
          h.empresas_kept (λ s. Fin-oficinas (a_fase o s))

    Fin-casas : (s : Obra W) → Fin casas s
    unfolding vuelta_fase
    Fin-casas =
        phase casas o.n_casas o.vecinos (λ s. s) (λ s. Unit) (λ s. sigue contratos (a_fase o s))
          (λ s. refl) (λ s. tt) (λ s e. refl) (λ s e. tt) h.casas_kept
          (λ s. Fin-contratos (a_fase o s))

    pub Fin-parcelas : (s : Obra W) → Fin parcelas s
    unfolding vuelta_fase
    Fin-parcelas =
        phase parcelas (λ w. o.n_parcelas) o.parcela_empresa (con_parcelas o)
          (λ s. s.con_pcs ≡ true) (λ s. sigue casas (a_fase o s)) (λ s. refl)
          (λ s. has_parcels s s.con_pcs refl) (λ s e. rw e refl) (λ s e. e) (λ i w. refl)
          (λ s. Fin-casas (a_fase o s))
