-- ===== src/Vida/Rutas/Posiciones.antt =====
-- What is kept does not show: `posicion` is a function of the data and the time.
use mathlib.Core.Option.{some-injective}
use rami_ledger.Prelude.{
  ℕ, suc, ◌≡◌, refl, sym, ◌∙◌, ap, subst, ◌⊎◌, inl, inr, Bool, true, false, ◌&&◌, Option, none,
  some, List, [], ◌∷◌, arith, ◌==◌, ==_iff, if◌then◌else◌, Bool-cases, length, Apart,
}
use rami_ledger.Vida.Diario.{dia}
use rami_ledger.Vida.Rutas.{Numeros, Ruta, Calles, ruta_nueva}
use rami_ledger.Vida.Rutas.Guardadas.{
  busca, cambia_en, Guardado, dur_de, anota_dur, guardada, ruta_con, ruta_de, suelta_si, suelta,
  desde_salida, dur_sabida, segun_ruta, acabado, si_positiva, transcurrido, Posicion, en_ruta,
  si_anda, primera, de_persona, posicion,
}
use rami_ledger.Vida.Rutas.Claves.{absent, busca-quita, length-quita, Apart-quita}

module _ (n : Numeros) (Linea : Type 0) (m : Calles n Linea)
    (ids : (k : ℕ) → (m.viajes k).id ≡ k) where
  abbrev pub Estado : Type 0
  Estado = Guardado n Linea m

  abbrev pub nueva : ℕ → Option (Ruta n Linea)
  nueva k = ruta_nueva n Linea m (m.viajes k)

  -- What is kept is what would be computed, once for each trip, and is counted.
  pub record IsGuardado (s : Estado) : Type 0 where
    pub right : (k : ℕ) (r : Option (Ruta n Linea)) → busca k s.cache ≡ some r → r ≡ nueva k
    pub known :
        (f : ℕ → Option n.N) (k : ℕ) (d : n.N)
        → s.dur ≡ some f
        → f k ≡ some d
        → d ≡ dur_de n Linea m (nueva k)
    pub count : s.n_cache ≡ length s.cache
    pub apart : Apart (λ (e : ℕ × Option (Ruta n Linea)). e.0) s.cache

  guardada-right :
      (s : Estado) (k : ℕ)
      → IsGuardado s
      → (j : ℕ) (r : Option (Ruta n Linea))
      → (if k == j then some (nueva k) else busca j s.cache) ≡ some r
      → r ≡ nueva j
  guardada-right s k h j r e = elim (Bool-cases (k == j)) [
    | inl same ↦ sym (some-injective _ _ (rw same at e)) ∙ ap nueva ((==_iff k j).0 same)
    | inr other ↦ h.right j r (rw other at e)
  ]

  anota_dur-known :
      (o : Option (ℕ → Option n.N)) (k : ℕ)
      → ((f : ℕ → Option n.N) (j : ℕ) (d : n.N)
          → o ≡ some f
          → f j ≡ some d
          → d ≡ dur_de n Linea m (nueva j))
      → (f : ℕ → Option n.N) (j : ℕ) (d : n.N) → anota_dur n Linea m o k (nueva k) ≡ some f
      → f j ≡ some d
      → d ≡ dur_de n Linea m (nueva j)
  anota_dur-known none k h f j d e at = cc e
  anota_dur-known (some g) k h f j d e at =
      let now : cambia_en g k (some (dur_de n Linea m (nueva k))) j ≡ some d =
        ap (λ (q : ℕ → Option n.N). q j) (some-injective _ _ e) ∙ at in
      elim (Bool-cases (k == j)) [
        | inl same ↦
            sym (some-injective _ _ (rw same at now))
            ∙ ap (λ (q : ℕ). dur_de n Linea m (nueva q)) ((==_iff k j).0 same)
        | inr other ↦ h g j d refl (rw other at now)
      ]

  guardada-IsGuardado :
      (s : Estado) (k : ℕ)
      → busca k s.cache ≡ none
      → IsGuardado s
      → IsGuardado (guardada n Linea m k (nueva k) s)
  guardada-IsGuardado s k e h = record {
    right = guardada-right s k h;
    known = anota_dur-known s.dur k h.known;
    count = ap suc h.count;
    apart = (absent k s.cache e, h.apart);
  }

  -- A way that is waited for was not kept, and the frame has no time for it; any other is the one that
  -- would be computed.
  abbrev pub Espera : ℕ → Bool → Estado → Type 0
  Espera k late s = (busca k s.cache ≡ none) × (late ≡ true)

  abbrev pub Gives : ℕ → Bool → Estado → Option (Option (Ruta n Linea)) × Estado → Type 0
  Gives k late old (o, s) = IsGuardado s × ((o ≡ some (nueva k)) ⊎ ((o ≡ none) × Espera k late old))

  by_number :
      (k : ℕ) (s : Estado) {o : Option (Option (Ruta n Linea))}
      → busca (m.viajes k).id s.cache ≡ o
      → busca k s.cache ≡ o
  by_number k s e = ap (λ id. busca id s.cache) (sym (ids k)) ∙ e

  ruta_con-Gives :
      (k : ℕ) (pres tarde : Bool) (o : Option (Option (Ruta n Linea))) (s : Estado)
      → busca (m.viajes k).id s.cache ≡ o
      → IsGuardado s
      → Gives k (pres && tarde) s (ruta_con n Linea m (m.viajes k) pres tarde o s)
  ruta_con-Gives k pres tarde (some r) s e h = (
    record { right = h.right; known = h.known; count = h.count; apart = h.apart },
    inl (ap some (h.right k r (by_number k s e))),
  )
  ruta_con-Gives k pres tarde none s e h = elim (Bool-cases (pres && tarde)) [
    | inl late ↦ rw late (
      record { right = h.right; known = h.known; count = h.count; apart = h.apart },
      inr (refl, (by_number k s e, refl)),
    )
    | inr soon ↦ rw soon (
      subst (λ id. IsGuardado (guardada n Linea m id (nueva k) s)) (sym (ids k))
          (guardada-IsGuardado s k (by_number k s e) h),
      inl refl,
    )
  ]

  ruta_de-Gives :
      (k : ℕ) (pres tarde : Bool) (s : Estado)
      → IsGuardado s
      → Gives k (pres && tarde) s (ruta_de n Linea m (m.viajes k) pres tarde s)
  unfolding ruta_de
  ruta_de-Gives k pres tarde s h =
      ruta_con-Gives k pres tarde (busca (m.viajes k).id s.cache) s refl h

  suelta_si-IsGuardado :
      (k : ℕ) (o : Option (Option (Ruta n Linea))) (s : Estado)
      → busca k s.cache ≡ o
      → IsGuardado s
      → IsGuardado (suelta_si n Linea m k o s)
  suelta_si-IsGuardado k none s e h = h
  suelta_si-IsGuardado k (some r) s e h = record {
    right = λ j q at. h.right j q (busca-quita j k s.cache q h.apart at);
    known = h.known;
    count = let c = h.count in omega (arith, length-quita k s.cache r e);
    apart = Apart-quita k s.cache h.apart;
  }

  suelta-IsGuardado : (k : ℕ) (s : Estado) → IsGuardado s → IsGuardado (suelta n Linea m k s)
  suelta-IsGuardado k s h = suelta_si-IsGuardado k (busca k s.cache) s refl h

  -- Where a trip is at a time, from its way alone.
  abbrev pub segun : Option (Ruta n Linea) → n.N → Option n.N
  segun none el = none
  segun (some r) el = if n.alcanza el r.dur then none else some el

  abbrev pub en_calle : ℕ → n.N → Option n.N
  en_calle k t = segun (nueva k) (desde_salida n Linea m (m.viajes k) t)

  abbrev pub Tells : ℕ → n.N → Bool → Estado → Option n.N × Estado → Type 0
  Tells k t late old (o, s) = IsGuardado s × ((o ≡ en_calle k t) ⊎ ((o ≡ none) × Espera k late old))

  segun_ruta-Tells :
      (k : ℕ) (t : n.N) (late : Bool) (old : Estado) (got : Option (Option (Ruta n Linea)) × Estado)
      → Gives k late old got
      → Tells k t late old
          (segun_ruta n Linea m (m.viajes k) (desde_salida n Linea m (m.viajes k) t) got)
  segun_ruta-Tells k t late old (none, s) (h, inl e) = cc e
  segun_ruta-Tells k t late old (none, s) (h, inr (e, l)) = (h, inr (refl, l))
  segun_ruta-Tells k t late old (some r, s) (h, inr (e, l)) = cc e
  segun_ruta-Tells k t late old (some none, s) (h, inl e) =
      (h, inl (ap (λ r. segun r (desde_salida n Linea m (m.viajes k) t)) (some-injective _ _ e)))
  segun_ruta-Tells k t late old (some (some r), s) (h, inl e) =
      let el = desde_salida n Linea m (m.viajes k) t in
      let is : segun (some r) el ≡ en_calle k t = ap (λ q. segun q el) (some-injective _ _ e) in
      elim (Bool-cases (n.alcanza el r.dur)) [
        | inl over ↦ rw over (suelta-IsGuardado (m.viajes k).id s h, inl (rw over at is))
        | inr on ↦ rw on (h, inl (rw on at is))
      ]

  si_positiva-IsGuardado :
      (k : ℕ) (o : Option n.N) (s : Estado)
      → IsGuardado s
      → IsGuardado (si_positiva n Linea m (m.viajes k) o s)
  si_positiva-IsGuardado k none s h = h
  si_positiva-IsGuardado k (some d) s h = elim (Bool-cases (n.alcanza d (n.de 0))) [
    | inl e ↦ rw e (suelta-IsGuardado (m.viajes k).id s h)
    | inr e ↦ rw e h
  ]

  dur_sabida-eq :
      (o : Option (ℕ → Option n.N)) (k : ℕ) (d : n.N)
      → dur_sabida n Linea m o k ≡ some d
      → (f : ℕ → Option n.N) × ((o ≡ some f) × (f k ≡ some d))
  dur_sabida-eq none k d e = cc e
  dur_sabida-eq (some f) k d e = (f, (refl, e))

  -- A remainder that has been made positive is not below a negative number.
  abbrev pub IsAbove : Type 0
  IsAbove =
      (x d : n.N)
      → n.menor d (n.de 0) ≡ true
      → n.alcanza (n.resto (n.mas (n.resto x (n.de dia)) (n.de dia)) (n.de dia)) d ≡ true

  module _ (above : IsAbove) where
    -- A trip that its duration says is over is over.
    over :
        (k : ℕ) (t : n.N) (du : Option n.N)
        → ((d : n.N) → du ≡ some d → d ≡ dur_de n Linea m (nueva k))
        → acabado n Linea m (desde_salida n Linea m (m.viajes k) t) du ≡ true
        → (r : Option (Ruta n Linea)) → nueva k ≡ r
        → segun r (desde_salida n Linea m (m.viajes k) t) ≡ none
    over k t none known e r is = cc e
    over k t (some d) known e none is = refl
    over k t (some d) known e (some r) is =
        let same = known d refl ∙ ap (dur_de n Linea m) is in
        let el = desde_salida n Linea m (m.viajes k) t in
        let reached : n.alcanza el d ≡ true = elim (Bool-cases (n.menor d (n.de 0))) [
          | inl neg ↦ above _ d neg
          | inr pos ↦ rw pos at e
        ] in
        rw (sym same, reached) refl

    -- In a frame and out of it, a trip is where its own way says, whatever is kept, but for one case: a
    -- trip whose way is not kept, in a frame that has used up its time for new ways, is told to be nowhere;
    -- and what is kept stays right. Here what is kept is right before, and a remainder that was made
    -- positive is not below a negative number.
    pub transcurrido-Tells :
        (k : ℕ) (t : n.N) (pres tarde : Bool) (s : Estado)
        → IsGuardado s
        → Tells k t (pres && tarde) s (transcurrido n Linea m (m.viajes k) t pres tarde s)
    unfolding transcurrido
    transcurrido-Tells k t pres tarde s h =
        let el = desde_salida n Linea m (m.viajes k) t in
        let du = dur_sabida n Linea m s.dur (m.viajes k).id in
        let known : (d : n.N) → du ≡ some d → d ≡ dur_de n Linea m (nueva k) = λ d e.
          let (f, (at_f, at_k)) =
            dur_sabida-eq s.dur k d (ap (dur_sabida n Linea m s.dur) (sym (ids k)) ∙ e) in
          h.known f k d at_f at_k in
        elim (Bool-cases (acabado n Linea m el du)) [
          | inl e ↦
              rw e (si_positiva-IsGuardado k du s h, inl (sym (over k t du known e (nueva k) refl)))
          | inr e ↦ rw e (
              segun_ruta-Tells k t (pres && tarde) s (ruta_de n Linea m (m.viajes k) pres tarde s)
                (ruta_de-Gives k pres tarde s h))
        ]

    -- The position from the ways alone.
    abbrev pub o_si_no : ℕ → Option n.N → Option (Posicion n Linea m) → Option (Posicion n Linea m)
    o_si_no k none rest = rest
    o_si_no k (some el) rest = en_ruta n Linea m (m.viajes k) el (some (nueva k))

    abbrev pub primera_pura : List ℕ → n.N → Option (Posicion n Linea m)
    primera_pura [] t = none
    primera_pura (k ∷ ks) t = o_si_no k (en_calle k t) (primera_pura ks t)

    abbrev pub posicion_pura : Option (List ℕ) → n.N → Option (Posicion n Linea m)
    posicion_pura none t = none
    posicion_pura (some ks) t = primera_pura ks t

    si_anda_lem :
        (k : ℕ) (t : n.N) (rest : Option (Posicion n Linea m))
        (next : Estado → Option (Posicion n Linea m) × Estado) (old : Estado)
        (got : Option n.N × Estado)
        → Tells k t false old got
        → ((s : Estado) → IsGuardado s → ((next s).0 ≡ rest) × IsGuardado (next s).1)
        → ((si_anda n Linea m (m.viajes k) got next).0 ≡ o_si_no k (en_calle k t) rest)
          × IsGuardado (si_anda n Linea m (m.viajes k) got next).1
    si_anda_lem k t rest next old (o, s) (h, inr (e, l)) f = cc (l.1)
    si_anda_lem k t rest next old (none, s) (h, inl e) f = rw (sym e) (f s h)
    si_anda_lem k t rest next old (some el, s) (h, inl e) f =
        let (h', got) = ruta_de-Gives k false false s h in
        let way = ruta_de n Linea m (m.viajes k) false false s in
        elim got [
          | inl is ↦ rw (sym e) (ap (en_ruta n Linea m (m.viajes k) el) is, h')
          | inr (gone, l) ↦ cc (l.1)
        ]

    primera_lem :
        (ks : List ℕ) (t : n.N) (s : Estado)
        → IsGuardado s
        → ((primera n Linea m ks t s).0 ≡ primera_pura ks t)
          × IsGuardado (primera n Linea m ks t s).1
    primera_lem [] t s h = (refl, h)
    primera_lem (k ∷ ks) t s h =
        si_anda_lem k t (primera_pura ks t) (primera n Linea m ks t) s
          (transcurrido n Linea m (m.viajes k) t false false s)
          (transcurrido-Tells k t false false s h) (λ s' h'. primera_lem ks t s' h')

    persona_lem :
        (o : Option (List ℕ)) (t : n.N) (s : Estado)
        → IsGuardado s
        → ((de_persona n Linea m o t s).0 ≡ posicion_pura o t)
          × IsGuardado (de_persona n Linea m o t s).1
    persona_lem none t s h = (refl, h)
    persona_lem (some ks) t s h = primera_lem ks t s h

    -- The position of a walker depends on the data and the time alone, and not on what is kept: it is
    -- that of the first of the trips whose way says that it is on the street.
    pub posicion-posicion_pura :
        (i : ℕ) (t : n.N) (s : Estado)
        → IsGuardado s
        → ((posicion n Linea m i t s).0 ≡ posicion_pura (m.viajes_de i) t)
          × IsGuardado (posicion n Linea m i t s).1
    unfolding posicion
    posicion-posicion_pura i t s h = persona_lem (m.viajes_de i) t s h
