-- ===== src/Transporte/Horas.antt =====
-- Where a train is: the timetable has no gap, and the search finds the stretch of the time.
use rami_ledger.Prelude.{
  ℕ, zero, suc, ◌+◌, ◌-◌, ◌≡◌, refl, sym, ap, subst, ◌∙◌, inl, inr, Bool, true, false, Option, none,
  some, List, [], ◌∷◌, ◌++◌, ltb, length, get_elem?, Bool-cases, arith,
}
use rami_ledger.Flotantes.{Flotantes, cero}
use rami_ledger.Transporte.{mitades, mitades-EsTope, EsTope}
use rami_ledger.Transporte.Trenes.{
  TramoTren, Marcha, HorarioTren, dwell, un_tramo, entre_paradas, recorrido, un_sentido,
  parada_en_cero, horario_tren, va_desde, llega_a, PosTren, empezado, situa, situado, del_ciclo,
  pos_tren,
}

module _ (f : Flotantes) where
  -- Each stretch begins at the time and at the place where the one before it ends.
  abbrev pub Seguido : f.N → f.N → List (TramoTren f) → f.N → f.N → Type 0
  Seguido t s [] t' s' = (t ≡ t') × (s ≡ s')
  Seguido t s (x ∷ xs) t' s' = (x.t0 ≡ t) × (x.s0 ≡ s) × Seguido (f.mas x.t0 x.dur) x.s1 xs t' s'

  one_more :
      (t s t' s' d b : f.N) (o : Option f.N) (xs : List (TramoTren f))
      → Seguido t s xs t' s'
      → Seguido t s
          (xs ++ (record { t0 = t'; dur = d; s0 = s'; s1 = b; largo_tramo = o } ∷ []))
          (f.mas t' d)
          b
  one_more t s t' s' d b o [] h = (sym h.0, sym h.1, (refl, refl))
  one_more t s t' s' d b o (x ∷ xs) h =
      (h.0, h.1, one_more (f.mas x.t0 x.dur) x.s1 t' s' d b o xs h.2)

  -- The stretches that a march has so far lead from one place, at time 0, to another.
  abbrev pub Va : f.N → Marcha f → f.N → Type 0
  Va p m s = Seguido (cero f) p m.tramos m.total s

  module _ (paradas : ℕ → f.N) (ne : ℕ) where
    next_stop :
        (ida : Bool) (i : ℕ) → llega_a f paradas ne ida i ≡ va_desde f paradas ne ida (suc i)
    next_stop true i = ap paradas (omega arith)
    next_stop false i = ap paradas (omega arith)

    stop-Va :
        (p : f.N) (ida : Bool) (i : ℕ) (m : Marcha f)
        → Va p m (va_desde f paradas ne ida i)
        → Va p (entre_paradas f paradas ne ida i m) (va_desde f paradas ne ida (suc i))
    stop-Va p ida i m h =
        let a = va_desde f paradas ne ida i in
        let b = llega_a f paradas ne ida i in
        let moved : Va p (un_tramo f a b m) b =
          one_more (cero f) p m.total a _ b (some _) m.tramos h in
        subst (Va p (entre_paradas f paradas ne ida i m)) (next_stop ida i)
          (elim (Bool-cases (ltb (i + 1) ne)) [
            | inl e ↦ rw e (one_more (cero f) p _ b _ b none _ moved)
            | inr e ↦ rw e moved
          ])

    run-Va :
        (p : f.N) (ida : Bool) (r i : ℕ) (m : Marcha f)
        → Va p m (va_desde f paradas ne ida i)
        → Va p (recorrido f paradas ne ida r i m) (va_desde f paradas ne ida (r + i))
    run-Va p ida zero i m h =
        let same : i ≡ zero + i = omega arith in
        subst (λ k. Va p m (va_desde f paradas ne ida k)) same h
    run-Va p ida (suc r) i m h =
        let same : r + suc i ≡ suc r + i = omega arith in
        subst (λ k. Va p (recorrido f paradas ne ida (suc r) i m) (va_desde f paradas ne ida k))
          same (run-Va p ida r (suc i) (entre_paradas f paradas ne ida i m) (stop-Va p ida i m h))

    -- From the first stop to the last and back.
    horario_tren-Seguido :
        let h = horario_tren f paradas ne in
        Seguido (cero f) (paradas 0) h.tramos h.ciclo_tren (paradas 0)
    horario_tren-Seguido =
        let p = paradas 0 in
        let ida = un_sentido f paradas ne true (parada_en_cero f paradas ne) in
        let there : Va p ida (paradas ne) =
          subst (λ k. Va p ida (paradas k)) (omega arith)
            (run-Va p true ne 0 _ (one_more (cero f) p (cero f) p _ p none [] (refl, refl))) in
        let vuelta = un_sentido f paradas ne false ida in
        subst (λ k. Va p vuelta (paradas k)) (omega arith)
          (run-Va p false ne 0 _ (
            subst (λ k. Va p (dwell f (paradas ne) (f.de 180) ida) (paradas k)) (omega arith)
              (one_more (cero f) p ida.total (paradas ne) _ (paradas ne) none ida.tramos there)))

  -- The stretch that has begun, and that no other follows that has, has not ended.
  stretch_at :
      (tau t s t' s' : f.N) (xs : List (TramoTren f)) (k : ℕ)
      → Seguido t s xs t' s'
      → empezado f tau (get_elem? xs k) ≡ true
      → EsTope (λ i. empezado f tau (get_elem? xs i)) (length xs) k
      → f.alcanza tau t' ≡ false
      → (x : TramoTren f) × (get_elem? xs k ≡ some x)
        × (f.alcanza tau x.t0 ≡ true)
        × (f.alcanza tau (f.mas x.t0 x.dur) ≡ false)
  stretch_at tau t s t' s' [] k h y e z = cc y
  stretch_at tau t s t' s' (x ∷ []) zero h y e z = (x, refl, y, ap (f.alcanza tau) h.2.0 ∙ z)
  stretch_at tau t s t' s' (x ∷ w ∷ ws) zero h y (inl e) z = absurd (one_of_two ws e)
    where
      one_of_two : (ws' : List (TramoTren f)) → 1 ≡ suc (suc (length ws')) → ⊥
      one_of_two ws' q = omega arith
  stretch_at tau t s t' s' (x ∷ w ∷ ws) zero h y (inr e) z =
      (x, refl, y, ap (f.alcanza tau) (sym h.2.0) ∙ e)
  stretch_at tau t s t' s' (x ∷ xs) (suc k) h y e z =
      stretch_at tau (f.mas x.t0 x.dur) x.s1 t' s' xs k h.2 y (before e) z
    where
      before :
          EsTope (λ i. empezado f tau (get_elem? (x ∷ xs) i)) (suc (length xs)) (suc k)
          → EsTope (λ i. empezado f tau (get_elem? xs i)) (length xs) k
      before (inl q) = inl (omega arith)
      before (inr q) = inr q

  -- The answer is the place within a stretch of the timetable that has begun and has not ended.
  pub record EnSuTramo (h : HorarioTren f) (tau : f.N) (p : Option (PosTren f)) : Type 0 where
    pub suyo : TramoTren f
    pub orden : ℕ
    pub esta : get_elem? h.tramos orden ≡ some suyo
    pub ha_empezado : f.alcanza tau suyo.t0 ≡ true
    pub no_acaba : f.alcanza tau (f.mas suyo.t0 suyo.dur) ≡ false
    pub es : p ≡ some (situa f h tau suyo)

  module _ (resto : f.N → f.N → f.N) where
    first_begun :
        (tau s : f.N) (xs : List (TramoTren f)) (t' s' : f.N)
        → Seguido (cero f) s xs t' s'
        → f.alcanza tau (cero f) ≡ true
        → f.alcanza tau t' ≡ false
        → empezado f tau (get_elem? xs 0) ≡ true
    first_begun tau s [] t' s' h y z = sym (ap (f.alcanza tau) h.0 ∙ z) ∙ y
    first_begun tau s (x ∷ xs) t' s' h y z = ap (f.alcanza tau) h.0 ∙ y

    last_EsTope :
        (tau : f.N) (xs : List (TramoTren f))
        → empezado f tau (get_elem? xs 0) ≡ true
        → EsTope (λ i. empezado f tau (get_elem? xs i)) (length xs) (length xs - 1)
    last_EsTope tau [] y = cc y
    last_EsTope tau (x ∷ xs) y = inl (omega arith)

    train_at :
        (paradas : ℕ → f.N) (ne k : ℕ) (tsec : f.N)
        → f.alcanza (del_ciclo f resto (horario_tren f paradas ne) k tsec) (cero f) ≡ true
        → f.alcanza
            (del_ciclo f resto (horario_tren f paradas ne) k tsec)
            (horario_tren f paradas ne).ciclo_tren
          ≡ false
        → EnSuTramo
            (horario_tren f paradas ne)
            (del_ciclo f resto (horario_tren f paradas ne) k tsec)
            (pos_tren f resto (horario_tren f paradas ne) k tsec)
    train_at paradas ne k tsec y z =
        let h = horario_tren f paradas ne in
        let tau = del_ciclo f resto h k tsec in
        let all = horario_tren-Seguido paradas ne in
        let one = first_begun tau (paradas 0) h.tramos h.ciclo_tren (paradas 0) all y z in
        let ya : ℕ → Bool = λ i. empezado f tau (get_elem? h.tramos i) in
        let m = mitades (length h.tramos) ya 0 (length h.tramos - 1) in
        let found =
          mitades-EsTope (length h.tramos) ya (length h.tramos) 0 (length h.tramos - 1) one
            (last_EsTope tau h.tramos one) (omega arith) (omega arith) in
        let (x, at, begun, on) =
          stretch_at tau (cero f) (paradas 0) h.ciclo_tren (paradas 0) h.tramos m all found.0
            found.1 z in
        record {
          suyo = x;
          orden = m;
          esta = at;
          ha_empezado = begun;
          no_acaba = on;
          es = ap (situado f h tau) at;
        }

    -- The timetable that is made from the stops leads, with no gap in time or in place, from the first
    -- stop at time 0 back to it at the end of the cycle; and each train is at the place that belongs to
    -- a stretch which has begun and has not ended at the time of the train. Here that time is within the
    -- cycle: at or after 0, and not at or after its end.
    pub pos_tren-EnSuTramo :
        (paradas : ℕ → f.N) (ne k : ℕ) (tsec : f.N)
        → let h = horario_tren f paradas ne in
          f.alcanza (del_ciclo f resto h k tsec) (cero f) ≡ true
          → f.alcanza (del_ciclo f resto h k tsec) h.ciclo_tren ≡ false
          → Seguido (cero f) (paradas 0) h.tramos h.ciclo_tren (paradas 0)
            × EnSuTramo h (del_ciclo f resto h k tsec) (pos_tren f resto h k tsec)
    pos_tren-EnSuTramo paradas ne k tsec y z =
        (horario_tren-Seguido paradas ne, train_at paradas ne k tsec y z)
