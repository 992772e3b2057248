-- ===== src/Tormenta/Boton.antt =====
-- The cache of today's storm and the button, in every state that the program can reach.
use native.Mathlib.Decide.{ℕ_discrete}
use rami_ledger.Prelude.{
  ℕ, ◌≤◌, ◌<◌, ◌≡◌, ◌≢◌, refl, sym, ◌∙◌, ap, ◌↔◌, Option, none, some, arith, not, ◌⊎◌, ltb, leb,
  ==_iff, Bool, true, false, if◌then◌else◌, Bool-cases, Option-cases, inl, inr,
}
use rami_ledger.Tormenta.{
  dia_dubai, Tormenta, tormenta_del_dia, Estado, inicial, es_dia, refresca, intensidad_de,
  intensidad_calendario, sopla, tormenta_en_curso, es_forzada, boton_tormenta, intensidad_vista,
}
use rami_ledger.Tormenta.Dia.{IsOf, tormenta_del_dia-IsOf, dia_dubai-IsOf}

-- The states of the program: at the start, after a frame, and after the button, each at any time.
pub data IsReached : Estado → Type 0 where
  start : IsReached inicial
  frame : {s : Estado} (t : ℕ) → IsReached s → IsReached (intensidad_calendario t s).1
  press : {s : Estado} (t : ℕ) → IsReached s → IsReached (boton_tormenta t s)

-- What is remembered of a day is that day's storm.
abbrev pub IsCached : Estado → Type 0
IsCached s = (d : ℕ) → s.dia ≡ some d → s.hoy ≡ tormenta_del_dia d

-- The moment until which a storm was taken away: none, or the end of a storm.
abbrev IsMark : ℕ → Type 0
IsMark q = (q ≡ 0) ⊎ ((d : ℕ) × (x : Tormenta) × (tormenta_del_dia d ≡ some x) × (q ≡ x.fin))

some-inj : {A : Type 0} {a b : A} → some a ≡ some b → a ≡ b
some-inj e = cc

es_dia_iff : (o : Option ℕ) (d : ℕ) → es_dia o d ≡ true → o ≡ some d
es_dia_iff none d e = cc
es_dia_iff (some n) d e = ap some ((==_iff n d).0 e)

-- A refreshed state holds the storm of today.
refresca_today :
    (t : ℕ) (s : Estado) → IsCached s → (refresca t s).hoy ≡ tormenta_del_dia (dia_dubai t)
unfolding refresca
refresca_today t s c = elim (Bool-cases (es_dia s.dia (dia_dubai t))) [
  | inl e ↦ rw e (c (dia_dubai t) (es_dia_iff s.dia (dia_dubai t) e))
  | inr e ↦ rw e refl
]

refresca-IsCached : (t : ℕ) (s : Estado) → IsCached s → IsCached (refresca t s)
unfolding refresca
refresca-IsCached t s c d = elim (Bool-cases (es_dia s.dia (dia_dubai t))) [
  | inl e ↦ rw e (c d)
  | inr e ↦ rw e (λ f. ap tormenta_del_dia (some-inj f))
]

refresca_keeps :
    (t : ℕ) (s : Estado)
    → ((refresca t s).quitada_hasta ≡ s.quitada_hasta) × ((refresca t s).forzada ≡ s.forzada)
unfolding refresca
refresca_keeps t s = elim (Bool-cases (es_dia s.dia (dia_dubai t))) [
  | inl e ↦ rw e (refl, refl)
  | inr e ↦ rw e (refl, refl)
]

sopla_iff :
    (t : ℕ) (o : Option Tormenta) (x : Tormenta)
    → sopla t o ≡ some x
    → (o ≡ some x) × (x.ini ≤ t) × (t < x.fin)
sopla_iff t o x e = ground arith

sopla-some : (t : ℕ) (x : Tormenta) → x.ini ≤ t → t < x.fin → sopla t (some x) ≡ some x
sopla-some t x a b = ground arith

-- What the button does, by its three branches.
boton_cases :
    (P : Estado → Type 0) (t : ℕ) (s : Estado)
    → P (record (refresca t s) { forzada = none })
    → P (record (refresca t s) { forzada = some true })
    → ((x : Tormenta)
        → sopla t (refresca t s).hoy ≡ some x
        → P (record (refresca t s) {
          quitada_hasta = if leb x.fin (refresca t s).quitada_hasta then 0 else x.fin;
        }))
    → P (boton_tormenta t s)
unfolding boton_tormenta tormenta_en_curso intensidad_calendario
boton_cases P t s a b c = elim (Bool-cases (es_forzada (refresca t s).forzada)) [
  | inl e ↦ rw e a
  | inr e ↦ elim (Option-cases (sopla t (refresca t s).hoy)) [
    | inl f ↦ rw (e, f) b
    | inr (x, f) ↦ rw (e, f) (c x f)
  ]
]

-- A storm that blows by the cache is the storm of its day.
sopla_of_cache :
    (t : ℕ) (s : Estado) (x : Tormenta)
    → IsCached s
    → sopla t (refresca t s).hoy ≡ some x
    → (tormenta_del_dia (dia_dubai t) ≡ some x) × (x.ini ≤ t) × (t < x.fin)
sopla_of_cache t s x c e =
    let (hoy, a, b) = sopla_iff t (refresca t s).hoy x e in (sym (refresca_today t s c) ∙ hoy, a, b)

reached-IsCached : (s : Estado) → IsReached s → IsCached s
unfolding intensidad_calendario
reached-IsCached _ start = λ d e. cc
reached-IsCached _ (frame {s} t r) = refresca-IsCached t s (reached-IsCached s r)
reached-IsCached _ (press {s} t r) =
    let c = refresca-IsCached t s (reached-IsCached s r) in boton_cases IsCached t s c c (λ x f. c)

reached-IsMark : (s : Estado) → IsReached s → IsMark s.quitada_hasta
unfolding intensidad_calendario
reached-IsMark _ start = inl refl
reached-IsMark _ (frame {s} t r) = rw ((refresca_keeps t s).0) (reached-IsMark s r)
reached-IsMark _ (press {s} t r) =
    let old : IsMark (refresca t s).quitada_hasta =
      rw ((refresca_keeps t s).0) (reached-IsMark s r) in
    boton_cases (λ z. IsMark z.quitada_hasta) t s old old
      (λ x f. marked x f (leb x.fin (refresca t s).quitada_hasta))
  where
    marked :
        (x : Tormenta)
        → sopla t (refresca t s).hoy ≡ some x
        → (b : Bool) → IsMark (if b then 0 else x.fin)
    marked x f true = inl refl
    marked x f false = inr (dia_dubai t, x, (sopla_of_cache t s x (reached-IsCached s r) f).0, refl)

-- In every state that the program reaches, `tormentaEnCurso` gives a storm exactly when it is the
-- calendar's storm of its day and the clock stands between its beginning and its end.
pub tormenta_en_curso_iff :
    (s : Estado) (t : ℕ) (x : Tormenta)
    → IsReached s
    → ((tormenta_en_curso t s).0 ≡ some x)
      ↔ ((tormenta_del_dia x.dia ≡ some x) × (x.ini ≤ t) × (t < x.fin))
unfolding tormenta_en_curso intensidad_calendario
tormenta_en_curso_iff s t x r = (
  λ e.
      let (hoy, a, b) = sopla_of_cache t s x (reached-IsCached s r) e in
      (ap tormenta_del_dia (tormenta_del_dia-IsOf (dia_dubai t) x hoy).dia ∙ hoy, a, b),
  λ h.
      let today = dia_dubai-IsOf x.dia t x (tormenta_del_dia-IsOf x.dia x h.0) h.1 h.2 in
      ap (sopla t) (refresca_today t s (reached-IsCached s r) ∙ ap tormenta_del_dia today ∙ h.0)
      ∙ sopla-some t x h.1 h.2,
)

-- No mark lies within a storm: those of other days are over before it, or come after it.
mark_apart :
    (q t d e : ℕ) (x y : Tormenta)
    → IsOf d y
    → IsOf e x
    → d ≢ e
    → q ≡ y.fin
    → x.ini ≤ t
    → t < x.fin
    → ltb t q ≡ leb x.fin q
mark_apart q t d e x y of_d of_e apart f a b =
    let d1 = of_d.desde in
    let d2 = of_d.dura in
    let d3 = of_d.hasta in let e1 = of_e.desde in let e3 = of_e.hasta in ground arith

mark_outside :
    (q t : ℕ) (x : Tormenta)
    → IsMark q
    → tormenta_del_dia (dia_dubai t) ≡ some x
    → x.ini ≤ t
    → t < x.fin
    → ltb t q ≡ leb x.fin q
mark_outside q t x (inl e) today a b = ground arith
mark_outside q t x (inr (d, y, of_day, e)) today a b = elim (ℕ_discrete d (dia_dubai t)) [
  | yes same ↦
      let fin : q ≡ x.fin =
        e
        ∙ ap (λ (z : Tormenta). z.fin) (some-inj (sym of_day ∙ ap tormenta_del_dia same ∙ today)) in
      ground arith
  | no apart ↦
      mark_apart q t d (dia_dubai t) x y (tormenta_del_dia-IsOf d y of_day)
        (tormenta_del_dia-IsOf (dia_dubai t) x today) apart e a b
]

boton_toggles :
    (s : Estado) (t : ℕ) (x : Tormenta)
    → es_forzada (refresca t s).forzada ≡ false
    → sopla t (refresca t s).hoy ≡ some x
    → (boton_tormenta t s).quitada_hasta
      ≡ (if leb x.fin (refresca t s).quitada_hasta then 0 else x.fin)
unfolding boton_tormenta tormenta_en_curso intensidad_calendario
boton_toggles s t x e f = rw (e, f) refl

flip :
    (q t : ℕ) (x : Tormenta)
    → t < x.fin
    → ltb t q ≡ leb x.fin q
    → ltb t (if leb x.fin q then 0 else x.fin) ≡ not (ltb t q)
flip q t x b e = ground arith

-- In every state that the program reaches without a storm put on by hand, the button pressed while
-- a storm of the calendar blows takes it away if it is seen, and gives it back if it was taken away:
-- `cuadroTormenta` hides it while the clock stands before `quitadaHasta`.
pub boton_tormenta_toggles :
    (s : Estado) (t : ℕ) (x : Tormenta)
    → IsReached s
    → es_forzada s.forzada ≡ false
    → (tormenta_en_curso t s).0 ≡ some x
    → ltb t (boton_tormenta t s).quitada_hasta ≡ not (ltb t s.quitada_hasta)
unfolding tormenta_en_curso intensidad_calendario
boton_tormenta_toggles s t x r hand e =
    let (quitada, forzada) = refresca_keeps t s in
    let (today, a, b) = sopla_of_cache t s x (reached-IsCached s r) e in
    let outside = mark_outside s.quitada_hasta t x (reached-IsMark s r) today a b in
    ap (ltb t) (
      boton_toggles s t x (ap es_forzada forzada ∙ hand) e
      ∙ ap (λ (q : ℕ). if leb x.fin q then 0 else x.fin) quitada)
    ∙ flip s.quitada_hasta t x b outside

-- In every state that the program reaches, the intensity that is drawn is 0 while the storm is taken
-- away, and otherwise that of today's storm by the calendar, whatever the cache held before.
pub intensidad_vista_lem :
    (s : Estado) (t : ℕ)
    → IsReached s
    → (intensidad_vista t s).0
      ≡ (if ltb t s.quitada_hasta then 0 else intensidad_de t (tormenta_del_dia (dia_dubai t)))
unfolding intensidad_vista intensidad_calendario
intensidad_vista_lem s t r = elim (Bool-cases (ltb t s.quitada_hasta)) [
  | inl e ↦ rw e refl
  | inr e ↦ rw (e, refresca_today t s (reached-IsCached s r)) refl
]
