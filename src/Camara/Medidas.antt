-- ===== src/Camara/Medidas.antt =====
-- A measure of fluency goes through its four places in order, and gives the camera back.
use rami_ledger.Prelude.{
  ℕ, zero, suc, ◌≤◌, ◌≡◌, refl, sym, ap, subst, ◌∙◌, inl, inr, Bool, true, false, Option, none,
  some, List, [], ◌∷◌, ◌++◌, map, leb, if◌then◌else◌, get_elem?, All, All-append, Bool-cases, arith,
}
use rami_ledger.Flotantes.{Flotantes, clamp}
use rami_ledger.Camara.{Modo, a_pie, orbita, Camara, Ciudad, set_mode}
use rami_ledger.Camara.Medida.{
  si_no_mide, bench, Lugar, lugares, Ritmo, calienta, cuenta, pasa, Resultado, Medida, Banco,
  Cuadro, devuelve, bench_fin, contado, anota_lugar, pon_lugar, pasa_a, mide, bench_frame,
  un_cuadro, cuadros_medidos,
}

-- The first places.
abbrev pub hasta : ℕ → List (Option Lugar)
hasta zero = []
hasta (suc n) = hasta n ++ (get_elem? lugares n ∷ [])

more_to_do : (n : ℕ) → n ≤ 4 → leb 4 n ≡ false → suc n ≤ 4
more_to_do n h e = ground arith

all_done : (n : ℕ) → n ≤ 4 → leb 4 n ≡ true → n ≡ 4
all_done n h e = ground arith

map_snoc {ℓ} :
    {A B : Type ℓ} (g : A → B) (xs : List A) (x : A)
    → map g (xs ++ (x ∷ [])) ≡ map g xs ++ (g x ∷ [])
map_snoc g [] x = refl
map_snoc g (y ∷ ys) x = ap (λ l. g y ∷ l) (map_snoc g ys x)

module _ (f : Flotantes) where
  pub set_mode-modo : (c : Ciudad f) (m : Modo) (cam : Camara f) → (set_mode f c m cam).modo ≡ m
  unfolding set_mode
  set_mode-modo c m cam = by_modes cam.modo m
    where
      by_modes : (a b : Modo) → (set_mode f c b (record cam { modo = a })).modo ≡ b
      by_modes a_pie a_pie = refl
      by_modes a_pie orbita = refl
      by_modes orbita a_pie = refl
      by_modes orbita orbita = refl

  abbrev vistas_de : List (Resultado f) → List (Option Lugar)
  vistas_de = map (λ (r : Resultado f). r.vista)

  -- The places that are done, when so many have been set.
  abbrev Hechas : Ritmo → ℕ → List (Resultado f) → Type 0
  Hechas pasa n res = (vistas_de res ≡ hasta n) × (n ≤ 4)
  Hechas calienta zero res = ⊥
  Hechas calienta (suc i) res = (vistas_de res ≡ hasta i) × (suc i ≤ 4)
  Hechas cuenta zero res = ⊥
  Hechas cuenta (suc i) res = (vistas_de res ≡ hasta i) × (suc i ≤ 4)

  abbrev pub Contadas : List (Resultado f) → Type 0
  Contadas = All (λ (r : Resultado f). 1 ≤ r.cuadros)

  record EnMarcha (g : Camara f) (b : Medida f) : Type 0 where
    guardada : b.antes ≡ g
    hechas : Hechas b.fase b.puestas b.res
    contadas : Contadas b.res

  -- The camera is back: the mode, and the walker on foot, or the orbit.
  abbrev pub Devuelta : Modo → Camara f → Camara f → Type 0
  Devuelta a_pie g cam = (cam.modo ≡ a_pie) × (cam.pose.andar ≡ g.pose.andar)
  Devuelta orbita g cam =
      (cam.modo ≡ orbita)
      × ((cam.pose.cur ≡ g.pose.cur)
          × ((cam.pose.goal ≡ g.pose.goal) × (cam.pose.flight ≡ g.pose.flight)))

  -- A report: the four places in order, each with a frame at least.
  abbrev pub Completo : List (Resultado f) → Type 0
  Completo res = (vistas_de res ≡ map (λ l. some l) lugares) × Contadas res

  -- A measure that is under way, or that has ended with its report.
  abbrev Va :
      Camara f
      → List (List (Resultado f))
      → Option (Medida f)
      → Camara f
      → List (List (Resultado f))
      → Type 0
  Va g before (some b) cam reports = EnMarcha g b × (reports ≡ before)
  Va g before none cam reports =
      ((res : List (Resultado f)) × ((reports ≡ before ++ (res ∷ [])) × Completo res))
      × Devuelta g.modo g cam

  record Vale (g : Camara f) (before : List (List (Resultado f))) (s : Banco f) : Type 0 where
    vale : Va g before s.bench s.camara s.informes

  module _ (c : Ciudad f) (g : Camara f)
      (in_range : clamp f g.pose.cur.radius c.min_r c.max_r ≡ g.pose.cur.radius) where
    back : (m : Modo) (h : Camara f) (cam : Camara f) → h ≡ g → Devuelta m g (devuelve f c h m cam)
    back a_pie h cam e = (set_mode-modo c a_pie cam, ap (λ (q : Camara f). q.pose.andar) e)
    back orbita h cam e = (
      set_mode-modo c orbita cam,
      (
        ap
              (λ (q : Camara f). record q.pose.cur {
                radius = clamp f q.pose.cur.radius c.min_r c.max_r;
              })
              e
            ∙ ap (λ r. record g.pose.cur { radius = r }) in_range,
        (ap (λ (q : Camara f). q.pose.goal) e, ap (λ (q : Camara f). q.pose.flight) e),
      ),
    )

    ended :
        (before : List (List (Resultado f))) (b : Medida f) (s : Banco f)
        → b.antes ≡ g
        → vistas_de b.res ≡ hasta 4
        → Contadas b.res
        → s.informes ≡ before
        → Vale g before (bench_fin f c b s)
    ended before b s e h k r = record {
      vale = (
        (b.res, (ap (λ q. q ++ (b.res ∷ [])) r, (h, k))),
        subst (λ (q : Camara f). Devuelta q.modo g (devuelve f c b.antes b.antes.modo s.camara)) e
            (back b.antes.modo b.antes s.camara e),
      );
    }

    counted : (n : ℕ) (res : List (Resultado f)) → Hechas calienta n res → Hechas cuenta n res
    counted zero res h = h
    counted (suc i) res h = h

    warm-Vale :
        (before : List (List (Resultado f))) (q : Cuadro f) (b : Medida f) (s : Banco f) (t : Bool)
        → EnMarcha g (record b { fase = calienta })
        → s.informes ≡ before
        → let b' : Medida f =
            if t
            then record b { fase = cuenta; t0 = q.now; ultimo = q.now; n = 0; peor = f.de 0 }
            else record b { fase = calienta } in
          Vale g before (record s { bench = some b' })
    warm-Vale before q b s true h r = record {
      vale = (
        record {
          guardada = h.guardada;
          hechas = counted b.puestas b.res h.hechas;
          contadas = h.contadas;
        },
        r,
      );
    }
    warm-Vale before q b s false h r = record { vale = (h, r) }

    noted :
        (q : Cuadro f) (b : Medida f) (p : ℕ)
        → 1 ≤ b.n
        → EnMarcha g (record b { fase = cuenta; puestas = p })
        → EnMarcha g (anota_lugar f q (record b { fase = cuenta; puestas = p }))
    noted q b zero l h = elim h.hechas [ ]
    noted q b (suc i) l h = record {
      guardada = h.guardada;
      hechas = (
        map_snoc (λ (r : Resultado f). r.vista) b.res _
            ∙ ap (λ z. z ++ (get_elem? lugares i ∷ [])) h.hechas.0,
        h.hechas.1,
      );
      contadas = All-append (λ (r : Resultado f). 1 ≤ r.cuadros) b.res _ h.contadas (l, tt);
    }

    count-Vale :
        (before : List (List (Resultado f))) (q : Cuadro f) (b : Medida f) (s : Banco f) (t : Bool)
        → 1 ≤ b.n
        → EnMarcha g (record b { fase = cuenta })
        → s.informes ≡ before
        → let b' : Medida f =
            if t
            then anota_lugar f q (record b { fase = cuenta })
            else record b { fase = cuenta } in
          Vale g before (record s { bench = some b' })
    count-Vale before q b s true l h r = record { vale = (noted q b b.puestas l h, r) }
    count-Vale before q b s false l h r = record { vale = (h, r) }

    next-Vale :
        (before : List (List (Resultado f))) (q : Cuadro f) (b : Medida f) (s : Banco f)
        → EnMarcha g (record b { fase = pasa })
        → s.informes ≡ before
        → Vale g before (pasa_a f c q (record b { fase = pasa }) s)
    next-Vale before q b s h r = elim (Bool-cases (leb 4 b.puestas)) [
      | inl e ↦
          subst
            (λ (t : Bool).
              Vale g before (if t then bench_fin f c (record b { fase = pasa }) s else go))
            (sym e)
            (ended before (record b { fase = pasa }) s h.guardada
              (h.hechas.0 ∙ ap hasta (all_done b.puestas h.hechas.1 e)) h.contadas r)
      | inr e ↦
          subst
            (λ (t : Bool).
              Vale g before (if t then bench_fin f c (record b { fase = pasa }) s else go))
            (sym e)
            (record {
              vale = (
                record {
                  guardada = h.guardada;
                  hechas = (h.hechas.0, more_to_do b.puestas h.hechas.1 e);
                  contadas = h.contadas;
                },
                r,
              );
            })
    ]
      where
        go : Banco f
        go = record s {
          camara = pon_lugar f c (get_elem? lugares b.puestas) s.camara;
          bench = some (record b { puestas = suc b.puestas; fase = calienta; t0 = q.now });
        }

    frame-Vale :
        (before : List (List (Resultado f))) (q : Cuadro f) (r : Ritmo) (b : Medida f) (s : Banco f)
        → EnMarcha g (record b { fase = r })
        → s.informes ≡ before
        → Vale g before (mide f c q r (record b { fase = r }) s)
    frame-Vale before q pasa b s h e = next-Vale before q b s h e
    frame-Vale before q calienta b s h e =
        warm-Vale before q b s (f.alcanza (f.menos q.now b.t0) (f.de 1000)) h e
    frame-Vale before q cuenta b s h e =
        count-Vale before q (contado f q b) s
          (f.alcanza (f.menos q.now b.t0) (f.por b.seg (f.de 1000))) (omega arith)
          (record { guardada = h.guardada; hechas = h.hechas; contadas = h.contadas }) e

    one-Vale :
        (before : List (List (Resultado f))) (q : Cuadro f) (o : Option (Medida f)) (s : Banco f)
        → Va g before o s.camara s.informes
        → Vale g before (un_cuadro f c q o (record s { bench = o }))
    unfolding bench_frame
    one-Vale before q none s h = record { vale = h }
    one-Vale before q (some b) s h =
        frame-Vale before q b.fase b (record s { bench = some b }) h.0 h.1

    frames-Vale :
        (before : List (List (Resultado f))) (qs : List (Cuadro f)) (s : Banco f)
        → Vale g before s
        → Vale g before (cuadros_medidos f c qs s)
    frames-Vale before [] s h = h
    frames-Vale before (q ∷ qs) s h =
        frames-Vale before qs (un_cuadro f c q s.bench s) (one-Vale before q s.bench s h.vale)

  abbrev pub Termina : Camara f → List (List (Resultado f)) → Option (Medida f) → Banco f → Type 0
  Termina g before (some b) s = s.informes ≡ before
  Termina g before none s =
      ((res : List (Resultado f)) × ((s.informes ≡ before ++ (res ∷ [])) × Completo res))
      × Devuelta g.modo g s.camara

  -- After any frames of a measure, either it is under way and has reported nothing, or it has ended, with
  -- one report, of the city, the centre, the near view and the street, in this order and each with a frame
  -- counted at least; and the camera is in the mode in which it was when the measure began, with the walker
  -- where it was if that is on foot, and with the orbit, where it goes to and its flight as they were if not.
  -- Here the radius of the orbit is between the least and the greatest when the measure begins.
  pub bench_lem :
      (c : Ciudad f) (s : Banco f) (seg : f.N) (qs : List (Cuadro f))
      → s.bench ≡ none
      → clamp f s.camara.pose.cur.radius c.min_r c.max_r ≡ s.camara.pose.cur.radius
      → let t = cuadros_medidos f c qs (bench f true false seg s).1 in
        Termina s.camara s.informes t.bench t
  unfolding bench
  bench_lem c s seg qs e in_range = told (cuadros_medidos f c qs start) (
      frames-Vale c s.camara in_range s.informes qs start (
        subst (λ o. Vale s.camara s.informes (si_no_mide f seg o s)) (sym e)
          (record {
            vale = (record { guardada = refl; hechas = (refl, omega arith); contadas = tt }, refl);
          })))
    where
      start : Banco f
      start = si_no_mide f seg s.bench s

      told : (t : Banco f) → Vale s.camara s.informes t → Termina s.camara s.informes t.bench t
      told t h = by_bench t.bench h.vale
        where
          by_bench :
              (o : Option (Medida f))
              → Va s.camara s.informes o t.camara t.informes
              → Termina s.camara s.informes o t
          by_bench none k = k
          by_bench (some b) k = k.1
