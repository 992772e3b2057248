-- ===== src/Camara/Medida.antt =====
-- The measure of fluency: `bench`, `benchFrame`, `benchFin`.
use rami_ledger.Prelude.{
  ℕ, zero, suc, Bool, Option, none, some, List, [], ◌∷◌, ◌++◌, leb, if◌then◌else◌, get_elem?,
}
use rami_ledger.Flotantes.{Flotantes, clamp, el_mayor}
use rami_ledger.Camara.{
  Modo, a_pie, orbita, Camara, Ciudad, set_mode, pon_vista, mayor_trama, cruce_de, de_cerca,
}

pub data Lugar : Type 0 where
  la_ciudad el_centro muy_cerca en_la_calle : Lugar

abbrev pub lugares : List Lugar
lugares = la_ciudad ∷ el_centro ∷ muy_cerca ∷ en_la_calle ∷ []

-- A place is warmed up for a second, then counted, and then the next one comes.
pub data Ritmo : Type 0 where
  calienta cuenta pasa : Ritmo

pub data Rechazo : Type 0 where
  no_cargada en_vr : Rechazo

module _ (f : Flotantes) where
  pub record Resultado : Type 0 where
    pub vista : Option Lugar
    pub fps : f.N
    pub fps_min : f.N
    pub cuadros : ℕ
    pub triangulos : ℕ
    pub llamadas : ℕ

  -- `puestas` is `i + 1`: the places that were set so far.
  pub record Medida : Type 0 where
    pub puestas : ℕ
    pub fase : Ritmo
    pub t0 : f.N
    pub n : ℕ
    pub peor : f.N
    pub ultimo : f.N
    pub res : List Resultado
    pub seg : f.N
    pub antes : Camara f

  -- The camera, the measure under way, and the results of those that have ended.
  pub record Banco : Type 0 where
    pub camara : Camara f
    pub bench : Option Medida
    pub informes : List (List Resultado)

  -- A frame: the clock, and what the renderer counted.
  pub record Cuadro : Type 0 where
    pub now : f.N
    pub triangles : ℕ
    pub calls : ℕ

  -- `vistas[i].pon()`
  abbrev pub pon_lugar : Ciudad f → Option Lugar → Camara f → Camara f
  pon_lugar c none cam = cam
  pon_lugar c (some la_ciudad) cam = pon_vista f c c.vista_ciudad (set_mode f c orbita cam)
  pon_lugar c (some el_centro) cam = pon_vista f c c.vista_centro (set_mode f c orbita cam)
  pon_lugar c (some muy_cerca) cam = pon_vista f c (de_cerca f c c.torre) (set_mode f c orbita cam)
  pon_lugar c (some en_la_calle) cam =
      let w : Camara f = set_mode f c a_pie cam in
      record w { pose = record w.pose { andar = cruce_de f c (mayor_trama f none c.tramas) } }

  abbrev pub empieza : f.N → Banco → Banco
  empieza seg s = record s {
    bench = some (record {
      puestas = 0;
      fase = pasa;
      t0 = f.de 0;
      n = 0;
      peor = f.de 0;
      ultimo = f.de 0;
      res = [];
      seg = clamp f seg (f.de 1) (f.de 20);
      antes = s.camara;
    });
  }

  abbrev pub si_no_mide : f.N → Option Medida → Banco → Banco
  si_no_mide seg none s = empieza seg s
  si_no_mide seg (some b) s = s

  -- `bench`: a refusal, or the measure, which may be under way already.
  unfoldable pub bench : Bool → Bool → f.N → Banco → Option Rechazo × Banco
  bench ready xr seg s =
      if ready
      then (if xr then (some en_vr, s) else (none, si_no_mide seg s.bench s))
      else (some no_cargada, s)

  -- `benchFin`: the camera as it was, in the mode in which it was.
  abbrev pub devuelve : Ciudad f → Camara f → Modo → Camara f → Camara f
  devuelve c g a_pie cam =
      let w : Camara f = set_mode f c a_pie cam in
      record w { pose = record w.pose { andar = g.pose.andar } }
  devuelve c g orbita cam =
      let w : Camara f = pon_vista f c g.pose.cur (set_mode f c orbita cam) in
      record w { pose = record w.pose { goal = g.pose.goal; flight = g.pose.flight } }

  abbrev pub bench_fin : Ciudad f → Medida → Banco → Banco
  bench_fin c b s = record s {
    camara = devuelve c b.antes b.antes.modo s.camara;
    bench = none;
    informes = s.informes ++ (b.res ∷ []);
  }

  -- `Math.round(x * 10) / 10`
  abbrev pub decima : f.N → f.N
  decima x = f.entre (f.redondo (f.por x (f.de 10))) (f.de 10)

  -- A round of `benchFrame` in the phase that counts.
  abbrev pub contado : Cuadro → Medida → Medida
  contado q b =
      let ms = f.menos q.now b.ultimo in
      record b { ultimo = q.now; n = suc b.n; peor = if f.menor b.peor ms then ms else b.peor }

  abbrev pub anota_lugar : Cuadro → Medida → Medida
  anota_lugar q b =
      let el = f.entre (f.menos q.now b.t0) (f.de 1000) in
      record b {
        res =
            b.res
            ++ (record {
              vista = elim b.puestas [ zero ↦ none | suc i ↦ get_elem? lugares i ];
              fps = decima (f.entre (f.de b.n) el);
              fps_min = decima (f.entre (f.de 1000) (el_mayor f b.peor (f.de 1)));
              cuadros = b.n;
              triangulos = q.triangles;
              llamadas = q.calls;
            }
                ∷ []);
        fase = pasa;
      }

  abbrev pub tras_contar : Cuadro → Medida → Medida
  tras_contar q b =
      if f.alcanza (f.menos q.now b.t0) (f.por b.seg (f.de 1000)) then anota_lugar q b else b

  abbrev pub tras_calentar : Cuadro → Medida → Medida
  tras_calentar q b =
      if f.alcanza (f.menos q.now b.t0) (f.de 1000)
      then record b { fase = cuenta; t0 = q.now; ultimo = q.now; n = 0; peor = f.de 0 }
      else b

  abbrev pub pasa_a : Ciudad f → Cuadro → Medida → Banco → Banco
  pasa_a c q b s = if leb 4 b.puestas then bench_fin c b s else record s {
    camara = pon_lugar c (get_elem? lugares b.puestas) s.camara;
    bench = some (record b { puestas = suc b.puestas; fase = calienta; t0 = q.now });
  }

  -- `benchFrame`
  abbrev pub mide : Ciudad f → Cuadro → Ritmo → Medida → Banco → Banco
  mide c q pasa b s = pasa_a c q b s
  mide c q calienta b s = record s { bench = some (tras_calentar q b) }
  mide c q cuenta b s = record s { bench = some (tras_contar q (contado q b)) }

  unfoldable pub bench_frame : Ciudad f → Cuadro → Medida → Banco → Banco
  bench_frame c q b s = mide c q b.fase b s

  -- The frames of a measure; behind its end they do nothing to it.
  abbrev pub un_cuadro : Ciudad f → Cuadro → Option Medida → Banco → Banco
  un_cuadro c q none s = s
  un_cuadro c q (some b) s = bench_frame c q b s

  abbrev pub cuadros_medidos : Ciudad f → List Cuadro → Banco → Banco
  cuadros_medidos c [] s = s
  cuadros_medidos c (q ∷ qs) s = cuadros_medidos c qs (un_cuadro c q s.bench s)
