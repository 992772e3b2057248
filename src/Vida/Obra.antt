-- ===== src/Vida/Obra.antt =====
-- The building of the population in slices: `trabajoNuevo`, `fases`, `fase`, and the slices that a frame
-- makes of it. What a phase does to the new state stands in `Oficios`; the number of the frame, which
-- `trabajoPaso` writes there at each slice, is not among what it reads.
pub mod Cortes
pub mod Plazo
pub mod Final
pub mod Tests
use rami_ledger.Prelude.{
  ℕ, zero, suc, ◌+◌, ◌*◌, Bool, true, false, Option, none, some, List, [], ◌∷◌, ltb, leb,
  if◌then◌else◌,
}

-- The phases, in the order of their numbers.
pub data Fase : Type 0 where
  calzada aceras portales parcelas casas contratos oficinas horas calentado : Fase

-- What the phases do to the state that is built, `N` with the lists of the work, and the lengths that
-- they read, for a city, an hour and a camera that stay as they are. `portal` tells whether its round
-- comes to its end, as it does for a door in a zone.
pub record Oficios (W : Type 0) : Type 0 where
  pub hay_calles : Bool
  pub vias : ℕ
  pub nuevo_asfalto : W → W
  pub indice_asfalto : ℕ → W → W
  pub indice_cebras : W → W
  pub tramas : ℕ
  pub lado : ℕ → ℕ
  pub zona_de_trama : ℕ → W → W
  pub cruce_grafo : ℕ → ℕ → ℕ → W → W
  pub cierra_grafo : ℕ → W → W
  pub barrios : ℕ
  pub edificios : ℕ → ℕ
  pub portal : ℕ → ℕ → W → Bool × W
  pub lee_parcelas : W → W
  pub n_parcelas : ℕ
  pub parcela_empresa : ℕ → W → W
  pub n_casas : W → ℕ
  pub vecinos : ℕ → W → W
  pub n_empresas : W → ℕ
  pub recluta : ℕ → W → W
  pub zonas_de_oficina : W → W
  pub n_personas : W → ℕ
  pub destino : ℕ → W → W
  pub n_zonas : W → ℕ
  pub ordena_zona : ℕ → W → W
  pub duraciones : W → W
  pub a_calentar : W → W
  pub n_pre : W → ℕ
  pub calienta_viaje : ℕ → W → W

-- The work, but for its phase: where it stands, and what it has set. `j` and `k` count from `0`, where
-- the source counts the crossings of a zone from `-n`.
pub record Obra (W : Type 0) : Type 0 where
  pub i : ℕ
  pub j : ℕ
  pub k : ℕ
  pub en_zona : Bool
  pub con_asfalto : Bool
  pub con_pcs : Bool
  pub con_oficinas : Bool
  pub con_pre : Bool
  pub calienta : Bool
  pub n : W

-- `trabajoNuevo`
abbrev pub trabajo_nuevo : {W : Type 0} → Bool → W → Obra W
trabajo_nuevo calienta w = record {
  i = 0;
  j = 0;
  k = 0;
  en_zona = false;
  con_asfalto = false;
  con_pcs = false;
  con_oficinas = false;
  con_pre = false;
  calienta = calienta;
  n = w;
}

-- How a round of the loop ends: with the work done, by `continue`, or at the look at the clock.
pub data Ronda (W : Type 0) : Type 0 where
  hecho : Obra W → Ronda W
  sigue : Fase → Obra W → Ronda W
  mira : Fase → Obra W → Ronda W

module _ {W : Type 0} (o : Oficios W) where
  -- `fase(J, f)`
  abbrev pub a_fase : Obra W → Obra W
  a_fase s = record s { i = 0; j = 0 }

  abbrev pub con_indice : Obra W → Obra W
  con_indice s =
      if s.con_asfalto then s else record s { con_asfalto = true; k = 0; n = o.nuevo_asfalto s.n }

  abbrev pub avanza_calzada : Obra W → Ronda W
  avanza_calzada s =
      if ltb s.k o.vias
      then mira calzada (record s { k = s.k + 10; n = o.indice_asfalto s.k s.n })
      else mira aceras (a_fase (record s { n = o.indice_cebras s.n }))

  abbrev pub en_calzada : Obra W → Ronda W
  en_calzada s = if o.hay_calles then avanza_calzada (con_indice s) else hecho s

  abbrev pub con_zona : Obra W → Obra W
  con_zona s =
      if s.en_zona
      then s
      else record s { en_zona = true; k = 0; j = 0; n = o.zona_de_trama s.i s.n }

  -- Behind a crossing: the next row, and the next zone.
  abbrev pub otra_fila : Obra W → Obra W
  otra_fila s = if ltb (2 * o.lado s.i) s.j then record s { j = 0; k = suc s.k } else s

  abbrev pub otra_zona : Obra W → Obra W
  otra_zona s =
      if ltb (2 * o.lado s.i) s.k
      then record s { n = o.cierra_grafo s.i s.n; en_zona = false; i = suc s.i }
      else s

  abbrev pub cruza_calle : Obra W → Obra W
  cruza_calle s =
      otra_zona (otra_fila (record s { n = o.cruce_grafo s.i s.k s.j s.n; j = suc s.j }))

  abbrev pub en_aceras : Obra W → Ronda W
  en_aceras s =
      if leb o.tramas s.i then sigue portales (a_fase s) else mira aceras (cruza_calle (con_zona s))

  abbrev pub un_portal : Obra W → Bool × W → Ronda W
  un_portal s (true, w) = mira portales (record s { j = suc s.j; n = w })
  un_portal s (false, w) = sigue portales (record s { j = suc s.j; n = w })

  abbrev pub en_portales : Obra W → Ronda W
  en_portales s =
      if leb o.barrios s.i
      then sigue parcelas (a_fase s)
      else (if leb (o.edificios s.i) s.j
          then sigue portales (record s { i = suc s.i; j = 0 })
          else un_portal s (o.portal s.i s.j s.n))

  abbrev pub con_parcelas : Obra W → Obra W
  con_parcelas s = if s.con_pcs then s else record s { con_pcs = true; n = o.lee_parcelas s.n }

  -- A phase that goes through a list of so many elements.
  abbrev pub fase_lista : Fase → Fase → ℕ → (ℕ → W → W) → Obra W → Ronda W
  fase_lista f g count work s =
      if leb count s.i
      then sigue g (a_fase s)
      else mira f (record s { i = suc s.i; n = work s.i s.n })

  abbrev pub con_oficinas_zonas : Obra W → Obra W
  con_oficinas_zonas s =
      if s.con_oficinas then s else record s { con_oficinas = true; n = o.zonas_de_oficina s.n }

  abbrev pub en_oficinas : Obra W → Ronda W
  en_oficinas s = fase_lista oficinas horas (o.n_personas s.n) o.destino s

  abbrev pub acaba_horas : Obra W → Ronda W
  acaba_horas s = if s.calienta then sigue calentado (a_fase s) else hecho s

  abbrev pub en_horas : Obra W → Ronda W
  en_horas s =
      if leb (o.n_zonas s.n) s.i
      then acaba_horas (record s { n = o.duraciones s.n })
      else mira horas (record s { i = suc s.i; n = o.ordena_zona s.i s.n })

  abbrev pub con_lista : Obra W → Obra W
  con_lista s = if s.con_pre then s else record s { con_pre = true; n = o.a_calentar s.n }

  abbrev pub calienta_uno : Obra W → Ronda W
  calienta_uno s =
      if leb (o.n_pre s.n) s.i
      then hecho s
      else mira calentado (record s { i = suc s.i; n = o.calienta_viaje s.i s.n })

  -- A round of the loop of `fases`, but for the look at the clock.
  unfoldable pub vuelta_fase : Fase → Obra W → Ronda W
  vuelta_fase calzada s = en_calzada s
  vuelta_fase aceras s = en_aceras s
  vuelta_fase portales s = en_portales s
  vuelta_fase parcelas s = fase_lista parcelas casas o.n_parcelas o.parcela_empresa (con_parcelas s)
  vuelta_fase casas s = fase_lista casas contratos (o.n_casas s.n) o.vecinos s
  vuelta_fase contratos s = fase_lista contratos oficinas (o.n_empresas s.n) o.recluta s
  vuelta_fase oficinas s = en_oficinas (con_oficinas_zonas s)
  vuelta_fase horas s = en_horas s
  vuelta_fase calentado s = calienta_uno (con_lista s)

  -- What a slice leaves: the work done, or the phase and the state to go on from.
  pub data Trozo : Type 0 where
    acabada : Obra W → Trozo
    a_medias : Fase → Obra W → Trozo

  -- `fases(J, hasta)`, for a clock that lets `plazo` looks pass; `none` where the rounds are used up.
  abbrev pub tras_ronda : (ℕ → Fase → Obra W → Option Trozo) → ℕ → Ronda W → Option Trozo
  tras_ronda more plazo (hecho s) = some (acabada s)
  tras_ronda more plazo (sigue f s) = more plazo f s
  tras_ronda more zero (mira f s) = some (a_medias f s)
  tras_ronda more (suc plazo) (mira f s) = more plazo f s

  unfoldable pub fases : ℕ → ℕ → Fase → Obra W → Option Trozo
  fases zero plazo f s = none
  fases (suc rounds) plazo f s = tras_ronda (fases rounds) plazo (vuelta_fase f s)

  -- The frames, each with its clock; a frame is the last one when the work is done.
  abbrev pub tras_trozo : (Fase → Obra W → Option Trozo) → Option Trozo → Option Trozo
  tras_trozo more none = none
  tras_trozo more (some (acabada s)) = some (acabada s)
  tras_trozo more (some (a_medias f s)) = more f s

  unfoldable pub cuadros : ℕ → List ℕ → Fase → Obra W → Option Trozo
  cuadros rounds [] f s = some (a_medias f s)
  cuadros rounds (plazo ∷ plazos) f s = tras_trozo (cuadros rounds plazos) (fases rounds plazo f s)
