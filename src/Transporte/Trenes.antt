-- ===== src/Transporte/Trenes.antt =====
-- The trains: city/extras.js, the timetable of the metro, `tiempoTramo`, `avanceTramo` and `posTren`,
-- over any numbers, with the remainder `%` of the language.
use rami_ledger.Prelude.{
  ℕ, zero, suc, ◌+◌, ◌-◌, Bool, true, false, Option, none, some, List, [], ◌∷◌, ◌++◌, ltb, length,
  get_elem?, if◌then◌else◌,
}
use rami_ledger.Flotantes.{ℤ, pos, negsuc, Flotantes, cero, modulo, el_mayor, decimal}
use rami_ledger.Transporte.{mitades}

module _ (f : Flotantes) where
  abbrev vmax : f.N
  vmax = decimal f 222 10

  abbrev acel : f.N
  acel = f.de 1

  abbrev parada : f.N
  parada = f.de 30

  abbrev terminal : f.N
  terminal = f.de 180

  -- A stretch of the timetable: it begins at `t0`, lasts `dur` and goes from `s0` to `s1`; `largo_tramo` is
  -- the distance of one that moves (`mueve` and `D`).
  pub record TramoTren : Type 0 where
    pub t0 : f.N
    pub dur : f.N
    pub s0 : f.N
    pub s1 : f.N
    pub largo_tramo : Option f.N

  -- What the loops that make the timetable change: `tramos` and `tt`.
  pub record Marcha : Type 0 where
    pub tramos : List TramoTren
    pub total : f.N

  pub record HorarioTren : Type 0 where
    pub tramos : List TramoTren
    pub ciclo_tren : f.N
    pub media_vuelta : f.N
    pub n_trenes : f.N
    pub intervalo : f.N

  -- `0.5 * a * t * t`
  abbrev acelerado : f.N → f.N
  acelerado t = f.por (f.por (f.por (decimal f 5 10) acel) t) t

  unfoldable pub tiempo_tramo : f.N → f.N
  tiempo_tramo d =
      if f.alcanza d (f.entre (f.por vmax vmax) acel)
      then f.mas (f.entre d vmax) (f.entre vmax acel)
      else f.por (f.de 2) (f.raiz (f.entre d acel))

  abbrev frena : f.N → f.N → f.N → f.N
  frena d dur tau = f.menos d (acelerado (f.menos dur tau))

  unfoldable pub avance_tramo : f.N → f.N → f.N → f.N
  avance_tramo d dur tau =
      let ta = f.entre vmax acel in
      if f.alcanza d (f.entre (f.por vmax vmax) acel)
      then (if f.menor tau ta
          then acelerado tau
          else (if f.menor tau (f.menos dur ta)
              then f.mas (acelerado ta) (f.por vmax (f.menos tau ta))
              else frena d dur tau))
      else (if f.menor tau (f.entre dur (f.de 2)) then acelerado tau else frena d dur tau)

  abbrev pub dwell : f.N → f.N → Marcha → Marcha
  dwell s d m = record {
    tramos =
        m.tramos ++ (record { t0 = m.total; dur = d; s0 = s; s1 = s; largo_tramo = none } ∷ []);
    total = f.mas m.total d;
  }

  abbrev pub un_tramo : f.N → f.N → Marcha → Marcha
  un_tramo a b m =
      let d = modulo f (f.menos b a) in
      record {
        tramos =
            m.tramos
            ++ (record { t0 = m.total; dur = tiempo_tramo d; s0 = a; s1 = b; largo_tramo = some d }
                ∷ []);
        total = f.mas m.total (tiempo_tramo d);
      }

  -- `paradas` has the places from 0 to `ne`.
  module _ (paradas : ℕ → f.N) (ne : ℕ) where
    abbrev pub va_desde : Bool → ℕ → f.N
    va_desde ida i = if ida then paradas i else paradas (ne - i)

    abbrev pub llega_a : Bool → ℕ → f.N
    llega_a ida i = if ida then paradas (i + 1) else paradas (ne - i - 1)

    abbrev pub entre_paradas : Bool → ℕ → Marcha → Marcha
    entre_paradas ida i m =
        let m' = un_tramo (va_desde ida i) (llega_a ida i) m in
        if ltb (i + 1) ne then dwell (llega_a ida i) parada m' else m'

    abbrev pub recorrido : Bool → ℕ → ℕ → Marcha → Marcha
    recorrido ida zero i m = m
    recorrido ida (suc r) i m = recorrido ida r (suc i) (entre_paradas ida i m)

    abbrev pub un_sentido : Bool → Marcha → Marcha
    un_sentido ida m = recorrido ida ne 0 (dwell (if ida then paradas 0 else paradas ne) terminal m)

    abbrev pub parada_en_cero : Marcha
    parada_en_cero = record { tramos = []; total = cero f }

    abbrev con_trenes : Marcha → f.N → f.N → HorarioTren
    con_trenes m media_vuelta n = record {
      tramos = m.tramos;
      ciclo_tren = m.total;
      media_vuelta = media_vuelta;
      n_trenes = n;
      intervalo = f.entre m.total n;
    }

    abbrev pub horario_tren : HorarioTren
    horario_tren =
        let ida = un_sentido true parada_en_cero in
        let vuelta = un_sentido false ida in
        con_trenes vuelta ida.total
          (el_mayor f (f.de 1) (f.redondo (f.entre vuelta.total (f.de 360))))

  pub record PosTren : Type 0 where
    pub s : f.N
    pub dir : ℤ
    pub parado : Bool

  abbrev pub empezado : f.N → Option TramoTren → Bool
  empezado tau none = false
  empezado tau (some x) = f.alcanza tau x.t0

  abbrev avanzado : TramoTren → f.N → f.N
  avanzado x d = f.mas x.s0 (if f.menor x.s0 x.s1 then d else f.opuesto d)

  abbrev situa_segun : Option f.N → TramoTren → f.N → ℤ → PosTren
  situa_segun none x tau dir = record { s = x.s0; dir = dir; parado = true }
  situa_segun (some d) x tau dir = record {
    s = avanzado x (avance_tramo d x.dur (f.menos tau x.t0));
    dir = dir;
    parado = false;
  }

  abbrev pub situa : HorarioTren → f.N → TramoTren → PosTren
  situa h tau x =
      situa_segun x.largo_tramo x tau (if f.menor tau h.media_vuelta then pos 1 else negsuc 0)

  abbrev pub situado : HorarioTren → f.N → Option TramoTren → Option PosTren
  situado h tau none = none
  situado h tau (some x) = some (situa h tau x)

  module _ (resto : f.N → f.N → f.N) where
    -- The time of train `k` within the cycle.
    abbrev pub del_ciclo : HorarioTren → ℕ → f.N → f.N
    del_ciclo h k tsec =
        resto (f.mas (resto (f.menos tsec (f.por (f.de k) h.intervalo)) h.ciclo_tren) h.ciclo_tren)
          h.ciclo_tren

    -- `none` where there is no stretch at all.
    abbrev pub pos_tren : HorarioTren → ℕ → f.N → Option PosTren
    pos_tren h k tsec =
        let tau = del_ciclo h k tsec in
        situado h tau (
          get_elem? h.tramos (
            mitades (length h.tramos) (λ i. empezado tau (get_elem? h.tramos i)) 0
              (length h.tramos - 1)))
