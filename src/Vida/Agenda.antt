-- ===== src/Vida/Agenda.antt =====
-- `agenda`: the trips of one person's day, each with its draws in the order of the source.
pub mod Dias
use rami_ledger.Prelude.{
  ℕ, ◌+◌, ◌*◌, Bool, true, false, Option, none, some, ◌&&◌, ◌==◌, leb, if◌then◌else◌,
}
use rami_ledger.Vida.Azar.{entero, por_ciento}
use rami_ledger.Vida.Diario.{
  Acceso, acc, parada, taxi, sitio, nodo, ida, vuelta, llegada, salida, comida, recado, paseo,
  madrugada, Persona, Accion, ◌>>=◌, ◌>>◌, nada, tira, viaje,
}

-- An errand: there and back, from an hour on that a draw picks.
abbrev pub encargo : ℕ → Acceso → ℕ → ℕ → ℕ → Accion (Unit {0})
encargo per casa pct desde rango = do
  x ← tira
  if por_ciento x pct
      then (do
        a ← tira
        b ← tira
        c ← tira
        let t1 = desde * 3600 + entero a rango
        let e1 = 1200 + entero b 2400
        let sa = entero c 1000000000
        viaje per casa.zona t1 casa (sitio sa 15000 70000) false recado
        viaje per casa.zona (t1 + e1) casa (sitio sa 15000 70000) true recado)
      else nada

-- Lunch, from work.
abbrev pub almuerzo : ℕ → Acceso → Accion (Unit {0})
almuerzo per w = do
  x ← tira
  if por_ciento x 55
      then (do
        a ← tira
        b ← tira
        c ← tira
        let come = 12 * 3600 + entero a 7200
        let estancia = 1500 + entero b 2100
        let sc = entero c 1000000000
        viaje per w.zona come w (sitio sc 8000 45000) false comida
        viaje per w.zona (come + estancia) w (sitio sc 8000 45000) true comida)
      else nada

-- A walk, or a walk in the small hours.
abbrev pub vuelta_nocturna : ℕ → Acceso → Accion (Unit {0})
vuelta_nocturna per casa = do
  x ← tira
  if por_ciento x 2
      then (do
        a ← tira
        b ← tira
        viaje per casa.zona (23 * 3600 + entero a 21600) casa
            (nodo (entero b 1000000000) 8000 25000) false madrugada)
      else nada

abbrev pub un_paseo : ℕ → Acceso → Accion (Unit {0})
un_paseo per casa = do
  x ← tira
  if por_ciento x 12
      then (do
        a ← tira
        b ← tira
        viaje per casa.zona (20 * 3600 + entero a 10800) casa
            (nodo (entero b 1000000000) 15000 35000) false paseo)
      else nada

-- `es_trama` says whether a zone is a grid of streets; `metros` is the distance of two doors, along
-- the axes and rounded.
module _ (es_trama : ℕ → Bool) (metros : Acceso → Acceso → ℕ) where
  -- `cerca`
  abbrev pub es_cerca : Acceso → Acceso → Bool
  es_cerca h w = (w.zona == h.zona && w.con_edificio && es_trama h.zona) && leb (metros w h) 1200

  -- The four trips of one who goes by metro or taxi.
  abbrev pub en_metro : ℕ → Acceso → Acceso → ℕ → ℕ → ℕ → ℕ → Accion (Unit {0})
  en_metro per h w sale vuelve tarda regreso = do
    let alli = if es_trama w.zona then parada else taxi
    viaje per h.zona sale h parada false ida
    viaje per w.zona (sale + tarda) w alli true llegada
    viaje per w.zona vuelve w alli false salida
    viaje per h.zona (vuelve + regreso) h parada true vuelta

  abbrev pub a_pie : ℕ → Acceso → Acceso → ℕ → ℕ → Accion (Unit {0})
  a_pie per h w sale vuelve = do
    viaje per h.zona sale h (acc w) false ida
    viaje per h.zona vuelve h (acc w) true vuelta

  abbrev pub jornada_de : ℕ → Acceso → Acceso → Accion (Unit {0})
  jornada_de per h w = do
    a ← tira
    b ← tira
    c ← tira
    d ← tira
    let sale = 7 * 3600 + entero a 9000
    let vuelve = 17 * 3600 + entero b 9000
    if es_cerca h w
        then a_pie per h w sale vuelve
        else en_metro per h w sale vuelve (900 + entero c 1500) (900 + entero d 1500)
    if es_trama w.zona then almuerzo per w else nada

  abbrev pub libre_de : ℕ → Acceso → Accion (Unit {0})
  libre_de per h = do encargo per h 80 9 18000; encargo per h 60 15 19800

  unfoldable pub agenda : Persona → Accion (Unit {0})
  agenda per = do
    elim per.trabajo as (λ _. Accion (Unit {0})) [
      | none ↦ libre_de per.id per.casa
      | some w ↦ jornada_de per.id per.casa w
    ]
    un_paseo per.id per.casa
    vuelta_nocturna per.id per.casa
