-- ===== src/Vida/Rutas/Guardadas.antt =====
-- The state of the ways that are kept: `V.cache`, `V.uso`, `V.nCache`, `V.dur`, and the functions that
-- change it.
use rami_ledger.Prelude.{
  ℕ, suc, ◌+◌, ◌-◌, Bool, false, ◌&&◌, ◌||◌, Option, none, some, List, [], ◌∷◌, leb, ◌==◌,
  if◌then◌else◌, length,
}
use rami_ledger.Vida.Diario.{dia, Viaje, Tipo}
use rami_ledger.Vida.Rutas.{Numeros, Ruta, Calles, ruta_nueva, andado_en}

abbrev pub poda_cuadros : ℕ
poda_cuadros = 120

-- An object that has numbers as keys.
abbrev pub busca {ℓ} : {A : Type ℓ} → ℕ → List (ℕ × A) → Option A
busca k [] = none
busca k ((j, a) ∷ xs) = if j == k then some a else busca k xs

abbrev pub quita {ℓ} : {A : Type ℓ} → ℕ → List (ℕ × A) → List (ℕ × A)
quita k [] = []
quita k ((j, a) ∷ xs) = let rest = quita k xs in if j == k then xs else (j, a) ∷ rest

abbrev pub cambia_en {ℓ} : {A : Type ℓ} → (ℕ → A) → ℕ → A → ℕ → A
cambia_en f k a i = if k == i then a else f i

module _ (n : Numeros) (Linea : Type 0) (m : Calles n Linea) where
  -- A duration is `NaN`, here `none`, until the way has been computed.
  pub record Guardado : Type 0 where
    pub cache : List (ℕ × Option (Ruta n Linea))
    pub uso : ℕ → Option ℕ
    pub n_cache : ℕ
    pub dur : Option (ℕ → Option n.N)
    pub n_cuadro : ℕ
    pub aplazados : ℕ
    pub podas : ℕ

  abbrev pub usada : ℕ → Guardado → Guardado
  usada id s = record {
    cache = s.cache;
    uso = cambia_en s.uso id (some s.n_cuadro);
    n_cache = s.n_cache;
    dur = s.dur;
    n_cuadro = s.n_cuadro;
    aplazados = s.aplazados;
    podas = s.podas;
  }

  abbrev pub aplazada : Guardado → Guardado
  aplazada s = record {
    cache = s.cache;
    uso = s.uso;
    n_cache = s.n_cache;
    dur = s.dur;
    n_cuadro = s.n_cuadro;
    aplazados = suc s.aplazados;
    podas = s.podas;
  }

  abbrev pub dur_de : Option (Ruta n Linea) → n.N
  dur_de none = n.menos_uno
  dur_de (some r) = r.dur

  -- `if (V.dur) V.dur[v.id] = R2 ? R2.dur : -1`
  abbrev pub anota_dur :
      Option (ℕ → Option n.N) → ℕ → Option (Ruta n Linea) → Option (ℕ → Option n.N)
  anota_dur none id r = none
  anota_dur (some f) id r = some (cambia_en f id (some (dur_de r)))

  abbrev pub guardada : ℕ → Option (Ruta n Linea) → Guardado → Guardado
  guardada id r s = record {
    cache = (id, r) ∷ s.cache;
    uso = cambia_en s.uso id (some s.n_cuadro);
    n_cache = suc s.n_cache;
    dur = anota_dur s.dur id r;
    n_cuadro = s.n_cuadro;
    aplazados = s.aplazados;
    podas = s.podas;
  }

  -- What `rutaDe` does when the way is kept, and when it is not; `tarde` says whether the time of the
  -- frame for new ways is used up. `none` is `undefined`.
  abbrev pub ruta_con :
      Viaje
      → Bool
      → Bool
      → Option (Option (Ruta n Linea))
      → Guardado
      → Option (Option (Ruta n Linea)) × Guardado
  ruta_con v pres tarde (some r) s = (some r, usada v.id s)
  ruta_con v pres tarde none s =
      if pres && tarde
      then (none, aplazada s)
      else (some (ruta_nueva n Linea m v), guardada v.id (ruta_nueva n Linea m v) s)

  unfoldable pub ruta_de :
      Viaje → Bool → Bool → Guardado → Option (Option (Ruta n Linea)) × Guardado
  ruta_de v pres tarde s = ruta_con v pres tarde (busca v.id s.cache) s

  -- `suelta(id)`
  abbrev pub suelta_si : ℕ → Option (Option (Ruta n Linea)) → Guardado → Guardado
  suelta_si id none s = s
  suelta_si id (some r) s = record {
    cache = quita id s.cache;
    uso = cambia_en s.uso id none;
    n_cache = s.n_cache - 1;
    dur = s.dur;
    n_cuadro = s.n_cuadro;
    aplazados = s.aplazados;
    podas = s.podas;
  }

  abbrev pub suelta : ℕ → Guardado → Guardado
  suelta id s = suelta_si id (busca id s.cache) s

  -- The seconds since the start.
  abbrev pub desde_salida : Viaje → n.N → n.N
  desde_salida v t = let d = n.de dia in n.resto (n.mas (n.resto (n.menos t (n.de v.t0)) d) d) d

  abbrev pub dur_sabida : Option (ℕ → Option n.N) → ℕ → Option n.N
  dur_sabida none id = none
  dur_sabida (some f) id = f id

  -- `transcurrido` without a duration that tells, behind `rutaDe`; `none` is `-1`.
  abbrev pub segun_ruta :
      Viaje → n.N → Option (Option (Ruta n Linea)) × Guardado → Option n.N × Guardado
  segun_ruta v el (none, s) = (none, s)
  segun_ruta v el (some none, s) = (none, s)
  segun_ruta v el (some (some r), s) =
      if n.alcanza el r.dur then (none, suelta v.id s) else (some el, s)

  abbrev pub acabado : n.N → Option n.N → Bool
  acabado el none = false
  acabado el (some du) = n.menor du (n.de 0) || n.alcanza el du

  abbrev pub si_positiva : Viaje → Option n.N → Guardado → Guardado
  si_positiva v none s = s
  si_positiva v (some du) s = if n.alcanza du (n.de 0) then suelta v.id s else s

  unfoldable pub transcurrido : Viaje → n.N → Bool → Bool → Guardado → Option n.N × Guardado
  transcurrido v t pres tarde s =
      let el = desde_salida v t in
      let du = dur_sabida s.dur v.id in
      if acabado el du then (none, si_positiva v du s) else segun_ruta v el (ruta_de v pres tarde s)

  -- What `posicion` tells: the trip, the metres and whether the walker stands; the point is the one of
  -- the line at those metres.
  pub record Posicion : Type 0 where
    pub viaje : ℕ
    pub tipo : Tipo
    pub andado : n.N
    pub quieto : Bool

  abbrev pub en_ruta : Viaje → n.N → Option (Option (Ruta n Linea)) → Option Posicion
  en_ruta v el none = none
  en_ruta v el (some none) = none
  en_ruta v el (some (some r)) =
      let a = andado_en n Linea m r.esperas (m.paso_de v.p) el (n.de 0) in
      some (record { viaje = v.id; tipo = v.tipo; andado = a.0; quieto = a.1 })

  abbrev pub si_anda :
      Viaje
      → Option n.N × Guardado
      → (Guardado → Option Posicion × Guardado)
      → Option Posicion × Guardado
  si_anda v (none, s) rest = rest s
  si_anda v (some el, s) rest = let r = ruta_de v false false s in (en_ruta v el r.0, r.1)

  -- The loop of `posicion` over the trips of a person.
  abbrev pub primera : List ℕ → n.N → Guardado → Option Posicion × Guardado
  primera [] t s = (none, s)
  primera (k ∷ ks) t s =
      si_anda (m.viajes k) (transcurrido (m.viajes k) t false false s) (primera ks t)

  abbrev pub de_persona : Option (List ℕ) → n.N → Guardado → Option Posicion × Guardado
  de_persona none t s = (none, s)
  de_persona (some ks) t s = primera ks t s

  unfoldable pub posicion : ℕ → n.N → Guardado → Option Posicion × Guardado
  posicion i t s = de_persona (m.viajes_de i) t s

  -- `V.uso[k] >= lim`
  abbrev pub es_reciente : ℕ → Option ℕ → Bool
  es_reciente ahora none = false
  es_reciente ahora (some u) = leb ahora (u + poda_cuadros)

  abbrev pub recientes :
      ℕ → (ℕ → Option ℕ) → List (ℕ × Option (Ruta n Linea)) → List (ℕ × Option (Ruta n Linea))
  recientes ahora uso [] = []
  recientes ahora uso ((k, r) ∷ xs) =
      let rest = recientes ahora uso xs in if es_reciente ahora (uso k) then (k, r) ∷ rest else rest

  abbrev pub con_uso : (ℕ → Option ℕ) → List (ℕ × Option (Ruta n Linea)) → ℕ → Option ℕ
  con_uso uso [] k = none
  con_uso uso ((j, r) ∷ xs) k = let rest = con_uso uso xs k in if j == k then uso k else rest

  unfoldable pub poda : Guardado → Guardado
  poda s =
      let kept = recientes s.n_cuadro s.uso s.cache in
      record {
        cache = kept;
        uso = con_uso s.uso kept;
        n_cache = length kept;
        dur = s.dur;
        n_cuadro = s.n_cuadro;
        aplazados = s.aplazados;
        podas = suc s.podas;
      }
