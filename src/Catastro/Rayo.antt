-- ===== src/Catastro/Rayo.antt =====
-- The ray: `cortaCaja`, `rayoSolido`.
use rami_ledger.Prelude.{
  ℕ, zero, suc, ◌||◌, Option, none, some, List, [], ◌∷◌, if◌then◌else◌, get_elem?,
}
use rami_ledger.Flotantes.{Flotantes, cero, modulo}
use rami_ledger.Catastro.{Solido, Catastro, es_visto, celda_de, solido_celda}
use rami_ledger.Catastro.Consultas.{lista_en}

module _ (f : Flotantes) (Ficha : Type 0) where
  pub record Vector : Type 0 where
    pub vx : f.N
    pub vy : f.N
    pub vz : f.N

  -- One pair of faces, with where the ray starts and goes along their axis.
  pub record Lamina : Type 0 where
    pub mins : f.N
    pub maxs : f.N
    pub orig : f.N
    pub dirs : f.N

  abbrev pub dentro_de : f.N × f.N → Option (f.N × f.N)
  dentro_de (t0, t1) = if f.menor t1 t0 then none else some (t0, t1)

  -- `a` and `b` in order, and the stretch of the ray between them.
  abbrev pub recorta : f.N → f.N → f.N × f.N → f.N × f.N
  recorta a b (t0, t1) = (if f.menor t0 a then a else t0, if f.menor b t1 then b else t1)

  abbrev pub corta_lamina : Lamina → f.N × f.N → Option (f.N × f.N)
  corta_lamina l t =
      let a = f.entre (f.menos l.mins l.orig) l.dirs in
      let b = f.entre (f.menos l.maxs l.orig) l.dirs in
      if f.menor (modulo f l.dirs) (f.entre (f.de 1) (f.de 1_000_000_000))
      then (if f.menor l.orig l.mins || f.menor l.maxs l.orig then none else some t)
      else dentro_de (if f.menor b a then recorta b a t else recorta a b t)

  abbrev pub tras_lamina :
      (f.N × f.N → Option (f.N × f.N)) → Option (f.N × f.N) → Option (f.N × f.N)
  tras_lamina more none = none
  tras_lamina more (some t) = more t

  abbrev pub corta_laminas : List Lamina → f.N × f.N → Option (f.N × f.N)
  corta_laminas [] t = some t
  corta_laminas (l ∷ ls) t = tras_lamina (corta_laminas ls) (corta_lamina l t)

  abbrev pub entrada : Option (f.N × f.N) → Option f.N
  entrada none = none
  entrada (some (t0, t1)) =
      if f.menor (cero f) t0 then some t0 else (if f.menor (cero f) t1 then some t1 else none)

  -- The faces of a solid, with the ray in its frame.
  abbrev pub laminas : Solido f Ficha → Vector → Vector → List Lamina
  laminas so o dir =
      let c = f.coseno so.yaw in
      let sn = f.seno so.yaw in
      let ox = f.menos o.vx so.x in
      let oz = f.menos o.vz so.z in
      let lx : Lamina = record {
        mins = f.opuesto so.hw;
        maxs = so.hw;
        orig = f.menos (f.por ox c) (f.por oz sn);
        dirs = f.menos (f.por dir.vx c) (f.por dir.vz sn);
      } in
      let ly : Lamina = record {
        mins = so.y0;
        maxs = f.mas so.y0 so.h;
        orig = o.vy;
        dirs = dir.vy;
      } in
      let lz : Lamina = record {
        mins = f.opuesto so.hd;
        maxs = so.hd;
        orig = f.mas (f.por ox sn) (f.por oz c);
        dirs = f.mas (f.por dir.vx sn) (f.por dir.vz c);
      } in
      lx ∷ ly ∷ lz ∷ []

  -- `cortaCaja`
  unfoldable pub corta_caja : Solido f Ficha → Vector → Vector → f.N → Option f.N
  corta_caja so o dir max_t = entrada (corta_laminas (laminas so o dir) (cero f, max_t))

  -- What the ray has met so far: the nearest solid, how far, and all that it has looked at.
  pub record Barrido : Type 0 where
    pub mejor : Option (Solido f Ficha)
    pub mejor_t : f.N
    pub vistos : List ℕ

  abbrev pub tras_corte : Solido f Ficha → Option f.N → Barrido → Barrido
  tras_corte so none b = b
  tras_corte so (some tt) b =
      if f.menor tt b.mejor_t then record b { mejor = some so; mejor_t = tt } else b

  abbrev pub prueba : Vector → Vector → Option (Solido f Ficha) → Barrido → Barrido
  prueba o dir none b = b
  prueba o dir (some so) b = tras_corte so (corta_caja so o dir b.mejor_t) b

  abbrev pub barre_lista : Vector → Vector → List (Solido f Ficha) → List ℕ → Barrido → Barrido
  barre_lista o dir items [] b = b
  barre_lista o dir items (id ∷ ids) b = barre_lista o dir items ids (
      if es_visto id b.vistos
      then b
      else prueba o dir (get_elem? items id) (record b { vistos = id ∷ b.vistos }))

  -- One step along the ray.
  abbrev pub barre : Catastro f Ficha → Vector → Vector → f.N → Barrido → Barrido
  barre cat o dir t b =
      barre_lista o dir cat.items
        (lista_en f Ficha cat (celda_de f (f.mas o.vx (f.por dir.vx t)))
          (celda_de f (f.mas o.vz (f.por dir.vz t))))
        b

  -- The loop; `none` where the rounds are used up.
  unfoldable pub avanza_rayo :
      ℕ → Catastro f Ficha → Vector → Vector → f.N → Barrido → Option Barrido
  avanza_rayo zero cat o dir t b = none
  avanza_rayo (suc rounds) cat o dir t b =
      let rest =
        avanza_rayo rounds cat o dir
          (f.mas t (f.por (f.de solido_celda) (f.entre (f.de 1) (f.de 2)))) (barre cat o dir t b) in
      if f.menor t b.mejor_t then rest else some b

  abbrev pub hallado : Barrido → Option (Solido f Ficha) → Option (Solido f Ficha × f.N)
  hallado b none = none
  hallado b (some so) = some (so, b.mejor_t)

  abbrev pub tras_barrido : Option Barrido → Option (Option (Solido f Ficha × f.N))
  tras_barrido none = none
  tras_barrido (some b) = some (hallado b b.mejor)

  -- `rayoSolido`; the outer `none` is a loop that used up its rounds.
  unfoldable pub rayo_solido :
      ℕ → Option (Catastro f Ficha) → Vector → Vector → f.N → Option (Option (Solido f Ficha × f.N))
  rayo_solido rounds none o dir max_t = some none
  rayo_solido rounds (some cat) o dir max_t = tras_barrido (
      avanza_rayo rounds cat o dir (cero f) (record { mejor = none; mejor_t = max_t; vistos = [] }))
