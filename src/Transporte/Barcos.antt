-- ===== src/Transporte/Barcos.antt =====
-- The boats: city/extras.js, `lazo`, the closed line that a boat follows, and `posBarco`, over any
-- numbers, with the remainder `%` of the language.
use rami_ledger.Prelude.{
  ℕ, zero, suc, ◌+◌, ◌-◌, ◌||◌, Bool, false, Option, none, some, List, [], ◌∷◌, ◌++◌, ltb, length,
  get_elem?, if◌then◌else◌,
}
use rami_ledger.Flotantes.{Flotantes, cero, hipotenusa}
use rami_ledger.Transporte.{mitades}

module _ (f : Flotantes) where
  pub record PuntoLazo : Type 0 where
    pub x : f.N
    pub z : f.N

  -- `v || 1`
  abbrev pub o_uno : f.N → f.N
  o_uno v = if f.menor v (cero f) || f.menor (cero f) v then v else f.de 1

  -- The lengths of the sides that lead from a point through others, added up.
  abbrev pub sumados : f.N → PuntoLazo → List PuntoLazo → List f.N
  sumados s a [] = []
  sumados s a (b ∷ bs) =
      let s' = f.mas s (
        f.raiz (
          f.mas (f.potencia (f.menos b.x a.x) (f.de 2)) (f.potencia (f.menos b.z a.z) (f.de 2)))) in
      s' ∷ sumados s' b bs

  abbrev pub fin_de : f.N → List f.N → f.N
  fin_de s [] = s
  fin_de s (t ∷ ts) = fin_de t ts

  pub record Lazo : Type 0 where
    pub puntos : List PuntoLazo
    pub cum : List f.N
    pub largo : f.N

  -- The line has the points from 0 to `n - 1`, at least one; the loop goes by it on one side at a
  -- distance `o` and comes back on the other.
  module _ (pts : ℕ → PuntoLazo) (n : ℕ) (o : f.N) where
    abbrev tang : ℕ → f.N × f.N
    tang i =
        let a = pts (i - 1) in
        let b = pts (if ltb (i + 1) (n - 1) then i + 1 else n - 1) in
        let dx = f.menos b.x a.x in
        let dz = f.menos b.z a.z in
        let l = o_uno (hipotenusa f dx dz) in (f.entre dx l, f.entre dz l)

    abbrev pub derecha : ℕ → PuntoLazo
    derecha i =
        let p = pts i in
        let (tx, tz) = tang i in record { x = f.menos p.x (f.por tz o); z = f.mas p.z (f.por tx o) }

    abbrev pub izquierda : ℕ → PuntoLazo
    izquierda i =
        let p = pts i in
        let (tx, tz) = tang i in record { x = f.mas p.x (f.por tz o); z = f.menos p.z (f.por tx o) }

    abbrev pub de_ida : ℕ → ℕ → List PuntoLazo
    de_ida zero i = []
    de_ida (suc r) i = derecha i ∷ de_ida r (suc i)

    abbrev pub de_vuelta : ℕ → List PuntoLazo
    de_vuelta zero = []
    de_vuelta (suc r) = izquierda r ∷ de_vuelta r

    abbrev arco_desde : f.N → PuntoLazo → ℕ → ℕ → List PuntoLazo
    arco_desde a0 c zero k = []
    arco_desde a0 c (suc r) k =
        let an = f.menos a0 (f.entre (f.por f.pi (f.de k)) (f.de 10)) in
        record { x = f.mas c.x (f.por o (f.coseno an)); z = f.mas c.z (f.por o (f.seno an)) }
        ∷ arco_desde a0 c r (suc k)

    abbrev pub arco_de : PuntoLazo → PuntoLazo → List PuntoLazo
    arco_de p c = arco_desde (f.arco (f.menos p.z c.z) (f.menos p.x c.x)) c 9 1

    -- The loop after its first point, to which it comes back.
    abbrev pub resto_lazo : List PuntoLazo
    resto_lazo =
        de_ida (n - 1) 1
        ++ (arco_de (derecha (n - 1)) (pts (n - 1))
            ++ (de_vuelta n ++ (arco_de (izquierda 0) (pts 0) ++ (derecha 0 ∷ []))))

    unfoldable pub lazo : Lazo
    lazo = record {
      puntos = derecha 0 ∷ resto_lazo;
      cum = cero f ∷ sumados (cero f) (derecha 0) resto_lazo;
      largo = fin_de (cero f) (sumados (cero f) (derecha 0) resto_lazo);
    }

  pub record RutaBarco : Type 0 where
    pub lz : Lazo
    pub v : f.N
    pub n : f.N
    pub desfase : f.N

  pub record PosBarco : Type 0 where
    pub x : f.N
    pub z : f.N
    pub tx : f.N
    pub tz : f.N

  abbrev pub pasado : f.N → Option f.N → Bool
  pasado s none = false
  pasado s (some c) = f.alcanza s c

  -- Between two points of the loop and what they have along it.
  abbrev pub entre_puntos : f.N → PuntoLazo → PuntoLazo → f.N → f.N → PosBarco
  entre_puntos s a b ca cb =
      let u = f.entre (f.menos s ca) (o_uno (f.menos cb ca)) in
      let dx = f.menos b.x a.x in
      let dz = f.menos b.z a.z in
      let l = o_uno (hipotenusa f dx dz) in
      record {
        x = f.mas a.x (f.por (f.menos b.x a.x) u);
        z = f.mas a.z (f.por (f.menos b.z a.z) u);
        tx = f.entre dx l;
        tz = f.entre dz l;
      }

  abbrev pub en_lado :
      f.N → Option PuntoLazo → Option PuntoLazo → Option f.N → Option f.N → Option PosBarco
  en_lado s (some a) (some b) (some ca) (some cb) = some (entre_puntos s a b ca cb)
  en_lado s a b ca cb = none

  module _ (resto : f.N → f.N → f.N) where
    -- How far along its loop boat `i` of a route is.
    abbrev pub en_lazo : RutaBarco → ℕ → f.N → f.N
    en_lazo r i tsec =
        let s =
          resto (f.mas (f.por r.v tsec) (f.por (f.mas (f.entre (f.de i) r.n) r.desfase) r.lz.largo))
            r.lz.largo in
        if f.menor s (cero f) then f.mas s r.lz.largo else s

    -- `none` where the loop has no side.
    abbrev pub pos_barco : RutaBarco → ℕ → f.N → Option PosBarco
    pos_barco r i tsec =
        let s = en_lazo r i tsec in
        let cum = r.lz.cum in
        let lo = mitades (length cum) (λ j. pasado s (get_elem? cum j)) 0 (length cum - 2) in
        en_lado s (get_elem? r.lz.puntos lo) (get_elem? r.lz.puntos (suc lo)) (get_elem? cum lo)
          (get_elem? cum (suc lo))
