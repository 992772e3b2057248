-- ===== src/Transporte/Lados.antt =====
-- Where a boat is: on the side of its loop that its distance belongs to.
use rami_ledger.Prelude.{
  ℕ, zero, suc, ◌-◌, ◌≡◌, refl, sym, ap, subst, ◌∙◌, inl, inr, true, false, Option, some, List, [],
  ◌∷◌, length, get_elem?, arith,
}
use rami_ledger.Flotantes.{Flotantes, cero}
use rami_ledger.Transporte.{mitades, mitades-EsTope, EsTope}
use rami_ledger.Transporte.Barcos.{
  PuntoLazo, Lazo, sumados, fin_de, derecha, resto_lazo, lazo, RutaBarco, PosBarco, pasado,
  entre_puntos, en_lado, en_lazo, pos_barco,
}

module _ (f : Flotantes) where
  -- The length of the side between two points.
  abbrev pub lado : PuntoLazo f → PuntoLazo f → f.N
  lado a b =
      f.raiz (f.mas (f.potencia (f.menos b.x a.x) (f.de 2)) (f.potencia (f.menos b.z a.z) (f.de 2)))

  -- The answer is a place on a side of the loop, whose length is what its two ends differ in, and the
  -- distance is between them.
  pub record EnSuLado (l : Lazo f) (s : f.N) (p : Option (PosBarco f)) : Type 0 where
    pub orden : ℕ
    pub desde : PuntoLazo f
    pub hasta : PuntoLazo f
    pub de_antes : f.N
    pub este_punto : get_elem? l.puntos orden ≡ some desde
    pub punto_siguiente : get_elem? l.puntos (suc orden) ≡ some hasta
    pub andado : get_elem? l.cum orden ≡ some de_antes
    pub andado_siguiente : get_elem? l.cum (suc orden) ≡ some (f.mas de_antes (lado desde hasta))
    pub ha_llegado : f.alcanza s de_antes ≡ true
    pub no_acaba : f.alcanza s (f.mas de_antes (lado desde hasta)) ≡ false
    pub es : p ≡ some (entre_puntos f s desde hasta de_antes (f.mas de_antes (lado desde hasta)))

  abbrev de_puntos : f.N → PuntoLazo f → List (PuntoLazo f) → Lazo f
  de_puntos c a bs = record {
    puntos = a ∷ bs;
    cum = c ∷ sumados f c a bs;
    largo = fin_de f c (sumados f c a bs);
  }

  abbrev en_este_lado : Lazo f → f.N → ℕ → Option (PosBarco f)
  en_este_lado l s k =
      en_lado f s (get_elem? l.puntos k) (get_elem? l.puntos (suc k)) (get_elem? l.cum k)
        (get_elem? l.cum (suc k))

  side_at :
      (s c : f.N) (a : PuntoLazo f) (bs : List (PuntoLazo f)) (k : ℕ)
      → pasado f s (get_elem? (c ∷ sumados f c a bs) k) ≡ true
      → EsTope (λ i. pasado f s (get_elem? (c ∷ sumados f c a bs) i)) (length bs) k
      → f.alcanza s (fin_de f c (sumados f c a bs)) ≡ false
      → EnSuLado (de_puntos c a bs) s (en_este_lado (de_puntos c a bs) s k)
  side_at s c a [] zero y e z = cc (sym z ∙ y)
  side_at s c a [] (suc k) y e z = cc y
  side_at s c a (b ∷ bs) zero y e z = record {
    orden = 0;
    desde = a;
    hasta = b;
    de_antes = c;
    este_punto = refl;
    punto_siguiente = refl;
    andado = refl;
    andado_siguiente = refl;
    ha_llegado = y;
    no_acaba = not_yet bs e z;
    es = refl;
  }
    where
      not_yet :
          (ds : List (PuntoLazo f))
          → EsTope (λ i. pasado f s (get_elem? (c ∷ sumados f c a (b ∷ ds)) i)) (suc (length ds)) 0
          → f.alcanza s (fin_de f c (sumados f c a (b ∷ ds))) ≡ false
          → f.alcanza s (f.mas c (lado a b)) ≡ false
      not_yet [] e' z' = z'
      not_yet (d ∷ ds) (inl q) z' = absurd (one_of_two (length ds) q)
        where
          one_of_two : (q' : ℕ) → 1 ≡ suc (suc q') → ⊥
          one_of_two q' h = omega arith
      not_yet (d ∷ ds) (inr o) z' = o
  side_at s c a (b ∷ bs) (suc k) y e z =
      let h = side_at s (f.mas c (lado a b)) b bs k y (before e) z in
      record {
        orden = suc h.orden;
        desde = h.desde;
        hasta = h.hasta;
        de_antes = h.de_antes;
        este_punto = h.este_punto;
        punto_siguiente = h.punto_siguiente;
        andado = h.andado;
        andado_siguiente = h.andado_siguiente;
        ha_llegado = h.ha_llegado;
        no_acaba = h.no_acaba;
        es = h.es;
      }
    where
      before :
          EsTope
            (λ i. pasado f s (get_elem? (c ∷ sumados f c a (b ∷ bs)) i))
            (suc (length bs))
            (suc k)
          → EsTope
              (λ i.
                pasado f s (get_elem? (f.mas c (lado a b) ∷ sumados f (f.mas c (lado a b)) b bs) i))
              (length bs)
              k
      before (inl q) = inl (omega arith)
      before (inr q) = inr q

  -- As many sums as points after the first.
  length-sumados :
      (c : f.N) (a : PuntoLazo f) (bs : List (PuntoLazo f)) → length (sumados f c a bs) ≡ length bs
  length-sumados c a [] = refl
  length-sumados c a (b ∷ bs) = ap suc (length-sumados (f.mas c (lado a b)) b bs)

  last_EsTope :
      (s c : f.N) (a : PuntoLazo f) (bs : List (PuntoLazo f))
      → f.alcanza s c ≡ true
      → f.alcanza s (fin_de f c (sumados f c a bs)) ≡ false
      → EsTope
          (λ i. pasado f s (get_elem? (c ∷ sumados f c a bs) i))
          (length bs)
          (suc (length (sumados f c a bs)) - 2)
  last_EsTope s c a [] y z = cc (sym z ∙ y)
  last_EsTope s c a (b ∷ bs) y z =
      let n = length-sumados (f.mas c (lado a b)) b bs in inl (omega arith)

  loop_lem :
      (s c : f.N) (a : PuntoLazo f) (bs : List (PuntoLazo f))
      → f.alcanza s c ≡ true
      → f.alcanza s (fin_de f c (sumados f c a bs)) ≡ false
      → let l = de_puntos c a bs in
        EnSuLado l s (
          en_este_lado l s
            (mitades (length l.cum) (λ j. pasado f s (get_elem? l.cum j)) 0 (length l.cum - 2)))
  loop_lem s c a bs y z =
      let l = de_puntos c a bs in
      let found =
        mitades-EsTope (length l.cum) (λ j. pasado f s (get_elem? l.cum j)) (length bs) 0
          (length l.cum - 2) y (last_EsTope s c a bs y z) (omega arith) (omega arith) in
      side_at s c a bs _ found.0 found.1 z

  module _ (resto : f.N → f.N → f.N) where
    -- On the loop that is made from a line, each boat is at a place on a side of it which it has come to
    -- and not come to the end of. Here the distance of the boat is within the loop: at or after 0, and
    -- not at or after its length.
    pub pos_barco-EnSuLado :
        (pts : ℕ → PuntoLazo f) (n : ℕ) (o : f.N) (r : RutaBarco f) (i : ℕ) (tsec : f.N)
        → r.lz ≡ lazo f pts n o
        → f.alcanza (en_lazo f resto r i tsec) (cero f) ≡ true
        → f.alcanza (en_lazo f resto r i tsec) r.lz.largo ≡ false
        → EnSuLado r.lz (en_lazo f resto r i tsec) (pos_barco f resto r i tsec)
    unfolding lazo
    pos_barco-EnSuLado pts n o r i tsec e y z =
        let s = en_lazo f resto r i tsec in
        let on : Lazo f → Type 0 = λ l. EnSuLado l s (
          en_este_lado l s
            (mitades (length l.cum) (λ j. pasado f s (get_elem? l.cum j)) 0 (length l.cum - 2))) in
        subst on (sym e) (
          loop_lem s (cero f) (derecha f pts n o 0) (resto_lazo f pts n o) y
            (sym (ap (λ (l : Lazo f). f.alcanza s l.largo) e) ∙ z))
