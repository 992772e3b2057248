-- ===== src/Catastro/Salientes.antt =====
-- How a solid that touches a circle pushes it: what a step of `empujarFuera` makes of a position.
use mathlib.Core.Option.{some-injective}
use rami_ledger.Prelude.{
  ◌≡◌, refl, sym, ap, ◌⊎◌, inl, inr, Bool, true, false, none, some, if◌then◌else◌,
}
use rami_ledger.Flotantes.{Flotantes, cero, modulo, clamp}
use rami_ledger.Catastro.{Solido, Punto}
use rami_ledger.Catastro.Consultas.{a_local, signo, por_la_cara, normal, desplaza, saca_de}

module _ (f : Flotantes) (Ficha : Type 0) (r : f.N) where
  -- `v` is 1 or -1, with the sign of `a`.
  abbrev EsSigno : f.N → f.N → Type 0
  EsSigno a v =
      ((f.alcanza a (cero f) ≡ true) × (v ≡ f.de 1))
      ⊎ ((f.alcanza a (cero f) ≡ false) × (v ≡ f.opuesto (f.de 1)))

  -- What is left from a coordinate to the nearest place between two faces.
  abbrev hasta_cara : f.N → f.N → f.N
  hasta_cara v h = f.menos v (clamp f v (f.opuesto h) h)

  -- From inside: out of the nearer pair of faces, on the side of the centre.
  abbrev PorLaCara : Solido f Ficha → Punto f → Punto f → f.N → Type 0
  PorLaCara so l e d =
      let px = f.menos so.hw (modulo f l.px) in
      let pz = f.menos so.hd (modulo f l.pz) in
      ((f.menor px pz ≡ true) × EsSigno l.px e.px × (e.pz ≡ cero f) × (d ≡ f.opuesto px))
      ⊎ ((f.menor px pz ≡ false) × (e.px ≡ cero f) × EsSigno l.pz e.pz × (d ≡ f.opuesto pz))

  -- A direction `e` in the frame of the solid, and how far the border is along it, negative from inside:
  -- from outside, away from the nearest place of the box.
  abbrev HaciaFuera : Solido f Ficha → Punto f → Punto f → f.N → Type 0
  HaciaFuera so l e d =
      let ex = hasta_cara l.px so.hw in
      let ez = hasta_cara l.pz so.hd in
      let far = f.raiz (f.mas (f.por ex ex) (f.por ez ez)) in
      ((f.menor (f.entre (f.de 1) (f.de 10_000)) far ≡ true)
        × (e.px ≡ f.entre ex far)
        × (e.pz ≡ f.entre ez far)
        × (d ≡ far))
      ⊎ ((f.menor (f.entre (f.de 1) (f.de 10_000)) far ≡ false) × PorLaCara so l e d)

  -- A solid that touches the circle at `p` pushes it to `p'`, until its border is a radius away.
  pub record Sale (so : Solido f Ficha) (p p' : Punto f) : Type 0 where
    pub hacia : Punto f
    pub hondo : f.N
    pub toca :
        let l = a_local f Ficha so p.px p.pz in
        let ex = hasta_cara l.px so.hw in
        let ez = hasta_cara l.pz so.hd in
        f.alcanza (f.mas (f.por ex ex) (f.por ez ez)) (f.por r r) ≡ false
    pub fuera : HaciaFuera so (a_local f Ficha so p.px p.pz) hacia hondo
    pub en_x :
        p'.px
        ≡ f.mas p.px (
            f.por
              (f.mas (f.por hacia.px (f.coseno so.yaw)) (f.por hacia.pz (f.seno so.yaw)))
              (f.menos r hondo))
    pub en_z :
        p'.pz
        ≡ f.mas p.pz (
            f.por
              (f.mas
                (f.por (f.opuesto hacia.px) (f.seno so.yaw))
                (f.por hacia.pz (f.coseno so.yaw)))
              (f.menos r hondo))

  signo-EsSigno : (a : f.N) → EsSigno a (signo f Ficha a)
  signo-EsSigno a = by_sign (f.alcanza a (cero f)) refl
    where
      by_sign :
          (b : Bool)
          → f.alcanza a (cero f) ≡ b
          → EsSigno a (if b then f.de 1 else f.opuesto (f.de 1))
      by_sign true e = inl (e, refl)
      by_sign false e = inr (e, refl)

  cara-HaciaFuera :
      (so : Solido f Ficha) (l : Punto f)
      → let n = por_la_cara f Ficha so l in PorLaCara so l n.0 n.1
  cara-HaciaFuera so l =
      by_near (f.menor (f.menos so.hw (modulo f l.px)) (f.menos so.hd (modulo f l.pz))) refl
    where
      by_near :
          (b : Bool)
          → f.menor (f.menos so.hw (modulo f l.px)) (f.menos so.hd (modulo f l.pz)) ≡ b
          → let n : Punto f × f.N =
              if b
              then (
                record { px = signo f Ficha l.px; pz = cero f },
                f.opuesto (f.menos so.hw (modulo f l.px)),
              )
              else (
                record { px = cero f; pz = signo f Ficha l.pz },
                f.opuesto (f.menos so.hd (modulo f l.pz)),
              ) in
            PorLaCara so l n.0 n.1
      by_near true e = inl (e, signo-EsSigno l.px, refl, refl)
      by_near false e = inr (e, refl, signo-EsSigno l.pz, refl)

  normal-HaciaFuera :
      (so : Solido f Ficha) (l : Punto f)
      → let ex = hasta_cara l.px so.hw in
        let ez = hasta_cara l.pz so.hd in
        let n = normal f Ficha so l ex ez (f.raiz (f.mas (f.por ex ex) (f.por ez ez))) in
        HaciaFuera so l n.0 n.1
  normal-HaciaFuera so l =
      by_far (hasta_cara l.px so.hw) (hasta_cara l.pz so.hd) _
        (f.menor (f.entre (f.de 1) (f.de 10_000)) _) refl
    where
      by_far :
          (ex ez far : f.N) (b : Bool)
          → f.menor (f.entre (f.de 1) (f.de 10_000)) far ≡ b
          → let n : Punto f × f.N =
              if b
              then (record { px = f.entre ex far; pz = f.entre ez far }, far)
              else por_la_cara f Ficha so l in
            ((f.menor (f.entre (f.de 1) (f.de 10_000)) far ≡ true)
              × (n.0.px ≡ f.entre ex far)
              × (n.0.pz ≡ f.entre ez far)
              × (n.1 ≡ far))
            ⊎ ((f.menor (f.entre (f.de 1) (f.de 10_000)) far ≡ false) × PorLaCara so l n.0 n.1)
      by_far ex ez far true e = inl (e, refl, refl, refl)
      by_far ex ez far false e = inr (e, cara-HaciaFuera so l)

  pub saca_de-Sale :
      (so : Solido f Ficha) (p p' : Punto f) → saca_de f Ficha so r p ≡ some p' → Sale so p p'
  unfolding saca_de
  saca_de-Sale so p p' h =
      let l = a_local f Ficha so p.px p.pz in
      let ex = hasta_cara l.px so.hw in
      let ez = hasta_cara l.pz so.hd in
      let d2 = f.mas (f.por ex ex) (f.por ez ez) in
      touched (f.alcanza d2 (f.por r r)) refl (normal f Ficha so l ex ez (f.raiz d2))
        (normal-HaciaFuera so l) h
    where
      touched :
          (b : Bool)
          → let l = a_local f Ficha so p.px p.pz in
            let ex = hasta_cara l.px so.hw in
            let ez = hasta_cara l.pz so.hd in
            f.alcanza (f.mas (f.por ex ex) (f.por ez ez)) (f.por r r) ≡ b
            → (n : Punto f × f.N) → HaciaFuera so (a_local f Ficha so p.px p.pz) n.0 n.1
            → (if b then none else some (desplaza f Ficha so p r n)) ≡ some p'
            → Sale so p p'
      touched true e n out q = cc q
      touched false e n out q =
          let is = some-injective _ _ (sym q) in
          record {
            hacia = n.0;
            hondo = n.1;
            toca = e;
            fuera = out;
            en_x = ap (λ (z : Punto f). z.px) is;
            en_z = ap (λ (z : Punto f). z.pz) is;
          }
