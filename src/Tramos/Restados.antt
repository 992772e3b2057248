-- ===== src/Tramos/Restados.antt =====
-- `restaTramos` takes away the points of the stretches, up to ends.
use rami_ledger.Prelude.{
  Bool, true, false, not, ◌&&◌, ◌||◌, ◌≡◌, refl, ◌∙◌, ap, inl, inr, List, [], ◌∷◌, ◌++◌,
  if◌then◌else◌, Bool-cases, arith,
}
use rami_ledger.Tramos.{Tramo, resta_uno, resta_ronda, resta_tramos, dentro, interior, alguno}

-- The comparisons of a point `s` with `[a, b]` and `[p, q]`: `ax` is a < s, `sb` is s < b, `aq` is
-- a < q, and so on.
or_false : (b : Bool) → (b || false) ≡ b
or_false true = refl
or_false false = refl

or_none : (a b : Bool) → (not a || not b) ≡ false → (a ≡ true) × (b ≡ true)
or_none a b e = ground arith

and_distrib : (a b c : Bool) → ((a && not c) || (b && not c)) ≡ ((a || b) && not c)
and_distrib a b c = ground arith

and_true : (a : Bool) → a ≡ (a && true)
and_true a = ground arith

and_nor : (a b c : Bool) → ((a && not b) && not c) ≡ (a && not (b || c))
and_nor a b c = ground arith

whole_piece :
    (ax sb sp qs aq pb : Bool)
    → (aq ≡ false → qs ≡ false → ax ≡ false)
    → (sp ≡ false → pb ≡ false → sb ≡ false)
    → (not aq || not pb) ≡ true
    → (ax && sb) ≡ ((ax && sb) && not (not sp && not qs))
whole_piece ax sb sp qs aq pb n1 n2 h = ground arith

two_pieces :
    (ax sb sp qs ap qb : Bool)
    → (sb ≡ false → sp ≡ false)
    → (ax ≡ false → qs ≡ false)
    → (ap ≡ false → sp ≡ true → ax ≡ false)
    → (qb ≡ false → sb ≡ true → qs ≡ false)
    → ((ap && (ax && sp)) || (qb && (qs && sb))) ≡ ((ax && sb) && not (not sp && not qs))
two_pieces ax sb sp qs ap qb n3 n4 n5 n6 = ground arith

module _ {T : Type 0} (menor : T → T → Bool)
    (asymm : (a b : T) → menor a b ≡ true → menor b a ≡ false)
    (neg_trans : (a b c : T) → menor a b ≡ false → menor b c ≡ false → menor a c ≡ false) where
  alguno-append :
      (p : Tramo T → Bool) (xs ys : List (Tramo T))
      → alguno p (xs ++ ys) ≡ (alguno p xs || alguno p ys)
  alguno-append p [] ys = refl
  alguno-append p (x ∷ xs) ys = rw (alguno-append p xs ys) (ground arith)

  piece :
      (p : Tramo T → Bool) (c : Bool) (x : Tramo T)
      → alguno p (if c then x ∷ [] else []) ≡ (c && p x)
  piece p c x = ground arith

  resta_uno-interior :
      (s : T) (q x : Tramo T)
      → alguno (interior menor s) (resta_uno menor q x)
        ≡ (interior menor s x && not (dentro menor s q))
  resta_uno-interior s q x = elim (Bool-cases (not (menor x.a q.b) || not (menor q.a x.b))) [
    | inl e ↦ rw e (
        or_false (interior menor s x)
        ∙ whole_piece (menor x.a s) (menor s x.b) (menor s q.a) (menor q.b s) (menor x.a q.b)
            (menor q.a x.b) (λ f g. neg_trans x.a q.b s f g) (λ f g. neg_trans s q.a x.b f g) e)
    | inr e ↦
        let meet = or_none (menor x.a q.b) (menor q.a x.b) e in
        rw e (
          alguno-append (interior menor s)
            (if menor x.a q.a then record { a = x.a; b = q.a } ∷ [] else []) _
          ∙ cc (
            piece (interior menor s) (menor x.a q.a) (record { a = x.a; b = q.a }),
            piece (interior menor s) (menor q.b x.b) (record { a = q.b; b = x.b }),
          )
          ∙ two_pieces (menor x.a s) (menor s x.b) (menor s q.a) (menor q.b s) (menor x.a q.a)
              (menor q.b x.b) (λ f. neg_trans s x.b q.a f (asymm q.a x.b meet.1))
              (λ f. neg_trans q.b x.a s (asymm x.a q.b meet.0) f)
              (λ f g. neg_trans x.a q.a s f (asymm s q.a g))
              (λ f g. neg_trans q.b x.b s f (asymm s x.b g)))
  ]

  resta_ronda-interior :
      (s : T) (q : Tramo T) (out : List (Tramo T))
      → alguno (interior menor s) (resta_ronda menor q out)
        ≡ (alguno (interior menor s) out && not (dentro menor s q))
  unfolding resta_ronda
  resta_ronda-interior s q [] = refl
  resta_ronda-interior s q (x ∷ out) =
      alguno-append (interior menor s) (resta_uno menor q x) (resta_ronda menor q out)
      ∙ cc (resta_uno-interior s q x, resta_ronda-interior s q out)
      ∙ and_distrib (interior menor s x) (alguno (interior menor s) out) (dentro menor s q)

  -- A point lies inside a stretch of `restaTramos(vv, quita)` exactly when it lies inside one of `vv`
  -- and no stretch of `quita`, its ends included, holds it; over any numbers whose order is
  -- asymmetric and negatively transitive, and for any stretches, also reversed ones.
  pub resta_tramos-interior :
      (s : T) (vv quita : List (Tramo T))
      → alguno (interior menor s) (resta_tramos menor vv quita)
        ≡ (alguno (interior menor s) vv && not (alguno (dentro menor s) quita))
  unfolding resta_tramos
  resta_tramos-interior s vv [] = and_true (alguno (interior menor s) vv)
  resta_tramos-interior s vv (q ∷ quita) =
      resta_tramos-interior s (resta_ronda menor q vv) quita
      ∙ ap (λ (b : Bool). b && not (alguno (dentro menor s) quita)) (resta_ronda-interior s q vv)
      ∙ and_nor (alguno (interior menor s) vv) (dentro menor s q) (alguno (dentro menor s) quita)
