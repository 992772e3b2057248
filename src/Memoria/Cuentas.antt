-- ===== src/Memoria/Cuentas.antt =====
-- The sums of `encargos`, against the parcels.
use rami_ledger.Prelude.{
  ℕ, ◌+◌, ◌≡◌, refl, ◌∙◌, ap, Bool, false, not, ◌&&◌, ◌||◌, inl, inr, arith, List, [], ◌∷◌, ◌==◌,
  ==_iff, if◌then◌else◌, Bool-cases,
}
use rami_ledger.Memoria.{
  Parcela, Vista, Cuenta, es_hueco, suma_uno, cuenta_huecos, usa, apunta, insumos_de, ronda,
  recorre, Encargo,
}

-- The sum of the counts of the sector `h`.
abbrev pub suma : ℕ → List (ℕ × ℕ) → ℕ
suma h [] = 0
suma h (f ∷ fs) = (if f.0 == h then f.1 else 0) + suma h fs

-- How often `h` stands among the inputs, if nobody offers it.
abbrev pub veces : List (ℕ × ℕ) → ℕ → List ℕ → ℕ
veces huecos h [] = 0
veces huecos h (x ∷ hs) = (if es_hueco huecos x && x == h then 1 else 0) + veces huecos h hs

-- A count that is kept under `a`, when `n` is added to what stands under `b`.
added :
    (a b k n x y s : ℕ)
    → a ≡ b
    → x ≡ n + y
    → (if a == k then x else 0) + s ≡ (if b == k then n else 0) + ((if a == k then y else 0) + s)
added a b k n x y s e f = ground arith

suma-suma_uno :
    (h x : ℕ) (fs : List (ℕ × ℕ)) → suma h (suma_uno x fs) ≡ (if x == h then 1 else 0) + suma h fs
unfolding suma_uno
suma-suma_uno h x [] = refl
suma-suma_uno h x (f ∷ fs) = elim (Bool-cases (f.0 == x)) [
  | inl e ↦ rw e (added f.0 x h 1 (f.1 + 1) f.1 (suma h fs) ((==_iff _ _).0 e) (omega arith))
  | inr e ↦ rw e (omega (arith, suma-suma_uno h x fs))
]

suma-cuenta_huecos :
    (huecos : List (ℕ × ℕ)) (h : ℕ) (hs : List ℕ) (faltan : List (ℕ × ℕ))
    → suma h (cuenta_huecos huecos hs faltan) ≡ veces huecos h hs + suma h faltan
unfolding cuenta_huecos
suma-cuenta_huecos huecos h [] faltan = omega arith
suma-cuenta_huecos huecos h (x ∷ hs) faltan = elim (Bool-cases (es_hueco huecos x)) [
  | inl e ↦
      rw e (
        omega (arith, suma-cuenta_huecos huecos h hs (suma_uno x faltan), suma-suma_uno h x faltan))
  | inr e ↦ rw e (omega (arith, suma-cuenta_huecos huecos h hs faltan))
]

-- The sum over the entries of the district `di`.
abbrev pub en_distrito : ℕ → ℕ → List Cuenta → ℕ
en_distrito di h [] = 0
en_distrito di h (e ∷ es) = (if e.distrito == di then suma h e.faltan else 0) + en_distrito di h es

en_distrito-apunta :
    (huecos : List (ℕ × ℕ)) (di h d : ℕ) (hs : List ℕ) (es : List Cuenta)
    → en_distrito di h (apunta huecos hs d es)
      ≡ (if d == di then veces huecos h hs else 0) + en_distrito di h es
unfolding apunta
en_distrito-apunta huecos di h d hs [] =
    ap (λ (n : ℕ). (if d == di then n else 0) + 0) (suma-cuenta_huecos huecos h hs [] ∙ omega arith)
en_distrito-apunta huecos di h d hs (e ∷ es) = elim (Bool-cases (e.distrito == d)) [
  | inl c ↦ rw c (
      added e.distrito d di (veces huecos h hs) _ (suma h e.faltan) (en_distrito di h es)
        ((==_iff _ _).0 c) (suma-cuenta_huecos huecos h hs e.faltan))
  | inr c ↦ rw c (omega (arith, en_distrito-apunta huecos di h d hs es))
]

or_none : (a b : Bool) → (a || b) ≡ false → (a ≡ false) × (b ≡ false)
or_none a b e = ground arith

sin_uso :
    (huecos : List (ℕ × ℕ)) (h : ℕ) (hs : List ℕ) → usa huecos hs ≡ false → veces huecos h hs ≡ 0
sin_uso huecos h [] e = refl
sin_uso huecos h (x ∷ hs) e =
    let (none_here, rest) = or_none (es_hueco huecos x) (usa huecos hs) e in
    let later = sin_uso huecos h hs rest in rw none_here (omega arith)

-- What a parcel adds to the count of the sector `h` in the district `di`.
abbrev pub necesita : Vista → ℕ → ℕ → Parcela → ℕ
necesita d di h p =
    if not p.pending && p.distrito == di then veces d.huecos h (insumos_de d.sectors p.kind) else 0

abbrev pub total : (Parcela → ℕ) → List Parcela → ℕ
total f [] = 0
total f (p ∷ ps) = f p + total f ps

en_distrito-ronda :
    (d : Vista) (di h : ℕ) (p : Parcela) (es : List Cuenta)
    → en_distrito di h (ronda d p es) ≡ necesita d di h p + en_distrito di h es
unfolding ronda
en_distrito-ronda d di h p es = elim (Bool-cases p.pending) [
  | inl e ↦ rw e (omega arith)
  | inr e ↦ elim (Bool-cases (usa d.huecos (insumos_de d.sectors p.kind))) [
    | inl u ↦ rw (e, u) (en_distrito-apunta d.huecos di h p.distrito _ es)
    | inr u ↦ rw (e, u, sin_uso d.huecos h (insumos_de d.sectors p.kind) u) (ground arith)
  ]
]

pub en_distrito-recorre :
    (d : Vista) (di h : ℕ) (ps : List Parcela) (es : List Cuenta)
    → en_distrito di h (recorre d ps es) ≡ total (necesita d di h) ps + en_distrito di h es
unfolding recorre
en_distrito-recorre d di h [] es = omega arith
en_distrito-recorre d di h (p ∷ ps) es =
    omega (arith, en_distrito-recorre d di h ps (ronda d p es), en_distrito-ronda d di h p es)

-- The companies that the orders of the district `di` count for the sector `h`.
abbrev pub faltan_en : ℕ → ℕ → List Encargo → ℕ
faltan_en di h [] = 0
faltan_en di h (e ∷ es) = (if e.distrito == di then suma h e.faltan else 0) + faltan_en di h es
