-- ===== src/Distritos/Reparto.antt =====
-- Which district `districtOf` gives a cell.
use rami_ledger.Prelude.{
  ℕ, Bool, true, false, ◌≡◌, refl, ◌∙◌, ap, none, some, List, [], ◌∷◌, ◌++◌, if◌then◌else◌,
}
use rami_ledger.Distritos.{
  Clave, golfo, desierto, Zona, es_mar, es_clave, cubre, primera, o_si_no, district_of,
}

-- Every zone of the list fails the test.
abbrev pub NoneOf : (Zona → Bool) → List Zona → Type 0
NoneOf p [] = Unit
NoneOf p (d ∷ ds) = (p d ≡ false) × NoneOf p ds

primera-append :
    (p : Zona → Bool) (pre post : List Zona) (d : Zona)
    → NoneOf p pre
    → p d ≡ true
    → primera p (pre ++ (d ∷ post)) ≡ some d
unfolding primera
primera-append p [] post d h t = rw t refl
primera-append p (e ∷ pre) post d (f, h) t = rw f (primera-append p pre post d h t)

primera-NoneOf : (p : Zona → Bool) (ds : List Zona) → NoneOf p ds → primera p ds ≡ none
unfolding primera
primera-NoneOf p [] h = refl
primera-NoneOf p (d ∷ ds) (f, h) = rw f (primera-NoneOf p ds h)

-- A cell in the rectangle of a district belongs to the first such district, whatever stands behind
-- it.
pub district_of_first :
    (pre post : List Zona) (d : Zona) (x y : ℕ)
    → NoneOf (cubre x y) pre
    → cubre x y d ≡ true
    → district_of (pre ++ (d ∷ post)) x y ≡ some d
unfolding district_of
district_of_first pre post d x y h t =
    ap (λ o. o_si_no o (primera (λ e. es_clave e.clave (es_mar x y)) (pre ++ (d ∷ post))))
      (primera-append (cubre x y) pre post d h t)

-- A cell in no rectangle belongs to the first entry of the sea or of the desert, as `esMar` says,
-- whichever entries stand before it.
pub district_of_rest :
    (pre post : List Zona) (d : Zona) (x y : ℕ)
    → NoneOf (cubre x y) (pre ++ (d ∷ post))
    → NoneOf (λ e. es_clave e.clave (es_mar x y)) pre
    → d.clave ≡ (if es_mar x y then golfo else desierto)
    → district_of (pre ++ (d ∷ post)) x y ≡ some d
unfolding district_of
district_of_rest pre post d x y h k e =
    let fits : es_clave d.clave (es_mar x y) ≡ true =
      ap (λ (c : Clave). es_clave c (es_mar x y)) e ∙ own (es_mar x y) in
    ap (λ o. o_si_no o (primera (λ z. es_clave z.clave (es_mar x y)) (pre ++ (d ∷ post))))
      (primera-NoneOf (cubre x y) (pre ++ (d ∷ post)) h)
    ∙ primera-append (λ z. es_clave z.clave (es_mar x y)) pre post d k fits
  where
    own : (mar : Bool) → es_clave (if mar then golfo else desierto) mar ≡ true
    own true = refl
    own false = refl
