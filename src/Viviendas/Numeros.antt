-- ===== src/Viviendas/Numeros.antt =====
-- `numeroUnidad` undoes `sitioUnidad`, and back.
use native.Mathlib.Nat.{
  div-add-mod', mod-lt, div-eq_of_lt, mod-eq_of_lt, add-mul-div_right, add-mul-mod_self_right,
}
use rami_ledger.Prelude.{
  ℕ, zero, suc, ◌+◌, ◌*◌, ◌/◌, ◌%◌, ◌<◌, ◌≡◌, ◌↔◌, refl, sym, ◌∙◌, ap, Option, none, some, List, [],
  ◌∷◌, arith, ◌==◌, ==_iff, get_elem?, Bool-cases, Option-cases, inl, inr, ◌⊎◌, false,
}
use rami_ledger.Viviendas.{Plan, Sitio, index_of, en_planta, sitio_unidad, numero_en, numero_unidad}

some-inj : {A : Type 0} {a b : A} → some a ≡ some b → a ≡ b
some-inj e = cc

-- No floor stands twice in the plan.
abbrev pub IsDistinct : List ℕ → Type 0
IsDistinct ps = (i j p : ℕ) → get_elem? ps i ≡ some p → get_elem? ps j ≡ some p → i ≡ j

tail-IsDistinct : (x : ℕ) (ps : List ℕ) → IsDistinct (x ∷ ps) → IsDistinct ps
tail-IsDistinct x ps h i j p a b = let same = h (suc i) (suc j) p a b in omega arith

index_of_at :
    (ps : List ℕ) (p i : ℕ) → IsDistinct ps → get_elem? ps i ≡ some p → index_of ps p ≡ some i
unfolding index_of
index_of_at [] p i h e = cc
index_of_at (x ∷ ps) p zero h e = rw ((==_iff x p).1 (some-inj e)) refl
index_of_at (x ∷ ps) p (suc i) h e = elim (Bool-cases (x == p)) [
  | inl c ↦ let same = h 0 (suc i) p (ap some ((==_iff x p).0 c)) e in absurd (omega arith)
  | inr c ↦
      rw (c, index_of_at ps p i (tail-IsDistinct x ps h) e) (ap some {x = i + 1} (omega arith))
]

index_of-some : (ps : List ℕ) (p i : ℕ) → index_of ps p ≡ some i → get_elem? ps i ≡ some p
unfolding index_of
index_of-some [] p i e = cc
index_of-some (x ∷ ps) p i e = elim (Bool-cases (x == p)) [
  | inl c ↦
      let zero_i : 0 ≡ i = some-inj (sym (rw c refl) ∙ e) in
      ap (get_elem? (x ∷ ps)) (sym zero_i) ∙ ap some ((==_iff x p).0 c)
  | inr c ↦ later c (index_of-some ps p) (Option-cases (index_of ps p))
]
  where
    later :
        (x == p) ≡ false
        → ((j : ℕ) → index_of ps p ≡ some j → get_elem? ps j ≡ some p)
        → (index_of ps p ≡ none) ⊎ ((j : ℕ) × (index_of ps p ≡ some j))
        → get_elem? (x ∷ ps) i ≡ some p
    later c ih (inl f) = cc (rw (c, f) at e)
    later c ih (inr (j, f)) =
        let suc_j : j + 1 ≡ i = some-inj (rw (c, f) at e) in
        ap (get_elem? (x ∷ ps)) {y = suc j} (omega arith) ∙ ih j f

en_planta-some :
    (o : Option ℕ) (k : ℕ) (s : Sitio) → en_planta o k ≡ some s → (o ≡ some s.planta) × (k ≡ s.slot)
en_planta-some none k s e = cc
en_planta-some (some p) k s e =
    let same = some-inj e in
    (ap (λ (z : Sitio). some z.planta) same, ap (λ (z : Sitio). z.slot) same)

-- `numero_en` is positive only on a floor of the plan.
numero_en-some :
    (o : Option ℕ) (upp slot idx : ℕ)
    → numero_en o upp slot ≡ suc idx
    → (f : ℕ) × (o ≡ some f) × (f * upp + slot ≡ idx)
numero_en-some none upp slot idx e = absurd (omega arith)
numero_en-some (some f) upp slot idx e = (f, refl, omega arith)

place_of :
    (f upp slot idx : ℕ) → slot < upp → f * upp + slot ≡ idx → (idx / upp ≡ f) × (idx % upp ≡ slot)
place_of f upp slot idx h e =
    let same : idx ≡ slot + f * upp = omega (arith, e) in
    (
      ap (λ (t : ℕ). t / upp) same
          ∙ add-mul-div_right slot f (omega arith)
          ∙ omega (arith, div-eq_of_lt h),
      ap (λ (t : ℕ). t % upp) same ∙ add-mul-mod_self_right slot f upp ∙ mod-eq_of_lt h,
    )

-- In a building whose floors are all different and hold a home at least, the place of the home `n`,
-- from 1 on, is the slot `slot` of the floor `planta` exactly when `n` is the number of that slot and
-- the slot is one of the floor's.
pub sitio_unidad-numero_unidad :
    (plan : Plan) (idx planta slot : ℕ)
    → IsDistinct plan.plantas
    → 0 < plan.upp
    → (sitio_unidad plan (suc idx) ≡ some (record { planta = planta; slot = slot }))
      ↔ ((numero_unidad plan planta slot ≡ suc idx) × (slot < plan.upp))
unfolding sitio_unidad numero_unidad
sitio_unidad-numero_unidad plan idx planta slot h pos = (
  λ e.
      let (floor, place) =
        en_planta-some (get_elem? plan.plantas (idx / plan.upp)) (idx % plan.upp) _ e in
      let found = index_of_at plan.plantas planta (idx / plan.upp) h floor in
      (
        ap (λ o. numero_en o plan.upp slot) found
            ∙ ap (λ (k : ℕ). idx / plan.upp * plan.upp + k + 1) (sym place)
            ∙ omega (arith, div-add-mod' idx plan.upp),
        omega (arith, place, mod-lt idx pos),
      ),
  λ e.
      let (f, found, sum) = numero_en-some (index_of plan.plantas planta) plan.upp slot idx e.0 in
      let (floor, place) = place_of f plan.upp slot idx e.1 sum in
      let at_f = ap (get_elem? plan.plantas) floor ∙ index_of-some plan.plantas planta f found in
      ap (λ o. en_planta o (idx % plan.upp)) at_f
      ∙ ap (λ (k : ℕ). some (record { planta = planta; slot = k })) place,
)
