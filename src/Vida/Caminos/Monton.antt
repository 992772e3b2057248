-- ===== src/Vida/Caminos/Monton.antt =====
-- The operations of the heap keep what is in it.
use mathlib.Core.List.{Permᴰ}
use mathlib.Core.List.Permᴰ
use rami_ledger.Prelude.{
  ℕ, zero, suc, ◌+◌, ◌*◌, ◌/◌, ◌<◌, ◌≡◌, refl, ◌∙◌, inl, inr, Bool, true, ◌&&◌, [], ◌∷◌, arith, ltb,
  ltb→lt, ◌==◌, Bool-cases, length, length-set, set,
}
use rami_ledger.Vida.Caminos.{
  Monton, menor, en, cambia, sube, hijo, minimo, baja, sin_ultimo, ultimo, saca,
}

set-Permᴰ : (h : Monton) (i : ℕ) (v : ℕ × ℕ) → i < length h → Permᴰ (en h i ∷ set h i v) (v ∷ h)
set-Permᴰ [] i v lt = absurd (omega arith)
set-Permᴰ (x ∷ h) zero v lt = Permᴰ.swap refl refl
set-Permᴰ (x ∷ h) (suc i) v lt =
    Permᴰ.trans (Permᴰ.swap refl refl)
      (Permᴰ.trans (Permᴰ.cons refl (set-Permᴰ h i v (omega arith))) (Permᴰ.swap refl refl))

cambia-Permᴰ : (h : Monton) (i j : ℕ) → i < length h → j < length h → Permᴰ (cambia h i j) h
cambia-Permᴰ [] i j lt k = Permᴰ.refl _
cambia-Permᴰ (x ∷ h) zero zero lt k = Permᴰ.refl _
cambia-Permᴰ (x ∷ h) zero (suc j) lt k = set-Permᴰ h j x (omega arith)
cambia-Permᴰ (x ∷ h) (suc i) zero lt k = set-Permᴰ h i x (omega arith)
cambia-Permᴰ (x ∷ h) (suc i) (suc j) lt k =
    Permᴰ.cons refl (cambia-Permᴰ h i j (omega arith) (omega arith))

length-cambia : (h : Monton) (i j : ℕ) → length (cambia h i j) ≡ length h
length-cambia h i j = length-set (set h i (en h j)) j (en h i) ∙ length-set h i (en h j)

pub sube-Permᴰ : (rounds : ℕ) (h : Monton) (i : ℕ) → i < length h → Permᴰ (sube rounds h i) h
sube-Permᴰ zero h i lt = Permᴰ.refl _
sube-Permᴰ (suc rounds) h zero lt = Permᴰ.refl _
sube-Permᴰ (suc rounds) h (suc i) lt = elim (Bool-cases (menor (en h (suc i)) (en h (i / 2)))) [
  | inl e ↦ rw e (
      Permᴰ.trans
        (sube-Permᴰ rounds (cambia h (suc i) (i / 2)) (i / 2)
          (omega (arith, length-cambia h (suc i) (i / 2))))
        (cambia-Permᴰ h (suc i) (i / 2) lt (omega arith)))
  | inr e ↦ rw e (Permᴰ.refl _)
]

first : (a b : Bool) → (a && b) ≡ true → a ≡ true
first a b e = ground arith

hijo-lt : (h : Monton) (l m : ℕ) → m < length h → hijo h l m < length h
hijo-lt h l m lt = elim (Bool-cases (ltb l (length h) && menor (en h l) (en h m))) [
  | inl e ↦ rw e (ltb→lt l (length h) (first (ltb l (length h)) _ e))
  | inr e ↦ rw e lt
]

pub baja-Permᴰ : (rounds : ℕ) (h : Monton) (i : ℕ) → i < length h → Permᴰ (baja rounds h i) h
baja-Permᴰ zero h i lt = Permᴰ.refl _
baja-Permᴰ (suc rounds) h i lt =
    let m = minimo h i in
    let inside = hijo-lt h (2 * i + 2) _ (hijo-lt h (2 * i + 1) i lt) in
    elim (Bool-cases (m == i)) [
      | inl e ↦ rw e (Permᴰ.refl _)
      | inr e ↦ rw e (
          Permᴰ.trans
            (baja-Permᴰ rounds (cambia h i m) m (omega (arith, length-cambia h i m, inside)))
            (cambia-Permᴰ h i m lt inside))
    ]

ultimo-Permᴰ : (y : ℕ × ℕ) (ys : Monton) → Permᴰ (ultimo y ys ∷ sin_ultimo (y ∷ ys)) (y ∷ ys)
ultimo-Permᴰ y [] = Permᴰ.refl _
ultimo-Permᴰ y (z ∷ zs) = Permᴰ.trans (Permᴰ.swap refl refl) (Permᴰ.cons refl (ultimo-Permᴰ z zs))

pub saca-Permᴰ : (p : ℕ × ℕ) (rest : Monton) → Permᴰ (saca (p ∷ rest)) rest
saca-Permᴰ p [] = Permᴰ.refl _
saca-Permᴰ p (y ∷ ys) =
    let h = ultimo y ys ∷ sin_ultimo (y ∷ ys) in
    Permᴰ.trans (baja-Permᴰ (length h) h 0 (omega arith)) (ultimo-Permᴰ y ys)
