-- ===== src/Vida/Empleo/Anillos.antt =====
-- The rings that the first loop of `recluta` makes.
use mathlib.Core.List.{Permᴰ, append_assoc, append-nil}
use mathlib.Core.List.Permᴰ
use rami_ledger.Prelude.{
  ℕ, ◌≡◌, ◌≢◌, refl, sym, ◌∙◌, ap, inl, inr, false, Option, none, some, List, [], ◌∷◌, ◌++◌, arith,
  ◌==◌, ==_iff, Bool-cases, All, All-append, Apart,
}
use rami_ledger.Vida.Diario.{Acceso}
use rami_ledger.Vida.Empleo.{Parcela, Gente, anillo, mete, mira_uno, mira}

abbrev pub Rings : Type 0
Rings = List (ℕ × List ℕ)

-- Everybody of the rings.
abbrev pub flat : Rings → List ℕ
flat [] = []
flat ((d, l) ∷ rest) = l ++ flat rest

-- Those who have no job yet.
abbrev pub free_one : Option Acceso → ℕ → List ℕ → List ℕ
free_one none k rest = k ∷ rest
free_one (some w) k rest = rest

abbrev pub free : Gente → List ℕ → List ℕ
free gente [] = []
free gente (k ∷ ks) = free_one (gente k).trabajo (gente k).id (free gente ks)

flat-mete : (d p : ℕ) (rs : Rings) → Permᴰ (flat (mete d p rs)) (p ∷ flat rs)
flat-mete d p [] = Permᴰ.refl _
flat-mete d p ((e, l) ∷ rest) = elim (Bool-cases (e == d)) [
  | inl same ↦ rw (same, append_assoc l (p ∷ []) (flat rest)) (Permᴰ.middle p l (flat rest))
  | inr other ↦
      rw other
        (Permᴰ.trans (Permᴰ.append_left l (flat-mete d p rest)) (Permᴰ.middle p l (flat rest)))
]

pub flat-Permᴰ : {rs ts : Rings} → Permᴰ rs ts → Permᴰ (flat rs) (flat ts)
flat-Permᴰ Permᴰ.nil = Permᴰ.refl _
flat-Permᴰ {rs = r ∷ rs} (Permᴰ.cons e p) = rw (sym e) (Permᴰ.append_left r.1 (flat-Permᴰ p))
flat-Permᴰ {rs = r ∷ t ∷ rs} (Permᴰ.swap e f) =
    rw (sym e, sym f, sym (append_assoc r.1 t.1 (flat rs)), sym (append_assoc t.1 r.1 (flat rs)))
      (Permᴰ.append_right (flat rs) (Permᴰ.append_comm r.1 t.1))
flat-Permᴰ (Permᴰ.trans p q) = Permᴰ.trans (flat-Permᴰ p) (flat-Permᴰ q)

-- Each ring holds those at its distance.
abbrev pub AreAt : (ℕ → ℕ) → Rings → Type 0
AreAt far rs = All (λ r. All (λ k. far k ≡ r.0) r.1) rs

mete-AreAt :
    (far : ℕ → ℕ) (d p : ℕ) (rs : Rings) → far p ≡ d → AreAt far rs → AreAt far (mete d p rs)
mete-AreAt far d p [] e h = ((e, tt), tt)
mete-AreAt far d p ((d', l) ∷ rest) e h = elim (Bool-cases (d' == d)) [
  | inl same ↦
      rw same
        (All-append (λ k. far k ≡ d') l (p ∷ []) h.0 (e ∙ sym ((==_iff d' d).0 same), tt), h.1)
  | inr other ↦ rw other (h.0, mete-AreAt far d p rest e h.1)
]

-- No two rings have the same distance.
abbrev pub AreApart : Rings → Type 0
AreApart = Apart (λ r. r.0)

mete_fresh :
    (d p e : ℕ) (rs : Rings)
    → d ≢ e
    → All (λ (t : ℕ × List ℕ). t.0 ≢ e) rs
    → All (λ (t : ℕ × List ℕ). t.0 ≢ e) (mete d p rs)
mete_fresh d p e [] h k = (h, tt)
mete_fresh d p e ((d', l) ∷ rest) h k = elim (Bool-cases (d' == d)) [
  | inl same ↦ rw same (k.0, k.1)
  | inr other ↦ rw other (k.0, mete_fresh d p e rest h k.1)
]

not_same : (d e : ℕ) → (e == d) ≡ false → d ≢ e
not_same d e h c = ground arith

mete-AreApart : (d p : ℕ) (rs : Rings) → AreApart rs → AreApart (mete d p rs)
mete-AreApart d p [] h = (tt, tt)
mete-AreApart d p ((d', l) ∷ rest) h = elim (Bool-cases (d' == d)) [
  | inl same ↦ rw same h
  | inr other ↦
      let ne = not_same d d' other in
      rw other (mete_fresh d p d' rest ne h.0, mete-AreApart d p rest h.1)
]

-- What the loop has made of the people it has seen.
pub record Seen (far : ℕ → ℕ) (them : List ℕ) (acc : List ℕ × Rings) : Type 0 where
  pub all : acc.0 ≡ them
  pub split : Permᴰ (flat acc.1) them
  pub at : AreAt far acc.1
  pub apart : AreApart acc.1

module _ (pc : Parcela) (gente : Gente) (ids : (k : ℕ) → (gente k).id ≡ k) where
  abbrev pub far : ℕ → ℕ
  far k = anillo pc (gente k).celda

  mira_uno-Seen :
      (k : ℕ) (o : Option Acceso) (them : List ℕ) (acc : List ℕ × Rings)
      → Seen far them acc
      → Seen far (them ++ free_one o (gente k).id []) (mira_uno pc (gente k) o acc)
  mira_uno-Seen k none them (libres, anillos) h =
      let p = (gente k).id in
      let d = far k in
      record {
        all = ap (λ (l : List ℕ). l ++ (p ∷ [])) h.all;
        split =
            Permᴰ.trans (flat-mete d p anillos)
              (Permᴰ.trans (Permᴰ.cons refl h.split) (Permᴰ.append_comm (p ∷ []) them));
        at = mete-AreAt far d p anillos (ap far (ids k)) h.at;
        apart = mete-AreApart d p anillos h.apart;
      }
  mira_uno-Seen k (some w) them (libres, anillos) h = rw (append-nil them) h

  joined :
      (o : Option Acceso) (p : ℕ) (them ks : List ℕ)
      → (them ++ free_one o p []) ++ ks ≡ them ++ free_one o p ks
  joined none p them ks = append_assoc them (p ∷ []) ks
  joined (some w) p them ks = ap (λ (l : List ℕ). l ++ ks) (append-nil them)

  pub mira-Seen :
      (ks them : List ℕ) (acc : List ℕ × Rings)
      → Seen far them acc
      → Seen far (them ++ free gente ks) (mira pc gente ks acc)
  mira-Seen [] them acc h = rw (append-nil them) h
  mira-Seen (k ∷ ks) them acc h =
      let o = (gente k).trabajo in
      rw (sym (joined o (gente k).id them (free gente ks))) (
        mira-Seen ks (them ++ free_one o (gente k).id []) (mira_uno pc (gente k) o acc)
          (mira_uno-Seen k o them acc h))
