-- ===== src/Camara/Fotos.antt =====
-- What is hidden for a photo comes back.
use rami_ledger.Prelude.{
  ℕ, ◌≡◌, ◌≢◌, refl, sym, ap, subst, ◌∙◌, inl, inr, Bool, true, false, ◌||◌, List, [], ◌∷◌, ◌++◌,
  ◌==◌, ==_iff, if◌then◌else◌, All, Bool-cases, arith,
}
use mathlib.Core.List.{append-nil, append_assoc}
use mathlib.Core.Logic.{◌⊎◌}
use rami_ledger.Catastro.{es_visto}
use rami_ledger.Camara.Foto.{con, oculta, pone_todos, esconde, vuelve}

-- What was visible: what is, and what has been hidden.
abbrev pub SeVeia : (ℕ → Bool) → (ℕ → Bool) → List ℕ → Type 0
SeVeia orig v os = (k : ℕ) → orig k ≡ (es_visto k os || v k)

visto_snoc : (k o : ℕ) (os : List ℕ) → es_visto k (os ++ (o ∷ [])) ≡ (es_visto k os || (k == o))
visto_snoc k o [] = or_false (k == o)
  where
    or_false : (b : Bool) → (b || false) ≡ b
    or_false true = refl
    or_false false = refl
visto_snoc k o (x ∷ os) =
    ap (λ b. k == x || b) (visto_snoc k o os) ∙ assoc (k == x) (es_visto k os) (k == o)
  where
    assoc : (a b c : Bool) → (a || (b || c)) ≡ ((a || b) || c)
    assoc true b c = refl
    assoc false b c = refl

hide_one :
    (orig v : ℕ → Bool) (os : List ℕ) (o : ℕ)
    → v o ≡ true
    → SeVeia orig v os
    → SeVeia orig (con o false v) (os ++ (o ∷ []))
hide_one orig v os o e h k = elim (Bool-cases (k == o)) [
  | inl q ↦
      h k
      ∙ ap (λ b. es_visto k os || b) (ap v ((==_iff k o).0 q) ∙ e)
      ∙ (same_true (es_visto k os) q
          ∙ ap (λ b. b || (if k == o then false else v k)) (sym (visto_snoc k o os)))
  | inr q ↦
      h k
      ∙ (unseen (es_visto k os) (v k) q
          ∙ ap (λ b. b || (if k == o then false else v k)) (sym (visto_snoc k o os)))
]
  where
    same_true :
        (a : Bool)
        → (k == o) ≡ true
        → (a || true) ≡ ((a || (k == o)) || (if k == o then false else v k))
    same_true a q = rw q (by_a a)
      where
        by_a : (b : Bool) → (b || true) ≡ ((b || true) || false)
        by_a true = refl
        by_a false = refl

    unseen :
        (a w : Bool)
        → (k == o) ≡ false
        → (a || w) ≡ ((a || (k == o)) || (if k == o then false else w))
    unseen a w q = rw q (by_a a)
      where
        by_a : (b : Bool) → (b || w) ≡ ((b || false) || w)
        by_a true = refl
        by_a false = refl

pub hide-SeVeia :
    (orig : ℕ → Bool) (xs : List ℕ) (v : ℕ → Bool) (os : List ℕ)
    → SeVeia orig v os
    → SeVeia orig (oculta xs (v, os)).0 (oculta xs (v, os)).1
hide-SeVeia orig [] v os h = h
hide-SeVeia orig (o ∷ xs) v os h =
    let Split : Bool → Type 0 = λ b.
      (let r : (ℕ → Bool) × List ℕ =
          oculta xs (if b then (con o false v, os ++ (o ∷ [])) else (v, os)) in
        SeVeia orig r.0 r.1) in
    elim (Bool-cases (v o)) [
      | inl e ↦
          subst Split (sym e)
            (hide-SeVeia orig xs (con o false v) (os ++ (o ∷ [])) (hide_one orig v os o e h))
      | inr e ↦ subst Split (sym e) (hide-SeVeia orig xs v os h)
    ]

pub show_all :
    (os : List ℕ) (v : ℕ → Bool) (k : ℕ) → pone_todos true os v k ≡ (es_visto k os || v k)
show_all [] v k = refl
show_all (o ∷ os) v k = show_all os (con o true v) k ∙ shift (k == o) (es_visto k os) (v k)
  where
    shift : (a b w : Bool) → (b || (if a then true else w)) ≡ ((a || b) || w)
    shift true true w = refl
    shift true false w = refl
    shift false b w = refl

hide_all :
    (os : List ℕ) (v : ℕ → Bool) (k : ℕ)
    → pone_todos false os v k ≡ (if es_visto k os then false else v k)
hide_all [] v k = refl
hide_all (o ∷ os) v k = hide_all os (con o false v) k ∙ shift (k == o) (es_visto k os) (v k)
  where
    shift :
        (a b w : Bool)
        → (if b then false else (if a then false else w)) ≡ (if a || b then false else w)
    shift true true w = refl
    shift true false w = refl
    shift false b w = refl

pub keep_hidden :
    (orig v : ℕ → Bool) (os : List ℕ) → SeVeia orig v os → SeVeia orig (pone_todos false os v) os
keep_hidden orig v os h k =
    h k ∙ (same (es_visto k os) (v k) ∙ ap (λ b. es_visto k os || b) (sym (hide_all os v k)))
  where
    same : (a w : Bool) → (a || w) ≡ (a || (if a then false else w))
    same true w = refl
    same false w = refl

-- The children of the container: no one is there twice.
abbrev pub Distintos : List ℕ → Type 0
Distintos [] = Unit
Distintos (h ∷ hs) = All (λ q. q ≢ h) hs × Distintos hs

abbrev pub como_estaban : List ℕ → (ℕ → ℕ) → List (ℕ × ℕ)
como_estaban [] d = []
como_estaban (h ∷ hs) d = (h, d h) ∷ como_estaban hs d

untouched :
    (h x : ℕ) (hs : List ℕ) (d : ℕ → ℕ)
    → All (λ q. q ≢ h) hs
    → como_estaban hs (con h x d) ≡ como_estaban hs d
untouched h x [] d a = refl
untouched h x (q ∷ hs) d (a, more) =
    ap (λ r. (q, r) ∷ como_estaban hs (con h x d)) (other q a)
    ∙ ap (λ l. (q, d q) ∷ l) (untouched h x hs d more)
  where
    other : (r : ℕ) → r ≢ h → con h x d r ≡ d r
    other r ne = rw (differ r ne) refl
      where
        differ : (z : ℕ) → z ≢ h → (z == h) ≡ false
        differ z nz = ground arith

pub kept_all :
    (hs : List ℕ) (d : ℕ → ℕ) (ps : List (ℕ × ℕ))
    → Distintos hs
    → (esconde hs (d, ps)).1 ≡ ps ++ como_estaban hs d
kept_all [] d ps a = sym (append-nil ps)
kept_all (h ∷ hs) d ps (a, more) =
    kept_all hs (con h 0 d) (ps ++ ((h, d h) ∷ [])) more
    ∙ (append_assoc ps ((h, d h) ∷ []) (como_estaban hs (con h 0 d))
        ∙ ap (λ l. ps ++ ((h, d h) ∷ l)) (untouched h 0 hs d a))

pub back_at :
    (hs : List ℕ) (d e : ℕ → ℕ) (k : ℕ)
    → vuelve (como_estaban hs d) e k ≡ (if es_visto k hs then d k else e k)
back_at [] d e k = refl
back_at (h ∷ hs) d e k = back_at hs d (con h (d h) e) k ∙ at_head (Bool-cases (k == h))
  where
    at_head :
        ((k == h) ≡ true) ⊎ ((k == h) ≡ false)
        → (if es_visto k hs then d k else (if k == h then d h else e k))
          ≡ (if k == h || es_visto k hs then d k else e k)
    at_head (inl q) = rw q (by_seen (es_visto k hs) (ap d (sym ((==_iff k h).0 q))))
      where
        by_seen : (b : Bool) → d h ≡ d k → (if b then d k else d h) ≡ d k
        by_seen true z = refl
        by_seen false z = z
    at_head (inr q) = rw q refl

pub hidden_at :
    (hs : List ℕ) (d : ℕ → ℕ) (ps : List (ℕ × ℕ)) (k : ℕ)
    → es_visto k hs ≡ false
    → (esconde hs (d, ps)).0 k ≡ d k
hidden_at [] d ps k e = refl
hidden_at (h ∷ hs) d ps k e = elim (Bool-cases (k == h)) [
  | inl q ↦ absurd (clash (ap (λ b. b || es_visto k hs) (sym q) ∙ e))
  | inr q ↦
      hidden_at hs (con h 0 d) (ps ++ ((h, d h) ∷ [])) k (ap (λ b. b || es_visto k hs) (sym q) ∙ e)
      ∙ ap (λ b. if b then 0 else d k) q
]
  where
    clash : true ≡ false → ⊥
    clash z = cc
