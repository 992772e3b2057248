-- ===== src/Presencia/Lista.antt =====
-- Which avatars there are behind `setPresence`, and in which order.
use rami_ledger.Prelude.{
  ℕ, suc, ◌≡◌, refl, sym, ap, subst, ◌∙◌, Bool, true, false, not, ◌&&◌, ◌||◌, Option, none, some,
  List, [], ◌∷◌, ◌++◌, ◌==◌, if◌then◌else◌, Bool-cases, inl, inr, arith, ==_iff,
}
use mathlib.Core.Path.{fun_ext}
use mathlib.Core.Option.{some-injective}
use mathlib.Core.List.{append-nil, append_assoc}
use rami_ledger.Flotantes.{Flotantes}
use rami_ledger.Catastro.{es_visto}
use rami_ledger.Presencia.{
  hay_avatar, pon_en, Anuncio, Avatar, Avatares, Suelo, nuevo, al_dia, con_avatar, reciben, quedan,
  borra, se_quedan, al_empezar, set_presence,
}

-- No key stands twice.
abbrev pub SinRepetir : List ℕ → Type 0
SinRepetir [] = Unit
SinRepetir (k ∷ ks) = (es_visto k ks ≡ false) × SinRepetir ks

seen_append : (k j : ℕ) (ks : List ℕ) → es_visto k (ks ++ (j ∷ [])) ≡ (es_visto k ks || k == j)
seen_append k j [] = ground arith
seen_append k j (m ∷ ms) = rw (seen_append k j ms) (ground arith)

append-SinRepetir :
    (ks : List ℕ) (j : ℕ) → SinRepetir ks → es_visto j ks ≡ false → SinRepetir (ks ++ (j ∷ []))
append-SinRepetir [] j h e = (refl, tt)
append-SinRepetir (k ∷ ks) j h e =
    (seen_append k j ks ∙ ground (arith, h.0), append-SinRepetir ks j h.1 (ground arith))

seen_both : (k : ℕ) (ks js : List ℕ) → es_visto k (ks ++ js) ≡ (es_visto k ks || es_visto k js)
seen_both k [] js = refl
seen_both k (m ∷ ms) js = rw (seen_both k ms js) (ground arith)

kept_seen : (v : ℕ → Bool) (k : ℕ) (ks : List ℕ) → es_visto k (quedan v ks) ≡ (v k && es_visto k ks)
kept_seen v k [] = ground arith
kept_seen v k (m ∷ ms) = ground (arith, kept_seen v k ms)

kept-SinRepetir : (v : ℕ → Bool) (ks : List ℕ) → SinRepetir ks → SinRepetir (quedan v ks)
kept-SinRepetir v [] h = tt
kept-SinRepetir v (k ∷ ks) h = by_seen (v k) (kept-SinRepetir v ks h.1)
  where
    by_seen :
        (b : Bool)
        → SinRepetir (quedan v ks)
        → SinRepetir (if b then k ∷ quedan v ks else quedan v ks)
    by_seen true rest = (kept_seen v k ks ∙ ground (arith, h.0), rest)
    by_seen false rest = rest

kept_append : (v : ℕ → Bool) (ks js : List ℕ) → quedan v (ks ++ js) ≡ quedan v ks ++ quedan v js
kept_append v [] js = refl
kept_append v (k ∷ ks) js = elim (Bool-cases (v k)) [
  | inl e ↦ rw (e, kept_append v ks js) refl
  | inr e ↦ rw (e, kept_append v ks js) refl
]

erased {ℓ} :
    {A : Type ℓ} (v : ℕ → Bool) (k : ℕ) (ks : List ℕ) (g : ℕ → Option A)
    → hay_avatar (borra v ks g k) ≡ (hay_avatar (g k) && not (es_visto k ks && not (v k)))
erased v k [] g = ground arith
erased v k (m ∷ ms) g = elim (Bool-cases (v m)) [
  | inl e ↦ rw e (erased v k ms g ∙ ground arith)
  | inr e ↦ rw e (erased v k ms (pon_en m none g) ∙ ground arith)
]

-- The keys of the others, and those of them that are not in the order yet, each once.
abbrev pub nuevas : List ℕ → List ℕ → List ℕ
nuevas o [] = []
nuevas o (k ∷ ks) =
    let old = nuevas o ks in
    let new = nuevas (o ++ (k ∷ [])) ks in if es_visto k o then old else k ∷ new

new_unseen :
    (o ks : List ℕ) (v : ℕ → Bool)
    → ((k : ℕ) → es_visto k ks ≡ true → v k ≡ true)
    → quedan v (nuevas o ks) ≡ nuevas o ks
new_unseen o [] v h = refl
new_unseen o (k ∷ ks) v h = elim (Bool-cases (es_visto k o)) [
  | inl e ↦ rw e (new_unseen o ks v (λ j q. h j (ground arith)))
  | inr e ↦
      rw (e, h k (ground arith))
        (ap (λ r. k ∷ r) (new_unseen (o ++ (k ∷ [])) ks v (λ j q. h j (ground arith))))
]

module _ (f : Flotantes) (su : Suelo f) (ready : Bool) where
  abbrev pub claves : List (Option (Anuncio f)) → List ℕ
  claves [] = []
  claves (none ∷ l) = claves l
  claves (some a ∷ l) = let rest = claves l in if a.me then rest else a.pk ∷ rest

  -- An avatar stays where it is drawn.
  abbrev pub EnSuSitio : Avatar f → Option (Avatar f) → Type 0
  EnSuSitio e none = ⊥
  EnSuSitio e (some e') = e'.cur ≡ e.cur

  -- The avatars are those of the order.
  pub record IsPresencia (s : Avatares f) : Type 0 where
    pub presentes : (k : ℕ) → hay_avatar (s.avatars k) ≡ es_visto k s.orden
    pub sin_repetir : SinRepetir s.orden

  -- What the loop makes of `s`, with these keys.
  record Recibido (s : Avatares f) (ks : List ℕ) (t : Avatares f) : Type 0 where
    ahora : IsPresencia t
    orden : t.orden ≡ s.orden ++ nuevas s.orden ks
    vistos : (k : ℕ) → t.vistos k ≡ (s.vistos k || es_visto k ks)
    sitio : (k : ℕ) (e : Avatar f) → s.avatars k ≡ some e → EnSuSitio e (t.avatars k)

  -- What one round leaves of an avatar.
  abbrev Queda : Avatar f → Option (Avatar f) → Type 0
  Queda e o = (e1 : Avatar f) × (o ≡ some e1) × (e1.cur ≡ e.cur)

  stays :
      (e : Avatar f) (o o' : Option (Avatar f))
      → Queda e o
      → ((e1 : Avatar f) → o ≡ some e1 → EnSuSitio e1 o')
      → EnSuSitio e o'
  stays e o none (e1, q, c) h = h e1 q
  stays e o (some e') (e1, q, c) h = h e1 q ∙ c

  put_stays :
      (k j : ℕ) (e e' : Avatar f) (g : ℕ → Option (Avatar f))
      → g j ≡ some e
      → (j ≡ k → e'.cur ≡ e.cur)
      → Queda e (pon_en k (some e') g j)
  put_stays k j e e' g h i = elim (Bool-cases (j == k)) [
    | inl q ↦ (e', rw q refl, i ((==_iff j k).0 q))
    | inr q ↦ (e, rw q h, refl)
  ]

  -- One round, for a visitor whose avatar is there or is not.
  record RondaDe (s : Avatares f) (k : ℕ) (t : Avatares f) : Type 0 where
    ahora : IsPresencia t
    orden : t.orden ≡ (if es_visto k s.orden then s.orden else s.orden ++ (k ∷ []))
    vistos : (j : ℕ) → t.vistos j ≡ (s.vistos j || j == k)
    sitio : (j : ℕ) (e : Avatar f) → s.avatars j ≡ some e → Queda e (t.avatars j)

  one_round :
      (i : ℕ) (a : Anuncio f) (o : Option (Avatar f)) (s : Avatares f)
      → s.avatars a.pk ≡ o
      → IsPresencia s
      → RondaDe s a.pk (con_avatar f su ready i a o s)
  one_round i a none s e h =
      let fresh : es_visto a.pk s.orden ≡ false = sym (h.presentes a.pk) ∙ ap hay_avatar e in
      record {
        ahora = record {
          presentes = λ k. ground (arith, h.presentes k, seen_append k a.pk s.orden);
          sin_repetir = append-SinRepetir s.orden a.pk h.sin_repetir fresh;
        };
        orden = rw fresh refl;
        vistos = λ j. ground arith;
        sitio = λ j e' q.
            put_stays a.pk j e' (nuevo f su ready i a) s.avatars q
              (λ r. cc (sym q ∙ ap s.avatars r ∙ e));
      }
  one_round i a (some e0) s e h =
      let known : es_visto a.pk s.orden ≡ true = sym (h.presentes a.pk) ∙ ap hay_avatar e in
      record {
        ahora = record {
          presentes = λ k. ground (arith, h.presentes k, known);
          sin_repetir = h.sin_repetir;
        };
        orden = rw known refl;
        vistos = λ j. ground arith;
        sitio = λ j e' q. put_stays a.pk j e' (al_dia f su ready a e0) s.avatars q (λ r.
            ap (λ (x : Avatar f). x.cur) (some-injective e0 e' (sym e ∙ ap s.avatars (sym r) ∙ q)));
      }

  all_rounds :
      (l : List (Option (Anuncio f))) (i : ℕ) (s : Avatares f)
      → IsPresencia s
      → Recibido s (claves l) (reciben f su ready i l s)
  all_rounds [] i s h = record {
    ahora = h;
    orden = sym (append-nil s.orden);
    vistos = λ k. ground arith;
    sitio = λ k e q. subst (EnSuSitio e) (sym q) refl;
  }
  all_rounds (none ∷ l) i s h = all_rounds l (suc i) s h
  all_rounds (some a ∷ l) i s h = elim (Bool-cases a.me) [
    | inl e ↦ rw e (all_rounds l (suc i) s h)
    | inr e ↦ rw e (
        joined (one_round i a (s.avatars a.pk) s refl h)
          (all_rounds l (suc i) _ (one_round i a (s.avatars a.pk) s refl h).ahora))
  ]
    where
      joined :
          RondaDe s a.pk (con_avatar f su ready i a (s.avatars a.pk) s)
          → Recibido
              (con_avatar f su ready i a (s.avatars a.pk) s)
              (claves l)
              (reciben f su ready (suc i) l (con_avatar f su ready i a (s.avatars a.pk) s))
          → Recibido s
              (a.pk ∷ claves l)
              (reciben f su ready (suc i) l (con_avatar f su ready i a (s.avatars a.pk) s))
      joined r q = record {
        ahora = q.ahora;
        orden = q.orden ∙ elim (Bool-cases (es_visto a.pk s.orden)) [
          | inl e ↦ rw e (ap (λ o. o ++ nuevas o (claves l)) (r.orden ∙ rw e refl))
          | inr e ↦ rw e (
              ap (λ o. o ++ nuevas o (claves l)) (r.orden ∙ rw e refl)
              ∙ append_assoc s.orden (a.pk ∷ []) (nuevas (s.orden ++ (a.pk ∷ [])) (claves l)))
        ];
        vistos = λ k. q.vistos k ∙ ground (arith, r.vistos k);
        sitio = λ k e p. stays e _ _ (r.sitio k e p) (λ e1 p1. q.sitio k e1 p1);
      }

  -- Behind `setPresence`: the avatars are those of the order, in which no key stands twice; the order is
  -- that of those who were there and are told of, and then of the new ones as they are told of; and who
  -- was there and stays is drawn where it was.
  pub record AlDia (s : Avatares f) (ks : List ℕ) (t : Avatares f) : Type 0 where
    pub ahora : IsPresencia t
    pub orden : t.orden ≡ quedan (λ k. es_visto k ks) s.orden ++ nuevas s.orden ks
    pub sitio :
        (k : ℕ) (e : Avatar f)
        → s.avatars k ≡ some e
        → es_visto k ks ≡ true
        → EnSuSitio e (t.avatars k)

  not_erased :
      (v : ℕ → Bool) (k : ℕ) (ks : List ℕ) (g : ℕ → Option (Avatar f))
      → v k ≡ true
      → borra v ks g k ≡ g k
  not_erased v k [] g e = refl
  not_erased v k (m ∷ ms) g e = elim (Bool-cases (v m)) [
    | inl q ↦ rw q (not_erased v k ms g e)
    | inr q ↦ rw q (not_erased v k ms (pon_en m none g) e ∙ another k m (λ r. cc (e, q, ap v r)))
  ]
    where
      another : (k' m' : ℕ) → (k' ≡ m' → ⊥) → pon_en m' none g k' ≡ g k'
      another k' m' h = ground (arith, h)

  left_AlDia :
      (s t : Avatares f) (ks : List ℕ)
      → ((k : ℕ) → s.vistos k ≡ false)
      → Recibido s ks t
      → AlDia s ks (se_quedan f su ready t)
  left_AlDia s t ks none_yet r = record {
    ahora = record {
      presentes = λ k.
          erased t.vistos k t.orden t.avatars
          ∙ (ground (arith, r.ahora.presentes k) ∙ sym (kept_seen t.vistos k t.orden));
      sin_repetir = kept-SinRepetir t.vistos t.orden r.ahora.sin_repetir;
    };
    orden = rw r.orden (
        kept_append t.vistos s.orden (nuevas s.orden ks)
        ∙ (ap (λ q. q ++ quedan t.vistos (nuevas s.orden ks))
              (ap (λ v. quedan v s.orden) (fun_ext told))
            ∙ ap (λ q. quedan (λ k. es_visto k ks) s.orden ++ q)
                (new_unseen s.orden ks t.vistos (λ k e. told k ∙ e))));
    sitio = λ k e p q.
        subst (EnSuSitio e) (sym (not_erased t.vistos k t.orden t.avatars (told k ∙ q)))
          (r.sitio k e p);
  }
    where
      told : (k : ℕ) → t.vistos k ≡ es_visto k ks
      told k = r.vistos k ∙ ap (λ b. b || es_visto k ks) (none_yet k)

  -- Whatever list the network gives, with gaps, with the visitor's own entry and with others twice, if the
  -- avatars were those of the order and no key stood twice there, they are so again; the order keeps those
  -- who stay, in their old order, before those who are new; and who stays is drawn where it was.
  pub set_presence-AlDia :
      (l : List (Option (Anuncio f))) (s : Avatares f)
      → IsPresencia s
      → AlDia s (claves l) (set_presence f su ready l s).1
  unfolding set_presence
  set_presence-AlDia l s h =
      let u : Avatares f = al_empezar f su ready s in
      let r : AlDia u (claves l) (se_quedan f su ready (reciben f su ready 0 l u)) =
        left_AlDia u (reciben f su ready 0 l u) (claves l) (λ k. refl)
          (all_rounds l 0 u (record { presentes = h.presentes; sin_repetir = h.sin_repetir })) in
      record { ahora = r.ahora; orden = r.orden; sitio = r.sitio }
