-- ===== src/Catastro/Indice.antt =====
-- The index by cells is right after every change.
use mathlib.Core.List.{Memᴰ, append-nil}
use mathlib.Core.List.Memᴰ
use rami_ledger.Prelude.{
  ℕ, zero, suc, ◌≡◌, refl, sym, ap, subst, ◌∙◌, ◌⊎◌, inl, inr, ◌↔◌, Bool, false, not, some, List,
  [], ◌∷◌, ◌++◌, ◌==◌, ==_iff, if◌then◌else◌, length, get_elem?, Bool-cases, arith,
}
use mathlib.Core.Option.{some-injective}
use rami_ledger.Flotantes.{ℤ, Flotantes}
use rami_ledger.Catastro.{
  Solido, Catastro, mete_en, mete_todas, sus_celdas, catastro_nuevo, catastro_alta, altas,
  catastro_reconstruye, catastro_quita, filtra,
}

-- A number is entered in a cell, or was in it before.
mem-mete_en :
    (a idx k c : ℕ) (bins : ℕ → List ℕ)
    → Memᴰ a (mete_en idx k bins c) ↔ (Memᴰ a (bins c) ⊎ ((a ≡ idx) × (c ≡ k)))
mem-mete_en a idx k c bins = elim (Bool-cases (k == c)) [
  | inl e ↦ (
    λ m.
        elim (Memᴰ.append_cases (bins c)
          (subst (λ b. Memᴰ a (if b then bins c ++ (idx ∷ []) else bins c)) e m)) [
            | inl m' ↦ inl m'
            | inr m' ↦ inr (single m', sym ((==_iff k c).0 e))
          ],
    λ h.
        subst (λ b. Memᴰ a (if b then bins c ++ (idx ∷ []) else bins c)) (sym e)
          (elim h [
            | inl m ↦ Memᴰ.append_left (idx ∷ []) m
            | inr (p, q) ↦ Memᴰ.append_right (bins c) (Memᴰ.head p)
          ]),
  )
  | inr e ↦ (
    λ m. inl (subst (λ b. Memᴰ a (if b then bins c ++ (idx ∷ []) else bins c)) e m),
    λ h.
        subst (λ b. Memᴰ a (if b then bins c ++ (idx ∷ []) else bins c)) (sym e)
          (elim h [ inl m ↦ m | inr (p, q) ↦ absurd (differ k c e (sym q)) ]),
  )
]
  where
    single : {x y : ℕ} → Memᴰ x (y ∷ []) → x ≡ y
    single (Memᴰ.head e) = e
    single (Memᴰ.tail m) = elim m [ ]

    differ : (x y : ℕ) → x == y ≡ false → x ≡ y → ⊥
    differ x y e h = ground arith

mem-mete_todas :
    (a idx c : ℕ) (ks : List ℕ) (bins : ℕ → List ℕ)
    → Memᴰ a (mete_todas idx ks bins c) ↔ (Memᴰ a (bins c) ⊎ ((a ≡ idx) × Memᴰ c ks))
mem-mete_todas a idx c [] bins = (λ m. inl m, λ h. elim h [ inl m ↦ m | inr (p, m) ↦ elim m [ ] ])
mem-mete_todas a idx c (k ∷ ks) bins =
    let (fwd, back) = mem-mete_todas a idx c ks (mete_en idx k bins) in
    let (fwd', back') = mem-mete_en a idx k c bins in
    (
      λ m. elim (fwd m) [
        | inl m' ↦ elim (fwd' m') [ inl q ↦ inl q | inr (p, e) ↦ inr (p, Memᴰ.head e) ]
        | inr (p, m') ↦ inr (p, Memᴰ.tail m')
      ],
      λ h. elim h [
        | inl m ↦ back (inl (back' (inl m)))
        | inr (p, m) ↦ elim (Memᴰ.cases_cons m) [
          | inl e ↦ back (inl (back' (inr (p, e))))
          | inr m' ↦ back (inr (p, m'))
        ]
      ],
    )

module _ {ℓ} {A : Type ℓ} where
  get_elem?-old :
      (xs ys : List A) (i : ℕ) {x : A} → get_elem? xs i ≡ some x → get_elem? (xs ++ ys) i ≡ some x
  get_elem?-old [] ys i e = cc
  get_elem?-old (x ∷ xs) ys zero e = e
  get_elem?-old (x ∷ xs) ys (suc i) e = get_elem?-old xs ys i e

  get_elem?-new : (xs : List A) (x : A) → get_elem? (xs ++ (x ∷ [])) (length xs) ≡ some x
  get_elem?-new [] x = refl
  get_elem?-new (y ∷ xs) x = get_elem?-new xs x

  get_elem?-cases :
      (xs : List A) (y : A) (i : ℕ) {x : A}
      → get_elem? (xs ++ (y ∷ [])) i ≡ some x
      → (get_elem? xs i ≡ some x) ⊎ ((i ≡ length xs) × (y ≡ x))
  get_elem?-cases [] y zero e = inr (refl, some-injective _ _ e)
  get_elem?-cases [] y (suc i) e = cc
  get_elem?-cases (z ∷ xs) y zero e = inl e
  get_elem?-cases (z ∷ xs) y (suc i) e = elim (get_elem?-cases xs y i e) [
    | inl p ↦ inl p
    | inr (p, q) ↦ inr (ap suc p, q)
  ]

  append_rest : (xs : List A) (y : A) (ys : List A) → (xs ++ (y ∷ [])) ++ ys ≡ xs ++ (y ∷ ys)
  append_rest [] y ys = refl
  append_rest (x ∷ xs) y ys = ap (λ l. x ∷ l) (append_rest xs y ys)

module _ (f : Flotantes) (Ficha : Type 0) where
  -- The solid of a number is entered in a cell.
  abbrev pub Toca : Catastro f Ficha → ℕ → ℕ → Type 0
  Toca cat c a =
      (so : Solido f Ficha) × ((get_elem? cat.items a ≡ some so)
        × Memᴰ c (sus_celdas f cat.nx cat.nz so))

  pub record IsIndexed (cat : Catastro f Ficha) : Type 0 where
    pub entered : (c a : ℕ) → Memᴰ a (cat.bins c) ↔ Toca cat c a

  pub alta-IsIndexed :
      (so : Solido f Ficha) (cat : Catastro f Ficha)
      → IsIndexed cat
      → IsIndexed (catastro_alta f so cat)
  unfolding catastro_alta
  alta-IsIndexed so cat h = record {
    entered = λ c a.
        let ks = sus_celdas f cat.nx cat.nz so in
        let (fwd, back) = mem-mete_todas a (length cat.items) c ks cat.bins in
        (
          λ m. elim (fwd m) [
            | inl m' ↦
                let (s, (e, t)) = (h.entered c a).0 m' in
                (s, (get_elem?-old cat.items (so ∷ []) a e, t))
            | inr (p, t) ↦
                (so, (ap (get_elem? (cat.items ++ (so ∷ []))) p ∙ get_elem?-new cat.items so, t))
          ],
          λ (s, (e, t)). elim (get_elem?-cases cat.items so a e) [
            | inl e' ↦ back (inl ((h.entered c a).1 (s, (e', t))))
            | inr (p, q) ↦
                back (inr (p, subst (λ z. Memᴰ c (sus_celdas f cat.nx cat.nz z)) (sym q) t))
          ],
        );
  }

  altas-IsIndexed :
      (sos : List (Solido f Ficha)) (cat : Catastro f Ficha)
      → IsIndexed cat
      → IsIndexed (altas f sos cat)
  altas-IsIndexed [] cat h = h
  altas-IsIndexed (so ∷ sos) cat h =
      altas-IsIndexed sos (catastro_alta f so cat) (alta-IsIndexed so cat h)

  altas-items :
      (sos : List (Solido f Ficha)) (cat : Catastro f Ficha)
      → (altas f sos cat).items ≡ cat.items ++ sos
  unfolding catastro_alta
  altas-items [] cat = sym (append-nil cat.items)
  altas-items (so ∷ sos) cat =
      altas-items sos (catastro_alta f so cat) ∙ append_rest cat.items so sos

  empty-IsIndexed : (cat : Catastro f Ficha) → IsIndexed (record cat { bins = λ k. []; items = [] })
  empty-IsIndexed cat = record { entered = λ c a. (λ m. elim m [ ], λ (s, (e, t)). cc) }

  -- What is done to a register, and what it keeps.
  pub data Cambio : Type 0 where
    alta : Solido f Ficha → Cambio
    reconstruye : Cambio
    quita : (Solido f Ficha → Bool) → Cambio

  abbrev pub cambia_cat : Cambio → Catastro f Ficha → Catastro f Ficha
  cambia_cat (alta so) cat = catastro_alta f so cat
  cambia_cat reconstruye cat = catastro_reconstruye f cat
  cambia_cat (quita pred) cat = catastro_quita f pred cat

  abbrev pub cambios : List Cambio → Catastro f Ficha → Catastro f Ficha
  cambios [] cat = cat
  cambios (c ∷ cs) cat = cambios cs (cambia_cat c cat)

  -- The same changes of a plain list.
  abbrev pub lista_tras : Cambio → List (Solido f Ficha) → List (Solido f Ficha)
  lista_tras (alta so) l = l ++ (so ∷ [])
  lista_tras reconstruye l = l
  lista_tras (quita pred) l = filtra (λ so. not (pred so)) l

  abbrev pub lista_tras_todos : List Cambio → List (Solido f Ficha) → List (Solido f Ficha)
  lista_tras_todos [] l = l
  lista_tras_todos (c ∷ cs) l = lista_tras_todos cs (lista_tras c l)

  pub cambia_cat-IsIndexed :
      (c : Cambio) (cat : Catastro f Ficha) → IsIndexed cat → IsIndexed (cambia_cat c cat)
  cambia_cat-IsIndexed (alta so) cat h = alta-IsIndexed so cat h
  cambia_cat-IsIndexed reconstruye cat h = altas-IsIndexed cat.items _ (empty-IsIndexed cat)
  cambia_cat-IsIndexed (quita pred) cat h =
      altas-IsIndexed (filtra (λ so. not (pred so)) cat.items) _ (empty-IsIndexed cat)

  cambia_cat-items :
      (c : Cambio) (cat : Catastro f Ficha) → (cambia_cat c cat).items ≡ lista_tras c cat.items
  unfolding catastro_alta
  cambia_cat-items (alta so) cat = refl
  cambia_cat-items reconstruye cat = altas-items cat.items _
  cambia_cat-items (quita pred) cat = altas-items (filtra (λ so. not (pred so)) cat.items) _

  cambios-kept :
      (cs : List Cambio) (cat : Catastro f Ficha)
      → IsIndexed cat
      → IsIndexed (cambios cs cat) × ((cambios cs cat).items ≡ lista_tras_todos cs cat.items)
  cambios-kept [] cat h = (h, refl)
  cambios-kept (c ∷ cs) cat h =
      let (h', e) = cambios-kept cs (cambia_cat c cat) (cambia_cat-IsIndexed c cat h) in
      (h', e ∙ ap (lista_tras_todos cs) (cambia_cat-items c cat))

  -- After any changes of a new register, its solids are those of the plain list that the same changes
  -- give, and each cell holds the numbers of the solids whose square touches it, and no other.
  pub cambios-IsIndexed :
      (cs : List Cambio) (techo : f.N → ℤ) (world_w world_h : f.N)
      → let cat = cambios cs (catastro_nuevo f techo world_w world_h) in
        IsIndexed cat × (cat.items ≡ lista_tras_todos cs [])
  cambios-IsIndexed cs techo world_w world_h =
      cambios-kept cs (catastro_nuevo f techo world_w world_h)
        (empty-IsIndexed (catastro_nuevo f techo world_w world_h))
