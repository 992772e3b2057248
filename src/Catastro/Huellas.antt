-- ===== src/Catastro/Huellas.antt =====
-- `huellaLibre` answers for the whole register.
use mathlib.Core.List.{Memᴰ}
use mathlib.Core.List.Memᴰ
use rami_ledger.Prelude.{
  ℕ, zero, suc, ◌+◌, ◌-◌, ◌*◌, ◌≤◌, ◌≡◌, refl, sym, ap, subst, ◌∙◌, inl, inr, Bool, true, false,
  ◌||◌, Option, none, some, List, [], ◌∷◌, ◌==◌, ==_iff, get_elem?, Bool-cases, arith,
}
use rami_ledger.Flotantes.{ℤ, pos, negsuc, Flotantes}
use rami_ledger.Catastro.{Solido, Catastro, es_visto, celda_de, radio, sus_celdas}
use rami_ledger.Catastro.Consultas.{
  menos_una, una_mas, se_montan, cumple, mira_lista, tras_lista, mira_celdas, celdas_vecinas,
  huella_libre,
}
use rami_ledger.Catastro.Celdas.{EnOrden, EnOrden-trans, Cabe, mem-celdas, common}
use rami_ledger.Catastro.Indice.{IsIndexed}
use rami_ledger.Catastro.Preguntas.{IsMonotone, at_of_mem, mem_of_at}

below : (z : ℤ) → EnOrden (menos_una z) z
below (pos zero) = tt
below (pos (suc n)) = omega arith
below (negsuc n) = omega arith

above : (z : ℤ) → EnOrden z (una_mas z)
above (pos n) = omega arith
above (negsuc zero) = tt
above (negsuc (suc n)) = omega arith

seen_mem : (id : ℕ) (vs : List ℕ) → es_visto id vs ≡ true → Memᴰ id vs
seen_mem id [] e = cc
seen_mem id (v ∷ vs) e = elim (Bool-cases (id == v)) [
  | inl t ↦ Memᴰ.head ((==_iff id v).0 t)
  | inr t ↦ Memᴰ.tail (seen_mem id vs (ap (λ b. b || es_visto id vs) (sym t) ∙ e))
]

module _ (f : Flotantes) (Ficha : Type 0) (p : Solido f Ficha → Bool)
    (items : List (Solido f Ficha)) where
  -- No solid of these numbers has the property.
  abbrev pub Clear : List ℕ → Type 0
  Clear ids =
      (a : ℕ) (so : Solido f Ficha) → Memᴰ a ids → get_elem? items a ≡ some so → p so ≡ false

  abbrev Some : Type 0
  Some = (so : Solido f Ficha) × (Memᴰ so items × (p so ≡ true))

  Clear-cons :
      (id : ℕ) (ids : List ℕ)
      → ((so : Solido f Ficha) → get_elem? items id ≡ some so → p so ≡ false)
      → Clear ids
      → Clear (id ∷ ids)
  Clear-cons id ids h k = λ a so m at. elim (Memᴰ.cases_cons m) [
    | inl q ↦ h so (ap (get_elem? items) (sym q) ∙ at)
    | inr m' ↦ k a so m' at
  ]

  Told : List ℕ → Option (List ℕ) → Type 0
  Told ids none = Some
  Told ids (some vs) = Clear vs × Clear ids

  Told-cons :
      (id : ℕ) (ids : List ℕ) (r : Option (List ℕ))
      → ((so : Solido f Ficha) → get_elem? items id ≡ some so → p so ≡ false)
      → Told ids r
      → Told (id ∷ ids) r
  unfolding Told
  Told-cons id ids none h t = t
  Told-cons id ids (some vs) h (k, l) = (k, Clear-cons id ids h l)

  fulfilled :
      (id : ℕ) (o : Option (Solido f Ficha))
      → get_elem? items id ≡ o
      → cumple f Ficha p o ≡ true
      → Some
  fulfilled id none e t = cc
  fulfilled id (some so) e t = (so, (mem_of_at items id e, t))

  unfulfilled :
      (id : ℕ)
      → cumple f Ficha p (get_elem? items id) ≡ false
      → (so : Solido f Ficha) → get_elem? items id ≡ some so
      → p so ≡ false
  unfulfilled id t so e = sym (ap (cumple f Ficha p) e) ∙ t

  list-Told :
      (ids vistos : List ℕ) → Clear vistos → Told ids (mira_lista f Ficha p items ids vistos)
  unfolding Told
  list-Told [] vistos h = (h, λ a so m at. elim m [ ])
  list-Told (id ∷ ids) vistos h = elim (Bool-cases (es_visto id vistos)) [
    | inl s ↦ rw s (
        Told-cons id ids (mira_lista f Ficha p items ids vistos)
          (λ so at. h id so (seen_mem id vistos s) at) (list-Told ids vistos h))
    | inr s ↦ elim (Bool-cases (cumple f Ficha p (get_elem? items id))) [
      | inl t ↦ rw (s, t) (fulfilled id (get_elem? items id) refl t)
      | inr t ↦
          rw (s, t)
            (Told-cons id ids (mira_lista f Ficha p items ids (id ∷ vistos)) (unfulfilled id t)
              (list-Told ids (id ∷ vistos) (Clear-cons id vistos (unfulfilled id t) h)))
    ]
  ]

module _ (f : Flotantes) (Ficha : Type 0) (p : Solido f Ficha → Bool) (cat : Catastro f Ficha) where
  -- The answer: no solid of the cells has the property, or one does.
  Cells : List ℕ → Bool → Type 0
  Cells ks true = (k : ℕ) → Memᴰ k ks → Clear f Ficha p cat.items (cat.bins k)
  Cells ks false = (so : Solido f Ficha) × (Memᴰ so cat.items × (p so ≡ true))

  Cells-cons :
      (k : ℕ) (ks : List ℕ) (b : Bool)
      → Clear f Ficha p cat.items (cat.bins k)
      → Cells ks b
      → Cells (k ∷ ks) b
  unfolding Cells
  Cells-cons k ks true h c = λ q m. elim (Memᴰ.cases_cons m) [
    | inl e ↦ subst (λ z. Clear f Ficha p cat.items (cat.bins z)) (sym e) h
    | inr m' ↦ c q m'
  ]
  Cells-cons k ks false h c = c

  Cells-step :
      (k : ℕ) (ks : List ℕ) (more : List ℕ → Bool) (r : Option (List ℕ))
      → Told f Ficha p cat.items (cat.bins k) r
      → ((vs : List ℕ) → Clear f Ficha p cat.items vs → Cells ks (more vs))
      → Cells (k ∷ ks) (tras_lista f Ficha more r)
  unfolding Cells Told
  Cells-step k ks more none t h = t
  Cells-step k ks more (some vs) (c, d) h = Cells-cons k ks (more vs) d (h vs c)

  Cells-told :
      (ks vistos : List ℕ)
      → Clear f Ficha p cat.items vistos
      → Cells ks (mira_celdas f Ficha p cat ks vistos)
  unfolding Cells
  Cells-told [] vistos h = λ k m. elim m [ ]
  Cells-told (k ∷ ks) vistos h =
      Cells-step k ks (mira_celdas f Ficha p cat ks) _
        (list-Told f Ficha p cat.items (cat.bins k) vistos h) (λ vs c. Cells-told ks vs c)

module _ (f : Flotantes) (Ficha : Type 0) where
  -- Two stretches of an axis, each with its middle and its half: they meet, and neither is turned round.
  pub record SeTocan (x r y s : f.N) : Type 0 where
    pub left : f.alcanza (f.mas y s) (f.menos x r) ≡ true
    pub right : f.alcanza (f.mas x r) (f.menos y s) ≡ true
    pub one : f.alcanza (f.mas x r) (f.menos x r) ≡ true
    pub other : f.alcanza (f.mas y s) (f.menos y s) ≡ true

  -- A stretch meets the grid, of so many cells.
  abbrev pub EnLaRejilla : ℕ → f.N → f.N → Type 0
  EnLaRejilla n x r = Cabe n (celda_de f (f.menos x r)) (celda_de f (f.mas x r))

  abbrev pub Respuesta : (Solido f Ficha → Bool) → List (Solido f Ficha) → Bool → Type 0
  Respuesta p items true = (so : Solido f Ficha) → Memᴰ so items → p so ≡ false
  Respuesta p items false = (so : Solido f Ficha) × (Memᴰ so items × (p so ≡ true))

  -- One axis: a cell of the grid that both the circle's loop and the solid's entry go through.
  axis :
      (x r y s : f.N) (n : ℕ)
      → IsMonotone f Ficha
      → SeTocan x r y s
      → EnLaRejilla n x r
      → EnLaRejilla n y s
      → (i : ℕ) × ((i ≤ n)
          × ((EnOrden (menos_una (celda_de f (f.menos x r))) (pos i)
                × EnOrden (pos i) (una_mas (celda_de f (f.mas x r))))
              × (EnOrden (celda_de f (f.menos y s)) (pos i)
                  × EnOrden (pos i) (celda_de f (f.mas y s)))))
  axis x r y s n mono t g k =
      let a0 = celda_de f (f.menos x r) in
      let a1 = celda_de f (f.mas x r) in
      let (i, (le, ((p, q), rest))) =
        common a0 a1 (celda_de f (f.menos y s)) (celda_de f (f.mas y s)) n g k
          (mono.celda_mono _ _ t.one) (mono.celda_mono _ _ t.other) (mono.celda_mono _ _ t.left)
          (mono.celda_mono _ _ t.right) in
      (
        i,
        (
          le,
          (
            (
              EnOrden-trans (menos_una a0) a0 (pos i) (below a0) p,
              EnOrden-trans (pos i) a1 (una_mas a1) q (above a1),
            ),
            rest,
          ),
        ),
      )

  -- What is said of a solid that the circle overlaps: the squares around both meet, and the solid's
  -- meets the grid.
  pub record Montado (cat : Catastro f Ficha) (wx wz r : f.N) (so : Solido f Ficha) : Type 0 where
    pub en_x : SeTocan wx r so.x (radio f so)
    pub en_z : SeTocan wz r so.z (radio f so)
    pub dentro_x : EnLaRejilla (cat.nx - 1) so.x (radio f so)
    pub dentro_z : EnLaRejilla (cat.nz - 1) so.z (radio f so)

  shared :
      (cat : Catastro f Ficha) (wx wz r : f.N) (so : Solido f Ficha)
      → IsMonotone f Ficha
      → 1 ≤ cat.nx
      → 1 ≤ cat.nz
      → EnLaRejilla (cat.nx - 1) wx r
      → EnLaRejilla (cat.nz - 1) wz r
      → Montado cat wx wz r so
      → (k : ℕ) × (Memᴰ k (celdas_vecinas f Ficha cat wx wz r)
          × Memᴰ k (sus_celdas f cat.nx cat.nz so))
  shared cat wx wz r so mono lx lz gx gz m =
      let (i, (li, ((a, b), (c, d)))) =
        axis wx r so.x (radio f so) (cat.nx - 1) mono m.en_x gx m.dentro_x in
      let (j, (lj, ((a', b'), (c', d')))) =
        axis wz r so.z (radio f so) (cat.nz - 1) mono m.en_z gz m.dentro_z in
      (
        j * cat.nx + i,
        (
          mem-celdas cat.nx cat.nz (menos_una (celda_de f (f.menos wx r)))
              (una_mas (celda_de f (f.mas wx r))) (menos_una (celda_de f (f.menos wz r)))
              (una_mas (celda_de f (f.mas wz r))) i j a b a' b' (omega arith) (omega arith),
          mem-celdas cat.nx cat.nz (celda_de f (f.menos so.x (radio f so)))
              (celda_de f (f.mas so.x (radio f so))) (celda_de f (f.menos so.z (radio f so)))
              (celda_de f (f.mas so.z (radio f so))) i j c d c' d' (omega arith) (omega arith),
        ),
      )

  answer :
      (cat : Catastro f Ficha) (p : Solido f Ficha → Bool) (ks : List ℕ) (b : Bool)
      → IsIndexed f Ficha cat
      → ((so : Solido f Ficha)
          → Memᴰ so cat.items
          → p so ≡ true
          → (k : ℕ) × (Memᴰ k ks × Memᴰ k (sus_celdas f cat.nx cat.nz so)))
      → Cells f Ficha p cat ks b
      → Respuesta p cat.items b
  unfolding Cells
  answer cat p ks false h near c = c
  answer cat p ks true h near c = λ so m. elim (Bool-cases (p so)) [
    | inl t ↦
        let (k, (inside, own)) = near so m t in
        let (a, at) = at_of_mem cat.items m in
        c k inside a so ((h.entered k a).1 (so, (at, own))) at
    | inr t ↦ t
  ]

  -- In a register whose index is right, `huellaLibre` is true exactly where the circle overlaps no solid
  -- of the register; false comes with a solid that it overlaps. The cells follow the order of the numbers,
  -- the grid has a cell, the circle meets it, and so do the squares around the solids that the circle
  -- overlaps, which meet the square around the circle.
  pub huella_libre_lem :
      (cat : Catastro f Ficha) (wx wz r : f.N)
      → IsIndexed f Ficha cat
      → IsMonotone f Ficha
      → 1 ≤ cat.nx
      → 1 ≤ cat.nz
      → EnLaRejilla (cat.nx - 1) wx r
      → EnLaRejilla (cat.nz - 1) wz r
      → ((so : Solido f Ficha)
          → Memᴰ so cat.items
          → se_montan f Ficha wx wz r so ≡ true
          → Montado cat wx wz r so)
      → Respuesta (se_montan f Ficha wx wz r) cat.items (huella_libre f Ficha cat wx wz r)
  unfolding huella_libre
  huella_libre_lem cat wx wz r h mono lx lz gx gz meets =
      let p = se_montan f Ficha wx wz r in
      answer cat p (celdas_vecinas f Ficha cat wx wz r) _ h
        (λ so m t. shared cat wx wz r so mono lx lz gx gz (meets so m t))
        (Cells-told f Ficha p cat (celdas_vecinas f Ficha cat wx wz r) [] (λ a so m at. elim m [ ]))
