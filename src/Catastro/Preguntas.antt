-- ===== src/Catastro/Preguntas.antt =====
-- `solidoBajo` and `huellaLibre` answer for the whole register.
use mathlib.Core.List.{Memᴰ}
use mathlib.Core.List.Memᴰ
use rami_ledger.Prelude.{
  ℕ, zero, suc, ◌+◌, ◌*◌, ◌<◌, ◌≡◌, refl, sym, ap, subst, ◌∙◌, inl, inr, Bool, true, false, ◌||◌,
  Option, none, some, List, [], ◌∷◌, leb, if◌then◌else◌, get_elem?, Bool-cases, arith,
}
use mathlib.Core.Option.{some-injective}
use rami_ledger.Flotantes.{pos, Flotantes}
use rami_ledger.Catastro.{Solido, Catastro, celda_de, radio, sus_celdas}
use rami_ledger.Catastro.Consultas.{contiene, el_que, o_el, primero_de, lista_en, solido_bajo}
use rami_ledger.Catastro.Celdas.{EnOrden, mem-celdas}
use rami_ledger.Catastro.Indice.{IsIndexed}

pub at_of_mem {ℓ} :
    {A : Type ℓ} (xs : List A) {x : A} → Memᴰ x xs → (a : ℕ) × (get_elem? xs a ≡ some x)
at_of_mem [] m = elim m [ ]
at_of_mem (y ∷ xs) (Memᴰ.head e) = (0, ap (λ q. some q) (sym e))
at_of_mem (y ∷ xs) (Memᴰ.tail m) = let (a, e) = at_of_mem xs m in (suc a, e)

pub mem_of_at {ℓ} : {A : Type ℓ} (xs : List A) (a : ℕ) {x : A} → get_elem? xs a ≡ some x → Memᴰ x xs
mem_of_at [] a e = cc
mem_of_at (y ∷ xs) zero e = Memᴰ.head (sym (some-injective _ _ e))
mem_of_at (y ∷ xs) (suc a) e = Memᴰ.tail (mem_of_at xs a e)

module _ (f : Flotantes) (Ficha : Type 0) where
  -- What is said of the numbers: the cells follow the order.
  pub record IsMonotone : Type 0 where
    pub celda_mono : (a b : f.N) → f.alcanza b a ≡ true → EnOrden (celda_de f a) (celda_de f b)

  -- The square around a solid holds the point.
  abbrev pub Encierra : f.N → f.N → Solido f Ficha → Type 0
  Encierra wx wz so =
      ((f.alcanza wx (f.menos so.x (radio f so)) ≡ true)
        × (f.alcanza (f.mas so.x (radio f so)) wx ≡ true))
      × ((f.alcanza wz (f.menos so.z (radio f so)) ≡ true)
          × (f.alcanza (f.mas so.z (radio f so)) wz ≡ true))

  -- The cell of a point, in the grid.
  abbrev pub EnRejilla : Catastro f Ficha → f.N → f.N → Type 0
  EnRejilla cat wx wz =
      (i : ℕ) × ((j : ℕ) × (((celda_de f wx ≡ pos i) × (i < cat.nx))
          × ((celda_de f wz ≡ pos j) × (j < cat.nz))))

  -- The answer: a solid of the register with the property, or none where none has it.
  abbrev pub Responde :
      (Solido f Ficha → Bool) → List (Solido f Ficha) → Option (Solido f Ficha) → Type 0
  Responde p items none = (so : Solido f Ficha) → Memᴰ so items → p so ≡ false
  Responde p items (some so) = Memᴰ so items × (p so ≡ true)

  Found :
      (Solido f Ficha → Bool) → List (Solido f Ficha) → List ℕ → Option (Solido f Ficha) → Type 0
  Found p items ids none =
      (a : ℕ) (so : Solido f Ficha) → Memᴰ a ids → get_elem? items a ≡ some so → p so ≡ false
  Found p items ids (some so) = Memᴰ so items × (p so ≡ true)

  Found-past :
      (p : Solido f Ficha → Bool) (items : List (Solido f Ficha)) (id : ℕ) (ids : List ℕ)
      (rest : Option (Solido f Ficha))
      → ((so : Solido f Ficha) → get_elem? items id ≡ some so → p so ≡ false)
      → Found p items ids rest
      → Found p items (id ∷ ids) rest
  unfolding Found
  Found-past p items id ids none t h = λ a so m at. elim (Memᴰ.cases_cons m) [
    | inl q ↦ t so (ap (get_elem? items) (sym q) ∙ at)
    | inr m' ↦ h a so m' at
  ]
  Found-past p items id ids (some u) t h = h

  Found-here :
      (p : Solido f Ficha → Bool) (items : List (Solido f Ficha)) (id : ℕ) (ids : List ℕ)
      (rest : Option (Solido f Ficha)) (o : Option (Solido f Ficha))
      → get_elem? items id ≡ o
      → Found p items ids rest
      → Found p items (id ∷ ids) (o_el f Ficha (el_que f Ficha p o) rest)
  unfolding Found
  Found-here p items id ids rest none e h = Found-past p items id ids rest (λ so at. cc) h
  Found-here p items id ids rest (some s) e h = elim (Bool-cases (p s)) [
    | inl t ↦ rw t (mem_of_at items id e, t)
    | inr t ↦
        rw t
          (Found-past p items id ids rest (λ so at. ap p (some-injective _ _ (sym at ∙ e)) ∙ t) h)
  ]

  Found-all :
      (p : Solido f Ficha → Bool) (items : List (Solido f Ficha)) (ids : List ℕ)
      → Found p items ids (primero_de f Ficha p items ids)
  unfolding Found
  Found-all p items [] = λ a so m at. elim m [ ]
  Found-all p items (id ∷ ids) =
      Found-here p items id ids (primero_de f Ficha p items ids) (get_elem? items id) refl
        (Found-all p items ids)

  complete :
      (p : Solido f Ficha → Bool) (items : List (Solido f Ficha)) (ids : List ℕ)
      (o : Option (Solido f Ficha))
      → ((a : ℕ) (so : Solido f Ficha) → get_elem? items a ≡ some so → p so ≡ true → Memᴰ a ids)
      → Found p items ids o
      → Responde p items o
  unfolding Found
  complete p items ids (some so) h found = found
  complete p items ids none h found = λ so m. elim (Bool-cases (p so)) [
    | inl t ↦ let (a, at) = at_of_mem items m in found a so (h a so at t) at
    | inr t ↦ t
  ]

  -- A solid whose square holds the point is entered in the point's cell.
  entered_at :
      (cat : Catastro f Ficha) (wx wz : f.N)
      → IsMonotone
      → (so : Solido f Ficha) → Encierra wx wz so
      → (i j : ℕ) → celda_de f wx ≡ pos i
      → celda_de f wz ≡ pos j
      → i < cat.nx
      → j < cat.nz
      → Memᴰ (j * cat.nx + i) (sus_celdas f cat.nx cat.nz so)
  entered_at cat wx wz mono so ((a, b), (c, d)) i j ei ej li lj =
      mem-celdas cat.nx cat.nz (celda_de f (f.menos so.x (radio f so)))
        (celda_de f (f.mas so.x (radio f so))) (celda_de f (f.menos so.z (radio f so)))
        (celda_de f (f.mas so.z (radio f so))) i j
        (subst (λ q. EnOrden (celda_de f (f.menos so.x (radio f so))) q) ei (mono.celda_mono _ _ a))
        (subst (λ q. EnOrden q (celda_de f (f.mas so.x (radio f so)))) ei (mono.celda_mono _ _ b))
        (subst (λ q. EnOrden (celda_de f (f.menos so.z (radio f so))) q) ej (mono.celda_mono _ _ c))
        (subst (λ q. EnOrden q (celda_de f (f.mas so.z (radio f so)))) ej (mono.celda_mono _ _ d))
        li lj

  lista_in_grid :
      (cat : Catastro f Ficha) (i j : ℕ)
      → i < cat.nx
      → j < cat.nz
      → lista_en f Ficha cat (pos i) (pos j) ≡ cat.bins (j * cat.nx + i)
  lista_in_grid cat i j li lj =
      ap (λ b. if b then [] else cat.bins (j * cat.nx + i)) (inside cat.nx cat.nz i j li lj)
    where
      inside : (nx nz a b : ℕ) → a < nx → b < nz → (leb nx a || leb nz b) ≡ false
      inside nx nz a b la lb = ground arith

  -- In a register whose index is right, at a point whose cell is in the grid, the answer of `solidoBajo`
  -- is a solid of the register that contains the point, or none where no solid of the register does. The
  -- cells follow the order of the numbers, and a solid that contains the point has it in its square.
  pub solido_bajo_lem :
      (cat : Catastro f Ficha) (wx wz : f.N)
      → IsIndexed f Ficha cat
      → IsMonotone
      → ((so : Solido f Ficha)
          → Memᴰ so cat.items
          → contiene f Ficha wx wz so ≡ true
          → Encierra wx wz so)
      → EnRejilla cat wx wz
      → Responde (contiene f Ficha wx wz) cat.items (solido_bajo f Ficha (some cat) wx wz)
  unfolding solido_bajo
  solido_bajo_lem cat wx wz h mono square (i, (j, ((ei, li), (ej, lj)))) =
      let p = contiene f Ficha wx wz in
      complete p cat.items (lista_en f Ficha cat (celda_de f wx) (celda_de f wz)) _
        (λ a so at t.
          subst (Memᴰ a)
            (sym (lista_in_grid cat i j li lj)
              ∙ ap (λ q. lista_en f Ficha cat q (pos j)) (sym ei)
              ∙ ap (λ q. lista_en f Ficha cat (celda_de f wx) q) (sym ej))
            ((h.entered (j * cat.nx + i) a).1 (
              so,
              (
                at,
                entered_at cat wx wz mono so (square so (mem_of_at cat.items a at) t) i j ei ej li
                    lj,
              ),
            )))
        (Found-all p cat.items (lista_en f Ficha cat (celda_de f wx) (celda_de f wz)))
