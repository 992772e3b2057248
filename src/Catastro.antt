-- ===== src/Catastro.antt =====
-- The register of the solids of the city (city3d.js): the cells of its grid, `catastroNuevo`,
-- `catastroAlta`, `catastroReconstruye`, `catastroQuita`, and the questions `huellaLibre`,
-- `empujarFuera`, `solidoBajo`, `rayoSolido`.
pub mod Indice
pub mod Celdas
pub mod Preguntas
pub mod Huellas
pub mod Salientes
pub mod Empujes
pub mod Cortes
pub mod Tests
pub mod Consultas
pub mod Rayo
use rami_ledger.Prelude.{
  ℕ, zero, suc, ◌+◌, ◌-◌, ◌*◌, Bool, true, false, not, ◌&&◌, ◌||◌, Option, none, some, List, [],
  ◌∷◌, ◌++◌, ltb, leb, ◌==◌, if◌then◌else◌, length, get_elem?,
}
use rami_ledger.Flotantes.{
  ℤ, pos, negsuc, Flotantes, desde_cero, hasta_tope, cero, modulo, clamp, hipotenusa,
}

abbrev pub solido_celda : ℕ
solido_celda = 256

-- `for (i = a; i <= b; i++)`
abbrev pub cuenta_desde : ℕ → ℕ → List ℕ
cuenta_desde i zero = []
cuenta_desde i (suc n) = i ∷ cuenta_desde (suc i) n

abbrev pub de_a : ℕ → ℤ → List ℕ
de_a i (negsuc b) = []
de_a i (pos b) = cuenta_desde i (suc b - i)

-- `items.filter`
abbrev pub filtra {ℓ} : {A : Type ℓ} → (A → Bool) → List A → List A
filtra p [] = []
filtra p (x ∷ xs) = let rest = filtra p xs in if p x then x ∷ rest else rest

-- The number of a cell, and the cells between two of each axis, in the order of the loops; a range of
-- cells keeps inside the grid.
abbrev pub fila : ℕ → ℕ → List ℕ → List ℕ
fila nx j [] = []
fila nx j (i ∷ is) = (j * nx + i) ∷ fila nx j is

abbrev pub filas : ℕ → List ℕ → List ℕ → List ℕ
filas nx is [] = []
filas nx is (j ∷ js) = fila nx j is ++ filas nx is js

abbrev pub celdas : ℕ → ℕ → ℕ → ℤ → ℕ → ℤ → List ℕ
celdas nx nz i0 i1 j0 j1 =
    filas nx (de_a i0 (hasta_tope (nx - 1) i1)) (de_a j0 (hasta_tope (nz - 1) j1))

-- `Math.max(1, …)`, the cells of a side.
abbrev pub lado_celdas : ℤ → ℕ
lado_celdas (pos (suc n)) = suc n
lado_celdas other = 1

-- `bins[k].push(idx)`, and that for each of the cells.
abbrev pub mete_en : ℕ → ℕ → (ℕ → List ℕ) → ℕ → List ℕ
mete_en idx k bins c = if k == c then bins c ++ (idx ∷ []) else bins c

abbrev pub mete_todas : ℕ → List ℕ → (ℕ → List ℕ) → ℕ → List ℕ
mete_todas idx [] bins = bins
mete_todas idx (k ∷ ks) bins = mete_todas idx ks (mete_en idx k bins)

abbrev pub es_visto : ℕ → List ℕ → Bool
es_visto id [] = false
es_visto id (v ∷ vs) = id == v || es_visto id vs

module _ (f : Flotantes) where
  -- What a solid is here: its box, turned by `yaw`, and what else is known of it.
  pub record Solido (Ficha : Type 0) : Type 0 where
    pub x : f.N
    pub z : f.N
    pub hw : f.N
    pub hd : f.N
    pub yaw : f.N
    pub y0 : f.N
    pub h : f.N
    pub ficha : Ficha

  -- A cell that the array does not have has no list.
  pub record Catastro (Ficha : Type 0) : Type 0 where
    pub nx : ℕ
    pub nz : ℕ
    pub bins : ℕ → List ℕ
    pub items : List (Solido Ficha)

  pub record Punto : Type 0 where
    pub px : f.N
    pub pz : f.N

  abbrev pub celda_de : f.N → ℤ
  celda_de a = f.suelo (f.entre a (f.de solido_celda))

  abbrev pub radio : {Ficha : Type 0} → Solido Ficha → f.N
  radio so = hipotenusa f so.hw so.hd

  abbrev pub celdas_cerca : ℕ → ℕ → f.N → f.N → f.N → List ℕ
  celdas_cerca nx nz x z r =
      celdas nx nz (desde_cero (celda_de (f.menos x r))) (celda_de (f.mas x r))
        (desde_cero (celda_de (f.menos z r))) (celda_de (f.mas z r))

  module _ {Ficha : Type 0} where
    -- `catastroNuevo`
    abbrev pub catastro_nuevo : (f.N → ℤ) → f.N → f.N → Catastro Ficha
    catastro_nuevo techo world_w world_h = record {
      nx = lado_celdas (techo (f.entre (f.mas world_w (f.de solido_celda)) (f.de solido_celda)));
      nz = lado_celdas (techo (f.entre (f.mas world_h (f.de solido_celda)) (f.de solido_celda)));
      bins = λ k. [];
      items = [];
    }

    -- The cells that a solid is entered in.
    abbrev pub sus_celdas : ℕ → ℕ → Solido Ficha → List ℕ
    sus_celdas nx nz so = celdas_cerca nx nz so.x so.z (radio so)

    -- `catastroAlta`
    unfoldable pub catastro_alta : Solido Ficha → Catastro Ficha → Catastro Ficha
    catastro_alta so cat = record cat {
      items = cat.items ++ (so ∷ []);
      bins = mete_todas (length cat.items) (sus_celdas cat.nx cat.nz so) cat.bins;
    }

    abbrev pub altas : List (Solido Ficha) → Catastro Ficha → Catastro Ficha
    altas [] cat = cat
    altas (so ∷ sos) cat = altas sos (catastro_alta so cat)

    -- `catastroReconstruye`
    abbrev pub catastro_reconstruye : Catastro Ficha → Catastro Ficha
    catastro_reconstruye cat = altas cat.items (record cat { bins = λ k. []; items = [] })

    -- `catastroQuita`
    abbrev pub catastro_quita : (Solido Ficha → Bool) → Catastro Ficha → Catastro Ficha
    catastro_quita pred cat =
        catastro_reconstruye (record cat { items = filtra (λ so. not (pred so)) cat.items })
