-- ===== src/Memoria.antt =====
-- The pure part of chain/crates/rami-gui/src/city/memoria.js: `nivelPatina` and `encargos`, but for
-- the cell that `encargos` picks for a district, which is floating-point geometry. The indices, ids
-- and sectors are natural numbers below 2 ^ 31, on which `| 0` does nothing; a list that is missing
-- in the data reads as empty.
pub mod Guia
pub mod GuiaTests
pub mod Nivel
pub mod Cuentas
pub mod Encargos
pub mod Tests
use rami_ledger.Prelude.{
  ℕ, zero, suc, ◌+◌, ◌-◌, ◌*◌, ◌/◌, ◌%◌, ◌^◌, Bool, true, false, not, ◌&&◌, ◌||◌, Option, none,
  some, List, [], ◌∷◌, ◌++◌, map, ltb, leb, ◌==◌, if◌then◌else◌, get_elem?,
}
use rami_ledger.Semillas.{to_digits}

abbrev pub bloques_dia : ℕ
bloques_dia = 1440

abbrev pub patina_niveles : ℕ
patina_niveles = 12

-- `v | 0`, moved up by 2 ^ 31, so that differences and order are those of the signed number.
abbrev pub int : ℕ → ℕ
int v = (v + 2 ^ 31) % 2 ^ 32

-- `while (n < PATINA_NIVELES && (n + 1) * (n + 1) <= dias) n++`, with `left` levels to go.
unfoldable pub sube_nivel : ℕ → ℕ → ℕ → ℕ
sube_nivel zero dias n = n
sube_nivel (suc left) dias n =
    let more = sube_nivel left dias (n + 1) in if leb ((n + 1) * (n + 1)) dias then more else n

-- An age below 0 is 0 here; both are level 0.
unfoldable pub nivel_patina : ℕ → ℕ → ℕ
unfolding sube_nivel
nivel_patina altura desde =
    let edad = int altura - int desde in
    if not (ltb 0 edad) then 0 else sube_nivel patina_niveles (edad / bloques_dia) 0

pub record Parcela : Type 0 where
  pub pending : Bool
  pub kind : ℕ
  pub distrito : ℕ

pub record Distrito : Type 0 where
  pub id : ℕ
  pub nombre : List ℕ
  pub precio : ℕ

-- `sectors` holds the `insumos` of each sector, where it has them.
pub record Vista : Type 0 where
  pub huecos : List (ℕ × ℕ)
  pub parcels : List Parcela
  pub sectors : List (Option (List ℕ))
  pub districts : List Distrito

-- An entry of `porD`; `faltan` holds pairs of a sector and its count.
pub record Cuenta : Type 0 where
  pub distrito : ℕ
  pub empresas : ℕ
  pub faltan : List (ℕ × ℕ)

-- `hueco[h]`
abbrev pub es_hueco : List (ℕ × ℕ) → ℕ → Bool
es_hueco [] h = false
es_hueco (x ∷ xs) h = x.0 == h || es_hueco xs h

-- `e.faltan[h] = (e.faltan[h] || 0) + 1`
unfoldable pub suma_uno : ℕ → List (ℕ × ℕ) → List (ℕ × ℕ)
suma_uno h [] = (h, 1) ∷ []
suma_uno h (f ∷ fs) = let rest = suma_uno h fs in if f.0 == h then (f.0, f.1 + 1) ∷ fs else f ∷ rest

-- The loop over the inputs of a sector, on the counts of a district.
unfoldable pub cuenta_huecos : List (ℕ × ℕ) → List ℕ → List (ℕ × ℕ) → List (ℕ × ℕ)
unfolding suma_uno
cuenta_huecos huecos [] faltan = faltan
cuenta_huecos huecos (h ∷ hs) faltan =
    cuenta_huecos huecos hs (if es_hueco huecos h then suma_uno h faltan else faltan)

-- `usa`
abbrev pub usa : List (ℕ × ℕ) → List ℕ → Bool
usa huecos [] = false
usa huecos (h ∷ hs) = es_hueco huecos h || usa huecos hs

-- The company's district gets its counts, a new entry where it has none yet.
unfoldable pub apunta : List (ℕ × ℕ) → List ℕ → ℕ → List Cuenta → List Cuenta
apunta huecos hs di [] =
    record { distrito = di; empresas = 1; faltan = cuenta_huecos huecos hs [] } ∷ []
apunta huecos hs di (e ∷ es) =
    let rest = apunta huecos hs di es in
    if e.distrito == di
    then record e { empresas = e.empresas + 1; faltan = cuenta_huecos huecos hs e.faltan } ∷ es
    else e ∷ rest

-- The inputs of the parcel's sector, none where it has no such sector.
abbrev pub insumos_de : List (Option (List ℕ)) → ℕ → List ℕ
insumos_de sectors k = elim (get_elem? sectors k) [
  | none ↦ []
  | some none ↦ []
  | some (some hs) ↦ hs
]

-- One round of the loop over the parcels.
unfoldable pub ronda : Vista → Parcela → List Cuenta → List Cuenta
ronda d p por_d =
    let hs = insumos_de d.sectors p.kind in
    if p.pending
    then por_d
    else if usa d.huecos hs
    then apunta d.huecos hs p.distrito por_d
    else por_d

unfoldable pub recorre : Vista → List Parcela → List Cuenta → List Cuenta
recorre d [] por_d = por_d
recorre d (p ∷ ps) por_d = recorre d ps (ronda d p por_d)

-- `dist[id]`: the last district with the id.
abbrev pub distrito_de : List Distrito → ℕ → Option Distrito
distrito_de [] id = none
distrito_de (x ∷ xs) id = elim (distrito_de xs id) [
  | some y ↦ some y
  | none ↦ if x.id == id then some x else none
]

-- An order for the companies of a district, as it is listed.
pub record Encargo : Type 0 where
  pub distrito : ℕ
  pub nombre : List ℕ
  pub precio : ℕ
  pub empresas : ℕ
  pub faltan : List (ℕ × ℕ)

abbrev pub nombre_de : Option Distrito → ℕ → List ℕ
nombre_de none id = b'#' ∷ to_digits 53 10 id
nombre_de (some x) id = elim x.nombre [ [] ↦ b'#' ∷ to_digits 53 10 id | c ∷ cs ↦ c ∷ cs ]

abbrev pub precio_de : Option Distrito → ℕ
precio_de none = 0
precio_de (some x) = x.precio

-- `if (… !d.huecos.length …) return []`
abbrev pub si_huecos : List (ℕ × ℕ) → List Encargo → List Encargo
si_huecos [] lista = []
si_huecos (x ∷ xs) lista = lista

-- The two comparisons: whether the first argument comes before the second one.
abbrev pub faltan_antes : ℕ × ℕ → ℕ × ℕ → Bool
faltan_antes a b = ltb b.1 a.1 || (a.1 == b.1 && ltb a.0 b.0)

abbrev pub encargo_antes : Encargo → Encargo → Bool
encargo_antes a b =
    ltb b.empresas a.empresas || (a.empresas == b.empresas && ltb a.distrito b.distrito)

-- `ordena_faltan` and `ordena` are the library's `sort`, which takes the comparison.
module _ (ordena_faltan : (ℕ × ℕ → ℕ × ℕ → Bool) → List (ℕ × ℕ) → List (ℕ × ℕ))
    (ordena : (Encargo → Encargo → Bool) → List Encargo → List Encargo) where
  abbrev pub ficha : Vista → Cuenta → Encargo
  ficha d e = record {
    distrito = e.distrito;
    nombre = nombre_de (distrito_de d.districts e.distrito) e.distrito;
    precio = precio_de (distrito_de d.districts e.distrito);
    empresas = e.empresas;
    faltan = ordena_faltan faltan_antes e.faltan;
  }

  unfoldable pub encargos : Vista → List Encargo
  encargos d = si_huecos d.huecos (ordena encargo_antes (map (ficha d) (recorre d d.parcels [])))
