-- ===== src/Vida/Diario.antt =====
-- The trips of the people: `viaje`, and the actions of `destino` and `agenda`, which draw numbers and
-- write trips down.
pub mod Cuenta
pub mod Indices
use rami_ledger.Prelude.{
  ℕ, zero, suc, ◌+◌, ◌%◌, Bool, true, false, Option, List, [], ◌∷◌, ◌++◌, ◌==◌, length,
  if◌then◌else◌,
}
use rami_ledger.Semillas.{lcg_next}

-- `DIA`, in seconds.
abbrev pub dia : ℕ
dia = 86400

-- A way from a door to the pavement: `id`, `zona`, and whether `edificio` is set.
pub record Acceso : Type 0 where
  pub id : ℕ
  pub zona : ℕ
  pub con_edificio : Bool

-- Where a trip goes: to another door, to the stop, to the taxi, or to a place or a node that a number
-- picks among those between two distances in centimetres.
pub data Meta : Type 0 where
  acc : Acceso → Meta
  parada taxi : Meta
  sitio : ℕ → ℕ → ℕ → Meta
  nodo : ℕ → ℕ → ℕ → Meta

pub data Tipo : Type 0 where
  ida vuelta llegada salida comida recado paseo madrugada : Tipo

-- A person of `V.personas`; `celda` is the cell of the grid the house stands in.
pub record Persona : Type 0 where
  pub id : ℕ
  pub sem : ℕ
  pub celda : Option (ℕ × ℕ)
  pub casa : Acceso
  pub trabaja : Bool
  pub trabajo : Option Acceso

pub record Viaje : Type 0 where
  pub id : ℕ
  pub p : ℕ
  pub zona : ℕ
  pub t0 : ℕ
  pub src : Acceso
  pub dst : Meta
  pub al_reves : Bool
  pub tipo : Tipo

-- `V.viajes`, and by their ids the trips of each zone and of each person.
pub record Libro : Type 0 where
  pub viajes : List Viaje
  pub de_zona : ℕ → List ℕ
  pub de_persona : ℕ → List ℕ

-- `f[k].push(v)`
abbrev pub empuja : (ℕ → List ℕ) → ℕ → ℕ → ℕ → List ℕ
empuja f k v i = if k == i then f i ++ (v ∷ []) else f i

abbrev pub anota : Viaje → Libro → Libro
anota v b = record {
  viajes = b.viajes ++ (v ∷ []);
  de_zona = empuja b.de_zona v.zona v.id;
  de_persona = empuja b.de_persona v.p v.id;
}

-- An action on the state of the generator and the trips.
abbrev pub Accion : Type 0 → Type 0
Accion A = ℕ × Libro → A × (ℕ × Libro)

infixl 5 ◌>>=◌ ◌>>◌
abbrev pub ◌>>=◌ : {A B : Type 0} → Accion A → (A → Accion B) → Accion B
◌>>=◌ m f s = f (m s).0 (m s).1

abbrev pub ◌>>◌ : {A B : Type 0} → Accion A → Accion B → Accion B
m >> k = m >>= λ _. k

abbrev pub nada : Accion (Unit {0})
nada s = (tt, s)

-- `r()`
unfoldable pub tira : Accion ℕ
tira s = (lcg_next s.0, (lcg_next s.0, s.1))

-- `viaje(per, zona, t0, src, dst, vuelta, tipo)`, for a time that is not negative.
unfoldable pub viaje : ℕ → ℕ → ℕ → Acceso → Meta → Bool → Tipo → Accion (Unit {0})
viaje per zona t0 src dst al_reves tipo s =
    let v : Viaje = record {
      id = length s.1.viajes;
      p = per;
      zona = zona;
      t0 = t0 % dia;
      src = src;
      dst = dst;
      al_reves = al_reves;
      tipo = tipo;
    } in
    (tt, (s.0, anota v s.1))
