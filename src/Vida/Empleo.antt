-- ===== src/Vida/Empleo.antt =====
-- `plantilla` and `recluta`: the staff of a company, and whom it hires.
pub mod Plantilla
pub mod Anillos
pub mod Plazas
use Prim.Native.Nat.{max}
use rami_ledger.Prelude.{
  ℕ, zero, suc, ◌+◌, ◌-◌, ◌*◌, ◌/◌, min, Bool, ◌&&◌, ◌||◌, Option, none, some, List, [], ◌∷◌, ◌++◌,
  ltb, leb, ◌==◌, if◌then◌else◌, length, take, get_or, sort,
}
use rami_ledger.Vida.Azar.{mezcla}
use rami_ledger.Vida.Diario.{Acceso, Persona}

-- The kinds of building of `SECTOR_ARCH`.
pub data Arch : Type 0 where
  torre hotel comercio concesionario industria solar agua granja clinica escuela : Arch
  gimnasio turismo taxi seguridad : Arch

abbrev pub sector_arch : List Arch
sector_arch =
    torre ∷ granja ∷ comercio ∷ torre ∷ concesionario ∷ hotel ∷ comercio ∷ torre ∷ industria ∷ solar
    ∷ agua ∷ industria ∷ torre ∷ torre ∷ torre ∷ torre ∷ industria ∷ torre ∷ torre ∷ clinica
    ∷ escuela ∷ comercio ∷ comercio ∷ gimnasio ∷ turismo ∷ taxi ∷ comercio ∷ comercio ∷ seguridad
    ∷ industria ∷ []

-- `PLANTILLA`, which has every kind.
abbrev pub plantilla_de : Arch → ℕ
plantilla_de torre = 300
plantilla_de hotel = 150
plantilla_de comercio = 40
plantilla_de concesionario = 30
plantilla_de industria = 80
plantilla_de solar = 8
plantilla_de agua = 25
plantilla_de granja = 15
plantilla_de clinica = 90
plantilla_de escuela = 70
plantilla_de gimnasio = 20
plantilla_de turismo = 40
plantilla_de taxi = 60
plantilla_de seguridad = 40

pub record Parcela : Type 0 where
  pub x : ℕ
  pub y : ℕ
  pub kind : ℕ
  pub ingresos : ℕ
  pub assets : ℕ

-- `while (ing >= 2 && bits < 12)`, with the rounds that are left: how many bits it adds.
abbrev pub bits_de : ℕ → ℕ → ℕ
bits_de zero ing = 0
bits_de (suc rounds) ing = let rest = bits_de rounds (ing / 2) in if leb 2 ing then suc rest else 0

-- For incomes that are safe integers, whose quotient by 10 ^ 8 never rounds up to an integer.
unfoldable pub plantilla : Parcela → ℕ
plantilla pc =
    let base = plantilla_de (get_or sector_arch pc.kind torre) in
    let bits = bits_de 12 (pc.ingresos / 100_000_000) in
    base + min (base * 2) (bits * base / 4) + min 200 (pc.assets * 10)

-- `V.personas` by id.
abbrev pub Gente : Type 0
Gente = ℕ → Persona

-- The ring of a cell around the parcel's.
abbrev pub anillo : Parcela → Option (ℕ × ℕ) → ℕ
anillo pc none = 99999
anillo pc (some (cx, cy)) = max ((cx - pc.x) + (pc.x - cx)) ((cy - pc.y) + (pc.y - cy))

-- `anillos[d].push(p)`; the keys stand in the order of `ds`.
abbrev pub mete : ℕ → ℕ → List (ℕ × List ℕ) → List (ℕ × List ℕ)
mete d p [] = (d, p ∷ []) ∷ []
mete d p ((e, l) ∷ rest) =
    let later = mete d p rest in if e == d then (e, l ++ (p ∷ [])) ∷ rest else (e, l) ∷ later

-- One person of the first loop, on `libres` and `anillos`.
abbrev pub mira_uno :
    Parcela → Persona → Option Acceso → List ℕ × List (ℕ × List ℕ) → List ℕ × List (ℕ × List ℕ)
mira_uno pc p (some w) (libres, anillos) = (libres, anillos)
mira_uno pc p none (libres, anillos) =
    (libres ++ (p.id ∷ []), mete (anillo pc p.celda) p.id anillos)

abbrev pub mira : Parcela → Gente → List ℕ → List ℕ × List (ℕ × List ℕ) → List ℕ × List (ℕ × List ℕ)
mira pc gente [] acc = acc
mira pc gente (k ∷ ks) acc = mira pc gente ks (mira_uno pc (gente k) (gente k).trabajo acc)

-- The comparison of `l.sort`: by the ticket, and then by the number.
abbrev pub antes : (ℕ → ℕ) → ℕ → ℕ → ℕ → Bool
antes sem ie a b =
    let ca = mezcla (sem a) (ie + 1) in
    let cb = mezcla (sem b) (ie + 1) in ltb ca cb || (ca == cb && ltb a b)

-- Who of a ring is hired.
abbrev pub elige : (ℕ → ℕ) → ℕ → ℕ → List ℕ → List ℕ
elige sem ie quedan l = if ltb quedan (length l) then take quedan (sort (antes sem ie) l) else l

abbrev pub con_trabajo : Acceso → Persona → Persona
con_trabajo ac p = record {
  id = p.id;
  sem = p.sem;
  celda = p.celda;
  casa = p.casa;
  trabaja = p.trabaja;
  trabajo = some ac;
}

abbrev pub coloca : Acceso → List ℕ → Gente → Gente
coloca ac [] gente = gente
coloca ac (k ∷ ks) gente = coloca ac ks (λ i. if k == i then con_trabajo ac (gente i) else gente i)

-- The second loop, on `quedan` and the people.
abbrev pub reparte : Acceso → ℕ → List (ℕ × List ℕ) → ℕ → Gente → ℕ × Gente
reparte ac ie [] quedan gente = (quedan, gente)
reparte ac ie ((d, l) ∷ rest) quedan gente =
    let hired = elige (λ k. (gente k).sem) ie quedan l in
    let later = reparte ac ie rest (quedan - length hired) (coloca ac hired gente) in
    if ltb 0 quedan then later else (quedan, gente)

-- `V.empleo`
pub record Empleo : Type 0 where
  pub parcelas : ℕ
  pub puestos : ℕ
  pub oficinas : ℕ
  pub por_zona : ℕ → ℕ

-- What `recluta` changes: `J.trab`, the people, and `V.empleo`.
pub record Plaza : Type 0 where
  pub trab : List ℕ
  pub gente : Gente
  pub empleo : Empleo

-- `recluta(J, E, ie)`, with `E.ac`, `E.pc` and `E.peso`.
unfoldable pub recluta : Acceso → Parcela → ℕ → ℕ → Plaza → Plaza
recluta ac pc peso ie s =
    let seen = mira pc s.gente s.trab ([], []) in
    let out = reparte ac ie (sort (λ r t. ltb r.0 t.0) seen.1) peso s.gente in
    record {
      trab = seen.0;
      gente = out.1;
      empleo = record {
        parcelas = s.empleo.parcelas + (peso - out.0);
        puestos = s.empleo.puestos + peso;
        oficinas = s.empleo.oficinas;
        por_zona = s.empleo.por_zona;
      };
    }
