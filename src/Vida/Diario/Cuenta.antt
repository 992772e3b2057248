-- ===== src/Vida/Diario/Cuenta.antt =====
-- Rules for what an action writes down: at most so many trips, all of them with a property, and the
-- lists of the zones and of the people stay those of the trips.
use mathlib.Core.List.{append_assoc, append-nil}
use rami_ledger.Prelude.{
  ℕ, ◌+◌, ◌≤◌, ◌<◌, ◌≡◌, refl, sym, ◌∙◌, ap, Bool, true, false, List, [], ◌++◌, arith, length,
  length-append, if◌then◌else◌, All, All-append,
}
use rami_ledger.Vida.Diario.Indices.{IsLibro, anota-IsLibro}
use rami_ledger.Vida.Diario.{
  dia, Acceso, Meta, Tipo, Viaje, Libro, Accion, ◌>>=◌, nada, tira, viaje,
}

-- What an action adds to the trips.
pub record Added (P : Viaje → Type 0) (n : ℕ) (b b' : Libro) : Type 0 where
  pub trips : List Viaje
  pub all : All P trips
  pub few : length trips ≤ n
  pub behind : b'.viajes ≡ b.viajes ++ trips
  pub keep : IsLibro b → IsLibro b'

-- From every state an action adds at most `n` trips, all of them with the property.
pub record Adds (P : Viaje → Type 0) (n : ℕ) {A : Type 0} (m : Accion A) : Type 0 where
  pub at : (s : ℕ × Libro) → Added P n s.1 (m s).1.1

nothing : (P : Viaje → Type 0) (b : Libro) → Added P 0 b b
nothing P b = record {
  trips = [];
  all = tt;
  few = omega arith;
  behind = sym (append-nil b.viajes);
  keep = λ h. h;
}

pub nada-Adds : (P : Viaje → Type 0) → Adds P 0 nada
nada-Adds P = record { at = λ s. nothing P s.1 }

pub tira-Adds : (P : Viaje → Type 0) → Adds P 0 tira
unfolding tira
tira-Adds P = record { at = λ s. nothing P s.1 }

pub bind-Adds :
    {P : Viaje → Type 0} {n k : ℕ} {A B : Type 0} {m : Accion A} {f : A → Accion B}
    → Adds P n m
    → ((a : A) → Adds P k (f a))
    → Adds P (n + k) (m >>= f)
bind-Adds {P} {m} {f} h g = record {
  at = λ s.
      let one = h.at s in
      let two = (g (m s).0).at (m s).1 in
      record {
        trips = one.trips ++ two.trips;
        all = All-append P one.trips two.trips one.all two.all;
        few = omega (arith, length-append one.trips two.trips, one.few, two.few);
        behind =
            two.behind
            ∙ ap (λ (l : List Viaje). l ++ two.trips) one.behind
            ∙ append_assoc s.1.viajes one.trips two.trips;
        keep = λ i. two.keep (one.keep i);
      };
}

pub more-Adds :
    {P : Viaje → Type 0} {n k : ℕ} {A : Type 0} {m : Accion A} → n ≤ k → Adds P n m → Adds P k m
more-Adds le h = record {
  at = λ s.
      let one = h.at s in
      record {
        trips = one.trips;
        all = one.all;
        few = let few = one.few in omega arith;
        behind = one.behind;
        keep = one.keep;
      };
}

pub if-Adds :
    {P : Viaje → Type 0} {n : ℕ} {A : Type 0} (c : Bool) {x y : Accion A}
    → Adds P n x
    → Adds P n y
    → Adds P n (if c then x else y)
if-Adds true h k = h
if-Adds false h k = k

-- A trip as `viaje` makes it, but for its number.
pub viaje-Adds :
    {P : Viaje → Type 0} (per zona t0 : ℕ) (src : Acceso) (dst : Meta) (al_reves : Bool)
    (tipo : Tipo)
    → ((v : Viaje) → v.p ≡ per → v.zona ≡ zona → v.t0 < dia → v.src ≡ src → v.dst ≡ dst → P v)
    → Adds P 1 (viaje per zona t0 src dst al_reves tipo)
unfolding viaje
viaje-Adds per zona t0 src dst al_reves tipo h = record {
  at = λ s. record {
    trips = _;
    all = (h _ refl refl (omega arith) refl refl, tt);
    few = omega arith;
    behind = refl;
    keep = anota-IsLibro _ s.1 refl;
  };
}
