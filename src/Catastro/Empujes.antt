-- ===== src/Catastro/Empujes.antt =====
-- What `empujarFuera` answers.
use mathlib.Core.List.{Memᴰ}
use mathlib.Core.List.Memᴰ
use rami_ledger.Prelude.{
  ℕ, ◌≡◌, ◌⊎◌, Bool, true, false, Option, none, some, List, [], ◌∷◌, ◌++◌, get_elem?,
}
use rami_ledger.Flotantes.{Flotantes}
use rami_ledger.Catastro.{Solido, Catastro, Punto, celdas_cerca}
use rami_ledger.Catastro.Consultas.{saca_de, Empuje}
use rami_ledger.Catastro.Salientes.{Sale}

module _ (f : Flotantes) (Ficha : Type 0) (r : f.N) (items : List (Solido f Ficha)) where
  -- The circle is pushed from one place to another, once or more, each time by a solid of the register that
  -- touches it where it has come to; the last one is named.
  pub data Cadena (p : Punto f) : Punto f → Solido f Ficha → Type 0 where
    una :
        {q : Punto f} {so : Solido f Ficha} → Memᴰ so items → Sale f Ficha r so p q → Cadena p q so
    otra :
        {q q' : Punto f} {so so' : Solido f Ficha}
        → Cadena p q so
        → Memᴰ so' items
        → Sale f Ficha r so' q q'
        → Cadena p q' so'

  abbrev pub Llega : Punto f → Punto f → Option (Solido f Ficha) → Type 0
  Llega p q none = ⊥
  Llega p q (some so) = Cadena p q so

  -- No solid of these numbers touches the circle at `p`.
  abbrev pub Libre : Punto f → List ℕ → Type 0
  Libre p ids =
      (a : ℕ) (so : Solido f Ficha)
      → Memᴰ a ids
      → get_elem? items a ≡ some so
      → saca_de f Ficha so r p ≡ none

  -- Behind these numbers: unmoved and free of them, or pushed.
  abbrev pub Tras : Punto f → Option (Solido f Ficha) → List ℕ → Empuje f Ficha → Bool → Type 0
  Tras p c ids s false = (s.donde ≡ p) × ((s.choque ≡ c) × Libre p ids)
  Tras p c ids s true = Llega p s.donde s.choque

module _ (f : Flotantes) (Ficha : Type 0) (r : f.N) (cat : Catastro f Ficha) where
  abbrev todas : List ℕ → List ℕ
  todas [] = []
  todas (k ∷ ks) = cat.bins k ++ todas ks

  -- No solid that is entered in a cell of the circle's square touches the circle.
  abbrev pub Sola : Punto f → Type 0
  Sola p =
      (k : ℕ)
      → Memᴰ k (celdas_cerca f cat.nx cat.nz p.px p.pz r)
      → Libre f Ficha r cat.items p (cat.bins k)

  abbrev pub Empujado : Punto f → Punto f × Option (Solido f Ficha) → Type 0
  Empujado p (p', none) = (p' ≡ p) × Sola p
  Empujado p (p', some so) =
      (Sola p' × Cadena f Ficha r cat.items p p' so)
      ⊎ ((q : Punto f) × (so' : Solido f Ficha) × Cadena f Ficha r cat.items p q so'
          × Cadena f Ficha r cat.items q p' so)

  abbrev TrasPasada : Punto f → Option (Solido f Ficha) → Empuje f Ficha → Bool → Type 0
  TrasPasada p c s b =
      Tras f Ficha r cat.items p c (todas (celdas_cerca f cat.nx cat.nz p.px p.pz r)) s b
