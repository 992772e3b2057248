-- ===== src/Umbral/Salas.antt =====
-- What one walks in: a space as the collisions see it, and the keys that are down.
use rami_ledger.Prelude.{ℕ, Bool, Option, List}
use rami_ledger.Flotantes.{Flotantes}
pub use rami_ledger.Umbral.Estado.{Caja}
use rami_ledger.Umbral.Estado.{Portal}

pub record Pulsadas : Type 0 where
  pub w : Bool
  pub s : Bool
  pub a : Bool
  pub d : Bool
  pub arrowup : Bool
  pub arrowdown : Bool
  pub arrowleft : Bool
  pub arrowright : Bool
  pub shift : Bool
  pub q : Bool
  pub e : Bool

module _ (f : Flotantes) where
  -- A piece of furniture, with what its pieces say of its size and of whether one walks over it.
  pub record Enser : Type 0 where
    pub x : f.N
    pub z : f.N
    pub r : ℕ
    pub sx : f.N
    pub sz : f.N
    pub pasa : Bool

  -- A way out to the street.
  pub record Boca : Type 0 where
    pub x : f.N
    pub z : f.N
    pub ancho : f.N

  -- A space to walk in; `cab` is the cabin of the house, where the house has one and the space is not
  -- the cabin.
  pub record Sala : Type 0 where
    pub solidos : List (Caja f)
    pub enseres : List Enser
    pub cab : Option (Caja f)
    pub limites : Caja f
    pub boca : Option Boca
    pub suelo : f.N

  -- A building with a courtyard: the frame, half its width and depth, the courtyard (`pat`) and the door.
  pub record ConPatio : Type 0 where
    pub marco : Portal f
    pub hw : f.N
    pub hd : f.N
    pub pat : Caja f
    pub cerrado_a : Bool
    pub cerrado_b : Bool
    pub puerta_x : f.N
    pub puerta_dw : f.N
    pub puerta_zo : f.N
