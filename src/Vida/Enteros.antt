-- ===== src/Vida/Enteros.antt =====
-- Whole numbers as an instance of the numbers that the ways and the frames are computed with.
use rami_ledger.Prelude.{
  ℕ, ◌/◌, ◌%◌, ◌≤◌, ◌≡◌, refl, true, false, not, IsOrder, if◌then◌else◌, arith,
}
use rami_ledger.Flotantes.{ℤ, pos, negsuc}
use rami_ledger.Flotantes.Enteros.{suma, negado, producto, es_menor}
use rami_ledger.Vida.Rutas.{Numeros}
use rami_ledger.Vida.Calle.Ventanas.{EsOrden}

abbrev pub resto_de : ℤ → ℤ → ℤ
resto_de (pos a) (pos b) = pos (a % b)
resto_de a b = a

abbrev pub cociente : ℤ → ℤ → ℤ
cociente (pos a) (pos b) = pos (a / b)
cociente a b = a

abbrev pub horas : Numeros
horas = record {
  N = ℤ;
  de = pos;
  menos_uno = negsuc 0;
  mas = suma;
  menos = λ a b. suma a (negado b);
  por = producto;
  entre = cociente;
  resto = resto_de;
  mayor = λ a b. if es_menor a b then b else a;
  menor = es_menor;
  alcanza = λ a b. not (es_menor a b);
}

below : (x y : ℕ) (a : ℤ) → x ≤ y → es_menor (pos y) a ≡ true → es_menor (pos x) a ≡ true
below x y (pos b) l h = ground arith
below x y (negsuc b) l h = h

within :
    (x y : ℕ) (b : ℤ) → x ≤ y → not (es_menor b (pos y)) ≡ true → not (es_menor b (pos x)) ≡ true
within x y (pos b) l h = ground arith
within x y (negsuc b) l h = h

pub horas-EsOrden : EsOrden horas
horas-EsOrden = record { menor_baja = below; alcanza_baja = within }

less_asym : (a b : ℤ) → es_menor a b ≡ true → es_menor b a ≡ false
less_asym (pos a) (pos b) h = ground arith
less_asym (pos a) (negsuc b) h = cc
less_asym (negsuc a) (pos b) h = refl
less_asym (negsuc a) (negsuc b) h = ground arith

less_trans : (a b c : ℤ) → es_menor b a ≡ false → es_menor c b ≡ false → es_menor c a ≡ false
less_trans (pos a) (pos b) (pos c) h k = ground arith
less_trans (pos a) (pos b) (negsuc c) h k = cc
less_trans (pos a) (negsuc b) c h k = cc
less_trans (negsuc a) b (pos c) h k = refl
less_trans (negsuc a) (pos b) (negsuc c) h k = cc
less_trans (negsuc a) (negsuc b) (negsuc c) h k = ground arith

pub less-IsOrder : IsOrder es_menor
less-IsOrder = record {
  asym = λ {x} {y} e. less_asym x y e;
  trans = λ {x} {y} {z} h k. less_trans x y z h k;
}
