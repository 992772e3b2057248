-- ===== src/Flotantes/Enteros.antt =====
-- Whole numbers as an instance, in which the unit is the side of a cell and a root is what it is the root
-- of: enough to run the code on, and its order is transitive.
use rami_ledger.Prelude.{
  ℕ, zero, suc, ◌+◌, ◌-◌, ◌*◌, ◌≡◌, refl, Bool, true, false, not, ltb, leb, if◌then◌else◌, arith,
}
use rami_ledger.Flotantes.{ℤ, pos, negsuc, Flotantes}

abbrev pub resta : ℕ → ℕ → ℤ
resta a b = if leb b a then pos (a - b) else negsuc (b - a - 1)

abbrev pub suma : ℤ → ℤ → ℤ
suma (pos a) (pos b) = pos (a + b)
suma (pos a) (negsuc b) = resta a (suc b)
suma (negsuc a) (pos b) = resta b (suc a)
suma (negsuc a) (negsuc b) = negsuc (suc (a + b))

abbrev pub negado : ℤ → ℤ
negado (pos zero) = pos 0
negado (pos (suc n)) = negsuc n
negado (negsuc n) = pos (suc n)

abbrev pub producto : ℤ → ℤ → ℤ
producto (pos a) (pos b) = pos (a * b)
producto (pos a) (negsuc b) = negado (pos (a * suc b))
producto (negsuc a) (pos b) = negado (pos (suc a * b))
producto (negsuc a) (negsuc b) = pos (suc a * suc b)

abbrev pub es_menor : ℤ → ℤ → Bool
es_menor (pos a) (pos b) = ltb a b
es_menor (pos a) (negsuc b) = false
es_menor (negsuc a) (pos b) = true
es_menor (negsuc a) (negsuc b) = ltb b a

abbrev pub enteros : Flotantes
enteros = record {
  N = ℤ;
  de = pos;
  mas = suma;
  menos = λ a b. suma a (negado b);
  por = producto;
  entre = λ a b. a;
  opuesto = negado;
  raiz = λ a. a;
  seno = λ a. pos 0;
  coseno = λ a. pos 1;
  menor = es_menor;
  alcanza = λ a b. not (es_menor a b);
  suelo = λ a. a;
  redondo = λ a. a;
  finito = λ a. true;
  hipot = suma;
  arco = λ a b. a;
  tangente = λ a. a;
  potencia = producto;
  pi = pos 3;
}

-- The whole root of a number up to 120 * 120.
abbrev raiz_hasta : ℕ → ℕ → ℕ
raiz_hasta zero n = 0
raiz_hasta (suc k) n = let rest = raiz_hasta k n in if leb (suc k * suc k) n then suc k else rest

abbrev pub raiz_de : ℤ → ℤ
raiz_de (pos n) = pos (raiz_hasta 120 n)
raiz_de (negsuc n) = negsuc n

pub es_menor_trans : (a b c : ℤ) → es_menor a b ≡ true → es_menor b c ≡ true → es_menor a c ≡ true
es_menor_trans (pos a) (pos b) (pos c) h k = ground arith
es_menor_trans (pos a) (pos b) (negsuc c) h k = cc
es_menor_trans (pos a) (negsuc b) c h k = cc
es_menor_trans (negsuc a) b (pos c) h k = refl
es_menor_trans (negsuc a) (pos b) (negsuc c) h k = cc
es_menor_trans (negsuc a) (negsuc b) (negsuc c) h k = ground arith
