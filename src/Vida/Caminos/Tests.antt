-- ===== src/Vida/Caminos/Tests.antt =====
-- A triangle of pavements, and the theorems on it.
use rami_ledger.Prelude.{
  ℕ, zero, suc, ◌≤◌, ◌<◌, ◌≡◌, refl, inl, inr, Option, some, none, List, [], ◌∷◌, arith,
}
use rami_ledger.Vida.Caminos.{Arista, Grafo, Pie, Arbol, Coste, por, otro, arbol_de, hasta_acceso}
use rami_ledger.Vida.Caminos.Pasos.{Has}
use rami_ledger.Vida.Caminos.Final.{IsGrafo, IsTree, arbol_de-IsTree}
use rami_ledger.Vida.Caminos.Llegada.{Trayecto, IsWay, AtMost, hasta_acceso_least}

abbrev aceras : ℕ → Arista
aceras zero = record { a = 0; b = 1; peso = 50 }
aceras (suc zero) = record { a = 1; b = 2; peso = 30 }
aceras (suc (suc n)) = record { a = 0; b = 2; peso = 100 }

abbrev cruces : ℕ → List ℕ
cruces zero = 0 ∷ 2 ∷ []
cruces (suc zero) = 0 ∷ 1 ∷ []
cruces (suc (suc zero)) = 1 ∷ 2 ∷ []
cruces (suc (suc (suc n))) = []

abbrev triangulo : Grafo
triangulo = record { nodos = 3; aristas = aceras; adj = cruces }

abbrev puerta : Pie
puerta = record { e = 0; u = 10 }

abbrev tienda : Pie
tienda = record { e = 2; u = 90 }

edges_of : (m i : ℕ) → Has i (cruces m) → (otro (aceras i) m < 3) × ((aceras i).peso ≤ 100)
edges_of zero i (inl e) = rw e (omega arith, omega arith)
edges_of zero i (inr (inl e)) = rw e (omega arith, omega arith)
edges_of zero i (inr (inr h)) = elim h [ ]
edges_of (suc zero) i (inl e) = rw e (omega arith, omega arith)
edges_of (suc zero) i (inr (inl e)) = rw e (omega arith, omega arith)
edges_of (suc zero) i (inr (inr h)) = elim h [ ]
edges_of (suc (suc zero)) i (inl e) = rw e (omega arith, omega arith)
edges_of (suc (suc zero)) i (inr (inl e)) = rw e (omega arith, omega arith)
edges_of (suc (suc zero)) i (inr (inr h)) = elim h [ ]
edges_of (suc (suc (suc n))) i h = elim h [ ]

triangulo-IsGrafo : IsGrafo triangulo puerta 100
triangulo-IsGrafo = record { end_a = omega arith; end_b = omega arith; edges = edges_of }

arbol_de-IsTree_example :
    (t : Arbol) × ((arbol_de triangulo 5000 puerta ≡ some t) × IsTree triangulo puerta t)
arbol_de-IsTree_example = arbol_de-IsTree triangulo puerta 100 triangulo-IsGrafo 5000 (omega arith)

-- The tree of the door.
abbrev arbol : Arbol
arbol = (arbol_de-IsTree triangulo puerta 100 triangulo-IsGrafo 5000 (omega arith)).0

abbrev a_la_tienda : Option Arbol → Coste
a_la_tienda none = none
a_la_tienda (some t) = hasta_acceso triangulo t.dist puerta tienda

to_the_shop : a_la_tienda (arbol_de triangulo 20 puerta) ≡ some (80, por 2)
unfolding hasta_acceso arbol_de
to_the_shop = refl

hasta_acceso_least_example :
    IsWay triangulo puerta tienda (hasta_acceso triangulo arbol.dist puerta tienda)
    × ((k : ℕ)
        → Trayecto triangulo puerta tienda k
        → AtMost triangulo puerta tienda (hasta_acceso triangulo arbol.dist puerta tienda) k)
hasta_acceso_least_example =
    hasta_acceso_least triangulo puerta tienda arbol
      (arbol_de-IsTree triangulo puerta 100 triangulo-IsGrafo 5000 (omega arith)).1.1
