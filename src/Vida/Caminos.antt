-- ===== src/Vida/Caminos.antt =====
-- `arbolDe`: the shortest ways over the pavements of a zone, by a heap of integer distances, and what
-- is asked of them: `hastaAcceso`, `nodosEntre`.
pub mod Monton
pub mod Pasos
pub mod Minimos
pub mod Cotas
pub mod Llegada
pub mod Tests
pub mod Final
use rami_ledger.Prelude.{
  ℕ, zero, suc, ◌+◌, ◌-◌, ◌*◌, ◌/◌, Bool, true, false, ◌&&◌, ◌||◌, Option, none, some, List, [],
  ◌∷◌, ◌++◌, ltb, leb, ◌==◌, if◌then◌else◌, length, set, get_or,
}

-- An edge of the graph, with its weight in centimetres.
pub record Arista : Type 0 where
  pub a : ℕ
  pub b : ℕ
  pub peso : ℕ

-- `nNodos`, `aristas` by number, and the numbers of the edges at each node.
pub record Grafo : Type 0 where
  pub nodos : ℕ
  pub aristas : ℕ → Arista
  pub adj : ℕ → List ℕ

-- The place of a door on the pavement: its edge, and `Math.round(ac.u * 100)`.
pub record Pie : Type 0 where
  pub e : ℕ
  pub u : ℕ

-- `Hk` and `Hn`, the distances and the nodes of the heap.
abbrev pub Monton : Type 0
Monton = List (ℕ × ℕ)

abbrev pub menor : ℕ × ℕ → ℕ × ℕ → Bool
menor p q = ltb p.0 q.0 || (p.0 == q.0 && ltb p.1 q.1)

abbrev pub en : Monton → ℕ → ℕ × ℕ
en h i = get_or h i (0, 0)

abbrev pub cambia : Monton → ℕ → ℕ → Monton
cambia h i j = set (set h i (en h j)) j (en h i)

-- `sube(i)`, with the rounds that are left: `i` is enough, which every round makes less.
abbrev pub sube : ℕ → Monton → ℕ → Monton
sube zero h i = h
sube (suc rounds) h zero = h
sube (suc rounds) h (suc i) =
    let p = i / 2 in
    let rest = sube rounds (cambia h (suc i) p) p in
    if menor (en h (suc i)) (en h p) then rest else h

-- The least of a place and its two children.
abbrev pub hijo : Monton → ℕ → ℕ → ℕ
hijo h l m = if ltb l (length h) && menor (en h l) (en h m) then l else m

abbrev pub minimo : Monton → ℕ → ℕ
minimo h i = hijo h (2 * i + 2) (hijo h (2 * i + 1) i)

-- `baja(i)`, with the rounds that are left: the length is enough, since `i` grows.
abbrev pub baja : ℕ → Monton → ℕ → Monton
baja zero h i = h
baja (suc rounds) h i =
    let m = minimo h i in let rest = baja rounds (cambia h i m) m in if m == i then h else rest

-- The heap without its first element: the last one takes its place.
abbrev pub sin_ultimo : List (ℕ × ℕ) → List (ℕ × ℕ)
sin_ultimo [] = []
sin_ultimo (x ∷ []) = []
sin_ultimo (x ∷ y ∷ ys) = x ∷ sin_ultimo (y ∷ ys)

abbrev pub ultimo : ℕ × ℕ → List (ℕ × ℕ) → ℕ × ℕ
ultimo x [] = x
ultimo x (y ∷ ys) = ultimo y ys

abbrev pub saca : Monton → Monton
saca [] = []
saca (x ∷ []) = []
saca (x ∷ y ∷ ys) = let h = ultimo y ys ∷ sin_ultimo (y ∷ ys) in baja (length h) h 0

-- The edge by which a node was reached: `-2` for none, `-1` for the door itself.
pub data Previo : Type 0 where
  sin_llegar desde_acceso : Previo
  arista : ℕ → Previo

-- `dist`, where `-1` is `none`, `prev`, and the heap.
pub record Arbol : Type 0 where
  pub dist : ℕ → Option ℕ
  pub prev : ℕ → Previo
  pub monton : Monton

abbrev pub vacio : Arbol
vacio = record { dist = λ n. none; prev = λ n. sin_llegar; monton = [] }

abbrev pub pone {ℓ} : {A : Type ℓ} → (ℕ → A) → ℕ → A → ℕ → A
pone f k v i = if k == i then v else f i

-- `mete(nd, dd, pe)`
abbrev pub no_mejora : Option ℕ → ℕ → Bool
no_mejora none dd = false
no_mejora (some d) dd = leb d dd

abbrev pub apunta : ℕ → ℕ → Previo → Arbol → Arbol
apunta nd dd pe t = record {
  dist = pone t.dist nd (some dd);
  prev = pone t.prev nd pe;
  monton = let h = t.monton ++ ((dd, nd) ∷ []) in sube (length t.monton) h (length t.monton);
}

abbrev pub mete : ℕ → ℕ → Previo → Arbol → Arbol
mete nd dd pe t = if no_mejora (t.dist nd) dd then t else apunta nd dd pe t

abbrev pub otro : Arista → ℕ → ℕ
otro e nd = if e.a == nd then e.b else e.a

module _ (z : Grafo) where
  -- The edges at `nd`, from its distance `dk`.
  abbrev pub relaja : ℕ → ℕ → List ℕ → Arbol → Arbol
  relaja nd dk [] t = t
  relaja nd dk (i ∷ is) t =
      relaja nd dk is (mete (otro (z.aristas i) nd) (dk + (z.aristas i).peso) (arista i) t)

  -- `if (dk > dist[nd]) continue`, where no distance is `-1`.
  abbrev pub es_viejo : ℕ → Option ℕ → Bool
  es_viejo dk none = true
  es_viejo dk (some d) = ltb d dk

  -- A round of `while (Hk.length)`, for the first of the heap.
  abbrev pub vuelta : ℕ × ℕ → Arbol → Arbol
  vuelta p t =
      let t' : Arbol = record { dist = t.dist; prev = t.prev; monton = saca t.monton } in
      if es_viejo p.0 (t.dist p.1) then t' else relaja p.1 p.0 (z.adj p.1) t'

  -- The loop, with the rounds that it may make; `none` where they are used up.
  abbrev pub bucle : ℕ → Arbol → Option Arbol
  bucle zero t = none
  bucle (suc rounds) t = elim t.monton [ [] ↦ some t | p ∷ rest ↦ bucle rounds (vuelta p t) ]

  abbrev pub raices : Pie → Arbol
  raices ac =
      let e = z.aristas ac.e in
      mete e.b (e.peso - ac.u) desde_acceso (mete e.a ac.u desde_acceso vacio)

  unfoldable pub arbol_de : ℕ → Pie → Option Arbol
  arbol_de rounds ac = bucle rounds (raices ac)

-- `nodo`: by which node one gets there, `-1` for the same edge.
pub data Via : Type 0 where
  por : ℕ → Via
  directo : Via

abbrev pub Coste : Type 0
Coste = Option (ℕ × Via)

-- `if (best === null || x < best)`, and the same with `x <= best`.
abbrev pub rebaja : Coste → ℕ → Via → Coste
rebaja none x via = some (x, via)
rebaja (some (best, v)) x via = if ltb x best then some (x, via) else some (best, v)

abbrev pub iguala : Coste → ℕ → Via → Coste
iguala none x via = some (x, via)
iguala (some (best, v)) x via = if leb x best then some (x, via) else some (best, v)

-- One end of the edge, whose node may not be reached.
abbrev pub por_nodo : Coste → Option ℕ → (ℕ → ℕ) → ℕ → Coste
por_nodo best none f n = best
por_nodo best (some d) f n = rebaja best (f d) (por n)

-- `hastaAcceso(Z, A, ac, b)`
unfoldable pub hasta_acceso : Grafo → (ℕ → Option ℕ) → Pie → Pie → Coste
hasta_acceso z dist ac b =
    let e = z.aristas b.e in
    let x1 = por_nodo none (dist e.a) (λ d. d + b.u) e.a in
    let x2 = por_nodo x1 (dist e.b) (λ d. (d + e.peso) - b.u) e.b in
    if ac.e == b.e then iguala x2 ((ac.u - b.u) + (b.u - ac.u)) directo else x2
