-- ===== src/Vida/Cuadro/Dibujados.antt =====
-- What a frame leaves: the crossings that are marked, and the walkers that are drawn.
use mathlib.Core.List.Permᴰ
use rami_ledger.Prelude.{
  ℕ, zero, suc, ◌≤◌, ◌≡◌, Bool, true, false, not, ◌||◌, Option, none, some, List, [], ◌∷◌, ◌==◌,
  take, map, length, All, length-take, sort, sort-Permᴰ, IsOrdered, IsOrder, sort-IsOrdered,
  All-Permᴰ, if◌then◌else◌, arith,
}
use rami_ledger.Vida.Rutas.{Numeros}
use rami_ledger.Vida.Rutas.Guardadas.{Guardado}
use rami_ledger.Vida.Cuadro.{
  Punta, Vistos, Mirada, Trabajo, EstadoVida, cuadrado, zonas_cerca, tras_trozo, trabaja,
  trabajo_paso, empieza_cuadro, borra_marcas, mas_cerca_de, cierra_cuadro, observa, con_gente,
  cuadro,
}
use rami_ledger.Vida.Cuadro.Marcas.{Marcado, Cubierto, sin_marcas-Marcado, Vale, street-Vale}

All-take {ℓ κ} : {A : Type ℓ} (P : A → Type κ) (k : ℕ) (xs : List A) → All P xs → All P (take k xs)
All-take P zero xs h = tt
All-take P (suc k) [] h = tt
All-take P (suc k) (x ∷ xs) h = (h.0, All-take P k xs h.1)

take-IsOrdered {ℓ} :
    {A : Type ℓ} (before : A → A → Bool) (k : ℕ) (xs : List A)
    → IsOrdered before xs
    → IsOrdered before (take k xs)
take-IsOrdered before zero xs h = tt
take-IsOrdered before (suc k) [] h = tt
take-IsOrdered before (suc k) (x ∷ xs) h =
    (All-take (λ y. before y x ≡ false) k xs h.0, take-IsOrdered before k xs h.1)

module _ (n : Numeros) (Linea : Type 0) (punto_ruta : Linea → n.N → Punta n) (W : Type 0)
    (fases : Trabajo n Linea punto_ruta W → Bool × Trabajo n Linea punto_ruta W) where
  abbrev Estado : Type 0
  Estado = EstadoVida n Linea punto_ruta W

  -- Behind a frame: the crossings that are marked are those of the list, and the walkers that are drawn
  -- are near, as many as the quality allows at most, and none of them before a nearer one.
  pub record Dibujado (mi : Mirada n Linea punto_ruta) (s : Estado) : Type 0 where
    pub marcado : Marcado s.ocu s.marcadas
    pub pocos : length s.dibujados ≤ mi.tope.tn
    pub cerca : All (λ q. n.menor q.d2 (cuadrado n mi.tope.tr) ≡ true) s.dibujados
    pub en_orden : IsOrdered (mas_cerca_de n Linea punto_ruta W fases) s.dibujados

  by_distance : IsOrder n.menor → IsOrder (mas_cerca_de n Linea punto_ruta W fases)
  by_distance o = record { asym = o.asym; trans = o.trans }

  Cubre : Estado → Type 0
  Cubre s = Cubierto s.ocu s.marcadas

  worked-Cubre :
      (q : Bool × Trabajo n Linea punto_ruta W) (s : Estado)
      → Cubre s
      → Cubre (tras_trozo n Linea punto_ruta W fases q s)
  unfolding Cubre
  worked-Cubre (true, j) s h = h
  worked-Cubre (false, j) s h = h

  work-Cubre :
      (o : Option (Trabajo n Linea punto_ruta W)) (s : Estado)
      → Cubre s
      → Cubre (trabaja n Linea punto_ruta W fases o s)
  unfolding Cubre
  work-Cubre none s h = h
  work-Cubre (some j) s h = worked-Cubre (trabajo_paso n Linea punto_ruta W fases j s) s h

  closed-Dibujado :
      (mi : Mirada n Linea punto_ruta) (s : Estado) (q : Guardado n Linea s.pob.m × Vistos n)
      → IsOrder n.menor
      → Vale n (cuadrado n mi.tope.tr) q.1
      → Dibujado mi (cierra_cuadro n Linea punto_ruta W fases mi s q)
  closed-Dibujado mi s q o h =
      let nearer = mas_cerca_de n Linea punto_ruta W fases in
      let sorted = sort nearer q.1.lista in
      record {
        marcado = h.marcado;
        pocos = omega (arith, length-take {0} mi.tope.tn sorted);
        cerca =
            All-take (λ p. n.menor p.d2 (cuadrado n mi.tope.tr) ≡ true) mi.tope.tn sorted
              (All-Permᴰ (λ p. n.menor p.d2 (cuadrado n mi.tope.tr) ≡ true)
                (Permᴰ.symm (sort-Permᴰ nearer q.1.lista)) h.cerca);
        en_orden =
            take-IsOrdered nearer mi.tope.tn sorted (sort-IsOrdered (by_distance o) q.1.lista);
      }

  people-Dibujado :
      (mi : Mirada n Linea punto_ruta) (tarde : ℕ → Bool) (s : Estado)
      → IsOrder n.menor
      → Marcado s.ocu s.marcadas
      → Dibujado mi (con_gente n Linea punto_ruta W fases mi tarde s)
  people-Dibujado mi tarde s o h = by_ready (not s.hecho || mi.tope.tn == 0)
    where
      seen : Guardado n Linea s.pob.m × Vistos n
      seen = observa n Linea punto_ruta W fases mi tarde s

      all_near : Vale n (cuadrado n mi.tope.tr) seen.1
      all_near =
          street-Vale n Linea punto_ruta s.pob.m mi s.hora tarde
            (map (λ z. z.horas) (zonas_cerca n mi.foco s.pob.zonas)) _
            (record { marcado = h; cerca = tt })

      by_ready :
          (b : Bool)
          → Dibujado mi (
              if b
              then record s { activos = 0; dibujados = [] }
              else cierra_cuadro n Linea punto_ruta W fases mi s seen)
      by_ready true = record { marcado = h; pocos = omega arith; cerca = tt; en_orden = tt }
      by_ready false = closed-Dibujado mi s seen o all_near

  -- Behind a frame of any state in which no crossing is marked but those of its list, whatever work is
  -- under way, the crossings that are marked are those of the new list, and the walkers that are drawn
  -- are within the distance, as many as the quality allows at most, and in the order of their distances;
  -- the numbers are any with an order that is asymmetric and negatively transitive.
  pub cuadro-Dibujado :
      (dt ahora : n.N) (hour : Option n.N) (mi : Mirada n Linea punto_ruta) (tarde : ℕ → Bool)
      (s : Estado)
      → IsOrder n.menor
      → Cubierto s.ocu s.marcadas
      → Dibujado mi (cuadro n Linea punto_ruta W fases dt ahora hour mi tarde s)
  unfolding cuadro Cubre
  cuadro-Dibujado dt ahora hour mi tarde s o h =
      let t : Estado = empieza_cuadro n Linea punto_ruta W fases dt ahora hour s in
      let u : Estado = trabaja n Linea punto_ruta W fases t.trabajo t in
      people-Dibujado mi tarde (borra_marcas n Linea punto_ruta W fases u) o
        (sin_marcas-Marcado u.marcadas u.ocu (work-Cubre t.trabajo t h))
