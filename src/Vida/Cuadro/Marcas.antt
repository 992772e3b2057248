-- ===== src/Vida/Cuadro/Marcas.antt =====
-- What holds of every frame: the marks of the crossings, and who is near.
use rami_ledger.Prelude.{
  ℕ, suc, ◌≡◌, refl, sym, ap, ◌∙◌, Bool, true, false, not, ◌&&◌, Option, none, some, List, [], ◌∷◌,
  ◌++◌, ◌==◌, drop, length, All, if◌then◌else◌, arith,
}
use rami_ledger.Catastro.{es_visto}
use rami_ledger.Vida.Diario.{Viaje}
use rami_ledger.Vida.Rutas.{Numeros, Ruta, Calles}
use rami_ledger.Vida.Rutas.Guardadas.{Guardado, ruta_de, transcurrido, cambia_en}
use rami_ledger.Vida.Calle.{
  ZonaHoras, busca_en, rangos, en_dia, hasta_hora, cada_rango, una_zona, cada_zona, en_ventana,
}
use rami_ledger.Vida.Cuadro.{
  desmarca, sin_marcas, Punta, Peaton, Vistos, pisa, marca_una, marca_todas, con_marcas, Mirada,
  si_camina, de_viaje, en_la_calle, apunta_peaton, en_camino, con_ruta, ve_peaton, cuadrado,
}

-- The marks are those of the list.
abbrev pub Marcado : Option (ℕ → Bool) → List ℕ → Type 0
Marcado none ms = ms ≡ []
Marcado (some g) ms = (k : ℕ) → g k ≡ es_visto k ms

-- No crossing is marked but those of the list.
abbrev pub Cubierto : Option (ℕ → Bool) → List ℕ → Type 0
Cubierto none ms = Unit
Cubierto (some g) ms = (k : ℕ) → g k ≡ true → es_visto k ms ≡ true

cleared :
    (ms : List ℕ) (g : ℕ → Bool) (k : ℕ) → desmarca ms g k ≡ (if es_visto k ms then false else g k)
cleared [] g k = refl
cleared (m ∷ ms) g k = cleared ms (cambia_en g m false) k ∙ ground arith

pub sin_marcas-Marcado :
    (ms : List ℕ) (o : Option (ℕ → Bool)) → Cubierto o ms → Marcado (sin_marcas ms o) []
sin_marcas-Marcado ms none h = refl
sin_marcas-Marcado ms (some g) h = λ k. cleared ms g k ∙ by_seen (es_visto k ms) (g k) (h k)
  where
    by_seen : (a b : Bool) → (b ≡ true → a ≡ true) → (if a then false else b) ≡ false
    by_seen true b i = refl
    by_seen false true i = sym (i refl)
    by_seen false false i = refl

seen_append :
    (k j : ℕ) (ms : List ℕ) → es_visto k (ms ++ (j ∷ [])) ≡ (if j == k then true else es_visto k ms)
seen_append k j [] = ground arith
seen_append k j (m ∷ ms) = rw (seen_append k j ms) (ground arith)

module _ (n : Numeros) where
  one_mark :
      (b : Bool) (j : ℕ) (g : ℕ → Bool) (ms : List ℕ)
      → Marcado (some g) ms
      → let r : (ℕ → Bool) × List ℕ = if b then (cambia_en g j true, ms ++ (j ∷ [])) else (g, ms) in
        Marcado (some r.0) r.1
  one_mark true j g ms h k = ap (λ b. if j == k then true else b) (h k) ∙ sym (seen_append k j ms)
  one_mark false j g ms h k = h k

  all_marks :
      (el : n.N) (cs : List (ℕ × (n.N × n.N))) (g : ℕ → Bool) (ms : List ℕ)
      → Marcado (some g) ms
      → Marcado (some (marca_todas n el cs (g, ms)).0) (marca_todas n el cs (g, ms)).1
  all_marks el [] g ms h = h
  all_marks el ((j, ab) ∷ cs) g ms h =
      let r = marca_una n el (j, ab) (g, ms) in
      all_marks el cs r.0 r.1 (one_mark (pisa n el ab && not (g j)) j g ms h)

  -- Whatever keeps a property, for each of the trips of a window, keeps it for them all.
  module _ {V S : Type 0} (P : S → Type 0) (cada : ZonaHoras V → V → S → S)
      (keeps : (z : ZonaHoras V) (v : V) (s : S) → P s → P (cada z v s)) where
    keeps_until :
        (b : n.N) (z : ZonaHoras V) (ts : List ℕ) (vs : List V) (s : S)
        → P s
        → P (hasta_hora n cada b z ts vs s)
    keeps_until b z [] vs s h = h
    keeps_until b z (t ∷ ts) [] s h = h
    keeps_until b z (t ∷ ts) (v ∷ vs) s h =
        by_hour (n.alcanza b (n.de t)) (keeps_until b z ts vs (cada z v s) (keeps z v s h))
      where
        by_hour :
            (c : Bool)
            → P (hasta_hora n cada b z ts vs (cada z v s))
            → P (if c then hasta_hora n cada b z ts vs (cada z v s) else s)
        by_hour true k = k
        by_hour false k = h

    keeps_ranges :
        (z : ZonaHoras V) (ts : List ℕ) (rs : List (n.N × n.N)) (s : S)
        → P s
        → P (cada_rango n cada z ts rs s)
    keeps_ranges z ts [] s h = h
    keeps_ranges z ts ((a, b) ∷ rs) s h =
        let lo = busca_en n (length ts) a ts (0, length ts) in
        keeps_ranges z ts rs _ (keeps_until b z (drop lo ts) (drop lo z.viajes) s h)

    keeps_zone :
        (z : ZonaHoras V) (o : Option (List ℕ)) (rs : List (n.N × n.N)) (s : S)
        → P s
        → P (una_zona n cada z o rs s)
    keeps_zone z none rs s h = h
    keeps_zone z (some []) rs s h = h
    keeps_zone z (some (t ∷ ts)) rs s h = keeps_ranges z (t ∷ ts) rs s h

    keeps_zones :
        (zs : List (ZonaHoras V)) (rs : List (n.N × n.N)) (s : S)
        → P s
        → P (cada_zona n cada zs rs s)
    keeps_zones [] rs s h = h
    keeps_zones (z ∷ zs) rs s h = keeps_zones zs rs _ (keeps_zone z z.t0s rs s h)

    pub en_ventana_keeps :
        (t ancho : n.N) (zs : List (ZonaHoras V)) (s : S) → P s → P (en_ventana n cada t ancho zs s)
    unfolding en_ventana
    en_ventana_keeps t ancho zs s h = keeps_zones zs (rangos n (en_dia n t) ancho) s h

  -- The marks are those of the list, and the walkers of the list are near.
  pub record Vale (r2 : n.N) (s : Vistos n) : Type 0 where
    pub marcado : Marcado s.ocu s.marcadas
    pub cerca : All (λ q. n.menor q.d2 r2 ≡ true) s.lista

  All-snoc :
      (P : Peaton n → Type 0) (qs : List (Peaton n)) (q : Peaton n)
      → All P qs
      → P q
      → All P (qs ++ (q ∷ []))
  All-snoc P [] q h p = (p, tt)
  All-snoc P (x ∷ qs) q h p = (h.0, All-snoc P qs q h.1 p)

  module _ (Linea : Type 0) (punto_ruta : Linea → n.N → Punta n) (m : Calles n Linea) where
    noted-Vale :
        (r2 : n.N) (q : Peaton n) (s : Vistos n)
        → Vale r2 s
        → Vale r2 (apunta_peaton n Linea punto_ruta m r2 q s)
    noted-Vale r2 q s h = by_near (n.menor q.d2 r2) refl
      where
        by_near :
            (b : Bool)
            → n.menor q.d2 r2 ≡ b
            → Vale r2 (if b then record s { lista = s.lista ++ (q ∷ []) } else s)
        by_near true e = record {
          marcado = h.marcado;
          cerca = All-snoc (λ p. n.menor p.d2 r2 ≡ true) s.lista q h.cerca e;
        }
        by_near false e = h

    marked-Vale :
        (r2 el : n.N) (cs : List (ℕ × (n.N × n.N))) (o : Option (ℕ → Bool)) (s : Vistos n)
        → Vale r2 (record s { ocu = o })
        → Vale r2 (con_marcas n el cs o (record s { ocu = o }))
    marked-Vale r2 el cs none s h = h
    marked-Vale r2 el cs (some g) s h = record {
      marcado = all_marks el cs g s.marcadas h.marcado;
      cerca = h.cerca;
    }

    way-Vale :
        (mi : Mirada n Linea punto_ruta) (v : Viaje) (el : n.N) (r : Ruta n Linea) (s : Vistos n)
        → Vale (cuadrado n mi.tope.tr) s
        → Vale (cuadrado n mi.tope.tr) (en_camino n Linea punto_ruta m mi v el r s)
    way-Vale mi v el r s h = noted-Vale (cuadrado n mi.tope.tr) _ _ (
        marked-Vale (cuadrado n mi.tope.tr) el r.ocupa s.ocu (record s { activos = suc s.activos })
          (record { marcado = h.marcado; cerca = h.cerca }))

    abbrev pub Valen : n.N → Guardado n Linea m × Vistos n → Type 0
    Valen r2 q = Vale r2 q.1

    seen-Vale :
        (mi : Mirada n Linea punto_ruta) (v : Viaje) (el : n.N)
        (q : Option (Option (Ruta n Linea)) × Guardado n Linea m) (s : Vistos n)
        → Vale (cuadrado n mi.tope.tr) s
        → Valen (cuadrado n mi.tope.tr) (con_ruta n Linea punto_ruta m mi v el q s)
    seen-Vale mi v el (none, w) s h = h
    seen-Vale mi v el (some none, w) s h = h
    seen-Vale mi v el (some (some r), w) s h = way-Vale mi v el r s h

    walks-Vale :
        (mi : Mirada n Linea punto_ruta) (k : ℕ) (q : Option n.N × Guardado n Linea m)
        (s : Vistos n)
        → Vale (cuadrado n mi.tope.tr) s
        → Valen
            (cuadrado n mi.tope.tr)
            (si_camina n Linea punto_ruta m (ve_peaton n Linea punto_ruta m mi) k q s)
    walks-Vale mi k (none, w) s h = h
    walks-Vale mi k (some el, w) s h =
        seen-Vale mi (m.viajes k) el (ruta_de n Linea m (m.viajes k) false false w) s h

    pub street-Vale :
        (mi : Mirada n Linea punto_ruta) (t : n.N) (tarde : ℕ → Bool) (zs : List (ZonaHoras ℕ))
        (q : Guardado n Linea m × Vistos n)
        → Valen (cuadrado n mi.tope.tr) q
        → Valen
            (cuadrado n mi.tope.tr)
            (en_la_calle n Linea punto_ruta m (ve_peaton n Linea punto_ruta m mi) t true tarde zs q)
    street-Vale mi t tarde zs q h =
        en_ventana_keeps (Valen (cuadrado n mi.tope.tr))
          (de_viaje n Linea punto_ruta m (ve_peaton n Linea punto_ruta m mi) t true tarde)
          (λ z k s g.
            walks-Vale mi k (transcurrido n Linea m (m.viajes k) t true (tarde k) s.0) s.1 g)
          t m.dmax zs q h
