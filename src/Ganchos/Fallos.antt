-- ===== src/Ganchos/Fallos.antt =====
-- The failures that `extFallos` keeps.
use rami_ledger.Prelude.{
  Bool, true, false, ◌≡◌, ◌≢◌, refl, sym, ◌∙◌, ap, inl, inr, Option, none, some, List, [], ◌∷◌,
  Bool-cases, ◌==◌, ◌&&◌, ==_iff,
}
use rami_ledger.Ganchos.{
  Texto, igual, Salida, devuelve, lanza, Gancho, Extension, Mundo, fallo_de, es_vacio, clave, anota,
  llama, ext_llama, emitir,
}

and_true : (a b : Bool) → (a && b) ≡ true → (a ≡ true) × (b ≡ true)
and_true true b e = (refl, e)
and_true false b e = cc

igual_eq : (a b : Texto) → igual a b ≡ true → a ≡ b
igual_eq [] [] e = refl
igual_eq [] (y ∷ b) e = cc
igual_eq (x ∷ a) [] e = cc
igual_eq (x ∷ a) (y ∷ b) e =
    let (same, rest) = and_true (x == y) (igual a b) e in
    cc ((==_iff x y).0 same, igual_eq a b rest)

es_vacio_nil : (m : Texto) → es_vacio m ≡ true → m ≡ []
es_vacio_nil [] e = refl
es_vacio_nil (x ∷ m) e = cc

add_keeps :
    (fs : List (Texto × Texto)) (k key m : Texto)
    → fallo_de fs k ≢ []
    → es_vacio (fallo_de fs key) ≡ true
    → fallo_de ((key, m) ∷ fs) k ≡ fallo_de fs k
add_keeps fs k key m h e = elim (Bool-cases (igual key k)) [
  | inl same ↦
      absurd (h (ap (fallo_de fs) (sym (igual_eq key k same)) ∙ es_vacio_nil (fallo_de fs key) e))
  | inr apart ↦ rw apart refl
]

anota_keeps :
    {W V : Type 0} (k key : Texto) (fs : List (Texto × Texto)) (r : Salida V × W)
    → fallo_de fs k ≢ []
    → fallo_de (anota key fs r).1.fallos k ≡ fallo_de fs k
anota_keeps k key fs (devuelve v, w) h = refl
anota_keeps k key fs (lanza m, w) h = elim (Bool-cases (es_vacio (fallo_de fs key))) [
  | inl e ↦ rw e (add_keeps fs k key m h e)
  | inr e ↦ rw e refl
]

module _ {W A V : Type 0} (gancho : Texto) (args : A) where
  llama_keeps :
      (k key : Texto) (s : Mundo W) (o : Option (Gancho W A V))
      → fallo_de s.fallos k ≢ []
      → fallo_de (llama key args s o).1.fallos k ≡ fallo_de s.fallos k
  llama_keeps k key s none h = refl
  llama_keeps k key s (some f) h = anota_keeps k key s.fallos (f args s.w) h

  -- A failure that is written down stays as it is, whatever the extensions throw later: of each
  -- extension and hook the first failure is kept.
  pub emitir_keeps :
      (ext : List (Extension W A V)) (s : Mundo W) (k : Texto)
      → fallo_de s.fallos k ≢ []
      → fallo_de (emitir ext gancho args s).fallos k ≡ fallo_de s.fallos k
  unfolding emitir ext_llama
  emitir_keeps [] s k h = refl
  emitir_keeps (e ∷ ext) s k h =
      let one = llama_keeps k (clave e.nombre gancho) s (e.ganchos gancho) h in
      emitir_keeps ext (llama (clave e.nombre gancho) args s (e.ganchos gancho)).1 k
        (λ n. h (sym one ∙ n))
      ∙ one
