-- ===== src/Memoria/Encargos.antt =====
-- The orders that `encargos` lists count every company once for each input that nobody offers.
use mathlib.Core.List.{Permᴰ}
use rami_ledger.Prelude.{
  Bool, ℕ, ◌≡◌, refl, sym, ◌∙◌, ap, List, [], ◌∷◌, map, arith, ◌==◌, if◌then◌else◌,
}
use rami_ledger.Memoria.{
  Parcela, Vista, Cuenta, insumos_de, recorre, Encargo, ficha, si_huecos, encargos, faltan_antes,
  encargo_antes,
}
use rami_ledger.Memoria.Cuentas.{
  suma, veces, en_distrito, necesita, total, en_distrito-recorre, faltan_en,
}

suma-Permᴰ : (h : ℕ) {xs ys : List (ℕ × ℕ)} → Permᴰ xs ys → suma h xs ≡ suma h ys
suma-Permᴰ h Permᴰ.nil = refl
suma-Permᴰ h (Permᴰ.cons e p) =
    cc (ap (λ (f : ℕ × ℕ). if f.0 == h then f.1 else 0) e, suma-Permᴰ h p)
suma-Permᴰ h (Permᴰ.swap {l} e f) =
    let count = λ (x : ℕ × ℕ). if x.0 == h then x.1 else 0 in
    let c1 = ap count e in let c2 = ap count f in omega (arith, c1, c2)
suma-Permᴰ h (Permᴰ.trans p q) = suma-Permᴰ h p ∙ suma-Permᴰ h q

faltan_en-Permᴰ :
    (di h : ℕ) {xs ys : List Encargo} → Permᴰ xs ys → faltan_en di h xs ≡ faltan_en di h ys
faltan_en-Permᴰ di h Permᴰ.nil = refl
faltan_en-Permᴰ di h (Permᴰ.cons e p) =
    let c1 = ap (λ (x : Encargo). if x.distrito == di then suma h x.faltan else 0) e in
    omega (arith, c1, faltan_en-Permᴰ di h p)
faltan_en-Permᴰ di h (Permᴰ.swap e f) =
    let count = λ (x : Encargo). if x.distrito == di then suma h x.faltan else 0 in
    let c1 = ap count e in let c2 = ap count f in omega (arith, c1, c2)
faltan_en-Permᴰ di h (Permᴰ.trans p q) = faltan_en-Permᴰ di h p ∙ faltan_en-Permᴰ di h q

faltan_en-map :
    (of : (ℕ × ℕ → ℕ × ℕ → Bool) → List (ℕ × ℕ) → List (ℕ × ℕ))
    (ordena : (Encargo → Encargo → Bool) → List Encargo → List Encargo) (d : Vista) (di h : ℕ)
    (es : List Cuenta)
    → ((xs : List (ℕ × ℕ)) → Permᴰ (of faltan_antes xs) xs)
    → faltan_en di h (map (ficha of ordena d) es) ≡ en_distrito di h es
faltan_en-map of ordena d di h [] perm = refl
faltan_en-map of ordena d di h (e ∷ es) perm = cc (
  ap (λ (n : ℕ). if e.distrito == di then n else 0) (suma-Permᴰ h (perm e.faltan)),
  faltan_en-map of ordena d di h es perm,
)

veces_nil : (h : ℕ) (hs : List ℕ) → veces [] h hs ≡ 0
veces_nil h [] = refl
veces_nil h (x ∷ hs) = omega (arith, veces_nil h hs)

-- If every sector is offered by somebody, no parcel needs anything.
nobody : (d : Vista) (di h : ℕ) (ps : List Parcela) → [] ≡ d.huecos → total (necesita d di h) ps ≡ 0
nobody d di h [] e = refl
nobody d di h (p ∷ ps) e =
    let hs = insumos_de d.sectors p.kind in
    let none_here : veces d.huecos h hs ≡ 0 =
      ap (λ (l : List (ℕ × ℕ)). veces l h hs) (sym e) ∙ veces_nil h hs in
    let rest = nobody d di h ps e in ground arith

choose :
    (d : Vista) (di h : ℕ) (huecos : List (ℕ × ℕ)) (lista : List Encargo)
    → huecos ≡ d.huecos
    → faltan_en di h lista ≡ total (necesita d di h) d.parcels
    → faltan_en di h (si_huecos huecos lista) ≡ total (necesita d di h) d.parcels
choose d di h [] lista e same = sym (nobody d di h d.parcels e)
choose d di h (x ∷ xs) lista e same = same

-- In the orders of a district the count of a sector is the sum, over the parcels of the district that
-- are not pending, of how often the sector stands among their inputs, if nobody offers it, whatever
-- permutations the two sorts make.
pub encargos-total :
    (of : (ℕ × ℕ → ℕ × ℕ → Bool) → List (ℕ × ℕ) → List (ℕ × ℕ))
    (ordena : (Encargo → Encargo → Bool) → List Encargo → List Encargo) (d : Vista) (di h : ℕ)
    → ((ys : List (ℕ × ℕ)) → Permᴰ (of faltan_antes ys) ys)
    → ((ys : List Encargo) → Permᴰ (ordena encargo_antes ys) ys)
    → faltan_en di h (encargos of ordena d) ≡ total (necesita d di h) d.parcels
unfolding encargos
encargos-total of ordena d di h perm_of perm =
    let cuentas = recorre d d.parcels [] in
    choose d di h d.huecos (ordena encargo_antes (map (ficha of ordena d) cuentas)) refl (
      faltan_en-Permᴰ di h (perm (map (ficha of ordena d) cuentas))
      ∙ faltan_en-map of ordena d di h cuentas perm_of
      ∙ en_distrito-recorre d di h d.parcels []
      ∙ omega arith)
