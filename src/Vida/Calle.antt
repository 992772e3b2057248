-- ===== src/Vida/Calle.antt =====
-- Who has left home within a stretch of time: `enVentana`, with its binary search.
pub mod Ventanas
pub mod Tests
use rami_ledger.Prelude.{
  ℕ, zero, suc, ◌+◌, ◌/◌, Bool, true, false, Option, none, some, List, [], ◌∷◌, ltb, length,
  get_elem?, drop, if◌then◌else◌,
}
use rami_ledger.Vida.Diario.{dia}
use rami_ledger.Vida.Rutas.{Numeros}

-- A zone: its trips, and the times of the trips once they are there.
pub record ZonaHoras (V : Type 0) : Type 0 where
  pub t0s : Option (List ℕ)
  pub viajes : List V

module _ (n : Numeros) where
  -- `((T % DIA) + DIA) % DIA`
  abbrev pub en_dia : n.N → n.N
  en_dia t = n.resto (n.mas (n.resto t (n.de dia)) (n.de dia)) (n.de dia)

  -- `Z.t0s[i] < a`
  abbrev pub sale_antes : n.N → Option ℕ → Bool
  sale_antes a none = false
  sale_antes a (some t) = n.menor (n.de t) a

  -- The binary search, on fuel.
  abbrev pub mitad : n.N → List ℕ → ℕ × ℕ → ℕ × ℕ
  mitad a ts (lo, hi) =
      let mid = (lo + hi) / 2 in
      if sale_antes a (get_elem? ts mid) then (suc mid, hi) else (lo, mid)

  abbrev pub busca_en : ℕ → n.N → List ℕ → ℕ × ℕ → ℕ
  busca_en zero a ts (lo, hi) = lo
  busca_en (suc g) a ts (lo, hi) =
      let rest = busca_en g a ts (mitad a ts (lo, hi)) in if ltb lo hi then rest else lo

  -- The stretches of a day: one, or two around midnight.
  abbrev pub rangos : n.N → n.N → List (n.N × n.N)
  rangos t ancho =
      let d = n.menos t ancho in
      if n.alcanza d (n.de 0)
      then (d, t) ∷ []
      else (n.de 0, t) ∷ (n.mas d (n.de dia), n.de dia) ∷ []

  module _ {V S : Type 0} (cada : ZonaHoras V → V → S → S) where
    -- The loop from the index that was found.
    abbrev pub hasta_hora : n.N → ZonaHoras V → List ℕ → List V → S → S
    hasta_hora b z [] vs s = s
    hasta_hora b z (t ∷ ts) [] s = s
    hasta_hora b z (t ∷ ts) (v ∷ vs) s =
        let rest = hasta_hora b z ts vs (cada z v s) in if n.alcanza b (n.de t) then rest else s

    abbrev pub un_rango : ZonaHoras V → List ℕ → n.N × n.N → S → S
    un_rango z ts (a, b) s =
        let lo = busca_en (length ts) a ts (0, length ts) in
        hasta_hora b z (drop lo ts) (drop lo z.viajes) s

    abbrev pub cada_rango : ZonaHoras V → List ℕ → List (n.N × n.N) → S → S
    cada_rango z ts [] s = s
    cada_rango z ts (r ∷ rs) s = cada_rango z ts rs (un_rango z ts r s)

    abbrev pub una_zona : ZonaHoras V → Option (List ℕ) → List (n.N × n.N) → S → S
    una_zona z none rs s = s
    una_zona z (some []) rs s = s
    una_zona z (some (t ∷ ts)) rs s = cada_rango z (t ∷ ts) rs s

    abbrev pub cada_zona : List (ZonaHoras V) → List (n.N × n.N) → S → S
    cada_zona [] rs s = s
    cada_zona (z ∷ zs) rs s = cada_zona zs rs (una_zona z z.t0s rs s)

    -- `enVentana`
    unfoldable pub en_ventana : n.N → n.N → List (ZonaHoras V) → S → S
    en_ventana t ancho zs s = cada_zona zs (rangos (en_dia t) ancho) s
