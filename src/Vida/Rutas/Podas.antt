-- ===== src/Vida/Rutas/Podas.antt =====
-- `poda` keeps what is in use, and keeps it right.
use rami_ledger.Prelude.{
  ℕ, ◌≡◌, refl, sym, ◌∙◌, ap, inl, inr, Bool, true, false, Option, none, List, [], ◌∷◌, ◌==◌,
  ==_iff, if◌then◌else◌, Bool-cases, All, Apart,
}
use rami_ledger.Vida.Rutas.{Numeros, Ruta, Calles}
use rami_ledger.Vida.Rutas.Guardadas.{busca, Guardado, es_reciente, recientes, poda}
use rami_ledger.Vida.Rutas.Posiciones.{IsGuardado}

module _ (n : Numeros) (Linea : Type 0) (m : Calles n Linea) where
  abbrev Caminos : Type 0
  Caminos = List (ℕ × Option (Ruta n Linea))

  module _ (ahora : ℕ) (uso : ℕ → Option ℕ) where
    abbrev kept : Caminos → Caminos
    kept = recientes n Linea m ahora uso

    abbrev recent : ℕ → Bool
    recent k = es_reciente n Linea m ahora (uso k)

    All-recientes :
        (P : ℕ × Option (Ruta n Linea) → Type 0) (xs : Caminos) → All P xs → All P (kept xs)
    All-recientes P [] h = tt
    All-recientes P ((k, r) ∷ xs) h = elim (Bool-cases (recent k)) [
      | inl e ↦ rw e (h.0, All-recientes P xs h.1)
      | inr e ↦ rw e (All-recientes P xs h.1)
    ]

    Apart-recientes :
        (xs : Caminos)
        → Apart (λ (e : ℕ × Option (Ruta n Linea)). e.0) xs
        → Apart (λ (e : ℕ × Option (Ruta n Linea)). e.0) (kept xs)
    Apart-recientes [] h = tt
    Apart-recientes ((k, r) ∷ xs) h = elim (Bool-cases (recent k)) [
      | inl e ↦ rw e (All-recientes _ xs h.0, Apart-recientes xs h.1)
      | inr e ↦ rw e (Apart-recientes xs h.1)
    ]

    -- Only what is in use is found, and as it was.
    busca-recientes :
        (k : ℕ) (xs : Caminos)
        → Apart (λ (e : ℕ × Option (Ruta n Linea)). e.0) xs
        → busca k (kept xs) ≡ (if recent k then busca k xs else none)
    busca-recientes k [] h = elim (Bool-cases (recent k)) [ inl e ↦ rw e refl | inr e ↦ rw e refl ]
    busca-recientes k ((j, r) ∷ xs) h = elim (Bool-cases (j == k)) [
      | inl same ↦ elim (Bool-cases (recent k)) [
        | inl e ↦
            let also : recent j ≡ true = ap recent ((==_iff j k).0 same) ∙ e in
            rw (also, same, e) refl
        | inr e ↦
            let also : recent j ≡ false = ap recent ((==_iff j k).0 same) ∙ e in
            rw (also, e) (rw e at (busca-recientes k xs h.1))
      ]
      | inr other ↦ elim (Bool-cases (recent j)) [
        | inl e ↦ rw (e, other) (busca-recientes k xs h.1)
        | inr e ↦ rw (e, other) (busca-recientes k xs h.1)
      ]
    ]

  module _ (ids : (k : ℕ) → (m.viajes k).id ≡ k) where
    -- The ways that are kept are the ones used in the last frames, `PODA_CUADROS` of them, and they
    -- are found as before; what is kept stays right and counted.
    pub poda-IsGuardado :
        (s : Guardado n Linea m)
        → IsGuardado n Linea m ids s
        → IsGuardado n Linea m ids (poda n Linea m s)
          × ((k : ℕ)
              → busca k (poda n Linea m s).cache
                ≡ (if es_reciente n Linea m s.n_cuadro (s.uso k) then busca k s.cache else none))
    unfolding poda
    poda-IsGuardado s h = (
      record {
        right = λ k r e. elim (Bool-cases (recent s.n_cuadro s.uso k)) [
          | inl now ↦
              h.right k r (rw now at (sym (busca-recientes s.n_cuadro s.uso k s.cache h.apart)) ∙ e)
          | inr old ↦ cc (rw old at (sym (busca-recientes s.n_cuadro s.uso k s.cache h.apart)), e)
        ];
        known = h.known;
        count = refl;
        apart = Apart-recientes s.n_cuadro s.uso s.cache h.apart;
      },
      λ k. busca-recientes s.n_cuadro s.uso k s.cache h.apart,
    )
