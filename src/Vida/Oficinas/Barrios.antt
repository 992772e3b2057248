-- ===== src/Vida/Oficinas/Barrios.antt =====
-- The zones of offices: every door in one of them, and the sums of the floors.
use Prim.Native.Nat.{max}
use mathlib.Core.List.{Permᴰ, append_assoc, append-nil}
use mathlib.Core.List.Permᴰ
use rami_ledger.Prelude.{
  ℕ, ◌+◌, ◌≤◌, ◌≡◌, ◌≢◌, refl, sym, ap, inl, inr, false, List, [], ◌∷◌, ◌++◌, arith, ◌==◌, ==_iff,
  ltb, Bool-cases, All, All-append, All-Permᴰ, length, sort-Permᴰ, Apart, Ascends, sort-Ascends,
}
use rami_ledger.Vida.Diario.{Acceso}
use rami_ledger.Vida.Oficinas.{
  Barrio, con_portal, barrio_nuevo, reune, reune_todos, zonas_de_oficina,
}

-- All the doors.
abbrev pub doors : List Barrio → List Acceso
doors [] = []
doors (z ∷ zs) = z.lista ++ doors zs

doors-Permᴰ : {ys zs : List Barrio} → Permᴰ ys zs → Permᴰ (doors ys) (doors zs)
doors-Permᴰ Permᴰ.nil = Permᴰ.refl _
doors-Permᴰ {ys = y ∷ ys} (Permᴰ.cons e p) = rw (sym e) (Permᴰ.append_left y.lista (doors-Permᴰ p))
doors-Permᴰ {ys = x ∷ y ∷ ys} (Permᴰ.swap e f) =
    rw
      (
        sym e,
        sym f,
        sym (append_assoc x.lista y.lista (doors ys)),
        sym (append_assoc y.lista x.lista (doors ys)),
      )
      (Permᴰ.append_right (doors ys) (Permᴰ.append_comm x.lista y.lista))
doors-Permᴰ (Permᴰ.trans p q) = Permᴰ.trans (doors-Permᴰ p) (doors-Permᴰ q)

not_same : (d e : ℕ) → (e == d) ≡ false → d ≢ e
not_same d e h c = ground arith

module _ (alto : Acceso → ℕ) where
  -- The sums of the floors, from `low` on, and the last of them.
  abbrev pub sums : ℕ → List Acceso → List ℕ
  sums low [] = []
  sums low (a ∷ as') = (low + max 1 (alto a)) ∷ sums (low + max 1 (alto a)) as'

  abbrev pub floors : ℕ → List Acceso → ℕ
  floors low [] = low
  floors low (a ∷ as') = floors (low + max 1 (alto a)) as'

  pub record IsBarrio (z : Barrio) : Type 0 where
    pub here : All (λ (a : Acceso). a.zona ≡ z.zona) z.lista
    pub acum : z.acum ≡ sums 0 z.lista
    pub cap : z.cap ≡ floors 0 z.lista
    pub some_door : 1 ≤ length z.lista

  sums-append :
      (low : ℕ) (as' : List Acceso) (a : Acceso)
      → sums low (as' ++ (a ∷ [])) ≡ sums low as' ++ ((floors low as' + max 1 (alto a)) ∷ [])
  sums-append low [] a = refl
  sums-append low (b ∷ as') a =
      ap (◌∷◌ (low + max 1 (alto b))) (sums-append (low + max 1 (alto b)) as' a)

  floors-append :
      (low : ℕ) (as' : List Acceso) (a : Acceso)
      → floors low (as' ++ (a ∷ [])) ≡ floors low as' + max 1 (alto a)
  floors-append low [] a = refl
  floors-append low (b ∷ as') a = floors-append (low + max 1 (alto b)) as' a

  nonempty : (as' : List Acceso) (a : Acceso) → 1 ≤ length (as' ++ (a ∷ []))
  nonempty [] a = omega arith
  nonempty (b ∷ as') a = omega arith

  con_portal-IsBarrio :
      (a : Acceso) (z : Barrio)
      → z.zona ≡ a.zona
      → IsBarrio z
      → IsBarrio (con_portal a (max 1 (alto a)) z)
  con_portal-IsBarrio a z e h = record {
    here = All-append _ z.lista (a ∷ []) h.here (sym e, tt);
    acum = rw (sums-append 0 z.lista a, h.acum, h.cap) refl;
    cap = rw (floors-append 0 z.lista a, h.cap) refl;
    some_door = nonempty z.lista a;
  }

  abbrev pub Zones : List Acceso → List Barrio → Type 0
  Zones lista zs = Permᴰ (doors zs) lista × (All IsBarrio zs × Apart (λ (z : Barrio). z.zona) zs)

  new-IsBarrio : (a : Acceso) → IsBarrio (con_portal a (max 1 (alto a)) (barrio_nuevo a.zona))
  new-IsBarrio a = record { here = (refl, tt); acum = refl; cap = refl; some_door = omega arith }

  reune-doors : (zs : List Barrio) (a : Acceso) → Permᴰ (doors (reune alto zs a)) (a ∷ doors zs)
  reune-doors [] a = Permᴰ.refl _
  reune-doors (z ∷ zs) a = elim (Bool-cases (z.zona == a.zona)) [
    | inl e ↦ rw (e, append_assoc z.lista (a ∷ []) (doors zs)) (Permᴰ.middle a z.lista (doors zs))
    | inr e ↦ rw e (
        Permᴰ.trans (Permᴰ.append_left z.lista (reune-doors zs a))
          (Permᴰ.middle a z.lista (doors zs)))
  ]

  reune-IsBarrio :
      (zs : List Barrio) (a : Acceso) → All IsBarrio zs → All IsBarrio (reune alto zs a)
  reune-IsBarrio [] a h = (new-IsBarrio a, tt)
  reune-IsBarrio (z ∷ zs) a h = elim (Bool-cases (z.zona == a.zona)) [
    | inl e ↦ rw e (con_portal-IsBarrio a z ((==_iff z.zona a.zona).0 e) h.0, h.1)
    | inr e ↦ rw e (h.0, reune-IsBarrio zs a h.1)
  ]

  reune_fresh :
      (k : ℕ) (zs : List Barrio) (a : Acceso)
      → a.zona ≢ k
      → All (λ (z : Barrio). z.zona ≢ k) zs
      → All (λ (z : Barrio). z.zona ≢ k) (reune alto zs a)
  reune_fresh k [] a n h = (n, tt)
  reune_fresh k (z ∷ zs) a n h = elim (Bool-cases (z.zona == a.zona)) [
    | inl e ↦ rw e (h.0, h.1)
    | inr e ↦ rw e (h.0, reune_fresh k zs a n h.1)
  ]

  reune-Apart :
      (zs : List Barrio) (a : Acceso)
      → Apart (λ (z : Barrio). z.zona) zs
      → Apart (λ (z : Barrio). z.zona) (reune alto zs a)
  reune-Apart [] a h = (tt, tt)
  reune-Apart (z ∷ zs) a h = elim (Bool-cases (z.zona == a.zona)) [
    | inl e ↦ rw e h
    | inr e ↦ rw e (reune_fresh z.zona zs a (not_same a.zona z.zona e) h.0, reune-Apart zs a h.1)
  ]

  reune_todos-Zones :
      (lista done : List Acceso) (zs : List Barrio)
      → Zones done zs
      → Zones (done ++ lista) (reune_todos alto zs lista)
  reune_todos-Zones [] done zs h = rw (append-nil done) h
  reune_todos-Zones (a ∷ lista) done zs (p, (b, d)) = rw (sym (append_assoc done (a ∷ []) lista)) (
      reune_todos-Zones lista (done ++ (a ∷ [])) (reune alto zs a) (
        Permᴰ.trans (reune-doors zs a)
            (Permᴰ.trans (Permᴰ.cons refl p) (Permᴰ.append_comm (a ∷ []) done)),
        (reune-IsBarrio zs a b, reune-Apart zs a d),
      ))

  -- Every door stands in the list of its zone and in no other; the zones stand in the order of their
  -- numbers, each of them once, with the sums of the floors of its doors.
  pub zonas_de_oficina_lem :
      (lista : List Acceso)
      → Permᴰ (doors (zonas_de_oficina alto lista)) lista
        × (All IsBarrio (zonas_de_oficina alto lista)
            × Ascends (λ (z : Barrio). z.zona) (zonas_de_oficina alto lista))
  unfolding zonas_de_oficina
  zonas_de_oficina_lem lista =
      let (p, (b, d)) = reune_todos-Zones lista [] [] (Permᴰ.refl [], (tt, tt)) in
      let zs = reune_todos alto [] lista in
      let sorted = sort-Permᴰ (λ (y z : Barrio). ltb y.zona z.zona) zs in
      (
        Permᴰ.trans (doors-Permᴰ sorted) p,
        (All-Permᴰ IsBarrio (Permᴰ.symm sorted) b, sort-Ascends (λ (z : Barrio). z.zona) zs d),
      )
