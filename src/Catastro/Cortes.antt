-- ===== src/Catastro/Cortes.antt =====
-- What `rayoSolido` answers, and that it does.
use mathlib.Core.List.{Memᴰ}
use rami_ledger.Prelude.{
  ℕ, zero, suc, ◌≡◌, refl, sym, subst, inl, inr, Bool, true, false, Option, none, some, List, [],
  ◌∷◌, if◌then◌else◌, get_elem?, Bool-cases,
}
use rami_ledger.Flotantes.{Flotantes, cero}
use rami_ledger.Catastro.{Solido, Catastro, celda_de, solido_celda, es_visto}
use rami_ledger.Catastro.Consultas.{lista_en}
use rami_ledger.Catastro.Rayo.{
  Vector, Barrido, corta_caja, tras_corte, prueba, barre_lista, barre, avanza_rayo, hallado,
  tras_barrido, rayo_solido,
}
use rami_ledger.Catastro.Preguntas.{mem_of_at}

module _ (f : Flotantes) (Ficha : Type 0) (o dir : Vector f Ficha) (max_t : f.N)
    (menor_trans : (a b c : f.N)
      → f.menor a b ≡ true
      → f.menor b c ≡ true
      → f.menor a c ≡ true) where
  -- The ray cuts a solid of the register there, nearer than asked.
  abbrev pub Corta : List (Solido f Ficha) → Solido f Ficha → f.N → Type 0
  Corta items so t =
      Memᴰ so items
      × (((m : f.N) × (corta_caja f Ficha so o dir m ≡ some t)) × (f.menor t max_t ≡ true))

  abbrev Bueno : List (Solido f Ficha) → Option (Solido f Ficha) → f.N → Type 0
  Bueno items none t = t ≡ max_t
  Bueno items (some so) t = Corta items so t

  closer :
      (items : List (Solido f Ficha)) (so : Option (Solido f Ficha)) (t tt' : f.N)
      → Bueno items so t
      → f.menor tt' t ≡ true
      → f.menor tt' max_t ≡ true
  closer items none t tt' h l = subst (λ q. f.menor tt' q ≡ true) h l
  closer items (some so) t tt' (m, (c, k)) l = menor_trans tt' t max_t l k

  corte-Bueno :
      (items : List (Solido f Ficha)) (so : Solido f Ficha) (b : Barrido f Ficha) (m : f.N)
      (x : Option f.N)
      → Memᴰ so items
      → corta_caja f Ficha so o dir m ≡ x
      → Bueno items b.mejor b.mejor_t
      → Bueno items (tras_corte f Ficha so x b).mejor (tras_corte f Ficha so x b).mejor_t
  corte-Bueno items so b m none mem e h = h
  corte-Bueno items so b m (some t) mem e h = elim (Bool-cases (f.menor t b.mejor_t)) [
    | inl l ↦ rw l (mem, ((m, e), closer items b.mejor b.mejor_t t h l))
    | inr l ↦
        subst
          (λ (q : Bool).
            let c : Barrido f Ficha = if q then record b { mejor = some so; mejor_t = t } else b in
            Bueno items c.mejor c.mejor_t)
          (sym l) h
  ]

  prueba-Bueno :
      (items : List (Solido f Ficha)) (id : ℕ) (b : Barrido f Ficha) (x : Option (Solido f Ficha))
      → get_elem? items id ≡ x
      → Bueno items b.mejor b.mejor_t
      → Bueno items (prueba f Ficha o dir x b).mejor (prueba f Ficha o dir x b).mejor_t
  prueba-Bueno items id b none e h = h
  prueba-Bueno items id b (some so) e h =
      corte-Bueno items so b b.mejor_t (corta_caja f Ficha so o dir b.mejor_t)
        (mem_of_at items id e) refl h

  lista-Bueno :
      (items : List (Solido f Ficha)) (ids : List ℕ) (b : Barrido f Ficha)
      → Bueno items b.mejor b.mejor_t
      → Bueno items
          (barre_lista f Ficha o dir items ids b).mejor
          (barre_lista f Ficha o dir items ids b).mejor_t
  lista-Bueno items [] b h = h
  lista-Bueno items (id ∷ ids) b h = lista-Bueno items ids _ (pick (es_visto id b.vistos))
    where
      next : Barrido f Ficha
      next = prueba f Ficha o dir (get_elem? items id) (record b { vistos = id ∷ b.vistos })

      pick :
          (q : Bool)
          → let c : Barrido f Ficha = if q then b else next in Bueno items c.mejor c.mejor_t
      pick true = h
      pick false =
          prueba-Bueno items id (record b { vistos = id ∷ b.vistos }) (get_elem? items id) refl h

  -- Where the loop stands after so many steps.
  abbrev pub tras_pasos : ℕ → f.N → f.N
  tras_pasos zero t = t
  tras_pasos (suc k) t =
      tras_pasos k (f.mas t (f.por (f.de solido_celda) (f.entre (f.de 1) (f.de 2))))

  abbrev Acaba : List (Solido f Ficha) → Option (Barrido f Ficha) → Type 0
  Acaba items none = ⊥
  Acaba items (some b) = Bueno items b.mejor b.mejor_t

  not_yet :
      (items : List (Solido f Ficha)) (b : Barrido f Ficha) (t : f.N)
      → Bueno items b.mejor b.mejor_t
      → f.menor t max_t ≡ false
      → f.menor t b.mejor_t ≡ true
      → ⊥
  not_yet items b t h l m = differ (f.menor t max_t) l (closer items b.mejor b.mejor_t t h m)
    where
      differ : (q : Bool) → q ≡ false → q ≡ true → ⊥
      differ q e e' = cc

  avanza-Acaba :
      (cat : Catastro f Ficha) (k : ℕ) (t : f.N) (b : Barrido f Ficha)
      → f.menor (tras_pasos k t) max_t ≡ false
      → Bueno cat.items b.mejor b.mejor_t
      → Acaba cat.items (avanza_rayo f Ficha (suc k) cat o dir t b)
  unfolding avanza_rayo
  avanza-Acaba cat zero t b e h = elim (Bool-cases (f.menor t b.mejor_t)) [
    | inl l ↦ absurd (not_yet cat.items b t h e l)
    | inr l ↦ rw l h
  ]
  avanza-Acaba cat (suc k) t b e h = elim (Bool-cases (f.menor t b.mejor_t)) [
    | inl l ↦ rw l (
        avanza-Acaba cat k (f.mas t (f.por (f.de solido_celda) (f.entre (f.de 1) (f.de 2))))
          (barre f Ficha cat o dir t b) e
          (lista-Bueno cat.items
            (lista_en f Ficha cat (celda_de f (f.mas o.vx (f.por dir.vx t)))
              (celda_de f (f.mas o.vz (f.por dir.vz t))))
            b h))
    | inr l ↦ rw l h
  ]

  abbrev pub Contesta : List (Solido f Ficha) → Option (Option (Solido f Ficha × f.N)) → Type 0
  Contesta items none = ⊥
  Contesta items (some none) = Unit
  Contesta items (some (some (so, t))) = Corta items so t

  told :
      (items : List (Solido f Ficha)) (x : Option (Barrido f Ficha))
      → Acaba items x
      → Contesta items (tras_barrido f Ficha x)
  told items none h = h
  told items (some b) h = held b.mejor h
    where
      held :
          (so : Option (Solido f Ficha))
          → Bueno items so b.mejor_t
          → Contesta items (some (hallado f Ficha b so))
      held none k = tt
      held (some so) k = k

  -- `rayoSolido` ends within a round more than the steps that take the ray past the distance asked; and
  -- when it answers with a solid and a distance, the solid is of the register, `cortaCaja` cuts it at that
  -- distance, and that is less than asked. Here `<` is transitive.
  pub rayo_solido_ends :
      (cat : Catastro f Ficha) (k : ℕ)
      → f.menor (tras_pasos k (cero f)) max_t ≡ false
      → Contesta cat.items (rayo_solido f Ficha (suc k) (some cat) o dir max_t)
  unfolding rayo_solido
  rayo_solido_ends cat k e =
      told cat.items (avanza_rayo f Ficha (suc k) cat o dir (cero f) _)
        (avanza-Acaba cat k (cero f) (record { mejor = none; mejor_t = max_t; vistos = [] }) e refl)
