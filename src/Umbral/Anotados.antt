-- ===== src/Umbral/Anotados.antt =====
-- What is written of the furniture of a floor, and where it comes back.
use rami_ledger.Prelude.{
  ℕ, ◌%◌, ◌<◌, ◌≡◌, ◌≢◌, refl, sym, ap, ◌∙◌, true, false, none, some, List, [], ◌∷◌, ◌==◌, map, All,
  arith,
}
use rami_ledger.Flotantes.{pos, Flotantes}
use rami_ledger.Umbral.Estado.{Mueble}
use rami_ledger.Umbral.Pisos.{
  Nota, tres, otra, encaja, Datos, Navegador, nota_de, centimetros, con_nota, lee_muebles,
  anota_muebles, en_su_sitio,
}

pub same_key : (k : ℕ) → (k == k) ≡ true
same_key k = ground arith

other_key : (k j : ℕ) → k ≢ j → (k == j) ≡ false
other_key k j h = ground arith

module _ (f : Flotantes) {Texto : Type 0} (nav : Navegador f Texto) where
  -- What JSON keeps of a number: one that is finite and no negative zero.
  pub record EsEscribible (x : f.N) : Type 0 where
    pub es_finito : f.finito x ≡ true
    pub sin_menos_cero : f.mas x (f.de 0) ≡ x

  -- A piece of furniture of a quarter's turn, whose place in centimetres can be written.
  pub record EsAnotable (mu : Mueble f) : Type 0 where
    pub escribe_x : EsEscribible (centimetros f mu.mx)
    pub escribe_z : EsEscribible (centimetros f mu.mz)
    pub girado : mu.r < 4

  -- A document that can be written: its numbers can, and no key stands twice.
  abbrev pub EsDeTres : Nota f → Type 0
  EsDeTres otra = ⊥
  EsDeTres (tres x z g) = EsEscribible x × EsEscribible z

  abbrev pub SinRepetir : List (ℕ × Nota f) → Type 0
  SinRepetir [] = Unit
  SinRepetir ((k, n) ∷ m) = All (λ (q : ℕ × Nota f). q.0 ≢ k) m × SinRepetir m

  abbrev pub EsDocumento : Datos f → Type 0
  EsDocumento d = All (λ (q : ℕ × Nota f). EsDeTres q.1) d.m × SinRepetir d.m

  -- `JSON.parse` gives back what `JSON.stringify` has written.
  abbrev pub EsJson : Type 0
  EsJson = (d : Datos f) → EsDocumento d → nav.parse (nav.stringify d) ≡ some d

  -- Where a piece of furniture comes back: rounded to centimetres, and fitted in its room.
  abbrev pub redondeado : Mueble f → Mueble f
  redondeado mu = encaja f (record mu { mx = centimetros f mu.mx; mz = centimetros f mu.mz })

  abbrev pub Distintos : List (Mueble f) → Type 0
  Distintos [] = Unit
  Distintos (mu ∷ mus) = All (λ q. q.id ≢ mu.id) mus × Distintos mus

  absent :
      (k : ℕ) (mus : List (Mueble f))
      → All (λ q. q.id ≢ k) mus
      → nota_de f k (anota_muebles f nav mus) ≡ none
  absent k [] h = refl
  absent k (mu ∷ mus) (h, hs) = rw (absent k mus hs, other_key k mu.id (λ e. h (sym e))) refl

  Hallados : List (ℕ × Nota f) → List (Mueble f) → Type 0
  Hallados m l = All (λ mu. (n : Nota f) × (nota_de f mu.id m ≡ some n)) l

  found_later :
      (k : ℕ) (n : Nota f) (m : List (ℕ × Nota f)) (l : List (Mueble f))
      → Hallados m l
      → lee_muebles f nav ((k, n) ∷ m) l ≡ lee_muebles f nav m l
  unfolding Hallados
  found_later k n m [] h = refl
  found_later k n m (mu ∷ l) ((n', e), hs) = rw (e, found_later k n m l hs) refl

  keep_found :
      (k : ℕ) (n : Nota f) (m : List (ℕ × Nota f)) (l : List (Mueble f))
      → Hallados m l
      → Hallados ((k, n) ∷ m) l
  unfolding Hallados
  keep_found k n m [] h = tt
  keep_found k n m (mu ∷ l) ((n', e), hs) = ((n', rw e refl), keep_found k n m l hs)

  here :
      (mu : Mueble f) (mus : List (Mueble f))
      → All (λ q. q.id ≢ mu.id) mus
      → nota_de f mu.id (anota_muebles f nav (mu ∷ mus))
        ≡ some (tres (centimetros f mu.mx) (centimetros f mu.mz) (pos mu.r))
  here mu mus h = rw (absent mu.id mus h, same_key mu.id) refl

  all_found :
      (mus : List (Mueble f))
      → Distintos mus
      → Hallados (anota_muebles f nav mus) (map (en_su_sitio f nav) mus)
  unfolding Hallados
  all_found [] d = tt
  all_found (mu ∷ mus) (h, d) =
      ((_, here mu mus h), keep_found mu.id _ (anota_muebles f nav mus) _ (all_found mus d))

  quarter : (n : ℕ) → n < 4 → n % 4 ≡ n
  quarter n h = omega arith

  back_at :
      (mu : Mueble f)
      → EsAnotable mu
      → con_nota f nav
          (en_su_sitio f nav mu)
          (some (tres (centimetros f mu.mx) (centimetros f mu.mz) (pos mu.r)))
        ≡ redondeado mu
  back_at mu a =
      rw (a.escribe_x.es_finito, a.escribe_z.es_finito)
        (ap
          (λ q. encaja f (record mu { mx = centimetros f mu.mx; mz = centimetros f mu.mz; r = q }))
          (quarter mu.r a.girado))

  pub furniture_back :
      (mus : List (Mueble f))
      → Distintos mus
      → All EsAnotable mus
      → lee_muebles f nav (anota_muebles f nav mus) (map (en_su_sitio f nav) mus)
        ≡ map redondeado mus
  furniture_back [] d a = refl
  furniture_back (mu ∷ mus) (h, d) (a, more) =
      let m = anota_muebles f nav (mu ∷ mus) in
      ap
        (λ q.
          con_nota f nav (en_su_sitio f nav mu) q
          ∷ lee_muebles f nav m (map (en_su_sitio f nav) mus))
        (here mu mus h)
      ∙ ap (λ q. q ∷ lee_muebles f nav m (map (en_su_sitio f nav) mus)) (back_at mu a)
      ∙ ap (λ q. redondeado mu ∷ q)
          (found_later mu.id _ (anota_muebles f nav mus) (map (en_su_sitio f nav) mus)
              (all_found mus d)
            ∙ furniture_back mus d more)

  keys_apart :
      (k : ℕ) (mus : List (Mueble f))
      → All (λ q. q.id ≢ k) mus
      → All (λ (q : ℕ × Nota f). q.0 ≢ k) (anota_muebles f nav mus)
  keys_apart k [] h = tt
  keys_apart k (mu ∷ mus) (h, hs) = (h, keys_apart k mus hs)

  pub written :
      (mus : List (Mueble f))
      → Distintos mus
      → All EsAnotable mus
      → All (λ (q : ℕ × Nota f). EsDeTres q.1) (anota_muebles f nav mus)
        × SinRepetir (anota_muebles f nav mus)
  written [] d a = (tt, tt)
  written (mu ∷ mus) (h, d) (a, more) =
      let (nums, keys) = written mus d more in
      (((a.escribe_x, a.escribe_z), nums), (keys_apart mu.id mus h, keys))
