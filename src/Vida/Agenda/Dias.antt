-- ===== src/Vida/Agenda/Dias.antt =====
-- What a day of `agenda` is made of.
use rami_ledger.Prelude.{
  ℕ, ◌+◌, ◌*◌, ◌≤◌, ◌<◌, ◌≡◌, refl, sym, ◌∙◌, ap, ◌⊎◌, inl, inr, Bool, true, false, Option, none,
  some, arith, ◌==◌, ==_iff, ◌&&◌, if◌then◌else◌,
}
use rami_ledger.Vida.Azar.{entero, por_ciento}
use rami_ledger.Vida.Diario.{
  dia, Acceso, Meta, acc, parada, taxi, sitio, nodo, Tipo, ida, vuelta, llegada, salida, comida,
  recado, paseo, madrugada, Persona, Viaje, Accion, ◌>>=◌, nada, tira, viaje,
}
use rami_ledger.Vida.Diario.Cuenta.{
  Adds, nada-Adds, tira-Adds, bind-Adds, more-Adds, if-Adds, viaje-Adds,
}
use rami_ledger.Vida.Agenda.{
  encargo, almuerzo, vuelta_nocturna, un_paseo, es_cerca, en_metro, a_pie, jornada_de, libre_de,
  agenda,
}

-- The person's home or place of work.
abbrev pub IsDoor : Persona → Acceso → Type 0
IsDoor per a = (a ≡ per.casa) ⊎ (per.trabajo ≡ some a)

-- The place can be reached on foot in the zone.
abbrev pub IsGoal : ℕ → Meta → Type 0
IsGoal zona (acc b) = b.zona ≡ zona
IsGoal zona parada = Unit
IsGoal zona taxi = Unit
IsGoal zona (sitio x lo hi) = lo ≤ hi
IsGoal zona (nodo x lo hi) = lo ≤ hi

-- A trip of the person, within the day, from one of the person's doors and in its zone.
abbrev pub IsTrip : Persona → Viaje → Type 0
IsTrip per v =
    (v.p ≡ per.id) × (v.t0 < dia) × (v.zona ≡ v.src.zona) × IsDoor per v.src × IsGoal v.zona v.dst

at_stop : (zona : ℕ) (c : Bool) → IsGoal zona (if c then parada else taxi)
at_stop zona true = tt
at_stop zona false = tt

and_true : (a b : Bool) → (a && b) ≡ true → (a ≡ true) × (b ≡ true)
and_true a b e = ground arith

near_zone :
    (es_trama : ℕ → Bool) (metros : Acceso → Acceso → ℕ) (h w : Acceso)
    → es_cerca es_trama metros h w ≡ true
    → w.zona ≡ h.zona
near_zone es_trama metros h w e =
    let (all, near) = and_true (w.zona == h.zona && w.con_edificio && es_trama h.zona) _ e in
    let (two, grid) = and_true (w.zona == h.zona && w.con_edificio) _ all in
    (==_iff w.zona h.zona).0 (and_true (w.zona == h.zona) _ two).0

if_true-Adds :
    {P : Viaje → Type 0} {n : ℕ} {A : Type 0} (c : Bool) {x y : Accion A}
    → (c ≡ true → Adds P n x)
    → Adds P n y
    → Adds P n (if c then x else y)
if_true-Adds true h k = h refl
if_true-Adds false h k = k

module _ (per : Persona) where
  go :
      (a : Acceso) (t0 : ℕ) (dst : Meta) (al_reves : Bool) (tipo : Tipo)
      → IsDoor per a
      → IsGoal a.zona dst
      → Adds (IsTrip per) 1 (viaje per.id a.zona t0 a dst al_reves tipo)
  go a t0 dst al_reves tipo door goal =
      viaje-Adds per.id a.zona t0 a dst al_reves tipo (λ v p zona t src d.
        (p, t, zona ∙ ap (λ (b : Acceso). b.zona) (sym src), rw src door, rw (zona, d) goal))

  home :
      (t0 : ℕ) (dst : Meta) (al_reves : Bool) (tipo : Tipo)
      → IsGoal per.casa.zona dst
      → Adds (IsTrip per) 1 (viaje per.id per.casa.zona t0 per.casa dst al_reves tipo)
  home t0 dst al_reves tipo goal = go per.casa t0 dst al_reves tipo (inl refl) goal

  none-Adds : {n : ℕ} → Adds (IsTrip per) n nada
  none-Adds {n} = more-Adds {n = 0} {k = n} (omega arith) (nada-Adds (IsTrip per))

  draw :
      {n : ℕ} (f : ℕ → Accion (Unit {0}))
      → ((x : ℕ) → Adds (IsTrip per) n (f x))
      → Adds (IsTrip per) n (tira >>= f)
  draw {n} f h = more-Adds {n = 0 + n} {k = n} (omega arith) (bind-Adds (tira-Adds (IsTrip per)) h)

  encargo-Adds :
      (pct desde rango : ℕ) → Adds (IsTrip per) 2 (encargo per.id per.casa pct desde rango)
  encargo-Adds pct desde rango = draw _ λ x.
      if-Adds (por_ciento x pct)
        (draw _ λ a. draw _ λ b. draw _ λ c.
          let t1 = desde * 3600 + entero a rango in
          let place = sitio (entero c 1000000000) 15000 70000 in
          bind-Adds (home t1 place false recado (omega arith))
            (λ u. home (t1 + (1200 + entero b 2400)) place true recado (omega arith)))
        none-Adds

  almuerzo-Adds : (w : Acceso) → per.trabajo ≡ some w → Adds (IsTrip per) 2 (almuerzo per.id w)
  almuerzo-Adds w e = draw _ λ x.
      if-Adds (por_ciento x 55)
        (draw _ λ a. draw _ λ b. draw _ λ c.
          let come = 12 * 3600 + entero a 7200 in
          let place = sitio (entero c 1000000000) 8000 45000 in
          bind-Adds (go w come place false comida (inr e) (omega arith))
            (λ u. go w (come + (1500 + entero b 2100)) place true comida (inr e) (omega arith)))
        none-Adds

  un_paseo-Adds : Adds (IsTrip per) 1 (un_paseo per.id per.casa)
  un_paseo-Adds = draw _ λ x.
      if-Adds (por_ciento x 12)
        (draw _ λ a. draw _ λ b.
          home (20 * 3600 + entero a 10800) (nodo (entero b 1000000000) 15000 35000) false paseo
            (omega arith))
        none-Adds

  vuelta_nocturna-Adds : Adds (IsTrip per) 1 (vuelta_nocturna per.id per.casa)
  vuelta_nocturna-Adds = draw _ λ x.
      if-Adds (por_ciento x 2)
        (draw _ λ a. draw _ λ b.
          home (23 * 3600 + entero a 21600) (nodo (entero b 1000000000) 8000 25000) false madrugada
            (omega arith))
        none-Adds

  module _ (es_trama : ℕ → Bool) (metros : Acceso → Acceso → ℕ) where
    en_metro-Adds :
        (w : Acceso) (a b c d : ℕ)
        → per.trabajo ≡ some w
        → Adds (IsTrip per) 4 (en_metro es_trama metros per.id per.casa w a b c d)
    en_metro-Adds w a b c d e =
        let alli : Meta = if es_trama w.zona then parada else taxi in
        let there : IsGoal w.zona alli = at_stop w.zona (es_trama w.zona) in
        bind-Adds (home a parada false ida tt) λ u.
          bind-Adds (go w (a + c) alli true llegada (inr e) there) λ u.
            bind-Adds (go w b alli false salida (inr e) there)
              λ u. home (b + d) parada true vuelta tt

    a_pie-Adds :
        (w : Acceso) (a b : ℕ)
        → per.trabajo ≡ some w
        → w.zona ≡ per.casa.zona
        → Adds (IsTrip per) 4 (a_pie es_trama metros per.id per.casa w a b)
    a_pie-Adds w a b e same =
        more-Adds {n = 2} {k = 4} (omega arith)
          (bind-Adds (home a (acc w) false ida same) λ u. home b (acc w) true vuelta same)

    jornada_de-Adds :
        (w : Acceso)
        → per.trabajo ≡ some w
        → Adds (IsTrip per) 6 (jornada_de es_trama metros per.id per.casa w)
    jornada_de-Adds w e = draw _ λ a. draw _ λ b. draw _ λ c. draw _ λ d.
        let sale = 7 * 3600 + entero a 9000 in
        let vuelve = 17 * 3600 + entero b 9000 in
        bind-Adds
          (if_true-Adds (es_cerca es_trama metros per.casa w)
            (λ near. a_pie-Adds w sale vuelve e (near_zone es_trama metros per.casa w near))
            (en_metro-Adds w sale vuelve (900 + entero c 1500) (900 + entero d 1500) e))
          (λ u. if-Adds (es_trama w.zona) (almuerzo-Adds w e) none-Adds)

    trabajo-Adds :
        (o : Option Acceso)
        → per.trabajo ≡ o
        → Adds (IsTrip per) 6 (elim o as (λ _. Accion (Unit {0})) [
          | none ↦ libre_de es_trama metros per.id per.casa
          | some w ↦ jornada_de es_trama metros per.id per.casa w
        ])
    trabajo-Adds none e =
        more-Adds {n = 4} {k = 6} (omega arith)
          (bind-Adds (encargo-Adds 80 9 18000) λ u. encargo-Adds 60 15 19800)
    trabajo-Adds (some w) e = jornada_de-Adds w e

    -- A day has eight trips at most, all of them of the person, at a time of the day, from home or
    -- from work and in that door's zone; one that goes to a door on foot goes to a door of its zone;
    -- and if the numbers of the trips are their places, and the lists of the zones and of the people
    -- hold the numbers of their own trips, the same holds after the day.
    pub agenda-Adds : Adds (IsTrip per) 8 (agenda es_trama metros per)
    unfolding agenda
    agenda-Adds =
        bind-Adds (trabajo-Adds per.trabajo refl)
          λ u. bind-Adds un_paseo-Adds λ v. vuelta_nocturna-Adds
