-- ===== src/Vida/Oficinas/Asignados.antt =====
-- Who has no other job gets an office, and the memory of `gravedad` does not show.
use mathlib.Core.Option.{some-injective}
use rami_ledger.Prelude.{
  ℕ, zero, suc, ◌≤◌, ◌<◌, ◌≡◌, refl, sym, ◌∙◌, ap, subst, inl, inr, Bool, true, false, ◌&&◌, Option,
  some, List, [], ◌∷◌, arith, leb, ◌==◌, ==_iff, Bool-cases, Option-cases, All, length, get_elem?,
}
use rami_ledger.Semillas.{lcg_start, lcg_next}
use rami_ledger.Vida.Azar.{sorteo}
use rami_ledger.Vida.Diario.{Acceso, Persona, Libro}
use rami_ledger.Vida.Agenda.{agenda}
use rami_ledger.Vida.Empleo.{Empleo, con_trabajo}
use rami_ledger.Vida.Oficinas.{
  Barrio, Gravedad, Oficina, towers, warehouses, es_mismo, hay, no_tiene, de_oficina, pesos,
  gravedad_de, Memoria, guarda, Destinos, recuerda, gravedad, tipo_de, sube_zona, con_oficina,
  busca_oficina, emplea, con_agenda, destino,
}

sorteo-lt : (a : ℕ) (acum : List ℕ) (x : ℕ) → sorteo (a ∷ acum) x < length (a ∷ acum)
unfolding sorteo
sorteo-lt a [] x = omega arith
sorteo-lt a (b ∷ acum) x = elim (Bool-cases (leb a x)) [
  | inl e ↦ let less = sorteo-lt b acum x in rw e (omega arith)
  | inr e ↦ rw e (omega arith)
]

-- The list has an element at the place.
found {ℓ} : {A : Type ℓ} (xs : List A) (i : ℕ) → i < length xs → (a : A) × (get_elem? xs i ≡ some a)
found [] i h = absurd (omega arith)
found (x ∷ xs) zero h = (x, refl)
found (x ∷ xs) (suc i) h = found xs i (omega arith)

drawn {ℓ} :
    {A : Type ℓ} (xs : List A) (acum : List ℕ) (x : ℕ)
    → length acum ≡ length xs
    → 1 ≤ length xs
    → (a : A) × (get_elem? xs (sorteo acum x) ≡ some a)
drawn xs [] x e h = absurd (omega arith)
drawn xs (b ∷ acum) x e h = found xs (sorteo (b ∷ acum) x) (omega (arith, e, sorteo-lt b acum x))

length-pesos :
    (lejos : ℕ → ℕ → ℕ) (zh : ℕ) (lz : List Barrio) (tot : ℕ)
    → length (pesos lejos zh lz tot).0 ≡ length lz
length-pesos lejos zh [] tot = refl
length-pesos lejos zh (z ∷ lz) tot = ap suc (length-pesos lejos zh lz _)

mismo_eq : (t u : Oficina) → es_mismo t u ≡ true → t ≡ u
mismo_eq towers towers e = refl
mismo_eq warehouses warehouses e = refl
mismo_eq towers warehouses e = cc
mismo_eq warehouses towers e = cc

hay_some : (lz : List Barrio) → hay lz ≡ true → 1 ≤ length lz
hay_some [] e = cc
hay_some (z ∷ lz) e = omega arith

and_true : (a b : Bool) → (a && b) ≡ true → (a ≡ true) × (b ≡ true)
and_true a b e = ground arith

both : {b : Bool} → b ≡ true → b ≡ false → ⊥
both e f = cc (e, f)

-- Every zone of the list has offices, with a sum for each.
abbrev pub AreFull : List Barrio → Type 0
AreFull lz = All (λ (z : Barrio). (length z.acum ≡ length z.lista) × (1 ≤ length z.lista)) lz

all_found {ℓ} :
    {A : Type ℓ} (P : A → Type 0) (xs : List A) (i : ℕ) (a : A)
    → All P xs
    → get_elem? xs i ≡ some a
    → P a
all_found P [] i a h e = cc
all_found P (x ∷ xs) zero a h e = subst P (some-injective _ _ e) h.0
all_found P (x ∷ xs) (suc i) a h e = all_found P xs i a h.1 e

module _ (lejos : ℕ → ℕ → ℕ) (parte : ℕ → ℕ → ℕ) (es_trama : ℕ → Bool)
    (metros : Acceso → Acceso → ℕ) (of_zonas : Oficina → List Barrio) where
  -- What is remembered is what would be computed.
  abbrev pub IsMemoria : Memoria → Type 0
  IsMemoria m =
      (t : Oficina) (zh : ℕ) (g : Gravedad)
      → m t zh ≡ some g
      → g ≡ gravedad_de lejos (of_zonas t) zh

  guarda-IsMemoria :
      (t : Oficina) (zh : ℕ) (m : Memoria)
      → IsMemoria m
      → IsMemoria (guarda t zh (gravedad_de lejos (of_zonas t) zh) m)
  guarda-IsMemoria t zh m h u z g e =
      let fresh = λ (o : Oficina) (k : ℕ). gravedad_de lejos (of_zonas o) k in
      elim (Bool-cases (es_mismo t u && zh == z)) [
        | inl c ↦
            let (same, at) = and_true (es_mismo t u) (zh == z) c in
            sym (some-injective _ _ (rw c at e))
            ∙ ap (λ (o : Oficina). fresh o zh) (mismo_eq t u same)
            ∙ ap (fresh u) ((==_iff zh z).0 at)
        | inr c ↦ h u z g (rw c at e)
      ]

  gravedad_lem :
      (t : Oficina) (zh : ℕ) (m : Memoria)
      → IsMemoria m
      → ((gravedad lejos parte es_trama metros of_zonas t zh m).0
          ≡ gravedad_de lejos (of_zonas t) zh)
        × IsMemoria (gravedad lejos parte es_trama metros of_zonas t zh m).1
  gravedad_lem t zh m h =
      let goal = λ (o : Option Gravedad).
        let out = recuerda lejos parte es_trama metros of_zonas t zh m o in
        (out.0 ≡ gravedad_de lejos (of_zonas t) zh) × IsMemoria out.1 in
      elim (Option-cases (m t zh)) [
        | inl e ↦ subst goal (sym e) (refl, guarda-IsMemoria t zh m h)
        | inr (g, e) ↦ subst goal (sym e) (h t zh g e, h)
      ]

  -- The job that the three draws of the day pick for a person in the offices.
  pub record Employed (per : Persona) (b c : ℕ) (lz : List Barrio) (e : Empleo) (q : Persona)
      (after : Empleo) : Type 0 where
    pub zo : Barrio
    pub w : Acceso
    pub zone :
        let g = gravedad_de lejos lz per.casa.zona in
        get_elem? lz (sorteo g.acum (parte b g.tot)) ≡ some zo
    pub door : get_elem? zo.lista (sorteo zo.acum (parte c zo.cap)) ≡ some w
    pub who : q ≡ con_trabajo w per
    pub empleo : after ≡ sube_zona lejos parte es_trama metros of_zonas zo.zona e

  abbrev tras : Persona → ℕ → ℕ → ℕ → Destinos → Option (Persona × Destinos)
  tras = emplea lejos parte es_trama metros of_zonas

  con_oficina_lem :
      (per : Persona) (b c : ℕ) (lz : List Barrio) (d : Destinos) (zo : Barrio) (w : Acceso)
      → (let g = gravedad_de lejos lz per.casa.zona in
          get_elem? lz (sorteo g.acum (parte b g.tot)) ≡ some zo)
      → get_elem? zo.lista (sorteo zo.acum (parte c zo.cap)) ≡ some w
      → (out : Persona × Destinos) × ((con_oficina lejos parte es_trama metros of_zonas per c
              (some zo)
              d
            ≡ some out)
          × (Employed per b c lz d.empleo out.0 out.1.empleo
              × ((out.1.memoria ≡ d.memoria) × (out.1.libro ≡ d.libro))))
  con_oficina_lem per b c lz d zo w zone door = (
    _,
    (
      refl,
      (
        record {
          zo = zo;
          w = w;
          zone = zone;
          door = door;
          who = ap (de_oficina per) door;
          empleo = refl;
        },
        (refl, refl),
      ),
    ),
  )

  -- The zones of offices that a person draws from.
  abbrev pub lista_de : ℕ → List Barrio
  lista_de a = of_zonas (tipo_de lejos parte es_trama metros of_zonas a)

  busca_oficina_lem :
      (per : Persona) (a b c : ℕ) (d : Destinos)
      → AreFull (lista_de a)
      → IsMemoria d.memoria
      → hay (lista_de a) ≡ true
      → (out : Persona × Destinos) × ((busca_oficina lejos parte es_trama metros of_zonas per a b c
              d
            ≡ some out)
          × (Employed per b c (lista_de a) d.empleo out.0 out.1.empleo
              × (IsMemoria out.1.memoria × (out.1.libro ≡ d.libro))))
  busca_oficina_lem per a b c d full memo some_lz =
      let t = tipo_de lejos parte es_trama metros of_zonas a in
      let lz = lista_de a in
      let zh = per.casa.zona in
      let fresh = gravedad_de lejos lz zh in
      let (same, memo') = gravedad_lem t zh d.memoria memo in
      let (zo, zone) =
        drawn lz fresh.acum (parte b fresh.tot) (length-pesos lejos zh lz 0)
          (hay_some lz some_lz) in
      let (equal, some_door) =
        all_found (λ (z : Barrio). (length z.acum ≡ length z.lista) × (1 ≤ length z.lista)) lz
          (sorteo fresh.acum (parte b fresh.tot)) zo full zone in
      let (w, door) = drawn zo.lista zo.acum (parte c zo.cap) equal some_door in
      let m = (gravedad lejos parte es_trama metros of_zonas t zh d.memoria).1 in
      let d' : Destinos = record { memoria = m; empleo = d.empleo; libro = d.libro } in
      let (out, (is, (job, (kept, same_trips)))) = con_oficina_lem per b c lz d' zo w zone door in
      let draw = λ (g : Gravedad). get_elem? lz (sorteo g.acum (parte b g.tot)) in
      let pick =
        λ (o : Option Barrio). con_oficina lejos parte es_trama metros of_zonas per c o d' in
      (
        out,
        (
          rw some_lz (ap pick (ap draw same ∙ zone) ∙ is),
          (job, (subst IsMemoria (sym kept) memo', same_trips)),
        ),
      )

  -- Who is looked for an office: one who works and has no job, if there are offices at all.
  abbrev pub busca : Persona → ℕ → Bool
  busca per a = (per.trabaja && no_tiene per.trabajo) && hay (lista_de a)

  -- The day of a person who has got `out` before, with the generator at `c`.
  abbrev pub Followed : Persona → ℕ → Destinos → Persona × Destinos → Type 0
  Followed per a d out =
      let b = lcg_next a in
      let c = lcg_next b in
      (busca per a ≡ true → Employed per b c (lista_de a) d.empleo out.0 out.1.empleo)
      × ((busca per a ≡ false → (out.0 ≡ per) × (out.1.empleo ≡ d.empleo))
          × (out.1.libro ≡ (agenda es_trama metros out.0 (c, d.libro)).1.1))

  not_looked :
      (per : Persona) (a b c : ℕ) (d : Destinos)
      → busca per a ≡ false
      → tras per a b c d ≡ some (per, d)
  not_looked per a b c d e = elim (Bool-cases (per.trabaja && no_tiene per.trabajo)) [
    | inl w ↦ elim (Bool-cases (hay (lista_de a))) [ inl y ↦ cc (w, y, e) | inr n ↦ rw (w, n) refl ]
    | inr i ↦ rw i refl
  ]

  emplea_lem :
      (per : Persona) (a b c : ℕ) (d : Destinos)
      → AreFull (lista_de a)
      → IsMemoria d.memoria
      → (out : Persona × Destinos) × ((tras per a b c d ≡ some out)
          × ((busca per a ≡ true → Employed per b c (lista_de a) d.empleo out.0 out.1.empleo)
              × ((busca per a ≡ false → (out.0 ≡ per) × (out.1.empleo ≡ d.empleo))
                  × (IsMemoria out.1.memoria × (out.1.libro ≡ d.libro)))))
  emplea_lem per a b c d full memo = elim (Bool-cases (busca per a)) [
    | inl e ↦
        let (works, some_lz) = and_true (per.trabaja && no_tiene per.trabajo) _ e in
        let (out, (is, (job, rest))) = busca_oficina_lem per a b c d full memo some_lz in
        (out, (rw works is, ((λ t. job), ((λ f. absurd (both e f)), rest))))
    | inr e ↦ (
      (per, d),
      (not_looked per a b c d e, ((λ t. absurd (both t e)), ((λ f. (refl, refl)), (memo, refl)))),
    )
  ]

  -- The source never throws, and the memory stays right: someone who works, has no job yet and can
  -- have one gets the door of an office that the second and third draws pick from the weights,
  -- whatever is remembered, and is counted in its zone; everybody else keeps their place of work, and
  -- nothing is counted; and the day of each starts from the third draw. Here every zone of offices
  -- has doors, and as many sums as doors.
  pub destino_lem :
      (per : Persona) (d : Destinos)
      → ((t : Oficina) → AreFull (of_zonas t))
      → IsMemoria d.memoria
      → (out : Persona × Destinos) × ((destino lejos parte es_trama metros of_zonas per d
            ≡ some out)
          × (Followed per (lcg_next (lcg_start per.sem)) d out × IsMemoria out.1.memoria))
  unfolding destino
  destino_lem per d full memo =
      let a = lcg_next (lcg_start per.sem) in
      let b = lcg_next a in
      let c = lcg_next b in
      let (out, (is, (yes_job, (no_job, (memo', trips))))) = emplea_lem per a b c d (full _) memo in
      let day = λ (l : Libro). (agenda es_trama metros out.0 (c, l)).1.1 in
      (
        _,
        (
          ap (con_agenda lejos parte es_trama metros of_zonas c) is,
          ((yes_job, (no_job, ap day trips)), memo'),
        ),
      )
