-- ===== src/Vida/Obra/Cortes.antt =====
-- The result of the work does not depend on how it is sliced.
use rami_ledger.Prelude.{
  ℕ, zero, suc, ◌≤◌, ◌≡◌, ap, Option, none, some, List, [], ◌∷◌, arith, length,
}
use rami_ledger.Vida.Obra.{
  Fase, Obra, Oficios, Ronda, hecho, sigue, mira, vuelta_fase, Trozo, acabada, a_medias, tras_ronda,
  fases, tras_trozo, cuadros,
}

module _ {W : Type 0} (o : Oficios W) where
  -- What is left behind a round.
  abbrev pub After : (Fase → Obra W → Obra W → Type 0) → Ronda W → Obra W → Type 0
  After P (hecho s) u = s ≡ u
  After P (sigue f s) u = P f s u
  After P (mira f s) u = P f s u

  -- The work ends within so many rounds, with this result.
  abbrev pub EndsIn : ℕ → Fase → Obra W → Obra W → Type 0
  EndsIn zero f s u = ⊥
  EndsIn (suc k) f s u = After (EndsIn k) (vuelta_fase o f s) u

  After-map :
      (P Q : Fase → Obra W → Obra W → Type 0)
      → ((f : Fase) (s u : Obra W) → P f s u → Q f s u)
      → (x : Ronda W) (u : Obra W) → After P x u
      → After Q x u
  After-map P Q h (hecho s) u a = a
  After-map P Q h (sigue f s) u a = h f s u a
  After-map P Q h (mira f s) u a = h f s u a

  later : (k : ℕ) (f : Fase) (s u : Obra W) → EndsIn k f s u → EndsIn (suc k) f s u
  later zero f s u h = elim h [ ]
  later (suc k) f s u h =
      After-map (EndsIn k) (EndsIn (suc k)) (λ g t v. later k g t v) (vuelta_fase o f s) u h

  pub within : (j k : ℕ) → j ≤ k → (f : Fase) (s u : Obra W) → EndsIn j f s u → EndsIn k f s u
  within zero k le f s u h = elim h [ ]
  within (suc j) zero le f s u h = absurd (omega arith)
  within (suc j) (suc k) le f s u h =
      After-map (EndsIn j) (EndsIn k) (λ g t v. within j k (omega arith) g t v) (vuelta_fase o f s)
        u h

  -- A slice behind which the work ends within `k` rounds has ended it with this result, or leaves
  -- fewer rounds to it.
  abbrev pub Told : ℕ → Obra W → Option (Trozo o) → Type 0
  Told k u none = ⊥
  Told k u (some (acabada v)) = v ≡ u
  Told k u (some (a_medias g t)) = EndsIn k g t u

  Told-later : (j k : ℕ) (u : Obra W) (x : Option (Trozo o)) → j ≤ k → Told j u x → Told k u x
  Told-later j k u none le h = h
  Told-later j k u (some (acabada v)) le h = h
  Told-later j k u (some (a_medias g t)) le h = within j k le g t u h

  tras_ronda-Told :
      (k : ℕ) (plazo : ℕ) (u : Obra W) (more : ℕ → Fase → Obra W → Option (Trozo o)) (x : Ronda W)
      → ((p : ℕ) (f : Fase) (s : Obra W) → EndsIn k f s u → Told k u (more p f s))
      → After (EndsIn k) x u
      → Told k u (tras_ronda o more plazo x)
  tras_ronda-Told k plazo u more (hecho s) h a = a
  tras_ronda-Told k plazo u more (sigue f s) h a = h plazo f s a
  tras_ronda-Told k zero u more (mira f s) h a = a
  tras_ronda-Told k (suc plazo) u more (mira f s) h a = h plazo f s a

  less-Told :
      (k rounds plazo : ℕ) (f : Fase) (s u : Obra W)
      → suc k ≤ rounds
      → EndsIn (suc k) f s u
      → Told k u (fases o rounds plazo f s)
  unfolding fases
  less-Told k zero plazo f s u le h = absurd (omega arith)
  less-Told zero (suc rounds) plazo f s u le h =
      tras_ronda-Told zero plazo u (fases o rounds) (vuelta_fase o f s) (λ p g t e. elim e [ ]) h
  less-Told (suc k) (suc rounds) plazo f s u le h =
      tras_ronda-Told (suc k) plazo u (fases o rounds) (vuelta_fase o f s)
        (λ p g t e.
          Told-later k (suc k) u (fases o rounds p g t) (omega arith)
            (less-Told k rounds p g t u (omega arith) e))
        h

  -- The work has ended, with this result.
  abbrev pub Done : Obra W → Option (Trozo o) → Type 0
  Done u none = ⊥
  Done u (some (acabada v)) = v ≡ u
  Done u (some (a_medias g t)) = ⊥

  Told-Done : (u : Obra W) (x : Option (Trozo o)) → Told 0 u x → Done u x
  Told-Done u none h = h
  Told-Done u (some (acabada v)) h = h
  Told-Done u (some (a_medias g t)) h = h

  Done-eq : (u : Obra W) (x : Option (Trozo o)) → Done u x → x ≡ some (acabada u)
  Done-eq u none h = elim h [ ]
  Done-eq u (some (acabada v)) h = ap (λ (q : Obra W). some (acabada q)) h
  Done-eq u (some (a_medias g t)) h = elim h [ ]

  tras_ronda-Done :
      (k plazo : ℕ) (u : Obra W) (more : ℕ → Fase → Obra W → Option (Trozo o)) (x : Ronda W)
      → k ≤ plazo
      → ((p : ℕ) (f : Fase) (s : Obra W) → k ≤ suc p → EndsIn k f s u → Done u (more p f s))
      → After (EndsIn k) x u
      → Done u (tras_ronda o more plazo x)
  tras_ronda-Done k plazo u more (hecho s) le h a = a
  tras_ronda-Done k plazo u more (sigue f s) le h a = h plazo f s (omega arith) a
  tras_ronda-Done zero zero u more (mira f s) le h a = a
  tras_ronda-Done (suc k) zero u more (mira f s) le h a = absurd (omega arith)
  tras_ronda-Done k (suc plazo) u more (mira f s) le h a = h plazo f s (omega arith) a

  -- With a clock that lets every look pass, one slice ends the work.
  at_once :
      (k rounds plazo : ℕ) (f : Fase) (s u : Obra W)
      → k ≤ rounds
      → k ≤ suc plazo
      → EndsIn k f s u
      → Done u (fases o rounds plazo f s)
  unfolding fases
  at_once zero rounds plazo f s u le le' h = elim h [ ]
  at_once (suc k) zero plazo f s u le le' h = absurd (omega arith)
  at_once (suc k) (suc rounds) plazo f s u le le' h =
      tras_ronda-Done k plazo u (fases o rounds) (vuelta_fase o f s) (omega arith)
        (λ p g t lt e. at_once k rounds p g t u (omega arith) lt e) h

  pub fases_at_once :
      (k rounds : ℕ) (f : Fase) (s u : Obra W)
      → k ≤ rounds
      → EndsIn k f s u
      → fases o rounds rounds f s ≡ some (acabada u)
  fases_at_once k rounds f s u le h =
      Done-eq u (fases o rounds rounds f s) (at_once k rounds rounds f s u le (omega arith) h)

  frame-Told :
      (k rounds : ℕ) (plazos : List ℕ) (u : Obra W) (x : Option (Trozo o))
      → ((f : Fase) (s : Obra W) → EndsIn k f s u → Done u (cuadros o rounds plazos f s))
      → Told k u x
      → Done u (tras_trozo o (cuadros o rounds plazos) x)
  frame-Told k rounds plazos u none h a = a
  frame-Told k rounds plazos u (some (acabada v)) h a = a
  frame-Told k rounds plazos u (some (a_medias g t)) h a = h g t a

  frames-Done :
      (k rounds : ℕ) (plazos : List ℕ) (f : Fase) (s u : Obra W)
      → k ≤ rounds
      → k ≤ length plazos
      → EndsIn k f s u
      → Done u (cuadros o rounds plazos f s)
  unfolding cuadros
  frames-Done zero rounds plazos f s u le le' h = elim h [ ]
  frames-Done (suc k) rounds [] f s u le le' h = absurd (omega arith)
  frames-Done (suc k) rounds (plazo ∷ plazos) f s u le le' h =
      frame-Told k rounds plazos u (fases o rounds plazo f s)
        (λ g t e. frames-Done k rounds plazos g t u (omega arith) (omega arith) e)
        (less-Told k rounds plazo f s u le h)

  pub cuadros_done :
      (k rounds : ℕ) (plazos : List ℕ) (f : Fase) (s u : Obra W)
      → k ≤ rounds
      → k ≤ length plazos
      → EndsIn k f s u
      → cuadros o rounds plazos f s ≡ some (acabada u)
  cuadros_done k rounds plazos f s u le le' h =
      Done-eq u (cuadros o rounds plazos f s) (frames-Done k rounds plazos f s u le le' h)
