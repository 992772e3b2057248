-- ===== src/Umbral/Guardado.antt =====
-- What is kept of a floor comes back.
use rami_ledger.Prelude.{
  ℕ, ◌≡◌, refl, ap, ◌∙◌, Bool, true, false, Option, none, some, List, [], ◌∷◌, if◌then◌else◌, map,
  All,
}
use rami_ledger.Flotantes.{Flotantes}
use rami_ledger.Umbral.Estado.{Mueble, Lampara, Espacio}
use rami_ledger.Umbral.Pisos.{
  Datos, Navegador, enciende, lee_lamparas, con_datos, leido, lee_piso, luces, datos, guarda_en,
  guarda_piso, apaga, restaura_piso,
}
use rami_ledger.Umbral.Anotados.{
  same_key, EsAnotable, Distintos, EsJson, redondeado, furniture_back, written,
}

module _ (f : Flotantes) {Texto : Type 0} (nav : Navegador f Texto) where
  lamp_at :
      (on fija techo_fijo : Bool)
      → let l : Lampara = record { on = on; fija = fija; techo_fijo = techo_fijo } in
        enciende f nav (apaga f nav (some l)) on ≡ some l
  lamp_at on true techo_fijo = refl
  lamp_at on false true = refl
  lamp_at on false false = refl

  lamp_kept :
      (on fija techo_fijo : Bool)
      → let l : Lampara = record { on = on; fija = fija; techo_fijo = techo_fijo } in
        enciende f nav (some l) on ≡ some l
  lamp_kept on true techo_fijo = refl
  lamp_kept on false techo_fijo = refl

  lamps_back :
      (ls : List (Option Lampara)) → lee_lamparas f nav (luces f nav ls) (map (apaga f nav) ls) ≡ ls
  lamps_back [] = refl
  lamps_back (none ∷ ls) = ap (λ q. none ∷ q) (lamps_back ls)
  lamps_back (some l ∷ ls) =
      ap (λ q. q ∷ lee_lamparas f nav (luces f nav ls) (map (apaga f nav) ls))
        (lamp_at l.on l.fija l.techo_fijo)
      ∙ ap (λ q. some l ∷ q) (lamps_back ls)

  lamps_kept : (ls : List (Option Lampara)) → lee_lamparas f nav (luces f nav ls) ls ≡ ls
  lamps_kept [] = refl
  lamps_kept (none ∷ ls) = ap (λ q. none ∷ q) (lamps_kept ls)
  lamps_kept (some l ∷ ls) =
      ap (λ q. q ∷ lee_lamparas f nav (luces f nav ls) ls) (lamp_kept l.on l.fija l.techo_fijo)
      ∙ ap (λ q. some l ∷ q) (lamps_kept ls)

  reset_read :
      (e : Espacio f) (almacen : ℕ → Option Texto) (mus : List (Mueble f))
      → Distintos f nav mus
      → All (EsAnotable f nav) mus
      → con_datos f nav
          (restaura_piso f nav (record e { muebles = mus }) almacen).1.0
          (some (datos f nav (record e { muebles = mus })))
        ≡ record e { muebles = map (redondeado f nav) mus; recuperado = true }
  unfolding restaura_piso
  reset_read e almacen [] d a =
      ap (λ z. record e { muebles = []; lamparas = z; recuperado = true }) (lamps_kept e.lamparas)
  reset_read e almacen (mu ∷ mus) d a =
      ap
        (λ z. record e {
          muebles = z;
          lamparas = lee_lamparas f nav (luces f nav e.lamparas) (map (apaga f nav) e.lamparas);
          recuperado = true;
        })
        (furniture_back f nav (mu ∷ mus) d a)
      ∙ ap
          (λ z. record e {
            muebles = map (redondeado f nav) (mu ∷ mus);
            lamparas = z;
            recuperado = true;
          })
          (lamps_back e.lamparas)

  same_floor :
      (e : Espacio f) (almacen : ℕ → Option Texto)
      → (restaura_piso f nav e almacen).1.0.piso_id ≡ e.piso_id
  unfolding restaura_piso
  same_floor e almacen = by_list e.muebles
    where
      by_list :
          (mus : List (Mueble f))
          → (restaura_piso f nav (record e { muebles = mus }) almacen).1.0.piso_id ≡ e.piso_id
      by_list [] = refl
      by_list (mu ∷ mus) = refl

  read_at :
      (id : ℕ) (almacen : ℕ → Option Texto) (t : Texto) (e : Espacio f) (d : Datos f)
      → e.piso_id ≡ some id
      → almacen id ≡ some t
      → nav.parse t ≡ some d
      → lee_piso f nav almacen e ≡ con_datos f nav e (some d)
  unfolding lee_piso
  read_at id almacen t e d p q r =
      ap
        (λ (z : Option ℕ). elim z as (λ y. Espacio f) [
          | none ↦ e
          | some k ↦ con_datos f nav e (leido f nav (almacen k))
        ])
        p
      ∙ ap (λ z. con_datos f nav e (leido f nav z)) q
      ∙ ap (λ z. con_datos f nav e z) r

  kept_at :
      (id : ℕ) (e : Espacio f) (almacen : ℕ → Option Texto)
      → e.piso_id ≡ some id
      → nav.cabe id (nav.stringify (datos f nav e)) ≡ true
      → ((guarda_piso f nav (some e) almacen).0 ≡ true)
        × ((guarda_piso f nav (some e) almacen).1 id ≡ some (nav.stringify (datos f nav e)))
  unfolding guarda_piso
  kept_at id e almacen p q = by_id e.piso_id p
    where
      by_id :
          (o : Option ℕ)
          → o ≡ some id
          → let g = λ (z : Option ℕ). elim z as (λ y. Bool × (ℕ → Option Texto)) [
            | none ↦ (false, almacen)
            | some k ↦
                let t = nav.stringify (datos f nav e) in
                if nav.cabe k t
                then (true, guarda_en f nav k (some t) almacen)
                else (false, almacen)
          ] in
            ((g o).0 ≡ true) × ((g o).1 id ≡ some (nav.stringify (datos f nav e)))
      by_id o h = rw (h, q) (rw (same_key id) (refl, refl))

  -- A floor that is kept, whose furniture is then put back where it stood at first and whose lamps are put
  -- out, is as it was when it was kept once it is read again, but that each piece of furniture stands where
  -- it stood, rounded to centimetres and fitted in its room; and the floor is marked as recovered. Here the
  -- browser takes the text and JSON gives back what it has written, where no number is infinite, `NaN` or
  -- a negative zero and no key stands twice; no two pieces have one name, and of each the centimetres are
  -- such numbers and the turn is a quarter.
  pub guarda_piso-lee_piso :
      (id : ℕ) (e : Espacio f) (almacen : ℕ → Option Texto)
      → e.piso_id ≡ some id
      → nav.cabe id (nav.stringify (datos f nav e)) ≡ true
      → EsJson f nav
      → Distintos f nav e.muebles
      → All (EsAnotable f nav) e.muebles
      → let g = guarda_piso f nav (some e) almacen in
        (g.0 ≡ true)
        × (lee_piso f nav g.1 (restaura_piso f nav e g.1).1.0
            ≡ record e { muebles = map (redondeado f nav) e.muebles; recuperado = true })
  guarda_piso-lee_piso id e almacen p q back d a =
      let g = guarda_piso f nav (some e) almacen in
      let (done, at) = kept_at id e almacen p q in
      (
        done,
        read_at id g.1 (nav.stringify (datos f nav e)) (restaura_piso f nav e g.1).1.0
              (datos f nav e) (same_floor e g.1 ∙ p) at
              (back (datos f nav e) (written f nav e.muebles d a))
            ∙ reset_read e g.1 e.muebles d a,
      )
