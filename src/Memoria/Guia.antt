-- ===== src/Memoria/Guia.antt =====
-- The guide of the first day (city/memoria.js): the steps that are done, `hechos`, `marca`, `abreGuia`,
-- `guarda`, how it is read when the page begins and opened when it is mounted.
use rami_ledger.Prelude.{
  ℕ, suc, ◌≡◌, refl, ap, Bool, true, false, not, ◌&&◌, ◌||◌, Option, none, some, List, [], ◌∷◌, ltb,
  if◌then◌else◌,
}

pub data PasoGuia : Type 0 where
  mirar paso_a_pie paso_entrar nombre rami fechas : PasoGuia

abbrev pub pasos_guia : List PasoGuia
pasos_guia = mirar ∷ paso_a_pie ∷ paso_entrar ∷ nombre ∷ rami ∷ fechas ∷ []

abbrev pub mismo_paso : PasoGuia → PasoGuia → Bool
mismo_paso mirar mirar = true
mismo_paso paso_a_pie paso_a_pie = true
mismo_paso paso_entrar paso_entrar = true
mismo_paso nombre nombre = true
mismo_paso rami rami = true
mismo_paso fechas fechas = true
mismo_paso a b = false

-- What is kept, and what the page works with: `c` is "closed".
pub record NotaGuia : Type 0 where
  pub h : PasoGuia → Bool
  pub c : Bool
  pub v : Bool

pub record Progreso : Type 0 where
  pub h : PasoGuia → Bool
  pub c : Bool
  pub visto : Bool

abbrev pub cuenta : (PasoGuia → Bool) → List PasoGuia → ℕ
cuenta h [] = 0
cuenta h (p ∷ ps) = let rest = cuenta h ps in if h p then suc rest else rest

abbrev pub hechos : Progreso → ℕ
hechos p = cuenta p.h pasos_guia

abbrev pub igual_a : Bool → Bool → Bool
igual_a true b = b
igual_a false b = not b

-- `JSON.parse`, which may throw or give `null`, and `JSON.stringify`.
pub record Papel (Texto : Type 0) : Type 0 where
  pub parse : Texto → Option NotaGuia
  pub stringify : NotaGuia → Texto

pub record EstadoGuia (Texto : Type 0) : Type 0 where
  pub progreso : Progreso
  pub guardado : Option Texto
  pub montada : Bool
  pub abierta : Bool
  pub resaltar : Bool

module _ {Texto : Type 0} (pa : Papel Texto) where
  abbrev pub de_nota : Option NotaGuia → Progreso
  de_nota none = record { h = λ p. false; c = false; visto = false }
  de_nota (some w) = record { h = w.h; c = w.c; visto = w.v || w.c }

  abbrev pub leida : Option Texto → Option NotaGuia
  leida none = none
  leida (some t) = pa.parse t

  abbrev pub lee_guia : Option Texto → Progreso
  lee_guia t = de_nota (leida t)

  -- `guarda`
  abbrev pub guarda_guia : EstadoGuia Texto → EstadoGuia Texto
  guarda_guia s = record s {
    guardado =
        some (pa.stringify (record { h = s.progreso.h; c = s.progreso.c; v = s.progreso.visto }));
  }

  abbrev pub pon_paso : PasoGuia → Bool → (PasoGuia → Bool) → PasoGuia → Bool
  pon_paso id v h p = if mismo_paso p id then v else h p

  abbrev pub con_paso : PasoGuia → Bool → EstadoGuia Texto → EstadoGuia Texto
  con_paso id v s = record s { progreso = record s.progreso { h = pon_paso id v s.progreso.h } }

  -- `marca`
  unfoldable pub marca : PasoGuia → Bool → EstadoGuia Texto → EstadoGuia Texto
  marca id v s = if igual_a (s.progreso.h id) v then s else guarda_guia (con_paso id v s)

  abbrev pub con_guia : Bool → EstadoGuia Texto → EstadoGuia Texto
  con_guia v s = record s {
    progreso = record s.progreso { c = not v; visto = v || s.progreso.visto };
    resaltar = not v && s.resaltar;
    abierta = v;
  }

  -- `abreGuia`
  unfoldable pub abre_guia : Bool → EstadoGuia Texto → EstadoGuia Texto
  abre_guia v s = if s.montada then guarda_guia (con_guia v s) else s

  -- What a page that begins reads, and what it shows once it is mounted, on a panel that is wide or not.
  abbrev pub al_cargar : Option Texto → EstadoGuia Texto
  al_cargar t = record {
    progreso = lee_guia t;
    guardado = t;
    montada = false;
    abierta = false;
    resaltar = false;
  }

  abbrev pub se_abre : Bool → Progreso → Bool
  se_abre ancha p = (not p.c && ltb (hechos p) 6) && (p.visto || ancha)

  abbrev pub montado : Bool → EstadoGuia Texto → EstadoGuia Texto
  montado on s =
      let nueva = (not s.progreso.c && not s.progreso.visto) && ltb (hechos s.progreso) 6 in
      record s { montada = true; abierta = on; resaltar = nueva && not on }

  abbrev pub ya_vista : EstadoGuia Texto → EstadoGuia Texto
  ya_vista s = record s { progreso = record s.progreso { visto = true } }

  unfoldable pub monta_guia : Bool → EstadoGuia Texto → EstadoGuia Texto
  monta_guia ancha s =
      let on = se_abre ancha s.progreso in
      let t : EstadoGuia Texto = montado on s in if on then guarda_guia (ya_vista t) else t

  pub data Toque : Type 0 where
    marcan : PasoGuia → Bool → Toque
    abren : Bool → Toque
    montan : Bool → Toque
    recargan : Toque

  abbrev pub toca : Toque → EstadoGuia Texto → EstadoGuia Texto
  toca (marcan id v) s = marca id v s
  toca (abren v) s = abre_guia v s
  toca (montan ancha) s = monta_guia ancha s
  toca recargan s = al_cargar s.guardado

  abbrev pub tocan : List Toque → EstadoGuia Texto → EstadoGuia Texto
  tocan [] s = s
  tocan (t ∷ ts) s = tocan ts (toca t s)

  -- Whoever has closed the guide has seen it.
  abbrev pub en_limpio : Progreso → Progreso
  en_limpio p = record p { visto = p.visto || p.c }

  pub record EsFiel (s : EstadoGuia Texto) : Type 0 where
    pub fiel : lee_guia s.guardado ≡ en_limpio s.progreso

  module _ (law : (w : NotaGuia) → pa.parse (pa.stringify w) ≡ some w) where
    kept-EsFiel : (s : EstadoGuia Texto) → EsFiel (guarda_guia s)
    kept-EsFiel s = record { fiel = ap de_nota (law _) }

    read_clean : (o : Option NotaGuia) → de_nota o ≡ en_limpio (de_nota o)
    read_clean none = refl
    read_clean (some w) = ap (λ b. record { h = w.h; c = w.c; visto = b }) (twice w.v w.c)
      where
        twice : (a b : Bool) → (a || b) ≡ ((a || b) || b)
        twice true b = refl
        twice false true = refl
        twice false false = refl

    either-EsFiel :
        (b : Bool) (s t : EstadoGuia Texto)
        → (b ≡ false → EsFiel s)
        → EsFiel (if b then guarda_guia t else s)
    either-EsFiel true s t h = kept-EsFiel t
    either-EsFiel false s t h = h refl

    same-EsFiel :
        (b : Bool) (s t : EstadoGuia Texto) → EsFiel s → EsFiel (if b then s else guarda_guia t)
    same-EsFiel true s t h = h
    same-EsFiel false s t h = kept-EsFiel t

    touch-EsFiel : (t : Toque) (s : EstadoGuia Texto) → EsFiel s → EsFiel (toca t s)
    unfolding marca abre_guia monta_guia
    touch-EsFiel (marcan id v) s h = same-EsFiel (igual_a (s.progreso.h id) v) s (con_paso id v s) h
    touch-EsFiel (abren v) s h = either-EsFiel s.montada s (con_guia v s) (λ e. h)
    touch-EsFiel (montan ancha) s h =
        let t : EstadoGuia Texto = montado (se_abre ancha s.progreso) s in
        either-EsFiel (se_abre ancha s.progreso) t (ya_vista t) (λ e. record { fiel = h.fiel })
    touch-EsFiel recargan s h = record { fiel = read_clean (leida s.guardado) }

    -- After whatever marks, openings, closings, mountings and loadings of the page, a page that is loaded
    -- again has the steps that were done and the guide closed if it was, and as seen if it was seen or
    -- closed: what is kept in the browser tells of the last change. Here a text that was written is read as
    -- what was written, and the browser keeps it.
    pub lee_guia-tocan :
        (ts : List Toque) (t : Option Texto)
        → lee_guia (tocan ts (al_cargar t)).guardado ≡ en_limpio (tocan ts (al_cargar t)).progreso
    lee_guia-tocan ts t = (all ts (al_cargar t) (record { fiel = read_clean (leida t) })).fiel
      where
        all : (us : List Toque) (s : EstadoGuia Texto) → EsFiel s → EsFiel (tocan us s)
        all [] s h = h
        all (u ∷ us) s h = all us (toca u s) (touch-EsFiel u s h)
