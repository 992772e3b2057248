-- ===== src/Presencia.antt =====
-- The other visitors (city3d.js): `setPresence`, which makes the avatars those of the list that the network
-- gives, and `rebuildAvatarLabels` is called or not.
pub mod Lista
pub mod Tests
use rami_ledger.Prelude.{
  ℕ, suc, ◌%◌, Bool, true, false, not, ◌&&◌, ◌||◌, Option, none, some, List, [], ◌∷◌, ◌++◌, ◌==◌,
  if◌then◌else◌,
}
use rami_ledger.Flotantes.{Flotantes}
use rami_ledger.Camara.{Vec3}

-- A text by its code units; a missing one is the empty one.
abbrev pub Texto : Type 0
Texto = List ℕ

abbrev pub mismo_texto : Texto → Texto → Bool
mismo_texto [] [] = true
mismo_texto [] (y ∷ ys) = false
mismo_texto (x ∷ xs) [] = false
mismo_texto (x ∷ xs) (y ∷ ys) = x == y && mismo_texto xs ys

-- `a || b`
abbrev pub o_texto : Texto → Texto → Texto
o_texto [] b = b
o_texto (x ∷ xs) b = x ∷ xs

abbrev pub mismo_si : Bool → Bool → Bool
mismo_si true b = b
mismo_si false b = not b

-- The length of `AVATAR_COLORS`.
abbrev pub n_colores : ℕ
n_colores = 16

abbrev pub hay_avatar {ℓ} : {A : Type ℓ} → Option A → Bool
hay_avatar none = false
hay_avatar (some a) = true

abbrev pub pon_en {ℓ} : {A : Type ℓ} → ℕ → A → (ℕ → A) → ℕ → A
pon_en k v g j = if j == k then v else g j

-- The loop that keeps those that were seen.
abbrev pub quedan : (ℕ → Bool) → List ℕ → List ℕ
quedan v [] = []
quedan v (k ∷ ks) = let rest = quedan v ks in if v k then k ∷ rest else rest

abbrev pub se_va_alguno : (ℕ → Bool) → List ℕ → Bool
se_va_alguno v [] = false
se_va_alguno v (k ∷ ks) = not (v k) || se_va_alguno v ks

abbrev pub borra {ℓ} : {A : Type ℓ} → (ℕ → Bool) → List ℕ → (ℕ → Option A) → ℕ → Option A
borra v [] g = g
borra v (k ∷ ks) g = borra v ks (if v k then g else pon_en k none g)

module _ (f : Flotantes) where
  -- What the network tells of a visitor; a public key is known by a number.
  pub record Anuncio : Type 0 where
    pub pk : ℕ
    pub me : Bool
    pub x : f.N
    pub y : f.N
    pub yaw : f.N
    pub name : Texto
    pub handle : Texto
    pub verified : Bool
    pub color : ℕ
    pub style : ℕ
    pub avatar : ℕ

  pub record Avatar : Type 0 where
    pub name : Texto
    pub verified : Bool
    pub style : ℕ
    pub color : ℕ
    pub cur : Vec3 f
    pub tgt : Vec3 f
    pub yaw : f.N
    pub yaw_t : f.N
    pub phase : f.N
    pub moving : f.N

  -- `S.avatars`, `S.avatarOrder`, and in a round of the loop `seen` and `changed`.
  pub record Avatares : Type 0 where
    pub avatars : ℕ → Option Avatar
    pub orden : List ℕ
    pub vistos : ℕ → Bool
    pub cambia : Bool

  -- Where a visitor stands, on the ground, and the phase that a new avatar starts with.
  pub record Suelo : Type 0 where
    pub local_to_world : f.N → f.N → f.N × f.N
    pub ground_h : f.N → f.N → f.N
    pub fase : ℕ → f.N

  module _ (su : Suelo) (ready : Bool) where
    abbrev pub donde_va : Anuncio → Vec3 f
    donde_va a =
        if ready
        then (let w = su.local_to_world a.x a.y in
            record { x = w.0; y = su.ground_h w.0 w.1; z = w.1 })
        else record { x = f.de 0; y = f.de 0; z = f.de 0 }

    -- With the seal goes the name of the chain, which is unique.
    abbrev pub rotulo : Anuncio → Texto
    rotulo a = if a.verified then o_texto a.handle a.name else a.name

    abbrev pub estilo_de : Anuncio → ℕ
    estilo_de a = (if a.verified then a.style else a.avatar) % 4

    abbrev pub color_de : Anuncio → ℕ
    color_de a = (if a.verified then a.color else a.avatar) % n_colores

    abbrev pub guinada : Anuncio → f.N
    guinada a = f.entre (f.por a.yaw f.pi) (f.de 180)

    abbrev pub nuevo : ℕ → Anuncio → Avatar
    nuevo i a = record {
      name = rotulo a;
      verified = a.verified;
      style = estilo_de a;
      color = color_de a;
      cur = donde_va a;
      tgt = donde_va a;
      yaw = guinada a;
      yaw_t = guinada a;
      phase = f.por (su.fase i) (f.de 6);
      moving = f.de 0;
    }

    -- `e.name !== label || e.verified !== verified || e.style !== style % 4`
    abbrev pub es_otro : Anuncio → Avatar → Bool
    es_otro a e =
        not (mismo_texto e.name (rotulo a))
        || (not (mismo_si e.verified a.verified) || not (e.style == estilo_de a))

    abbrev pub al_dia : Anuncio → Avatar → Avatar
    al_dia a e = record e {
      name = rotulo a;
      verified = a.verified;
      style = estilo_de a;
      tgt = donde_va a;
      yaw_t = guinada a;
      color = color_de a;
    }

    abbrev pub con_avatar : ℕ → Anuncio → Option Avatar → Avatares → Avatares
    con_avatar i a none s = record {
      avatars = pon_en a.pk (some (nuevo i a)) s.avatars;
      orden = s.orden ++ (a.pk ∷ []);
      vistos = pon_en a.pk true s.vistos;
      cambia = true;
    }
    con_avatar i a (some e) s = record {
      avatars = pon_en a.pk (some (al_dia a e)) s.avatars;
      orden = s.orden;
      vistos = pon_en a.pk true s.vistos;
      cambia = s.cambia || es_otro a e;
    }

    abbrev pub recibe : ℕ → Anuncio → Avatares → Avatares
    recibe i a s = if a.me then s else con_avatar i a (s.avatars a.pk) s

    abbrev pub reciben : ℕ → List (Option Anuncio) → Avatares → Avatares
    reciben i [] s = s
    reciben i (none ∷ l) s = reciben (suc i) l s
    reciben i (some a ∷ l) s = reciben (suc i) l (recibe i a s)

    abbrev pub se_quedan : Avatares → Avatares
    se_quedan s = record {
      avatars = borra s.vistos s.orden s.avatars;
      orden = quedan s.vistos s.orden;
      vistos = s.vistos;
      cambia = s.cambia || se_va_alguno s.vistos s.orden;
    }

    abbrev pub al_empezar : Avatares → Avatares
    al_empezar s = record s { vistos = λ k. false; cambia = false }

    -- `setPresence`, with whether the labels are made again.
    unfoldable pub set_presence : List (Option Anuncio) → Avatares → Bool × Avatares
    set_presence l s =
        let t : Avatares = se_quedan (reciben 0 l (al_empezar s)) in (t.cambia && ready, t)
