-- ===== src/Png/Total.antt =====
-- The loop of `parsePng` ends: every round moves on by at least the twelve bytes around a body.
use rami_ledger.Prelude.{
  ℕ, zero, suc, ◌+◌, ◌≤◌, ◌≡◌, ◌≢◌, refl, sym, ◌∙◌, Bool, true, false, not, List, arith, ltb,
  not_ltb, if◌then◌else◌, length,
}
use rami_ledger.Result.{
  Result, ok, thrown, unfinished, ◌>>=◌, bad_signature, unsupported, range_error,
}
use rami_ledger.Png.Parse.{
  Header, get32, ChunkKind, chunk_kind, chunks, check_header, no_header, signature, starts_with,
  parse_png,
}

-- The computation has ended.
abbrev Ends {ℓ} : {A : Type ℓ} → Result A → Type ℓ
Ends x = x ≢ unfinished

ok-Ends : {A : Type 0} (a : A) → Ends (ok a)
ok-Ends a e = cc

thrown-Ends : {A : Type 0} (e : _) → Ends {A = A} (thrown e)
thrown-Ends x e = cc

if_Ends : {A : Type 0} (b : Bool) (x y : Result A) → Ends x → Ends y → Ends (if b then x else y)
if_Ends true x y p q = p
if_Ends false x y p q = q

bind-Ends :
    {A B : Type 0} (x : Result A) (f : A → Result B)
    → Ends x
    → ((a : A) → Ends (f a))
    → Ends (x >>= f)
bind-Ends (ok a) f p q = q a
bind-Ends (thrown e) f p q = thrown-Ends e
bind-Ends unfinished f p q = absurd (p refl)

kind-Ends :
    (k : ChunkKind) (b : Bool) (x y z : Result Header) (h : Header)
    → Ends x
    → Ends y
    → Ends z
    → Ends (elim k as (λ _. Result Header) [
      | ChunkKind.ihdr ↦ if b then thrown range_error else x
      | ChunkKind.idat ↦ y
      | ChunkKind.iend ↦ ok h
      | ChunkKind.other ↦ z
    ])
kind-Ends ChunkKind.ihdr b x y z h p q r = if_Ends b (thrown range_error) x (thrown-Ends _) p
kind-Ends ChunkKind.idat b x y z h p q r = q
kind-Ends ChunkKind.iend b x y z h p q r = ok-Ends h
kind-Ends ChunkKind.other b x y z h p q r = r

chunks_past :
    (fuel : ℕ) (u8 : List ℕ) (p : ℕ) (h : Header) → length u8 ≤ p → chunks (suc fuel) u8 p h ≡ ok h
unfolding chunks
chunks_past fuel u8 p h past = rw (not_ltb p (length u8) past)

chunks-Ends :
    (fuel : ℕ) (u8 : List ℕ) (p : ℕ) (h : Header)
    → length u8 ≤ fuel + p
    → Ends (chunks (suc fuel) u8 p h)
unfolding chunks
chunks-Ends zero u8 p h e = λ u. ok-Ends h (sym (chunks_past zero u8 p h (omega arith)) ∙ u)
chunks-Ends (suc fuel) u8 p h e =
    let on = λ (k : Header). chunks-Ends fuel u8 (p + 8 + get32 u8 p + 4) k (omega arith) in
    if_Ends (not (ltb p (length u8))) _ _ (ok-Ends h) (
      if_Ends (ltb (length u8) (p + 4)) _ _ (thrown-Ends _)
        (kind-Ends (chunk_kind u8 p) _ _ _ _ h (on _) (on _) (on _)))

check_header-Ends : (h : Header) → Ends (check_header h)
unfolding check_header
check_header-Ends h = if_Ends _ _ _ (ok-Ends _) (thrown-Ends unsupported)

-- `parsePng` ends on every file: it returns what it read of the header, or throws.
pub parse_png-ends : (u8 : List ℕ) → parse_png u8 ≢ unfinished
unfolding parse_png
parse_png-ends u8 =
    if_Ends (starts_with signature u8) _ _
      (bind-Ends (chunks (suc (length u8)) u8 8 no_header) check_header
        (chunks-Ends (length u8) u8 8 no_header (omega arith)) check_header-Ends)
      (thrown-Ends bad_signature)
