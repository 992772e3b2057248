-- ===== src/Png/Chunks.antt =====
-- A PNG file, chunk by chunk, as a writer lays it out, and the rounds of the loop of `parsePng` over it.
use rami_ledger.Prelude.{
  ℕ, suc, ◌+◌, ◌-◌, ◌/◌, ◌%◌, ◌^◌, ◌≡◌, refl, sym, ◌∙◌, ap, some, List, [], ◌∷◌, ◌++◌, arith,
  lt→ltb, not_ltb, length, length-drop, get_or, drop, drop-suc, read_at, move, drop_behind, elem_at,
  take-length-append,
}
use rami_ledger.Result.{ok}
use rami_ledger.Png.Parse.{Header, get32, ChunkKind, chunk_kind, chunks}

-- A 32-bit number, the high byte first.
abbrev pub be32 : ℕ → List ℕ → List ℕ
be32 n rest = (n / 2 ^ 24) ∷ (n / 2 ^ 16 % 256) ∷ (n / 2 ^ 8 % 256) ∷ (n % 256) ∷ rest

get32_at :
    (u8 : List ℕ) (q p n : ℕ) {rest : List ℕ} → drop q u8 ≡ be32 n rest → p ≡ q → get32 u8 p ≡ n
unfolding get32
get32_at u8 q p n e same =
    let e1 = drop-suc q u8 e in
    let e2 = drop-suc (suc q) u8 e1 in
    omega (
      arith,
      read_at u8 q p 0 e same,
      read_at u8 (suc q) (p + 1) 0 e1 (omega arith),
      read_at u8 (suc (suc q)) (p + 2) 0 e2 (omega arith),
      read_at u8 (suc (suc (suc q))) (p + 3) 0 (drop-suc (suc (suc q)) u8 e2) (omega arith),
    )

-- Behind four bytes.
behind32 :
    (u8 : List ℕ) (p : ℕ) {a b c d : ℕ} {rest : List ℕ}
    → drop p u8 ≡ a ∷ b ∷ c ∷ d ∷ rest
    → drop (p + 4) u8 ≡ rest
behind32 u8 p e =
    move u8 (suc (suc (suc (suc p)))) (p + 4)
      (drop-suc (suc (suc (suc p))) u8
        (drop-suc (suc (suc p)) u8 (drop-suc (suc p) u8 (drop-suc p u8 e))))
      (omega arith)

-- The type that stands behind the length.
abbrev IsNamed : List ℕ → ℕ → ℕ → ℕ → ℕ → ℕ → Type 0
IsNamed u8 p a b c d =
    (get_or u8 (p + 4) 0 ≡ a)
    × (get_or u8 (p + 5) 0 ≡ b)
    × (get_or u8 (p + 6) 0 ≡ c)
    × (get_or u8 (p + 7) 0 ≡ d)

name_at :
    (u8 : List ℕ) (p a b c d : ℕ) {rest : List ℕ}
    → drop (p + 4) u8 ≡ a ∷ b ∷ c ∷ d ∷ rest
    → IsNamed u8 p a b c d × (drop (p + 8) u8 ≡ rest)
name_at u8 p a b c d e =
    let e1 = drop-suc (p + 4) u8 e in
    let e2 = drop-suc (suc (p + 4)) u8 e1 in
    let e3 = drop-suc (suc (suc (p + 4))) u8 e2 in
    (
      (
        read_at u8 (p + 4) (p + 4) 0 e refl,
        read_at u8 (suc (p + 4)) (p + 5) 0 e1 (omega arith),
        read_at u8 (suc (suc (p + 4))) (p + 6) 0 e2 (omega arith),
        read_at u8 (suc (suc (suc (p + 4)))) (p + 7) 0 e3 (omega arith),
      ),
      move u8 (suc (suc (suc (suc (p + 4))))) (p + 8) (drop-suc (suc (suc (suc (p + 4)))) u8 e3)
          (omega arith),
    )

kind_idat :
    (u8 : List ℕ) (p : ℕ) → IsNamed u8 p b'I' b'D' b'A' b'T' → chunk_kind u8 p ≡ ChunkKind.idat
unfolding chunk_kind
kind_idat u8 p (a, b, c, d) = rw (a, b, c, d)

kind_ihdr :
    (u8 : List ℕ) (p : ℕ) → IsNamed u8 p b'I' b'H' b'D' b'R' → chunk_kind u8 p ≡ ChunkKind.ihdr
unfolding chunk_kind
kind_ihdr u8 p (a, b, c, d) = rw (a, b, c, d)

kind_iend :
    (u8 : List ℕ) (p : ℕ) → IsNamed u8 p b'I' b'E' b'N' b'D' → chunk_kind u8 p ≡ ChunkKind.iend
unfolding chunk_kind
kind_iend u8 p (a, b, c, d) = rw (a, b, c, d)

-- As many bytes are left as the list behind shows.
left_bytes : (u8 : List ℕ) (p : ℕ) {ys : List ℕ} → drop p u8 ≡ ys → length u8 - p ≡ length ys
left_bytes u8 p e = sym (length-drop p u8) ∙ ap length e

-- A chunk: its length, its type, its body, its checksum, which is not read.
abbrev pub Crc : Type 0
Crc = record { a : ℕ; b : ℕ; c : ℕ; d : ℕ }

abbrev pub crc : Crc → List ℕ → List ℕ
crc k rest = k.a ∷ k.b ∷ k.c ∷ k.d ∷ rest

abbrev pub chunk_idat : List ℕ → Crc → List ℕ → List ℕ
chunk_idat body k rest = be32 (length body) (b'I' ∷ b'D' ∷ b'A' ∷ b'T' ∷ (body ++ crc k rest))

abbrev pub chunk_ihdr : ℕ → ℕ → ℕ → ℕ → ℕ → ℕ → ℕ → Crc → List ℕ → List ℕ
chunk_ihdr width height depth ctype z f interlace k rest = be32 13 (
    b'I'
    ∷ b'H'
    ∷ b'D'
    ∷ b'R'
    ∷ be32 width (be32 height (depth ∷ ctype ∷ z ∷ f ∷ interlace ∷ crc k rest)))

abbrev pub chunk_iend : List ℕ → List ℕ
chunk_iend rest = be32 0 (b'I' ∷ b'E' ∷ b'N' ∷ b'D' ∷ rest)

-- The rounds of the loop at a chunk of each kind.
pub chunks_idat :
    (fuel : ℕ) (u8 : List ℕ) (p : ℕ) (h : Header) (body : List ℕ) (k : Crc) (rest : List ℕ)
    → drop p u8 ≡ chunk_idat body k rest
    → (drop (p + 8 + length body + 4) u8 ≡ rest)
      × (chunks (suc fuel) u8 p h
          ≡ chunks fuel u8
              (p + 8 + length body + 4)
              (record h { idat = h.idat ++ body; idat_len = h.idat_len + length body }))
unfolding chunks
chunks_idat fuel u8 p h body k rest e =
    let name = name_at u8 p b'I' b'D' b'A' b'T' (behind32 u8 p e) in
    let n = get32_at u8 p p (length body) e refl in
    let left = left_bytes u8 p e in
    let body_end = drop_behind u8 (p + 8) body (crc k rest) name.1 in
    (
      behind32 u8 (p + 8 + length body) body_end,
      rw (
        lt→ltb p (length u8) (omega arith),
        not_ltb (length u8) (p + 4) (omega arith),
        kind_idat u8 p name.0,
        n,
        name.1,
        take-length-append body (crc k rest),
      ),
    )

pub chunks_ihdr :
    (fuel : ℕ) (u8 : List ℕ) (p : ℕ) (h : Header) (w t depth ctype z f i : ℕ) (k : Crc)
    (rest : List ℕ)
    → drop p u8 ≡ chunk_ihdr w t depth ctype z f i k rest
    → (drop (p + 25) u8 ≡ rest)
      × (chunks (suc fuel) u8 p h
          ≡ chunks fuel u8 (p + 25) (record h {
            width = w;
            height = t;
            depth = some depth;
            ctype = some ctype;
            interlace = some i;
          }))
unfolding chunks
chunks_ihdr fuel u8 p h w t depth ctype z f i k rest e =
    let name = name_at u8 p b'I' b'H' b'D' b'R' (behind32 u8 p e) in
    let n = get32_at u8 p p 13 e refl in
    let left = left_bytes u8 p e in
    let at_12 = behind32 u8 (p + 8) name.1 in
    let at_16 = behind32 u8 (p + 8 + 4) at_12 in
    let at_17 = drop-suc (p + 8 + 4 + 4) u8 at_16 in
    let five : List ℕ = depth ∷ ctype ∷ z ∷ f ∷ i ∷ [] in
    let at_21 = drop_behind u8 (p + 8 + 4 + 4) five (crc k rest) at_16 in
    let at_20 =
      drop_behind u8 (p + 8 + 4 + 4) (depth ∷ ctype ∷ z ∷ f ∷ []) (i ∷ crc k rest) at_16 in
    (
      move u8 (p + 8 + 4 + 4 + 5 + 4) (p + 25) (behind32 u8 (p + 8 + 4 + 4 + 5) at_21)
          (omega arith),
      rw
          (
            lt→ltb p (length u8) (omega arith),
            not_ltb (length u8) (p + 4) (omega arith),
            kind_ihdr u8 p name.0,
            not_ltb (length u8) (p + 16) (omega arith),
            n,
            get32_at u8 (p + 8) (p + 8) w name.1 refl,
            get32_at u8 (p + 8 + 4) (p + 12) t at_12 (omega arith),
            elem_at u8 (p + 8 + 4 + 4) (p + 16) at_16 (omega arith),
            elem_at u8 (suc (p + 8 + 4 + 4)) (p + 17) at_17 (omega arith),
            elem_at u8 (p + 8 + 4 + 4 + 4) (p + 20) at_20 (omega arith),
          )
          (ap
            (λ (q : ℕ). chunks fuel u8 q (record h {
              width = w;
              height = t;
              depth = some depth;
              ctype = some ctype;
              interlace = some i;
            }))
            {x = p + 8 + 13 + 4} (omega arith)),
    )

-- The loop ends at IEND.
pub chunks_iend :
    (fuel : ℕ) (u8 : List ℕ) (p : ℕ) (h : Header) (rest : List ℕ)
    → drop p u8 ≡ chunk_iend rest
    → chunks (suc fuel) u8 p h ≡ ok h
unfolding chunks
chunks_iend fuel u8 p h rest e =
    let name = name_at u8 p b'I' b'E' b'N' b'D' (behind32 u8 p e) in
    let left = left_bytes u8 p e in
    rw (
      lt→ltb p (length u8) (omega arith),
      not_ltb (length u8) (p + 4) (omega arith),
      kind_iend u8 p name.0,
    )
