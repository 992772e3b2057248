-- ===== src/Png/Parse.antt =====
-- `parsePng`: the signature, the chunks and the checks on the header.
use rami_ledger.Prelude.{
  ℕ, zero, suc, ◌+◌, ◌-◌, ◌*◌, ◌^◌, Bool, true, false, not, ◌&&◌, ◌||◌, Option, none, some, List,
  [], ◌∷◌, ◌++◌, ltb, ◌==◌, if◌then◌else◌, length, get_or, get_elem?, take, drop, replicate,
}
use rami_ledger.Result.{
  Result, ok, thrown, unfinished, ◌>>=◌, bad_signature, unsupported, range_error,
}

-- The variables of the loop over the chunks. A byte outside the file is `undefined`, here `none`.
-- `idat` is the bytes of the IDAT chunks so far and `idat_len` their declared length.
pub record Header : Type 0 where
  pub width : ℕ
  pub height : ℕ
  pub depth : Option ℕ
  pub ctype : Option ℕ
  pub interlace : Option ℕ
  pub idat : List ℕ
  pub idat_len : ℕ

pub record Info : Type 0 where
  pub width : ℕ
  pub height : ℕ
  pub depth : ℕ
  pub z : List ℕ
  pub bpp : ℕ
  pub stride : ℕ

abbrev pub signature : List ℕ
signature = 137 ∷ 80 ∷ 78 ∷ 71 ∷ 13 ∷ 10 ∷ 26 ∷ 10 ∷ []

-- The bytes of `a` stand at the start of `b`.
abbrev pub starts_with : List ℕ → List ℕ → Bool
starts_with [] b = true
starts_with (x ∷ a) [] = false
starts_with (x ∷ a) (y ∷ b) = y == x && starts_with a b

-- The four bytes of `getUint32(p)`.
unfoldable pub get32 : List ℕ → ℕ → ℕ
get32 u8 p =
    get_or u8 p 0 * 2 ^ 24
    + get_or u8 (p + 1) 0 * 2 ^ 16
    + get_or u8 (p + 2) 0 * 2 ^ 8
    + get_or u8 (p + 3) 0

-- A chunk's type; `String.fromCharCode(undefined)` is the character 0.
abbrev pub has_type : List ℕ → ℕ → ℕ → ℕ → ℕ → ℕ → Bool
has_type u8 p a b c d =
    get_or u8 (p + 4) 0 == a
    && get_or u8 (p + 5) 0 == b
    && get_or u8 (p + 6) 0 == c
    && get_or u8 (p + 7) 0 == d

pub data ChunkKind : Type 0 where
  ihdr idat iend other : ChunkKind

unfoldable pub chunk_kind : List ℕ → ℕ → ChunkKind
chunk_kind u8 p =
    if has_type u8 p b'I' b'H' b'D' b'R'
    then ChunkKind.ihdr
    else if has_type u8 p b'I' b'D' b'A' b'T'
    then ChunkKind.idat
    else if has_type u8 p b'I' b'E' b'N' b'D'
    then ChunkKind.iend
    else ChunkKind.other

-- The chunk at `p`; its body starts at `p + 8`.
abbrev pub read_ihdr : List ℕ → ℕ → Header → Header
read_ihdr u8 p h = record h {
  width = get32 u8 (p + 8);
  height = get32 u8 (p + 12);
  depth = get_elem? u8 (p + 16);
  ctype = get_elem? u8 (p + 17);
  interlace = get_elem? u8 (p + 20);
}

abbrev pub read_idat : List ℕ → ℕ → Header → Header
read_idat u8 p h = record h {
  idat = h.idat ++ take (get32 u8 p) (drop (p + 8) u8);
  idat_len = h.idat_len + get32 u8 p;
}

-- `while (p < u8.length)`; `DataView` throws outside the file.
unfoldable pub chunks : ℕ → List ℕ → ℕ → Header → Result Header
chunks zero u8 p h = unfinished
chunks (suc fuel) u8 p h =
    let next = p + 8 + get32 u8 p + 4 in
    let after_ihdr = chunks fuel u8 next (read_ihdr u8 p h) in
    let after_idat = chunks fuel u8 next (read_idat u8 p h) in
    let after_other = chunks fuel u8 next h in
    let round = elim (chunk_kind u8 p) as (λ _. Result Header) [
      | ChunkKind.ihdr ↦ if ltb (length u8) (p + 16) then thrown range_error else after_ihdr
      | ChunkKind.idat ↦ after_idat
      | ChunkKind.iend ↦ ok h
      | ChunkKind.other ↦ after_other
    ] in
    if not (ltb p (length u8))
    then ok h
    else if ltb (length u8) (p + 4)
    then thrown range_error
    else round

abbrev pub is_value : Option ℕ → ℕ → Bool
is_value none n = false
is_value (some m) n = m == n

-- The checks behind the loop, and what `parsePng` returns. Behind the bytes of the IDAT chunks the
-- new array holds zeros, up to the declared length.
unfoldable pub check_header : Header → Result Info
check_header h =
    let depth = if is_value h.depth 16 then 16 else 8 in
    let bpp = if is_value h.depth 16 then 2 else 1 in
    if is_value h.ctype 0 && (is_value h.depth 8 || is_value h.depth 16) && is_value h.interlace 0
    then ok (record {
      width = h.width;
      height = h.height;
      depth = depth;
      z = h.idat ++ replicate (h.idat_len - length h.idat) 0;
      bpp = bpp;
      stride = h.width * bpp;
    })
    else thrown unsupported

abbrev pub no_header : Header
no_header = record {
  width = 0;
  height = 0;
  depth = some 0;
  ctype = some 0;
  interlace = some 0;
  idat = [];
  idat_len = 0;
}

-- Every round moves `p` on, so that the length of the file bounds the rounds.
unfoldable pub parse_png : List ℕ → Result Info
parse_png u8 =
    let parsed = chunks (suc (length u8)) u8 8 no_header >>= check_header in
    if starts_with signature u8 then parsed else thrown bad_signature
