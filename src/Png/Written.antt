-- ===== src/Png/Written.antt =====
-- A whole PNG file as a writer lays it out, and what `parsePng` and `decodePngGray` make of it.
use mathlib.Core.List.{append_assoc, append-nil}
use rami_ledger.Prelude.{
  ℕ, zero, suc, ◌+◌, ◌-◌, ◌*◌, ◌%◌, ◌≤◌, ◌<◌, ◌≡◌, refl, sym, ◌∙◌, ap, Bool, true, false, some,
  List, [], ◌∷◌, ◌++◌, arith, if◌then◌else◌, length, length-append, drop, replicate, All,
}
use rami_ledger.Result.{ok, ◌>>=◌}
use rami_ledger.Inflate.Blocks.{inflate}
use rami_ledger.Inflate.Stored.{stored_block, stored_blocks, concat, inflate_stored}
use rami_ledger.Png.Parse.{Header, Info, signature, chunks, check_header, no_header, parse_png}
use rami_ledger.Png.Unfilter.{unfilter_png}
use rami_ledger.Png.Filters.{Row, filter_rows, row_samples, IsRow, unfilter_png-filter_rows}
use rami_ledger.Png.Chunks.{
  Crc, chunk_idat, chunk_ihdr, chunk_iend, chunks_idat, chunks_ihdr, chunks_iend,
}
use rami_ledger.Png.Decode.{custom, decode_png_gray}

-- A body for an IDAT chunk with its checksum.
abbrev pub Body : Type 0
Body = record { bytes : List ℕ; k : Crc }

abbrev pub idats : List Body → List ℕ → List ℕ
idats [] rest = rest
idats (c ∷ cs) rest = chunk_idat c.bytes c.k (idats cs rest)

abbrev pub bodies : List Body → List ℕ
bodies [] = []
bodies (c ∷ cs) = c.bytes ++ bodies cs

abbrev pub depth_of : Bool → ℕ
depth_of sixteen = if sixteen then 16 else 8

-- A file: one header, for gray samples that are not interlaced, the data, the end and what follows.
abbrev pub png_file :
    (width height : ℕ) (sixteen : Bool) (k : Crc) (cs : List Body) (rest : List ℕ) → List ℕ
png_file width height sixteen k cs rest =
    signature ++ chunk_ihdr width height (depth_of sixteen) 0 0 0 0 k (idats cs (chunk_iend rest))

abbrev pub info_of : ℕ → ℕ → Bool → List ℕ → Info
info_of width height sixteen z = record {
  width = width;
  height = height;
  depth = depth_of sixteen;
  z = z;
  bpp = if sixteen then 2 else 1;
  stride = width * (if sixteen then 2 else 1);
}

abbrev with_idat : Header → List ℕ → ℕ → Header
with_idat h z n = record h { idat = z; idat_len = n }

chunks-idats :
    (fuel : ℕ) (u8 : List ℕ) (p : ℕ) (h : Header) (cs : List Body) (rest : List ℕ)
    → length cs < fuel
    → drop p u8 ≡ idats cs (chunk_iend rest)
    → chunks fuel u8 p h ≡ ok (with_idat h (h.idat ++ bodies cs) (h.idat_len + length (bodies cs)))
chunks-idats zero u8 p h cs rest enough e = elim enough [ ]
chunks-idats (suc fuel) u8 p h [] rest enough e =
    chunks_iend fuel u8 p h rest e
    ∙ cc (
      ap (λ (z : List ℕ). with_idat h z h.idat_len) (sym (append-nil h.idat)),
      ap (λ (n : ℕ). with_idat h (h.idat ++ []) n) {x = h.idat_len} {y = h.idat_len + 0}
          (omega arith),
    )
chunks-idats (suc fuel) u8 p h (c ∷ cs) rest enough e =
    let (left, round) = chunks_idat fuel u8 p h c.bytes c.k (idats cs (chunk_iend rest)) e in
    let more =
      chunks-idats fuel u8 (p + 8 + length c.bytes + 4)
        (with_idat h (h.idat ++ c.bytes) (h.idat_len + length c.bytes)) cs rest (omega arith)
        left in
    let z = (h.idat ++ c.bytes) ++ bodies cs in
    let same : h.idat_len + length c.bytes + length (bodies cs)
        ≡ h.idat_len + length (c.bytes ++ bodies cs) =
      omega (arith, length-append c.bytes (bodies cs)) in
    round
    ∙ more
    ∙ ap (λ (n : ℕ). ok (with_idat h z n)) same
    ∙ ap (λ (l : List ℕ). ok (with_idat h l (h.idat_len + length (c.bytes ++ bodies cs))))
        (append_assoc h.idat c.bytes (bodies cs))

idats_long : (cs : List Body) (rest : List ℕ) → length cs ≤ length (idats cs rest)
idats_long [] rest = omega arith
idats_long (c ∷ cs) rest = omega (
  arith,
  length-append c.bytes (c.k.a ∷ c.k.b ∷ c.k.c ∷ c.k.d ∷ idats cs rest),
  idats_long cs rest,
)

replicate_none : (n : ℕ) (z : List ℕ) → n ≡ length z → z ++ replicate (n - length z) 0 ≡ z
replicate_none n z e =
    ap (λ (k : ℕ). z ++ replicate k 0) {x = n - length z} {y = 0} (omega arith) ∙ append-nil z

read_header :
    (w t n : ℕ) (sixteen : Bool) (z : List ℕ)
    → n ≡ length z
    → check_header (record {
      width = w;
      height = t;
      depth = some (depth_of sixteen);
      ctype = some 0;
      interlace = some 0;
      idat = z;
      idat_len = n;
    })
      ≡ ok (info_of w t sixteen z)
unfolding check_header
read_header w t n true z e = ap (λ (l : List ℕ). ok (info_of w t true l)) (replicate_none n z e)
read_header w t n false z e = ap (λ (l : List ℕ). ok (info_of w t false l)) (replicate_none n z e)

-- `parsePng` reads off a written file its sizes, its depth, and the bodies of its IDAT chunks, one
-- behind the other, whatever checksums and bytes behind the end the file has.
pub parse_png-png_file :
    (w t : ℕ) (sixteen : Bool) (k : Crc) (cs : List Body) (rest : List ℕ)
    → parse_png (png_file w t sixteen k cs rest) ≡ ok (info_of w t sixteen (bodies cs))
unfolding parse_png
parse_png-png_file w t sixteen k cs rest =
    let u8 = png_file w t sixteen k cs rest in
    let (left, first) =
      chunks_ihdr (length u8) u8 8 no_header w t (depth_of sixteen) 0 0 0 0 k
        (idats cs (chunk_iend rest)) refl in
    let more =
      chunks-idats (length u8) u8 33 _ cs rest (omega (arith, idats_long cs (chunk_iend rest)))
        left in
    ap (λ r. r >>= check_header) (first ∙ more)
    ∙ read_header w t (0 + length (bodies cs)) sixteen (bodies cs) (omega arith)

-- A file whose data is the filtered rows of an image, in stored blocks, is decoded to the samples of
-- the image: the rows hold bytes, as many as a row of the image has, there are as many rows as the
-- height says, whatever their filters and however the stream is cut into blocks and chunks, and
-- there is a round of fuel for each block.
pub decode_png_gray-png_file :
    (fuel w t : ℕ) (sixteen : Bool) (k : Crc) (cs : List Body) (rest : List ℕ) (rows : List Row)
    (cmf flg : ℕ) (ds : List (List ℕ)) (d trailer : List ℕ)
    → bodies cs ≡ cmf ∷ flg ∷ ((stored_blocks ds ++ stored_block 1 d) ++ trailer)
    → concat ds ++ d
      ≡ filter_rows (if sixteen then 2 else 1) (replicate (w * (if sixteen then 2 else 1)) 0) rows
    → cmf % 16 ≡ 8
    → length ds < fuel
    → All (IsRow (w * (if sixteen then 2 else 1))) rows
    → length rows ≡ t
    → decode_png_gray fuel (png_file w t sixteen k cs rest)
      ≡ ok (record {
        width = w;
        height = t;
        depth = depth_of sixteen;
        samples = row_samples (depth_of sixteen) rows;
      })
unfolding decode_png_gray
decode_png_gray-png_file fuel w t sixteen k cs rest rows cmf flg ds d trailer stream raw m enough
      fit count =
    let info = info_of w t sixteen (bodies cs) in
    let filtered = filter_rows info.bpp (replicate info.stride 0) rows in
    let inflated : inflate fuel info.z ≡ ok (filtered ++ []) =
      ap (inflate fuel) stream
      ∙ inflate_stored fuel cmf flg ds d trailer m enough
      ∙ ap ok (raw ∙ sym (append-nil filtered)) in
    ap (λ r. r >>= custom fuel) (parse_png-png_file w t sixteen k cs rest)
    ∙ ap (λ r. r >>= λ (b : List ℕ). unfilter_png b info) inflated
    ∙ unfilter_png-filter_rows info rows [] fit count
