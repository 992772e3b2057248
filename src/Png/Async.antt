-- ===== src/Png/Async.antt =====
-- `decodePngGrayAsync` on the files that a writer lays out.
use rami_ledger.Prelude.{
  ℕ, ◌%◌, ◌*◌, ◌<◌, ◌≡◌, refl, sym, ◌∙◌, ap, Bool, true, ◌&&◌, Option, none, some, List, [], ◌∷◌,
  ◌++◌, ltb, if◌then◌else◌, length, replicate, All,
}
use rami_ledger.Result.{Result, ok, thrown, unfinished, ◌>>=◌}
use rami_ledger.Inflate.Blocks.{inflate}
use rami_ledger.Inflate.Stored.{stored_block, stored_blocks, concat, inflate_stored}
use rami_ledger.Png.Parse.{Info, parse_png}
use rami_ledger.Png.Unfilter.{Image, unfilter_png}
use rami_ledger.Png.Decode.{
  custom, decode_png_gray, Route, custom_route, stream_route, decode_png_gray_async,
}
use rami_ledger.Png.Filters.{Row, filter_rows, row_samples, IsRow}
use rami_ledger.Png.Chunks.{Crc}
use rami_ledger.Png.Written.{
  Body, bodies, depth_of, png_file, info_of, parse_png-png_file, decode_png_gray-png_file,
}

-- The image without its route.
abbrev pub only_image : Result (Image × Route) → Result Image
only_image r = r >>= λ s. ok s.0

-- What the browser's decompressor returns of the data of the file is what `inflate` returns of it.
abbrev IsInflate : Option (List ℕ → Option (List ℕ)) → ℕ → List ℕ → Type 0
IsInflate none fuel buf = Unit
IsInflate (some inflate_stream) fuel buf =
    (info : Info) (raw : List ℕ)
    → parse_png buf ≡ ok info
    → inflate_stream info.z ≡ some raw
    → inflate fuel info.z ≡ ok raw

strip : (r : Result Image) (route : Route) → only_image (r >>= λ img. ok (img, route)) ≡ r
strip (ok img) route = refl
strip (thrown e) route = refl
strip unfinished route = refl

stream_or_custom :
    (fuel : ℕ) (info : Info) (o : Option (List ℕ))
    → ((raw : List ℕ) → o ≡ some raw → inflate fuel info.z ≡ ok raw)
    → only_image (elim o [
      | none ↦ custom fuel info >>= λ img. ok (img, custom_route)
      | some raw ↦ unfilter_png raw info >>= λ img. ok (img, stream_route)
    ])
      ≡ custom fuel info
unfolding custom
stream_or_custom fuel info none h = strip (custom fuel info) custom_route
stream_or_custom fuel info (some raw) h =
    strip (unfilter_png raw info) stream_route
    ∙ sym (ap (λ r. r >>= λ (b : List ℕ). unfilter_png b info) (h raw refl))

async_of :
    (f : List ℕ → Option (List ℕ)) (fuel : ℕ) (r : Result Info)
    → ((info : Info) (raw : List ℕ)
        → r ≡ ok info
        → f info.z ≡ some raw
        → inflate fuel info.z ≡ ok raw)
    → only_image (
        r >>= λ info. elim (f info.z) [
          | none ↦ custom fuel info >>= λ img. ok (img, custom_route)
          | some raw ↦ unfilter_png raw info >>= λ img. ok (img, stream_route)
        ])
      ≡ (r >>= custom fuel)
async_of f fuel (thrown e) h = refl
async_of f fuel unfinished h = refl
async_of f fuel (ok info) h = stream_or_custom fuel info (f info.z) (λ raw e. h info raw refl e)

async_none :
    (fuel : ℕ) (r : Result Info)
    → only_image (r >>= λ info. custom fuel info >>= λ img. ok (img, custom_route))
      ≡ (r >>= custom fuel)
async_none fuel (thrown e) = refl
async_none fuel unfinished = refl
async_none fuel (ok info) = strip (custom fuel info) custom_route

async_lem :
    (native : Option (List ℕ → Option (List ℕ))) (fuel : ℕ) (buf : List ℕ)
    → IsInflate native fuel buf
    → only_image (decode_png_gray_async native fuel buf) ≡ decode_png_gray fuel buf
unfolding decode_png_gray_async decode_png_gray
async_lem none fuel buf h = async_none fuel (parse_png buf)
async_lem (some f) fuel buf h = async_of f fuel (parse_png buf) h

abbrev pub son_bytes : List ℕ → Bool
son_bytes [] = true
son_bytes (b ∷ bs) = ltb b 256 && son_bytes bs

abbrev pub stored_stream : ℕ → ℕ → List (List ℕ) → List ℕ → List ℕ → List ℕ
stored_stream cmf flg ds d trailer = cmf ∷ flg ∷ ((stored_blocks ds ++ stored_block 1 d) ++ trailer)

-- The format zlib: what a decompressor returns of stored blocks, if it returns at all, is their data. It
-- may fail, as it does on a wrong checksum.
abbrev pub IsZlib : Option (List ℕ → Option (List ℕ)) → Type 0
IsZlib none = Unit
IsZlib (some inflate_stream) =
    (cmf flg : ℕ) (ds : List (List ℕ)) (d trailer raw : List ℕ)
    → son_bytes (stored_stream cmf flg ds d trailer) ≡ true
    → inflate_stream (stored_stream cmf flg ds d trailer) ≡ some raw
    → raw ≡ concat ds ++ d

z_of : Result Info → List ℕ
z_of (ok i) = i.z
z_of (thrown e) = []
z_of unfinished = []

ok_inj : (i j : Info) → ok i ≡ ok j → i.z ≡ j.z
unfolding z_of
ok_inj i j e = ap z_of e

written-IsInflate :
    (native : Option (List ℕ → Option (List ℕ))) (fuel : ℕ) (info : Info) (buf : List ℕ)
    (cmf flg : ℕ) (ds : List (List ℕ)) (d trailer : List ℕ)
    → IsZlib native
    → parse_png buf ≡ ok info
    → info.z ≡ stored_stream cmf flg ds d trailer
    → son_bytes info.z ≡ true
    → cmf % 16 ≡ 8
    → length ds < fuel
    → IsInflate native fuel buf
written-IsInflate none fuel info buf cmf flg ds d trailer zlib p stream b m enough = tt
written-IsInflate (some f) fuel info buf cmf flg ds d trailer zlib p stream b m enough =
    λ info' raw p' e.
      let same : info.z ≡ info'.z = ok_inj info info' (sym p ∙ p') in
      let at : info'.z ≡ stored_stream cmf flg ds d trailer = sym same ∙ stream in
      let is : raw ≡ concat ds ++ d =
        zlib cmf flg ds d trailer raw (sym (ap son_bytes stream) ∙ b) (sym (ap f at) ∙ e) in
      ap (inflate fuel) at ∙ inflate_stored fuel cmf flg ds d trailer m enough ∙ ap ok (sym is)

-- A file whose data is the filtered rows of an image, in stored blocks, is decoded by `decodePngGrayAsync`
-- to the samples of the image, whether the browser has no decompressor, has one that fails on the file,
-- or has one that does not. Here what a decompressor returns of stored blocks of bytes is their data;
-- the data of the file are bytes; and the rest is as for `decodePngGray`: the rows hold bytes, as many as a row of the image
-- has, there are as many rows as the height says, and there is a round of fuel for each block.
pub decode_png_gray_async-png_file :
    (native : Option (List ℕ → Option (List ℕ))) (fuel w t : ℕ) (sixteen : Bool) (k : Crc)
    (cs : List Body) (rest : List ℕ) (rows : List Row) (cmf flg : ℕ) (ds : List (List ℕ))
    (d trailer : List ℕ)
    → IsZlib native
    → bodies cs ≡ stored_stream cmf flg ds d trailer
    → son_bytes (bodies cs) ≡ true
    → concat ds ++ d
      ≡ filter_rows (if sixteen then 2 else 1) (replicate (w * (if sixteen then 2 else 1)) 0) rows
    → cmf % 16 ≡ 8
    → length ds < fuel
    → All (IsRow (w * (if sixteen then 2 else 1))) rows
    → length rows ≡ t
    → only_image (decode_png_gray_async native fuel (png_file w t sixteen k cs rest))
      ≡ ok (record {
        width = w;
        height = t;
        depth = depth_of sixteen;
        samples = row_samples (depth_of sixteen) rows;
      })
decode_png_gray_async-png_file native fuel w t sixteen k cs rest rows cmf flg ds d trailer zlib
      stream b raw m enough fit count =
    async_lem native fuel (png_file w t sixteen k cs rest) (
      written-IsInflate native fuel (info_of w t sixteen (bodies cs))
        (png_file w t sixteen k cs rest) cmf flg ds d trailer zlib
        (parse_png-png_file w t sixteen k cs rest) stream b m enough)
    ∙ decode_png_gray-png_file fuel w t sixteen k cs rest rows cmf flg ds d trailer stream raw m
        enough fit count
