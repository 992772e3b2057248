-- ===== src/Png/Decode.antt =====
-- `decodePngGray`, and `decodePngGrayAsync` over the browser's decompressor.
use rami_ledger.Prelude.{ℕ, Option, none, some, List}
use rami_ledger.Result.{Result, ok, ◌>>=◌}
use rami_ledger.Inflate.Blocks.{inflate}
use rami_ledger.Png.Parse.{Info, parse_png}
use rami_ledger.Png.Unfilter.{Image, unfilter_png}

-- `unfilterPng(inflate(info.z, …), info)`; `fuel` bounds `inflate`.
unfoldable pub custom : ℕ → Info → Result Image
custom fuel info = inflate fuel info.z >>= λ raw. unfilter_png raw info

unfoldable pub decode_png_gray : ℕ → List ℕ → Result Image
unfolding custom
decode_png_gray fuel buf = parse_png buf >>= custom fuel

-- How the image was decompressed.
pub data Route : Type 0 where
  custom_route stream_route : Route

-- `native` is the browser's `DecompressionStream` as `inflateStream` uses it: `none` where the browser
-- has none, and of a stream `some bytes`, or `none` where it fails. What the promise rejects with is
-- a thrown error; after a successful stream `unfilterPng` is not tried again.
unfoldable pub decode_png_gray_async :
    Option (List ℕ → Option (List ℕ)) → ℕ → List ℕ → Result (Image × Route)
unfolding custom
decode_png_gray_async native fuel buf = parse_png buf >>= λ info. elim native [
  | none ↦ custom fuel info >>= λ img. ok (img, custom_route)
  | some inflate_stream ↦ elim (inflate_stream info.z) [
    | none ↦ custom fuel info >>= λ img. ok (img, custom_route)
    | some raw ↦ unfilter_png raw info >>= λ img. ok (img, stream_route)
  ]
]
