-- ===== src/Png/Unfilter.antt =====
-- `unfilterPng`: the five filters, row by row, and the samples.
use rami_ledger.Prelude.{
  ℕ, zero, suc, ◌+◌, ◌-◌, ◌*◌, ◌/◌, ◌%◌, List, [], ◌∷◌, ◌++◌, reverse, ◌&&◌, ltb, leb, ◌==◌,
  if◌then◌else◌, length, get_or, replicate, head_or, tail_of,
}
use rami_ledger.Result.{Result, ok, thrown, incomplete}
use rami_ledger.Png.Parse.{Info}

-- `Math.abs(a - b)`
abbrev pub abs_diff : ℕ → ℕ → ℕ
abs_diff a b = (a - b) + (b - a)

-- What the filter `f` adds to a byte with the bytes `a` on its left, `b` above and `c` above on the
-- left; an unknown filter adds nothing.
unfoldable pub predictor : ℕ → ℕ → ℕ → ℕ → ℕ
predictor f a b c =
    let pa = abs_diff b c in
    let pb = abs_diff a c in
    let pc = abs_diff (a + b) (2 * c) in
    if f == 1
    then a
    else if f == 2
    then b
    else if f == 3
    then (a + b) / 2
    else if f == 4
    then (if leb pa pb && leb pa pc then a else if leb pb pc then b else c)
    else 0

-- The bytes `a`, `b` and `c` at column `x`; `line` is the row so far, reversed.
abbrev pub predicted : ℕ → ℕ → List ℕ → List ℕ → ℕ → ℕ
predicted f bpp prev line x =
    predictor f (if leb bpp x then get_or line (bpp - 1) 0 else 0) (get_or prev x 0)
      (if leb bpp x then get_or prev (x - bpp) 0 else 0)

-- The loop over a row, from column `x` on, with `left` bytes to go: the row, reversed, and the rest
-- of `raw`.
unfoldable pub unfilter_row :
    ℕ → ℕ → List ℕ → ℕ → ℕ → List ℕ → List ℕ → record { line : List ℕ; raw : List ℕ }
unfilter_row f bpp prev zero x line raw = record { line = line; raw = raw }
unfilter_row f bpp prev (suc left) x line raw =
    unfilter_row f bpp prev left (x + 1)
      ((head_or raw 0 + predicted f bpp prev line x) % 256 ∷ line) (tail_of raw)

-- The samples of a row: bytes, or pairs of bytes, the high one first.
abbrev pub pairs : List ℕ → List ℕ
pairs [] = []
pairs (x ∷ []) = []
pairs (x ∷ y ∷ xs) = (x * 256 + y) ∷ pairs xs

abbrev pub samples_of : ℕ → List ℕ → List ℕ
samples_of depth line = if depth == 16 then pairs line else line

-- The loop over the rows.
unfoldable pub unfilter_rows : ℕ → Info → List ℕ → List ℕ → List ℕ
unfolding unfilter_row predictor
unfilter_rows zero info prev raw = []
unfilter_rows (suc rows) info prev raw =
    let s = unfilter_row (head_or raw 0) info.bpp prev info.stride 0 [] (tail_of raw) in
    samples_of info.depth (reverse s.line) ++ unfilter_rows rows info (reverse s.line) s.raw

pub record Image : Type 0 where
  pub width : ℕ
  pub height : ℕ
  pub depth : ℕ
  pub samples : List ℕ

unfoldable pub unfilter_png : List ℕ → Info → Result Image
unfolding unfilter_rows
unfilter_png raw info =
    let samples = unfilter_rows info.height info (replicate info.stride 0) raw in
    if ltb (length raw) (info.height * (info.stride + 1))
    then thrown incomplete
    else ok
        (record { width = info.width; height = info.height; depth = info.depth; samples = samples })
