-- ===== src/Png/Filters.antt =====
-- The filters of the PNG standard, as a compressor applies them, and what `unfilterPng` makes of them.
use mathlib.Core.List.{append_assoc, reverse-reverse, append-nil, reverse-cons}
use rami_ledger.Prelude.{
  ℕ, zero, suc, ◌+◌, ◌-◌, ◌*◌, ◌/◌, ◌%◌, ◌≤◌, ◌<◌, ◌≡◌, refl, sym, ◌∙◌, ap, List, [], ◌∷◌, ◌++◌,
  reverse, arith, ◌&&◌, not_ltb, leb, if◌then◌else◌, length, length-append, get_or, replicate, All,
}
use rami_ledger.Result.{ok}
use rami_ledger.Png.Parse.{Info}
use rami_ledger.Png.Unfilter.{
  abs_diff, predictor, unfilter_row, samples_of, unfilter_rows, Image, unfilter_png,
}

-- The predictor of the standard. With `p = a + b - c`, the distances of `p` to the three bytes are
-- those of `a + b` to the bytes plus `c`.
abbrev paeth : ℕ → ℕ → ℕ → ℕ
paeth a b c =
    let to = λ (x : ℕ). abs_diff (a + b) (x + c) in
    if leb (to a) (to b) && leb (to a) (to c) then a else if leb (to b) (to c) then b else c

unfoldable pub standard : ℕ → ℕ → ℕ → ℕ → ℕ
standard zero a b c = 0
standard (suc zero) a b c = a
standard (suc (suc zero)) a b c = b
standard (suc (suc (suc zero))) a b c = (a + b) / 2
standard (suc (suc (suc (suc zero)))) a b c = paeth a b c
standard (suc (suc (suc (suc (suc f))))) a b c = 0

predictor-standard : (f a b c : ℕ) → predictor f a b c ≡ standard f a b c
unfolding predictor standard
predictor-standard zero a b c = refl
predictor-standard (suc zero) a b c = refl
predictor-standard (suc (suc zero)) a b c = refl
predictor-standard (suc (suc (suc zero))) a b c = refl
predictor-standard (suc (suc (suc (suc zero)))) a b c = ground arith
predictor-standard (suc (suc (suc (suc (suc f))))) a b c = ground arith

-- A row that is filtered: `line` is the row so far, reversed, and the list is the bytes to come.
unfoldable pub filter_row : ℕ → ℕ → List ℕ → ℕ → List ℕ → List ℕ → List ℕ
filter_row f bpp prev x line [] = []
filter_row f bpp prev x line (v ∷ vs) =
    let a = if leb bpp x then get_or line (bpp - 1) 0 else 0 in
    let b = get_or prev x 0 in
    let c = if leb bpp x then get_or prev (x - bpp) 0 else 0 in
    ((v + 256 - standard f a b c % 256) % 256) ∷ filter_row f bpp prev (x + 1) (v ∷ line) vs

abbrev IsByte : ℕ → Type 0
IsByte v = v < 256

restore : (v s : ℕ) → IsByte v → ((v + 256 - s % 256) % 256 + s) % 256 ≡ v
restore v s h = omega arith

unfilter_row-filter_row :
    (f bpp x : ℕ) (prev line todo rest : List ℕ)
    → All IsByte todo
    → unfilter_row f bpp prev (length todo) x line (filter_row f bpp prev x line todo ++ rest)
      ≡ record { line = reverse todo ++ line; raw = rest }
unfolding unfilter_row filter_row
unfilter_row-filter_row f bpp x prev line [] rest h = refl
unfilter_row-filter_row f bpp x prev line (v ∷ vs) rest (h, hs) =
    let a = if leb bpp x then get_or line (bpp - 1) 0 else 0 in
    let b = get_or prev x 0 in
    let c = if leb bpp x then get_or prev (x - bpp) 0 else 0 in
    let coded = (v + 256 - standard f a b c % 256) % 256 in
    let more = filter_row f bpp prev (x + 1) (v ∷ line) vs ++ rest in
    let byte : (coded + predictor f a b c) % 256 ≡ v =
      ap (λ (p : ℕ). (coded + p) % 256) (predictor-standard f a b c)
      ∙ restore v (standard f a b c) h in
    ap (λ (w : ℕ). unfilter_row f bpp prev (length vs) (x + 1) (w ∷ line) more) byte
    ∙ unfilter_row-filter_row f bpp (x + 1) prev (v ∷ line) vs rest hs
    ∙ ap (λ (l : List ℕ). record { line = l; raw = rest }) (sym (simp (reverse-cons, append_assoc)))

row_back :
    (f bpp stride : ℕ) (prev bytes rest : List ℕ)
    → length bytes ≡ stride
    → All IsByte bytes
    → unfilter_row f bpp prev stride 0 [] (filter_row f bpp prev 0 [] bytes ++ rest)
      ≡ record { line = reverse bytes; raw = rest }
row_back f bpp stride prev bytes rest long h =
    ap (λ (n : ℕ). unfilter_row f bpp prev n 0 [] (filter_row f bpp prev 0 [] bytes ++ rest))
      (sym long)
    ∙ unfilter_row-filter_row f bpp 0 prev [] bytes rest h
    ∙ ap (λ (l : List ℕ). record { line = l; raw = rest }) (append-nil (reverse bytes))

-- A row of an image for a compressor: its filter and its bytes.
abbrev pub Row : Type 0
Row = record { filter : ℕ; bytes : List ℕ }

abbrev pub filter_rows : ℕ → List ℕ → List Row → List ℕ
filter_rows bpp prev [] = []
filter_rows bpp prev (r ∷ rs) =
    r.filter ∷ (filter_row r.filter bpp prev 0 [] r.bytes ++ filter_rows bpp r.bytes rs)

-- The samples that the bytes of the rows stand for.
abbrev pub row_samples : ℕ → List Row → List ℕ
row_samples depth [] = []
row_samples depth (r ∷ rs) = samples_of depth r.bytes ++ row_samples depth rs

-- Rows of the right number of bytes.
abbrev pub IsRow : ℕ → Row → Type 0
IsRow stride r = (length r.bytes ≡ stride) × All IsByte r.bytes

unfilter_rows-filter_rows :
    (info : Info) (prev rest : List ℕ) (rows : List Row)
    → All (IsRow info.stride) rows
    → unfilter_rows (length rows) info prev (filter_rows info.bpp prev rows ++ rest)
      ≡ row_samples info.depth rows
unfolding unfilter_rows
unfilter_rows-filter_rows info prev rest [] h = refl
unfilter_rows-filter_rows info prev rest (r ∷ rs) (h, hs) =
    rw
      (
        append_assoc (filter_row r.filter info.bpp prev 0 [] r.bytes)
            (filter_rows info.bpp r.bytes rs) rest,
        row_back r.filter info.bpp info.stride prev r.bytes
            (filter_rows info.bpp r.bytes rs ++ rest) h.0 h.1,
        reverse-reverse r.bytes,
      )
      (ap (λ (l : List ℕ). samples_of info.depth r.bytes ++ l)
        (unfilter_rows-filter_rows info r.bytes rest rs hs))

length-filter_row :
    (f bpp x : ℕ) (prev line todo : List ℕ)
    → length (filter_row f bpp prev x line todo) ≡ length todo
unfolding filter_row
length-filter_row f bpp x prev line [] = refl
length-filter_row f bpp x prev line (v ∷ vs) =
    ap suc (length-filter_row f bpp (x + 1) prev (v ∷ line) vs)

length-filter_rows :
    (bpp stride : ℕ) (prev : List ℕ) (rows : List Row)
    → All (IsRow stride) rows
    → length (filter_rows bpp prev rows) ≡ length rows * (stride + 1)
length-filter_rows bpp stride prev [] h = omega arith
length-filter_rows bpp stride prev (r ∷ rs) ((long, _), hs) =
    let row = filter_row r.filter bpp prev 0 [] r.bytes in
    omega (
      arith,
      length-append row (filter_rows bpp r.bytes rs),
      length-filter_row r.filter bpp 0 prev [] r.bytes,
      length-filter_rows bpp stride r.bytes rs hs,
    )

-- Whatever filter of the standard a compressor chose for each row, `unfilterPng` gives back the
-- samples of the rows: the rows hold bytes, each `stride` of them, and are as many as `height`.
pub unfilter_png-filter_rows :
    (info : Info) (rows : List Row) (rest : List ℕ)
    → All (IsRow info.stride) rows
    → length rows ≡ info.height
    → unfilter_png (filter_rows info.bpp (replicate info.stride 0) rows ++ rest) info
      ≡ ok (record {
        width = info.width;
        height = info.height;
        depth = info.depth;
        samples = row_samples info.depth rows;
      })
unfolding unfilter_png
unfilter_png-filter_rows info rows rest h count =
    let raw = filter_rows info.bpp (replicate info.stride 0) rows in
    let image : List ℕ → Image = λ samples. record {
      width = info.width;
      height = info.height;
      depth = info.depth;
      samples = samples;
    } in
    let long : info.height * (info.stride + 1) ≤ length (raw ++ rest) = omega (
      arith,
      length-append raw rest,
      length-filter_rows info.bpp info.stride (replicate info.stride 0) rows h,
      ap (λ (n : ℕ). n * (info.stride + 1)) count,
    ) in
    let same : unfilter_rows info.height info (replicate info.stride 0) (raw ++ rest)
        ≡ row_samples info.depth rows =
      ap (λ (n : ℕ). unfilter_rows n info (replicate info.stride 0) (raw ++ rest)) (sym count)
      ∙ unfilter_rows-filter_rows info (replicate info.stride 0) rest rows h in
    rw (not_ltb (length (raw ++ rest)) (info.height * (info.stride + 1)) long)
      (ap (λ (l : List ℕ). ok (image l)) same)
