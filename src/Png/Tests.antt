-- ===== src/Png/Tests.antt =====
-- Runs of the PNG decoder.
use rami_ledger.Prelude.{
  ℕ, ◌%◌, ◌≤◌, ◌≡◌, ◌≢◌, refl, sym, ap, ◌∙◌, inl, inr, false, Option, none, some, List, [], ◌∷◌,
  ◌++◌, arith, replicate, All, ◌==◌, ==_iff, Bool-cases, length, length-append,
}
use mathlib.Core.Option.{some-injective}
use rami_ledger.Inflate.Stored.{stored_block, stored_blocks, concat, inflate_stored}
use rami_ledger.Result.{Result, ok, thrown, bad_signature, unfinished}
use rami_ledger.Inflate.Reader.{bit, bits}
use rami_ledger.Inflate.Blocks.{inflate, block, stored}
use rami_ledger.Png.Parse.{get32, chunk_kind, chunks, check_header, parse_png}
use rami_ledger.Png.Unfilter.{Image, predictor, unfilter_row, unfilter_rows, unfilter_png}
use rami_ledger.Png.Filters.{
  Row, IsRow, standard, filter_row, filter_rows, unfilter_png-filter_rows,
}
use rami_ledger.Png.Chunks.{Crc}
use rami_ledger.Png.Total.{parse_png-ends}
use rami_ledger.Png.Written.{
  Body, bodies, png_file, info_of, parse_png-png_file, decode_png_gray-png_file,
}
use rami_ledger.Png.Decode.{decode_png_gray, decode_png_gray_async}
use rami_ledger.Png.Async.{only_image, stored_stream, IsZlib, decode_png_gray_async-png_file}

abbrev sum : Crc
sum = record { a = 1; b = 2; c = 3; d = 4 }

-- Two rows of two bytes, with the filters Paeth and Sub.
abbrev two_rows : List Row
two_rows =
    record { filter = 4; bytes = 10 ∷ 20 ∷ [] } ∷ record { filter = 1; bytes = 12 ∷ 25 ∷ [] } ∷ []

abbrev filtered : List ℕ
filtered = 4 ∷ 10 ∷ 10 ∷ 1 ∷ 12 ∷ 13 ∷ []

filtered-two_rows : filter_rows 1 (0 ∷ 0 ∷ []) two_rows ≡ filtered
unfolding filter_row standard
filtered-two_rows = refl

-- Their stream in two IDAT chunks.
abbrev two_bodies : List Body
two_bodies =
    record { bytes = 120 ∷ 1 ∷ 1 ∷ 6 ∷ 0 ∷ 249 ∷ 255 ∷ 4 ∷ 10 ∷ []; k = sum }
    ∷ record { bytes = 10 ∷ 1 ∷ 12 ∷ 13 ∷ 9 ∷ 9 ∷ 9 ∷ 9 ∷ []; k = sum }
    ∷ []

abbrev file : List ℕ
file = png_file 2 2 false sum two_bodies (77 ∷ [])

abbrev image : Image
image = record { width = 2; height = 2; depth = 8; samples = 10 ∷ 20 ∷ 12 ∷ 25 ∷ [] }

decoded : decode_png_gray 3 file ≡ ok image
unfolding decode_png_gray parse_png chunks chunk_kind get32 check_header inflate block stored bits
    bit unfilter_png unfilter_rows unfilter_row predictor
decoded = refl

refused : parse_png (137 ∷ 80 ∷ 78 ∷ []) ≡ thrown bad_signature
unfolding parse_png
refused = refl

two_rows-IsRow : All (IsRow 2) two_rows
two_rows-IsRow =
    ((refl, (omega arith, (omega arith, tt))), ((refl, (omega arith, (omega arith, tt))), tt))

parse_png-ends_case : parse_png file ≢ unfinished
parse_png-ends_case = parse_png-ends file

parse_png-png_file_case :
    parse_png (png_file 2 2 false sum two_bodies (77 ∷ []))
    ≡ ok (info_of 2 2 false (bodies two_bodies))
parse_png-png_file_case = parse_png-png_file 2 2 false sum two_bodies (77 ∷ [])

decode_png_gray-png_file_example :
    decode_png_gray 3 (png_file 2 2 false sum two_bodies (77 ∷ [])) ≡ ok image
unfolding filter_row standard
decode_png_gray-png_file_example =
    decode_png_gray-png_file 3 2 2 false sum two_bodies (77 ∷ []) two_rows 120 1 [] filtered
      (9 ∷ 9 ∷ 9 ∷ 9 ∷ []) refl refl refl (omega arith) two_rows-IsRow refl

unfilter_png-filter_rows_case :
    unfilter_png (filter_rows 1 (replicate 2 0) two_rows ++ []) (info_of 2 2 false []) ≡ ok image
unfilter_png-filter_rows_case =
    unfilter_png-filter_rows (info_of 2 2 false []) two_rows [] two_rows-IsRow refl

-- A decompressor of the browser that is written as the one of the program, with a round for each byte.
abbrev si_acaba : Result (List ℕ) → Option (List ℕ)
si_acaba (ok raw) = some raw
si_acaba (thrown e) = none
si_acaba unfinished = none

abbrev native : Option (List ℕ → Option (List ℕ))
native = some (λ z. si_acaba (inflate (length z) z))

other_method :
    (fuel cmf : ℕ) (src : List ℕ)
    → (cmf % 16 == 8) ≡ false
    → si_acaba (inflate fuel (cmf ∷ src)) ≡ none
unfolding inflate
other_method fuel cmf src e = rw e refl

blocks_long : (ds : List (List ℕ)) → length ds ≤ length (stored_blocks ds)
blocks_long [] = omega arith
blocks_long (d ∷ ds) =
    omega (arith, length-append (stored_block 0 d) (stored_blocks ds), blocks_long ds)

native-IsZlib : IsZlib native
native-IsZlib cmf flg ds d trailer raw bytes e = elim (Bool-cases (cmf % 16 == 8)) [
  | inl m ↦
      let z = stored_stream cmf flg ds d trailer in
      let done : inflate (length z) z ≡ ok (concat ds ++ d) =
        inflate_stored (length z) cmf flg ds d trailer ((==_iff _ _).0 m) (
          omega (
            arith,
            blocks_long ds,
            length-append (stored_blocks ds) (stored_block 1 d),
            length-append (stored_blocks ds ++ stored_block 1 d) trailer,
          )) in
      some-injective _ _ (sym e ∙ ap si_acaba done)
  | inr m ↦ cc (
      sym e
      ∙ other_method (length (stored_stream cmf flg ds d trailer)) cmf
          (flg ∷ ((stored_blocks ds ++ stored_block 1 d) ++ trailer)) m)
]

decode_png_gray_async-png_file_example :
    only_image (decode_png_gray_async native 3 (png_file 2 2 false sum two_bodies (77 ∷ [])))
    ≡ ok image
unfolding filter_row standard
decode_png_gray_async-png_file_example =
    decode_png_gray_async-png_file native 3 2 2 false sum two_bodies (77 ∷ []) two_rows 120 1 []
      filtered (9 ∷ 9 ∷ 9 ∷ 9 ∷ []) native-IsZlib refl refl refl refl (omega arith) two_rows-IsRow
      refl
