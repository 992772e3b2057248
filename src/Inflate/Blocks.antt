-- ===== src/Inflate/Blocks.antt =====
-- The header, the three kinds of block and the loop `do … while (!final)` of `inflate`.
use rami_ledger.Prelude.{
  ℕ, zero, suc, ◌+◌, ◌*◌, ◌%◌, List, [], ◌∷◌, ◌++◌, reverse, ◌==◌, if◌then◌else◌, get_or, set, take,
  drop, replicate,
}
use rami_ledger.Result.{Result, ok, thrown, unfinished, ◌>>=◌, unknown_method, invalid_block}
use rami_ledger.Inflate.Tables.{cl_order}
use rami_ledger.Inflate.Reader.{Reader, bit, bits}
use rami_ledger.Inflate.Tree.{Tree, build_tree}
use rami_ledger.Inflate.Codes.{read_lengths, codes}

-- The fixed code lengths.
abbrev pub fixed_lit : Tree
unfolding build_tree
fixed_lit = build_tree (replicate 144 8 ++ replicate 112 9 ++ replicate 24 7 ++ replicate 8 8)

abbrev pub fixed_dist : Tree
unfolding build_tree
fixed_dist = build_tree (replicate 30 5)

-- `src.subarray(a, a + n)` set into a fresh stretch of `n` bytes of the output: past the end of the
-- source the bytes stay 0.
abbrev pub slice_padded : List ℕ → ℕ → ℕ → List ℕ
slice_padded src a zero = []
slice_padded src a (suc n) = get_or src a 0 ∷ slice_padded src (a + 1) n

-- A stored block: the reader drops its bits, and the output grows by the block's bytes.
unfoldable pub stored : List ℕ → List ℕ → Reader → Result (List ℕ × Reader)
stored src out r =
    let n = get_or src r.pos 0 + get_or src (r.pos + 1) 0 * 256 in
    ok (
      reverse (slice_padded src (r.pos + 4) n) ++ out,
      record { pos = r.pos + 4 + n; bit_buf = 0; bit_cnt = 0 },
    )

-- `for (i = 0; i < hclen; i++) cl[CL_ORDER[i]] = bits(3)`
unfoldable pub read_cl : List ℕ → ℕ → List ℕ → List ℕ → Reader → List ℕ × Reader
read_cl src zero order cl r = (cl, r)
read_cl src (suc n) [] cl r = (cl, r)
read_cl src (suc n) (o ∷ order) cl r =
    let (b, r') = bits src 3 r in read_cl src n order (set cl o b) r'

-- The two trees of a dynamic block.
unfoldable pub dynamic_trees : List ℕ → Reader → record { lit : Tree; dist : Tree; r : Reader }
unfolding read_cl read_lengths build_tree
dynamic_trees src r =
    let (a, r1) = bits src 5 r in
    let (b, r2) = bits src 5 r1 in
    let (c, r3) = bits src 4 r2 in
    let hlit = a + 257 in
    let hdist = b + 1 in
    let (cl, r4) = read_cl src (c + 4) cl_order (replicate 19 0) r3 in
    let s =
      read_lengths (hlit + hdist) src (build_tree cl) (hlit + hdist) (replicate (hlit + hdist) 0) 0
        r4 in
    record { lit = build_tree (take hlit s.lens); dist = build_tree (drop hlit s.lens); r = s.r }

-- One block of the given type; `fuel` bounds the symbols of a compressed block.
unfoldable pub block : ℕ → List ℕ → ℕ → List ℕ → Reader → Result (List ℕ × Reader)
block fuel src zero out r = stored src out r
block fuel src (suc zero) out r = codes fuel src fixed_lit fixed_dist out r
block fuel src (suc (suc zero)) out r =
    let t = dynamic_trees src r in codes fuel src t.lit t.dist out t.r
block fuel src (suc (suc (suc type))) out r = thrown invalid_block

-- The loop over the blocks; `fuel` also bounds their number.
unfoldable pub blocks : ℕ → List ℕ → List ℕ → Reader → Result (List ℕ)
blocks zero src out r = unfinished
blocks (suc fuel) src out r =
    let (final, r1) = bit src r in
    let (type, r2) = bits src 2 r1 in
    block fuel src type out r2 >>= λ s. elim final [
      | zero ↦ blocks fuel src s.0 s.1
      | suc _ ↦ ok s.0
    ]

-- `inflate(src, …)`; the second argument of the source is a capacity, which does not change the
-- result.
unfoldable pub inflate : ℕ → List ℕ → Result (List ℕ)
unfolding blocks
inflate fuel src =
    let out = blocks fuel src [] (record { pos = 2; bit_buf = 0; bit_cnt = 0 }) in
    if get_or src 0 0 % 16 == 8 then (out >>= λ b. ok (reverse b)) else thrown unknown_method
