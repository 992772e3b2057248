-- ===== src/Inflate/Stored.antt =====
-- Streams of stored blocks (RFC 1951, 3.2.4): a compressor that only stores, and what `inflate`
-- makes of its streams.
use mathlib.Core.List.{append-nil, append_assoc, reverse-append, reverse-reverse}
use rami_ledger.Prelude.{
  ℕ, zero, suc, ◌+◌, ◌-◌, ◌*◌, ◌/◌, ◌%◌, ◌<◌, ◌≡◌, refl, sym, ◌∙◌, ap, List, [], ◌∷◌, ◌++◌, reverse,
  arith, length, get_or, drop, drop-suc, drop_past, read_at, move, ==_iff,
}
use rami_ledger.Inflate.Reader.{Reader, bit, bits}
use rami_ledger.Result.{ok, unfinished}
use rami_ledger.Inflate.Blocks.{stored, slice_padded, block, blocks, inflate}
use rami_ledger.Inflate.Spent.{blocks_spent}

-- A stored block: the final bit, the length and its complement, the bytes.
abbrev pub stored_block : ℕ → List ℕ → List ℕ
stored_block final d =
    let n = length d in final ∷ (n % 256) ∷ (n / 256) ∷ (255 - n % 256) ∷ (255 - n / 256) ∷ d

-- The reader at a byte.
abbrev at_byte : ℕ → Reader
at_byte p = record { pos = p; bit_buf = 0; bit_cnt = 0 }

slice_padded-drop :
    (src : List ℕ) (p : ℕ) (d rest : List ℕ)
    → drop p src ≡ d ++ rest
    → (slice_padded src p (length d) ≡ d) × (drop (p + length d) src ≡ rest)
slice_padded-drop src p [] rest e = (refl, move src p (p + 0) e (omega arith))
slice_padded-drop src p (x ∷ d) rest e =
    let next : drop (p + 1) src ≡ d ++ rest =
      move src (suc p) (p + 1) (drop-suc p src e) (omega arith) in
    let (slice, left) = slice_padded-drop src (p + 1) d rest next in
    (
      cc (read_at src p p 0 e refl, slice),
      move src (p + 1 + length d) (p + suc (length d)) left (omega arith),
    )

-- A stored block whose length stands at byte `q` is copied to the output.
stored_at :
    (src out : List ℕ) (q b c : ℕ) (d rest : List ℕ) {x y : ℕ}
    → drop q src ≡ (length d % 256) ∷ (length d / 256) ∷ x ∷ y ∷ (d ++ rest)
    → (drop (q + 4 + length d) src ≡ rest)
      × (stored src out (record { pos = q; bit_buf = b; bit_cnt = c })
          ≡ ok (reverse d ++ out, at_byte (q + 4 + length d)))
unfolding stored
stored_at src out q b c d rest e =
    let e1 = drop-suc q src e in
    let e4 =
      drop-suc (suc (suc (suc q))) src (drop-suc (suc (suc q)) src (drop-suc (suc q) src e1)) in
    let (slice, left) =
      slice_padded-drop src (q + 4) d rest
        (move src (suc (suc (suc (suc q)))) (q + 4) e4 (omega arith)) in
    let long : get_or src q 0 + get_or src (q + 1) 0 * 256 ≡ length d =
      omega (arith, read_at src q q 0 e refl, read_at src (suc q) (q + 1) 0 e1 (omega arith)) in
    (left, rw (long, slice))

-- The three header bits of such a block.
header_bits :
    (src : List ℕ) (p : ℕ) {final : ℕ} {ys : List ℕ}
    → final < 2
    → drop p src ≡ final ∷ ys
    → ((bit src (at_byte p)).0 ≡ final)
      × ((bits src 2 (bit src (at_byte p)).1).0 ≡ 0)
      × ((bits src 2 (bit src (at_byte p)).1).1
          ≡ record { pos = p + 1; bit_buf = final / 2 / 2 / 2; bit_cnt = 5 })
unfolding bit bits
header_bits src p h e = ground (arith, read_at src p p 0 e refl)

-- One round of the loop over the blocks at a stored block.
blocks_stored :
    (fuel : ℕ) (src out : List ℕ) (p : ℕ) (d rest : List ℕ) {final : ℕ}
    → final < 2
    → drop p src ≡ stored_block final d ++ rest
    → (drop (p + 5 + length d) src ≡ rest)
      × (blocks (suc fuel) src out (at_byte p) ≡ elim final [
        | zero ↦ blocks fuel src (reverse d ++ out) (at_byte (p + 5 + length d))
        | suc _ ↦ ok (reverse d ++ out)
      ])
unfolding blocks block
blocks_stored fuel src out p d rest {final} h e =
    let (f, type, r) = header_bits src p h e in
    let next = move src (suc p) (p + 1) (drop-suc p src e) (omega arith) in
    let (left, copied) = stored_at src out (p + 1) (final / 2 / 2 / 2) 5 d rest next in
    let same : p + 1 + 4 + length d ≡ p + 5 + length d = omega arith in
    (ap (λ (t : ℕ). drop t src) (sym same) ∙ left, rw (f, type, r, rw same at copied))

-- Blocks none of which is the final one.
abbrev pub stored_blocks : List (List ℕ) → List ℕ
stored_blocks [] = []
stored_blocks (d ∷ ds) = stored_block 0 d ++ stored_blocks ds

abbrev pub concat : List (List ℕ) → List ℕ
concat [] = []
concat (d ∷ ds) = d ++ concat ds

blocks_closed :
    (fuel : ℕ) (src out : List ℕ) (p : ℕ) (ds : List (List ℕ)) (d rest : List ℕ)
    → length ds < fuel
    → drop p src ≡ (stored_blocks ds ++ stored_block 1 d) ++ rest
    → blocks fuel src out (at_byte p) ≡ ok (reverse (concat ds ++ d) ++ out)
blocks_closed zero src out p ds d rest h e = elim h [ ]
blocks_closed (suc fuel) src out p [] d rest h e =
    (blocks_stored fuel src out p d rest (omega arith) e).1
blocks_closed (suc fuel) src out p (c ∷ ds) d rest h e =
    let after = (stored_blocks ds ++ stored_block 1 d) ++ rest in
    let (left, step) =
      blocks_stored fuel src out p c after {final = 0} (omega arith) (e ∙ simp (append_assoc)) in
    step
    ∙ blocks_closed fuel src (reverse c ++ out) (p + 5 + length c) ds d rest (omega arith) left
    ∙ ap ok (simp (reverse-append, append_assoc))

blocks_no_fuel : (src out : List ℕ) (r : Reader) → blocks zero src out r ≡ unfinished
unfolding blocks
blocks_no_fuel src out r = refl

blocks_open :
    (fuel : ℕ) (src out : List ℕ) (p : ℕ) (ds : List (List ℕ))
    → drop p src ≡ stored_blocks ds
    → blocks fuel src out (at_byte p) ≡ unfinished
blocks_open fuel src out p [] e =
    blocks_spent fuel src out (at_byte p) (record { past = drop_past src p e; empty = refl })
blocks_open zero src out p (d ∷ ds) e = blocks_no_fuel src out (at_byte p)
blocks_open (suc fuel) src out p (d ∷ ds) e =
    let (left, step) = blocks_stored fuel src out p d (stored_blocks ds) (omega arith) e in
    step ∙ blocks_open fuel src (reverse d ++ out) (p + 5 + length d) ds left

-- A stream of stored blocks is decompressed to the bytes of its blocks, whatever follows the final
-- one, if there is a round of fuel for each block.
pub inflate_stored :
    (fuel cmf flg : ℕ) (ds : List (List ℕ)) (d rest : List ℕ)
    → cmf % 16 ≡ 8
    → length ds < fuel
    → inflate fuel (cmf ∷ flg ∷ ((stored_blocks ds ++ stored_block 1 d) ++ rest))
      ≡ ok (concat ds ++ d)
unfolding inflate
inflate_stored fuel cmf flg ds d rest m h =
    let src = cmf ∷ flg ∷ ((stored_blocks ds ++ stored_block 1 d) ++ rest) in
    rw ((==_iff _ _).1 m, blocks_closed fuel src [] 2 ds d rest h refl)
      (ap ok (simp (append-nil, reverse-reverse)))

-- A stream that ends after any number of stored blocks, none of them final, is never finished:
-- no fuel is enough.
pub inflate_truncated :
    (fuel cmf flg : ℕ) (ds : List (List ℕ))
    → cmf % 16 ≡ 8
    → inflate fuel (cmf ∷ flg ∷ stored_blocks ds) ≡ unfinished
unfolding inflate
inflate_truncated fuel cmf flg ds m =
    rw ((==_iff _ _).1 m, blocks_open fuel (cmf ∷ flg ∷ stored_blocks ds) [] 2 ds refl)
