-- ===== src/Inflate/Spent.antt =====
-- The decompressor at the end of its source. There the source goes on with zero bits, so that the
-- loop over the blocks reads empty stored blocks without end.
use mathlib.Core.Path.{subst}
use rami_ledger.Prelude.{
  ℕ, zero, suc, ◌+◌, ◌*◌, ◌^◌, ◌≤◌, ◌≡◌, refl, ap, List, arith, length, get_or_past,
}
use rami_ledger.Inflate.Reader.{Reader, bit, bits_loop, bits}
use rami_ledger.Result.{ok, unfinished}
use rami_ledger.Inflate.Blocks.{stored, block, blocks}

-- Nothing but zero bits is left.
pub record IsSpent (src : List ℕ) (r : Reader) : Type 0 where
  pub past : length src ≤ r.pos
  pub empty : r.bit_buf ≡ 0

bit-IsSpent :
    (src : List ℕ) (r : Reader) → IsSpent src r → ((bit src r).0 ≡ 0) × IsSpent src (bit src r).1
unfolding bit
bit-IsSpent src r h = ground (arith, get_or_past src r.pos 0)

bits_loop-IsSpent :
    (src : List ℕ) (n i v : ℕ) (r : Reader)
    → IsSpent src r
    → ((bits_loop src n i v r).0 ≡ v) × IsSpent src (bits_loop src n i v r).1
unfolding bits_loop
bits_loop-IsSpent src zero i v r h = (refl, h)
bits_loop-IsSpent src (suc n) i v r h =
    let (z, s) = bit-IsSpent src r h in
    let same : v ≡ v + (bit src r).0 * 2 ^ i = omega (arith, ap (λ (t : ℕ). t * 2 ^ i) z) in
    subst
      (λ t.
        ((bits_loop src n (i + 1) t (bit src r).1).0 ≡ v)
        × IsSpent src (bits_loop src n (i + 1) t (bit src r).1).1)
      same (bits_loop-IsSpent src n (i + 1) v (bit src r).1 s)

pub bits-IsSpent :
    (src : List ℕ) (n : ℕ) (r : Reader)
    → IsSpent src r
    → ((bits src n r).0 ≡ 0) × IsSpent src (bits src n r).1
unfolding bits
bits-IsSpent src n r h = bits_loop-IsSpent src n 0 0 r h

-- The empty stored block that is read there.
after : Reader → Reader
after r = record { pos = r.pos + 4 + 0; bit_buf = 0; bit_cnt = 0 }

stored_spent :
    (src out : List ℕ) (r : Reader) → IsSpent src r → stored src out r ≡ ok (out, after r)
unfolding stored after
stored_spent src out r h =
    rw (get_or_past src r.pos 0 h.past, get_or_past src (r.pos + 1) 0 (omega arith))

after-IsSpent : (src : List ℕ) (r : Reader) → IsSpent src r → IsSpent src (after r)
unfolding after
after-IsSpent src r h = record { past = omega arith; empty = refl }

-- From a reader with nothing but zero bits left the loop over the blocks never ends, whatever the
-- fuel.
pub blocks_spent :
    (fuel : ℕ) (src out : List ℕ) (r : Reader) → IsSpent src r → blocks fuel src out r ≡ unfinished
unfolding blocks block
blocks_spent zero src out r h = refl
blocks_spent (suc fuel) src out r h =
    let (final, s) = bit-IsSpent src r h in
    let (type, s') = bits-IsSpent src 2 (bit src r).1 s in
    rw (final, type, stored_spent src out (bits src 2 (bit src r).1).1 s')
      (blocks_spent fuel src out (after (bits src 2 (bit src r).1).1) (after-IsSpent src _ s'))
