-- ===== src/Inflate/Reader.antt =====
-- The bit reader of `inflate`: the closure's variables `pos`, `bitBuf` and `bitCnt`, and the inner
-- functions `bit` and `bits`.
use rami_ledger.Prelude.{
  ℕ, zero, suc, ◌+◌, ◌-◌, ◌*◌, ◌/◌, ◌%◌, ◌^◌, List, ◌==◌, if◌then◌else◌, get_or,
}

pub record Reader : Type 0 where
  pub pos : ℕ
  pub bit_buf : ℕ
  pub bit_cnt : ℕ

-- Takes the next byte where no bit is left; past the end it is 0.
unfoldable pub refill : List ℕ → Reader → Reader
refill src r =
    if r.bit_cnt == 0
    then record { pos = r.pos + 1; bit_buf = get_or src r.pos 0; bit_cnt = 8 }
    else r

unfoldable pub bit : List ℕ → Reader → ℕ × Reader
unfolding refill
bit src r =
    let f = refill src r in
    (f.bit_buf % 2, record f { bit_buf = f.bit_buf / 2; bit_cnt = f.bit_cnt - 1 })

-- The loop of `bits`, with `left` rounds to go from round `i`.
unfoldable pub bits_loop : List ℕ → ℕ → ℕ → ℕ → Reader → ℕ × Reader
unfolding bit
bits_loop src zero i v r = (v, r)
bits_loop src (suc left) i v r =
    let (b, r') = bit src r in bits_loop src left (i + 1) (v + b * 2 ^ i) r'

unfoldable pub bits : List ℕ → ℕ → Reader → ℕ × Reader
unfolding bits_loop
bits src n r = bits_loop src n 0 0 r
