-- ===== src/Inflate/Codes.antt =====
-- The loops of `inflate` over symbols: the code lengths of a dynamic block, and the literals and
-- copies of a compressed block.
use rami_ledger.Prelude.{
  ℕ, zero, suc, ◌+◌, ◌-◌, Option, none, some, List, [], ◌∷◌, ◌==◌, ltb, if◌then◌else◌, get_or,
  get_elem?, set,
}
use rami_ledger.Result.{Result, ok, thrown, unfinished, ◌>>=◌, range_error}
use rami_ledger.Inflate.Tables.{len_base, len_bits, dist_base, dist_bits}
use rami_ledger.Inflate.Reader.{Reader, bits}
use rami_ledger.Inflate.Tree.{Tree, decode_sym}

-- `lens[k++] = v`, `rep` times; a write past the end is lost.
unfoldable pub write_rep : List ℕ → ℕ → ℕ → ℕ → List ℕ
write_rep lens k zero v = lens
write_rep lens k (suc rep) v = write_rep (set lens k v) (k + 1) rep v

-- One round of the loop over the code lengths: the symbol that was read, `lens` and `k`.
unfoldable pub length_round :
    List ℕ → Option ℕ → List ℕ → ℕ → Reader → record { lens : List ℕ; k : ℕ; r : Reader }
unfolding write_rep
length_round src (some sym) lens k r =
    let (two, r2) = bits src 2 r in
    let (three, r3) = bits src 3 r in
    let (seven, r7) = bits src 7 r in
    let prev = if k == 0 then 0 else get_or lens (k - 1) 0 in
    if ltb sym 16
    then record { lens = set lens k sym; k = k + 1; r = r }
    else if sym == 16
    then record { lens = write_rep lens k (3 + two) prev; k = k + (3 + two); r = r2 }
    else if sym == 17
    then record { lens = write_rep lens k (3 + three) 0; k = k + (3 + three); r = r3 }
    else record { lens = write_rep lens k (11 + seven) 0; k = k + (11 + seven); r = r7 }
length_round src none lens k r =
    let (seven, r7) = bits src 7 r in
    record { lens = write_rep lens k (11 + seven) 0; k = k + (11 + seven); r = r7 }

-- `while (k < hlit + hdist)`; each round advances `k`, so that `total` rounds are enough.
unfoldable pub read_lengths :
    ℕ → List ℕ → Tree → ℕ → List ℕ → ℕ → Reader → record { lens : List ℕ; k : ℕ; r : Reader }
unfolding length_round
read_lengths zero src cl total lens k r = record { lens = lens; k = k; r = r }
read_lengths (suc fuel) src cl total lens k r =
    let (sym, r') = decode_sym src cl r in
    let s = length_round src sym lens k r' in
    let rest = read_lengths fuel src cl total s.lens s.k s.r in
    if ltb k total then rest else record { lens = lens; k = k; r = r }

-- `BASE[s] + bits(BITS[s])`; outside the table the sum is NaN (`none`) and no bit is read.
unfoldable pub extended : List ℕ → List ℕ → List ℕ → Option ℕ → Reader → Option ℕ × Reader
extended src base extra none r = (none, r)
extended src base extra (some s) r = elim (get_elem? base s) [
  | none ↦ (none, r)
  | some b ↦ let (e, r') = bits src (get_or extra s 0) r in (some (b + e), r')
]

-- `out[outLen++] = out[from + i]`, `l` times; before the start of the output the byte is 0, and so
-- it is at the distance NaN.
unfoldable pub copy : ℕ → Option ℕ → List ℕ → List ℕ
copy zero d out = out
copy (suc l) none out = copy l none (0 ∷ out)
copy (suc l) (some d) out = copy l (some d) (get_or out (d - 1) 0 ∷ out)

-- At the length NaN `grow` makes an empty buffer, and `set` of a nonempty output on it throws.
unfoldable pub emit : Option ℕ → Option ℕ → List ℕ → Result (List ℕ)
unfolding copy
emit (some l) d out = ok (copy l d out)
emit none d [] = ok []
emit none d (x ∷ out) = thrown range_error

-- A symbol that is neither a literal nor the end of the block.
unfoldable pub copy_round : List ℕ → Tree → Option ℕ → List ℕ → Reader → Result (List ℕ) × Reader
unfolding extended emit
copy_round src dist s out r =
    let (l, r1) = extended src len_base len_bits s r in
    let (ds, r2) = decode_sym src dist r1 in
    let (d, r3) = extended src dist_base dist_bits ds r2 in (emit l d out, r3)

-- What the loop does with a symbol.
pub data Action : Type 0 where
  end_block : Action
  literal : ℕ → Action
  copying : Option ℕ → Action

unfoldable pub action : Option ℕ → Action
action none = copying none
action (some s) =
    if s == 256 then end_block else if ltb s 256 then literal s else copying (some (s - 257))

-- The rest of the round, where `loop` is the rest of the loop.
unfoldable pub act :
    List ℕ
    → Tree
    → (List ℕ → Reader → Result (List ℕ × Reader))
    → List ℕ
    → Reader
    → Action
    → Result (List ℕ × Reader)
act src dist loop out r end_block = ok (out, r)
act src dist loop out r (literal b) = loop (b ∷ out) r
act src dist loop out r (copying i) =
    let (res, r') = copy_round src dist i out r in res >>= λ out'. loop out' r'

-- `for (;;)` over the symbols of a compressed block.
unfoldable pub codes : ℕ → List ℕ → Tree → Tree → List ℕ → Reader → Result (List ℕ × Reader)
codes zero src lit dist out r = unfinished
codes (suc fuel) src lit dist out r =
    let (s, r1) = decode_sym src lit r in
    act src dist (λ out' r'. codes fuel src lit dist out' r') out r1 (action s)
