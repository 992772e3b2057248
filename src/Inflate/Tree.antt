-- ===== src/Inflate/Tree.antt =====
-- `buildTree` and `decodeSym`.
use rami_ledger.Prelude.{
  ℕ, ◌+◌, ◌-◌, ◌*◌, Option, none, List, [], ◌∷◌, ◌==◌, ltb, if◌then◌else◌, get_or, get_elem?, set,
  replicate, length, tail_of,
}
use rami_ledger.Inflate.Reader.{Reader, bit}

pub record Tree : Type 0 where
  pub counts : List ℕ
  pub symbols : List ℕ

-- `a[i]++`
abbrev pub bump : List ℕ → ℕ → List ℕ
bump xs i = set xs i (get_or xs i 0 + 1)

unfoldable pub count_lengths : List ℕ → List ℕ → List ℕ
count_lengths counts [] = counts
count_lengths counts (l ∷ ls) = count_lengths (bump counts l) ls

-- The running sums that become `offs`.
unfoldable pub offsets : ℕ → List ℕ → List ℕ
offsets sum [] = []
offsets sum (c ∷ cs) = sum ∷ offsets (sum + c) cs

-- The last loop, from symbol `i` on.
unfoldable pub fill_symbols : List ℕ → List ℕ → ℕ → List ℕ → List ℕ
fill_symbols symbols offs i [] = symbols
fill_symbols symbols offs i (l ∷ ls) =
    fill_symbols (if l == 0 then symbols else set symbols (get_or offs l 0) i)
      (if l == 0 then offs else bump offs l) (i + 1) ls

-- `buildTree(lengths, n)` for the `n` lengths of the list.
unfoldable pub build_tree : List ℕ → Tree
unfolding count_lengths offsets fill_symbols
build_tree lengths =
    let counts = set (count_lengths (replicate 16 0) lengths) 0 0 in
    record {
      counts = counts;
      symbols = fill_symbols (replicate (length lengths) 0) (offsets 0 counts) 0 lengths;
    }

-- The loop of `decodeSym` over the counts of the lengths to come. Beyond the last one the count is
-- `undefined`, the loop ends on NaN, and the symbol is `undefined`.
unfoldable pub decode_rounds : List ℕ → List ℕ → List ℕ → ℕ → ℕ → Reader → Option ℕ × Reader
decode_rounds src symbols [] sum cur r = (none, (bit src r).1)
decode_rounds src symbols (c ∷ cs) sum cur r =
    let (b, r') = bit src r in
    let rest = decode_rounds src symbols cs (sum + c) (2 * cur + b - c) r' in
    if ltb (2 * cur + b) c then (get_elem? symbols (sum + (2 * cur + b)), r') else rest

unfoldable pub decode_sym : List ℕ → Tree → Reader → Option ℕ × Reader
unfolding decode_rounds
decode_sym src tree r = decode_rounds src tree.symbols (tail_of tree.counts) 0 0 r
