-- ===== src/Inflate/Symbols.antt =====
-- `decodeSym` and the copies, against their descriptions in RFC 1951.
use mathlib.Core.Path.{ap₂}
use native.Mathlib.Decide.{ℕ_discrete}
use native.Mathlib.Nat.{pow-suc}
use rami_ledger.Prelude.{
  ℕ, zero, suc, ◌+◌, ◌-◌, ◌*◌, ◌^◌, ◌≤◌, ◌<◌, ◌≡◌, refl, sym, ◌∙◌, ap, some, List, [], ◌∷◌, arith,
  length, get_or, get_elem?, get_elem?-drop, get_elem?-get_or, drop, drop-suc, not_ltb,
}
use rami_ledger.Inflate.Reader.{Reader, bit}
use rami_ledger.Inflate.Tree.{Tree, decode_rounds, decode_sym}
use rami_ledger.Inflate.Codes.{copy}

-- The next `m` bits as a number, the first bit on top, and the reader behind them.
unfoldable pub read_msb : List ℕ → ℕ → ℕ → Reader → ℕ × Reader
read_msb src zero v r = (v, r)
read_msb src (suc m) v r = let (b, r') = bit src r in read_msb src m (2 * v + b) r'

-- Of the counts of the lengths 1, 2, …: the first code of length m + 1, the symbols before it, and
-- its count.
unfoldable pub first_code : List ℕ → ℕ → ℕ
first_code cs zero = 0
first_code [] (suc m) = 0
first_code (c ∷ cs) (suc m) = c * 2 ^ suc m + first_code cs m

unfoldable pub before : List ℕ → ℕ → ℕ
before cs zero = 0
before [] (suc m) = 0
before (c ∷ cs) (suc m) = c + before cs m

bit-lt : (src : List ℕ) (r : Reader) → (bit src r).0 < 2
unfolding bit
bit-lt src r = omega arith

scale_bit : (b p : ℕ) → b < 2 → b * p ≤ p
scale_bit zero p h = omega arith
scale_bit (suc zero) p h = omega arith
scale_bit (suc (suc b)) p h = absurd (omega arith)

-- The start value only shifts the number that is read.
read_msb_shift :
    (src : List ℕ) (m v : ℕ) (r : Reader)
    → ((read_msb src m v r).0 ≡ v * 2 ^ m + (read_msb src m 0 r).0)
      × ((read_msb src m v r).1 ≡ (read_msb src m 0 r).1)
      × ((read_msb src m 0 r).0 < 2 ^ m)
unfolding read_msb
read_msb_shift src zero v r = (omega arith, refl, omega arith)
read_msb_shift src (suc m) v r =
    let b = (bit src r).0 in
    let (low, reader, small) = read_msb_shift src m (2 * v + b) (bit src r).1 in
    let (low', reader', _) = read_msb_shift src m (2 * 0 + b) (bit src r).1 in
    (
      omega (arith, pow-suc 2 m, ap (λ (t : ℕ). v * t) (pow-suc 2 m)),
      reader ∙ sym reader',
      omega (arith, pow-suc 2 m, scale_bit b (2 ^ m) (bit-lt src r)),
    )

-- A code of a greater length does not fall among the codes of a smaller one.
longer : (c0 p v w rest : ℕ) → w < p → v * p + w ≡ c0 * p + rest → c0 ≤ v
longer c0 p v w rest h e = grind arith

remove : (c0 p v w rest : ℕ) → c0 ≤ v → v * p + w ≡ c0 * p + rest → (v - c0) * p + w ≡ rest
remove c0 p v w rest h e = grind arith

-- The loop of `decodeSym` at the j-th code of length m + 1, from any state of the loop.
decode_rounds_code :
    (src symbols cs : List ℕ) (m sum cur j c : ℕ) (r : Reader)
    → get_elem? cs m ≡ some c
    → j < c
    → (read_msb src (suc m) cur r).0 ≡ first_code cs m + j
    → decode_rounds src symbols cs sum cur r
      ≡ (get_elem? symbols (sum + before cs m + j), (read_msb src (suc m) cur r).1)
unfolding decode_rounds read_msb first_code before
decode_rounds_code src symbols [] m sum cur j c r known lt code = cc
decode_rounds_code src symbols (c0 ∷ cs) zero sum cur j c r known lt code = ground arith
decode_rounds_code src symbols (c0 ∷ cs) (suc m) sum cur j c r known lt code =
    let b = (bit src r).0 in
    let p = 2 ^ suc m in
    let (shifted, reader, small) = read_msb_shift src (suc m) (2 * cur + b) (bit src r).1 in
    let w = (read_msb src (suc m) 0 (bit src r).1).0 in
    let total : (2 * cur + b) * p + w ≡ c0 * p + (first_code cs m + j) =
      omega (arith, sym shifted ∙ code) in
    let enough : c0 ≤ 2 * cur + b = longer c0 p (2 * cur + b) w (first_code cs m + j) small total in
    let (shifted', reader', _) = read_msb_shift src (suc m) (2 * cur + b - c0) (bit src r).1 in
    let rest : (2 * cur + b - c0) * p + w ≡ first_code cs m + j =
      remove c0 p (2 * cur + b) w (first_code cs m + j) enough total in
    let ih =
      decode_rounds_code src symbols cs m (sum + c0) (2 * cur + b - c0) j c (bit src r).1 known lt
        (shifted' ∙ rest) in
    let place : sum + c0 + before cs m + j ≡ sum + (c0 + before cs m) + j = omega arith in
    rw (not_ltb (2 * cur + b) c0 enough)
      (ih ∙ ap₂ (λ (k : ℕ) (q : Reader). (get_elem? symbols k, q)) place (reader' ∙ sym reader))

-- `decodeSym` of a tree whose counts after the first are `cs`: if the next m + 1 bits are the j-th
-- code of length m + 1 of the canonical code with these counts, they are read, and the symbol is
-- the j-th behind those of the smaller lengths.
pub decode_sym_code :
    (src : List ℕ) (tree : Tree) (c0 : ℕ) (cs : List ℕ) (m j c : ℕ) (r : Reader)
    → tree.counts ≡ c0 ∷ cs
    → get_elem? cs m ≡ some c
    → j < c
    → (read_msb src (suc m) 0 r).0 ≡ first_code cs m + j
    → decode_sym src tree r
      ≡ (get_elem? tree.symbols (before cs m + j), (read_msb src (suc m) 0 r).1)
unfolding decode_sym
decode_sym_code src tree c0 cs m j c r counts known lt code = rw counts (
    decode_rounds_code src tree.symbols cs m 0 0 j c r known lt code
    ∙ ap (λ (k : ℕ). (get_elem? tree.symbols k, (read_msb src (suc m) 0 r).1)) (omega arith))

copy_keeps :
    (l d : ℕ) (out : List ℕ)
    → (length (copy l (some d) out) ≡ l + length out) × (drop l (copy l (some d) out) ≡ out)
unfolding copy
copy_keeps zero d out = (omega arith, refl)
copy_keeps (suc l) d out =
    let (len, old) = copy_keeps l d (get_or out (d - 1) 0 ∷ out) in
    (omega arith, drop-suc l (copy l (some d) (get_or out (d - 1) 0 ∷ out)) old)

-- The first of the new bytes.
copy_first :
    (l d : ℕ) (out : List ℕ)
    → d < length out
    → get_elem? (copy (suc l) (some (suc d)) out) l
      ≡ get_elem? (copy (suc l) (some (suc d)) out) (l + suc d)
unfolding copy
copy_first l d out k =
    let x = get_or out (suc d - 1) 0 in
    let out' = copy l (some (suc d)) (x ∷ out) in
    let old = (copy_keeps l (suc d) (x ∷ out)).1 in
    let at_l : get_elem? out' l ≡ some x =
      ap (get_elem? out') {x = l} (omega arith)
      ∙ sym (get_elem?-drop l 0 out')
      ∙ ap (λ (q : List ℕ). get_elem? q 0) old in
    let behind : get_elem? out' (l + suc d) ≡ get_elem? out d =
      sym (get_elem?-drop l (suc d) out') ∙ ap (λ (q : List ℕ). get_elem? q (suc d)) old in
    let read : get_elem? out d ≡ some (get_or out d 0) = get_elem?-get_or out d 0 k in
    let same : x ≡ get_or out d 0 = ap (λ (t : ℕ). get_or out t 0) {x = suc d - 1} (omega arith) in
    at_l ∙ ap some same ∙ sym read ∙ sym behind

copy_period :
    (l d i : ℕ) (out : List ℕ)
    → 0 < d
    → d ≤ length out
    → i < l
    → get_elem? (copy l (some d) out) i ≡ get_elem? (copy l (some d) out) (i + d)
unfolding copy
copy_period zero d i out h k lt = elim lt [ ]
copy_period (suc l) zero i out h k lt = absurd (omega arith)
copy_period (suc l) (suc d) i out h k lt = elim (ℕ_discrete i l) [
  | yes e ↦ rw e (copy_first l d out k)
  | no ne ↦ copy_period l (suc d) i (get_or out (suc d - 1) 0 ∷ out) h (omega arith) (omega arith)
]

-- A copy of `l` bytes at a distance within the output keeps what is there, and each new byte is the
-- one `d` places before it (the output is reversed, so before is behind).
pub copy_lem :
    (l d i : ℕ) (out : List ℕ)
    → 0 < d
    → d ≤ length out
    → i < l
    → (length (copy l (some d) out) ≡ l + length out)
      × (drop l (copy l (some d) out) ≡ out)
      × (get_elem? (copy l (some d) out) i ≡ get_elem? (copy l (some d) out) (i + d))
copy_lem l d i out h k lt =
    let (len, old) = copy_keeps l d out in (len, old, copy_period l d i out h k lt)
