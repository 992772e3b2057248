-- ===== src/Inflate/Tests.antt =====
-- Runs of the decompressor on zlib streams.
use rami_ledger.Prelude.{
  ℕ, ◌+◌, ◌≡◌, refl, sym, ◌∙◌, some, List, [], ◌∷◌, ◌++◌, arith, length, drop, get_elem?,
}
use rami_ledger.Inflate.Reader.{Reader, bit, bits}
use rami_ledger.Inflate.Tree.{Tree, decode_sym}
use rami_ledger.Result.{ok, unfinished}
use rami_ledger.Inflate.Codes.{copy, codes, act, action, copy_round}
use rami_ledger.Inflate.Blocks.{inflate, block, stored, dynamic_trees}
use rami_ledger.Inflate.Stored.{stored_block, stored_blocks, inflate_stored, inflate_truncated}
use rami_ledger.Inflate.Symbols.{read_msb, first_code, before, decode_sym_code, copy_lem}
use rami_ledger.Inflate.Fuel.{inflate_fuel}

-- A stream with one fixed block: abcabcabcabcXabcabc
abbrev fixed_stream : List ℕ
fixed_stream = 120 ∷ 156 ∷ 75 ∷ 76 ∷ 74 ∷ 78 ∷ 132 ∷ 161 ∷ 8 ∷ 8 ∷ 5 ∷ 0 ∷ 72 ∷ 125 ∷ 7 ∷ 61 ∷ []

fixed_run :
    inflate 40 fixed_stream
    ≡ ok (
        97 ∷ 98 ∷ 99 ∷ 97 ∷ 98 ∷ 99 ∷ 97 ∷ 98 ∷ 99 ∷ 97 ∷ 98 ∷ 99 ∷ 88 ∷ 97 ∷ 98 ∷ 99 ∷ 97 ∷ 98 ∷ 99
        ∷ [])
unfolding inflate block stored dynamic_trees codes act action copy_round bits bit decode_sym
fixed_run = refl

-- A stream with one dynamic block.
abbrev dynamic_stream : List ℕ
dynamic_stream =
    120 ∷ 218 ∷ 29 ∷ 79 ∷ 137 ∷ 17 ∷ 192 ∷ 48 ∷ 8 ∷ 154 ∷ 149 ∷ 207 ∷ 184 ∷ 255 ∷ 4 ∷ 197 ∷ 94 ∷ 158
    ∷ 139 ∷ 160 ∷ 64 ∷ 48 ∷ 32 ∷ 108 ∷ 63 ∷ 1 ∷ 134 ∷ 52 ∷ 88 ∷ 115 ∷ 113 ∷ 40 ∷ 240 ∷ 2 ∷ 61 ∷ 104
    ∷ 145 ∷ 182 ∷ 164 ∷ 208 ∷ 131 ∷ 9 ∷ 229 ∷ 149 ∷ 90 ∷ 98 ∷ 185 ∷ 155 ∷ 171 ∷ 200 ∷ 113 ∷ 58 ∷ 106
    ∷ 172 ∷ 58 ∷ 192 ∷ 236 ∷ 209 ∷ 238 ∷ 56 ∷ 34 ∷ 122 ∷ 75 ∷ 112 ∷ 103 ∷ 166 ∷ 92 ∷ 165 ∷ 122 ∷ 170
    ∷ 27 ∷ 14 ∷ 205 ∷ 151 ∷ 217 ∷ 26 ∷ 228 ∷ 135 ∷ 42 ∷ 62 ∷ 125 ∷ 201 ∷ 20 ∷ 11 ∷ 76 ∷ 27 ∷ 166
    ∷ 78 ∷ 72 ∷ 239 ∷ 156 ∷ 249 ∷ 69 ∷ 100 ∷ 87 ∷ 211 ∷ 93 ∷ 60 ∷ 6 ∷ 143 ∷ 117 ∷ 114 ∷ 183 ∷ 91
    ∷ 138 ∷ 58 ∷ 186 ∷ 106 ∷ 211 ∷ 223 ∷ 64 ∷ 31 ∷ 242 ∷ 241 ∷ 85 ∷ 123 ∷ []

dynamic_run :
    inflate 400 dynamic_stream
    ≡ ok (
        97 ∷ 102 ∷ 97 ∷ 98 ∷ 97 ∷ 100 ∷ 100 ∷ 100 ∷ 103 ∷ 99 ∷ 97 ∷ 97 ∷ 100 ∷ 97 ∷ 99 ∷ 99 ∷ 102
        ∷ 97 ∷ 104 ∷ 100 ∷ 98 ∷ 104 ∷ 97 ∷ 102 ∷ 97 ∷ 98 ∷ 97 ∷ 97 ∷ 97 ∷ 103 ∷ 101 ∷ 97 ∷ 99 ∷ 103
        ∷ 97 ∷ 99 ∷ 104 ∷ 97 ∷ 101 ∷ 97 ∷ 100 ∷ 100 ∷ 101 ∷ 97 ∷ 98 ∷ 97 ∷ 103 ∷ 97 ∷ 100 ∷ 98 ∷ 97
        ∷ 99 ∷ 101 ∷ 103 ∷ 97 ∷ 97 ∷ 103 ∷ 104 ∷ 98 ∷ 97 ∷ 104 ∷ 98 ∷ 104 ∷ 104 ∷ 101 ∷ 99 ∷ 101
        ∷ 103 ∷ 97 ∷ 98 ∷ 98 ∷ 102 ∷ 100 ∷ 101 ∷ 99 ∷ 102 ∷ 97 ∷ 100 ∷ 97 ∷ 104 ∷ 99 ∷ 99 ∷ 103 ∷ 97
        ∷ 98 ∷ 101 ∷ 104 ∷ 103 ∷ 104 ∷ 98 ∷ 97 ∷ 100 ∷ 103 ∷ 101 ∷ 97 ∷ 97 ∷ 101 ∷ 99 ∷ 98 ∷ 100
        ∷ 104 ∷ 97 ∷ 100 ∷ 97 ∷ 98 ∷ 104 ∷ 102 ∷ 102 ∷ 102 ∷ 99 ∷ 103 ∷ 97 ∷ 97 ∷ 101 ∷ 97 ∷ 97 ∷ 97
        ∷ 101 ∷ 101 ∷ 97 ∷ 99 ∷ 101 ∷ 98 ∷ 102 ∷ 98 ∷ 100 ∷ 98 ∷ 103 ∷ 101 ∷ 102 ∷ 104 ∷ 97 ∷ 99
        ∷ 104 ∷ 101 ∷ 97 ∷ 101 ∷ 101 ∷ 97 ∷ 99 ∷ 97 ∷ 100 ∷ 98 ∷ 102 ∷ 101 ∷ 97 ∷ 101 ∷ 99 ∷ 100
        ∷ 98 ∷ 99 ∷ 98 ∷ 97 ∷ 101 ∷ 101 ∷ 102 ∷ 102 ∷ 98 ∷ 100 ∷ 102 ∷ 97 ∷ 97 ∷ 103 ∷ 97 ∷ 101
        ∷ 102 ∷ 97 ∷ 97 ∷ 101 ∷ 98 ∷ 97 ∷ 103 ∷ 97 ∷ 97 ∷ 97 ∷ 100 ∷ 97 ∷ 98 ∷ 97 ∷ 98 ∷ 97 ∷ 102
        ∷ 97 ∷ 98 ∷ 98 ∷ 97 ∷ 97 ∷ 97 ∷ 98 ∷ 101 ∷ 97 ∷ 103 ∷ 98 ∷ 103 ∷ 104 ∷ 98 ∷ 100 ∷ 104 ∷ 98
        ∷ 100 ∷ 100 ∷ 97 ∷ 97 ∷ 98 ∷ 99 ∷ 98 ∷ 99 ∷ 97 ∷ 98 ∷ 97 ∷ 98 ∷ 104 ∷ 101 ∷ 97 ∷ 102 ∷ 99
        ∷ 97 ∷ 97 ∷ 97 ∷ 99 ∷ [])
unfolding inflate block stored dynamic_trees codes act action copy_round bits bit decode_sym
dynamic_run = refl

inflate_fuel_case : inflate (40 + 5) fixed_stream ≡ inflate 40 fixed_stream
inflate_fuel_case = inflate_fuel 40 5 fixed_stream (λ e. cc (sym fixed_run ∙ e))

inflate_stored_case :
    inflate 2
      (0x78 ∷ 1 ∷ ((stored_blocks ((7 ∷ 8 ∷ []) ∷ []) ++ stored_block 1 (9 ∷ [])) ++ (5 ∷ [])))
    ≡ ok (7 ∷ 8 ∷ 9 ∷ [])
inflate_stored_case =
    inflate_stored 2 0x78 1 ((7 ∷ 8 ∷ []) ∷ []) (9 ∷ []) (5 ∷ []) refl (omega arith)

inflate_truncated_example : inflate 1000 (0x78 ∷ 1 ∷ stored_blocks ((7 ∷ 8 ∷ []) ∷ [])) ≡ unfinished
inflate_truncated_example = inflate_truncated 1000 0x78 1 ((7 ∷ 8 ∷ []) ∷ []) refl

copy_lem_case :
    (length (copy 3 (some 2) (2 ∷ 1 ∷ [])) ≡ 5)
    × (drop 3 (copy 3 (some 2) (2 ∷ 1 ∷ [])) ≡ 2 ∷ 1 ∷ [])
    × (get_elem? (copy 3 (some 2) (2 ∷ 1 ∷ [])) 0 ≡ get_elem? (copy 3 (some 2) (2 ∷ 1 ∷ [])) 2)
copy_lem_case = copy_lem 3 2 0 (2 ∷ 1 ∷ []) (omega arith) (omega arith) (omega arith)

-- The code of the lengths 1, 2, 2 for the symbols 0, 1, 2: the bits 1, 1 are the code of symbol 2.
abbrev small_tree : Tree
small_tree = record { counts = 0 ∷ 1 ∷ 2 ∷ []; symbols = 0 ∷ 1 ∷ 2 ∷ [] }

abbrev ones : Reader
ones = record { pos = 0; bit_buf = 0; bit_cnt = 0 }

decode_sym_code_example :
    decode_sym (255 ∷ []) small_tree ones
    ≡ (get_elem? small_tree.symbols (before (1 ∷ 2 ∷ []) 1 + 1), (read_msb (255 ∷ []) 2 0 ones).1)
unfolding read_msb bit first_code
decode_sym_code_example =
    decode_sym_code (255 ∷ []) small_tree 0 (1 ∷ 2 ∷ []) 1 1 2 ones refl refl (omega arith) refl
