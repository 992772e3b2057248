-- ===== src/Result.antt =====
-- What a function of the decoders returns: a value, a thrown error, or, where a loop is bounded by
-- fuel, that the loop has not ended.

-- `unknown_method` and `invalid_block` are the errors of `inflate`; `bad_signature`, `unsupported` and
-- `incomplete` those of `parsePng` and `unfilterPng`; `range_error` is thrown by typed arrays and
-- `DataView`.
pub data Error : Type 0 where
  unknown_method invalid_block bad_signature unsupported incomplete range_error : Error

pub data Result {ℓ} (A : Type ℓ) : Type ℓ where
  ok : A → Result A
  thrown : Error → Result A
  unfinished : Result A

infixl 5 ◌>>=◌
abbrev pub ◌>>=◌ {ℓ κ} : {A : Type ℓ} {B : Type κ} → Result A → (A → Result B) → Result B
ok a >>= f = f a
thrown e >>= f = thrown e
unfinished >>= f = unfinished
