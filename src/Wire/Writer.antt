-- ===== src/Wire/Writer.antt =====
-- The put_ functions of src/telemetry_protocol.cpp: each appends to the vector `out`, which is the
-- last argument, so that a run of them is a do block.
use ffb_interceptor_visualiz.Common.{
  ℕ, zero, suc, ◌+◌, ◌*◌, ◌/◌, ◌%◌, ◌^◌, List, [], ◌∷◌, ◌++◌, ℤ, to_u32, take, min, ◌==◌,
  if◌then◌else◌,
}
use ffb_interceptor_visualiz.Wire.Model.{ConditionSample}

abbrev pub Writer : Type 0
Writer = List ℕ → List ℕ

infixl 5 ◌>>◌
abbrev pub ◌>>◌ : Writer → Writer → Writer
◌>>◌ m k out = k (m out)

abbrev pub push_back : ℕ → Writer
push_back b out = out ++ b ∷ []

-- out.insert(out.end(), bytes, bytes + n)
abbrev pub insert_end : List ℕ → Writer
insert_end bytes out = out ++ bytes

unfoldable pub put_u16 : ℕ → Writer
put_u16 value = do push_back (value % 256); push_back (value / 2 ^ 8 % 256)

-- The loop over the bytes i, …, i + n - 1 of a value.
unfoldable pub put_bytes : ℕ → ℕ → ℕ → Writer
put_bytes zero i value out = out
put_bytes (suc n) i value out =
    put_bytes n (i + 1) value (push_back (value / 2 ^ (8 * i) % 256) out)

unfoldable pub put_u32 : ℕ → Writer
unfolding put_bytes
put_u32 value = put_bytes 4 0 value

unfoldable pub put_u64 : ℕ → Writer
unfolding put_bytes
put_u64 value = put_bytes 8 0 value

unfoldable pub put_i32 : ℤ → Writer
put_i32 value = put_u32 (to_u32 value)

unfoldable pub put_guid : List ℕ → Writer
put_guid guid = insert_end guid

unfoldable pub put_condition : ConditionSample → Writer
put_condition condition = do
  put_i32 condition.offset
  put_i32 condition.positive_coefficient
  put_i32 condition.negative_coefficient
  put_u32 condition.positive_saturation
  put_u32 condition.negative_saturation
  put_i32 condition.dead_band

-- strnlen_s(text, bound): the bytes before the first NUL, `bound` if there is none.
unfoldable pub strnlen : List ℕ → ℕ → ℕ
strnlen [] bound = 0
strnlen (c ∷ cs) zero = 0
strnlen (c ∷ cs) (suc bound) = let rest = strnlen cs bound in if c == 0 then 0 else rest + 1

unfoldable pub put_string : List ℕ → Writer
put_string text =
    let len : ℕ = min (strnlen text 63) 63 in do put_u16 len; insert_end (take len text)

unfoldable pub put_fixed_string : List ℕ → ℕ → Writer
put_fixed_string text capacity = insert_end (take capacity text)

-- for (i = 0; i < n; ++i) put(xs[i])
unfoldable pub put_each {ℓ} : {A : Type ℓ} → (A → Writer) → List A → Writer
put_each put [] out = out
put_each put (x ∷ xs) out = put_each put xs (put x out)
