-- ===== src/Wire/Text.antt =====
-- copy_utf8_truncated of src/telemetry_protocol.cpp. `none` is a null pointer: for `out`, or for
-- `text` with a size other than 0. The buffer has as many characters as `capacity` says.
use ffb_interceptor_visualiz.Common.{
  ℕ, zero, suc, ◌+◌, ◌-◌, min, Bool, List, [], ◌∷◌, ◌++◌, Option, none, some, ltb, ◌==◌,
  if◌then◌else◌, length, get_or, take, drop, bit_and,
}

-- (byte & 0xC0) == 0x80
abbrev pub is_continuation : ℕ → Bool
is_continuation byte = bit_and byte 192 == 128

-- The loop that steps back from the first byte left out, while it is a continuation byte.
unfoldable pub back_up : ℕ → List ℕ → ℕ
back_up zero text = 0
back_up (suc n) text =
    let back = back_up n text in if is_continuation (get_or text (suc n) 0) then back else suc n

unfoldable pub truncated_length : ℕ → List ℕ → ℕ
truncated_length capacity text =
    let n = min (length text) (capacity - 1) in if ltb n (length text) then back_up n text else n

unfoldable pub copy_text : List ℕ → Option (List ℕ) → List ℕ × ℕ
copy_text [] text = ([], 0)
copy_text (c ∷ out) none = (0 ∷ out, 0)
copy_text (c ∷ out) (some text) =
    let n = truncated_length (length (c ∷ out)) text in
    (take n text ++ 0 ∷ drop (n + 1) (c ∷ out), n)

-- The buffer after the call, and what it returns.
unfoldable pub copy_utf8_truncated : Option (List ℕ) → Option (List ℕ) → Option (List ℕ) × ℕ
copy_utf8_truncated none text = (none, 0)
copy_utf8_truncated (some out) text = let (copied, n) = copy_text out text in (some copied, n)
