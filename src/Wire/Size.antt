-- ===== src/Wire/Size.antt =====
-- The size of a frame.
use ffb_interceptor_visualiz.Common.{
  ℕ, ◌+◌, ◌*◌, ◌≤◌, ◌≡◌, List, [], ◌∷◌, arith, length, length-append, take, length-take, min, ℤ,
}
use ffb_interceptor_visualiz.Wire.Model.{Event, IsEvent, ConditionSample}
use ffb_interceptor_visualiz.Wire.Writer.{
  Writer, put_u16, put_u32, put_u64, put_i32, put_guid, put_condition, put_each, put_string,
  put_fixed_string, strnlen,
}
use ffb_interceptor_visualiz.Wire.Frame.{
  put_identity, put_parameters, put_forces, put_arrays, put_strings, payload, serialize_event,
}
use ffb_interceptor_visualiz.Wire.Groups.{c_string, length-c_string}

pub length-put_u16 : (v : ℕ) (out : List ℕ) → length (put_u16 v out) ≡ length out + 2
unfolding put_u16
length-put_u16 v out = simp length-append (omega arith)

pub length-put_u32 : (v : ℕ) (out : List ℕ) → length (put_u32 v out) ≡ length out + 4
unfolding put_u32
length-put_u32 v out = simp length-append (omega arith)

pub length-put_u64 : (v : ℕ) (out : List ℕ) → length (put_u64 v out) ≡ length out + 8
unfolding put_u64
length-put_u64 v out = simp length-append (omega arith)

length-put_i32 : (z : ℤ) (out : List ℕ) → length (put_i32 z out) ≡ length out + 4
unfolding put_i32
length-put_i32 z out = length-put_u32 _ out

length-put_condition :
    (s : ConditionSample) (out : List ℕ) → length (put_condition s out) ≡ length out + 24
unfolding put_condition
length-put_condition s out = omega (arith, length-put_u32, length-put_i32)

length-put_each {ℓ} :
    {A : Type ℓ} (put : A → Writer) (n : ℕ) (xs : List A) (out : List ℕ)
    → ((x : A) (out : List ℕ) → length (put x out) ≡ length out + n)
    → length (put_each put xs out) ≡ length out + length xs * n
unfolding put_each
length-put_each put n [] out h = omega arith
length-put_each put n (x ∷ xs) out h =
    omega (arith, length-put_each put n xs (put x out) h, h x out)

length-put_axes :
    (xs : List ℤ) (out : List ℕ) → length (put_each put_i32 xs out) ≡ length out + length xs * 4
length-put_axes xs out = length-put_each put_i32 4 xs out length-put_i32

length-put_conditions :
    (xs : List ConditionSample) (out : List ℕ)
    → length (put_each put_condition xs out) ≡ length out + length xs * 24
length-put_conditions xs out = length-put_each put_condition 24 xs out length-put_condition

length-put_string :
    (text out : List ℕ) → length (put_string text out) ≡ length out + 2 + length (c_string text)
unfolding put_string
length-put_string text out =
    let n = min (strnlen text 63) 63 in
    omega (arith, length-append (put_u16 n out) (take n text), length-put_u16 n out)

length-put_guid : (guid out : List ℕ) → length (put_guid guid out) ≡ length out + length guid
unfolding put_guid
length-put_guid guid out = length-append out guid

length-put_fixed_string :
    (text : List ℕ) (n : ℕ) (out : List ℕ)
    → length (put_fixed_string text n out) ≡ length out + min n (length text)
unfolding put_fixed_string
length-put_fixed_string text n out =
    omega (arith, length-append out (take n text), length-take n text)

module _ (e : Event) (v : IsEvent e) (out : List ℕ) where
  length-put_identity : length (put_identity e out) ≡ length out + 40
  unfolding put_identity
  length-put_identity =
      omega (arith, length-put_u32, length-put_i32, length-put_guid, v.effect_guid_size)

  length-put_parameters : length (put_parameters e out) ≡ length out + 52
  unfolding put_parameters
  length-put_parameters = omega (arith, length-put_u32)

  length-put_forces : length (put_forces e out) ≡ length out + 28
  unfolding put_forces
  length-put_forces = omega (arith, length-put_i32)

  length-put_arrays : length (put_arrays e out) ≡ length out + 272
  unfolding put_arrays
  length-put_arrays = omega (
    arith, length-put_u32, length-put_axes, length-put_conditions, v.axes_size, v.directions_size,
    v.conditions_size,
  )

  length-put_strings : length (put_strings e out) ≡ length out + 70 + length (c_string e.text)
  unfolding put_strings
  length-put_strings = omega (
    arith, length-put_u16, length-put_string, length-put_fixed_string, v.build_version_size,
    v.session_id_size,
  )

-- A payload has 462 bytes and the text's.
pub length-payload : (e : Event) → IsEvent e → length (payload e) ≡ 462 + length (c_string e.text)
unfolding payload
length-payload e v = omega (
  arith,
  length-put_identity e v [],
  length-put_parameters e v (put_identity e []),
  length-put_forces e v (put_parameters e (put_identity e [])),
  length-put_arrays e v (put_forces e (put_parameters e (put_identity e []))),
  length-put_strings e v (put_arrays e (put_forces e (put_parameters e (put_identity e [])))),
)

-- So the header's size field is exact.
pub length-serialize_event : (e : Event) → length (serialize_event e) ≡ 32 + length (payload e)
unfolding serialize_event put_u16 put_u32 put_u64
length-serialize_event e = omega arith

pub length-c_string-le : (text : List ℕ) → length (c_string text) ≤ 63
length-c_string-le text = omega (arith, length-c_string text)
