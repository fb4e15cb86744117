-- ===== src/Wire/Copy.antt =====
-- What copy_utf8_truncated leaves in its buffer.
use ffb_interceptor_visualiz.Common.{
  ℕ, zero, suc, ◌+◌, ◌-◌, ◌≤◌, ◌<◌, ◌≡◌, refl, sym, ap, ◌∙◌, min, List, [], ◌∷◌, ◌++◌, Option, none,
  some, ltb, ltb→lt, length, length-append, length-take, get_or, take, drop, Bool-cases, inl, inr,
  arith, All,
}
use ffb_interceptor_visualiz.Wire.Text.{back_up, truncated_length, copy_text, copy_utf8_truncated}
use ffb_interceptor_visualiz.Wire.Truncation.{
  Point, IsPoint, bytes, fitting, back_up-bytes, fitting-all, fitting-prefix,
}

truncated_length-bytes :
    (ps : List Point) (capacity : ℕ)
    → All IsPoint ps
    → truncated_length capacity (bytes ps) ≡ length (bytes (fitting (capacity - 1) ps))
unfolding truncated_length
truncated_length-bytes ps capacity h =
    elim (Bool-cases (ltb (min (length (bytes ps)) (capacity - 1)) (length (bytes ps)))) [
      | inl cut ↦
          let less = ltb→lt (min (length (bytes ps)) (capacity - 1)) (length (bytes ps)) cut in
          let room : min (length (bytes ps)) (capacity - 1) ≡ capacity - 1 = omega arith in
          rw cut (
            ap (λ (j : ℕ). back_up j (bytes ps)) room
            ∙ back_up-bytes ps (capacity - 1) h (omega arith))
      | inr whole ↦
          let fits : length (bytes ps) ≤ capacity - 1 = ground arith in
          let size : min (length (bytes ps)) (capacity - 1) ≡ length (bytes ps) = omega arith in
          rw whole (size ∙ ap (λ l. length (bytes l)) (sym (fitting-all ps (capacity - 1) fits)))
    ]

-- Text made of whole code points is copied up to the last code point that fits before the end of
-- the buffer, with a NUL behind it; what follows in the buffer stays as it was, and the number of
-- bytes copied is returned.
pub copy_utf8_truncated-bytes :
    (c : ℕ) (out : List ℕ) (ps : List Point)
    → All IsPoint ps
    → copy_utf8_truncated (some (c ∷ out)) (some (bytes ps)) ≡ (
      some (
          bytes (fitting (length out) ps)
          ++ 0 ∷ drop (length (bytes (fitting (length out) ps)) + 1) (c ∷ out)),
      length (bytes (fitting (length out) ps)),
    )
unfolding copy_utf8_truncated copy_text
copy_utf8_truncated-bytes c out ps h =
    let room : suc (length out) - 1 ≡ length out = omega arith in
    let n = truncated_length-bytes ps (suc (length out)) h in
    rw (n, room, fitting-prefix ps (length out)) refl

back_up_le : (n : ℕ) (text : List ℕ) → back_up n text ≤ n
unfolding back_up
back_up_le zero text = omega arith
back_up_le (suc n) text = ground (arith, back_up_le n text)

truncated_length_lt :
    (capacity : ℕ) (text : List ℕ)
    → (truncated_length (suc capacity) text ≤ capacity)
      × (truncated_length (suc capacity) text ≤ length text)
unfolding truncated_length
truncated_length_lt capacity text =
    let back = back_up_le (min (length text) (suc capacity - 1)) text in
    (ground (arith, back), ground (arith, back))

length-drop : (n : ℕ) (xs : List ℕ) → length (drop n xs) ≡ length xs - n
length-drop zero xs = omega arith
length-drop (suc n) [] = omega arith
length-drop (suc n) (x ∷ xs) = omega (arith, length-drop n xs)

-- The buffer is not overrun, whatever the text is, and ends up with a NUL at the length returned.
abbrev pub Terminated : ℕ → Option (List ℕ) × ℕ → Type 0
Terminated capacity result =
    (copied : List ℕ) × ((result.0 ≡ some copied)
      × (length copied ≡ capacity)
      × (result.1 < capacity)
      × (get_or copied result.1 1 ≡ 0))

at_end : (xs ys : List ℕ) (n : ℕ) → length xs ≡ n → get_or (xs ++ 0 ∷ ys) n 1 ≡ 0
at_end [] ys n h = rw (sym h) refl
at_end (x ∷ xs) ys zero h = elim (let no : ⊥ = omega arith in no) [ ]
at_end (x ∷ xs) ys (suc n) h = at_end xs ys n (omega arith)

-- For every buffer of one character at least and every text, or none: the call leaves a buffer of
-- the same size, returns less than its size, and has put a NUL at the index that it returns.
pub copy_utf8_truncated-Terminated :
    (c : ℕ) (out : List ℕ) (text : Option (List ℕ))
    → Terminated (length (c ∷ out)) (copy_utf8_truncated (some (c ∷ out)) text)
unfolding copy_utf8_truncated copy_text
copy_utf8_truncated-Terminated c out none = (0 ∷ out, (refl, refl, omega arith, refl))
copy_utf8_truncated-Terminated c out (some text) =
    let bound = truncated_length_lt (length out) text in
    let n = truncated_length (suc (length out)) text in
    let taken : length (take n text) ≡ n = omega (arith, length-take n text, bound.0, bound.1) in
    (
      take n text ++ 0 ∷ drop (n + 1) (c ∷ out),
      (
        refl,
        omega (
          arith,
          bound.0,
          taken,
          length-append (take n text) (0 ∷ drop (n + 1) (c ∷ out)),
          length-drop (n + 1) (c ∷ out),
        ),
        omega (arith, bound.0),
        at_end (take n text) (drop (n + 1) (c ∷ out)) n taken,
      ),
    )
