-- ===== src/Wire/Truncation.antt =====
-- The loop of copy_utf8_truncated, on text made of code points.
use ffb_interceptor_visualiz.Common.{
  ℕ, zero, suc, ◌+◌, ◌-◌, ◌≤◌, ◌<◌, ◌≡◌, refl, sym, ap, ◌∙◌, true, false, List, [], ◌∷◌, ◌++◌, leb,
  leb→le, if◌then◌else◌, length, length-append, get_or, take, Bool-cases, inl, inr, arith, All,
}
use ffb_interceptor_visualiz.Wire.Text.{is_continuation, back_up}

-- A code point: a byte that is not a continuation byte, and the continuation bytes behind it.
pub record Point : Type 0 where
  pub lead : ℕ
  pub tail : List ℕ

abbrev pub IsPoint : Point → Type 0
IsPoint p = (is_continuation p.lead ≡ false) × All (λ b. is_continuation b ≡ true) p.tail

abbrev pub encoded : Point → List ℕ
encoded p = p.lead ∷ p.tail

unfoldable pub bytes : List Point → List ℕ
bytes [] = []
bytes (p ∷ ps) = encoded p ++ bytes ps

-- As many whole code points as fit into `room` bytes.
unfoldable pub fitting : ℕ → List Point → List Point
fitting room [] = []
fitting room (p ∷ ps) =
    let rest = fitting (room - length (encoded p)) ps in
    if leb (length (encoded p)) room then p ∷ rest else []

get_or-append : (xs ys : List ℕ) (i d : ℕ) → get_or (xs ++ ys) (length xs + i) d ≡ get_or ys i d
get_or-append [] ys i d = ap (λ (j : ℕ). get_or ys j d) (let e : 0 + i ≡ i = omega arith in e)
get_or-append (x ∷ xs) ys i d =
    ap (λ (j : ℕ). get_or (x ∷ (xs ++ ys)) j d)
      (let e : suc (length xs) + i ≡ suc (length xs + i) = omega arith in e)
    ∙ get_or-append xs ys i d

-- Inside a code point the loop goes back to its start.
tail_byte :
    (xs ys : List ℕ) (i : ℕ)
    → All (λ b. is_continuation b ≡ true) xs
    → i < length xs
    → is_continuation (get_or (xs ++ ys) i 0) ≡ true
tail_byte [] ys i all h = elim h [ ]
tail_byte (x ∷ xs) ys zero all h = all.0
tail_byte (x ∷ xs) ys (suc i) all h = tail_byte xs ys i all.1 (omega arith)

back_up-inside :
    (p : Point) (ys : List ℕ) (n : ℕ)
    → IsPoint p
    → n < length (encoded p)
    → back_up n (encoded p ++ ys) ≡ 0
unfolding back_up
back_up-inside p ys zero h k = refl
back_up-inside p ys (suc n) h k =
    rw (tail_byte p.tail ys n h.1 (omega arith)) (back_up-inside p ys n h (omega arith))

-- Behind a code point it stops where it stops without it.
stops : (n : ℕ) (text : List ℕ) → is_continuation (get_or text n 0) ≡ false → back_up n text ≡ n
unfolding back_up
stops zero text h = refl
stops (suc n) text h = rw h

steps :
    (n : ℕ) (text : List ℕ)
    → is_continuation (get_or text (suc n) 0) ≡ true
    → back_up (suc n) text ≡ back_up n text
unfolding back_up
steps n text h = rw h

abbrev StartByte : List ℕ → Type 0
StartByte ys = is_continuation (get_or ys 0 0) ≡ false

back_up-append :
    (xs ys : List ℕ) (n : ℕ)
    → StartByte ys
    → back_up (length xs + n) (xs ++ ys) ≡ length xs + back_up n ys
unfolding back_up
back_up-append xs ys zero h =
    stops (length xs + 0) (xs ++ ys) (ap is_continuation (get_or-append xs ys 0 0) ∙ h)
back_up-append xs ys (suc n) h =
    let here = get_or-append xs ys (suc n) 0 in
    let later : length xs + suc n ≡ suc (length xs + n) = omega arith in
    elim (Bool-cases (is_continuation (get_or ys (suc n) 0))) [
      | inl c ↦ rw c (
          ap (λ (j : ℕ). back_up j (xs ++ ys)) later
          ∙ steps (length xs + n) (xs ++ ys) (
              ap (λ (j : ℕ). is_continuation (get_or (xs ++ ys) j 0)) (sym later)
              ∙ ap is_continuation here
              ∙ c)
          ∙ back_up-append xs ys n h)
      | inr c ↦ rw c (stops (length xs + suc n) (xs ++ ys) (ap is_continuation here ∙ c))
    ]

bytes-StartByte : (ps : List Point) → All IsPoint ps → StartByte (bytes ps)
unfolding bytes
bytes-StartByte [] h = refl
bytes-StartByte (p ∷ ps) h = h.0.0

pub back_up-bytes :
    (ps : List Point) (room : ℕ)
    → All IsPoint ps
    → room < length (bytes ps)
    → back_up room (bytes ps) ≡ length (bytes (fitting room ps))
unfolding bytes fitting
back_up-bytes [] room h k = elim (let no : ⊥ = omega arith in no) [ ]
back_up-bytes (p ∷ ps) room h k = elim (Bool-cases (leb (length (encoded p)) room)) [
  | inl fits ↦
      let le = leb→le (length (encoded p)) room fits in
      let split : length (encoded p) + (room - length (encoded p)) ≡ room = omega arith in
      let sum = length-append (encoded p) (bytes ps) in
      let rest = back_up-bytes ps (room - length (encoded p)) h.1 (omega arith) in
      rw fits (
        ap (λ (j : ℕ). back_up j (encoded p ++ bytes ps)) (sym split)
        ∙ back_up-append (encoded p) (bytes ps) (room - length (encoded p)) (bytes-StartByte ps h.1)
        ∙ ap (λ (j : ℕ). length (encoded p) + j) rest
        ∙ sym (length-append (encoded p) (bytes (fitting (room - length (encoded p)) ps))))
  | inr over ↦
      let short : room < length (encoded p) = ground arith in
      rw over (back_up-inside p (bytes ps) room h.0 short)
]

pub fitting-all : (ps : List Point) (room : ℕ) → length (bytes ps) ≤ room → fitting room ps ≡ ps
unfolding bytes fitting
fitting-all [] room h = refl
fitting-all (p ∷ ps) room h =
    let sum = length-append (encoded p) (bytes ps) in
    let fits : leb (length (encoded p)) room ≡ true = ground (arith, sum) in
    rw fits (ap (λ l. p ∷ l) (fitting-all ps (room - length (encoded p)) (omega arith)))

pub fitting-prefix :
    (ps : List Point) (room : ℕ)
    → take (length (bytes (fitting room ps))) (bytes ps) ≡ bytes (fitting room ps)
unfolding bytes fitting
fitting-prefix [] room = refl
fitting-prefix (p ∷ ps) room = elim (Bool-cases (leb (length (encoded p)) room)) [
  | inl fits ↦ rw fits (
      take_more (encoded p) (bytes (fitting (room - length (encoded p)) ps)) (bytes ps)
        (fitting-prefix ps (room - length (encoded p))))
  | inr over ↦ rw over refl
]
  where
    take_more :
        (xs ys zs : List ℕ)
        → take (length ys) zs ≡ ys
        → take (length (xs ++ ys)) (xs ++ zs) ≡ xs ++ ys
    take_more [] ys zs h = h
    take_more (x ∷ xs) ys zs h = ap (λ l. x ∷ l) (take_more xs ys zs h)
