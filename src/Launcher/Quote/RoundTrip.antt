-- ===== src/Launcher/Quote/RoundTrip.antt =====
-- Quoted arguments come back as they were.
use ffb_interceptor_visualiz.Common.{
  ℕ, zero, suc, ◌+◌, ◌*◌, ◌/◌, ◌%◌, ◌≡◌, refl, ap, ◌∙◌, inl, inr, true, false, List, [], ◌∷◌, ◌++◌,
  append-nil, append_assoc, ◌==◌, arith, Bool-cases, ==_iff,
}
use native.Mathlib.Numerals.{add-one}
use ffb_interceptor_visualiz.Launcher.Quote.{
  quote, backslash, backslashes, next_count, next_output, quote_loop,
}
use ffb_interceptor_visualiz.Launcher.Quote.Words.{is_blank, State, at_quote, word}

-- What the loop adds to the output.
unfoldable pub added : List ℕ → ℕ → List ℕ
added [] n = backslashes (n * 2) ++ quote ∷ []
added (c ∷ cs) n = next_output c n [] ++ added cs (next_count c n)

next_output-append : (c n : ℕ) (out : List ℕ) → next_output c n out ≡ out ++ next_output c n []
next_output-append c n out = ground (
  arith,
  append-nil out,
  append_assoc out (backslashes (n * 2 + 1)) (quote ∷ []),
  append_assoc out (backslashes n) (c ∷ []),
)

pub quote_loop-added :
    (cs : List ℕ) (n : ℕ) (out : List ℕ) → quote_loop cs n out ≡ out ++ added cs n
unfolding quote_loop added
quote_loop-added [] n out = append_assoc out (backslashes (n * 2)) (quote ∷ [])
quote_loop-added (c ∷ cs) n out =
    quote_loop-added cs (next_count c n) (next_output c n out)
    ∙ rw (next_output-append c n out)
        (append_assoc out (next_output c n []) (added cs (next_count c n)))

abbrev pub quoted : ℕ → List ℕ → State
quoted n t = record { open_quotes = true; count = n; taken = t }

-- A run of backslashes is counted.
word-backslashes :
    (k n : ℕ) (t rest : List ℕ)
    → word (backslashes k ++ rest) (quoted n t) ≡ word rest (quoted (n + k) t)
unfolding word
word-backslashes zero n t rest =
    ap (λ (j : ℕ). word rest (quoted j t)) (let e : n ≡ n + 0 = omega arith in e)
word-backslashes (suc k) n t rest =
    word-backslashes k (n + 1) t rest
    ∙ ap (λ (j : ℕ). word rest (quoted j t)) (let e : n + 1 + k ≡ n + suc k = omega arith in e)

pub backslashes-suc :
    (n : ℕ) (cs : List ℕ) → backslashes (n + 1) ++ cs ≡ backslashes n ++ backslash ∷ cs
backslashes-suc n cs = rw add-one (shift n)
  where
    shift : (m : ℕ) → backslashes (suc m) ++ cs ≡ backslashes m ++ backslash ∷ cs
    shift zero = refl
    shift (suc m) = ap (λ t. backslash ∷ t) (shift m)

-- A quote after an odd number of backslashes is taken, and one after an even number closes.
at_odd_quote :
    (n : ℕ) (t : List ℕ)
    → at_quote (quoted (n * 2 + 1) t) ≡ quoted 0 (t ++ (backslashes n ++ quote ∷ []))
at_odd_quote n t =
    let half : (n * 2 + 1) / 2 ≡ n = omega arith in
    let odd : (n * 2 + 1) % 2 ≡ 1 = omega arith in rw (half, odd)

at_even_quote :
    (n : ℕ) (t : List ℕ)
    → at_quote (quoted (n * 2) t)
      ≡ record { open_quotes = false; count = 0; taken = t ++ backslashes n }
at_even_quote n t =
    let half : n * 2 / 2 ≡ n = omega arith in
    let even : n * 2 % 2 ≡ 0 = omega arith in rw (half, even)

word-odd_quote :
    (n : ℕ) (t rest : List ℕ)
    → word (quote ∷ rest) (quoted (n * 2 + 1) t)
      ≡ word rest (quoted 0 (t ++ (backslashes n ++ quote ∷ [])))
unfolding word
word-odd_quote n t rest = ap (word rest) (at_odd_quote n t)

abbrev pub unquoted : ℕ → List ℕ → State
unquoted n t = record { open_quotes = false; count = n; taken = t }

word-even_quote :
    (n : ℕ) (t rest : List ℕ)
    → word (quote ∷ rest) (quoted (n * 2) t) ≡ word rest (unquoted 0 (t ++ backslashes n))
unfolding word
word-even_quote n t rest = ap (word rest) (at_even_quote n t)

-- Another character is taken with the backslashes before it.
word-other :
    (c n : ℕ) (t rest : List ℕ)
    → (c == backslash) ≡ false
    → (c == quote) ≡ false
    → word (c ∷ rest) (quoted n t) ≡ word rest (quoted 0 (t ++ (backslashes n ++ c ∷ [])))
unfolding word
word-other c n t rest h k = elim (Bool-cases (is_blank c)) [
  | inl b ↦ rw (b, h, k)
  | inr b ↦ rw (b, h, k)
]

pub regroup :
    (t xs : List ℕ) (c : ℕ) (cs : List ℕ) → (t ++ (xs ++ c ∷ [])) ++ cs ≡ t ++ (xs ++ c ∷ cs)
regroup t xs c cs = simp append_assoc

start_of_run :
    (k : ℕ) (t more : List ℕ) → word (backslashes k ++ more) (quoted 0 t) ≡ word more (quoted k t)
start_of_run k t more =
    word-backslashes k 0 t more
    ∙ ap (λ (j : ℕ). word more (quoted j t)) (let e : 0 + k ≡ k = omega arith in e)

flatten :
    (xs : List ℕ) (c : ℕ) (tail rest : List ℕ)
    → ((xs ++ c ∷ []) ++ tail) ++ rest ≡ xs ++ c ∷ (tail ++ rest)
flatten xs c tail rest = simp append_assoc

-- Inside quotes the added characters spell the argument, and the last one closes the quotes.
pub word-added :
    (cs : List ℕ) (n : ℕ) (t rest : List ℕ)
    → word (added cs n ++ rest) (quoted 0 t) ≡ word rest (unquoted 0 (t ++ (backslashes n ++ cs)))
unfolding added
word-added [] n t rest =
    rw (append_assoc (backslashes (n * 2)) (quote ∷ []) rest, append-nil (backslashes n))
      (start_of_run (n * 2) t (quote ∷ rest) ∙ word-even_quote n t rest)
word-added (c ∷ cs) n t rest = elim (Bool-cases (c == backslash)) [
  | inl b ↦
      let same : c ≡ backslash = (==_iff c backslash).0 b in
      rw (b, same, ← backslashes-suc n cs) (word-added cs (n + 1) t rest)
  | inr b ↦ elim (Bool-cases (c == quote)) [
    | inl q ↦
        let same : c ≡ quote = (==_iff c quote).0 q in
        rw (b, q, same)
          (ap (λ l. word l (quoted 0 t)) (flatten (backslashes (n * 2 + 1)) quote (added cs 0) rest)
            ∙ start_of_run (n * 2 + 1) t (quote ∷ (added cs 0 ++ rest))
            ∙ word-odd_quote n t (added cs 0 ++ rest)
            ∙ word-added cs 0 (t ++ (backslashes n ++ quote ∷ [])) rest
            ∙ ap (λ l. word rest (unquoted 0 l)) (regroup t (backslashes n) quote cs))
    | inr q ↦
        rw (b, q)
          (ap (λ l. word l (quoted 0 t)) (flatten (backslashes n) c (added cs 0) rest)
            ∙ start_of_run n t (c ∷ (added cs 0 ++ rest))
            ∙ word-other c n t (added cs 0 ++ rest) b q
            ∙ word-added cs 0 (t ++ (backslashes n ++ c ∷ [])) rest
            ∙ ap (λ l. word rest (unquoted 0 l)) (regroup t (backslashes n) c cs))
  ]
]
