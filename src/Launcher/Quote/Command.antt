-- ===== src/Launcher/Quote/Command.antt =====
-- The arguments of a command line that build_command_line of launcher/injector.cpp makes.
use ffb_interceptor_visualiz.Common.{
  ℕ, zero, suc, ◌+◌, ◌≤◌, ◌≡◌, refl, sym, ap, ◌∙◌, inl, inr, Bool, true, false, not, List, [], ◌∷◌,
  ◌++◌, append-nil, append_assoc, ◌==◌, all, arith, length, length-append, Bool-cases, ==_iff,
}
use ffb_interceptor_visualiz.Launcher.Quote.{
  space, quote, backslash, backslashes, is_special, quote_characters, quote_argument, LaunchRequest,
  append_arguments, build_command_line,
}
use ffb_interceptor_visualiz.Launcher.Quote.Words.{
  is_blank, word, outside, skip_blanks, words_of, words_fuel, words,
}
use ffb_interceptor_visualiz.Launcher.Quote.RoundTrip.{
  added, quote_loop-added, backslashes-suc, unquoted, regroup, word-added,
}

plain : ℕ → Bool
plain c = not (is_special c)

not_blank : (c : ℕ) → is_special c ≡ false → (is_blank c ≡ false) × ((c == quote) ≡ false)
not_blank c h = (ground arith, ground arith)

-- What follows an argument ends it, and the next one begins with `more`.
abbrev Ends : List ℕ → List ℕ → Type 0
Ends rest more = (n : ℕ) (t : List ℕ) → word rest (unquoted n t) ≡ (t ++ backslashes n, more)

word_step :
    (c n : ℕ) (t rest : List ℕ)
    → is_blank c ≡ false
    → (c == backslash) ≡ false
    → (c == quote) ≡ false
    → word (c ∷ rest) (unquoted n t) ≡ word rest (unquoted 0 (t ++ (backslashes n ++ c ∷ [])))
unfolding word
word_step c n t rest b h k = rw (b, h, k)

word-backslash :
    (n : ℕ) (t rest : List ℕ)
    → word (backslash ∷ rest) (unquoted n t) ≡ word rest (unquoted (n + 1) t)
unfolding word
word-backslash n t rest = refl

quote_characters-plain :
    (argument : List ℕ) → all plain argument ≡ true → quote_characters argument ≡ argument
unfolding quote_characters plain
quote_characters-plain argument h = rw h

quote_characters-special :
    (argument : List ℕ)
    → all plain argument ≡ false
    → quote_characters argument ≡ quote ∷ added argument 0
unfolding quote_characters plain
quote_characters-special argument h = rw h (quote_loop-added argument 0 (quote ∷ []))

module _ (rest more : List ℕ) (ends : Ends rest more) where
  word-plain :
      (cs : List ℕ) (n : ℕ) (t : List ℕ)
      → all plain cs ≡ true
      → word (cs ++ rest) (unquoted n t) ≡ (t ++ (backslashes n ++ cs), more)
  unfolding plain
  word-plain [] n t h = rw (append-nil (backslashes n)) (ends n t)
  word-plain (c ∷ cs) n t h =
      let rest_plain : all plain cs ≡ true = ground arith in
      let not_special : is_special c ≡ false = ground arith in
      let (blank, k) = not_blank c not_special in
      elim (Bool-cases (c == backslash)) [
        | inl b ↦
            let same : c ≡ backslash = (==_iff c backslash).0 b in
            rw (same, ← backslashes-suc n cs)
              (word-backslash n t (cs ++ rest) ∙ word-plain cs (n + 1) t rest_plain)
        | inr b ↦
            word_step c n t (cs ++ rest) blank b k
            ∙ word-plain cs 0 (t ++ (backslashes n ++ c ∷ [])) rest_plain
            ∙ ap (λ l. (l, more)) (regroup t (backslashes n) c cs)
      ]

  word-open : (cs : List ℕ) → word (quote ∷ (added cs 0 ++ rest)) outside ≡ (cs, more)
  unfolding word
  word-open cs = word-added cs 0 [] rest ∙ ends 0 cs ∙ ap (λ l. (l, more)) (append-nil cs)

  word-nothing : word (quote ∷ quote ∷ rest) outside ≡ ([], more)
  unfolding word
  word-nothing = ends 0 []

  word-quote_argument :
      (argument : List ℕ) → word (quote_argument argument ++ rest) outside ≡ (argument, more)
  unfolding quote_argument
  word-quote_argument [] = word-nothing
  word-quote_argument (c ∷ cs) = elim (Bool-cases (all plain (c ∷ cs))) [
    | inl h ↦ rw (quote_characters-plain (c ∷ cs) h) (word-plain (c ∷ cs) 0 [] h)
    | inr h ↦ rw (quote_characters-special (c ∷ cs) h) (word-open (c ∷ cs))
  ]

-- What stands behind the arguments already appended.
following : List (List ℕ) → List ℕ
following [] = []
following (argument ∷ rest) = space ∷ (quote_argument argument ++ following rest)

behind_space : List (List ℕ) → List ℕ
behind_space [] = []
behind_space (argument ∷ rest) = quote_argument argument ++ following rest

following-Ends : (arguments : List (List ℕ)) → Ends (following arguments) (behind_space arguments)
unfolding word following behind_space
following-Ends [] n t = refl
following-Ends (argument ∷ rest) n t = refl

append_arguments-following :
    (arguments : List (List ℕ)) (command : List ℕ)
    → append_arguments arguments command ≡ command ++ following arguments
unfolding append_arguments following
append_arguments-following [] command = sym (append-nil command)
append_arguments-following (argument ∷ rest) command =
    append_arguments-following rest ((command ++ space ∷ []) ++ quote_argument argument)
    ∙ simp append_assoc

-- A quoted argument begins with a character that is not blank.
abbrev Visible : List ℕ → Type 0
Visible l = (c : ℕ) × (cs : List ℕ) × ((l ≡ c ∷ cs) × (is_blank c ≡ false))

quote_argument-Visible : (argument : List ℕ) → Visible (quote_argument argument)
unfolding quote_argument plain
quote_argument-Visible [] = (quote, quote ∷ [], (refl, refl))
quote_argument-Visible (c ∷ cs) = elim (Bool-cases (all plain (c ∷ cs))) [
  | inl h ↦
      let not_special : is_special c ≡ false = ground arith in
      (c, cs, (quote_characters-plain (c ∷ cs) h, (not_blank c not_special).0))
  | inr h ↦ (quote, added (c ∷ cs) 0, (quote_characters-special (c ∷ cs) h, refl))
]

words_fuel_step :
    (n : ℕ) (first more argument rest : List ℕ)
    → Visible first
    → word (first ++ more) outside ≡ (argument, rest)
    → words_fuel (suc n) (first ++ more) ≡ argument ∷ words_fuel n rest
unfolding words_fuel words_of skip_blanks
words_fuel_step n first more argument rest (c, cs, (e, blank)) h =
    let here : word (c ∷ (cs ++ more)) outside ≡ (argument, rest) =
      ap (λ l. word (l ++ more) outside) (sym e) ∙ h in
    rw (e, blank, here) refl

words_fuel-nothing : (n : ℕ) → words_fuel n [] ≡ []
unfolding words_fuel words_of skip_blanks
words_fuel-nothing zero = refl
words_fuel-nothing (suc n) = refl

words_fuel-behind :
    (arguments : List (List ℕ)) (n : ℕ)
    → length arguments ≤ n
    → words_fuel n (behind_space arguments) ≡ arguments
unfolding behind_space
words_fuel-behind [] n h = words_fuel-nothing n
words_fuel-behind (argument ∷ rest) zero h = elim (let no : ⊥ = omega arith in no) [ ]
words_fuel-behind (argument ∷ rest) (suc n) h =
    words_fuel_step n (quote_argument argument) (following rest) argument (behind_space rest)
      (quote_argument-Visible argument)
      (word-quote_argument (following rest) (behind_space rest) (following-Ends rest) argument)
    ∙ ap (λ l. argument ∷ l) (words_fuel-behind rest n (omega arith))

length-following : (arguments : List (List ℕ)) → length arguments ≤ length (following arguments)
unfolding following
length-following [] = omega arith
length-following (argument ∷ rest) =
    let shorter = length-following rest in
    let sum = length-append (quote_argument argument) (following rest) in omega arith

build_command_line-behind :
    (request : LaunchRequest)
    → build_command_line request ≡ behind_space (request.game_path ∷ request.game_arguments)
unfolding build_command_line behind_space
build_command_line-behind request =
    append_arguments-following request.game_arguments (quote_argument request.game_path)

enough_fuel :
    (path : List ℕ) (arguments : List (List ℕ))
    → suc (length arguments) ≤ suc (length (behind_space (path ∷ arguments)))
unfolding behind_space
enough_fuel path arguments =
    let shorter = length-following arguments in
    let sum = length-append (quote_argument path) (following arguments) in omega arith

-- Read by the documented rules for arguments, from its first character on, the command line holds
-- the path of the game and the arguments of the request: as many as there are, in their order,
-- each as it was, whatever blanks, quotes and backslashes they hold, empty ones included.
pub words-build_command_line :
    (request : LaunchRequest)
    → words (build_command_line request) ≡ request.game_path ∷ request.game_arguments
unfolding words
words-build_command_line request = rw (build_command_line-behind request) (
    words_fuel-behind (request.game_path ∷ request.game_arguments) _
      (enough_fuel request.game_path request.game_arguments))
