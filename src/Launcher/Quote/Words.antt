-- ===== src/Launcher/Quote/Words.antt =====
-- How a Windows program takes its arguments from a command line, by the documented rules: blanks
-- outside quotes separate arguments; of n backslashes before a quote half are kept, and the quote
-- is a character of the argument if n is odd and opens or closes a quoted part if n is even;
-- other backslashes stand for themselves. (For a program's own name, the first word, Windows has a
-- simpler rule, in which a backslash never changes a quote's meaning; it is not modelled.)
use ffb_interceptor_visualiz.Common.{
  ℕ, zero, suc, ◌+◌, ◌/◌, ◌%◌, Bool, false, ◌&&◌, ◌||◌, not, List, [], ◌∷◌, ◌++◌, ◌==◌,
  if◌then◌else◌, length,
}
use ffb_interceptor_visualiz.Launcher.Quote.{space, tab, quote, backslash, backslashes}

abbrev pub is_blank : ℕ → Bool
is_blank c = c == space || c == tab

-- The state inside an argument: whether quotes are open, the backslashes just before, the
-- characters so far.
pub record State : Type 0 where
  pub open_quotes : Bool
  pub count : ℕ
  pub taken : List ℕ

abbrev pub at_quote : State → State
at_quote s =
    if s.count % 2 == 0
    then record {
      open_quotes = not s.open_quotes;
      count = 0;
      taken = s.taken ++ backslashes (s.count / 2);
    }
    else record s { count = 0; taken = s.taken ++ (backslashes (s.count / 2) ++ quote ∷ []) }

abbrev pub at_character : ℕ → State → State
at_character c s =
    if c == backslash
    then record s { count = s.count + 1 }
    else if c == quote
    then at_quote s
    else record s { count = 0; taken = s.taken ++ (backslashes s.count ++ c ∷ []) }

-- One argument and what stands behind its separator.
unfoldable pub word : List ℕ → State → List ℕ × List ℕ
word [] s = (s.taken ++ backslashes s.count, [])
word (c ∷ cs) s =
    let rest = word cs (at_character c s) in
    if is_blank c && not s.open_quotes then (s.taken ++ backslashes s.count, cs) else rest

abbrev pub outside : State
outside = record { open_quotes = false; count = 0; taken = [] }

unfoldable pub skip_blanks : List ℕ → List ℕ
skip_blanks [] = []
skip_blanks (c ∷ cs) = if is_blank c then skip_blanks cs else c ∷ cs

unfoldable pub words_of : (List ℕ → List (List ℕ)) → List ℕ → List (List ℕ)
words_of rest [] = []
words_of rest (c ∷ cs) = let (w, more) = word (c ∷ cs) outside in w ∷ rest more

unfoldable pub words_fuel : ℕ → List ℕ → List (List ℕ)
unfolding words_of skip_blanks
words_fuel zero line = []
words_fuel (suc n) line = words_of (words_fuel n) (skip_blanks line)

-- Every argument takes a character at least, so this fuel is enough.
unfoldable pub words : List ℕ → List (List ℕ)
unfolding words_fuel
words line = words_fuel (suc (length line)) line
