-- ===== src/Launcher/Quote.antt =====
-- Command lines: quote_argument and build_command_line of launcher/injector.cpp, of which
-- quote_command_argument of launcher/manager_model.cpp is a copy. A wide character is its code.
pub mod Words
mod RoundTrip
pub mod Command
mod Runs
use ffb_interceptor_visualiz.Common.{
  ℕ, ◌+◌, ◌*◌, Bool, true, false, ◌&&◌, ◌||◌, not, List, [], ◌∷◌, ◌++◌, ◌==◌, if◌then◌else◌, all,
  replicate,
}

abbrev pub space : ℕ
space = 32

abbrev pub tab : ℕ
tab = 9

abbrev pub quote : ℕ
quote = 34

abbrev pub backslash : ℕ
backslash = 92

-- quoted.append(n, L'\\')
abbrev pub backslashes : ℕ → List ℕ
backslashes n = replicate n backslash

-- The characters of find_first_of(L" \t\"").
abbrev pub is_special : ℕ → Bool
is_special c = c == space || c == tab || c == quote

-- The number of backslashes just before the next character, and the output, after one round.
abbrev next_count : ℕ → ℕ → ℕ
next_count c n = if c == backslash then n + 1 else 0

abbrev next_output : ℕ → ℕ → List ℕ → List ℕ
next_output c n out =
    if c == backslash
    then out
    else if c == quote
    then (out ++ backslashes (n * 2 + 1)) ++ quote ∷ []
    else (out ++ backslashes n) ++ c ∷ []

-- The loop over the characters and the two lines behind it.
unfoldable pub quote_loop : List ℕ → ℕ → List ℕ → List ℕ
quote_loop [] n out = (out ++ backslashes (n * 2)) ++ quote ∷ []
quote_loop (c ∷ cs) n out = quote_loop cs (next_count c n) (next_output c n out)

-- An argument that is not empty.
unfoldable pub quote_characters : List ℕ → List ℕ
quote_characters argument =
    if all (λ c. not (is_special c)) argument then argument else quote_loop argument 0 (quote ∷ [])

unfoldable pub quote_argument : List ℕ → List ℕ
unfolding quote_characters
quote_argument [] = quote ∷ quote ∷ []
quote_argument (c ∷ cs) = quote_characters (c ∷ cs)

pub record LaunchRequest : Type 0 where
  pub game_path : List ℕ
  pub game_arguments : List (List ℕ)

unfoldable pub append_arguments : List (List ℕ) → List ℕ → List ℕ
append_arguments [] command = command
append_arguments (argument ∷ rest) command =
    append_arguments rest ((command ++ space ∷ []) ++ quote_argument argument)

unfoldable pub build_command_line : LaunchRequest → List ℕ
unfolding append_arguments
build_command_line request =
    append_arguments request.game_arguments (quote_argument request.game_path)
