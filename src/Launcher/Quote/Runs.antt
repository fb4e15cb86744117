-- ===== src/Launcher/Quote/Runs.antt =====
-- Command lines at concrete arguments.
use ffb_interceptor_visualiz.Common.{ℕ, ◌≡◌, refl, List, [], ◌∷◌}
use ffb_interceptor_visualiz.Launcher.Quote.{
  space, quote, backslash, quote_argument, quote_loop, quote_characters, LaunchRequest,
  build_command_line,
}
use ffb_interceptor_visualiz.Launcher.Quote.Words.{words}
use ffb_interceptor_visualiz.Launcher.Quote.Command.{words-build_command_line}

-- a blank, a quote behind a backslash and a backslash at the end
abbrev hard_argument : List ℕ
hard_argument = 97 ∷ space ∷ backslash ∷ quote ∷ 98 ∷ backslash ∷ []

hard_argument_quoted :
    quote_argument hard_argument
    ≡ quote ∷ 97 ∷ space ∷ backslash ∷ backslash ∷ backslash ∷ quote ∷ 98 ∷ backslash ∷ backslash
      ∷ quote ∷ []
unfolding quote_argument quote_characters quote_loop
hard_argument_quoted = refl

abbrev request : LaunchRequest
request = record {
  game_path = 67 ∷ 58 ∷ backslash ∷ 103 ∷ [];
  game_arguments = hard_argument ∷ [] ∷ (120 ∷ []) ∷ [];
}

words-build_command_line_example :
    words (build_command_line request) ≡ request.game_path ∷ hard_argument ∷ [] ∷ (120 ∷ []) ∷ []
words-build_command_line_example = words-build_command_line request
