-- ===== src/Manager/Redact/Runs.antt =====
-- A text with the home directory in it twice.
use ffb_interceptor_visualiz.Common.{
  ℕ, suc, ◌+◌, ◌≡◌, refl, ◌&&◌, [], ◌∷◌, ◌++◌, some, leb, if◌then◌else◌, length,
}
use ffb_interceptor_visualiz.Manager.Elevated.{Text}
use ffb_interceptor_visualiz.Manager.Redact.{
  user_profile, is_prefix, find, redact_loop, redact_user_path,
}
use ffb_interceptor_visualiz.Manager.Redact.Ends.{Redacted, redact_user_path_ends}

abbrev ascii_lower : ℕ → ℕ
ascii_lower c = if leb 65 c && leb c 90 then c + 32 else c

-- C:\u
abbrev home : Text
home = 67 ∷ 58 ∷ 92 ∷ 117 ∷ []

-- a c:\U\b C:\u
abbrev text : Text
text = 97 ∷ 32 ∷ 99 ∷ 58 ∷ 92 ∷ 85 ∷ 92 ∷ 98 ∷ 32 ∷ 67 ∷ 58 ∷ 92 ∷ 117 ∷ []

text_redacted :
    redact_user_path ascii_lower 20 5 (some home) text
    ≡ some ((97 ∷ 32 ∷ user_profile) ++ ((92 ∷ 98 ∷ 32 ∷ []) ++ user_profile))
unfolding redact_user_path redact_loop find is_prefix
text_redacted = refl

redact_user_path_ends_example :
    (out : Text) × (redact_user_path ascii_lower (suc (length text)) 5 (some home) text ≡ some out)
    × Redacted ascii_lower 5 (some home) text out
redact_user_path_ends_example = redact_user_path_ends ascii_lower 5 (some home) text
