-- ===== src/Manager/Redact.antt =====
-- redact_user_path of launcher/manager_model.cpp. `lower` is std::towlower. GetEnvironmentVariableW
-- is asked twice for USERPROFILE: `required` is the size that it first answers, `value` what it then
-- writes, and `none` if it returns 0.
pub mod Find
pub mod Ends
mod Runs
use ffb_interceptor_visualiz.Common.{
  ℕ, zero, suc, ◌+◌, Bool, true, false, ◌||◌, ◌&&◌, not, List, [], ◌∷◌, ◌++◌, map, Option, none,
  some, ltb, ◌==◌, if◌then◌else◌, length, take, drop,
}
use ffb_interceptor_visualiz.Manager.Elevated.{Text}
use ffb_interceptor_visualiz.Manager.Paths.{is_empty}

-- %USERPROFILE%
abbrev pub user_profile : Text
user_profile = 37 ∷ 85 ∷ 83 ∷ 69 ∷ 82 ∷ 80 ∷ 82 ∷ 79 ∷ 70 ∷ 73 ∷ 76 ∷ 69 ∷ 37 ∷ []

unfoldable pub is_prefix : (pattern text : Text) → Bool
is_prefix [] text = true
is_prefix (p ∷ ps) [] = false
is_prefix (p ∷ ps) (c ∷ cs) = let rest = is_prefix ps cs in p == c && rest

abbrev pub one_more_index : Option ℕ → Option ℕ
one_more_index none = none
one_more_index (some n) = some (suc n)

-- std::wstring::find
unfoldable pub find : (pattern text : Text) → Option ℕ
unfolding is_prefix
find pattern [] = if is_prefix pattern [] then some 0 else none
find pattern (c ∷ cs) =
    let rest = find pattern cs in if is_prefix pattern (c ∷ cs) then some 0 else one_more_index rest

module _ (lower : ℕ → ℕ) (home : Text) where
  abbrev pub replaced : (result : Text) → (absolute : ℕ) → Text
  replaced result absolute =
      take absolute result ++ user_profile ++ drop (absolute + length home) result

  -- A turn of the loop, with the loop's rest.
  abbrev pub redact_found :
      (result : Text) → (offset : ℕ) → (found : Option ℕ) → (Text → ℕ → Option Text) → Option Text
  redact_found result offset none next = some result
  redact_found result offset (some found) next =
      next (replaced result (offset + found)) (offset + found + length user_profile)

  abbrev pub redact_turn : (result : Text) → (offset : ℕ) → (Text → ℕ → Option Text) → Option Text
  redact_turn result offset next =
      if not (ltb offset (length result))
      then some result
      else redact_found result offset (find (map lower home) (map lower (drop offset result))) next

  -- `none` where the fuel has run out.
  unfoldable pub redact_loop : (fuel : ℕ) → (result : Text) → (offset : ℕ) → Option Text
  unfolding find
  redact_loop zero result offset = none
  redact_loop (suc fuel) result offset = redact_turn result offset (redact_loop fuel)

abbrev pub redact_value :
    (lower : ℕ → ℕ) → (fuel : ℕ) → (value : Option Text) → (text : Text) → Option Text
redact_value lower fuel none text = some text
redact_value lower fuel (some home) text =
    if is_empty home then some text else redact_loop lower home fuel text 0

unfoldable pub redact_user_path :
    (lower : ℕ → ℕ)
    → (fuel : ℕ) → (required : ℕ) → (value : Option Text) → (text : Text) → Option Text
unfolding redact_loop
redact_user_path lower fuel required value text =
    if required == 0 || ltb 32768 required then some text else redact_value lower fuel value text
