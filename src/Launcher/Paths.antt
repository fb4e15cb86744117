-- ===== src/Launcher/Paths.antt =====
-- The tests on paths in launcher/injector.cpp. `same` is _wcsicmp, and `final_path` opens a regular
-- file and gives GetFinalPathNameByHandleW.
use ffb_interceptor_visualiz.Common.{
  ℕ, Bool, true, false, ◌&&◌, ◌||◌, not, [], ◌∷◌, Option, none, some, leb, ltb, ◌==◌, if◌then◌else◌,
  length, take, drop, get_or,
}
use ffb_interceptor_visualiz.Manager.Elevated.{Text, text_eq}

abbrev pub is_slash : ℕ → Bool
is_slash c = c == 92 || c == 47

abbrev pub or_else : Option Text → Text → Text
or_else none text = text
or_else (some found) text = found

-- The text behind the last character that passes the test, or before it.
unfoldable pub behind_last : (ℕ → Bool) → Text → Option Text
behind_last test [] = none
behind_last test (c ∷ cs) =
    let rest = behind_last test cs in
    elim rest [ none ↦ if test c then some cs else none | some found ↦ some found ]

unfoldable pub before_last : (ℕ → Bool) → Text → Option Text
before_last test [] = none
before_last test (c ∷ cs) =
    let rest = before_last test cs in
    elim rest [ none ↦ if test c then some [] else none | some found ↦ some (c ∷ found) ]

unfoldable pub file_name : Text → Text
unfolding behind_last
file_name path = or_else (behind_last is_slash path) path

unfoldable pub parent_directory : Text → Text
unfolding before_last
parent_directory path = or_else (before_last is_slash path) []

abbrev pub starts_with : (prefix text : Text) → Bool
starts_with prefix text = text_eq (take (length prefix) text) prefix

-- `\\?\UNC\` and `\\?\`
unfoldable pub strip_extended_prefix : Text → Text
unfolding text_eq
strip_extended_prefix path =
    if starts_with (92 ∷ 92 ∷ 63 ∷ 92 ∷ 85 ∷ 78 ∷ 67 ∷ 92 ∷ []) path
    then 92 ∷ 92 ∷ drop 8 path
    else if starts_with (92 ∷ 92 ∷ 63 ∷ 92 ∷ []) path
    then drop 4 path
    else path

-- MAX_PATH
abbrev pub max_path : ℕ
max_path = 260

abbrev pub resolved : Option Text → Option Text
resolved none = none
resolved (some path) =
    let stripped = strip_extended_prefix path in
    if not (ltb (length stripped) max_path) then none else some stripped

unfoldable pub resolve_existing_file : (final_path : Text → Option Text) → Text → Option Text
unfolding strip_extended_prefix
resolve_existing_file final_path input = resolved (final_path input)

unfoldable pub is_unc_path : Text → Bool
is_unc_path (a ∷ b ∷ cs) = a == 92 && b == 92
is_unc_path other = false

abbrev pub has_slash : Option Text → Bool
has_slash none = false
has_slash (some found) = true

-- A dot before the last slash is one with a slash behind it.
abbrev pub is_exe : (same : Text → Text → Bool) → Option Text → Bool
is_exe same none = false
is_exe same (some extension) =
    if has_slash (behind_last is_slash extension)
    then false
    else same (46 ∷ extension) (46 ∷ 101 ∷ 120 ∷ 101 ∷ [])

unfoldable pub has_exe_extension : (same : Text → Text → Bool) → Text → Bool
unfolding behind_last
has_exe_extension same path = is_exe same (behind_last (λ c. c == 46) path)

-- pop_back() while back() is a slash
unfoldable pub trim_slashes : Text → Text
trim_slashes [] = []
trim_slashes (c ∷ cs) =
    let rest = trim_slashes cs in
    elim rest [ [] ↦ if is_slash c then [] else c ∷ [] | d ∷ ds ↦ c ∷ d ∷ ds ]

unfoldable pub path_is_within : (same : Text → Text → Bool) → (path directory : Text) → Bool
unfolding trim_slashes
path_is_within same path directory =
    let prefix = trim_slashes directory in
    if leb (length path) (length prefix) || not (same (take (length prefix) path) prefix)
    then false
    else is_slash (get_or path (length prefix) 0)
