-- ===== src/Manager/Paths/Runs.antt =====
-- normalize_manifest_path at concrete paths.
use ffb_interceptor_visualiz.Common.{◌≡◌, refl, [], ◌∷◌, none, some, if◌then◌else◌, ◌&&◌, all}
use ffb_interceptor_visualiz.Manager.Elevated.{Text, text_eq}
use ffb_interceptor_visualiz.Manager.Paths.{
  normalize_manifest_path, normalize_from, advance, flush_segment, append_segment, is_forbidden,
  is_malformed, ends_in, contains, is_device, numbered_device, device_name, before_dot, trim_spaces,
  to_upper, is_refused,
}
use ffb_interceptor_visualiz.Manager.Paths.Reference.{
  split, join, is_plain, normalize_manifest_path-eq,
}

-- x64/a.dll
abbrev path : Text
path = 120 ∷ 54 ∷ 52 ∷ 47 ∷ 97 ∷ 46 ∷ 100 ∷ 108 ∷ 108 ∷ []

-- a/../b
abbrev climbing : Text
climbing = 97 ∷ 47 ∷ 46 ∷ 46 ∷ 47 ∷ 98 ∷ []

-- a\com1 .txt
abbrev device_path : Text
device_path = 97 ∷ 92 ∷ 99 ∷ 111 ∷ 109 ∷ 49 ∷ 32 ∷ 46 ∷ 116 ∷ 120 ∷ 116 ∷ []

path_normalized :
    normalize_manifest_path path ≡ some (120 ∷ 54 ∷ 52 ∷ 92 ∷ 97 ∷ 46 ∷ 100 ∷ 108 ∷ 108 ∷ [])
unfolding normalize_manifest_path normalize_from advance flush_segment append_segment is_forbidden
    is_malformed ends_in contains is_device numbered_device device_name before_dot trim_spaces
    to_upper is_refused text_eq
path_normalized = refl

climbing_refused : normalize_manifest_path climbing ≡ none
unfolding normalize_manifest_path normalize_from advance flush_segment append_segment is_forbidden
    is_malformed ends_in contains is_device numbered_device device_name before_dot trim_spaces
    to_upper is_refused text_eq
climbing_refused = refl

device_refused : normalize_manifest_path device_path ≡ none
unfolding normalize_manifest_path normalize_from advance flush_segment append_segment is_forbidden
    is_malformed ends_in contains is_device numbered_device device_name before_dot trim_spaces
    to_upper is_refused text_eq
device_refused = refl

normalize_manifest_path-eq_example : normalize_manifest_path path ≡ (
    if is_refused path
    then none
    else if is_plain (split path).0 && all is_plain (split path).1
    then some (join (split path).0 (split path).1)
    else none)
normalize_manifest_path-eq_example = normalize_manifest_path-eq path

abbrev normalized : Text
normalized = 120 ∷ 54 ∷ 52 ∷ 92 ∷ 97 ∷ 46 ∷ 100 ∷ 108 ∷ 108 ∷ []
