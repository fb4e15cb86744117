-- ===== src/Manager/Environment/Runs.antt =====
-- An environment for the PowerShell of C:\W\S.
use ffb_interceptor_visualiz.Common.{
  ◌≤◌, ◌≡◌, refl, Bool, true, false, ◌&&◌, [], ◌∷◌, ◌++◌, Option, none, some, ltb, ◌==◌,
  if◌then◌else◌, length,
}
use ffb_interceptor_visualiz.Launcher.Paths.{before_last, trim_slashes}
use ffb_interceptor_visualiz.Manager.Elevated.{Text, text_eq, path_is_absolute_local}
use ffb_interceptor_visualiz.Manager.Paths.{contains, ends_in}
use ffb_interceptor_visualiz.Manager.Integrity.{join_path}
use ffb_interceptor_visualiz.Manager.Environment.{
  Windows, Variables, set_value, add_environment_value, add_all, add_optional,
  locate_system_windows_powershell, parent_path, write_values, required_size, sanitized_values,
  build_sanitized_powershell_environment,
}
use ffb_interceptor_visualiz.Manager.Environment.Block.{
  read_block, build_sanitized_powershell_environment-reads,
}

unfoldable text_less : Text → Text → Bool
text_less [] [] = false
text_less [] (y ∷ ys) = true
text_less (x ∷ xs) [] = false
text_less (x ∷ xs) (y ∷ ys) =
    let rest = text_less xs ys in if ltb x y then true else (x == y && rest)

-- C:\W
abbrev windows_path : Text
windows_path = (67 ∷ 58 ∷ 92 ∷ 87 ∷ [])

abbrev system_path : Text
system_path = windows_path ++ (92 ∷ 83 ∷ [])

abbrev windows : Windows
windows = record {
  less = text_less;
  same = text_eq;
  drive_type = λ root. 3;
  system_directory = some system_path;
  windows_directory = some windows_path;
  open_directory = λ path. some path;
  open_regular_file = λ path. some path;
  known_folder = λ folder. some windows_path;
}

abbrev power_shell : Text
power_shell =
    system_path
    ++ (92 ∷ 87 ∷ 105 ∷ 110 ∷ 100 ∷ 111 ∷ 119 ∷ 115 ∷ 80 ∷ 111 ∷ 119 ∷ 101 ∷ 114 ∷ 83 ∷ 104 ∷ 101
        ∷ 108 ∷ 108 ∷ 92 ∷ 118 ∷ 49 ∷ 46 ∷ 48 ∷ 92 ∷ 112 ∷ 111 ∷ 119 ∷ 101 ∷ 114 ∷ 115 ∷ 104 ∷ 101
        ∷ 108 ∷ 108 ∷ 46 ∷ 101 ∷ 120 ∷ 101 ∷ [])

abbrev block_of : Option Text → Text
block_of none = []
block_of (some block) = block

abbrev block : Text
block = block_of (build_sanitized_powershell_environment windows power_shell)

block_built : build_sanitized_powershell_environment windows power_shell ≡ some block
unfolding build_sanitized_powershell_environment sanitized_values locate_system_windows_powershell
    parent_path before_last trim_slashes join_path ends_in path_is_absolute_local add_all
    add_environment_value set_value add_optional contains write_values required_size text_eq
    text_less
block_built = refl

build_sanitized_powershell_environment-reads_example :
    (values : Variables) × (sanitized_values windows power_shell ≡ some values)
    × (read_block block [] none ≡ some values)
    × (length block ≤ 32767)
build_sanitized_powershell_environment-reads_example =
    build_sanitized_powershell_environment-reads windows power_shell block block_built
