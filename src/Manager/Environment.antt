-- ===== src/Manager/Environment.antt =====
-- The environment of the helper's PowerShell: parent_path, locate_system_windows_powershell and
-- build_sanitized_powershell_environment of launcher/manager_model.cpp, without their error texts.
pub mod Block
mod Runs
use ffb_interceptor_visualiz.Common.{
  ℕ, zero, suc, ◌+◌, Bool, true, false, ◌&&◌, ◌||◌, not, List, [], ◌∷◌, ◌++◌, map, Option, none,
  some, ltb, ◌==◌, if◌then◌else◌, length, take, drop, get_or,
}
use ffb_interceptor_visualiz.Manager.Elevated.{Text, path_is_absolute_local}
use ffb_interceptor_visualiz.Manager.Paths.{is_empty, contains}
use ffb_interceptor_visualiz.Manager.Integrity.{join_path}
use ffb_interceptor_visualiz.Launcher.Paths.{is_slash, before_last, trim_slashes}

abbrev pub parent_at : (path : Text) → (slash : Option Text) → Text
parent_at path none = []
parent_at path (some front) =
    if length front == 2 && not (ltb (length path) 3) && get_or path 1 0 == 58
    then take 3 path
    else front

-- The slashes at the end go while there are more than three characters.
unfoldable pub parent_path : Text → Text
unfolding before_last trim_slashes
parent_path path =
    let trimmed = take 3 path ++ trim_slashes (drop 3 path) in
    parent_at trimmed (before_last is_slash trimmed)

abbrev pub Variables : Type 0
Variables = List (Text × Text)

-- operator[] of the map, which is ordered by `less`
unfoldable pub set_value : (less : Text → Text → Bool) → (name value : Text) → Variables → Variables
set_value less name value [] = (name, value) ∷ []
set_value less name value ((n, v) ∷ values) =
    let rest = set_value less name value values in
    if less name n
    then (name, value) ∷ (n, v) ∷ values
    else if less n name
    then (n, v) ∷ rest
    else (n, value) ∷ values

-- `none` where it returns false.
unfoldable pub add_environment_value :
    (less : Text → Text → Bool) → (name value : Text) → Variables → Option Variables
unfolding set_value contains
add_environment_value less name value values =
    if is_empty name || is_empty value || contains 61 name || contains 0 name || contains 0 value
    then none
    else some (set_value less name value values)

abbrev pub continue_on : Option Variables → (Variables → Option Variables) → Option Variables
continue_on none next = none
continue_on (some values) next = next values

-- Calls that are joined by ||.
unfoldable pub add_all :
    (less : Text → Text → Bool) → List (Text × Text) → Variables → Option Variables
unfolding add_environment_value
add_all less [] values = some values
add_all less ((name, value) ∷ more) values =
    continue_on (add_environment_value less name value values) (add_all less more)

abbrev pub or_unchanged : Variables → Option Variables → Variables
or_unchanged values none = values
or_unchanged values (some changed) = changed

-- A value that may be missing, and a call whose result is not looked at.
unfoldable pub add_optional :
    (less : Text → Text → Bool) → (name : Text) → Option Text → Variables → Variables
unfolding add_environment_value
add_optional less name none values = values
add_optional less name (some value) values =
    or_unchanged values (add_environment_value less name value values)

pub data Folder : Type 0 where
  profile_folder local_app_data_folder program_data_folder program_files_folder
        roaming_app_data_folder program_files_x86_folder program_files_x64_folder :
      Folder

-- What Windows answers. `open_directory` and `open_regular_file` give the final path, the first one
-- only for a directory that is no reparse point.
pub record Windows : Type 0 where
  pub less : Text → Text → Bool
  pub same : Text → Text → Bool
  pub drive_type : Text → ℕ
  pub system_directory : Option Text
  pub windows_directory : Option Text
  pub open_directory : Text → Option Text
  pub open_regular_file : Text → Option Text
  pub known_folder : Folder → Option Text

abbrev pub with_text {ℓ} : {A : Type ℓ} → Option Text → (Text → Option A) → Option A
with_text none next = none
with_text (some text) next = next text

module _ (w : Windows) where
  -- WindowsPowerShell\v1.0\powershell.exe
  abbrev pub relative : Text
  relative =
      (87 ∷ 105 ∷ 110 ∷ 100 ∷ 111 ∷ 119 ∷ 115 ∷ 80 ∷ 111 ∷ 119 ∷ 101 ∷ 114 ∷ 83 ∷ 104 ∷ 101 ∷ 108
        ∷ 108 ∷ 92 ∷ 118 ∷ 49 ∷ 46 ∷ 48 ∷ 92 ∷ 112 ∷ 111 ∷ 119 ∷ 101 ∷ 114 ∷ 115 ∷ 104 ∷ 101 ∷ 108
        ∷ 108 ∷ 46 ∷ 101 ∷ 120 ∷ 101 ∷ [])

  unfoldable pub locate_system_windows_powershell : Option Text
  unfolding path_is_absolute_local join_path
  locate_system_windows_powershell = with_text w.system_directory λ directory.
      if not (path_is_absolute_local w.drive_type directory)
      then none
      else with_text (w.open_directory directory) λ final_directory.
        with_text (w.open_regular_file (join_path directory relative)) λ executable.
          if not (w.same executable (join_path final_directory relative))
          then none
          else some executable

  abbrev pub absolute : Text → Option Text
  absolute path =
      if not (is_empty path) && path_is_absolute_local w.drive_type path then some path else none

  abbrev pub get_known_folder_path : Folder → Option Text
  get_known_folder_path folder = with_text (w.known_folder folder) absolute

  abbrev pub get_windows_directory_path : Option Text
  get_windows_directory_path =
      with_text w.windows_directory
        λ path. if path_is_absolute_local w.drive_type path then some path else none

  -- The variables that must be there, in the order of the calls.
  abbrev pub fixed_values :
      (home system windows profile local_app_data program_data program_files : Text)
      → List (Text × Text)
  fixed_values home system windows profile local_app_data program_data program_files =
      ((83 ∷ 121 ∷ 115 ∷ 116 ∷ 101 ∷ 109 ∷ 82 ∷ 111 ∷ 111 ∷ 116 ∷ []), windows)
      ∷ ((87 ∷ 73 ∷ 78 ∷ 68 ∷ 73 ∷ 82 ∷ []), windows)
      ∷ ((80 ∷ 97 ∷ 116 ∷ 104 ∷ []), (system ++ 59 ∷ windows))
      ∷ (
        (80 ∷ 83 ∷ 77 ∷ 111 ∷ 100 ∷ 117 ∷ 108 ∷ 101 ∷ 80 ∷ 97 ∷ 116 ∷ 104 ∷ []),
        (join_path home (77 ∷ 111 ∷ 100 ∷ 117 ∷ 108 ∷ 101 ∷ 115 ∷ [])),
      )
      ∷ ((85 ∷ 83 ∷ 69 ∷ 82 ∷ 80 ∷ 82 ∷ 79 ∷ 70 ∷ 73 ∷ 76 ∷ 69 ∷ []), profile)
      ∷ ((76 ∷ 79 ∷ 67 ∷ 65 ∷ 76 ∷ 65 ∷ 80 ∷ 80 ∷ 68 ∷ 65 ∷ 84 ∷ 65 ∷ []), local_app_data)
      ∷ ((80 ∷ 114 ∷ 111 ∷ 103 ∷ 114 ∷ 97 ∷ 109 ∷ 68 ∷ 97 ∷ 116 ∷ 97 ∷ []), program_data)
      ∷ ((80 ∷ 114 ∷ 111 ∷ 103 ∷ 114 ∷ 97 ∷ 109 ∷ 70 ∷ 105 ∷ 108 ∷ 101 ∷ 115 ∷ []), program_files)
      ∷ ((84 ∷ 69 ∷ 77 ∷ 80 ∷ []), (join_path local_app_data (84 ∷ 101 ∷ 109 ∷ 112 ∷ [])))
      ∷ ((84 ∷ 77 ∷ 80 ∷ []), (join_path local_app_data (84 ∷ 101 ∷ 109 ∷ 112 ∷ [])))
      ∷ []

  abbrev pub add_optionals : Variables → Variables
  add_optionals values =
      add_optional w.less (80 ∷ 114 ∷ 111 ∷ 103 ∷ 114 ∷ 97 ∷ 109 ∷ 87 ∷ 54 ∷ 52 ∷ 51 ∷ 50 ∷ [])
        (get_known_folder_path program_files_x64_folder)
        (add_optional w.less
          (80 ∷ 114 ∷ 111 ∷ 103 ∷ 114 ∷ 97 ∷ 109 ∷ 70 ∷ 105 ∷ 108 ∷ 101 ∷ 115 ∷ 40 ∷ 120 ∷ 56 ∷ 54
            ∷ 41 ∷ [])
          (get_known_folder_path program_files_x86_folder)
          (add_optional w.less (65 ∷ 80 ∷ 80 ∷ 68 ∷ 65 ∷ 84 ∷ 65 ∷ [])
            (get_known_folder_path roaming_app_data_folder) values))

  -- The variables behind the checks of the paths.
  abbrev pub folder_values : (home system windows : Text) → Option Variables
  folder_values home system windows = with_text (get_known_folder_path profile_folder) λ profile.
      with_text (get_known_folder_path local_app_data_folder) λ local_app_data.
        with_text (get_known_folder_path program_data_folder) λ program_data.
          with_text (get_known_folder_path program_files_folder) λ program_files.
            continue_on
              (add_all w.less
                (fixed_values home system windows profile local_app_data program_data program_files)
                [])
              λ values. some (add_optionals values)

  abbrev pub home_values : (home system : Text) → Option Variables
  home_values home system =
      if is_empty home || is_empty system
      then none
      else with_text get_windows_directory_path λ windows.
        if not (w.same (parent_path system) windows)
        then none
        else folder_values home system windows

  unfoldable pub sanitized_values : (power_shell : Text) → Option Variables
  unfolding locate_system_windows_powershell parent_path add_all add_optional
  sanitized_values power_shell = with_text locate_system_windows_powershell λ verified.
      if not (w.same power_shell verified)
      then none
      else home_values (parent_path verified) (parent_path (parent_path (parent_path verified)))

-- The characters of the variables, each with its `=` and its NUL.
unfoldable pub write_values : Variables → Text
write_values [] = []
write_values ((name, value) ∷ values) = name ++ (61 ∷ (value ++ (0 ∷ write_values values)))

unfoldable pub required_size : Variables → ℕ
required_size [] = 1
required_size ((name, value) ∷ values) = required_size values + (length name + 1 + length value + 1)

abbrev pub write_block : Option Variables → Option Text
write_block none = none
write_block (some values) =
    if ltb 32767 (required_size values) then none else some (write_values values ++ 0 ∷ [])

unfoldable pub build_sanitized_powershell_environment : Windows → (power_shell : Text) → Option Text
unfolding sanitized_values write_values required_size
build_sanitized_powershell_environment w power_shell = write_block (sanitized_values w power_shell)
