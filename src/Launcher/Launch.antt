-- ===== src/Launcher/Launch.antt =====
-- launch_offline_game of launcher/injector.cpp, in the order of its calls. What Windows answers is
-- a record; error texts are left out.
pub mod Checks
pub mod Safety
mod Runs
use ffb_interceptor_visualiz.Common.{
  ℕ, zero, suc, ◌+◌, ◌-◌, ◌*◌, Bool, true, false, ◌&&◌, ◌||◌, not, List, [], ◌∷◌, ◌++◌, Option,
  none, some, ltb, ◌==◌, if◌then◌else◌, length,
}
use ffb_interceptor_visualiz.Manager.Elevated.{Text}
use ffb_interceptor_visualiz.Launcher.Quote.{LaunchRequest, build_command_line}
use ffb_interceptor_visualiz.Launcher.Architecture.{
  PeArchitecture, unknown, x86, x64, PeFile, read_pe_architecture,
}
use ffb_interceptor_visualiz.Launcher.Paths.{
  resolve_existing_file, is_unc_path, has_exe_extension, path_is_within, parent_directory,
  file_name,
}
use ffb_interceptor_visualiz.Launcher.Modules.{DebugSession, find_debug_module}
use ffb_interceptor_visualiz.Launcher.Debug.{
  Game, Machine, Turn, Pause, pause_after_loader_initialization, RemoteTurn, Ran, run_remote_thread,
}

abbrev pub same_architecture : PeArchitecture → PeArchitecture → Bool
same_architecture unknown unknown = true
same_architecture x86 x86 = true
same_architecture x64 x64 = true
same_architecture _ _ = false

-- A function of a module that is loaded in the launcher: the module's base and path, and its address.
pub record LocalFunction : Type 0 where
  pub owner : ℕ
  pub owner_path : Text
  pub address : ℕ

-- The answers of Windows, in the order of the calls.
pub record Host : Type 0 where
  pub elevated : Option Bool
  pub same : Text → Text → Bool
  pub final_path : Text → Option Text
  pub windows_directory : Option Text
  pub own_path : Text
  pub file_at : Text → Option PeFile
  pub launcher_architecture : PeArchitecture
  pub creates : Bool
  pub machine : Machine
  pub main_thread : ℕ
  pub game : Game
  pub turns : List Turn
  pub remote_path : ℕ
  pub writes_path : Bool
  pub load_library : Option LocalFunction
  pub load_thread : Option ℕ
  pub load_turns : List RemoteTurn
  pub local_hook : Option ℕ
  pub initializer : Option ℕ
  pub initialize_thread : Option ℕ
  pub initialize_turns : List RemoteTurn
  pub leaves_running : Bool
  pub resumes : Bool

abbrev pub architecture_of : Host → Text → PeArchitecture
architecture_of host path = read_pe_architecture (host.file_at path)

-- What the launcher asks Windows to do to the game.
pub data Action : Type 0 where
  created : (path command_line working_directory : Text) → Action
  path_written : (address : ℕ) → (path : Text) → Action
  thread_run : (start_address parameter : ℕ) → Action
  kill_on_exit_off resumed terminated : Action

-- kHookFileName
abbrev pub hook_file_name : Text
hook_file_name =
    70 ∷ 70 ∷ 66 ∷ 73 ∷ 110 ∷ 116 ∷ 101 ∷ 114 ∷ 99 ∷ 101 ∷ 112 ∷ 116 ∷ 111 ∷ 114 ∷ 46 ∷ 72 ∷ 111
    ∷ 111 ∷ 107 ∷ 46 ∷ 100 ∷ 108 ∷ 108 ∷ []

abbrev pub is_empty_path : Text → Bool
is_empty_path [] = true
is_empty_path (c ∷ cs) = false

-- What the checks before CreateProcessW find.
pub record Targets : Type 0 where
  pub game_path : Text
  pub hook_path : Text

abbrev pub architecture_checked : Host → Targets → Option Targets
architecture_checked host targets =
    let game = architecture_of host targets.game_path in
    let hook = architecture_of host targets.hook_path in
    if same_architecture game unknown || same_architecture hook unknown
    then none
    else if not (same_architecture game host.launcher_architecture)
        || not (same_architecture hook host.launcher_architecture)
    then none
    else some targets

abbrev pub hook_checked : Host → (game_path : Text) → Option Text → Option Targets
hook_checked host game_path none = none
hook_checked host game_path (some hook_path) =
    if is_unc_path hook_path
    then none
    else architecture_checked host (record { game_path = game_path; hook_path = hook_path })

abbrev pub own_path_checked : Host → (game_path : Text) → Option Targets
own_path_checked host game_path =
    if is_empty_path host.own_path
    then none
    else hook_checked host game_path (
        resolve_existing_file host.final_path
          ((parent_directory host.own_path ++ 92 ∷ []) ++ hook_file_name))

abbrev pub directory_checked : Host → (game_path : Text) → Option Text → Option Targets
directory_checked host game_path none = none
directory_checked host game_path (some windows_directory) =
    if path_is_within host.same game_path windows_directory
    then none
    else own_path_checked host game_path

abbrev pub game_checked : Host → Option Text → Option Targets
game_checked host none = none
game_checked host (some game_path) =
    if is_unc_path game_path
    then none
    else if not (has_exe_extension host.same game_path)
    then none
    else directory_checked host game_path host.windows_directory

abbrev pub elevation_checked : Host → (game_path : Text) → Option Bool → Option Targets
elevation_checked host game_path none = none
elevation_checked host game_path (some elevated) =
    if elevated then none else game_checked host (resolve_existing_file host.final_path game_path)

unfoldable pub check_request : Host → LaunchRequest → Option Targets
unfolding resolve_existing_file is_unc_path has_exe_extension path_is_within parent_directory
check_request host request = elevation_checked host request.game_path host.elevated

-- Whether the launch succeeds, and what was done, the latest first. Where it fails behind
-- CreateProcessW, the destructor of SuspendedChild terminates the game.
pub record Launched : Type 0 where
  pub success : Bool
  pub actions : List Action

abbrev pub cancelled : List Action → Launched
cancelled actions = record { success = false; actions = terminated ∷ actions }

-- DebugSetProcessKillOnExit and ResumeThread
unfoldable pub set_running : Host → List Action → Launched
set_running host actions =
    if not host.leaves_running
    then cancelled actions
    else if not host.resumes
    then cancelled (kill_on_exit_off ∷ actions)
    else record { success = true; actions = resumed ∷ kill_on_exit_off ∷ actions }

abbrev pub initialization_checked : Host → List Action → Ran → Launched
initialization_checked host actions (none, session) = cancelled actions
initialization_checked host actions (some result, session) =
    if not (result == 1) then cancelled actions else set_running host actions

abbrev pub initialized :
    Host → (hook_base : ℕ) → DebugSession → List Action → ℕ → Option ℕ → Launched
initialized host hook_base session actions local_base none = cancelled actions
initialized host hook_base session actions local_base (some initializer) =
    if ltb initializer local_base
    then cancelled actions
    else initialization_checked host
        (thread_run (hook_base + (initializer - local_base)) 0 ∷ actions)
        (run_remote_thread host.initialize_thread host.initialize_turns session)

abbrev pub hook_verified : Host → (hook_base : ℕ) → DebugSession → List Action → Option ℕ → Launched
hook_verified host hook_base session actions none = cancelled actions
hook_verified host hook_base session actions (some local_base) =
    initialized host hook_base session actions local_base host.initializer

-- The module table, behind LoadLibraryW in the game.
abbrev pub hook_found : Host → DebugSession → List Action → Option ℕ → Launched
hook_found host session actions none = cancelled actions
hook_found host session actions (some hook_base) =
    hook_verified host hook_base session actions host.local_hook

abbrev pub hook_loaded : Host → Targets → List Action → Ran → Launched
hook_loaded host targets actions (none, session) = cancelled actions
hook_loaded host targets actions (some code, session) =
    hook_found host session actions
      (find_debug_module host.same hook_file_name (some targets.hook_path) session.modules)

-- remote_function_address
abbrev pub address_behind : LocalFunction → Option ℕ → Option ℕ
address_behind f none = none
address_behind f (some remote_base) = some (remote_base + (f.address - f.owner))

abbrev pub remote_address : Host → DebugSession → Option LocalFunction → Option ℕ
remote_address host session none = none
remote_address host session (some f) =
    if ltb f.address f.owner
    then none
    else address_behind f
        (find_debug_module host.same (file_name f.owner_path) none session.modules)

abbrev pub load_hook : Host → Targets → DebugSession → List Action → Option ℕ → Launched
load_hook host targets session actions none = cancelled actions
load_hook host targets session actions (some load_library) =
    hook_loaded host targets (thread_run load_library host.remote_path ∷ actions)
      (run_remote_thread host.load_thread host.load_turns session)

-- RemoteAllocation and WriteProcessMemory
abbrev pub pass_path : Host → Targets → List Action → Bool × Pause → Launched
pass_path host targets actions (false, p) = cancelled actions
pass_path host targets actions (true, p) =
    if host.remote_path == 0 || not host.writes_path
    then cancelled actions
    else load_hook host targets p.session
        (path_written host.remote_path targets.hook_path ∷ actions)
        (remote_address host p.session host.load_library)

abbrev pub create_game : Host → LaunchRequest → Option Targets → Launched
create_game host request none = record { success = false; actions = [] }
create_game host request (some targets) =
    if not host.creates
    then record { success = false; actions = [] }
    else let command = build_command_line (record request { game_path = targets.game_path }) in
      pass_path host targets
        (created targets.game_path command (parent_directory targets.game_path) ∷ [])
        (pause_after_loader_initialization host.machine host.main_thread host.turns host.game)

unfoldable pub launch_offline_game : Host → LaunchRequest → Launched
unfolding check_request build_command_line pause_after_loader_initialization find_debug_module
    run_remote_thread set_running
launch_offline_game host request = create_game host request (check_request host request)
