-- ===== src/Launcher/Modules.antt =====
-- The modules of a debugged process, DebugSession of launcher/injector.cpp.
pub mod Table
use ffb_interceptor_visualiz.Common.{
  ℕ, zero, suc, Bool, true, false, ◌&&◌, ◌||◌, not, List, [], ◌∷◌, ◌++◌, Option, none, some, leb,
  ltb, ◌==◌, if◌then◌else◌, length,
}
use ffb_interceptor_visualiz.Manager.Elevated.{Text}
use ffb_interceptor_visualiz.Launcher.Paths.{file_name}

pub record DebugModule : Type 0 where
  pub name : Text
  pub path : Text
  pub base : ℕ

pub record DebugSession : Type 0 where
  pub modules : List DebugModule
  pub image_base : ℕ

abbrev pub new_module : (base : ℕ) → (path : Text) → DebugModule
new_module base path = record { name = file_name path; path = path; base = base }

abbrev pub has_base : ℕ → List DebugModule → Bool
has_base base [] = false
has_base base (m ∷ ms) = m.base == base || has_base base ms

-- The loop of record_debug_module up to its return: the first module at the base is renewed.
unfoldable pub renew : (base : ℕ) → (path : Text) → List DebugModule → List DebugModule
unfolding file_name
renew base path [] = []
renew base path (m ∷ ms) =
    let rest = renew base path ms in
    if m.base == base then record m { name = file_name path; path = path } ∷ ms else m ∷ rest

abbrev pub max_modules : ℕ
max_modules = 4096

abbrev pub is_nothing : Text → Bool
is_nothing [] = true
is_nothing (c ∷ cs) = false

-- `path` is what path_from_debug_file gives, empty if it fails.
unfoldable pub record_debug_module :
    (base : ℕ) → (path : Text) → List DebugModule → List DebugModule
unfolding renew file_name
record_debug_module base path modules =
    if base == 0 || is_nothing path
    then modules
    else if has_base base modules
    then renew base path modules
    else if leb max_modules (length modules)
    then modules
    else modules ++ new_module base path ∷ []

-- erase with remove_if
unfoldable pub remove_base : ℕ → List DebugModule → List DebugModule
remove_base base [] = []
remove_base base (m ∷ ms) =
    let rest = remove_base base ms in if m.base == base then rest else m ∷ rest

-- What WaitForDebugEvent gives: the debugger's view of dwDebugEventCode and its union.
pub data Happening : Type 0 where
  create_process load_dll : (base : ℕ) → (path : Text) → Happening
  unload_dll : (base : ℕ) → Happening
  raises : (exception_code address : ℕ) → Happening
  exit_thread : (exit_code : ℕ) → Happening
  exit_process other_event : Happening

pub record DebugEvent : Type 0 where
  pub thread_id : ℕ
  pub happening : Happening

unfoldable pub observe : Happening → DebugSession → DebugSession
unfolding record_debug_module remove_base
observe (create_process base path) session = record {
  modules = record_debug_module base path session.modules;
  image_base = base;
}
observe (load_dll base path) session = record session {
  modules = record_debug_module base path session.modules;
}
observe (unload_dll base) session = record session { modules = remove_base base session.modules }
observe other session = session

unfoldable pub observe_debug_event : DebugEvent → DebugSession → DebugSession
unfolding observe
observe_debug_event event session = observe event.happening session

-- Whether a module is the expected one; the path counts only if one is given.
abbrev pub path_fits : (same : Text → Text → Bool) → Option Text → Text → Bool
path_fits same none path = true
path_fits same (some expected) path = same path expected

-- The base that is found, without the error texts.
unfoldable pub find_debug_module :
    (same : Text → Text → Bool)
    → (expected_name : Text) → (expected_path : Option Text) → List DebugModule
    → Option ℕ
find_debug_module same expected_name expected_path [] = none
find_debug_module same expected_name expected_path (m ∷ ms) =
    let rest = find_debug_module same expected_name expected_path ms in
    if not (same m.name expected_name)
    then rest
    else if path_fits same expected_path m.path
    then some m.base
    else rest
