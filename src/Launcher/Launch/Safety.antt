-- ===== src/Launcher/Launch/Safety.antt =====
-- Which games launch_offline_game of launcher/injector.cpp lets run.
use ffb_interceptor_visualiz.Common.{
  ℕ, ◌+◌, ◌-◌, ◌≤◌, ◌≡◌, arith, refl, Bool, true, false, ◌||◌, not, List, [], ◌∷◌, Option, none,
  some, ltb, ◌==◌, ==_iff, Bool-cases, inl, inr, all, ap,
}
use ffb_interceptor_visualiz.Launcher.Quote.{LaunchRequest, build_command_line}
use ffb_interceptor_visualiz.Launcher.Paths.{parent_directory, file_name}
use ffb_interceptor_visualiz.Launcher.Modules.{DebugSession, find_debug_module}
use ffb_interceptor_visualiz.Launcher.Debug.{
  Pause, pause_after_loader_initialization, Ran, run_remote_thread,
}
use ffb_interceptor_visualiz.Launcher.Launch.{
  Host, Action, created, path_written, thread_run, kill_on_exit_off, resumed, terminated,
  hook_file_name, LocalFunction, address_behind, remote_address, Targets, check_request, Launched,
  set_running, initialization_checked, initialized, hook_verified, hook_found, hook_loaded,
  load_hook, pass_path, create_game, launch_offline_game,
}
use ffb_interceptor_visualiz.Launcher.Launch.Checks.{IsAllowed, check_request-IsAllowed}

abbrev pub not_resumed : Action → Bool
not_resumed resumed = false
not_resumed other = true

-- Nothing has been created, or the last that was done is to terminate the game, which was never
-- resumed.
abbrev pub IsStopped : List Action → Type 0
IsStopped [] = Unit {0}
IsStopped (a ∷ actions) = (a ≡ terminated) × (all not_resumed actions ≡ true)

-- What the loop up to the entry point returns, and what the thread of LoadLibraryW does behind it.
abbrev pub paused : Host → Bool × Pause
paused host = pause_after_loader_initialization host.machine host.main_thread host.turns host.game

abbrev pub hook_load : Host → Ran
hook_load host = run_remote_thread host.load_thread host.load_turns (paused host).1.session

abbrev pub hook_initialization : Host → Ran
hook_initialization host =
    run_remote_thread host.initialize_thread host.initialize_turns (hook_load host).1

-- Where a function stands that is at the same distance from another base.
abbrev pub IsMoved : (local function : Option ℕ) → (base start : ℕ) → Type 0
IsMoved local function base start =
    (l : ℕ) × (f : ℕ) × (local ≡ some l) × (function ≡ some f) × (l ≤ f) × (start ≡ base + (f - l))

-- LoadLibraryW in the game: in the module there with the name of its owner, as far from its base.
pub record IsLoader (host : Host) (session : DebugSession) (start : ℕ) : Type 0 where
  pub function : LocalFunction
  pub known : host.load_library ≡ some function
  pub base : ℕ
  pub found :
      find_debug_module host.same (file_name function.owner_path) none session.modules ≡ some base
  pub above : function.owner ≤ function.address
  pub address : start ≡ base + (function.address - function.owner)

remote_address-IsLoader :
    (host : Host) (session : DebugSession) (o : Option LocalFunction) (start : ℕ)
    → host.load_library ≡ o
    → remote_address host session o ≡ some start
    → IsLoader host session start
remote_address-IsLoader host session none start known e = cc
remote_address-IsLoader host session (some f) start known e =
    elim (Bool-cases (ltb f.address f.owner)) [
      | inl below ↦ absurd (none_not_some (rw below at e))
      | inr inside ↦
          go (find_debug_module host.same (file_name f.owner_path) none session.modules) refl
            (rw inside at e) (ground arith)
    ]
  where
    none_not_some : none ≡ some start → ⊥
    none_not_some h = cc

    some_injective : (a : ℕ) → some a ≡ some start → start ≡ a
    some_injective a h = cc

    go :
        (o : Option ℕ)
        → find_debug_module host.same (file_name f.owner_path) none session.modules ≡ o
        → address_behind f o ≡ some start
        → f.owner ≤ f.address
        → IsLoader host session start
    go none found h above = absurd (none_not_some h)
    go (some base) found h above = record {
      function = f;
      known = known;
      base = base;
      found = found;
      above = above;
      address = some_injective (base + (f.address - f.owner)) h;
    }

-- How a game comes to run: it is allowed, it has been paused at its entry point, the hook is loaded
-- in it from the path that was checked, its initializer has returned 1, and only then is the game
-- resumed.
pub record IsHooked (host : Host) (request : LaunchRequest) (actions : List Action) : Type 0 where
  pub targets : Targets
  pub allowed : IsAllowed host request targets
  pub stopped : (paused host).0 ≡ true
  pub hook_base : ℕ
  pub loaded :
      find_debug_module host.same hook_file_name (some targets.hook_path) (hook_load host).1.modules
      ≡ some hook_base
  pub initialized : (hook_initialization host).0 ≡ some 1
  pub load_address : ℕ
  pub loader : IsLoader host (paused host).1.session load_address
  pub initializer : ℕ
  pub exported : IsMoved host.local_hook host.initializer hook_base initializer
  pub steps :
      actions
      ≡ resumed
        ∷ kill_on_exit_off
        ∷ thread_run initializer 0
        ∷ thread_run load_address host.remote_path
        ∷ path_written host.remote_path targets.hook_path
        ∷ created targets.game_path
            (build_command_line (record request { game_path = targets.game_path }))
            (parent_directory targets.game_path)
        ∷ []

abbrev pub EndsIn : (P : List Action → Type 0) → Bool → List Action → Type 0
EndsIn P true actions = P actions
EndsIn P false actions = IsStopped actions

abbrev pub Ends : (P : List Action → Type 0) → Launched → Type 0
Ends P l = EndsIn P l.success l.actions

module _ (P : List Action → Type 0) (host : Host) where
  set_running-Ends :
      (actions : List Action)
      → all not_resumed actions ≡ true
      → P (resumed ∷ kill_on_exit_off ∷ actions)
      → Ends P (set_running host actions)
  unfolding set_running
  set_running-Ends actions h k = elim (Bool-cases host.leaves_running) [
    | inr l ↦ rw l (refl, h)
    | inl l ↦ elim (Bool-cases host.resumes) [ inr r ↦ rw (l, r) (refl, h) | inl r ↦ rw (l, r) k ]
  ]

  initialization_checked-Ends :
      (actions : List Action) (ran : Ran)
      → all not_resumed actions ≡ true
      → (ran.0 ≡ some 1 → P (resumed ∷ kill_on_exit_off ∷ actions))
      → Ends P (initialization_checked host actions ran)
  initialization_checked-Ends actions (none, session) h k = (refl, h)
  initialization_checked-Ends actions (some result, session) h k = elim (Bool-cases (result == 1)) [
    | inl one ↦ rw one (set_running-Ends actions h (k (ap some ((==_iff result 1).0 one))))
    | inr other ↦ rw other (refl, h)
  ]

  initialized-Ends :
      (hook_base : ℕ) (session : DebugSession) (actions : List Action) (local_base : ℕ)
      (o : Option ℕ)
      → all not_resumed actions ≡ true
      → ((start : ℕ)
          → IsMoved (some local_base) o hook_base start
          → (run_remote_thread host.initialize_thread host.initialize_turns session).0 ≡ some 1
          → P (resumed ∷ kill_on_exit_off ∷ thread_run start 0 ∷ actions))
      → Ends P (initialized host hook_base session actions local_base o)
  initialized-Ends hook_base session actions local_base none h k = (refl, h)
  initialized-Ends hook_base session actions local_base (some i) h k =
      elim (Bool-cases (ltb i local_base)) [
        | inl below ↦ rw below (refl, h)
        | inr inside ↦ rw inside (
            initialization_checked-Ends (thread_run (hook_base + (i - local_base)) 0 ∷ actions) _ h
              (k (hook_base + (i - local_base)) (local_base, i, refl, refl, ground arith, refl)))
      ]

  hook_verified-Ends :
      (hook_base : ℕ) (session : DebugSession) (actions : List Action) (o : Option ℕ)
      → all not_resumed actions ≡ true
      → ((start : ℕ)
          → IsMoved o host.initializer hook_base start
          → (run_remote_thread host.initialize_thread host.initialize_turns session).0 ≡ some 1
          → P (resumed ∷ kill_on_exit_off ∷ thread_run start 0 ∷ actions))
      → Ends P (hook_verified host hook_base session actions o)
  hook_verified-Ends hook_base session actions none h k = (refl, h)
  hook_verified-Ends hook_base session actions (some local_base) h k =
      initialized-Ends hook_base session actions local_base host.initializer h k

  hook_found-Ends :
      (session : DebugSession) (actions : List Action) (o : Option ℕ)
      → all not_resumed actions ≡ true
      → ((base start : ℕ)
          → o ≡ some base
          → IsMoved host.local_hook host.initializer base start
          → (run_remote_thread host.initialize_thread host.initialize_turns session).0 ≡ some 1
          → P (resumed ∷ kill_on_exit_off ∷ thread_run start 0 ∷ actions))
      → Ends P (hook_found host session actions o)
  hook_found-Ends session actions none h k = (refl, h)
  hook_found-Ends session actions (some base) h k =
      hook_verified-Ends base session actions host.local_hook h
        λ start moved e. k base start refl moved e

  hook_loaded-Ends :
      (targets : Targets) (actions : List Action) (ran : Ran)
      → all not_resumed actions ≡ true
      → ((base start : ℕ)
          → find_debug_module host.same hook_file_name (some targets.hook_path) ran.1.modules
            ≡ some base
          → IsMoved host.local_hook host.initializer base start
          → (run_remote_thread host.initialize_thread host.initialize_turns ran.1).0 ≡ some 1
          → P (resumed ∷ kill_on_exit_off ∷ thread_run start 0 ∷ actions))
      → Ends P (hook_loaded host targets actions ran)
  hook_loaded-Ends targets actions (none, session) h k = (refl, h)
  hook_loaded-Ends targets actions (some code, session) h k = hook_found-Ends session actions _ h k

  load_hook-Ends :
      (targets : Targets) (session : DebugSession) (actions : List Action) (o : Option ℕ)
      → all not_resumed actions ≡ true
      → let ran = run_remote_thread host.load_thread host.load_turns session in
        ((load base start : ℕ)
          → o ≡ some load
          → find_debug_module host.same hook_file_name (some targets.hook_path) ran.1.modules
            ≡ some base
          → IsMoved host.local_hook host.initializer base start
          → (run_remote_thread host.initialize_thread host.initialize_turns ran.1).0 ≡ some 1
          → P (
              resumed
              ∷ kill_on_exit_off
              ∷ thread_run start 0
              ∷ thread_run load host.remote_path
              ∷ actions))
        → Ends P (load_hook host targets session actions o)
  load_hook-Ends targets session actions none h k = (refl, h)
  load_hook-Ends targets session actions (some load) h k =
      hook_loaded-Ends targets (thread_run load host.remote_path ∷ actions)
        (run_remote_thread host.load_thread host.load_turns session) h
        (λ base start. k load base start refl)

  pass_path-Ends :
      (targets : Targets) (actions : List Action) (r : Bool × Pause)
      → all not_resumed actions ≡ true
      → let ran = run_remote_thread host.load_thread host.load_turns r.1.session in
        (r.0 ≡ true
          → (load base start : ℕ) → IsLoader host r.1.session load
          → find_debug_module host.same hook_file_name (some targets.hook_path) ran.1.modules
            ≡ some base
          → IsMoved host.local_hook host.initializer base start
          → (run_remote_thread host.initialize_thread host.initialize_turns ran.1).0 ≡ some 1
          → P (
              resumed
              ∷ kill_on_exit_off
              ∷ thread_run start 0
              ∷ thread_run load host.remote_path
              ∷ path_written host.remote_path targets.hook_path
              ∷ actions))
        → Ends P (pass_path host targets actions r)
  pass_path-Ends targets actions (false, p) h k = (refl, h)
  pass_path-Ends targets actions (true, p) h k =
      elim (Bool-cases (host.remote_path == 0 || not host.writes_path)) [
        | inl failed ↦ rw failed (refl, h)
        | inr written ↦ rw written (
            load_hook-Ends targets p.session
              (path_written host.remote_path targets.hook_path ∷ actions) _ h
              (λ load base start e.
                k refl load base start
                  (remote_address-IsLoader host p.session host.load_library load refl e)))
      ]

create_game-Ends :
    (host : Host) (request : LaunchRequest) (o : Option Targets)
    → ((targets : Targets) → o ≡ some targets → IsAllowed host request targets)
    → Ends (IsHooked host request) (create_game host request o)
create_game-Ends host request none h = tt
create_game-Ends host request (some targets) h = elim (Bool-cases host.creates) [
  | inr c ↦ simp c tt
  | inl c ↦ simp c (
      pass_path-Ends (IsHooked host request) host targets _ (paused host) refl
        λ stopped load base start loader found moved one. record {
          targets = targets;
          allowed = h targets refl;
          stopped = stopped;
          hook_base = base;
          loaded = found;
          initialized = one;
          load_address = load;
          loader = loader;
          initializer = start;
          exported = moved;
          steps = refl;
        })
]

-- Whatever Windows answers: where launch_offline_game returns true, the game was allowed, was
-- paused at its entry point, has the hook loaded from the path that was checked, and is resumed
-- only after the hook's initializer has returned 1. Where it returns false, no game has been
-- created, or it has been terminated and was never resumed.
pub launch_offline_game-Ends :
    (host : Host) (request : LaunchRequest)
    → Ends (IsHooked host request) (launch_offline_game host request)
unfolding launch_offline_game
launch_offline_game-Ends host request =
    create_game-Ends host request (check_request host request)
      (check_request-IsAllowed host request)
