-- ===== src/Launcher/Launch/Checks.antt =====
-- What the checks of launch_offline_game in launcher/injector.cpp promise.
use ffb_interceptor_visualiz.Common.{
  ◌≡◌, refl, subst, Bool, true, false, [], ◌∷◌, ◌++◌, Option, none, some, arith, Bool-cases, inl,
  inr,
}
use ffb_interceptor_visualiz.Manager.Elevated.{Text}
use ffb_interceptor_visualiz.Launcher.Quote.{LaunchRequest}
use ffb_interceptor_visualiz.Launcher.Architecture.{PeArchitecture, unknown, x86, x64}
use ffb_interceptor_visualiz.Launcher.Paths.{
  resolve_existing_file, is_unc_path, has_exe_extension, path_is_within, parent_directory,
}
use ffb_interceptor_visualiz.Launcher.Launch.{
  architecture_of, same_architecture, Host, hook_file_name, is_empty_path, Targets,
  architecture_checked, hook_checked, own_path_checked, directory_checked, game_checked,
  elevation_checked, check_request,
}

-- The file beside the launcher that is to be the hook.
abbrev pub hook_candidate : Host → Text
hook_candidate host = (parent_directory host.own_path ++ 92 ∷ []) ++ hook_file_name

-- What the checks promise of the game and the hook.
pub record IsAllowed (host : Host) (request : LaunchRequest) (targets : Targets) : Type 0 where
  pub not_elevated : host.elevated ≡ some false
  pub game : resolve_existing_file host.final_path request.game_path ≡ some targets.game_path
  pub game_local : is_unc_path targets.game_path ≡ false
  pub game_exe : has_exe_extension host.same targets.game_path ≡ true
  pub outside_windows :
      (windows : Text) × (host.windows_directory ≡ some windows)
      × (path_is_within host.same targets.game_path windows ≡ false)
  pub hook : resolve_existing_file host.final_path (hook_candidate host) ≡ some targets.hook_path
  pub hook_local : is_unc_path targets.hook_path ≡ false
  pub game_architecture : architecture_of host targets.game_path ≡ host.launcher_architecture
  pub hook_architecture : architecture_of host targets.hook_path ≡ host.launcher_architecture

same_architecture_lem : (a b : PeArchitecture) → same_architecture a b ≡ true → a ≡ b
same_architecture_lem unknown unknown h = refl
same_architecture_lem x86 x86 h = refl
same_architecture_lem x64 x64 h = refl
same_architecture_lem unknown x86 h = cc
same_architecture_lem unknown x64 h = cc
same_architecture_lem x86 unknown h = cc
same_architecture_lem x86 x64 h = cc
same_architecture_lem x64 unknown h = cc
same_architecture_lem x64 x86 h = cc

architecture_checked_lem :
    (host : Host) (targets found : Targets)
    → architecture_checked host targets ≡ some found
    → (targets ≡ found)
      × (architecture_of host targets.game_path ≡ host.launcher_architecture)
      × (architecture_of host targets.hook_path ≡ host.launcher_architecture)
architecture_checked_lem host targets found h = ground (
  arith,
  same_architecture_lem (architecture_of host targets.game_path) host.launcher_architecture,
  same_architecture_lem (architecture_of host targets.hook_path) host.launcher_architecture,
)

-- What the checks of the hook promise.
record HookAllowed (host : Host) (game_path : Text) (o : Option Text) (targets : Targets)
    : Type 0 where
  game : targets.game_path ≡ game_path
  hook : o ≡ some targets.hook_path
  hook_local : is_unc_path targets.hook_path ≡ false
  game_architecture : architecture_of host targets.game_path ≡ host.launcher_architecture
  hook_architecture : architecture_of host targets.hook_path ≡ host.launcher_architecture

none_not_some : (t : Targets) → none ≡ some t → ⊥
none_not_some t e = cc

hook_checked-HookAllowed :
    (host : Host) (game_path : Text) (o : Option Text) (targets : Targets)
    → hook_checked host game_path o ≡ some targets
    → HookAllowed host game_path o targets
hook_checked-HookAllowed host game_path none targets h = absurd (none_not_some targets h)
hook_checked-HookAllowed host game_path (some hook_path) targets h =
    elim (Bool-cases (is_unc_path hook_path)) [
      | inl unc ↦ absurd (none_not_some targets (rw unc at h))
      | inr near ↦
          let (same, game, hook) =
            architecture_checked_lem host (record { game_path = game_path; hook_path = hook_path })
              targets (rw near at h) in
          subst (HookAllowed host game_path (some hook_path)) same (record {
            game = refl;
            hook = refl;
            hook_local = near;
            game_architecture = game;
            hook_architecture = hook;
          })
    ]

own_path_checked-HookAllowed :
    (host : Host) (game_path : Text) (targets : Targets)
    → own_path_checked host game_path ≡ some targets
    → HookAllowed host game_path
        (resolve_existing_file host.final_path (hook_candidate host))
        targets
own_path_checked-HookAllowed host game_path targets h =
    elim (Bool-cases (is_empty_path host.own_path)) [
      | inl empty ↦ absurd (none_not_some targets (rw empty at h))
      | inr given ↦ hook_checked-HookAllowed host game_path _ targets (rw given at h)
    ]

directory_checked-outside :
    (host : Host) (game_path : Text) (o : Option Text) (targets : Targets)
    → directory_checked host game_path o ≡ some targets
    → ((windows : Text) × (o ≡ some windows) × (path_is_within host.same game_path windows ≡ false))
      × (own_path_checked host game_path ≡ some targets)
directory_checked-outside host game_path none targets h = absurd (none_not_some targets h)
directory_checked-outside host game_path (some windows) targets h =
    elim (Bool-cases (path_is_within host.same game_path windows)) [
      | inl within ↦ absurd (none_not_some targets (rw within at h))
      | inr outside ↦ ((windows, refl, outside), rw outside at h)
    ]

game_checked_lem :
    (host : Host) (o : Option Text) (targets : Targets)
    → game_checked host o ≡ some targets
    → (game_path : Text) × (o ≡ some game_path)
      × (is_unc_path game_path ≡ false)
      × (has_exe_extension host.same game_path ≡ true)
      × (directory_checked host game_path host.windows_directory ≡ some targets)
game_checked_lem host none targets h = absurd (none_not_some targets h)
game_checked_lem host (some game_path) targets h = elim (Bool-cases (is_unc_path game_path)) [
  | inl unc ↦ absurd (none_not_some targets (rw unc at h))
  | inr near ↦ elim (Bool-cases (has_exe_extension host.same game_path)) [
    | inl exe ↦ (game_path, refl, near, exe, rw (near, exe) at h)
    | inr other ↦ absurd (none_not_some targets (rw (near, other) at h))
  ]
]

elevation_checked_lem :
    (host : Host) (game_path : Text) (o : Option Bool) (targets : Targets)
    → elevation_checked host game_path o ≡ some targets
    → (o ≡ some false)
      × (game_checked host (resolve_existing_file host.final_path game_path) ≡ some targets)
elevation_checked_lem host game_path none targets h = absurd (none_not_some targets h)
elevation_checked_lem host game_path (some true) targets h = absurd (none_not_some targets h)
elevation_checked_lem host game_path (some false) targets h = (refl, h)

pub check_request-IsAllowed :
    (host : Host) (request : LaunchRequest) (targets : Targets)
    → check_request host request ≡ some targets
    → IsAllowed host request targets
unfolding check_request
check_request-IsAllowed host request targets h =
    let (elevated, checked) =
      elevation_checked_lem host request.game_path host.elevated targets h in
    let (game_path, found, near, exe, directory) =
      game_checked_lem host (resolve_existing_file host.final_path request.game_path) targets
        checked in
    let (outside, own) =
      directory_checked-outside host game_path host.windows_directory targets directory in
    let hook = own_path_checked-HookAllowed host game_path targets own in
    record {
      not_elevated = elevated;
      game = rw (hook.game) found;
      game_local = rw (hook.game) near;
      game_exe = rw (hook.game) exe;
      outside_windows = rw (hook.game) outside;
      hook = hook.hook;
      hook_local = hook.hook_local;
      game_architecture = hook.game_architecture;
      hook_architecture = hook.hook_architecture;
    }
