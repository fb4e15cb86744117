-- ===== src/Launcher/Modules/Table.antt =====
-- The table of modules in launcher/injector.cpp, against the history of the debugger's events.
use ffb_interceptor_visualiz.Common.{
  ℕ, suc, ◌≤◌, ◌<◌, ◌≡◌, refl, false, ◌&&◌, not, List, [], ◌∷◌, ◌++◌, Option, none, some, ◌==◌,
  if◌then◌else◌, length, length-append, arith, ◌∙◌, ap,
}
use ffb_interceptor_visualiz.Manager.Elevated.{Text}
use ffb_interceptor_visualiz.Launcher.Modules.{
  DebugModule, DebugSession, new_module, has_base, renew, is_nothing, record_debug_module,
  remove_base, Happening, create_process, load_dll, unload_dll, raises, exit_thread, exit_process,
  other_event, observe, max_modules,
}

-- The first module at a base.
unfoldable pub lookup : ℕ → List DebugModule → Option Text
lookup c [] = none
lookup c (m ∷ ms) = let rest = lookup c ms in if m.base == c then some m.path else rest

-- What the table is to say, by the events, newest first: the path that was last loaded at a base
-- (if it could be resolved), and nothing behind an unload.
abbrev pub loaded : (base : ℕ) → (path : Text) → (c : ℕ) → Option Text → Option Text
loaded base path c earlier =
    if base == c && not (base == 0) && not (is_nothing path) then some path else earlier

abbrev pub told : Happening → (c : ℕ) → Option Text → Option Text
told (create_process base path) c earlier = loaded base path c earlier
told (load_dll base path) c earlier = loaded base path c earlier
told (unload_dll base) c earlier = if base == c then none else earlier
told other c earlier = earlier

unfoldable pub located : ℕ → List Happening → Option Text
located c [] = none
located c (h ∷ earlier) = told h c (located c earlier)

unfoldable pub observe_all : List Happening → DebugSession
unfolding observe
observe_all [] = record { modules = []; image_base = 0 }
observe_all (h ∷ earlier) = observe h (observe_all earlier)

lookup-renew :
    (c base : ℕ) (path : Text) (ms : List DebugModule)
    → lookup c (renew base path ms)
      ≡ (if base == c && has_base base ms then some path else lookup c ms)
unfolding lookup renew
lookup-renew c base path [] = ground arith
lookup-renew c base path (m ∷ ms) = ground (arith, lookup-renew c base path ms)

lookup-append :
    (c base : ℕ) (path : Text) (ms : List DebugModule)
    → has_base base ms ≡ false
    → lookup c (ms ++ new_module base path ∷ []) ≡ (if base == c then some path else lookup c ms)
unfolding lookup
lookup-append c base path [] h = ground arith
lookup-append c base path (m ∷ ms) h = ground (arith, lookup-append c base path ms)

lookup-remove_base :
    (c base : ℕ) (ms : List DebugModule)
    → lookup c (remove_base base ms) ≡ (if base == c then none else lookup c ms)
unfolding lookup remove_base
lookup-remove_base c base [] = ground arith
lookup-remove_base c base (m ∷ ms) = ground (arith, lookup-remove_base c base ms)

length-renew :
    (base : ℕ) (path : Text) (ms : List DebugModule) → length (renew base path ms) ≡ length ms
unfolding renew
length-renew base path [] = refl
length-renew base path (m ∷ ms) = ground (arith, length-renew base path ms)

length-remove_base : (base : ℕ) (ms : List DebugModule) → length (remove_base base ms) ≤ length ms
unfolding remove_base
length-remove_base base [] = ground arith
length-remove_base base (m ∷ ms) = ground (arith, length-remove_base base ms)

length-record_debug_module :
    (base : ℕ) (path : Text) (ms : List DebugModule)
    → length (record_debug_module base path ms) ≤ suc (length ms)
unfolding record_debug_module
length-record_debug_module base path ms =
    ground (arith, length-renew base path ms, length-append ms (new_module base path ∷ []))

length-observe :
    (h : Happening) (session : DebugSession)
    → length (observe h session).modules ≤ suc (length session.modules)
unfolding observe
length-observe (create_process base path) session =
    length-record_debug_module base path session.modules
length-observe (load_dll base path) session = length-record_debug_module base path session.modules
length-observe (unload_dll base) session = omega (arith, length-remove_base base session.modules)
length-observe (raises code address) session = omega arith
length-observe (exit_thread code) session = omega arith
length-observe exit_process session = omega arith
length-observe other_event session = omega arith

length-observe_all : (hs : List Happening) → length (observe_all hs).modules ≤ length hs
unfolding observe_all
length-observe_all [] = omega arith
length-observe_all (h ∷ hs) =
    omega (arith, length-observe_all hs, length-observe h (observe_all hs))

lookup-record_debug_module :
    (c base : ℕ) (path : Text) (ms : List DebugModule)
    → length ms < max_modules
    → lookup c (record_debug_module base path ms) ≡ loaded base path c (lookup c ms)
unfolding record_debug_module
lookup-record_debug_module c base path ms short =
    ground (arith, lookup-renew c base path ms, lookup-append c base path ms)

lookup-observe :
    (c : ℕ) (h : Happening) (session : DebugSession)
    → length session.modules < max_modules
    → lookup c (observe h session).modules ≡ told h c (lookup c session.modules)
unfolding observe
lookup-observe c (create_process base path) session short =
    lookup-record_debug_module c base path session.modules short
lookup-observe c (load_dll base path) session short =
    lookup-record_debug_module c base path session.modules short
lookup-observe c (unload_dll base) session short = lookup-remove_base c base session.modules
lookup-observe c (raises code address) session short = refl
lookup-observe c (exit_thread code) session short = refl
lookup-observe c exit_process session short = refl
lookup-observe c other_event session short = refl

-- After at most 4096 events, the table holds at each base the path that was last loaded there and
-- could be resolved, and none where the base has been unloaded since.
pub lookup-observe_all :
    (c : ℕ) (hs : List Happening)
    → length hs ≤ max_modules
    → lookup c (observe_all hs).modules ≡ located c hs
unfolding observe_all located lookup
lookup-observe_all c [] short = refl
lookup-observe_all c (h ∷ hs) short =
    lookup-observe c h (observe_all hs) (omega (arith, short, length-observe_all hs))
    ∙ ap (told h c) (lookup-observe_all c hs (omega (arith, short)))
