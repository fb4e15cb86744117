-- ===== src/Launcher/Debug/Reach.antt =====
-- When pause_after_loader_initialization of launcher/injector.cpp reaches the entry point.
use ffb_interceptor_visualiz.Common.{
  ℕ, ◌≡◌, refl, ap, ◌∙◌, Bool, true, false, ◌&&◌, not, List, [], ◌∷◌, ◌++◌, Option, none, some,
  ◌==◌, all, arith, Bool-cases, inl, inr,
}
use ffb_interceptor_visualiz.Manager.Elevated.{Text}
use ffb_interceptor_visualiz.Launcher.Modules.{
  DebugSession, Happening, create_process, load_dll, unload_dll, raises, exit_thread, exit_process,
  other_event, DebugEvent, observe_debug_event, observe,
}
use ffb_interceptor_visualiz.Launcher.Debug.{
  Game, Machine, Turn, Pause, Progress, returns, goes_on, exception_breakpoint,
  write_remote_code_byte, arm_entry_breakpoint, restore_entry_breakpoint, rewind_thread_to_entry,
  entry_turn, handle, pause_turn, follow, pause_loop, start_pause,
  pause_after_loader_initialization, read_remote_entry_point,
}

-- An event that is only passed on: neither the process nor a breakpoint.
abbrev pub is_quiet_event : Happening → Bool
is_quiet_event (create_process base path) = false
is_quiet_event exit_process = false
is_quiet_event (raises exception_code address) = not (exception_code == exception_breakpoint)
is_quiet_event other = true

abbrev pub is_quiet_wait : Option DebugEvent → Bool
is_quiet_wait none = false
is_quiet_wait (some event) = is_quiet_event event.happening

abbrev pub is_quiet : Turn → Bool
is_quiet t = is_quiet_wait t.event && t.continues

-- Every call of Windows works.
abbrev pub works : Turn → Bool
works t =
    t.reads && t.writing.opens && t.writing.writes && t.writing.flushes && t.writing.restores
    && t.gets_context && t.sets_context && t.suspends && t.continues

-- What quiet turns leave alone.
record Kept (p q : Pause) : Type 0 where
  image_base : q.session.image_base ≡ p.session.image_base
  seen : q.initial_breakpoint_seen ≡ p.initial_breakpoint_seen
  entry : q.entry_point ≡ p.entry_point

handle_quiet :
    (machine : Machine) (main_thread : ℕ) (t : Turn) (thread : ℕ) (h : Happening) (p : Pause)
    → is_quiet_event h ≡ true
    → t.continues ≡ true
    → handle machine main_thread t thread h p ≡ goes_on p
unfolding handle
handle_quiet machine main_thread t thread (create_process base path) p q c = cc
handle_quiet machine main_thread t thread exit_process p q c = cc
handle_quiet machine main_thread t thread (raises code address) p q c =
    let other : (code == exception_breakpoint) ≡ false = ground arith in ground arith
handle_quiet machine main_thread t thread (load_dll base path) p q c = simp c refl
handle_quiet machine main_thread t thread (unload_dll base) p q c = simp c refl
handle_quiet machine main_thread t thread (exit_thread code) p q c = simp c refl
handle_quiet machine main_thread t thread other_event p q c = simp c refl

observe-image_base :
    (h : Happening) (session : DebugSession)
    → is_quiet_event h ≡ true
    → (observe h session).image_base ≡ session.image_base
unfolding observe
observe-image_base (create_process base path) session q = cc
observe-image_base (load_dll base path) session q = refl
observe-image_base (unload_dll base) session q = refl
observe-image_base (raises code address) session q = refl
observe-image_base (exit_thread code) session q = refl
observe-image_base exit_process session q = refl
observe-image_base other_event session q = refl

pause_turn_quiet :
    (machine : Machine) (main_thread : ℕ) (t : Turn) (o : Option DebugEvent) (p : Pause)
    → is_quiet_wait o ≡ true
    → t.continues ≡ true
    → (q : Pause) × (pause_turn machine main_thread t o p ≡ goes_on q) × Kept p q
unfolding observe_debug_event
pause_turn_quiet machine main_thread t none p q c = cc
pause_turn_quiet machine main_thread t (some event) p q c = (
  record p { session = observe event.happening p.session },
  handle_quiet machine main_thread t event.thread_id event.happening _ q c,
  record { image_base = observe-image_base event.happening p.session q; seen = refl; entry = refl },
)

both : (a b : Bool) → (a && b) ≡ true → (a ≡ true) × (b ≡ true)
both a b h = ground arith

pause_loop_quiet :
    (machine : Machine) (main_thread : ℕ) (ts rest : List Turn) (p : Pause)
    → all is_quiet ts ≡ true
    → (q : Pause) × (pause_loop machine main_thread (ts ++ rest) p
        ≡ pause_loop machine main_thread rest q)
      × Kept p q
unfolding pause_loop
pause_loop_quiet machine main_thread [] rest p h =
    (p, refl, record { image_base = refl; seen = refl; entry = refl })
pause_loop_quiet machine main_thread (t ∷ ts) rest p h =
    let (first, others) = both (is_quiet t) (all is_quiet ts) h in
    let (quiet, continues) = both (is_quiet_wait t.event) t.continues first in
    let (q, e, kept) = pause_turn_quiet machine main_thread t t.event p quiet continues in
    let (r, f, further) = pause_loop_quiet machine main_thread ts rest q others in
    (
      r,
      ap (λ (o : Progress). follow o (pause_loop machine main_thread (ts ++ rest))) e ∙ f,
      record {
        image_base = further.image_base ∙ kept.image_base;
        seen = further.seen ∙ kept.seen;
        entry = further.entry ∙ kept.entry;
      },
    )

abbrev NowSeen : (entry_point : ℕ) → Progress → Type 0
NowSeen entry_point (goes_on q) = (q.initial_breakpoint_seen ≡ true) × (q.entry_point ≡ entry_point)
NowSeen entry_point (returns ok q) = ⊥

abbrev HasReturned : Progress → Type 0
HasReturned (returns ok q) = ok ≡ true
HasReturned (goes_on q) = ⊥

arm_entry_breakpoint-NowSeen :
    (t : Turn) (p : Pause) → works t ≡ true → NowSeen p.entry_point (arm_entry_breakpoint t p)
unfolding arm_entry_breakpoint write_remote_code_byte
arm_entry_breakpoint-NowSeen t p w =
    let reads : t.reads ≡ true = ground arith in
    let opens : t.writing.opens ≡ true = ground arith in
    let writes : t.writing.writes ≡ true = ground arith in
    let flushes : t.writing.flushes ≡ true = ground arith in
    let restores : t.writing.restores ≡ true = ground arith in
    let continues : t.continues ≡ true = ground arith in
    rw (reads, opens, writes, flushes, restores, continues) (refl, refl)

entry_turn-HasReturned : (t : Turn) (p : Pause) → works t ≡ true → HasReturned (entry_turn t p)
unfolding entry_turn restore_entry_breakpoint rewind_thread_to_entry write_remote_code_byte
entry_turn-HasReturned t p w =
    let opens : t.writing.opens ≡ true = ground arith in
    let writes : t.writing.writes ≡ true = ground arith in
    let flushes : t.writing.flushes ≡ true = ground arith in
    let restores : t.writing.restores ≡ true = ground arith in
    let gets : t.gets_context ≡ true = ground arith in
    let sets : t.sets_context ≡ true = ground arith in
    let suspends : t.suspends ≡ true = ground arith in
    let continues : t.continues ≡ true = ground arith in
    elim (Bool-cases p.armed) [
      | inl a ↦ rw (a, opens, writes, flushes, restores, gets, sets, suspends, continues) refl
      | inr a ↦ rw (a, gets, sets, suspends, continues) refl
    ]

follow-NowSeen :
    (entry_point : ℕ) (o : Progress) (rest : Pause → Bool × Pause)
    → NowSeen entry_point o
    → ((q : Pause)
        → q.initial_breakpoint_seen ≡ true
        → q.entry_point ≡ entry_point
        → (rest q).0 ≡ true)
    → (follow o rest).0 ≡ true
follow-NowSeen entry_point (goes_on q) rest h k = k q h.0 h.1
follow-NowSeen entry_point (returns ok q) rest h k = absurd h

follow-HasReturned :
    (o : Progress) (rest : Pause → Bool × Pause) → HasReturned o → (follow o rest).0 ≡ true
follow-HasReturned (returns ok q) rest h = h
follow-HasReturned (goes_on q) rest h = absurd h

-- The turn with a breakpoint, of a thread and at an address.
abbrev pub IsBreakpoint : Turn → (thread_id address : ℕ) → Type 0
IsBreakpoint t thread_id address =
    t.event
    ≡ some (record { thread_id = thread_id; happening = raises exception_breakpoint address })

loop_behind_entry :
    (machine : Machine) (main_thread : ℕ) (last : Turn) (p : Pause)
    → p.initial_breakpoint_seen ≡ true
    → IsBreakpoint last main_thread p.entry_point
    → works last ≡ true
    → (pause_loop machine main_thread (last ∷ []) p).0 ≡ true
unfolding pause_loop handle observe_debug_event observe
loop_behind_entry machine main_thread last p seen e w =
    let here : (p.entry_point == p.entry_point) ≡ true = ground arith in
    let thread : (main_thread == main_thread) ≡ true = ground arith in
    rw (e, seen, here, thread)
      (follow-HasReturned (entry_turn last _) _ (entry_turn-HasReturned last _ w))

loop_behind_initial :
    (machine : Machine) (main_thread thread address entry_point : ℕ) (initial : Turn)
    (rest : List Turn) (p : Pause)
    → p.initial_breakpoint_seen ≡ false
    → IsBreakpoint initial thread address
    → read_remote_entry_point machine p.session.image_base initial ≡ some entry_point
    → works initial ≡ true
    → ((q : Pause)
        → q.initial_breakpoint_seen ≡ true
        → q.entry_point ≡ entry_point
        → (pause_loop machine main_thread rest q).0 ≡ true)
    → (pause_loop machine main_thread (initial ∷ rest) p).0 ≡ true
unfolding pause_loop handle observe_debug_event observe
loop_behind_initial machine main_thread thread address entry_point initial rest p unseen e found w
      k =
    rw (e, unseen, found)
      (follow-NowSeen entry_point (arm_entry_breakpoint initial _) _
        (arm_entry_breakpoint-NowSeen initial _ w) k)

-- If the debug events that come before the deadline are the creation of the process at an address,
-- quiet ones, the loader's breakpoint, quiet ones, and the breakpoint at the entry point that the
-- image's header names, and Windows does what it is asked for at the two breakpoints, then
-- pause_after_loader_initialization returns true.
pub pause_after_loader_initialization_reaches :
    (machine : Machine) (main_thread thread address entry_point base : ℕ) (path : Text)
    (game : Game) (creation initial last : Turn) (before between : List Turn)
    → creation.event ≡ some (record { thread_id = thread; happening = create_process base path })
    → creation.continues ≡ true
    → all is_quiet before ≡ true
    → IsBreakpoint initial thread address
    → read_remote_entry_point machine base initial ≡ some entry_point
    → works initial ≡ true
    → all is_quiet between ≡ true
    → IsBreakpoint last main_thread entry_point
    → works last ≡ true
    → (pause_after_loader_initialization machine main_thread
        (creation ∷ (before ++ (initial ∷ (between ++ last ∷ []))))
        game).0
      ≡ true
unfolding pause_after_loader_initialization pause_loop handle observe_debug_event observe
pause_after_loader_initialization_reaches machine main_thread thread address entry_point base path
      game creation initial last before between e continues quiet f found w calm l works_last =
    let rest = initial ∷ (between ++ last ∷ []) in
    let p = record (start_pause game) {
      session = observe (create_process base path) (start_pause game).session;
    } in
    let (q, ran, kept) = pause_loop_quiet machine main_thread before rest p quiet in
    rw (e, continues)
      (ap (λ (r : Bool × Pause). r.0) ran
        ∙ loop_behind_initial machine main_thread thread address entry_point initial
            (between ++ last ∷ []) q kept.seen f (rw (kept.image_base) found) w
            λ r seen entry.
              let (r2, ran2, kept2) =
                pause_loop_quiet machine main_thread between (last ∷ []) r calm in
              ap (λ (o : Bool × Pause). o.0) ran2
              ∙ loop_behind_entry machine main_thread last r2 (kept2.seen ∙ seen)
                  (rw (kept2.entry ∙ entry) l) works_last)
