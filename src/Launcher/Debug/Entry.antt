-- ===== src/Launcher/Debug/Entry.antt =====
-- What pause_after_loader_initialization of launcher/injector.cpp leaves in the game.
use ffb_interceptor_visualiz.Common.{
  ℕ, ◌+◌, ◌≡◌, refl, sym, ap, ◌∙◌, Bool, true, false, ◌&&◌, not, List, [], ◌∷◌, Option, none, some,
  ◌==◌, ==_iff, if◌then◌else◌, arith, Bool-cases, inl, inr, ◌⊎◌,
}
use ffb_interceptor_visualiz.Launcher.Modules.{
  Happening, create_process, load_dll, unload_dll, raises, exit_thread, exit_process, other_event,
  DebugEvent,
}
use ffb_interceptor_visualiz.Launcher.Debug.{
  Game, Machine, Turn, Writing, Pause, Progress, returns, goes_on, breakpoint_byte,
  exception_breakpoint, write_remote_code_byte, arm_entry_breakpoint, armed_turn, initial_turn,
  restore_entry_breakpoint, rewind_thread_to_entry, restored_turn, entry_turn, other_turn, handle,
  pause_turn, follow, pause_loop, start_pause, pause_after_loader_initialization,
}

-- While the loop goes on: the code is as it was, but for the breakpoint once it is armed.
pub record Watches (start : Game) (p : Pause) : Type 0 where
  pub seen : p.initial_breakpoint_seen ≡ p.armed
  pub suspended : p.game.suspended ≡ start.suspended
  pub code :
      (a : ℕ)
      → p.game.code a ≡ (if p.armed && a == p.entry_point then breakpoint_byte else start.code a)
  pub original : p.armed ≡ true → p.original_byte ≡ start.code p.entry_point

-- At the entry point, with the code as it was.
pub record IsPaused (start : Game) (p : Pause) : Type 0 where
  pub armed : p.armed ≡ true
  pub code : (a : ℕ) → p.game.code a ≡ start.code a
  pub position : p.game.position ≡ p.entry_point
  pub suspended : p.game.suspended ≡ start.suspended + 1

abbrev pub After : (start : Game) → Progress → Type 0
After start (goes_on p) = Watches start p
After start (returns true p) = IsPaused start p
After start (returns false p) = Unit {0}

-- A byte has been written, and nothing else has changed.
pub record Written (before : Game) (address value : ℕ) (after : Game) : Type 0 where
  pub code : (a : ℕ) → after.code a ≡ (if a == address then value else before.code a)
  pub position : after.position ≡ before.position
  pub suspended : after.suspended ≡ before.suspended

abbrev WrittenIf : Game → (address value : ℕ) → Bool × Game → Type 0
WrittenIf before address value (true, after) = Written before address value after
WrittenIf before address value (false, after) = Unit {0}

write_remote_code_byte-WrittenIf :
    (w : Writing) (address value : ℕ) (game : Game)
    → WrittenIf game address value (write_remote_code_byte w address value game)
unfolding write_remote_code_byte
write_remote_code_byte-WrittenIf w address value game = elim (Bool-cases w.opens) [
  | inr o ↦ rw o tt
  | inl o ↦ elim (Bool-cases w.writes) [
    | inr f ↦ rw (o, f) tt
    | inl f ↦ elim (Bool-cases (w.flushes && w.restores)) [
      | inl r ↦ rw (o, f, r) (record { code = λ a. refl; position = refl; suspended = refl })
      | inr r ↦ rw (o, f, r) tt
    ]
  ]
]

armed_turn-After :
    (start : Game) (continues : Bool) (p : Pause) (r : Bool × Game)
    → Watches start p
    → p.armed ≡ false
    → p.original_byte ≡ p.game.code p.entry_point
    → WrittenIf p.game p.entry_point breakpoint_byte r
    → After start (armed_turn continues p r)
armed_turn-After start continues p (false, g) h free kept w = tt
armed_turn-After start false p (true, g) h free kept w = tt
armed_turn-After start true p (true, g) h free kept w = record {
  seen = refl;
  suspended = w.suspended ∙ h.suspended;
  code = λ a. w.code a ∙ rw (h.code a, free) refl;
  original = λ e. kept ∙ rw (h.code p.entry_point, free) refl;
}

arm_entry_breakpoint-After :
    (start : Game) (t : Turn) (p : Pause)
    → Watches start p
    → p.armed ≡ false
    → After start (arm_entry_breakpoint t p)
unfolding arm_entry_breakpoint
arm_entry_breakpoint-After start t p h free = elim (Bool-cases t.reads) [
  | inr r ↦ rw r tt
  | inl r ↦ rw r (
      armed_turn-After start t.continues (record p { original_byte = p.game.code p.entry_point }) _
        (record {
          seen = h.seen;
          suspended = h.suspended;
          code = h.code;
          original = λ e. absurd (no e);
        })
        free refl (write_remote_code_byte-WrittenIf t.writing p.entry_point breakpoint_byte p.game))
]
  where
    no : p.armed ≡ true → ⊥
    no e = cc

initial_turn-After :
    (start : Game) (t : Turn) (p : Pause) (entry : Option ℕ)
    → Watches start p
    → p.armed ≡ false
    → After start (initial_turn t p entry)
initial_turn-After start t p none h free = tt
initial_turn-After start t p (some entry) h free =
    arm_entry_breakpoint-After start t (record p { entry_point = entry })
      (record {
        seen = h.seen;
        suspended = h.suspended;
        code = λ a. h.code a ∙ rw free refl;
        original = λ e. absurd (no e);
      })
      free
  where
    no : p.armed ≡ true → ⊥
    no e = cc

-- The code is as at the start, and so is the count.
pub record Restored (start : Game) (game : Game) : Type 0 where
  pub code : (a : ℕ) → game.code a ≡ start.code a
  pub suspended : game.suspended ≡ start.suspended

abbrev RestoredIf : Game → Bool × Game → Type 0
RestoredIf start (true, game) = Restored start game
RestoredIf start (false, game) = Unit {0}

written_back :
    (start : Game) (p : Pause) (r : Bool × Game)
    → Watches start p
    → p.armed ≡ true
    → WrittenIf p.game p.entry_point p.original_byte r
    → RestoredIf start r
written_back start p (false, g) h armed w = tt
written_back start p (true, g) h armed w = record {
  code = λ a. w.code a ∙ at a (Bool-cases (a == p.entry_point));
  suspended = w.suspended ∙ h.suspended;
}
  where
    at :
        (a : ℕ)
        → ((a == p.entry_point) ≡ true) ⊎ ((a == p.entry_point) ≡ false)
        → (if a == p.entry_point then p.original_byte else p.game.code a) ≡ start.code a
    at a (inl e) = rw e (h.original armed ∙ ap start.code (sym ((==_iff a p.entry_point).0 e)))
    at a (inr e) = rw e (h.code a ∙ rw (armed, e) refl)

restore_entry_breakpoint-RestoredIf :
    (start : Game) (t : Turn) (p : Pause)
    → Watches start p
    → p.armed ≡ true
    → RestoredIf start (restore_entry_breakpoint t p)
unfolding restore_entry_breakpoint
restore_entry_breakpoint-RestoredIf start t p h armed = rw armed (
    written_back start p _ h armed
      (write_remote_code_byte-WrittenIf t.writing p.entry_point p.original_byte p.game))

restored_turn-After :
    (start : Game) (t : Turn) (p : Pause) (r : Bool × Game)
    → p.armed ≡ true
    → RestoredIf start r
    → After start (restored_turn t p r)
unfolding rewind_thread_to_entry
restored_turn-After start t p (false, g) armed w = tt
restored_turn-After start t p (true, g) armed w =
    elim (Bool-cases (t.gets_context && t.sets_context)) [
      | inr c ↦ rw c tt
      | inl c ↦ elim (Bool-cases t.suspends) [
        | inr s ↦ rw (c, s) tt
        | inl s ↦ elim (Bool-cases t.continues) [
          | inr k ↦ rw (c, s, k) tt
          | inl k ↦
              rw (c, s, k)
                (record {
                  armed = armed;
                  code = w.code;
                  position = refl;
                  suspended = omega (arith, w.suspended);
                })
        ]
      ]
    ]

other_turn-After :
    (start : Game) (t : Turn) (p : Pause) → Watches start p → After start (other_turn t p)
other_turn-After start t p h = elim (Bool-cases t.continues) [ inl c ↦ rw c h | inr c ↦ rw c tt ]

handle-After :
    (machine : Machine) (main_thread : ℕ) (t : Turn) (thread : ℕ) (h : Happening) (start : Game)
    (p : Pause)
    → Watches start p
    → After start (handle machine main_thread t thread h p)
unfolding handle entry_turn
handle-After machine main_thread t thread exit_process start p w = tt
handle-After machine main_thread t thread (raises code address) start p w =
    elim (Bool-cases (not p.initial_breakpoint_seen && code == exception_breakpoint)) [
      | inl first ↦ rw first (
          initial_turn-After start t p _ w
            (sym w.seen ∙ unseen p.initial_breakpoint_seen (code == exception_breakpoint) first))
      | inr later ↦
          elim (Bool-cases (
            p.initial_breakpoint_seen
            && code == exception_breakpoint
            && address == p.entry_point
            && thread == main_thread)) [
              | inl entry ↦
                  let armed : p.armed ≡ true =
                    sym w.seen
                    ∙ seen p.initial_breakpoint_seen (code == exception_breakpoint)
                        (address == p.entry_point) (thread == main_thread) entry in
                  rw (later, entry)
                    (restored_turn-After start t p _ armed
                      (restore_entry_breakpoint-RestoredIf start t p w armed))
              | inr other ↦ rw (later, other) (other_turn-After start t p w)
            ]
    ]
  where
    unseen : (a b : Bool) → (not a && b) ≡ true → a ≡ false
    unseen a b e = ground arith

    seen : (a b c d : Bool) → (a && b && c && d) ≡ true → a ≡ true
    seen a b c d e = ground arith
handle-After machine main_thread t thread (create_process base path) start p w =
    other_turn-After start t p w
handle-After machine main_thread t thread (load_dll base path) start p w =
    other_turn-After start t p w
handle-After machine main_thread t thread (unload_dll base) start p w = other_turn-After start t p w
handle-After machine main_thread t thread (exit_thread code) start p w =
    other_turn-After start t p w
handle-After machine main_thread t thread other_event start p w = other_turn-After start t p w

pause_turn-After :
    (machine : Machine) (main_thread : ℕ) (t : Turn) (event : Option DebugEvent) (start : Game)
    (p : Pause)
    → Watches start p
    → After start (pause_turn machine main_thread t event p)
pause_turn-After machine main_thread t none start p w = tt
pause_turn-After machine main_thread t (some event) start p w =
    handle-After machine main_thread t event.thread_id event.happening start _
      (record { seen = w.seen; suspended = w.suspended; code = w.code; original = w.original })

-- What a return of the loop leaves.
abbrev pub Leaves : (start : Game) → Bool × Pause → Type 0
Leaves start (true, p) = IsPaused start p
Leaves start (false, p) = Unit {0}

follow-Leaves :
    (start : Game) (o : Progress) (rest : Pause → Bool × Pause)
    → After start o
    → ((p : Pause) → Watches start p → Leaves start (rest p))
    → Leaves start (follow o rest)
follow-Leaves start (returns true p) rest a h = a
follow-Leaves start (returns false p) rest a h = tt
follow-Leaves start (goes_on p) rest a h = h p a

pause_loop-Leaves :
    (machine : Machine) (main_thread : ℕ) (ts : List Turn) (start : Game) (p : Pause)
    → Watches start p
    → Leaves start (pause_loop machine main_thread ts p)
unfolding pause_loop
pause_loop-Leaves machine main_thread [] start p w = tt
pause_loop-Leaves machine main_thread (t ∷ ts) start p w =
    follow-Leaves start (pause_turn machine main_thread t t.event p) _
      (pause_turn-After machine main_thread t t.event start p w)
      λ q v. pause_loop-Leaves machine main_thread ts start q v

-- Where pause_after_loader_initialization returns true, whatever events there were: the game's
-- code is as it was before the breakpoint, the main thread's next instruction is the entry point,
-- and it has been suspended once.
pub pause_after_loader_initialization-Leaves :
    (machine : Machine) (main_thread : ℕ) (turns : List Turn) (start : Game)
    → Leaves start (pause_after_loader_initialization machine main_thread turns start)
unfolding pause_after_loader_initialization
pause_after_loader_initialization-Leaves machine main_thread turns start =
    pause_loop-Leaves machine main_thread turns start (start_pause start)
      (record { seen = refl; suspended = refl; code = λ a. refl; original = λ e. absurd (no e) })
  where
    no : false ≡ true → ⊥
    no e = cc
