-- ===== src/Launcher/Debug.antt =====
-- The two loops over debug events of launcher/injector.cpp: pause_after_loader_initialization and
-- run_remote_thread. What Windows answers in one turn of a loop is a record; the list of the turns
-- ends where the deadline has passed. Error texts are left out.
pub mod Entry
pub mod Reach
mod Runs
use ffb_interceptor_visualiz.Common.{
  ℕ, zero, suc, ◌+◌, ◌*◌, ◌^◌, Bool, true, false, ◌&&◌, ◌||◌, not, List, [], ◌∷◌, Option, none,
  some, leb, ltb, ◌==◌, if◌then◌else◌,
}
use ffb_interceptor_visualiz.Launcher.Modules.{
  DebugSession, Happening, create_process, load_dll, unload_dll, raises, exit_thread, exit_process,
  other_event, DebugEvent, observe_debug_event,
}

-- The code bytes that the launcher writes in the game, its main thread's next instruction, and how
-- often that thread is suspended.
pub record Game : Type 0 where
  pub code : ℕ → ℕ
  pub position : ℕ
  pub suspended : ℕ

-- IMAGE_DOS_HEADER and IMAGE_NT_HEADERS, as far as they are looked at.
pub record DosHeader : Type 0 where
  pub magic : ℕ
  pub lfanew : ℕ

pub record NtHeaders : Type 0 where
  pub signature : ℕ
  pub magic : ℕ
  pub address_of_entry_point : ℕ
  pub size_of_image : ℕ

-- VirtualProtectEx, WriteProcessMemory, FlushInstructionCache, VirtualProtectEx
pub record Writing : Type 0 where
  pub opens : Bool
  pub writes : Bool
  pub flushes : Bool
  pub restores : Bool

-- What Windows answers in one turn: `event` is `none` where WaitForDebugEvent fails, a header
-- `none` where it cannot be read in full.
pub record Turn : Type 0 where
  pub event : Option DebugEvent
  pub dos : Option DosHeader
  pub nt : Option NtHeaders
  pub reads : Bool
  pub writing : Writing
  pub gets_context : Bool
  pub sets_context : Bool
  pub suspends : Bool
  pub continues : Bool

-- The launcher's architecture: the number of bits, and IMAGE_NT_OPTIONAL_HDR_MAGIC.
pub record Machine : Type 0 where
  pub bits : ℕ
  pub optional_magic : ℕ

-- An address behind the image base, unless it overflows.
abbrev pub offset_from : Machine → (base offset : ℕ) → Option ℕ
offset_from machine base offset =
    if ltb (2 ^ machine.bits) (base + offset + 1) then none else some (base + offset)

abbrev pub entry_of : Machine → (image_base : ℕ) → Option NtHeaders → Option ℕ
entry_of machine image_base none = none
entry_of machine image_base (some nt) =
    if not (nt.signature == 0x4550)
      || not (nt.magic == machine.optional_magic)
      || nt.address_of_entry_point == 0
      || leb nt.size_of_image nt.address_of_entry_point
    then none
    else offset_from machine image_base nt.address_of_entry_point

-- e_lfanew is signed: where it is negative, its bits are a number above 2 ^ 20 as well.
abbrev pub entry_behind :
    Machine → (image_base : ℕ) → Option DosHeader → Option NtHeaders → Option ℕ
entry_behind machine image_base none nt = none
entry_behind machine image_base (some dos) nt =
    if not (dos.magic == 0x5a4d) || dos.lfanew == 0 || ltb (1024 * 1024) dos.lfanew
    then none
    else elim (offset_from machine image_base dos.lfanew) [
      | none ↦ none
      | some nt_address ↦ entry_of machine image_base nt
    ]

unfoldable pub read_remote_entry_point : Machine → (image_base : ℕ) → Turn → Option ℕ
read_remote_entry_point machine image_base t =
    if image_base == 0 then none else entry_behind machine image_base t.dos t.nt

-- Whether all went well, and the game.
unfoldable pub write_remote_code_byte : Writing → (address value : ℕ) → Game → Bool × Game
write_remote_code_byte w address value game = if not w.opens then (false, game) else (
  w.writes && w.flushes && w.restores,
  if w.writes
      then record game { code = λ a. if a == address then value else game.code a }
      else game,
)

-- The locals of pause_after_loader_initialization.
pub record Pause : Type 0 where
  pub session : DebugSession
  pub game : Game
  pub initial_breakpoint_seen : Bool
  pub entry_point : ℕ
  pub original_byte : ℕ
  pub armed : Bool

-- A turn returns, or the loop goes on.
pub data Progress : Type 0 where
  returns : Bool → Pause → Progress
  goes_on : Pause → Progress

-- int3
abbrev pub breakpoint_byte : ℕ
breakpoint_byte = 0xcc

-- EXCEPTION_BREAKPOINT
abbrev pub exception_breakpoint : ℕ
exception_breakpoint = 0x80000003

-- Behind arm_entry_breakpoint.
abbrev pub armed_turn : (continues : Bool) → Pause → Bool × Game → Progress
armed_turn continues p (ok, game) =
    if not ok
    then returns false (record p { game = game })
    else if not continues
    then returns false (record p { game = game; armed = true; initial_breakpoint_seen = true })
    else goes_on (record p { game = game; armed = true; initial_breakpoint_seen = true })

unfoldable pub arm_entry_breakpoint : Turn → Pause → Progress
unfolding write_remote_code_byte
arm_entry_breakpoint t p =
    if not t.reads
    then returns false p
    else let original = p.game.code p.entry_point in
      armed_turn t.continues (record p { original_byte = original })
        (write_remote_code_byte t.writing p.entry_point breakpoint_byte p.game)

-- The first breakpoint, which the loader hits.
abbrev pub initial_turn : Turn → Pause → (entry_point : Option ℕ) → Progress
initial_turn t p none = returns false p
initial_turn t p (some entry_point) =
    arm_entry_breakpoint t (record p { entry_point = entry_point })

unfoldable pub restore_entry_breakpoint : Turn → Pause → Bool × Game
unfolding write_remote_code_byte
restore_entry_breakpoint t p =
    if not p.armed
    then (true, p.game)
    else write_remote_code_byte t.writing p.entry_point p.original_byte p.game

unfoldable pub rewind_thread_to_entry : Turn → (entry_point : ℕ) → Game → Bool × Game
rewind_thread_to_entry t entry_point game =
    if t.gets_context && t.sets_context
    then (true, record game { position = entry_point })
    else (false, game)

-- SuspendThread and ContinueDebugEvent, behind the rewind.
abbrev pub rewound_turn : Turn → Pause → Bool × Game → Progress
rewound_turn t p (ok, game) =
    if not ok
    then returns false (record p { game = game })
    else if not t.suspends
    then returns false (record p { game = game })
    else returns t.continues (record p { game = record game { suspended = game.suspended + 1 } })

abbrev pub restored_turn : Turn → Pause → Bool × Game → Progress
restored_turn t p (ok, game) =
    if not ok
    then returns false (record p { game = game })
    else rewound_turn t p (rewind_thread_to_entry t p.entry_point game)

-- The breakpoint at the entry point.
unfoldable pub entry_turn : Turn → Pause → Progress
unfolding restore_entry_breakpoint rewind_thread_to_entry
entry_turn t p = restored_turn t p (restore_entry_breakpoint t p)

abbrev pub other_turn : Turn → Pause → Progress
other_turn t p = if t.continues then goes_on p else returns false p

-- One turn behind observe_debug_event. `main_thread` is process.dwThreadId.
unfoldable pub handle :
    Machine → (main_thread : ℕ) → Turn → (thread_id : ℕ) → Happening → Pause → Progress
unfolding arm_entry_breakpoint entry_turn read_remote_entry_point
handle machine main_thread t thread_id exit_process p = returns false p
handle machine main_thread t thread_id (raises exception_code address) p =
    if not p.initial_breakpoint_seen && exception_code == exception_breakpoint
    then initial_turn t p (read_remote_entry_point machine p.session.image_base t)
    else if p.initial_breakpoint_seen
        && exception_code == exception_breakpoint
        && address == p.entry_point
        && thread_id == main_thread
    then entry_turn t p
    else other_turn t p
handle machine main_thread t thread_id other p = other_turn t p

abbrev pub pause_turn : Machine → (main_thread : ℕ) → Turn → Option DebugEvent → Pause → Progress
pause_turn machine main_thread t none p = returns false p
pause_turn machine main_thread t (some event) p =
    handle machine main_thread t event.thread_id event.happening
      (record p { session = observe_debug_event event p.session })

abbrev pub follow : Progress → (Pause → Bool × Pause) → Bool × Pause
follow (returns ok p) rest = (ok, p)
follow (goes_on p) rest = rest p

unfoldable pub pause_loop : Machine → (main_thread : ℕ) → List Turn → Pause → Bool × Pause
unfolding handle observe_debug_event
pause_loop machine main_thread [] p = (false, p)
pause_loop machine main_thread (t ∷ ts) p =
    follow (pause_turn machine main_thread t t.event p) (pause_loop machine main_thread ts)

abbrev pub start_pause : Game → Pause
start_pause game = record {
  session = record { modules = []; image_base = 0 };
  game = game;
  initial_breakpoint_seen = false;
  entry_point = 0;
  original_byte = 0;
  armed = false;
}

unfoldable pub pause_after_loader_initialization :
    Machine → (main_thread : ℕ) → List Turn → Game → Bool × Pause
unfolding pause_loop
pause_after_loader_initialization machine main_thread turns game =
    pause_loop machine main_thread turns (start_pause game)

-- The check of the remote thread: WAIT_FAILED, WAIT_OBJECT_0 with what GetExitCodeThread gives, or
-- WAIT_TIMEOUT.
pub data ThreadWait : Type 0 where
  failed pending : ThreadWait
  signalled : (exit_code : Option ℕ) → ThreadWait

pub record RemoteTurn : Type 0 where
  pub wait : ThreadWait
  pub event : Option DebugEvent
  pub continues : Bool

-- The exit code, if run_remote_thread returns true, and the session.
abbrev pub Ran : Type 0
Ran = Option ℕ × DebugSession

abbrev pub exit_code_of : (remote_thread : ℕ) → (thread_id : ℕ) → Happening → Option ℕ
exit_code_of remote_thread thread_id (exit_thread code) =
    if thread_id == remote_thread then some code else none
exit_code_of remote_thread thread_id other = none

abbrev pub is_exit : Happening → Bool
is_exit exit_process = true
is_exit other = false

-- Behind observe_debug_event and ContinueDebugEvent.
abbrev pub continued : Happening → Option ℕ → DebugSession → Ran → Ran
continued happening (some code) session rest =
    if is_exit happening then (none, session) else (some code, session)
continued happening none session rest = if is_exit happening then (none, session) else rest

abbrev pub remote_event :
    (remote_thread : ℕ)
    → (continues : Bool) → Option DebugEvent
    → DebugSession
    → (DebugSession → Ran)
    → Ran
remote_event remote_thread continues none session rest = (none, session)
remote_event remote_thread continues (some event) session rest =
    let observed = observe_debug_event event session in
    if not continues
    then (none, observed)
    else continued event.happening (exit_code_of remote_thread event.thread_id event.happening)
        observed (rest observed)

abbrev pub remote_turn :
    (remote_thread : ℕ) → RemoteTurn → ThreadWait → DebugSession → (DebugSession → Ran) → Ran
remote_turn remote_thread t failed session rest = (none, session)
remote_turn remote_thread t (signalled code) session rest = (code, session)
remote_turn remote_thread t pending session rest =
    remote_event remote_thread t.continues t.event session rest

unfoldable pub remote_loop : (remote_thread : ℕ) → List RemoteTurn → DebugSession → Ran
unfolding observe_debug_event
remote_loop remote_thread [] session = (none, session)
remote_loop remote_thread (t ∷ ts) session =
    remote_turn remote_thread t t.wait session (remote_loop remote_thread ts)

-- `created` is what CreateRemoteThread gives: the thread's number, or `none`.
unfoldable pub run_remote_thread : (created : Option ℕ) → List RemoteTurn → DebugSession → Ran
unfolding remote_loop
run_remote_thread none turns session = (none, session)
run_remote_thread (some remote_thread) turns session = remote_loop remote_thread turns session
