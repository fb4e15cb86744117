-- ===== src/Launcher/Launch/Runs.antt =====
-- A launch at concrete answers of Windows.
use ffb_interceptor_visualiz.Common.{
  ℕ, ◌≡◌, refl, true, false, List, [], ◌∷◌, some, ◌==◌, if◌then◌else◌, length,
}
use ffb_interceptor_visualiz.Manager.Elevated.{Text, text_eq}
use ffb_interceptor_visualiz.Launcher.Quote.{LaunchRequest}
use ffb_interceptor_visualiz.ImportTable.{read, read_le}
use ffb_interceptor_visualiz.Launcher.Architecture.{PeFile, x64, read_pe_architecture}
use ffb_interceptor_visualiz.Launcher.Paths.{
  resolve_existing_file, strip_extended_prefix, is_unc_path, has_exe_extension, behind_last,
  before_last, path_is_within, trim_slashes, parent_directory, file_name,
}
use ffb_interceptor_visualiz.Launcher.Modules.{
  Happening, create_process, load_dll, raises, exit_thread, find_debug_module, observe_debug_event,
  observe, record_debug_module, renew,
}
use ffb_interceptor_visualiz.Launcher.Debug.{
  Game, Machine, Turn, pause_after_loader_initialization, pause_loop, handle, arm_entry_breakpoint,
  entry_turn, restore_entry_breakpoint, rewind_thread_to_entry, write_remote_code_byte,
  read_remote_entry_point, RemoteTurn, pending, run_remote_thread, remote_loop,
  exception_breakpoint,
}
use ffb_interceptor_visualiz.Launcher.Launch.{
  Host, launch_offline_game, check_request, set_running, hook_file_name,
}
use ffb_interceptor_visualiz.Launcher.Launch.Safety.{Ends, IsHooked, launch_offline_game-Ends}

-- C:\g.exe, C:\w, C:\l.exe, C:\k.dll
abbrev game_file : Text
game_file = 67 ∷ 58 ∷ 92 ∷ 103 ∷ 46 ∷ 101 ∷ 120 ∷ 101 ∷ []

abbrev windows : Text
windows = 67 ∷ 58 ∷ 92 ∷ 119 ∷ []

abbrev launcher_file : Text
launcher_file = 67 ∷ 58 ∷ 92 ∷ 108 ∷ 46 ∷ 101 ∷ 120 ∷ 101 ∷ []

abbrev kernel_file : Text
kernel_file = 67 ∷ 58 ∷ 92 ∷ 107 ∷ 46 ∷ 100 ∷ 108 ∷ 108 ∷ []

abbrev hook_file : Text
hook_file = 67 ∷ 58 ∷ 92 ∷ hook_file_name

abbrev game : Game
game = record { code = λ a. 144; position = 0; suspended = 0 }

abbrev machine : Machine
machine = record { bits = 64; optional_magic = 0x20b }

-- A turn in which every call works.
abbrev turn : Happening → Turn
turn happening = record {
  event = some (record { thread_id = 5; happening = happening });
  dos = some (record { magic = 0x5a4d; lfanew = 128 });
  nt = some (record {
    signature = 0x4550;
    magic = 0x20b;
    address_of_entry_point = 4096;
    size_of_image = 65536;
  });
  reads = true;
  writing = record { opens = true; writes = true; flushes = true; restores = true };
  gets_context = true;
  sets_context = true;
  suspends = true;
  continues = true;
}

-- The image at 0x400000, kernel32 at 0x700000, the loader's breakpoint and the one at the entry.
abbrev turns : List Turn
turns =
    turn (create_process 0x400000 game_file)
    ∷ turn (load_dll 0x700000 kernel_file)
    ∷ turn (raises exception_breakpoint 0x700010)
    ∷ turn (raises exception_breakpoint 0x401000)
    ∷ []

abbrev remote_turn : Happening → RemoteTurn
remote_turn happening = record {
  wait = pending;
  event = some (record { thread_id = 6; happening = happening });
  continues = true;
}

-- An x64 program, with its headers at 64.
abbrev program_byte : ℕ → ℕ
program_byte a =
    if a == 0
    then 0x4d
    else if a == 1
    then 0x5a
    else if a == 60
    then 64
    else if a == 64
    then 0x50
    else if a == 65
    then 0x45
    else if a == 68
    then 0x64
    else if a == 69
    then 0x86
    else 0

abbrev program : PeFile
program = record { size = some 200; contents = record { mapped = 200; bytes = program_byte } }

abbrev host : Host
host = record {
  elevated = some false;
  same = text_eq;
  final_path = λ path. some path;
  windows_directory = some windows;
  own_path = launcher_file;
  file_at = λ path. some program;
  launcher_architecture = x64;
  creates = true;
  machine = machine;
  main_thread = 5;
  game = game;
  turns = turns;
  remote_path = 0x900000;
  writes_path = true;
  load_library = some (record { owner = 0x500000; owner_path = kernel_file; address = 0x500020 });
  load_thread = some 6;
  load_turns = remote_turn (load_dll 0xa00000 hook_file) ∷ remote_turn (exit_thread 1) ∷ [];
  local_hook = some 0xb00000;
  initializer = some 0xb00040;
  initialize_thread = some 6;
  initialize_turns = remote_turn (exit_thread 1) ∷ [];
  leaves_running = true;
  resumes = true;
}

abbrev request : LaunchRequest
request = record { game_path = game_file; game_arguments = [] }

-- With a hook that does not initialize.
abbrev failing : Host
failing = record host { initialize_turns = remote_turn (exit_thread 12) ∷ [] }

game_launched : (launch_offline_game host request).success ≡ true
unfolding launch_offline_game read_pe_architecture read read_le check_request resolve_existing_file
    strip_extended_prefix text_eq is_unc_path has_exe_extension behind_last path_is_within
    trim_slashes parent_directory before_last file_name pause_after_loader_initialization pause_loop
    observe_debug_event observe record_debug_module renew handle read_remote_entry_point
    arm_entry_breakpoint write_remote_code_byte entry_turn restore_entry_breakpoint
    rewind_thread_to_entry run_remote_thread remote_loop find_debug_module set_running
game_launched = refl

failing_stopped : length (launch_offline_game failing request).actions ≡ 5
unfolding launch_offline_game read_pe_architecture read read_le check_request resolve_existing_file
    strip_extended_prefix text_eq is_unc_path has_exe_extension behind_last path_is_within
    trim_slashes parent_directory before_last file_name pause_after_loader_initialization pause_loop
    observe_debug_event observe record_debug_module renew handle read_remote_entry_point
    arm_entry_breakpoint write_remote_code_byte entry_turn restore_entry_breakpoint
    rewind_thread_to_entry run_remote_thread remote_loop find_debug_module set_running
failing_stopped = refl

launch_offline_game-Ends_example : Ends (IsHooked host request) (launch_offline_game host request)
launch_offline_game-Ends_example = launch_offline_game-Ends host request
