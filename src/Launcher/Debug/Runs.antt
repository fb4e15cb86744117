-- ===== src/Launcher/Debug/Runs.antt =====
-- The loop up to the entry point, and the table of modules, at concrete events.
use ffb_interceptor_visualiz.Common.{◌≡◌, refl, true, List, [], ◌∷◌, ◌++◌, some, arith}
use ffb_interceptor_visualiz.Launcher.Paths.{file_name, behind_last}
use ffb_interceptor_visualiz.Launcher.Modules.{
  Happening, create_process, load_dll, unload_dll, raises, observe_debug_event, observe,
  record_debug_module,
}
use ffb_interceptor_visualiz.Launcher.Modules.Table.{
  lookup, located, observe_all, lookup-observe_all,
}
use ffb_interceptor_visualiz.Launcher.Debug.{
  Game, Machine, Turn, pause_after_loader_initialization, pause_loop, handle, arm_entry_breakpoint,
  entry_turn, restore_entry_breakpoint, rewind_thread_to_entry, write_remote_code_byte,
  read_remote_entry_point, exception_breakpoint,
}
use ffb_interceptor_visualiz.Launcher.Debug.Reach.{pause_after_loader_initialization_reaches}
use ffb_interceptor_visualiz.Launcher.Debug.Entry.{Leaves, pause_after_loader_initialization-Leaves}

abbrev game : Game
game = record { code = λ a. 144; position = 0; suspended = 0 }

abbrev machine : Machine
machine = record { bits = 64; optional_magic = 0x20b }

abbrev turn : Happening → Turn
turn happening = record {
  event = some (record { thread_id = 5; happening = happening });
  dos = some (record { magic = 0x5a4d; lfanew = 128 });
  nt = some (record {
    signature = 0x4550;
    magic = 0x20b;
    address_of_entry_point = 4096;
    size_of_image = 65536;
  });
  reads = true;
  writing = record { opens = true; writes = true; flushes = true; restores = true };
  gets_context = true;
  sets_context = true;
  suspends = true;
  continues = true;
}

abbrev turns : List Turn
turns =
    turn (create_process 0x400000 (103 ∷ []))
    ∷ turn (raises exception_breakpoint 0x700010)
    ∷ turn (raises exception_breakpoint 0x401000)
    ∷ []

pause_returned : (pause_after_loader_initialization machine 5 turns game).0 ≡ true
unfolding pause_after_loader_initialization pause_loop observe_debug_event observe
    record_debug_module file_name behind_last handle read_remote_entry_point arm_entry_breakpoint
    write_remote_code_byte entry_turn restore_entry_breakpoint rewind_thread_to_entry
pause_returned = refl

pause_after_loader_initialization-Leaves_example :
    Leaves game (pause_after_loader_initialization machine 5 turns game)
pause_after_loader_initialization-Leaves_example =
    pause_after_loader_initialization-Leaves machine 5 turns game

-- Newest first: a module is unloaded, and another one is loaded at its base.
abbrev happenings : List Happening
happenings =
    load_dll 16 (98 ∷ []) ∷ unload_dll 16 ∷ load_dll 16 (97 ∷ []) ∷ load_dll 32 (99 ∷ []) ∷ []

lookup-observe_all_example : lookup 16 (observe_all happenings).modules ≡ located 16 happenings
lookup-observe_all_example = lookup-observe_all 16 happenings (omega arith)

reloaded : located 16 happenings ≡ some (98 ∷ [])
unfolding located
reloaded = refl

initial_found :
    read_remote_entry_point machine 0x400000 (turn (raises exception_breakpoint 0x700010))
    ≡ some 0x401000
unfolding read_remote_entry_point
initial_found = refl

pause_after_loader_initialization_reaches_example :
    (pause_after_loader_initialization machine 5
      (turn (create_process 0x400000 (103 ∷ []))
        ∷ ((turn (load_dll 0x700000 (107 ∷ [])) ∷ [])
            ++ (turn (raises exception_breakpoint 0x700010)
                ∷ ([] ++ turn (raises exception_breakpoint 0x401000) ∷ []))))
      game).0
    ≡ true
pause_after_loader_initialization_reaches_example =
    pause_after_loader_initialization_reaches machine 5 5 0x700010 0x401000 0x400000 (103 ∷ []) game
      (turn (create_process 0x400000 (103 ∷ []))) (turn (raises exception_breakpoint 0x700010))
      (turn (raises exception_breakpoint 0x401000)) (turn (load_dll 0x700000 (107 ∷ [])) ∷ []) []
      refl refl refl refl initial_found refl refl refl refl
