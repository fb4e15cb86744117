-- ===== src/Lib.antt =====
-- FFB Interceptor: the C++ parts of the program, modelled from the source.
--
-- The hook DLL (src/) wraps DirectInput 8 in the game's process and reports each force-feedback
-- command as an `Event`. Telemetry::emit stamps an event with a sequence number and queues it for
-- two sinks; each sink has a sender thread that drains its queue, sorts the batch and writes frames
-- to a named pipe, with a drop notice whenever the sink's loss counter has changed.
--
-- - Wire (src/telemetry_protocol.h, src/telemetry_protocol.cpp): the event (Wire/Model), the put_
--   functions (Wire/Writer), serialize_event and valid_frame (Wire/Frame). Wire/Reader is a reader of
--   protocol-v1 frames as docs/protocol-v1.md lays them out; Wire/Agree has the rules by which a
--   writer and a reader agree, Wire/Groups and Wire/RoundTrip apply them, Wire/Flags and Wire/Size
--   have the arithmetic of the header bits and of the size. A byte vector or a frame is a list of
--   numbers, so that no frame is null; a
--   std::int32_t is an integer written as its bit pattern. copy_utf8_truncated is in Wire/Text;
--   Wire/Truncation follows its loop through code points, and Wire/Copy has what the call leaves.
--   The caller's DIEFFECT is in Wire/Effect: words behind pointers, of which only so many can be read
--   before the read faults, while the fields of a DIEFFECT itself can be read once its size has
--   been; fill_effect_parameters is in Wire/Parameters, with the sizes of the two
--   DIEFFECT versions as arguments, and effect_kind_from_guid in Wire/Kinds, with the GUIDs of
--   dinput.h as an argument.
-- - Telemetry (src/telemetry.h, src/telemetry.cpp): the interlocked lists of a sink (Telemetry/Queue),
--   the sender thread of Telemetry::run (Telemetry/Worker) and both workers with the sequence counter,
--   the emit lock and emit() (Telemetry/System). A run is a list of actions, each an atomic step of
--   one thread, so every interleaving is a run; whether a pipe call succeeds is part of the action.
--   The interlocked lists are stacks, and std::sort is an insertion sort by the sequence number. The
--   64-bit counters wrap as in the code; the theorems about runs ask for fewer than 2 ^ 64 steps, so
--   that none does. There, a walk over a whole list is one step, which the order of the frames does
--   not depend on. Telemetry/Threads has one sink's lists and its loss counter with each interlocked
--   call as a step of its own, and Telemetry/Threads/Account follows its nodes and its events. The
--   fields `offered` and `delivered` are books of the model.
-- - DirectInput (src/wrapper_effect.cpp, src/wrapper_device8.cpp, src/wrapper_dinput8.cpp):
--   WrapperEffect with its registry and reference counts, and the callback of enumerations (DirectInput/Effect); any sequence of calls to
--   effects (DirectInput/Effect/Calls), where a call is legal if its caller holds a reference to its
--   object and an address is given out only while no object stands there; QueryInterface is among the
--   calls, and `held` and `created` are books of the model; the methods of WrapperDevice8 that report (DirectInput/Device) and
--   CreateEffect (DirectInput/Device/Create); WrapperDevice8State and publish_or_add_ref
--   (DirectInput/Publish); and WrapperDirectInput8::CreateDevice (DirectInput/CreateDevice), of which
--   product_name is an argument. A pointer is a number; what the real object returns, what `new` gives and
--   what QueryInterface finds are arguments of each call. A registry changes under its lock, so a
--   call is one step.
-- - ImportTable (src/iat_hook.cpp): a module's memory is bytes of which a part is mapped, and a read
--   behind that part is the exception that patch_direct_input8_imports catches. ImportTable has
--   patch_pointer and the entries of one import table, ImportTable/Modules the headers, the
--   descriptors and the loaded modules; ImportTable/Patching, ImportTable/Descriptors and
--   ImportTable/Image follow a patch through them. The loops have their own bounds. A descriptor's
--   fields are read once, although the code reads some again while it patches.
-- - Launcher (launcher/injector.cpp, of which launcher/manager_model.cpp has a copy): quote_argument
--   and build_command_line (Launcher/Quote). Launcher/Quote/Words splits a command line by the
--   documented rules; Launcher/Quote/RoundTrip follows it through one quoted argument and
--   Launcher/Quote/Command through the line. Its fuel is the length of the line and one more, which
--   is enough as every argument takes a character at least.
--   launch_offline_game is in Launcher/Launch, with what Windows answers in the order of the calls as a
--   record, and with a list of what the launcher asks for as its effect. Its two loops over debug
--   events are in Launcher/Debug: a loop takes a list of turns, one for each event with the answers
--   of that turn, and the list ends where the deadline has passed. Launcher/Modules has the table of
--   modules, Launcher/Paths the tests on paths (_wcsicmp is an argument), Launcher/Architecture the
--   reader of PE headers (launcher/pe_arch.cpp). The game's code is what the launcher writes to it;
--   that no other thread writes at the entry point is assumed. Launcher/Launch/Checks and
--   Launcher/Launch/Safety follow a launch, Launcher/Debug/Entry and Launcher/Debug/Reach the first
--   loop, Launcher/Modules/Table the table.
-- - Manager (launcher/manager_model.h, launcher/manager_model.cpp): the parser of the elevated helper's
--   arguments (Manager/Elevated), without its error texts, and the command lines that it takes as a data type
--   (Manager/Elevated/Grammar). GetDriveTypeW is an argument of it.
--   normalize_manifest_path is in Manager/Paths, over the bytes of the path and with std::toupper of
--   the C locale; Manager/Paths/Reference splits the path first, and Manager/Paths/Stable
--   splits the result.
--   Manager/Manifest is parse_manifest_text, whose loop takes the lines as a list (Manager/Manifest/Lines
--   follows it); Manager/Integrity is verify_package_integrity, with what the file system answers as a
--   record (Manager/Integrity/Loops, Manager/Integrity/Valid); Manager/Signatures is
--   evaluate_signature_policy and verify_package_signatures (Manager/Signatures/Policy and
--   Manager/Signatures/Signed). Manager/Lock is acquire_package_read_lock, where a handle has what
--   Windows tells of it (Manager/Lock/Handles counts the handles, Manager/Lock/Locked and
--   Manager/Lock/Package say what is held). Manager/Redact is
--   redact_user_path: Manager/Redact/Find is about std::wstring::find, Manager/Redact/Ends about the
--   loop, whose fuel is the length of the text and one more, as the part of the text that is still to
--   be read gets shorter with each turn. Manager/Environment puts the environment of the helper's
--   PowerShell together and Manager/Environment/Block reads it back. std::towlower, std::towupper,
--   _wcsicmp, the reading of a file, SHA-256 and what WinVerifyTrust says are arguments. An issue of a report is its path, without its text.
--
-- Not modelled: the Windows calls themselves; the manager's window, its profiles in the registry, the
-- search for the package's root and the list of its files; the DLL entry points; and the parts written
-- in C#, Python and PowerShell.
pub mod Common
pub mod Wire
pub mod Telemetry
pub mod Launcher
pub mod Manager
pub mod DirectInput
pub mod ImportTable
