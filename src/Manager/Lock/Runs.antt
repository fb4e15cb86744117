-- ===== src/Manager/Lock/Runs.antt =====
-- A package with one file in a directory is locked; one whose file cannot be opened is not.
use ffb_interceptor_visualiz.Common.{
  ℕ, ◌≡◌, refl, Bool, true, false, [], ◌∷◌, ◌++◌, none, some, ◌==◌, if◌then◌else◌, replicate, arith,
}
use ffb_interceptor_visualiz.Launcher.Paths.{trim_slashes}
use ffb_interceptor_visualiz.Manager.Elevated.{Text, text_eq, path_is_absolute_local}
use ffb_interceptor_visualiz.Manager.Paths.{
  normalize_manifest_path, normalize_from, advance, flush_segment, append_segment, is_forbidden,
  is_malformed, ends_in, contains, is_device, numbered_device, device_name, before_dot, trim_spaces,
  to_upper, is_refused,
}
use ffb_interceptor_visualiz.Manager.Manifest.{
  parse_manifest_text, parse_lines, parse_line, lines_of, without_return, is_entry_line, is_seen,
}
use ffb_interceptor_visualiz.Manager.Integrity.{PackageLayout, join_path}
use ffb_interceptor_visualiz.Manager.Lock.{
  Handle, Disk, PackageReadLock, starts_with_case_insensitive, path_within_or_equal, accepted,
  lock_path, directories_of, lock_directories, lock_entry, lock_entries, lock_package, acquire_into,
  acquire_package_read_lock,
}
use ffb_interceptor_visualiz.Manager.Lock.Handles.{IsCounted, acquire_package_read_lock_counts}
use ffb_interceptor_visualiz.Manager.Lock.Package.{
  PackageIsLocked, acquire_package_read_lock-PackageIsLocked,
}

-- a/b
abbrev disk : Disk
disk = record {
  lower = λ c. c;
  upper = λ c. c;
  same = text_eq;
  drive_type = λ root. 3;
  create_file = λ opened path directory.
      some (some (record { is_directory = directory; is_reparse_point = false }), some path);
  read_file_limited = λ path. some (replicate 64 48 ++ 32 ∷ 32 ∷ 97 ∷ 47 ∷ 98 ∷ []);
}

-- The fourth handle cannot be opened.
abbrev busy : Disk
busy = record disk {
  create_file = λ opened path directory.
      if opened == 3
      then none
      else some (some (record { is_directory = directory; is_reparse_point = false }), some path);
}

abbrev root : Text
root = 67 ∷ 58 ∷ 92 ∷ 112 ∷ []

abbrev layout : PackageLayout
layout = record { root = root; manifest_path = root ++ 92 ∷ 109 ∷ [] }

abbrev fresh : PackageReadLock
fresh = record { handles = []; opened = 0; closed = [] }

abbrev handle : ℕ → Text → Bool → Handle
handle n path directory = record {
  number = n;
  path = path;
  information = some (record { is_directory = directory; is_reparse_point = false });
  final_path = some path;
}

abbrev locked : PackageReadLock
locked = record {
  handles =
      handle 0 root true
      ∷ handle 1 (root ++ 92 ∷ 109 ∷ []) false
      ∷ handle 2 (root ++ 92 ∷ 97 ∷ []) true
      ∷ handle 3 (root ++ 92 ∷ 97 ∷ 92 ∷ 98 ∷ []) false
      ∷ [];
  opened = 4;
  closed = [];
}

package_locked : acquire_package_read_lock disk layout (some fresh) ≡ (true, some locked)
unfolding acquire_package_read_lock acquire_into lock_package lock_entries lock_entry
    lock_directories directories_of lock_path accepted path_within_or_equal
    starts_with_case_insensitive trim_slashes join_path path_is_absolute_local parse_manifest_text
    parse_lines parse_line lines_of without_return is_entry_line is_seen normalize_manifest_path
    normalize_from advance flush_segment append_segment is_forbidden is_malformed ends_in contains
    is_device numbered_device device_name before_dot trim_spaces to_upper is_refused text_eq
package_locked = refl

abbrev released : PackageReadLock
released = record { handles = []; opened = 3; closed = 0 ∷ 1 ∷ 2 ∷ [] }

package_busy : acquire_package_read_lock busy layout (some fresh) ≡ (false, some released)
unfolding acquire_package_read_lock acquire_into lock_package lock_entries lock_entry
    lock_directories directories_of lock_path accepted path_within_or_equal
    starts_with_case_insensitive trim_slashes join_path path_is_absolute_local parse_manifest_text
    parse_lines parse_line lines_of without_return is_entry_line is_seen normalize_manifest_path
    normalize_from advance flush_segment append_segment is_forbidden is_malformed ends_in contains
    is_device numbered_device device_name before_dot trim_spaces to_upper is_refused text_eq
package_busy = refl

fresh-IsCounted : IsCounted fresh
fresh-IsCounted i = ground arith

acquire_package_read_lock-PackageIsLocked_example : PackageIsLocked disk layout locked
acquire_package_read_lock-PackageIsLocked_example =
    acquire_package_read_lock-PackageIsLocked disk layout fresh locked package_locked

acquire_package_read_lock_counts_example :
    IsCounted released
    × (path_is_absolute_local busy.drive_type root ≡ true → false ≡ false → released.handles ≡ [])
acquire_package_read_lock_counts_example =
    acquire_package_read_lock_counts busy layout fresh released false fresh-IsCounted package_busy
