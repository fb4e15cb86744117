-- ===== src/Manager/Lock.antt =====
-- acquire_package_read_lock of launcher/manager_model.cpp, without its error texts. A handle has
-- the number of the CreateFileW that has opened it, and what Windows tells of it.
pub mod Handles
pub mod Locked
pub mod Package
mod Runs
use ffb_interceptor_visualiz.Common.{
  ℕ, zero, suc, ◌+◌, Bool, true, false, ◌&&◌, ◌||◌, not, List, [], ◌∷◌, ◌++◌, map, Option, none,
  some, leb, ltb, ◌==◌, if◌then◌else◌, length, take,
}
use ffb_interceptor_visualiz.Manager.Elevated.{Text, text_eq, path_is_absolute_local}
use ffb_interceptor_visualiz.Manager.Paths.{is_empty}
use ffb_interceptor_visualiz.Manager.Manifest.{ManifestEntry, is_seen, parse_manifest_text}
use ffb_interceptor_visualiz.Manager.Integrity.{PackageLayout, join_path}
use ffb_interceptor_visualiz.Launcher.Paths.{trim_slashes}

-- GetFileInformationByHandle
pub record Information : Type 0 where
  pub is_directory : Bool
  pub is_reparse_point : Bool

pub record Handle : Type 0 where
  pub number : ℕ
  pub path : Text
  pub information : Option Information
  pub final_path : Option Text

-- What CreateFileW answers depends on how many handles have been opened before. `same` is _wcsicmp
-- with the result 0.
pub record Disk : Type 0 where
  pub lower : ℕ → ℕ
  pub upper : ℕ → ℕ
  pub same : Text → Text → Bool
  pub drive_type : Text → ℕ
  pub create_file :
      (opened : ℕ) → (path : Text) → (directory : Bool) → Option (Option Information × Option Text)
  pub read_file_limited : Text → Option Text

-- handles_ of PackageReadLock, and the handles that have been opened and closed.
pub record PackageReadLock : Type 0 where
  pub handles : List Handle
  pub opened : ℕ
  pub closed : List ℕ

abbrev pub numbers : List Handle → List ℕ
numbers = map λ h. h.number

abbrev pub clear : PackageReadLock → PackageReadLock
clear s = record s { handles = []; closed = s.closed ++ numbers s.handles }

unfoldable pub starts_with_case_insensitive :
    (same : Text → Text → Bool) → (value prefix : Text) → Bool
starts_with_case_insensitive same value prefix =
    leb (length prefix) (length value) && same (take (length prefix) value) prefix

unfoldable pub path_within_or_equal : (same : Text → Text → Bool) → (path directory : Text) → Bool
unfolding starts_with_case_insensitive trim_slashes
path_within_or_equal same path directory =
    if same path directory
    then true
    else starts_with_case_insensitive same path (trim_slashes directory ++ 92 ∷ [])

-- With the variables of the function.
pub record Locking : Type 0 where
  pub lock : PackageReadLock
  pub locked_root : Text
  pub locked_directories : List Text

abbrev pub and_then : Bool × Locking → (Locking → Bool × Locking) → Bool × Locking
and_then (ok, s) next = if ok then next s else (false, s)

-- !=
abbrev pub differs : Bool → Bool → Bool
differs true directory = not directory
differs false directory = directory

module _ (disk : Disk) where
  -- The new locked_root, if the final path is accepted.
  abbrev pub final_accepted : (require_within_root : Bool) → (root final_path : Text) → Option Text
  final_accepted require_within_root root final_path =
      if require_within_root
      then (if is_empty root || not (path_within_or_equal disk.same final_path root)
          then none
          else some root)
      else if not (path_is_absolute_local disk.drive_type final_path)
      then none
      else some final_path

  unfoldable pub accepted :
      (directory require_within_root : Bool)
      → (root : Text) → Option Information
      → Option Text
      → Option Text
  unfolding path_within_or_equal path_is_absolute_local
  accepted directory require root none final_path = none
  accepted directory require root (some information) none = none
  accepted directory require root (some information) (some final_path) =
      if information.is_reparse_point || differs information.is_directory directory
      then none
      else final_accepted require root final_path

  -- A refused handle is closed where the function returns.
  abbrev pub keep : Handle → Option Text → Locking → Bool × Locking
  keep handle none s = (
    false,
    record s {
      lock = record s.lock {
        opened = suc s.lock.opened;
        closed = s.lock.closed ++ handle.number ∷ [];
      };
    },
  )
  keep handle (some root) s = (
    true,
    record s {
      lock = record s.lock { opened = suc s.lock.opened; handles = s.lock.handles ++ handle ∷ [] };
      locked_root = root;
    },
  )

  abbrev pub opened_path :
      (path : Text)
      → (directory require_within_root : Bool) → Option (Option Information × Option Text)
      → Locking
      → Bool × Locking
  opened_path path directory require none s = (false, s)
  opened_path path directory require (some (information, final_path)) s =
      keep
        (record {
          number = s.lock.opened;
          path = path;
          information = information;
          final_path = final_path;
        })
        (accepted directory require s.locked_root information final_path) s

  unfoldable pub lock_path :
      (path : Text) → (directory require_within_root : Bool) → Locking → Bool × Locking
  unfolding accepted
  lock_path path directory require s =
      opened_path path directory require (disk.create_file s.lock.opened path directory) s

  -- The parts of a path that end before a separator.
  unfoldable pub directories_of : Text → List Text
  directories_of [] = []
  directories_of (c ∷ cs) =
      let rest = map (λ (directory : Text). c ∷ directory) (directories_of cs) in
      if c == 92 then [] ∷ rest else rest

  abbrev pub lock_directory : (root relative_directory : Text) → Locking → Bool × Locking
  lock_directory root relative_directory s =
      let key = map disk.lower relative_directory in
      if is_seen key s.locked_directories
      then (true, s)
      else lock_path (join_path root relative_directory) true true
          (record s { locked_directories = s.locked_directories ++ key ∷ [] })

  unfoldable pub lock_directories : (root : Text) → List Text → Locking → Bool × Locking
  unfolding lock_path is_seen join_path
  lock_directories root [] s = (true, s)
  lock_directories root (directory ∷ directories) s =
      and_then (lock_directory root directory s) (lock_directories root directories)

  unfoldable pub lock_entry : (root : Text) → ManifestEntry → Locking → Bool × Locking
  unfolding lock_directories directories_of lock_path join_path
  lock_entry root entry s =
      and_then (lock_directories root (directories_of entry.relative_path) s)
        (lock_path (join_path root entry.relative_path) false true)

  unfoldable pub lock_entries : (root : Text) → List ManifestEntry → Locking → Bool × Locking
  unfolding lock_entry
  lock_entries root [] s = (true, s)
  lock_entries root (entry ∷ entries) s =
      and_then (lock_entry root entry s) (lock_entries root entries)

  abbrev pub lock_parsed : (root : Text) → Option (List ManifestEntry) → Locking → Bool × Locking
  lock_parsed root none s = (false, s)
  lock_parsed root (some entries) s = lock_entries root entries s

  abbrev pub parse_read : Option Text → Option (List ManifestEntry)
  parse_read none = none
  parse_read (some contents) = parse_manifest_text disk.lower disk.upper contents

  abbrev pub lock_contents : PackageLayout → Locking → Bool × Locking
  lock_contents layout s =
      lock_parsed layout.root (parse_read (disk.read_file_limited layout.manifest_path)) s

  abbrev pub lock_manifest : PackageLayout → Locking → Bool × Locking
  lock_manifest layout s =
      and_then (lock_path layout.manifest_path false true s) (lock_contents layout)

  unfoldable pub lock_package : PackageLayout → Locking → Bool × Locking
  unfolding lock_path lock_entries parse_manifest_text
  lock_package layout s = and_then (lock_path layout.root true false s) (lock_manifest layout)

  -- Every failure behind the first test clears the lock.
  abbrev pub cleared : Bool × Locking → Bool × PackageReadLock
  cleared (true, s) = (true, s.lock)
  cleared (false, s) = (false, clear s.lock)

  unfoldable pub acquire_into : PackageLayout → PackageReadLock → Bool × PackageReadLock
  unfolding lock_package path_is_absolute_local
  acquire_into layout s =
      if not (path_is_absolute_local disk.drive_type layout.root)
      then (false, s)
      else cleared (
          lock_package layout
            (record { lock = clear s; locked_root = []; locked_directories = [] }))

  -- The lock is `none` where package_lock is a null pointer.
  unfoldable pub acquire_package_read_lock :
      PackageLayout → Option PackageReadLock → Bool × Option PackageReadLock
  unfolding acquire_into
  acquire_package_read_lock layout none = (false, none)
  acquire_package_read_lock layout (some s) = let (ok, t) = acquire_into layout s in (ok, some t)
