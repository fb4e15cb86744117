-- ===== src/Manager/Integrity.antt =====
-- verify_package_integrity of launcher/manager_model.cpp. What the file system answers is a record,
-- and an issue is the path that it names.
mod Loops
pub mod Valid
mod Runs
use ffb_interceptor_visualiz.Common.{
  ℕ, zero, suc, ◌+◌, ◌-◌, ◌*◌, Bool, true, false, ◌&&◌, ◌||◌, not, List, [], ◌∷◌, ◌++◌, map, Option,
  none, some, leb, ltb, ◌==◌, if◌then◌else◌, length, all,
}
use ffb_interceptor_visualiz.Manager.Elevated.{Text, text_eq, path_is_absolute_local}
use ffb_interceptor_visualiz.Manager.Paths.{is_empty, ends_in}
use ffb_interceptor_visualiz.Manager.Manifest.{ManifestEntry, is_seen, key_of, parse_manifest_text}

-- GetFileAttributesExW: whether the file is a directory or a reparse point, and its size.
pub record Attributes : Type 0 where
  pub redirects : Bool
  pub size : ℕ

pub record Files : Type 0 where
  pub lower : ℕ → ℕ
  pub upper : ℕ → ℕ
  pub same : Text → Text → Bool
  pub drive_type : Text → ℕ
  pub read_file_limited : Text → Option Text
  pub enumerate_package_files : Text → Option (List Text)
  pub attributes : Text → Option Attributes
  pub sha256_file : (path package_root : Text) → Option Text

pub record PackageLayout : Type 0 where
  pub root : Text
  pub manifest_path : Text

pub record IntegrityReport : Type 0 where
  pub valid : Bool
  pub verified_files : ℕ
  pub issues : List Text

unfoldable pub join_path : (left right : Text) → Text
unfolding ends_in
join_path left right =
    if is_empty left
    then right
    else if is_empty right
    then left
    else if ends_in 92 left || ends_in 47 left
    then left ++ right
    else left ++ 92 ∷ right

-- SHA256SUMS.txt
abbrev pub manifest_name : Text
manifest_name = 83 ∷ 72 ∷ 65 ∷ 50 ∷ 53 ∷ 54 ∷ 83 ∷ 85 ∷ 77 ∷ 83 ∷ 46 ∷ 116 ∷ 120 ∷ 116 ∷ []

abbrev pub max_issues : ℕ
max_issues = 32

abbrev pub max_hashed_file_bytes : ℕ
max_hashed_file_bytes = 512 * 1024 * 1024

abbrev pub max_package_bytes : ℕ
max_package_bytes = 1024 * 1024 * 1024

-- The files that the code names:
-- FFBInterceptor.Manager.exe
-- Install-SimHubPlugin.ps1
-- Uninstall-SimHubPlugin.ps1
-- FFBInterceptor.Common.ps1
-- launcher\x86\FFBInterceptor.Launcher.exe
-- launcher\x86\FFBInterceptor.Hook.dll
-- launcher\x64\FFBInterceptor.Launcher.exe
-- launcher\x64\FFBInterceptor.Hook.dll
-- simhub\FFBInterceptor.Core.dll
-- simhub\FFBInterceptor.SimHub.dll
-- Start-FFBInterceptor.ps1
abbrev pub required_files : List Text
required_files =
    (70 ∷ 70 ∷ 66 ∷ 73 ∷ 110 ∷ 116 ∷ 101 ∷ 114 ∷ 99 ∷ 101 ∷ 112 ∷ 116 ∷ 111 ∷ 114 ∷ 46 ∷ 77 ∷ 97
      ∷ 110 ∷ 97 ∷ 103 ∷ 101 ∷ 114 ∷ 46 ∷ 101 ∷ 120 ∷ 101 ∷ [])
    ∷ (73 ∷ 110 ∷ 115 ∷ 116 ∷ 97 ∷ 108 ∷ 108 ∷ 45 ∷ 83 ∷ 105 ∷ 109 ∷ 72 ∷ 117 ∷ 98 ∷ 80 ∷ 108 ∷ 117
        ∷ 103 ∷ 105 ∷ 110 ∷ 46 ∷ 112 ∷ 115 ∷ 49 ∷ [])
    ∷ (85 ∷ 110 ∷ 105 ∷ 110 ∷ 115 ∷ 116 ∷ 97 ∷ 108 ∷ 108 ∷ 45 ∷ 83 ∷ 105 ∷ 109 ∷ 72 ∷ 117 ∷ 98 ∷ 80
        ∷ 108 ∷ 117 ∷ 103 ∷ 105 ∷ 110 ∷ 46 ∷ 112 ∷ 115 ∷ 49 ∷ [])
    ∷ (70 ∷ 70 ∷ 66 ∷ 73 ∷ 110 ∷ 116 ∷ 101 ∷ 114 ∷ 99 ∷ 101 ∷ 112 ∷ 116 ∷ 111 ∷ 114 ∷ 46 ∷ 67 ∷ 111
        ∷ 109 ∷ 109 ∷ 111 ∷ 110 ∷ 46 ∷ 112 ∷ 115 ∷ 49 ∷ [])
    ∷ (108 ∷ 97 ∷ 117 ∷ 110 ∷ 99 ∷ 104 ∷ 101 ∷ 114 ∷ 92 ∷ 120 ∷ 56 ∷ 54 ∷ 92 ∷ 70 ∷ 70 ∷ 66 ∷ 73
        ∷ 110 ∷ 116 ∷ 101 ∷ 114 ∷ 99 ∷ 101 ∷ 112 ∷ 116 ∷ 111 ∷ 114 ∷ 46 ∷ 76 ∷ 97 ∷ 117 ∷ 110 ∷ 99
        ∷ 104 ∷ 101 ∷ 114 ∷ 46 ∷ 101 ∷ 120 ∷ 101 ∷ [])
    ∷ (108 ∷ 97 ∷ 117 ∷ 110 ∷ 99 ∷ 104 ∷ 101 ∷ 114 ∷ 92 ∷ 120 ∷ 56 ∷ 54 ∷ 92 ∷ 70 ∷ 70 ∷ 66 ∷ 73
        ∷ 110 ∷ 116 ∷ 101 ∷ 114 ∷ 99 ∷ 101 ∷ 112 ∷ 116 ∷ 111 ∷ 114 ∷ 46 ∷ 72 ∷ 111 ∷ 111 ∷ 107 ∷ 46
        ∷ 100 ∷ 108 ∷ 108 ∷ [])
    ∷ (108 ∷ 97 ∷ 117 ∷ 110 ∷ 99 ∷ 104 ∷ 101 ∷ 114 ∷ 92 ∷ 120 ∷ 54 ∷ 52 ∷ 92 ∷ 70 ∷ 70 ∷ 66 ∷ 73
        ∷ 110 ∷ 116 ∷ 101 ∷ 114 ∷ 99 ∷ 101 ∷ 112 ∷ 116 ∷ 111 ∷ 114 ∷ 46 ∷ 76 ∷ 97 ∷ 117 ∷ 110 ∷ 99
        ∷ 104 ∷ 101 ∷ 114 ∷ 46 ∷ 101 ∷ 120 ∷ 101 ∷ [])
    ∷ (108 ∷ 97 ∷ 117 ∷ 110 ∷ 99 ∷ 104 ∷ 101 ∷ 114 ∷ 92 ∷ 120 ∷ 54 ∷ 52 ∷ 92 ∷ 70 ∷ 70 ∷ 66 ∷ 73
        ∷ 110 ∷ 116 ∷ 101 ∷ 114 ∷ 99 ∷ 101 ∷ 112 ∷ 116 ∷ 111 ∷ 114 ∷ 46 ∷ 72 ∷ 111 ∷ 111 ∷ 107 ∷ 46
        ∷ 100 ∷ 108 ∷ 108 ∷ [])
    ∷ (115 ∷ 105 ∷ 109 ∷ 104 ∷ 117 ∷ 98 ∷ 92 ∷ 70 ∷ 70 ∷ 66 ∷ 73 ∷ 110 ∷ 116 ∷ 101 ∷ 114 ∷ 99 ∷ 101
        ∷ 112 ∷ 116 ∷ 111 ∷ 114 ∷ 46 ∷ 67 ∷ 111 ∷ 114 ∷ 101 ∷ 46 ∷ 100 ∷ 108 ∷ 108 ∷ [])
    ∷ (115 ∷ 105 ∷ 109 ∷ 104 ∷ 117 ∷ 98 ∷ 92 ∷ 70 ∷ 70 ∷ 66 ∷ 73 ∷ 110 ∷ 116 ∷ 101 ∷ 114 ∷ 99 ∷ 101
        ∷ 112 ∷ 116 ∷ 111 ∷ 114 ∷ 46 ∷ 83 ∷ 105 ∷ 109 ∷ 72 ∷ 117 ∷ 98 ∷ 46 ∷ 100 ∷ 108 ∷ 108 ∷ [])
    ∷ (83 ∷ 116 ∷ 97 ∷ 114 ∷ 116 ∷ 45 ∷ 70 ∷ 70 ∷ 66 ∷ 73 ∷ 110 ∷ 116 ∷ 101 ∷ 114 ∷ 99 ∷ 101 ∷ 112
        ∷ 116 ∷ 111 ∷ 114 ∷ 46 ∷ 112 ∷ 115 ∷ 49 ∷ [])
    ∷ []

-- A report that fails at once.
abbrev pub failed : List Text → IntegrityReport
failed issues = record { valid = false; verified_files = 0; issues = issues }

-- The loop over the files that are there, with the issues so far: it breaks at 32.
unfoldable pub find_unlisted :
    (lower : ℕ → ℕ) → (keys : List Text) → List Text → List Text → List Text
unfolding is_seen
find_unlisted lower keys [] issues = issues
find_unlisted lower keys (actual ∷ rest) issues =
    let go_on = find_unlisted lower keys rest issues in
    let add = issues ++ actual ∷ [] in
    let add_and_go_on = find_unlisted lower keys rest add in
    if is_seen (map lower actual) keys
    then go_on
    else if leb max_issues (length add)
    then add
    else add_and_go_on

-- The loop over the files that must be listed.
unfoldable pub find_missing :
    (lower : ℕ → ℕ) → (keys : List Text) → List Text → List Text → List Text
unfolding is_seen
find_missing lower keys [] issues = issues
find_missing lower keys (path ∷ rest) issues =
    find_missing lower keys rest
      (if is_seen (map lower path) keys then issues else issues ++ path ∷ [])

-- The state of the loop over the entries.
pub record Verification : Type 0 where
  pub issues : List Text
  pub verified_files : ℕ
  pub package_bytes : ℕ

abbrev pub add_issue : Text → Verification → Verification
add_issue path v = record v { issues = v.issues ++ path ∷ [] }

-- What one turn leaves, and whether it breaks before the test at the loop's end.
abbrev pub hashed : Files → ManifestEntry → Option Text → Verification → Verification
hashed files entry none v = add_issue entry.relative_path v
hashed files entry (some actual) v =
    if not (files.same actual entry.sha256)
    then add_issue entry.relative_path v
    else record v { verified_files = v.verified_files + 1 }

abbrev pub attributes_checked :
    Files → (root : Text) → ManifestEntry → Option Attributes → Verification → Bool × Verification
attributes_checked files root entry none v = (false, add_issue entry.relative_path v)
attributes_checked files root entry (some attributes) v =
    if attributes.redirects
    then (false, add_issue entry.relative_path v)
    else if ltb max_hashed_file_bytes attributes.size
        || ltb (max_package_bytes - attributes.size) v.package_bytes
    then (true, add_issue entry.relative_path v)
    else (
      false,
      hashed files entry (files.sha256_file (join_path root entry.relative_path) root)
          (record v { package_bytes = v.package_bytes + attributes.size }),
    )

unfoldable pub verify_entry :
    Files → (root : Text) → ManifestEntry → Verification → Bool × Verification
unfolding join_path
verify_entry files root entry v =
    attributes_checked files root entry (files.attributes (join_path root entry.relative_path)) v

abbrev pub continue_with : Bool × Verification → (Verification → Verification) → Verification
continue_with (breaks, v) rest = if breaks || leb max_issues (length v.issues) then v else rest v

unfoldable pub verify_entries :
    Files → (root : Text) → List ManifestEntry → Verification → Verification
unfolding verify_entry
verify_entries files root [] v = v
verify_entries files root (entry ∷ entries) v =
    continue_with (verify_entry files root entry v) (verify_entries files root entries)

abbrev pub start_verification : Verification
start_verification = record { issues = []; verified_files = 0; package_bytes = 0 }

abbrev pub is_clean : List Text → Bool
is_clean [] = true
is_clean (issue ∷ issues) = false

abbrev pub entries_verified : Files → (root : Text) → List ManifestEntry → IntegrityReport
entries_verified files root entries =
    let v = verify_entries files root entries start_verification in
    record {
      valid = is_clean v.issues && v.verified_files == length entries;
      verified_files = v.verified_files;
      issues = v.issues;
    }

abbrev pub files_covered : Files → (root : Text) → List ManifestEntry → List Text → IntegrityReport
files_covered files root entries actual_files =
    let keys = map (key_of files.lower files.upper) entries in
    let unlisted = find_unlisted files.lower keys actual_files [] in
    let missing = find_missing files.lower keys required_files [] in
    if not (is_clean unlisted)
    then failed unlisted
    else if not (is_clean missing)
    then failed missing
    else entries_verified files root entries

abbrev pub files_checked :
    Files → (root : Text) → List ManifestEntry → Option (List Text) → IntegrityReport
files_checked files root entries none = failed (manifest_name ∷ [])
files_checked files root entries (some actual_files) =
    if not (length actual_files == length entries)
    then failed (manifest_name ∷ [])
    else files_covered files root entries actual_files

abbrev pub manifest_checked : Files → (root : Text) → Option (List ManifestEntry) → IntegrityReport
manifest_checked files root none = failed (manifest_name ∷ [])
manifest_checked files root (some entries) =
    files_checked files root entries (files.enumerate_package_files root)

abbrev pub contents_checked : Files → (root : Text) → Option Text → IntegrityReport
contents_checked files root none = failed (manifest_name ∷ [])
contents_checked files root (some contents) =
    manifest_checked files root (parse_manifest_text files.lower files.upper contents)

unfoldable pub verify_package_integrity : Files → PackageLayout → IntegrityReport
unfolding parse_manifest_text find_unlisted find_missing verify_entries path_is_absolute_local
verify_package_integrity files layout =
    if is_empty layout.root
    then failed (manifest_name ∷ [])
    else if not (path_is_absolute_local files.drive_type layout.root)
    then failed (manifest_name ∷ [])
    else contents_checked files layout.root (files.read_file_limited layout.manifest_path)
