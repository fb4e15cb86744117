-- ===== src/Manager/Integrity/Runs.antt =====
-- A package with the required files, and one in which a file has another digest.
use ffb_interceptor_visualiz.Common.{◌≡◌, refl, true, false, List, [], ◌∷◌, ◌++◌, some, replicate}
use ffb_interceptor_visualiz.Manager.Elevated.{Text, text_eq, path_is_absolute_local}
use ffb_interceptor_visualiz.Manager.Paths.{
  normalize_manifest_path, normalize_from, advance, flush_segment, append_segment, is_forbidden,
  is_malformed, ends_in, contains, is_device, numbered_device, device_name, before_dot, trim_spaces,
  to_upper, is_refused,
}
use ffb_interceptor_visualiz.Manager.Manifest.{
  ManifestEntry, parse_manifest_text, parse_lines, parse_line, lines_of, without_return,
  is_entry_line, is_seen,
}
use ffb_interceptor_visualiz.Manager.Manifest.Lines.{IsManifest, parse_manifest_text-IsManifest}
use ffb_interceptor_visualiz.Manager.Integrity.{
  Files, PackageLayout, required_files, verify_package_integrity, find_unlisted, find_missing,
  verify_entries, verify_entry, join_path,
}
use ffb_interceptor_visualiz.Manager.Integrity.Valid.{IsIntact, verify_package_integrity-IsIntact}

abbrev digest : Text
digest = replicate 64 48

abbrev lines : List Text → Text
lines [] = []
lines (path ∷ paths) = (digest ++ 32 ∷ 32 ∷ path) ++ 13 ∷ 10 ∷ lines paths

abbrev files : Files
files = record {
  lower = λ c. c;
  upper = λ c. c;
  same = text_eq;
  drive_type = λ root. 3;
  read_file_limited = λ path. some (lines required_files);
  enumerate_package_files = λ root. some required_files;
  attributes = λ path. some (record { redirects = false; size = 10 });
  sha256_file = λ path root. some digest;
}

abbrev layout : PackageLayout
layout = record { root = 67 ∷ 58 ∷ 92 ∷ 112 ∷ []; manifest_path = 109 ∷ [] }

abbrev damaged : Files
damaged = record files { sha256_file = λ path root. some (replicate 64 49) }

package_valid : (verify_package_integrity files layout).valid ≡ true
unfolding verify_package_integrity path_is_absolute_local parse_manifest_text parse_lines parse_line
    lines_of without_return is_entry_line is_seen normalize_manifest_path normalize_from advance
    flush_segment append_segment is_forbidden is_malformed ends_in contains is_device
    numbered_device device_name before_dot trim_spaces to_upper is_refused text_eq find_unlisted
    find_missing verify_entries verify_entry join_path
package_valid = refl

damaged_refused : (verify_package_integrity damaged layout).verified_files ≡ 0
unfolding verify_package_integrity path_is_absolute_local parse_manifest_text parse_lines parse_line
    lines_of without_return is_entry_line is_seen normalize_manifest_path normalize_from advance
    flush_segment append_segment is_forbidden is_malformed ends_in contains is_device
    numbered_device device_name before_dot trim_spaces to_upper is_refused text_eq find_unlisted
    find_missing verify_entries verify_entry join_path
damaged_refused = refl

verify_package_integrity-IsIntact_example : IsIntact files layout
verify_package_integrity-IsIntact_example =
    verify_package_integrity-IsIntact files layout package_valid

-- a/b
abbrev one_line : Text
one_line = digest ++ 32 ∷ 32 ∷ 97 ∷ 47 ∷ 98 ∷ []

abbrev one_entry : ManifestEntry
one_entry = record { relative_path = 97 ∷ 92 ∷ 98 ∷ []; sha256 = digest }

one_parsed : parse_manifest_text (λ c. c) (λ c. c) one_line ≡ some (one_entry ∷ [])
unfolding parse_manifest_text parse_lines parse_line lines_of without_return is_entry_line is_seen
    normalize_manifest_path normalize_from advance flush_segment append_segment is_forbidden
    is_malformed ends_in contains is_device numbered_device device_name before_dot trim_spaces
    to_upper is_refused text_eq
one_parsed = refl

parse_manifest_text-IsManifest_example : IsManifest (λ c. c) (λ c. c) one_line (one_entry ∷ [])
parse_manifest_text-IsManifest_example =
    parse_manifest_text-IsManifest (λ c. c) (λ c. c) one_line (one_entry ∷ []) one_parsed
