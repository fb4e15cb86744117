-- ===== src/Manager/Signatures/Runs.antt =====
-- A package whose manifest names one program, signed as the manager is.
use ffb_interceptor_visualiz.Common.{◌≡◌, refl, true, [], ◌∷◌, ◌++◌, some, replicate}
use ffb_interceptor_visualiz.Launcher.Paths.{behind_last}
use ffb_interceptor_visualiz.Manager.Elevated.{Text, text_eq}
use ffb_interceptor_visualiz.Manager.Paths.{
  normalize_manifest_path, normalize_from, advance, flush_segment, append_segment, is_forbidden,
  is_malformed, ends_in, contains, is_device, numbered_device, device_name, before_dot, trim_spaces,
  to_upper, is_refused,
}
use ffb_interceptor_visualiz.Manager.Manifest.{
  parse_manifest_text, parse_lines, parse_line, lines_of, without_return, is_entry_line, is_seen,
}
use ffb_interceptor_visualiz.Manager.Integrity.{PackageLayout, join_path}
use ffb_interceptor_visualiz.Manager.Signatures.{
  SignaturePolicy, Signing, valid_sha256_text, evaluate_signature_policy, judge_all, judge,
  manifest_path_requires_signature, add, add_entries, verify_package_signatures,
}
use ffb_interceptor_visualiz.Manager.Signatures.Signed.{
  PackageIsSigned, verify_package_signatures-PackageIsSigned,
}

abbrev digest : Text
digest = replicate 64 48

-- a/b.exe
abbrev signing : Signing
signing = record {
  lower = λ c. c;
  upper = λ c. c;
  same = text_eq;
  read_file_limited = λ path. some (digest ++ 32 ∷ 32 ∷ 97 ∷ 47 ∷ 98 ∷ 46 ∷ 101 ∷ 120 ∷ 101 ∷ []);
  verify_trusted_signature = λ label path require_revocation. record {
    relative_path = label;
    trusted = true;
    signer_sha256 = digest;
  };
}

abbrev policy : SignaturePolicy
policy = record { required = true; expected_signer_sha256 = digest }

abbrev layout : PackageLayout
layout = record { root = 67 ∷ 58 ∷ 92 ∷ 112 ∷ []; manifest_path = 109 ∷ [] }

abbrev manager_path : Text
manager_path = 109 ∷ []

package_allowed : (verify_package_signatures signing policy layout manager_path).allowed ≡ true
unfolding verify_package_signatures add add_entries manifest_path_requires_signature behind_last
    evaluate_signature_policy judge_all judge valid_sha256_text join_path parse_manifest_text
    parse_lines parse_line lines_of without_return is_entry_line is_seen normalize_manifest_path
    normalize_from advance flush_segment append_segment is_forbidden is_malformed ends_in contains
    is_device numbered_device device_name before_dot trim_spaces to_upper is_refused text_eq
package_allowed = refl

verify_package_signatures-PackageIsSigned_example :
    PackageIsSigned signing policy layout manager_path
      (verify_package_signatures signing policy layout manager_path).common_signer_sha256
verify_package_signatures-PackageIsSigned_example =
    verify_package_signatures-PackageIsSigned signing policy layout manager_path refl
      package_allowed
