-- ===== src/Manager/Signatures.antt =====
-- evaluate_signature_policy and verify_package_signatures of launcher/manager_model.cpp. What
-- verify_trusted_signature gives for a label, a path and whether revocation is asked for is an
-- argument; an issue is the path that it names.
pub mod Policy
pub mod Signed
mod Runs
use ffb_interceptor_visualiz.Common.{
  ℕ, zero, suc, ◌+◌, Bool, true, false, ◌&&◌, ◌||◌, not, List, [], ◌∷◌, ◌++◌, map, Option, none,
  some, ◌==◌, if◌then◌else◌, length, all,
}
use ffb_interceptor_visualiz.Manager.Elevated.{Text, text_eq}
use ffb_interceptor_visualiz.Manager.Paths.{is_empty}
use ffb_interceptor_visualiz.Manager.Manifest.{
  ManifestEntry, is_hex_character, is_seen, parse_manifest_text,
}
use ffb_interceptor_visualiz.Manager.Integrity.{PackageLayout, join_path, is_clean, manifest_name}
use ffb_interceptor_visualiz.Launcher.Paths.{behind_last}

pub record SignaturePolicy : Type 0 where
  pub required : Bool
  pub expected_signer_sha256 : Text

pub record SignatureEvidence : Type 0 where
  pub relative_path : Text
  pub trusted : Bool
  pub signer_sha256 : Text

pub record SignatureReport : Type 0 where
  pub allowed : Bool
  pub all_trusted : Bool
  pub common_signer_sha256 : Text
  pub issues : List Text

unfoldable pub valid_sha256_text : Text → Bool
valid_sha256_text value = length value == 64 && all is_hex_character value

-- The label of an issue with the policy.
abbrev pub policy_label : Text
policy_label = 31805 ∷ 31456 ∷ 25919 ∷ 31574 ∷ []

-- The state of the loop over the evidence.
pub record Judgement : Type 0 where
  pub all_trusted : Bool
  pub common_signer : Text
  pub issues : List Text

abbrev pub add_signer_issue : Text → Judgement → Judgement
add_signer_issue path j = record j { issues = j.issues ++ path ∷ [] }

-- The first signer, or the comparison with it.
abbrev pub join_signer : (path signer : Text) → Judgement → Judgement
join_signer path signer j =
    if is_empty j.common_signer
    then record j { common_signer = signer }
    else if not (text_eq j.common_signer signer)
    then add_signer_issue path j
    else j

abbrev pub expect_signer :
    (same : Text → Text → Bool) → SignaturePolicy → SignatureEvidence → Judgement → Judgement
expect_signer same policy item j =
    if not (is_empty policy.expected_signer_sha256)
      && not (same item.signer_sha256 policy.expected_signer_sha256)
    then add_signer_issue item.relative_path j
    else j

module _ (lower : ℕ → ℕ) (same : Text → Text → Bool) (policy : SignaturePolicy) where
  unfoldable pub judge : SignatureEvidence → Judgement → Judgement
  unfolding valid_sha256_text text_eq
  judge item j =
      if not item.trusted || not (valid_sha256_text item.signer_sha256)
      then record (add_signer_issue item.relative_path j) { all_trusted = false }
      else expect_signer same policy item
          (join_signer item.relative_path (map lower item.signer_sha256) j)

  unfoldable pub judge_all : List SignatureEvidence → Judgement → Judgement
  unfolding judge
  judge_all [] j = j
  judge_all (item ∷ items) j = judge_all items (judge item j)

  -- The issues with the evidence as a whole and with the policy itself.
  abbrev pub first_issues : List SignatureEvidence → List Text
  first_issues evidence =
      (elim evidence [ [] ↦ policy_label ∷ [] | item ∷ items ↦ [] ])
      ++ (if not (is_empty policy.expected_signer_sha256)
            && not (valid_sha256_text policy.expected_signer_sha256)
          then policy_label ∷ []
          else [])

  abbrev pub is_given : List SignatureEvidence → Bool
  is_given [] = false
  is_given (item ∷ items) = true

  unfoldable pub evaluate_signature_policy : List SignatureEvidence → SignatureReport
  unfolding judge_all
  evaluate_signature_policy evidence =
      let j = judge_all evidence (record {
        all_trusted = is_given evidence;
        common_signer = [];
        issues = first_issues evidence;
      }) in
      record {
        allowed = not policy.required || is_clean j.issues;
        all_trusted = j.all_trusted;
        common_signer_sha256 = j.common_signer;
        issues = j.issues;
      }

-- manifest_path_requires_signature: .exe, .dll, .ps1, .psm1
abbrev pub is_signed_extension : (lower : ℕ → ℕ) → Option Text → Bool
is_signed_extension lower none = false
is_signed_extension lower (some behind) =
    let extension = map lower (46 ∷ behind) in
    text_eq extension (46 ∷ 101 ∷ 120 ∷ 101 ∷ [])
    || text_eq extension (46 ∷ 100 ∷ 108 ∷ 108 ∷ [])
    || text_eq extension (46 ∷ 112 ∷ 115 ∷ 49 ∷ [])
    || text_eq extension (46 ∷ 112 ∷ 115 ∷ 109 ∷ 49 ∷ [])

unfoldable pub manifest_path_requires_signature : (lower : ℕ → ℕ) → Text → Bool
unfolding behind_last text_eq
manifest_path_requires_signature lower path =
    is_signed_extension lower (behind_last (λ c. c == 46) path)

pub record Signing : Type 0 where
  pub lower : ℕ → ℕ
  pub upper : ℕ → ℕ
  pub same : Text → Text → Bool
  pub read_file_limited : Text → Option Text
  pub verify_trusted_signature :
      (label path : Text) → (require_revocation : Bool) → SignatureEvidence

-- The evidence so far, and the paths that have been seen.
pub record Collected : Type 0 where
  pub evidence : List SignatureEvidence
  pub seen_paths : List Text

-- The label of the running manager.
abbrev pub manager_label : Text
manager_label =
    70 ∷ 70 ∷ 66 ∷ 73 ∷ 110 ∷ 116 ∷ 101 ∷ 114 ∷ 99 ∷ 101 ∷ 112 ∷ 116 ∷ 111 ∷ 114 ∷ 46 ∷ 77 ∷ 97
    ∷ 110 ∷ 97 ∷ 103 ∷ 101 ∷ 114 ∷ 46 ∷ 101 ∷ 120 ∷ 101 ∷ 65288 ∷ 22519 ∷ 34892 ∷ 20013 ∷ 65289 ∷ []

module _ (signing : Signing) (policy : SignaturePolicy) where
  unfoldable pub add : (label path : Text) → Collected → Collected
  unfolding is_seen
  add label path c =
      let key = map signing.lower path in
      if is_seen key c.seen_paths then c else record {
        evidence = c.evidence ++ signing.verify_trusted_signature label path policy.required ∷ [];
        seen_paths = c.seen_paths ++ key ∷ [];
      }

  unfoldable pub add_entries : (root : Text) → List ManifestEntry → Collected → Collected
  unfolding add manifest_path_requires_signature join_path
  add_entries root [] c = c
  add_entries root (entry ∷ entries) c = add_entries root entries (
      if manifest_path_requires_signature signing.lower entry.relative_path
      then add entry.relative_path (join_path root entry.relative_path) c
      else c)

  -- Evidence against the package, where there is no manifest to read.
  abbrev pub unreadable_manifest : SignatureEvidence
  unreadable_manifest = record {
    relative_path = manifest_name;
    trusted = false;
    signer_sha256 = [];
  }

  abbrev pub add_manifest :
      (root : Text) → Option (List ManifestEntry) → Collected → List SignatureEvidence
  add_manifest root none c = c.evidence ++ unreadable_manifest ∷ []
  add_manifest root (some entries) c = (add_entries root entries c).evidence

  abbrev pub parse_contents : Option Text → Option (List ManifestEntry)
  parse_contents none = none
  parse_contents (some contents) = parse_manifest_text signing.lower signing.upper contents

  unfoldable pub verify_package_signatures :
      PackageLayout → (running_manager_path : Text) → SignatureReport
  unfolding add_entries evaluate_signature_policy parse_manifest_text
  verify_package_signatures layout running_manager_path =
      evaluate_signature_policy signing.lower signing.same policy (
        add_manifest layout.root (parse_contents (signing.read_file_limited layout.manifest_path))
          (add manager_label running_manager_path (record { evidence = []; seen_paths = [] })))
