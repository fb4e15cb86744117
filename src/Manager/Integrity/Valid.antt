-- ===== src/Manager/Integrity/Valid.antt =====
-- What a valid report of verify_package_integrity in launcher/manager_model.cpp says.
use ffb_interceptor_visualiz.Common.{
  ◌≤◌, ◌≡◌, refl, Bool, true, false, ◌&&◌, List, [], map, Option, none, some, ◌==◌, ==_iff, length,
  All, arith, Bool-cases, inl, inr,
}
use ffb_interceptor_visualiz.Manager.Elevated.{Text, path_is_absolute_local}
use ffb_interceptor_visualiz.Manager.Paths.{is_empty}
use ffb_interceptor_visualiz.Manager.Manifest.{ManifestEntry, key_of, parse_manifest_text}
use ffb_interceptor_visualiz.Manager.Integrity.{
  Files, PackageLayout, required_files, find_unlisted, find_missing, start_verification, is_clean,
  files_covered, files_checked, manifest_checked, contents_checked, verify_package_integrity,
  max_package_bytes,
}
use ffb_interceptor_visualiz.Manager.Integrity.Loops.{
  false_not_true, IsListed, IsVerified, total_size, find_unlisted-IsListed, find_missing-IsListed,
  verify_entries-Ran,
}

-- What a valid report promises of the package.
pub record IsIntact (files : Files) (layout : PackageLayout) : Type 0 where
  pub given : is_empty layout.root ≡ false
  pub near : path_is_absolute_local files.drive_type layout.root ≡ true
  pub contents : Text
  pub entries : List ManifestEntry
  pub actual_files : List Text
  pub read : files.read_file_limited layout.manifest_path ≡ some contents
  pub parsed : parse_manifest_text files.lower files.upper contents ≡ some entries
  pub found : files.enumerate_package_files layout.root ≡ some actual_files
  pub count : length actual_files ≡ length entries
  pub listed :
      All (IsListed files.lower (map (key_of files.lower files.upper) entries)) actual_files
  pub required :
      All (IsListed files.lower (map (key_of files.lower files.upper) entries)) required_files
  pub verified : All (IsVerified files layout.root) entries
  pub within : total_size files layout.root entries ≤ max_package_bytes

-- What the checks behind the manifest show.
record Covered (files : Files) (root : Text) (entries : List ManifestEntry)
    (actual_files : List Text) : Type 0 where
  listed : All (IsListed files.lower (map (key_of files.lower files.upper) entries)) actual_files
  required :
      All (IsListed files.lower (map (key_of files.lower files.upper) entries)) required_files
  verified : All (IsVerified files root) entries
  within : total_size files root entries ≤ max_package_bytes

files_covered-Covered :
    (files : Files) (root : Text) (entries : List ManifestEntry) (actual_files : List Text)
    → (files_covered files root entries actual_files).valid ≡ true
    → Covered files root entries actual_files
files_covered-Covered files root entries actual_files h =
    let keys = map (key_of files.lower files.upper) entries in
    elim (Bool-cases (is_clean (find_unlisted files.lower keys actual_files []))) [
      | inr unlisted ↦ absurd (false_not_true (rw unlisted at h))
      | inl all_listed ↦
          elim (Bool-cases (is_clean (find_missing files.lower keys required_files []))) [
            | inr missing ↦ absurd (false_not_true (rw (all_listed, missing) at h))
            | inl complete ↦
                let clean = first _ _ (rw (all_listed, complete) at h) in
                let ran = verify_entries-Ran files root entries start_verification clean in
                record {
                  listed = (find_unlisted-IsListed files.lower keys actual_files [] all_listed).1;
                  required = (find_missing-IsListed files.lower keys required_files [] complete).1;
                  verified = ran.verified;
                  within = omega (arith, ran.within (omega arith));
                }
          ]
    ]
  where
    first : (a b : Bool) → (a && b) ≡ true → a ≡ true
    first a b e = ground arith

contents_checked-IsIntact :
    (files : Files) (layout : PackageLayout) (o : Option Text)
    → is_empty layout.root ≡ false
    → path_is_absolute_local files.drive_type layout.root ≡ true
    → files.read_file_limited layout.manifest_path ≡ o
    → (contents_checked files layout.root o).valid ≡ true
    → IsIntact files layout
contents_checked-IsIntact files layout none given near read h = absurd (false_not_true h)
contents_checked-IsIntact files layout (some contents) given near read h =
    manifest (parse_manifest_text files.lower files.upper contents) refl h
  where
    covered :
        (entries : List ManifestEntry) (actual_files : List Text)
        → parse_manifest_text files.lower files.upper contents ≡ some entries
        → files.enumerate_package_files layout.root ≡ some actual_files
        → (files_checked files layout.root entries (some actual_files)).valid ≡ true
        → IsIntact files layout
    covered entries actual_files parsed found k =
        elim (Bool-cases (length actual_files == length entries)) [
          | inr other ↦ absurd (false_not_true (rw other at k))
          | inl same ↦
              let c = files_covered-Covered files layout.root entries actual_files (rw same at k) in
              record {
                given = given;
                near = near;
                contents = contents;
                entries = entries;
                actual_files = actual_files;
                read = read;
                parsed = parsed;
                found = found;
                count = (==_iff (length actual_files) (length entries)).0 same;
                listed = c.listed;
                required = c.required;
                verified = c.verified;
                within = c.within;
              }
        ]

    enumerated :
        (entries : List ManifestEntry) (o : Option (List Text))
        → parse_manifest_text files.lower files.upper contents ≡ some entries
        → files.enumerate_package_files layout.root ≡ o
        → (files_checked files layout.root entries o).valid ≡ true
        → IsIntact files layout
    enumerated entries none parsed found k = absurd (false_not_true k)
    enumerated entries (some actual_files) parsed found k =
        covered entries actual_files parsed found k

    manifest :
        (o : Option (List ManifestEntry))
        → parse_manifest_text files.lower files.upper contents ≡ o
        → (manifest_checked files layout.root o).valid ≡ true
        → IsIntact files layout
    manifest none parsed k = absurd (false_not_true k)
    manifest (some entries) parsed k =
        enumerated entries (files.enumerate_package_files layout.root) parsed refl k

-- Where the report of verify_package_integrity is valid: the package is on a local drive; its
-- manifest is accepted; there are as many files as entries, each of them is listed, and so is each
-- file that the code requires; each entry's file is a regular one whose digest is the manifest's;
-- and together they have at most 2 ^ 30 bytes.
pub verify_package_integrity-IsIntact :
    (files : Files) (layout : PackageLayout)
    → (verify_package_integrity files layout).valid ≡ true
    → IsIntact files layout
unfolding verify_package_integrity
verify_package_integrity-IsIntact files layout h = elim (Bool-cases (is_empty layout.root)) [
  | inl empty ↦ absurd (false_not_true (rw empty at h))
  | inr given ↦ elim (Bool-cases (path_is_absolute_local files.drive_type layout.root)) [
    | inr far ↦ absurd (false_not_true (rw (given, far) at h))
    | inl near ↦
        contents_checked-IsIntact files layout (files.read_file_limited layout.manifest_path) given
          near refl (rw (given, near) at h)
  ]
]
