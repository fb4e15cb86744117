-- ===== src/Manager/Integrity/Loops.antt =====
-- The loops of verify_package_integrity in launcher/manager_model.cpp, where they find no issue.
use ffb_interceptor_visualiz.Common.{
  ℕ, ◌+◌, ◌-◌, ◌≤◌, ◌≡◌, refl, sym, subst, ap, ◌∙◌, Bool, true, false, ◌||◌, List, [], ◌∷◌, ◌++◌,
  map, Option, none, some, leb, ltb, length, All, arith, Bool-cases, inl, inr,
}
use ffb_interceptor_visualiz.Manager.Elevated.{Text}
use ffb_interceptor_visualiz.Manager.Manifest.{ManifestEntry, is_seen}
use ffb_interceptor_visualiz.Manager.Integrity.{
  Attributes, Files, join_path, find_unlisted, find_missing, Verification, hashed,
  attributes_checked, verify_entry, continue_with, verify_entries, is_clean, max_issues,
  max_hashed_file_bytes, max_package_bytes,
}

pub false_not_true : false ≡ true → ⊥
false_not_true e = cc

is_clean-append : (issues : List Text) (path : Text) → is_clean (issues ++ path ∷ []) ≡ false
is_clean-append [] path = refl
is_clean-append (i ∷ is) path = refl

-- The path has a key among those of the manifest.
abbrev pub IsListed : (lower : ℕ → ℕ) → (keys : List Text) → Text → Type 0
IsListed lower keys path = is_seen (map lower path) keys ≡ true

pub find_unlisted-IsListed :
    (lower : ℕ → ℕ) (keys paths issues : List Text)
    → is_clean (find_unlisted lower keys paths issues) ≡ true
    → (is_clean issues ≡ true) × All (IsListed lower keys) paths
unfolding find_unlisted
find_unlisted-IsListed lower keys [] issues h = (h, tt)
find_unlisted-IsListed lower keys (p ∷ ps) issues h = ground (
  arith,
  find_unlisted-IsListed lower keys ps issues,
  find_unlisted-IsListed lower keys ps (issues ++ p ∷ []),
  is_clean-append issues p,
)

pub find_missing-IsListed :
    (lower : ℕ → ℕ) (keys paths issues : List Text)
    → is_clean (find_missing lower keys paths issues) ≡ true
    → (is_clean issues ≡ true) × All (IsListed lower keys) paths
unfolding find_missing
find_missing-IsListed lower keys [] issues h = (h, tt)
find_missing-IsListed lower keys (p ∷ ps) issues h =
    elim (Bool-cases (is_seen (map lower p) keys)) [
      | inl seen ↦
          let (clean, others) = find_missing-IsListed lower keys ps issues (rw seen at h) in
          (clean, (seen, others))
      | inr absent ↦
          let (clean, others) =
            find_missing-IsListed lower keys ps (issues ++ p ∷ []) (rw absent at h) in
          absurd (false_not_true (sym (is_clean-append issues p) ∙ clean))
    ]

-- The entry's file is a regular one with the digest of the manifest.
pub record IsVerified (files : Files) (root : Text) (entry : ManifestEntry) : Type 0 where
  pub attributes : Attributes
  pub read : files.attributes (join_path root entry.relative_path) ≡ some attributes
  pub regular : attributes.redirects ≡ false
  pub digest : Text
  pub hash : files.sha256_file (join_path root entry.relative_path) root ≡ some digest
  pub same : files.same digest entry.sha256 ≡ true

dirty : (issues : List Text) (path : Text) → is_clean (issues ++ path ∷ []) ≡ true → ⊥
dirty issues path h = false_not_true (sym (is_clean-append issues path) ∙ h)

hashed_lem :
    (files : Files) (entry : ManifestEntry) (o : Option Text) (v : Verification)
    → is_clean (hashed files entry o v).issues ≡ true
    → (is_clean v.issues ≡ true)
      × ((hashed files entry o v).package_bytes ≡ v.package_bytes)
      × ((digest : Text) × (o ≡ some digest) × (files.same digest entry.sha256 ≡ true))
hashed_lem files entry none v h = absurd (dirty v.issues entry.relative_path h)
hashed_lem files entry (some digest) v h = elim (Bool-cases (files.same digest entry.sha256)) [
  | inl same ↦ rw same (rw same at h, refl, (digest, refl, same))
  | inr other ↦ absurd (dirty v.issues entry.relative_path (rw other at h))
]

abbrev pub size_of : Option Attributes → ℕ
size_of none = 0
size_of (some a) = a.size

unfoldable pub total_size : Files → (root : Text) → List ManifestEntry → ℕ
total_size files root [] = 0
total_size files root (entry ∷ entries) =
    size_of (files.attributes (join_path root entry.relative_path)) + total_size files root entries

-- What a turn shows that leaves no issue: it does not break.
record Turned (files : Files) (root : Text) (entry : ManifestEntry) (v : Verification)
    (r : Bool × Verification) : Type 0 where
  before : is_clean v.issues ≡ true
  goes_on : r.0 ≡ false
  verified : IsVerified files root entry
  bytes :
      r.1.package_bytes
      ≡ v.package_bytes + size_of (files.attributes (join_path root entry.relative_path))
  within : r.1.package_bytes ≤ max_package_bytes

regular-Turned :
    (files : Files) (root : Text) (entry : ManifestEntry) (a : Attributes) (v : Verification)
    → files.attributes (join_path root entry.relative_path) ≡ some a
    → a.redirects ≡ false
    → (ltb max_hashed_file_bytes a.size || ltb (max_package_bytes - a.size) v.package_bytes) ≡ false
    → let w = record v { package_bytes = v.package_bytes + a.size } in
      let next =
        hashed files entry (files.sha256_file (join_path root entry.relative_path) root) w in
      is_clean next.issues ≡ true → Turned files root entry v (false, next)
regular-Turned files root entry a v read regular small h =
    let w = record v { package_bytes = v.package_bytes + a.size } in
    let (before, bytes, (digest, hash, same)) =
      hashed_lem files entry (files.sha256_file (join_path root entry.relative_path) root) w h in
    record {
      before = before;
      goes_on = refl;
      verified = record {
        attributes = a;
        read = read;
        regular = regular;
        digest = digest;
        hash = hash;
        same = same;
      };
      bytes = bytes ∙ ap (λ (o : Option Attributes). v.package_bytes + size_of o) (sym read);
      within = subst (λ (n : ℕ). n ≤ max_package_bytes) (sym bytes) room;
    }
  where
    room : v.package_bytes + a.size ≤ max_package_bytes
    room = ground arith

attributes_checked-Turned :
    (files : Files) (root : Text) (entry : ManifestEntry) (o : Option Attributes) (v : Verification)
    → files.attributes (join_path root entry.relative_path) ≡ o
    → is_clean (attributes_checked files root entry o v).1.issues ≡ true
    → Turned files root entry v (attributes_checked files root entry o v)
attributes_checked-Turned files root entry none v read h =
    absurd (dirty v.issues entry.relative_path h)
attributes_checked-Turned files root entry (some a) v read h = elim (Bool-cases a.redirects) [
  | inl redirects ↦ absurd (dirty v.issues entry.relative_path (rw redirects at h))
  | inr regular ↦
      elim (Bool-cases
        (ltb max_hashed_file_bytes a.size || ltb (max_package_bytes - a.size) v.package_bytes)) [
          | inl large ↦ absurd (dirty v.issues entry.relative_path (simp (regular, large) at h))
          | inr small ↦
              simp (regular, small)
                (regular-Turned files root entry a v read regular small
                  (simp (regular, small) at h))
        ]
]

-- The loop without an issue.
pub record Ran (files : Files) (root : Text) (entries : List ManifestEntry) (v : Verification)
    : Type 0 where
  pub before : is_clean v.issues ≡ true
  pub verified : All (IsVerified files root) entries
  pub within :
      v.package_bytes ≤ max_package_bytes
      → v.package_bytes + total_size files root entries ≤ max_package_bytes

continue_with_lem :
    (files : Files) (root : Text) (entry : ManifestEntry) (entries : List ManifestEntry)
    (v : Verification) (r : Bool × Verification)
    → (is_clean r.1.issues ≡ true → Turned files root entry v r)
    → (is_clean (verify_entries files root entries r.1).issues ≡ true → Ran files root entries r.1)
    → is_clean (continue_with r (verify_entries files root entries)).issues ≡ true
    → Ran files root (entry ∷ entries) v
unfolding total_size
continue_with_lem files root entry entries v (breaks, w) turned ran h =
    elim (Bool-cases (breaks || leb max_issues (length w.issues))) [
      | inl broken ↦
          absurd (never breaks w.issues (turned (rw broken at h)).goes_on (rw broken at h) broken)
      | inr going ↦
          let rest = ran (rw going at h) in
          let here = turned rest.before in
          record {
            before = here.before;
            verified = (here.verified, rest.verified);
            within = λ k. omega (arith, here.bytes, rest.within here.within);
          }
    ]
  where
    never :
        (a : Bool) (is : List Text)
        → a ≡ false
        → is_clean is ≡ true
        → (a || leb max_issues (length is)) ≡ true
        → ⊥
    never a [] e c b = ground arith
    never a (i ∷ is) e c b = false_not_true c

pub verify_entries-Ran :
    (files : Files) (root : Text) (entries : List ManifestEntry) (v : Verification)
    → is_clean (verify_entries files root entries v).issues ≡ true
    → Ran files root entries v
unfolding verify_entries verify_entry total_size
verify_entries-Ran files root [] v h = record {
  before = h;
  verified = tt;
  within = λ k. omega (arith, k);
}
verify_entries-Ran files root (entry ∷ entries) v h =
    continue_with_lem files root entry entries v (verify_entry files root entry v)
      (attributes_checked-Turned files root entry _ v refl)
      (verify_entries-Ran files root entries (verify_entry files root entry v).1) h
