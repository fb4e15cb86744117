-- ===== src/Manager/Signatures/Signed.antt =====
-- Which packages verify_package_signatures of launcher/manager_model.cpp allows.
use ffb_interceptor_visualiz.Common.{
  Occurs, Occurs-All, Occurs-front, Occurs-last, ◌≡◌, refl, sym, true, false, List, [], ◌∷◌, ◌++◌,
  map, Option, none, some, if◌then◌else◌, All, Bool-cases, inl, inr,
}
use ffb_interceptor_visualiz.Manager.Elevated.{Text}
use ffb_interceptor_visualiz.Manager.Manifest.Seen.{is_seen-front, is_seen-last, is_seen-append}
use ffb_interceptor_visualiz.Manager.Manifest.{ManifestEntry, is_seen, parse_manifest_text}
use ffb_interceptor_visualiz.Manager.Integrity.{PackageLayout, join_path}
use ffb_interceptor_visualiz.Manager.Signatures.{
  SignaturePolicy, SignatureEvidence, manifest_path_requires_signature, Signing, Collected,
  manager_label, add, add_entries, unreadable_manifest, add_manifest, parse_contents,
  verify_package_signatures,
}
use ffb_interceptor_visualiz.Manager.Signatures.Policy.{
  IsSigned, text_eq_lem, evaluate_signature_policy-IsSigned,
}

module _ (signing : Signing) (policy : SignaturePolicy) where
  -- Evidence from a path with this key.
  abbrev Source : Text → List SignatureEvidence → Type 0
  Source key evidence =
      (label : Text) × (path : Text) × (map signing.lower path ≡ key)
      × Occurs (signing.verify_trusted_signature label path policy.required) evidence

  -- Every path that has been seen has given evidence.
  abbrev IsBacked : Collected → Type 0
  IsBacked c = (key : Text) → is_seen key c.seen_paths ≡ true → Source key c.evidence

  add-IsBacked :
      (label path : Text) (c : Collected) → IsBacked c → IsBacked (add signing policy label path c)
  unfolding add
  add-IsBacked label path c h = elim (Bool-cases (is_seen (map signing.lower path) c.seen_paths)) [
    | inl seen ↦ rw seen h
    | inr fresh ↦ rw fresh extended
  ]
    where
      item : SignatureEvidence
      item = signing.verify_trusted_signature label path policy.required

      extended : IsBacked (record {
        evidence = c.evidence ++ item ∷ [];
        seen_paths = c.seen_paths ++ map signing.lower path ∷ [];
      })
      extended key s = elim (is_seen-append key (map signing.lower path) c.seen_paths s) [
        | inl before ↦
            let (l, p, e, o) = h key before in (l, p, e, Occurs-front _ c.evidence (item ∷ []) o)
        | inr last ↦ (
          label,
          path,
          sym (text_eq_lem key (map signing.lower path) last),
          Occurs-last item c.evidence,
        )
      ]

  add-is_seen :
      (label path : Text) (c : Collected)
      → is_seen (map signing.lower path) (add signing policy label path c).seen_paths ≡ true
  unfolding add
  add-is_seen label path c = elim (Bool-cases (is_seen (map signing.lower path) c.seen_paths)) [
    | inl seen ↦ rw seen seen
    | inr fresh ↦ rw fresh (is_seen-last (map signing.lower path) c.seen_paths)
  ]

  add_kept :
      (key label path : Text) (c : Collected)
      → is_seen key c.seen_paths ≡ true
      → is_seen key (add signing policy label path c).seen_paths ≡ true
  unfolding add
  add_kept key label path c h = elim (Bool-cases (is_seen (map signing.lower path) c.seen_paths)) [
    | inl seen ↦ rw seen h
    | inr fresh ↦ rw fresh (is_seen-front key c.seen_paths (map signing.lower path ∷ []) h)
  ]

  -- What a turn of the loop over the entries leaves.
  abbrev next : (root : Text) → ManifestEntry → Collected → Collected
  next root entry c =
      if manifest_path_requires_signature signing.lower entry.relative_path
      then add signing policy entry.relative_path (join_path root entry.relative_path) c
      else c

  next-IsBacked :
      (root : Text) (entry : ManifestEntry) (c : Collected)
      → IsBacked c
      → IsBacked (next root entry c)
  next-IsBacked root entry c h =
      elim (Bool-cases (manifest_path_requires_signature signing.lower entry.relative_path)) [
        | inl needed ↦
            rw needed (add-IsBacked entry.relative_path (join_path root entry.relative_path) c h)
        | inr other ↦ rw other h
      ]

  next_kept :
      (key root : Text) (entry : ManifestEntry) (c : Collected)
      → is_seen key c.seen_paths ≡ true
      → is_seen key (next root entry c).seen_paths ≡ true
  next_kept key root entry c h =
      elim (Bool-cases (manifest_path_requires_signature signing.lower entry.relative_path)) [
        | inl needed ↦
            rw needed (add_kept key entry.relative_path (join_path root entry.relative_path) c h)
        | inr other ↦ rw other h
      ]

  add_entries-IsBacked :
      (root : Text) (entries : List ManifestEntry) (c : Collected)
      → IsBacked c
      → IsBacked (add_entries signing policy root entries c)
  unfolding add_entries
  add_entries-IsBacked root [] c h = h
  add_entries-IsBacked root (entry ∷ entries) c h =
      add_entries-IsBacked root entries (next root entry c) (next-IsBacked root entry c h)

  add_entries_kept :
      (key root : Text) (entries : List ManifestEntry) (c : Collected)
      → is_seen key c.seen_paths ≡ true
      → is_seen key (add_entries signing policy root entries c).seen_paths ≡ true
  unfolding add_entries
  add_entries_kept key root [] c h = h
  add_entries_kept key root (entry ∷ entries) c h =
      add_entries_kept key root entries (next root entry c) (next_kept key root entry c h)

  -- The paths of the entries that need a signature have been seen.
  abbrev NeedsSeen : (root : Text) → List Text → ManifestEntry → Type 0
  NeedsSeen root seen entry =
      manifest_path_requires_signature signing.lower entry.relative_path ≡ true
      → is_seen (map signing.lower (join_path root entry.relative_path)) seen ≡ true

  add_entries-NeedsSeen :
      (root : Text) (entries : List ManifestEntry) (c : Collected)
      → All (NeedsSeen root (add_entries signing policy root entries c).seen_paths) entries
  unfolding add_entries
  add_entries-NeedsSeen root [] c = tt
  add_entries-NeedsSeen root (entry ∷ entries) c = (
    λ needed.
        add_entries_kept (map signing.lower (join_path root entry.relative_path)) root entries
          (next root entry c)
          (rw needed (add-is_seen entry.relative_path (join_path root entry.relative_path) c)),
    add_entries-NeedsSeen root entries (next root entry c),
  )

  -- A file is signed by the signer, as it was verified under its path or one that differs in the
  -- case of letters only.
  abbrev pub FileIsSigned : (signer path : Text) → Type 0
  FileIsSigned signer path =
      (label : Text) × (verified : Text) × (map signing.lower verified ≡ map signing.lower path)
      × IsSigned signing.lower signing.same policy signer
          (signing.verify_trusted_signature label verified policy.required)

  pub record PackageIsSigned (layout : PackageLayout) (manager_path signer : Text) : Type 0 where
    pub contents : Text
    pub entries : List ManifestEntry
    pub read : signing.read_file_limited layout.manifest_path ≡ some contents
    pub parsed : parse_manifest_text signing.lower signing.upper contents ≡ some entries
    pub manager : FileIsSigned signer manager_path
    pub files :
        All
          (λ (entry : ManifestEntry).
            manifest_path_requires_signature signing.lower entry.relative_path ≡ true
            → FileIsSigned signer (join_path layout.root entry.relative_path))
          entries

  Source-FileIsSigned :
      (signer path : Text) (evidence : List SignatureEvidence)
      → All (IsSigned signing.lower signing.same policy signer) evidence
      → Source (map signing.lower path) evidence
      → FileIsSigned signer path
  Source-FileIsSigned signer path evidence h (label, verified, same, o) = (
    label,
    verified,
    same,
    Occurs-All (IsSigned signing.lower signing.same policy signer) _ evidence o h,
  )

  needed_files :
      (root signer : Text) (entries : List ManifestEntry) (c : Collected)
      → IsBacked c
      → All (IsSigned signing.lower signing.same policy signer) c.evidence
      → All (NeedsSeen root c.seen_paths) entries
      → All
          (λ (entry : ManifestEntry).
            manifest_path_requires_signature signing.lower entry.relative_path ≡ true
            → FileIsSigned signer (join_path root entry.relative_path))
          entries
  needed_files root signer [] c backed signed h = tt
  needed_files root signer (entry ∷ entries) c backed signed h = (
    λ needed.
        Source-FileIsSigned signer (join_path root entry.relative_path) c.evidence signed
          (backed _ (h.0 needed)),
    needed_files root signer entries c backed signed h.1,
  )

  parse_contents_lem :
      (o : Option Text) (entries : List ManifestEntry)
      → parse_contents signing policy o ≡ some entries
      → (contents : Text) × (o ≡ some contents)
        × (parse_manifest_text signing.lower signing.upper contents ≡ some entries)
  parse_contents_lem none entries h = cc
  parse_contents_lem (some contents) entries h = (contents, refl, h)

  add_manifest-PackageIsSigned :
      (layout : PackageLayout) (manager_path signer : Text) (o : Option (List ManifestEntry))
      → parse_contents signing policy (signing.read_file_limited layout.manifest_path) ≡ o
      → (c : Collected) → IsBacked c
      → is_seen (map signing.lower manager_path) c.seen_paths ≡ true
      → All
          (IsSigned signing.lower signing.same policy signer)
          (add_manifest signing policy layout.root o c)
      → PackageIsSigned layout manager_path signer
  add_manifest-PackageIsSigned layout manager_path signer none e c backed seen h = absurd (
      false_not_true
        (Occurs-All (IsSigned signing.lower signing.same policy signer)
          (unreadable_manifest signing policy)
          (c.evidence ++ unreadable_manifest signing policy ∷ []) (Occurs-last _ c.evidence)
          h).trusted)
    where
      false_not_true : false ≡ true → ⊥
      false_not_true e = cc
  add_manifest-PackageIsSigned layout manager_path signer (some entries) e c backed seen h =
      let (contents, read, parsed) =
        parse_contents_lem (signing.read_file_limited layout.manifest_path) entries e in
      let d = add_entries signing policy layout.root entries c in
      let all_backed = add_entries-IsBacked layout.root entries c backed in
      record {
        contents = contents;
        entries = entries;
        read = read;
        parsed = parsed;
        manager = Source-FileIsSigned signer manager_path d.evidence h (
            all_backed (map signing.lower manager_path)
              (add_entries_kept (map signing.lower manager_path) layout.root entries c seen));
        files =
            needed_files layout.root signer entries d all_backed h
              (add_entries-NeedsSeen layout.root entries c);
      }

  -- Where signatures are required and verify_package_signatures allows the package: its manifest
  -- has been read and accepted, and the running manager and every file of the manifest that needs a
  -- signature are trusted, all by the one signer that the report names and, if the policy expects
  -- a signer, by that one.
  pub verify_package_signatures-PackageIsSigned :
      (layout : PackageLayout) (manager_path : Text)
      → policy.required ≡ true
      → (verify_package_signatures signing policy layout manager_path).allowed ≡ true
      → PackageIsSigned layout manager_path
          (verify_package_signatures signing policy layout manager_path).common_signer_sha256
  unfolding verify_package_signatures
  verify_package_signatures-PackageIsSigned layout manager_path required h =
      let nothing : Collected = record { evidence = []; seen_paths = [] } in
      let start = add signing policy manager_label manager_path nothing in
      let evidence =
        add_manifest signing policy layout.root
          (parse_contents signing policy (signing.read_file_limited layout.manifest_path)) start in
      add_manifest-PackageIsSigned layout manager_path _ _ refl start
        (add-IsBacked manager_label manager_path nothing no_paths)
        (add-is_seen manager_label manager_path nothing)
        (evaluate_signature_policy-IsSigned signing.lower signing.same policy evidence required h)
    where
      no_paths : IsBacked (record { evidence = []; seen_paths = [] })
      no_paths key s = cc
