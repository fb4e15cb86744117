-- ===== src/Manager/Lock/Package.antt =====
-- acquire_package_read_lock of launcher/manager_model.cpp locks the whole package.
use ffb_interceptor_visualiz.Common.{
  ◌≡◌, refl, subst, ap, ◌∙◌, Bool, true, false, not, List, [], ◌∷◌, map, Option, none, some,
  if◌then◌else◌, Bool-cases, inl, inr, All,
}
use ffb_interceptor_visualiz.Manager.Elevated.{Text, path_is_absolute_local}
use ffb_interceptor_visualiz.Manager.Manifest.{ManifestEntry, is_seen, parse_manifest_text}
use ffb_interceptor_visualiz.Manager.Integrity.{PackageLayout, join_path}
use ffb_interceptor_visualiz.Manager.Lock.{
  Disk, PackageReadLock, Locking, final_accepted, lock_path, directories_of, lock_directory,
  lock_directories, lock_entry, lock_entries, lock_parsed, parse_read, lock_contents, lock_manifest,
  lock_package, cleared, acquire_into, acquire_package_read_lock,
}
use ffb_interceptor_visualiz.Manager.Lock.Locked.{
  Kept, IsHeld, IsHeld-Kept, and_then_lem, IsLocked, IsLocked-Kept, lock_path_lem,
  lock_path-IsLocked, DirectoryIsLocked, DirectoryIsLocked-Kept, IsBacked, Locks,
  lock_directory_lem,
}

module _ (disk : Disk) where
  module _ (root final : Text) where
    abbrev AllLocked : List Text → PackageReadLock → Type 0
    AllLocked directories l =
        All (λ (directory : Text). DirectoryIsLocked disk root final l (map disk.lower directory))
          directories

    AllLocked-Kept :
        (directories : List Text) (l m : PackageReadLock)
        → Kept l m
        → AllLocked directories l
        → AllLocked directories m
    AllLocked-Kept [] l m k h = tt
    AllLocked-Kept (directory ∷ directories) l m k h = (
      DirectoryIsLocked-Kept disk root final l m (map disk.lower directory) k h.0,
      AllLocked-Kept directories l m k h.1,
    )

    -- The file of an entry and the directories above it, up to the root.
    abbrev pub EntryIsLocked : PackageReadLock → ManifestEntry → Type 0
    EntryIsLocked l entry =
        AllLocked (directories_of disk entry.relative_path) l
        × IsLocked disk l final (join_path root entry.relative_path) false

    EntryIsLocked-Kept :
        (entry : ManifestEntry) (l m : PackageReadLock)
        → Kept l m
        → EntryIsLocked l entry
        → EntryIsLocked m entry
    EntryIsLocked-Kept entry l m k h = (
      AllLocked-Kept (directories_of disk entry.relative_path) l m k h.0,
      IsLocked-Kept disk l m final (join_path root entry.relative_path) false k h.1,
    )

    lock_directories_lem :
        (directories : List Text) (s t : Locking)
        → lock_directories disk root directories s ≡ (true, t)
        → IsBacked disk root final s
        → Locks disk root final (AllLocked directories) s t
    unfolding lock_directories
    lock_directories_lem [] s t e h =
        subst (Locks disk root final (AllLocked []) s) (ap (λ (r : Bool × Locking). r.1) e)
          (h, λ x o. o, tt)
    lock_directories_lem (directory ∷ directories) s t e h =
        let (u, first, rest) =
          and_then_lem (lock_directory disk root directory s)
            (lock_directories disk root directories) t e in
        let (backed, kept, locked) = lock_directory_lem disk root final directory s u first h in
        let (all_backed, all_kept, all_locked) = lock_directories_lem directories u t rest backed in
        (
          all_backed,
          λ x o. all_kept x (kept x o),
          (
            DirectoryIsLocked-Kept disk root final u.lock t.lock (map disk.lower directory) all_kept
                locked,
            all_locked,
          ),
        )

    lock_file :
        (path : Text) (s t : Locking)
        → lock_path disk path false true s ≡ (true, t)
        → IsBacked disk root final s
        → Locks disk root final (λ l. IsLocked disk l final path false) s t
    lock_file path s t e h =
        let (kept, directories, same_root, locked) =
          lock_path-IsLocked disk final path false s t e h.root_is in
        (
          record {
            root_is = same_root;
            backed = λ key seen.
                DirectoryIsLocked-Kept disk root final s.lock t.lock key kept (
                  h.backed key
                    (subst (λ (ks : List Text). is_seen key ks ≡ true) directories seen));
          },
          kept,
          locked,
        )

    lock_entry_lem :
        (entry : ManifestEntry) (s t : Locking)
        → lock_entry disk root entry s ≡ (true, t)
        → IsBacked disk root final s
        → Locks disk root final (λ l. EntryIsLocked l entry) s t
    unfolding lock_entry
    lock_entry_lem entry s t e h =
        let (u, first, rest) =
          and_then_lem (lock_directories disk root (directories_of disk entry.relative_path) s)
            (lock_path disk (join_path root entry.relative_path) false true) t e in
        let (backed, kept, locked) =
          lock_directories_lem (directories_of disk entry.relative_path) s u first h in
        let (file_backed, file_kept, file) =
          lock_file (join_path root entry.relative_path) u t rest backed in
        (
          file_backed,
          λ x o. file_kept x (kept x o),
          (
            AllLocked-Kept (directories_of disk entry.relative_path) u.lock t.lock file_kept locked,
            file,
          ),
        )

    lock_entries_lem :
        (entries : List ManifestEntry) (s t : Locking)
        → lock_entries disk root entries s ≡ (true, t)
        → IsBacked disk root final s
        → Locks disk root final (λ l. All (EntryIsLocked l) entries) s t
    unfolding lock_entries
    lock_entries_lem [] s t e h =
        subst (Locks disk root final (λ l. Unit) s) (ap (λ (r : Bool × Locking). r.1) e)
          (h, λ x o. o, tt)
    lock_entries_lem (entry ∷ entries) s t e h =
        let (u, first, rest) =
          and_then_lem (lock_entry disk root entry s) (lock_entries disk root entries) t e in
        let (backed, kept, locked) = lock_entry_lem entry s u first h in
        let (all_backed, all_kept, all_locked) = lock_entries_lem entries u t rest backed in
        (
          all_backed,
          λ x o. all_kept x (kept x o),
          (EntryIsLocked-Kept entry u.lock t.lock all_kept locked, all_locked),
        )

  parse_read_lem :
      (o : Option Text) (entries : List ManifestEntry)
      → parse_read disk o ≡ some entries
      → (contents : Text) × (o ≡ some contents)
        × (parse_manifest_text disk.lower disk.upper contents ≡ some entries)
  parse_read_lem none entries e = cc
  parse_read_lem (some contents) entries e = (contents, refl, e)

  -- What the lock of a package holds.
  pub record PackageIsLocked (layout : PackageLayout) (l : PackageReadLock) : Type 0 where
    pub contents : Text
    pub entries : List ManifestEntry
    pub final_root : Text
    pub read : disk.read_file_limited layout.manifest_path ≡ some contents
    pub parsed : parse_manifest_text disk.lower disk.upper contents ≡ some entries
    pub near : path_is_absolute_local disk.drive_type final_root ≡ true
    pub root : IsHeld l layout.root true final_root
    pub manifest : IsLocked disk l final_root layout.manifest_path false
    pub files : All (EntryIsLocked layout.root final_root l) entries

  lock_parsed_lem :
      (layout : PackageLayout) (final : Text) (o : Option (List ManifestEntry)) (s t : Locking)
      → lock_parsed disk layout.root o s ≡ (true, t)
      → parse_read disk (disk.read_file_limited layout.manifest_path) ≡ o
      → path_is_absolute_local disk.drive_type final ≡ true
      → IsHeld s.lock layout.root true final
      → IsLocked disk s.lock final layout.manifest_path false
      → IsBacked disk layout.root final s
      → PackageIsLocked layout t.lock
  lock_parsed_lem layout final none s t e same near root manifest h =
      absurd (false_not_true (ap (λ (r : Bool × Locking). r.0) e))
    where
      false_not_true : false ≡ true → ⊥
      false_not_true h = cc
  lock_parsed_lem layout final (some entries) s t e same near root manifest h =
      let (contents, read, parsed) =
        parse_read_lem (disk.read_file_limited layout.manifest_path) entries same in
      let (backed, kept, files) = lock_entries_lem layout.root final entries s t e h in
      record {
        contents = contents;
        entries = entries;
        final_root = final;
        read = read;
        parsed = parsed;
        near = near;
        root = IsHeld-Kept s.lock t.lock layout.root true final kept root;
        manifest = IsLocked-Kept disk s.lock t.lock final layout.manifest_path false kept manifest;
        files = files;
      }

  final_accepted-near :
      (root final_path new_root : Text)
      → final_accepted disk false root final_path ≡ some new_root
      → (new_root ≡ final_path) × (path_is_absolute_local disk.drive_type final_path ≡ true)
  final_accepted-near root final_path new_root e =
      go (path_is_absolute_local disk.drive_type final_path) e
    where
      go :
          (a : Bool)
          → (if not a then none else some final_path) ≡ some new_root
          → (new_root ≡ final_path) × (a ≡ true)
      go true h = (cc, refl)
      go false h = cc

  lock_package_lem :
      (layout : PackageLayout) (s t : Locking)
      → lock_package disk layout s ≡ (true, t)
      → s.locked_directories ≡ []
      → PackageIsLocked layout t.lock
  unfolding lock_package
  lock_package_lem layout s t e fresh =
      let (s1, first, rest) =
        and_then_lem (lock_path disk layout.root true false s) (lock_manifest disk layout) t e in
      let (s2, second, last) =
        and_then_lem (lock_path disk layout.manifest_path false true s1) (lock_contents disk layout)
          t rest in
      let (kept, same, (final, ok, held)) = lock_path_lem disk layout.root true false s s1 first in
      let (root_is, near) = final_accepted-near s.locked_root final s1.locked_root ok in
      let (manifest_backed, manifest_kept, manifest) =
        lock_file layout.root final layout.manifest_path s1 s2 second (record {
          root_is = root_is;
          backed = λ key seen.
              absurd (
                unseen key (subst (λ (ks : List Text). is_seen key ks ≡ true) (same ∙ fresh) seen));
        }) in
      lock_parsed_lem layout final _ s2 t last refl near
        (IsHeld-Kept s1.lock s2.lock layout.root true final manifest_kept held) manifest
        manifest_backed
    where
      unseen : (key : Text) → is_seen key [] ≡ true → ⊥
      unseen key h = cc

  cleared_lem :
      (r : Bool × Locking) (t : PackageReadLock)
      → cleared disk r ≡ (true, t)
      → (u : Locking) × (r ≡ (true, u)) × (u.lock ≡ t)
  cleared_lem (true, u) t e = (u, refl, ap (λ (r : Bool × PackageReadLock). r.1) e)
  cleared_lem (false, u) t e = absurd (false_not_true (ap (λ (r : Bool × PackageReadLock). r.0) e))
    where
      false_not_true : false ≡ true → ⊥
      false_not_true h = cc

  acquire_into-PackageIsLocked :
      (layout : PackageLayout) (s t : PackageReadLock)
      → acquire_into disk layout s ≡ (true, t)
      → PackageIsLocked layout t
  unfolding acquire_into
  acquire_into-PackageIsLocked layout s t e =
      elim (Bool-cases (path_is_absolute_local disk.drive_type layout.root)) [
        | inl near ↦
            let (u, ok, same) = cleared_lem _ t (rw near at e) in
            subst (PackageIsLocked layout) same (lock_package_lem layout _ u ok refl)
        | inr far ↦ absurd (false_not_true (ap (λ (r : Bool × PackageReadLock). r.0) (rw far at e)))
      ]
    where
      false_not_true : false ≡ true → ⊥
      false_not_true h = cc

  -- Where acquire_package_read_lock returns true, whatever Windows answers: the package's manifest
  -- has been read and accepted, and the lock holds open handles to the package's root, to the
  -- manifest, to each file of it and to each directory above one. Each is of the right kind and no
  -- reparse point; the root lies on a local drive, and all the others resolve into the root.
  -- A directory may be held by a path that differs in the case of letters.
  pub acquire_package_read_lock-PackageIsLocked :
      (layout : PackageLayout) (s t : PackageReadLock)
      → acquire_package_read_lock disk layout (some s) ≡ (true, some t)
      → PackageIsLocked layout t
  unfolding acquire_package_read_lock
  acquire_package_read_lock-PackageIsLocked layout s t e =
      let result = ap (λ (r : Bool × Option PackageReadLock). r.0) e in
      let same = some_inj _ t (ap (λ (r : Bool × Option PackageReadLock). r.1) e) in
      acquire_into-PackageIsLocked layout s t (pair (acquire_into disk layout s) result same)
    where
      some_inj : (a b : PackageReadLock) → some a ≡ some b → a ≡ b
      some_inj a b h = cc

      pair : (r : Bool × PackageReadLock) → r.0 ≡ true → r.1 ≡ t → r ≡ (true, t)
      pair (ok, l) h k = rw (h, k) refl
