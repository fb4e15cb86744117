-- ===== src/Manager/Lock/Locked.antt =====
-- What a lock of acquire_package_read_lock in launcher/manager_model.cpp holds.
use ffb_interceptor_visualiz.Common.{
  ◌≡◌, refl, sym, subst, ap, ◌∙◌, Bool, true, false, ◌||◌, not, List, [], ◌∷◌, ◌++◌, map, Option,
  none, some, arith, if◌then◌else◌, Bool-cases, Option-cases, inl, inr, Occurs, Occurs-front,
  Occurs-last,
}
use ffb_interceptor_visualiz.Manager.Elevated.{Text}
use ffb_interceptor_visualiz.Manager.Paths.{is_empty}
use ffb_interceptor_visualiz.Manager.Manifest.{is_seen}
use ffb_interceptor_visualiz.Manager.Manifest.Seen.{is_seen-append}
use ffb_interceptor_visualiz.Manager.Signatures.Policy.{text_eq_lem}
use ffb_interceptor_visualiz.Manager.Integrity.{join_path}
use ffb_interceptor_visualiz.Manager.Lock.{
  Information, Handle, Disk, PackageReadLock, path_within_or_equal, differs, Locking, and_then,
  final_accepted, accepted, opened_path, lock_path, lock_directory,
}

abbrev pub Kept : PackageReadLock → PackageReadLock → Type 0
Kept l m = (h : Handle) → Occurs h l.handles → Occurs h m.handles

-- A handle to a regular file, or to a directory, that is open.
pub record IsHeld (l : PackageReadLock) (path : Text) (directory : Bool) (final_path : Text)
    : Type 0 where
  pub handle : Handle
  pub stays : Occurs handle l.handles
  pub opened_as : handle.path ≡ path
  pub regular :
      handle.information ≡ some (record { is_directory = directory; is_reparse_point = false })
  pub final : handle.final_path ≡ some final_path

pub IsHeld-Kept :
    (l m : PackageReadLock) (path : Text) (directory : Bool) (final_path : Text)
    → Kept l m
    → IsHeld l path directory final_path
    → IsHeld m path directory final_path
IsHeld-Kept l m path directory final_path k h = record {
  handle = h.handle;
  stays = k h.handle h.stays;
  opened_as = h.opened_as;
  regular = h.regular;
  final = h.final;
}

pub and_then_lem :
    (r : Bool × Locking) (next : Locking → Bool × Locking) (t : Locking)
    → and_then r next ≡ (true, t)
    → (s : Locking) × (r ≡ (true, s)) × (next s ≡ (true, t))
and_then_lem (true, s) next t e = (s, refl, e)
and_then_lem (false, s) next t e = absurd (false_not_true (ap (λ (r : Bool × Locking). r.0) e))
  where
    false_not_true : false ≡ true → ⊥
    false_not_true e = cc

module _ (disk : Disk) where
  -- Within the directory `root`.
  abbrev pub IsLocked : (l : PackageReadLock) → (root path : Text) → (directory : Bool) → Type 0
  IsLocked l root path directory =
      (final_path : Text) × (path_within_or_equal disk.same final_path root ≡ true)
      × IsHeld l path directory final_path

  pub IsLocked-Kept :
      (l m : PackageReadLock) (root path : Text) (directory : Bool)
      → Kept l m
      → IsLocked l root path directory
      → IsLocked m root path directory
  IsLocked-Kept l m root path directory k (final_path, within, held) =
      (final_path, within, IsHeld-Kept l m path directory final_path k held)

  -- What lock_path has checked.
  abbrev Checked :
      (directory require : Bool)
      → (root : Text) → Option Information
      → Option Text
      → (new_root : Text) → Type 0
  Checked directory require root information final_path new_root =
      (path : Text) × (information
        ≡ some (record { is_directory = directory; is_reparse_point = false }))
      × (final_path ≡ some path)
      × (final_accepted disk require root path ≡ some new_root)

  accepted_lem :
      (directory require : Bool) (root : Text) (information : Option Information)
      (final_path : Option Text) (new_root : Text)
      → accepted disk directory require root information final_path ≡ some new_root
      → Checked directory require root information final_path new_root
  unfolding accepted
  accepted_lem directory require root none final_path new_root e = cc
  accepted_lem directory require root (some information) none new_root e = cc
  accepted_lem directory require root (some information) (some path) new_root e =
      elim (Bool-cases
        (information.is_reparse_point || differs information.is_directory directory)) [
          | inl refused ↦ absurd (none_not_some new_root (rw refused at e))
          | inr fine ↦ (path, ap some (regular information fine), refl, rw fine at e)
        ]
    where
      none_not_some : (r : Text) → none ≡ some r → ⊥
      none_not_some r h = cc

      regular :
          (i : Information)
          → (i.is_reparse_point || differs i.is_directory directory) ≡ false
          → i ≡ record { is_directory = directory; is_reparse_point = false }
      regular i h = ground arith

  pub lock_path_lem :
      (path : Text) (directory require : Bool) (s t : Locking)
      → lock_path disk path directory require s ≡ (true, t)
      → Kept s.lock t.lock
        × (t.locked_directories ≡ s.locked_directories)
        × ((final_path : Text) × (final_accepted disk require s.locked_root final_path
              ≡ some t.locked_root)
            × IsHeld t.lock path directory final_path)
  unfolding lock_path
  lock_path_lem path directory require s t e = go (disk.create_file s.lock.opened path directory) e
    where
      none_not_some : (r : Text) → none ≡ some r → ⊥
      none_not_some r h = cc

      false_not_true : false ≡ true → ⊥
      false_not_true h = cc

      go :
          (o : Option (Option Information × Option Text))
          → opened_path disk path directory require o s ≡ (true, t)
          → Kept s.lock t.lock
            × (t.locked_directories ≡ s.locked_directories)
            × ((final_path : Text) × (final_accepted disk require s.locked_root final_path
                  ≡ some t.locked_root)
                × IsHeld t.lock path directory final_path)
      go none e = absurd (false_not_true (ap (λ (r : Bool × Locking). r.0) e))
      go (some (information, final_path)) e =
          elim (Option-cases
            (accepted disk directory require s.locked_root information final_path)) [
              | inl refused ↦
                  absurd (false_not_true (ap (λ (r : Bool × Locking). r.0) (rw refused at e)))
              | inr (root, fine) ↦
                  let (p, regular, final, ok) =
                    accepted_lem directory require s.locked_root information final_path root fine in
                  let kept = ap (λ (r : Bool × Locking). r.1) (rw fine at e) in
                  subst
                    (λ (u : Locking).
                      Kept s.lock u.lock
                      × (u.locked_directories ≡ s.locked_directories)
                      × ((f : Text) × (final_accepted disk require s.locked_root f
                            ≡ some u.locked_root)
                          × IsHeld u.lock path directory f))
                    kept
                    (
                      λ h o. Occurs-front h s.lock.handles _ o,
                      refl,
                      (
                        p,
                        ok,
                        record {
                          handle = record {
                            number = s.lock.opened;
                            path = path;
                            information = information;
                            final_path = final_path;
                          };
                          stays = Occurs-last _ s.lock.handles;
                          opened_as = refl;
                          regular = regular;
                          final = final;
                        },
                      ),
                    )
            ]

  final_accepted-within :
      (root final_path new_root : Text)
      → final_accepted disk true root final_path ≡ some new_root
      → (new_root ≡ root) × (path_within_or_equal disk.same final_path root ≡ true)
  final_accepted-within root final_path new_root e =
      go (is_empty root) (path_within_or_equal disk.same final_path root) e
    where
      go :
          (a b : Bool)
          → (if a || not b then none else some root) ≡ some new_root
          → (new_root ≡ root) × (b ≡ true)
      go true b h = cc
      go false true h = (cc, refl)
      go false false h = cc

  pub lock_path-IsLocked :
      (final path : Text) (directory : Bool) (s t : Locking)
      → lock_path disk path directory true s ≡ (true, t)
      → s.locked_root ≡ final
      → Kept s.lock t.lock
        × (t.locked_directories ≡ s.locked_directories)
        × (t.locked_root ≡ final)
        × IsLocked t.lock final path directory
  lock_path-IsLocked final path directory s t e same =
      let (kept, directories, (f, ok, held)) = lock_path_lem path directory true s t e in
      let (new_root, within) = final_accepted-within s.locked_root f t.locked_root ok in
      (
        kept,
        directories,
        new_root ∙ same,
        (f, subst (λ (r : Text). path_within_or_equal disk.same f r ≡ true) same within, held),
      )

  module _ (root final : Text) where
    -- The directory is locked, by a path that may differ in the case of letters.
    abbrev pub DirectoryIsLocked : (l : PackageReadLock) → (key : Text) → Type 0
    DirectoryIsLocked l key =
        (directory : Text) × (map disk.lower directory ≡ key)
        × IsLocked l final (join_path root directory) true

    pub DirectoryIsLocked-Kept :
        (l m : PackageReadLock) (key : Text)
        → Kept l m
        → DirectoryIsLocked l key
        → DirectoryIsLocked m key
    DirectoryIsLocked-Kept l m key k (directory, same, locked) =
        (directory, same, IsLocked-Kept l m final (join_path root directory) true k locked)

    pub record IsBacked (s : Locking) : Type 0 where
      pub root_is : s.locked_root ≡ final
      pub backed :
          (key : Text) → is_seen key s.locked_directories ≡ true → DirectoryIsLocked s.lock key

    -- A call that locks P has kept what was locked.
    abbrev pub Locks : (P : PackageReadLock → Type 0) → Locking → Locking → Type 0
    Locks P s t = IsBacked t × Kept s.lock t.lock × P t.lock

    lock_fresh :
        (directory : Text) (s t : Locking)
        → lock_path disk (join_path root directory) true true (record s {
          locked_directories = s.locked_directories ++ map disk.lower directory ∷ [];
        })
          ≡ (true, t)
        → IsBacked s
        → Locks (λ l. DirectoryIsLocked l (map disk.lower directory)) s t
    lock_fresh directory s t e h =
        let (kept, directories, same_root, locked) =
          lock_path-IsLocked final (join_path root directory) true _ t e h.root_is in
        (
          record {
            root_is = same_root;
            backed = λ key seen.
                elim (is_seen-append key (map disk.lower directory) s.locked_directories
                  (subst (λ (ks : List Text). is_seen key ks ≡ true) directories seen)) [
                    | inl before ↦
                        DirectoryIsLocked-Kept s.lock t.lock key kept (h.backed key before)
                    | inr last ↦
                        (directory, sym (text_eq_lem key (map disk.lower directory) last), locked)
                  ];
          },
          kept,
          (directory, refl, locked),
        )

    pub lock_directory_lem :
        (directory : Text) (s t : Locking)
        → lock_directory disk root directory s ≡ (true, t)
        → IsBacked s
        → Locks (λ l. DirectoryIsLocked l (map disk.lower directory)) s t
    lock_directory_lem directory s t e h =
        elim (Bool-cases (is_seen (map disk.lower directory) s.locked_directories)) [
          | inl seen ↦
              subst (Locks (λ l. DirectoryIsLocked l (map disk.lower directory)) s)
                (ap (λ (r : Bool × Locking). r.1) (rw seen at e))
                (h, λ x o. o, h.backed (map disk.lower directory) seen)
          | inr fresh ↦ lock_fresh directory s t (rw fresh at e) h
        ]
