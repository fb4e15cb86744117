-- ===== src/Manager/Lock/Handles.antt =====
-- No handle is lost by acquire_package_read_lock of launcher/manager_model.cpp.
use ffb_interceptor_visualiz.Common.{
  ℕ, suc, ◌+◌, ◌≡◌, refl, ap, subst, ◌∙◌, Bool, true, false, List, [], ◌∷◌, ◌++◌, map, Option, none,
  some, ltb, arith, if◌then◌else◌, ◌==◌, Bool-cases, inl, inr,
}
use ffb_interceptor_visualiz.Common.{count}
use ffb_interceptor_visualiz.Manager.Elevated.{Text, path_is_absolute_local}
use ffb_interceptor_visualiz.Manager.Manifest.{ManifestEntry, is_seen}
use ffb_interceptor_visualiz.Manager.Integrity.{PackageLayout, join_path}
use ffb_interceptor_visualiz.Manager.Lock.{
  Information, Handle, Disk, PackageReadLock, numbers, clear, Locking, and_then, accepted, keep,
  opened_path, lock_path, directories_of, lock_directory, lock_directories, lock_entry,
  lock_entries, lock_parsed, parse_read, lock_contents, lock_manifest, lock_package, cleared,
  acquire_into, acquire_package_read_lock,
}

-- Each handle that has been opened is in the lock or has been closed, once.
abbrev pub IsCounted : PackageReadLock → Type 0
IsCounted s =
    (i : ℕ) → count i s.closed + count i (numbers s.handles) ≡ (if ltb i s.opened then 1 else 0)

count-append : (i : ℕ) (xs ys : List ℕ) → count i (xs ++ ys) ≡ count i xs + count i ys
count-append i [] ys = omega arith
count-append i (x ∷ xs) ys = omega (arith, count-append i xs ys)

numbers-append : (xs ys : List Handle) → numbers (xs ++ ys) ≡ numbers xs ++ numbers ys
numbers-append [] ys = refl
numbers-append (h ∷ hs) ys = rw (numbers-append hs ys)

next_count :
    (i n : ℕ)
    → (if ltb i n then 1 else 0) + (if i == n then 1 else 0) ≡ (if ltb i (suc n) then 1 else 0)
next_count i n = ground arith

clear-IsCounted : (s : PackageReadLock) → IsCounted s → IsCounted (clear s)
clear-IsCounted s h i = rw (count-append i s.closed (numbers s.handles)) (omega (arith, h i))

module _ (disk : Disk) where
  keep-IsCounted :
      (handle : Handle) (o : Option Text) (s : Locking)
      → handle.number ≡ s.lock.opened
      → IsCounted s.lock
      → IsCounted (keep disk handle o s).1.lock
  keep-IsCounted handle none s same h i =
      rw (count-append i s.lock.closed (handle.number ∷ []), same)
        (omega (arith, h i, next_count i s.lock.opened))
  keep-IsCounted handle (some root) s same h i =
      rw
        (
          numbers-append s.lock.handles (handle ∷ []),
          count-append i (numbers s.lock.handles) (handle.number ∷ []),
          same,
        )
        (omega (arith, h i, next_count i s.lock.opened))

  lock_path-IsCounted :
      (path : Text) (directory require : Bool) (s : Locking)
      → IsCounted s.lock
      → IsCounted (lock_path disk path directory require s).1.lock
  unfolding lock_path
  lock_path-IsCounted path directory require s h =
      go (disk.create_file s.lock.opened path directory)
    where
      go :
          (o : Option (Option Information × Option Text))
          → IsCounted (opened_path disk path directory require o s).1.lock
      go none = h
      go (some (information, final_path)) =
          keep-IsCounted _ (accepted disk directory require s.locked_root information final_path) s
            refl h

  and_then-IsCounted :
      (r : Bool × Locking) (next : Locking → Bool × Locking)
      → IsCounted r.1.lock
      → ((s : Locking) → IsCounted s.lock → IsCounted (next s).1.lock)
      → IsCounted (and_then r next).1.lock
  and_then-IsCounted (true, s) next h k = k s h
  and_then-IsCounted (false, s) next h k = h

  lock_directory-IsCounted :
      (root directory : Text) (s : Locking)
      → IsCounted s.lock
      → IsCounted (lock_directory disk root directory s).1.lock
  lock_directory-IsCounted root directory s h =
      elim (Bool-cases (is_seen (map disk.lower directory) s.locked_directories)) [
        | inl seen ↦ rw seen h
        | inr fresh ↦ rw fresh (lock_path-IsCounted (join_path root directory) true true _ h)
      ]

  lock_directories-IsCounted :
      (root : Text) (directories : List Text) (s : Locking)
      → IsCounted s.lock
      → IsCounted (lock_directories disk root directories s).1.lock
  unfolding lock_directories
  lock_directories-IsCounted root [] s h = h
  lock_directories-IsCounted root (directory ∷ directories) s h =
      and_then-IsCounted (lock_directory disk root directory s)
        (lock_directories disk root directories) (lock_directory-IsCounted root directory s h)
        (lock_directories-IsCounted root directories)

  lock_entry-IsCounted :
      (root : Text) (entry : ManifestEntry) (s : Locking)
      → IsCounted s.lock
      → IsCounted (lock_entry disk root entry s).1.lock
  unfolding lock_entry
  lock_entry-IsCounted root entry s h =
      and_then-IsCounted (lock_directories disk root (directories_of disk entry.relative_path) s)
        (lock_path disk (join_path root entry.relative_path) false true)
        (lock_directories-IsCounted root _ s h)
        (lock_path-IsCounted (join_path root entry.relative_path) false true)

  lock_entries-IsCounted :
      (root : Text) (entries : List ManifestEntry) (s : Locking)
      → IsCounted s.lock
      → IsCounted (lock_entries disk root entries s).1.lock
  unfolding lock_entries
  lock_entries-IsCounted root [] s h = h
  lock_entries-IsCounted root (entry ∷ entries) s h =
      and_then-IsCounted (lock_entry disk root entry s) (lock_entries disk root entries)
        (lock_entry-IsCounted root entry s h) (lock_entries-IsCounted root entries)

  lock_parsed-IsCounted :
      (root : Text) (o : Option (List ManifestEntry)) (s : Locking)
      → IsCounted s.lock
      → IsCounted (lock_parsed disk root o s).1.lock
  lock_parsed-IsCounted root none s h = h
  lock_parsed-IsCounted root (some entries) s h = lock_entries-IsCounted root entries s h

  lock_package-IsCounted :
      (layout : PackageLayout) (s : Locking)
      → IsCounted s.lock
      → IsCounted (lock_package disk layout s).1.lock
  unfolding lock_package
  lock_package-IsCounted layout s h =
      and_then-IsCounted (lock_path disk layout.root true false s) (lock_manifest disk layout)
        (lock_path-IsCounted layout.root true false s h)
        λ s1 h1.
          and_then-IsCounted (lock_path disk layout.manifest_path false true s1)
            (lock_contents disk layout) (lock_path-IsCounted layout.manifest_path false true s1 h1)
            (lock_parsed-IsCounted layout.root
              (parse_read disk (disk.read_file_limited layout.manifest_path)))

  cleared-IsCounted : (r : Bool × Locking) → IsCounted r.1.lock → IsCounted (cleared disk r).1
  cleared-IsCounted (true, s) h = h
  cleared-IsCounted (false, s) h = clear-IsCounted s.lock h

  cleared-handles :
      (r : Bool × Locking) → (cleared disk r).0 ≡ false → (cleared disk r).1.handles ≡ []
  cleared-handles (true, s) h = cc
  cleared-handles (false, s) h = refl

  acquire_into_counts :
      (layout : PackageLayout) (s : PackageReadLock)
      → IsCounted s
      → IsCounted (acquire_into disk layout s).1
        × (path_is_absolute_local disk.drive_type layout.root ≡ true
            → (acquire_into disk layout s).0 ≡ false
            → (acquire_into disk layout s).1.handles ≡ [])
  unfolding acquire_into
  acquire_into_counts layout s h =
      elim (Bool-cases (path_is_absolute_local disk.drive_type layout.root)) [
        | inl near ↦ rw near (
          cleared-IsCounted _ (lock_package-IsCounted layout start (clear-IsCounted s h)),
          λ same. cleared-handles (lock_package disk layout start),
        )
        | inr far ↦ rw far (h, λ near. cc)
      ]
    where
      start : Locking
      start = record { lock = clear s; locked_root = []; locked_directories = [] }

  lock_of : PackageReadLock → Option PackageReadLock → PackageReadLock
  lock_of s none = s
  lock_of s (some t) = t

  -- Where each handle that has been opened is in the lock or has been closed once, that is so
  -- behind acquire_package_read_lock, whatever Windows answers. If the package is on a local drive
  -- and cannot be locked, the lock is empty: each handle has then been closed once.
  pub acquire_package_read_lock_counts :
      (layout : PackageLayout) (s t : PackageReadLock) (ok : Bool)
      → IsCounted s
      → acquire_package_read_lock disk layout (some s) ≡ (ok, some t)
      → IsCounted t
        × (path_is_absolute_local disk.drive_type layout.root ≡ true → ok ≡ false → t.handles ≡ [])
  unfolding acquire_package_read_lock lock_of
  acquire_package_read_lock_counts layout s t ok h e =
      let same = ap (λ (r : Bool × Option PackageReadLock). lock_of s r.1) e in
      let result = ap (λ (r : Bool × Option PackageReadLock). r.0) e in
      let counts = acquire_into_counts layout s h in
      (
        subst IsCounted same counts.0,
        λ near failed.
            subst (λ (u : PackageReadLock). u.handles ≡ []) same (counts.1 near (result ∙ failed)),
      )
