-- ===== src/ImportTable/Patching.antt =====
-- What patch_direct_input8_imports of src/iat_hook.cpp does to a module's memory.
use ffb_interceptor_visualiz.Common.{
  ℕ, zero, suc, ◌+◌, ◌-◌, ◌*◌, ◌<◌, ◌≤◌, ◌≡◌, refl, ap, ◌∙◌, subst, Bool, true, false, ◌||◌, List,
  [], ◌∷◌, Option, none, some, ltb, ◌==◌, ==_iff, arith, Bool-cases, inl, inr, ◌⊎◌,
}
use ffb_interceptor_visualiz.ImportTable.{
  Layout, Target, Memory, read, write_le, range_is_valid, compare_character, bounded_ascii_equal_ci,
  write_slot, exchange, patch_pointer, Verdict, stops, skips, patches, faults, Outcome, finished,
  faulted, one_more, proceed, follow, function_name, name_verdict, named_verdict, lookup_verdict,
  slot_verdict, entry_verdict, patch_entries, Descriptor, patch_import_descriptor,
}

-- So many slots of the image have been replaced, one after the other, each of which held the
-- original pointer.
pub data Patches (t : Target) (image_size : ℕ) : ℕ → Memory → Memory → Type 0 where
  unpatched : {m : Memory} → Patches t image_size 0 m m
  patched :
      {n : ℕ} {m after : Memory} (slot : ℕ)
      → slot + t.layout.word ≤ image_size
      → read t.layout.word slot m ≡ some t.original
      → Patches t image_size n (write_slot t slot m) after
      → Patches t image_size (n + 1) m after

pub joined :
    (t : Target) (image_size n k : ℕ) (m between after : Memory)
    → Patches t image_size n m between
    → Patches t image_size k between after
    → Patches t image_size (n + k) m after
joined t size n k m between after (unpatched) q =
    subst (λ (i : ℕ). Patches t size i m after) (omega arith) q
joined t size n k m between after (patched {n = j} slot inside held p) q =
    subst (λ (i : ℕ). Patches t size i m after) (omega arith)
      (patched slot inside held (joined t size j k _ between after p q))

write_le-outside :
    (n value slot : ℕ) (bytes : ℕ → ℕ) (a : ℕ)
    → slot + n ≤ a
    → write_le n value slot bytes a ≡ bytes a
unfolding write_le
write_le-outside n value slot bytes a h =
    let behind : ltb a (slot + n) ≡ false = ground arith in
    elim (Bool-cases (ltb a slot)) [
      | inl before ↦ rw before refl
      | inr after ↦ simp (behind, after) refl
    ]

-- The replacements leave alone what stands behind the image.
pub Patches-outside :
    (t : Target) (image_size n : ℕ) (m after : Memory) (a : ℕ)
    → image_size ≤ a
    → Patches t image_size n m after
    → after.bytes a ≡ m.bytes a
Patches-outside t size n m after a behind (unpatched) = refl
Patches-outside t size n m after a behind (patched slot inside held p) =
    Patches-outside t size _ _ after a behind p
    ∙ write_le-outside t.layout.word t.replacement slot m.bytes a (omega (arith, inside, behind))

-- A fault is possible only where less than the image is mapped.
abbrev pub Patching : Target → (image_size : ℕ) → Memory → Outcome → Type 0
Patching t image_size m (finished n after) =
    (after.mapped ≡ m.mapped) × Patches t image_size n m after
Patching t image_size m (faulted after) =
    (m.mapped < image_size) × (n : ℕ) × Patches t image_size n m after

pub read-none : (n a : ℕ) (m : Memory) → read n a m ≡ none → m.mapped < a + n
unfolding read
read-none n a m h = ground arith

pub bounded_ascii_equal_ci-none :
    (available : ℕ) (expected : List ℕ) (a : ℕ) (m : Memory)
    → bounded_ascii_equal_ci available expected a m ≡ none
    → m.mapped < a + available
unfolding bounded_ascii_equal_ci read compare_character
bounded_ascii_equal_ci-none zero expected a m h = ground arith
bounded_ascii_equal_ci-none (suc n) [] a m h = ground arith
bounded_ascii_equal_ci-none (suc n) (c ∷ cs) a m h =
    ground (arith, bounded_ascii_equal_ci-none n cs (a + 1) m)

pub range_lem : (size a n : ℕ) → range_is_valid size a n ≡ true → a + n ≤ size
unfolding range_is_valid
range_lem size a n h = ground arith

pub name_verdict-faults : (o : Option Bool) → name_verdict o ≡ faults → o ≡ none
name_verdict-faults none h = refl
name_verdict-faults (some true) h = cc
name_verdict-faults (some false) h = cc

named_verdict-faults :
    (size name : ℕ) (m : Memory) → named_verdict size name m ≡ faults → m.mapped < size
unfolding named_verdict
named_verdict-faults size name m h = ground (
  arith,
  name_verdict-faults (bounded_ascii_equal_ci (size - (name + 2)) function_name (name + 2) m),
  bounded_ascii_equal_ci-none (size - (name + 2)) function_name (name + 2) m,
)

lookup_verdict-faults :
    (layout : Layout) (size : ℕ) (m : Memory) (o : Option ℕ)
    → lookup_verdict layout size m o ≡ faults
    → (o ≡ none) ⊎ (m.mapped < size)
unfolding lookup_verdict
lookup_verdict-faults layout size m none h = inl refl
lookup_verdict-faults layout size m (some lookup) h =
    ground (arith, named_verdict-faults size lookup m)

slot_verdict-faults : (o : Option ℕ) → slot_verdict o ≡ faults → o ≡ none
slot_verdict-faults none h = refl
slot_verdict-faults (some p) h = ground arith

entry_verdict-faults :
    (layout : Layout) (image_size lookup_rva index slot : ℕ) (m : Memory)
    → slot + layout.word ≤ image_size
    → entry_verdict layout image_size lookup_rva index slot m ≡ faults
    → m.mapped < image_size
unfolding entry_verdict
entry_verdict-faults layout size lookup_rva index slot m inside h =
    let entry = lookup_rva + index * layout.word in
    ground (
      arith,
      slot_verdict-faults (read layout.word slot m),
      lookup_verdict-faults layout size m (read layout.word entry m),
      read-none layout.word slot m,
      read-none layout.word entry m,
      range_lem size entry layout.word,
    )

-- The exchange of one slot, and the turns behind it.
one_more-Patching :
    (t : Target) (size slot : ℕ) (m : Memory) (o : Outcome)
    → slot + t.layout.word ≤ size
    → read t.layout.word slot m ≡ some t.original
    → Patching t size (write_slot t slot m) o
    → Patching t size m (one_more o)
one_more-Patching t size slot m (finished n after) inside held (same, p) =
    (same, patched slot inside held p)
one_more-Patching t size slot m (faulted after) inside held (short, n, p) =
    (short, n + 1, patched slot inside held p)

exchange-Patching :
    (t : Target) (size slot : ℕ) (m : Memory) (o : Option ℕ) (rest : Memory → Outcome)
    → slot + t.layout.word ≤ size
    → read t.layout.word slot m ≡ o
    → ((between : Memory) → Patching t size between (rest between))
    → Patching t size m (proceed (exchange t slot m o) m rest)
exchange-Patching t size slot m none rest inside e h =
    (omega (arith, inside, read-none t.layout.word slot m e), 0, unpatched)
exchange-Patching t size slot m (some observed) rest inside e h =
    elim (Bool-cases (observed == t.original)) [
      | inl same ↦
          let held : observed ≡ t.original = (==_iff observed t.original).0 same in
          rw same (
            one_more-Patching t size slot m (rest (write_slot t slot m)) inside (e ∙ ap some held)
              (h (write_slot t slot m)))
      | inr other ↦ rw other (h m)
    ]

patch_pointer-Patching :
    (t : Target) (size slot : ℕ) (m : Memory) (rest : Memory → Outcome)
    → slot + t.layout.word ≤ size
    → ((between : Memory) → Patching t size between (rest between))
    → Patching t size m (proceed (patch_pointer t slot m) m rest)
unfolding patch_pointer
patch_pointer-Patching t size slot m rest inside h =
    elim (Bool-cases (
      t.base + slot == 0 || t.original == 0 || t.replacement == 0 || t.original == t.replacement)) [
        | inl null ↦ rw null (h m)
        | inr given ↦ elim (Bool-cases (t.protects slot)) [
          | inl free ↦
              rw (given, free)
                (exchange-Patching t size slot m (read t.layout.word slot m) rest inside refl h)
          | inr locked ↦ rw (given, locked) (h m)
        ]
      ]

follow-Patching :
    (t : Target) (size slot : ℕ) (v : Verdict) (m : Memory) (rest : Memory → Outcome)
    → slot + t.layout.word ≤ size
    → (v ≡ faults → m.mapped < size)
    → ((between : Memory) → Patching t size between (rest between))
    → Patching t size m (follow t slot v m rest)
unfolding follow
follow-Patching t size slot stops m rest inside short h = (refl, unpatched)
follow-Patching t size slot skips m rest inside short h = h m
follow-Patching t size slot faults m rest inside short h = (short refl, 0, unpatched)
follow-Patching t size slot patches m rest inside short h =
    patch_pointer-Patching t size slot m rest inside h

patch_entries-Patching :
    (t : Target) (size first_thunk lookup_rva index left : ℕ) (m : Memory)
    → Patching t size m (patch_entries t size first_thunk lookup_rva index left m)
unfolding patch_entries
patch_entries-Patching t size first_thunk lookup_rva index zero m = (refl, unpatched)
patch_entries-Patching t size first_thunk lookup_rva index (suc left) m =
    let slot = first_thunk + index * t.layout.word in
    let v = entry_verdict t.layout size lookup_rva index slot m in
    elim (Bool-cases (range_is_valid size slot t.layout.word)) [
      | inl valid ↦
          let inside = range_lem size slot t.layout.word valid in
          rw valid (
            follow-Patching t size slot v m
              (patch_entries t size first_thunk lookup_rva (index + 1) left) inside
              (entry_verdict-faults t.layout size lookup_rva index slot m inside)
              (λ between.
                patch_entries-Patching t size first_thunk lookup_rva (index + 1) left between))
      | inr invalid ↦ rw invalid (refl, unpatched)
    ]

pub patch_import_descriptor-Patching :
    (t : Target) (size : ℕ) (d : Descriptor) (m : Memory)
    → Patching t size m (patch_import_descriptor t size d m)
unfolding patch_import_descriptor
patch_import_descriptor-Patching t size d m =
    elim (Bool-cases (range_is_valid size d.first_thunk t.layout.word)) [
      | inl valid ↦
          rw valid (patch_entries-Patching t size d.first_thunk d.original_first_thunk 0 _ m)
      | inr invalid ↦ rw invalid (refl, unpatched)
    ]
