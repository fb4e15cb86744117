-- ===== src/ImportTable/Descriptors.antt =====
-- The loop over the import descriptors of src/iat_hook.cpp.
use ffb_interceptor_visualiz.Common.{
  ℕ, zero, suc, ◌+◌, ◌-◌, ◌*◌, ◌<◌, ◌≤◌, ◌≡◌, refl, ◌∙◌, Bool, true, false, Option, none, some,
  ◌==◌, if◌then◌else◌, arith, Bool-cases, inl, inr, ◌⊎◌,
}
use ffb_interceptor_visualiz.ImportTable.{
  Layout, Target, Memory, read, range_is_valid, bounded_ascii_equal_ci, Verdict, stops, skips,
  patches, faults, Outcome, finished, faulted, library_name, name_verdict,
}
use ffb_interceptor_visualiz.ImportTable.Modules.{
  descriptor_verdict, library_verdict, with_verdict, table_verdict, and_then, add_patched,
  proceed_with, patch_with, patch_at, follow_descriptor, patch_descriptors,
}
use ffb_interceptor_visualiz.ImportTable.Patching.{
  Patches, unpatched, Patching, joined, read-none, bounded_ascii_equal_ci-none, range_lem,
  patch_import_descriptor-Patching,
}

library_verdict-faults :
    (layout : Layout) (size at name : ℕ) (m : Memory)
    → at + 20 ≤ size
    → library_verdict layout size at name m ≡ faults
    → m.mapped < size
unfolding library_verdict
library_verdict-faults layout size at name m inside h =
    elim (Bool-cases (range_is_valid size name 1)) [
      | inl valid ↦
          named valid (bounded_ascii_equal_ci (size - name) library_name name m) refl
            (rw valid at h)
      | inr invalid ↦ absurd (other (rw invalid at h))
    ]
  where
    other : skips ≡ faults → ⊥
    other e = cc

    table :
        (o : Option ℕ)
        → read 4 at m ≡ o
        → with_verdict o (table_verdict layout size) ≡ faults
        → m.mapped < size
    table none e h = omega (arith, inside, read-none 4 at m e)
    table (some first) e h = ground arith

    named :
        range_is_valid size name 1 ≡ true
        → (o : Option Bool) → bounded_ascii_equal_ci (size - name) library_name name m ≡ o
        → and_then (name_verdict o) (with_verdict (read 4 at m) (table_verdict layout size))
          ≡ faults
        → m.mapped < size
    named valid none e h = omega (
      arith,
      range_lem size name 1 valid,
      bounded_ascii_equal_ci-none (size - name) library_name name m e,
    )
    named valid (some true) e h = table (read 4 at m) refl h
    named valid (some false) e h = absurd (other h)

descriptor_verdict-faults :
    (layout : Layout) (size at : ℕ) (m : Memory)
    → at + 20 ≤ size
    → descriptor_verdict layout size at m ≡ faults
    → m.mapped < size
unfolding descriptor_verdict
descriptor_verdict-faults layout size at m inside h = named (read 4 (at + 12) m) refl h
  where
    other : stops ≡ faults → ⊥
    other e = cc

    first :
        (name : ℕ) (o : Option ℕ)
        → read 4 (at + 16) m ≡ o
        → with_verdict o (λ first_thunk.
          if first_thunk == 0 then stops else library_verdict layout size at name m)
          ≡ faults
        → m.mapped < size
    first name none e h = omega (arith, inside, read-none 4 (at + 16) m e)
    first name (some thunk) e h = elim (Bool-cases (thunk == 0)) [
      | inl z ↦ absurd (other (rw z at h))
      | inr z ↦ library_verdict-faults layout size at name m inside (rw z at h)
    ]

    named :
        (o : Option ℕ)
        → read 4 (at + 12) m ≡ o
        → with_verdict o (λ name.
          if name == 0
          then with_verdict (read 4 (at + 16) m) (λ first_thunk.
            if first_thunk == 0 then stops else library_verdict layout size at name m)
          else library_verdict layout size at name m)
          ≡ faults
        → m.mapped < size
    named none e h = omega (arith, inside, read-none 4 (at + 12) m e)
    named (some name) e h = elim (Bool-cases (name == 0)) [
      | inl z ↦ first name (read 4 (at + 16) m) refl (rw z at h)
      | inr z ↦ library_verdict-faults layout size at name m inside (rw z at h)
    ]

add_patched-Patching :
    (t : Target) (size n : ℕ) (m between : Memory) (o : Outcome)
    → between.mapped ≡ m.mapped
    → Patches t size n m between
    → Patching t size between o
    → Patching t size m (add_patched n o)
add_patched-Patching t size n m between (finished k after) same p (here, q) =
    (here ∙ same, joined t size n k m between after p q)
add_patched-Patching t size n m between (faulted after) same p (short, k, q) =
    (omega (arith, same, short), n + k, joined t size n k m between after p q)

proceed_with-Patching :
    (t : Target) (size : ℕ) (m : Memory) (o : Outcome) (rest : Memory → Outcome)
    → Patching t size m o
    → ((between : Memory) → Patching t size between (rest between))
    → Patching t size m (proceed_with o rest)
proceed_with-Patching t size m (finished n between) rest (same, p) h =
    add_patched-Patching t size n m between (rest between) same p (h between)
proceed_with-Patching t size m (faulted after) rest p h = p

patch_with-Patching :
    (t : Target) (size : ℕ) (x y z : Option ℕ) (m : Memory)
    → ((x ≡ none) ⊎ (y ≡ none) ⊎ (z ≡ none) → m.mapped < size)
    → Patching t size m (patch_with t size x y z m)
patch_with-Patching t size (some x) (some y) (some z) m h =
    patch_import_descriptor-Patching t size _ m
patch_with-Patching t size none y z m h = (h (inl refl), 0, unpatched)
patch_with-Patching t size (some x) none z m h = (h (inr (inl refl)), 0, unpatched)
patch_with-Patching t size (some x) (some y) none m h = (h (inr (inr refl)), 0, unpatched)

patch_at-Patching :
    (t : Target) (size at : ℕ) (m : Memory)
    → at + 20 ≤ size
    → Patching t size m (patch_at t size at m)
unfolding patch_at
patch_at-Patching t size at m inside =
    patch_with-Patching t size (read 4 at m) (read 4 (at + 12) m) (read 4 (at + 16) m) m
      λ h. ground (arith, read-none 4 at m, read-none 4 (at + 12) m, read-none 4 (at + 16) m)

follow_descriptor-Patching :
    (t : Target) (size at : ℕ) (v : Verdict) (m : Memory) (rest : Memory → Outcome)
    → at + 20 ≤ size
    → (v ≡ faults → m.mapped < size)
    → ((between : Memory) → Patching t size between (rest between))
    → Patching t size m (follow_descriptor t size at v m rest)
unfolding follow_descriptor
follow_descriptor-Patching t size at stops m rest inside short h = (refl, unpatched)
follow_descriptor-Patching t size at skips m rest inside short h = h m
follow_descriptor-Patching t size at faults m rest inside short h = (short refl, 0, unpatched)
follow_descriptor-Patching t size at patches m rest inside short h =
    proceed_with-Patching t size m (patch_at t size at m) rest
      (patch_at-Patching t size at m inside) h

pub patch_descriptors-Patching :
    (t : Target) (size rva index left : ℕ) (m : Memory)
    → rva + (index + left) * 20 ≤ size
    → Patching t size m (patch_descriptors t size rva index left m)
unfolding patch_descriptors
patch_descriptors-Patching t size rva index zero m inside = (refl, unpatched)
patch_descriptors-Patching t size rva index (suc left) m inside =
    let at = rva + index * 20 in
    let here : at + 20 ≤ size = omega arith in
    follow_descriptor-Patching t size at (descriptor_verdict t.layout size at m) m _ here
      (descriptor_verdict-faults t.layout size at m here)
      λ between. patch_descriptors-Patching t size rva (index + 1) left between (omega arith)
