-- ===== src/ImportTable/Image.antt =====
-- What patch_direct_input8_imports of src/iat_hook.cpp does to a mapped image.
use ffb_interceptor_visualiz.Common.{
  ℕ, ◌+◌, ◌/◌, ◌≤◌, ◌≡◌, refl, subst, Bool, true, false, ◌||◌, not, Option, none, some, ltb, ◌==◌,
  if◌then◌else◌, arith, Bool-cases, inl, inr, ◌⊎◌,
}
use ffb_interceptor_visualiz.ImportTable.{
  Layout, Target, Memory, range_is_valid, Outcome, finished, faulted,
}
use ffb_interceptor_visualiz.ImportTable.Modules.{
  Headers, Parsed, refused, accepted, read_headers, patch_parsed,
  patch_direct_input8_imports_unchecked, patch_direct_input8_imports, caught, check_directory,
  with_value, read_nt_headers,
}
use ffb_interceptor_visualiz.ImportTable.Patching.{
  Patches, Patches-outside, unpatched, Patching, range_lem,
}
use ffb_interceptor_visualiz.ImportTable.Descriptors.{patch_descriptors-Patching}

-- The tests of the headers keep the import directory in the image.
abbrev pub Fits : Parsed → Type 0
Fits (accepted h) = h.directory_rva + h.directory_size ≤ h.image_size
Fits other = Unit {0}

with_value-Fits :
    (o : Option ℕ) (use_it : ℕ → Parsed) → ((v : ℕ) → Fits (use_it v)) → Fits (with_value o use_it)
with_value-Fits none use_it h = tt
with_value-Fits (some v) use_it h = h v

unless-Fits : (b : Bool) (p : Parsed) → (b ≡ false → Fits p) → Fits (if b then refused else p)
unless-Fits true p h = tt
unless-Fits false p h = h refl

check_directory-Fits : (size rva length : ℕ) → Fits (check_directory size rva length)
check_directory-Fits size rva length =
    unless-Fits (rva == 0 || ltb length 20 || not (range_is_valid size rva length))
      (accepted (record { image_size = size; directory_rva = rva; directory_size = length }))
      λ e. range_lem size rva length (ground arith)

read_nt_headers-Fits : (layout : Layout) (nt : ℕ) (m : Memory) → Fits (read_nt_headers layout nt m)
unfolding read_nt_headers
read_nt_headers-Fits layout nt m =
    search (with_value-Fits, unless-Fits, check_directory-Fits) depth 16

read_headers-Fits : (layout : Layout) (m : Memory) → Fits (read_headers layout m)
unfolding read_headers
read_headers-Fits layout m = search (with_value-Fits, unless-Fits, read_nt_headers-Fits)

patch_parsed-Patching :
    (t : Target) (h : Headers) (m : Memory)
    → Fits (accepted h)
    → Patching t h.image_size m (patch_parsed t (accepted h) m)
patch_parsed-Patching t h m fits =
    patch_descriptors-Patching t h.image_size h.directory_rva 0 (h.directory_size / 20) m
      (omega (arith, fits))

unchecked-Patching :
    (t : Target) (h : Headers) (m : Memory)
    → read_headers t.layout m ≡ accepted h
    → Patching t h.image_size m (patch_direct_input8_imports_unchecked t m)
unfolding patch_direct_input8_imports_unchecked
unchecked-Patching t h m e =
    elim (Bool-cases (t.base == 0 || t.original == 0 || t.replacement == 0)) [
      | inl null ↦ rw null (refl, unpatched)
      | inr given ↦
          rw (given, e) (patch_parsed-Patching t h m (subst Fits e (read_headers-Fits t.layout m)))
    ]

-- Where the image is mapped as far as its headers say, patch_direct_input8_imports returns the
-- number of slots that it has replaced, and has done nothing else to the memory: one after the
-- other, each slot stood in the image and held the original pointer.
pub patch_direct_input8_imports-Patches :
    (t : Target) (h : Headers) (m : Memory)
    → read_headers t.layout m ≡ accepted h
    → h.image_size ≤ m.mapped
    → let (n, after) = patch_direct_input8_imports t m in Patches t h.image_size n m after
unfolding patch_direct_input8_imports
patch_direct_input8_imports-Patches t h m e mapped =
    go (patch_direct_input8_imports_unchecked t m) (unchecked-Patching t h m e)
  where
    go :
        (o : Outcome)
        → Patching t h.image_size m o
        → Patches t h.image_size (caught o).0 m (caught o).1
    go (finished n after) (same, p) = p
    go (faulted after) (short, n, p) = absurd (omega (arith, short, mapped))

-- Whether or not a read faults: only slots in the image that held the original pointer have been
-- replaced, and the result is their number or 0.
pub patch_direct_input8_imports_faults :
    (t : Target) (h : Headers) (m : Memory)
    → read_headers t.layout m ≡ accepted h
    → let (n, after) = patch_direct_input8_imports t m in
      (k : ℕ) × Patches t h.image_size k m after × ((n ≡ k) ⊎ (n ≡ 0))
unfolding patch_direct_input8_imports
patch_direct_input8_imports_faults t h m e =
    go (patch_direct_input8_imports_unchecked t m) (unchecked-Patching t h m e)
  where
    go :
        (o : Outcome)
        → Patching t h.image_size m o
        → (k : ℕ) × Patches t h.image_size k m (caught o).1
          × (((caught o).0 ≡ k) ⊎ ((caught o).0 ≡ 0))
    go (finished n after) (same, p) = (n, p, inl refl)
    go (faulted after) (short, n, p) = (n, p, inr refl)

-- Whether or not a read faults, no byte behind the image is changed.
pub patch_direct_input8_imports_outside :
    (t : Target) (h : Headers) (m : Memory) (a : ℕ)
    → read_headers t.layout m ≡ accepted h
    → h.image_size ≤ a
    → (patch_direct_input8_imports t m).1.bytes a ≡ m.bytes a
patch_direct_input8_imports_outside t h m a e behind =
    let (k, p, n) = patch_direct_input8_imports_faults t h m e in
    Patches-outside t h.image_size k m (patch_direct_input8_imports t m).1 a behind p
