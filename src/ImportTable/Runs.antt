-- ===== src/ImportTable/Runs.antt =====
-- A small module with one import of dinput8.dll (by ordinal, and by name).
use ffb_interceptor_visualiz.Common.{
  ℕ, ◌+◌, ◌-◌, ◌≡◌, refl, true, false, not, ◌||◌, List, [], ◌∷◌, some, ltb, if◌then◌else◌, ◌⊎◌,
  length, arith, get_or,
}
use ffb_interceptor_visualiz.ImportTable.{
  Layout, Target, Memory, read, read_le, write_le, range_is_valid, fold_case, compare_character,
  bounded_ascii_equal_ci, patch_pointer, follow, function_name, library_name, named_verdict,
  lookup_verdict, entry_verdict, patch_entries, patch_import_descriptor,
}
use ffb_interceptor_visualiz.ImportTable.Modules.{
  Headers, accepted, read_headers, read_nt_headers, descriptor_verdict, library_verdict, patch_at,
  follow_descriptor, patch_descriptors, patch_direct_input8_imports_unchecked,
  patch_direct_input8_imports, Loaded, patch_each,
}
use ffb_interceptor_visualiz.ImportTable.Patching.{Patches}
use ffb_interceptor_visualiz.ImportTable.Loaded.{EachPatched, patch_each-EachPatched}
use ffb_interceptor_visualiz.ImportTable.Names.{
  Holds, IsText, same_text, bounded_ascii_equal_ci-same_text,
}
use ffb_interceptor_visualiz.ImportTable.Image.{
  patch_direct_input8_imports-Patches, patch_direct_input8_imports_faults,
  patch_direct_input8_imports_outside,
}

abbrev layout : Layout
layout = record { word = 8; optional_magic = 0x20b; nt_size = 264; directory_at = 144 }

abbrev target : Target
target = record {
  layout = layout;
  base = 4096;
  original = 7;
  replacement = 8;
  protects = λ slot. true;
}

-- Bytes at an offset, and zeros elsewhere.
abbrev placed : List (ℕ × List ℕ) → ℕ → ℕ
placed [] a = 0
placed ((at, values) ∷ more) a =
    let rest = placed more a in
    if ltb a at || not (ltb a (at + length values)) then rest else get_or values (a - at) 0

abbrev image : Memory
image = record {
  mapped = 512;
  bytes = placed (
      (0, 0x4d ∷ 0x5a ∷ [])
      ∷ (60, 64 ∷ [])
      ∷ (64, 0x50 ∷ 0x45 ∷ [])
      ∷ (88, 0x0b ∷ 0x02 ∷ [])
      ∷ (144, 0 ∷ 2 ∷ [])
      ∷ (208, 0x4a ∷ 1 ∷ 0 ∷ 0 ∷ 40 ∷ [])
      ∷ (330, 0x90 ∷ 1 ∷ [])
      ∷ (342, 0x7c ∷ 1 ∷ 0 ∷ 0 ∷ 0xb8 ∷ 1 ∷ [])
      ∷ (380, library_name)
      ∷ (400, 1 ∷ 0 ∷ 0 ∷ 0 ∷ 0 ∷ 0 ∷ 0 ∷ 128 ∷ 0xd6 ∷ 1 ∷ [])
      ∷ (440, 7 ∷ 0 ∷ 0 ∷ 0 ∷ 0 ∷ 0 ∷ 0 ∷ 0 ∷ 9 ∷ [])
      ∷ (472, function_name)
      ∷ []);
}

abbrev headers : Headers
headers = record { image_size = 512; directory_rva = 330; directory_size = 40 }

headers_read : read_headers layout image ≡ accepted headers
unfolding read_headers read_nt_headers read read_le range_is_valid
headers_read = refl

one_patched : (patch_direct_input8_imports target image).0 ≡ 1
unfolding patch_direct_input8_imports patch_direct_input8_imports_unchecked read_headers
    read_nt_headers read read_le write_le range_is_valid patch_descriptors descriptor_verdict
    library_verdict follow_descriptor patch_at patch_import_descriptor patch_entries entry_verdict
    lookup_verdict named_verdict bounded_ascii_equal_ci compare_character fold_case follow
    patch_pointer
one_patched = refl

original_replaced : read 8 440 (patch_direct_input8_imports target image).1 ≡ some 8
unfolding patch_direct_input8_imports patch_direct_input8_imports_unchecked read_headers
    read_nt_headers read read_le write_le range_is_valid patch_descriptors descriptor_verdict
    library_verdict follow_descriptor patch_at patch_import_descriptor patch_entries entry_verdict
    lookup_verdict named_verdict bounded_ascii_equal_ci compare_character fold_case follow
    patch_pointer
original_replaced = refl

other_kept : read 8 448 (patch_direct_input8_imports target image).1 ≡ some 9
unfolding patch_direct_input8_imports patch_direct_input8_imports_unchecked read_headers
    read_nt_headers read read_le write_le range_is_valid patch_descriptors descriptor_verdict
    library_verdict follow_descriptor patch_at patch_import_descriptor patch_entries entry_verdict
    lookup_verdict named_verdict bounded_ascii_equal_ci compare_character fold_case follow
    patch_pointer
other_kept = refl

patch_direct_input8_imports-Patches_example :
    Patches target 512
      (patch_direct_input8_imports target image).0
      image
      (patch_direct_input8_imports target image).1
patch_direct_input8_imports-Patches_example =
    patch_direct_input8_imports-Patches target headers image headers_read (omega arith)

patch_direct_input8_imports_faults_example :
    (k : ℕ) × Patches target 512 k image (patch_direct_input8_imports target image).1
    × (((patch_direct_input8_imports target image).0 ≡ k)
        ⊎ ((patch_direct_input8_imports target image).0 ≡ 0))
patch_direct_input8_imports_faults_example =
    patch_direct_input8_imports_faults target headers image headers_read

patch_direct_input8_imports_outside_example :
    (patch_direct_input8_imports target image).1.bytes 600 ≡ image.bytes 600
patch_direct_input8_imports_outside_example =
    patch_direct_input8_imports_outside target headers image 600 headers_read (omega arith)

-- A name in another case.
abbrev shouted_name : List ℕ
shouted_name = 68 ∷ 73 ∷ 78 ∷ 80 ∷ 85 ∷ 84 ∷ 56 ∷ 46 ∷ 100 ∷ 108 ∷ 108 ∷ []

abbrev shouted : Memory
shouted = record { mapped = 20; bytes = placed ((4, shouted_name) ∷ []) }

shouted_name-IsText : IsText shouted_name
shouted_name-IsText = ground arith

library_name-IsText : IsText library_name
library_name-IsText = ground arith

shouted_held : Holds shouted_name 4 shouted
unfolding read read_le
shouted_held =
    (refl, (refl, (refl, (refl, (refl, (refl, (refl, (refl, (refl, (refl, (refl, refl)))))))))))

shouted_same : same_text shouted_name library_name ≡ true
unfolding same_text fold_case
shouted_same = refl

bounded_ascii_equal_ci-same_text_example :
    bounded_ascii_equal_ci 16 library_name 4 shouted ≡ some (same_text shouted_name library_name)
bounded_ascii_equal_ci-same_text_example =
    bounded_ascii_equal_ci-same_text 16 shouted_name library_name 4 shouted (omega arith)
      shouted_name-IsText library_name-IsText shouted_held

-- The hook's own module, another one, and one that cannot be pinned.
abbrev modules : List Loaded
modules =
    record { target = record target { base = 5 }; pins = true; memory = image }
    ∷ record { target = target; pins = true; memory = image }
    ∷ record { target = record target { base = 6 }; pins = false; memory = image }
    ∷ []

patch_each-EachPatched_example :
    EachPatched 5 (patch_each 5 modules).0 modules (patch_each 5 modules).1
patch_each-EachPatched_example = patch_each-EachPatched 5 modules
