-- ===== src/ImportTable/Modules.antt =====
-- patch_direct_input8_imports and patch_loaded_direct_input_imports of src/iat_hook.cpp.
use ffb_interceptor_visualiz.Common.{
  ℕ, zero, suc, ◌+◌, ◌-◌, ◌*◌, ◌/◌, Bool, ◌&&◌, ◌||◌, not, List, [], ◌∷◌, Option, none, some, ltb,
  ◌==◌, if◌then◌else◌,
}
use ffb_interceptor_visualiz.ImportTable.{
  Layout, Target, Memory, read, range_is_valid, bounded_ascii_equal_ci, Verdict, stops, skips,
  patches, faults, Outcome, finished, faulted, library_name, name_verdict, patch_import_descriptor,
}

pub record Headers : Type 0 where
  pub image_size : ℕ
  pub directory_rva : ℕ
  pub directory_size : ℕ

-- The headers, where no test has returned 0 and no read has faulted.
pub data Parsed : Type 0 where
  unreadable refused : Parsed
  accepted : Headers → Parsed

abbrev pub with_value : Option ℕ → (ℕ → Parsed) → Parsed
with_value none use_it = unreadable
with_value (some value) use_it = use_it value

-- sizeof(IMAGE_IMPORT_DESCRIPTOR)
abbrev pub descriptor_size : ℕ
descriptor_size = 20

abbrev pub check_directory : (image_size directory_rva directory_size : ℕ) → Parsed
check_directory image_size directory_rva directory_size =
    if directory_rva == 0
      || ltb directory_size descriptor_size
      || not (range_is_valid image_size directory_rva directory_size)
    then refused
    else accepted (record {
      image_size = image_size;
      directory_rva = directory_rva;
      directory_size = directory_size;
    })

-- From IMAGE_NT_HEADERS on: the signature at 0, Magic at 24, SizeOfImage at 80. IMAGE_DOS_HEADER
-- has 64 bytes.
unfoldable pub read_nt_headers : Layout → (nt : ℕ) → Memory → Parsed
unfolding read range_is_valid
read_nt_headers layout nt m = with_value (read 4 nt m) λ signature.
    if not (signature == 0x4550)
    then refused
    else with_value (read 2 (nt + 24) m) λ magic.
      if not (magic == layout.optional_magic)
      then refused
      else with_value (read 4 (nt + 80) m) λ image_size.
        if ltb image_size 64 || ltb image_size (nt + layout.nt_size)
        then refused
        else with_value (read 4 (nt + layout.directory_at) m) λ directory_rva.
          with_value (read 4 (nt + layout.directory_at + 4) m)
            λ directory_size. check_directory image_size directory_rva directory_size

-- e_lfanew, at 60, is signed: where it is negative, its bits are a number above 2 ^ 20 as well.
unfoldable pub read_headers : Layout → Memory → Parsed
unfolding read_nt_headers
read_headers layout m = with_value (read 2 0 m) λ magic.
    if not (magic == 0x5a4d)
    then refused
    else with_value (read 4 60 m)
        λ nt. if nt == 0 || ltb (1024 * 1024) nt then refused else read_nt_headers layout nt m

abbrev pub with_verdict : Option ℕ → (ℕ → Verdict) → Verdict
with_verdict none use_it = faults
with_verdict (some value) use_it = use_it value

-- OriginalFirstThunk, behind the name of the right library.
abbrev pub table_verdict : Layout → (image_size : ℕ) → ℕ → Verdict
table_verdict layout image_size original_first_thunk =
    if not (original_first_thunk == 0)
      && not (range_is_valid image_size original_first_thunk layout.word)
    then skips
    else patches

abbrev pub and_then : Verdict → Verdict → Verdict
and_then patches later = later
and_then other later = other

unfoldable pub library_verdict :
    Layout → (image_size : ℕ) → (at : ℕ) → (name : ℕ) → Memory → Verdict
unfolding range_is_valid bounded_ascii_equal_ci read
library_verdict layout image_size at name m =
    if not (range_is_valid image_size name 1)
    then skips
    else and_then (name_verdict (bounded_ascii_equal_ci (image_size - name) library_name name m))
        (with_verdict (read 4 at m) (table_verdict layout image_size))

-- The descriptor at an address: OriginalFirstThunk, and Name at 12, FirstThunk at 16.
unfoldable pub descriptor_verdict : Layout → (image_size : ℕ) → (at : ℕ) → Memory → Verdict
unfolding library_verdict read
descriptor_verdict layout image_size at m = with_verdict (read 4 (at + 12) m) λ name.
    if name == 0
    then with_verdict (read 4 (at + 16) m) (λ first_thunk.
      if first_thunk == 0 then stops else library_verdict layout image_size at name m)
    else library_verdict layout image_size at name m

abbrev pub add_patched : ℕ → Outcome → Outcome
add_patched n (finished k m) = finished (n + k) m
add_patched n (faulted m) = faulted m

abbrev pub proceed_with : Outcome → (Memory → Outcome) → Outcome
proceed_with (finished n m) rest = add_patched n (rest m)
proceed_with (faulted m) rest = faulted m

-- The call of patch_import_descriptor, whose reads of the descriptor are here.
abbrev pub patch_with :
    Target
    → (image_size : ℕ) → (original_first_thunk name first_thunk : Option ℕ) → Memory
    → Outcome
patch_with t image_size (some original_first_thunk) (some name) (some first_thunk) m =
    patch_import_descriptor t image_size
      (record {
        original_first_thunk = original_first_thunk;
        name = name;
        first_thunk = first_thunk;
      })
      m
patch_with t image_size original_first_thunk name first_thunk m = faulted m

unfoldable pub patch_at : Target → (image_size : ℕ) → (at : ℕ) → Memory → Outcome
unfolding patch_import_descriptor read
patch_at t image_size at m =
    patch_with t image_size (read 4 at m) (read 4 (at + 12) m) (read 4 (at + 16) m) m

unfoldable pub follow_descriptor :
    Target → (image_size : ℕ) → (at : ℕ) → Verdict → Memory → (Memory → Outcome) → Outcome
unfolding patch_at
follow_descriptor t image_size at stops m rest = finished 0 m
follow_descriptor t image_size at skips m rest = rest m
follow_descriptor t image_size at faults m rest = faulted m
follow_descriptor t image_size at patches m rest = proceed_with (patch_at t image_size at m) rest

-- The loop over the descriptors, with so many left.
unfoldable pub patch_descriptors :
    Target → (image_size directory_rva index left : ℕ) → Memory → Outcome
unfolding descriptor_verdict follow_descriptor
patch_descriptors t image_size directory_rva index zero m = finished 0 m
patch_descriptors t image_size directory_rva index (suc left) m =
    let at = directory_rva + index * descriptor_size in
    let rest = patch_descriptors t image_size directory_rva (index + 1) left in
    follow_descriptor t image_size at (descriptor_verdict t.layout image_size at m) m rest

abbrev pub patch_parsed : Target → Parsed → Memory → Outcome
patch_parsed t unreadable m = faulted m
patch_parsed t refused m = finished 0 m
patch_parsed t (accepted h) m =
    patch_descriptors t h.image_size h.directory_rva 0 (h.directory_size / descriptor_size) m

unfoldable pub patch_direct_input8_imports_unchecked : Target → Memory → Outcome
unfolding read_headers patch_descriptors
patch_direct_input8_imports_unchecked t m =
    if t.base == 0 || t.original == 0 || t.replacement == 0
    then finished 0 m
    else patch_parsed t (read_headers t.layout m) m

-- The __except block: what has been patched stays patched.
abbrev pub caught : Outcome → ℕ × Memory
caught (finished n m) = (n, m)
caught (faulted m) = (0, m)

unfoldable pub patch_direct_input8_imports : Target → Memory → ℕ × Memory
unfolding patch_direct_input8_imports_unchecked
patch_direct_input8_imports t m = caught (patch_direct_input8_imports_unchecked t m)

-- A module of the snapshot, and whether GetModuleHandleExW can pin it.
pub record Loaded : Type 0 where
  pub target : Target
  pub pins : Bool
  pub memory : Memory

unfoldable pub patch_loaded : (excluded : ℕ) → Loaded → ℕ × Loaded
unfolding patch_direct_input8_imports
patch_loaded excluded l =
    if not (l.target.base == excluded) && l.pins
    then (let (n, m) = patch_direct_input8_imports l.target l.memory in
        (n, record l { memory = m }))
    else (0, l)

-- The modules of the snapshot in its order.
unfoldable pub patch_each : (excluded : ℕ) → List Loaded → ℕ × List Loaded
unfolding patch_loaded
patch_each excluded [] = (0, [])
patch_each excluded (l ∷ ls) =
    let (n, patched) = patch_loaded excluded l in
    let (k, rest) = patch_each excluded ls in (n + k, patched ∷ rest)
