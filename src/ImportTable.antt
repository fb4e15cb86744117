-- ===== src/ImportTable.antt =====
-- The import table of a mapped module, src/iat_hook.cpp. An address is an offset from the module's
-- base. Reads behind the mapped part are the access violations that the __except block catches.
-- The fields of a descriptor are read once, before its slots are patched.
pub mod Modules
mod Patching
mod Descriptors
mod Image
mod Names
mod Loaded
mod Runs
use ffb_interceptor_visualiz.Common.{
  ℕ, zero, suc, ◌+◌, ◌-◌, ◌*◌, ◌/◌, ◌%◌, ◌^◌, Bool, true, false, ◌&&◌, ◌||◌, not, List, [], ◌∷◌,
  Option, none, some, ltb, ◌==◌, if◌then◌else◌,
}

-- What winnt.h says of the headers of this architecture: sizeof(void*), the magic number of the
-- optional header, sizeof(IMAGE_NT_HEADERS), and where in it the import directory stands.
pub record Layout : Type 0 where
  pub word : ℕ
  pub optional_magic : ℕ
  pub nt_size : ℕ
  pub directory_at : ℕ

-- What is to be patched: the module's base, the pointers, and for which slots VirtualProtect works.
pub record Target : Type 0 where
  pub layout : Layout
  pub base : ℕ
  pub original : ℕ
  pub replacement : ℕ
  pub protects : ℕ → Bool

pub record Memory : Type 0 where
  pub mapped : ℕ
  pub bytes : ℕ → ℕ

-- A little-endian number.
unfoldable pub read_le : ℕ → (ℕ → ℕ) → ℕ → ℕ
read_le zero bytes a = 0
read_le (suc n) bytes a = bytes a + 256 * read_le n bytes (a + 1)

unfoldable pub write_le : ℕ → (value : ℕ) → (address : ℕ) → (ℕ → ℕ) → ℕ → ℕ
write_le n value address bytes a =
    if ltb a address || not (ltb a (address + n))
    then bytes a
    else value / 256 ^ (a - address) % 256

unfoldable pub read : (size : ℕ) → (address : ℕ) → Memory → Option ℕ
unfolding read_le
read size a m = if ltb m.mapped (a + size) then none else some (read_le size m.bytes a)

unfoldable pub range_is_valid : (image_size rva length : ℕ) → Bool
range_is_valid image_size rva length = ltb rva image_size && not (ltb (image_size - rva) length)

unfoldable pub fold_case : ℕ → ℕ
fold_case c = if not (ltb c 65) && not (ltb 90 c) then c + 32 else c

-- One turn of the loop: `rest` is what the following turns give.
unfoldable pub compare_character : (left right : ℕ) → (rest : Option Bool) → Option Bool
unfolding fold_case
compare_character left right rest =
    if left == 0 || right == 0
    then some (left == right)
    else if fold_case left == fold_case right
    then rest
    else some false

abbrev pub compare_read : Option ℕ → (right : ℕ) → (rest : Option Bool) → Option Bool
compare_read none right rest = none
compare_read (some left) right rest = compare_character left right rest

-- `expected` is without its NUL; `none` is a read that faults.
unfoldable pub bounded_ascii_equal_ci :
    (available : ℕ) → (expected : List ℕ) → ℕ → Memory → Option Bool
unfolding compare_character read
bounded_ascii_equal_ci zero expected value m = some false
bounded_ascii_equal_ci (suc n) [] value m = compare_read (read 1 value m) 0 (some false)
bounded_ascii_equal_ci (suc n) (c ∷ cs) value m =
    let rest = bounded_ascii_equal_ci n cs (value + 1) m in compare_read (read 1 value m) c rest

-- InterlockedCompareExchangePointer, where it puts the replacement.
abbrev pub write_slot : Target → ℕ → Memory → Memory
write_slot t slot m = record m { bytes = write_le t.layout.word t.replacement slot m.bytes }

pub data Exchange : Type 0 where
  unchanged broke : Exchange
  exchanged : Memory → Exchange

abbrev pub exchange : Target → (slot : ℕ) → Memory → Option ℕ → Exchange
exchange t slot m none = broke
exchange t slot m (some observed) =
    if observed == t.original then exchanged (write_slot t slot m) else unchanged

unfoldable pub patch_pointer : Target → (slot : ℕ) → Memory → Exchange
unfolding read
patch_pointer t slot m =
    if t.base + slot == 0 || t.original == 0 || t.replacement == 0 || t.original == t.replacement
    then unchanged
    else if not (t.protects slot)
    then unchanged
    else exchange t slot m (read t.layout.word slot m)

-- What an entry of a table asks for: break, continue, the patch, or a read that faults.
pub data Verdict : Type 0 where
  stops skips patches faults : Verdict

-- `patched` and the memory, or the memory at the time of the fault.
pub data Outcome : Type 0 where
  finished : ℕ → Memory → Outcome
  faulted : Memory → Outcome

abbrev pub one_more : Outcome → Outcome
one_more (finished n m) = finished (n + 1) m
one_more (faulted m) = faulted m

abbrev pub proceed : Exchange → Memory → (Memory → Outcome) → Outcome
proceed unchanged m rest = rest m
proceed broke m rest = faulted m
proceed (exchanged after) m rest = one_more (rest after)

unfoldable pub follow : Target → (slot : ℕ) → Verdict → Memory → (Memory → Outcome) → Outcome
unfolding patch_pointer
follow t slot stops m rest = finished 0 m
follow t slot skips m rest = rest m
follow t slot faults m rest = faulted m
follow t slot patches m rest = proceed (patch_pointer t slot m) m rest

-- "DirectInput8Create" and "dinput8.dll"
abbrev pub function_name : List ℕ
function_name =
    68 ∷ 105 ∷ 114 ∷ 101 ∷ 99 ∷ 116 ∷ 73 ∷ 110 ∷ 112 ∷ 117 ∷ 116 ∷ 56 ∷ 67 ∷ 114 ∷ 101 ∷ 97 ∷ 116
    ∷ 101 ∷ []

abbrev pub library_name : List ℕ
library_name = 100 ∷ 105 ∷ 110 ∷ 112 ∷ 117 ∷ 116 ∷ 56 ∷ 46 ∷ 100 ∷ 108 ∷ 108 ∷ []

abbrev pub name_verdict : Option Bool → Verdict
name_verdict none = faults
name_verdict (some true) = patches
name_verdict (some false) = skips

-- The import by name; IMAGE_IMPORT_BY_NAME has four bytes, with its Name at 2.
unfoldable pub named_verdict : (image_size name_rva : ℕ) → Memory → Verdict
unfolding range_is_valid bounded_ascii_equal_ci
named_verdict image_size name_rva m =
    if not (range_is_valid image_size name_rva 4)
    then skips
    else if not (ltb (name_rva + 2) image_size)
    then skips
    else name_verdict
        (bounded_ascii_equal_ci (image_size - (name_rva + 2)) function_name (name_rva + 2) m)

-- IMAGE_SNAP_BY_ORDINAL tests the highest bit, and IMAGE_ORDINAL takes the lower 16.
unfoldable pub lookup_verdict : Layout → (image_size : ℕ) → Memory → Option ℕ → Verdict
unfolding named_verdict
lookup_verdict layout image_size m none = faults
lookup_verdict layout image_size m (some lookup) =
    if lookup == 0
    then stops
    else if not (ltb lookup (2 ^ (8 * layout.word - 1)))
    then (if lookup % 2 ^ 16 == 1 then patches else skips)
    else named_verdict image_size lookup m

-- `*slot`, where there is no lookup table.
abbrev pub slot_verdict : Option ℕ → Verdict
slot_verdict none = faults
slot_verdict (some pointer) = if pointer == 0 then stops else patches

unfoldable pub entry_verdict :
    Layout → (image_size lookup_rva index : ℕ) → (slot : ℕ) → Memory → Verdict
unfolding lookup_verdict range_is_valid read
entry_verdict layout image_size lookup_rva index slot m =
    let entry = lookup_rva + index * layout.word in
    if lookup_rva == 0
    then slot_verdict (read layout.word slot m)
    else if not (range_is_valid image_size entry layout.word)
    then stops
    else lookup_verdict layout image_size m (read layout.word entry m)

-- The loop of patch_import_descriptor, with so many turns left.
unfoldable pub patch_entries :
    Target → (image_size first_thunk lookup_rva index left : ℕ) → Memory → Outcome
unfolding entry_verdict follow range_is_valid
patch_entries t image_size first_thunk lookup_rva index zero m = finished 0 m
patch_entries t image_size first_thunk lookup_rva index (suc left) m =
    let slot = first_thunk + index * t.layout.word in
    let rest = patch_entries t image_size first_thunk lookup_rva (index + 1) left in
    if not (range_is_valid image_size slot t.layout.word)
    then finished 0 m
    else follow t slot (entry_verdict t.layout image_size lookup_rva index slot m) m rest

-- IMAGE_IMPORT_DESCRIPTOR
pub record Descriptor : Type 0 where
  pub original_first_thunk : ℕ
  pub name : ℕ
  pub first_thunk : ℕ

unfoldable pub patch_import_descriptor : Target → (image_size : ℕ) → Descriptor → Memory → Outcome
unfolding patch_entries range_is_valid
patch_import_descriptor t image_size descriptor m =
    if not (range_is_valid image_size descriptor.first_thunk t.layout.word)
    then finished 0 m
    else patch_entries t image_size descriptor.first_thunk descriptor.original_first_thunk 0
        ((image_size - descriptor.first_thunk) / t.layout.word) m
