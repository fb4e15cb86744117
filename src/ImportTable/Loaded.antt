-- ===== src/ImportTable/Loaded.antt =====
-- All the modules that patch_loaded_direct_input_imports of src/iat_hook.cpp meets.
use ffb_interceptor_visualiz.Common.{
  ℕ, ◌+◌, ◌≡◌, ◌≢◌, refl, subst, true, ◌||◌, Bool, false, ◌&&◌, not, List, [], ◌∷◌, ◌==◌, arith,
  Bool-cases, inl, inr, ◌⊎◌,
}
use ffb_interceptor_visualiz.ImportTable.{Target, Memory}
use ffb_interceptor_visualiz.ImportTable.Modules.{
  Parsed, unreadable, refused, accepted, read_headers, patch_direct_input8_imports_unchecked,
  patch_direct_input8_imports, Loaded, patch_loaded, patch_each,
}
use ffb_interceptor_visualiz.ImportTable.Patching.{Patches, unpatched}
use ffb_interceptor_visualiz.ImportTable.Image.{patch_direct_input8_imports_faults}

-- Some slots of the module have been replaced, as many as are counted, or none is counted.
abbrev pub IsPatched : Target → ℕ → Memory → Memory → Type 0
IsPatched t n m after =
    (image_size : ℕ) × (k : ℕ) × Patches t image_size k m after × ((n ≡ k) ⊎ (n ≡ 0))

pub data EachPatched (excluded : ℕ) : ℕ → List Loaded → List Loaded → Type 0 where
  none_left : EachPatched excluded 0 [] []
  kept :
      {n : ℕ} {l : Loaded} {ls after : List Loaded}
      → (l.target.base ≡ excluded) ⊎ (l.pins ≡ false)
      → EachPatched excluded n ls after
      → EachPatched excluded n (l ∷ ls) (l ∷ after)
  treated :
      {n : ℕ} {l : Loaded} {ls after : List Loaded} (k : ℕ) (m : Memory)
      → l.target.base ≢ excluded
      → l.pins ≡ true
      → IsPatched l.target k l.memory m
      → EachPatched excluded n ls after
      → EachPatched excluded (k + n) (l ∷ ls) (record l { memory = m } ∷ after)

-- Headers that do not pass change nothing.
unchanged-IsPatched : (t : Target) (m : Memory) → IsPatched t 0 m m
unchanged-IsPatched t m = (0, 0, unpatched, inl refl)

patch_direct_input8_imports-IsPatched :
    (t : Target) (m : Memory)
    → let (n, after) = patch_direct_input8_imports t m in IsPatched t n m after
patch_direct_input8_imports-IsPatched t m = go (read_headers t.layout m) refl
  where
    given : Bool
    given = t.base == 0 || t.original == 0 || t.replacement == 0

    go :
        (p : Parsed)
        → read_headers t.layout m ≡ p
        → IsPatched t (patch_direct_input8_imports t m).0 m (patch_direct_input8_imports t m).1
    go unreadable e =
        unfold patch_direct_input8_imports patch_direct_input8_imports_unchecked in
        elim (Bool-cases given) [
          | inl g ↦ rw g (unchanged-IsPatched t m)
          | inr g ↦ rw (g, e) (unchanged-IsPatched t m)
        ]
    go refused e =
        unfold patch_direct_input8_imports patch_direct_input8_imports_unchecked in
        elim (Bool-cases given) [
          | inl g ↦ rw g (unchanged-IsPatched t m)
          | inr g ↦ rw (g, e) (unchanged-IsPatched t m)
        ]
    go (accepted h) e =
        let (k, p, n) = patch_direct_input8_imports_faults t h m e in (h.image_size, k, p, n)

patch_loaded-kept :
    (excluded : ℕ) (l : Loaded)
    → (not (l.target.base == excluded) && l.pins) ≡ false
    → (l.target.base ≡ excluded) ⊎ (l.pins ≡ false)
patch_loaded-kept excluded l h = ground arith

patch_loaded-treated :
    (excluded : ℕ) (l : Loaded)
    → (not (l.target.base == excluded) && l.pins) ≡ true
    → (l.target.base ≢ excluded) × (l.pins ≡ true)
patch_loaded-treated excluded l h = ground arith

-- patch_loaded_direct_input_imports leaves the excluded module alone, and those that it cannot
-- pin. Of the others, whatever their headers and however much is mapped, it replaces slots only
-- that held the original pointer, and returns the sum of what it counts for each.
pub patch_each-EachPatched :
    (excluded : ℕ) (ls : List Loaded)
    → let (n, after) = patch_each excluded ls in EachPatched excluded n ls after
unfolding patch_each patch_loaded
patch_each-EachPatched excluded [] = none_left
patch_each-EachPatched excluded (l ∷ ls) =
    let rest = patch_each-EachPatched excluded ls in
    elim (Bool-cases (not (l.target.base == excluded) && l.pins)) [
      | inl patch ↦
          let (other, pinned) = patch_loaded-treated excluded l patch in
          rw patch (
            treated _ _ other pinned (patch_direct_input8_imports-IsPatched l.target l.memory) rest)
      | inr leave ↦ rw leave (
          subst (λ (n : ℕ). EachPatched excluded n (l ∷ ls) (l ∷ (patch_each excluded ls).1))
            (omega arith) (kept (patch_loaded-kept excluded l leave) rest))
    ]
