-- ===== src/ImportTable/Names.antt =====
-- What bounded_ascii_equal_ci of src/iat_hook.cpp compares.
use ffb_interceptor_visualiz.Common.{
  ℕ, zero, suc, ◌+◌, ◌<◌, ◌≡◌, refl, sym, Bool, true, false, ◌&&◌, ◌||◌, leb, List, [], ◌∷◌, some,
  ◌==◌, length, All, arith,
}
use ffb_interceptor_visualiz.ImportTable.{
  Memory, read, fold_case, compare_character, bounded_ascii_equal_ci,
}

-- The characters stand at an address, with a NUL behind them.
abbrev pub Holds : List ℕ → ℕ → Memory → Type 0
Holds [] a m = read 1 a m ≡ some 0
Holds (c ∷ cs) a m = (read 1 a m ≡ some c) × Holds cs (a + 1) m

abbrev pub IsText : List ℕ → Type 0
IsText cs = All (λ (c : ℕ). 0 < c) cs

-- The same character, or a letter A to Z and the small letter 32 above it.
abbrev pub same_letter : ℕ → ℕ → Bool
same_letter c d =
    c == d || leb 65 c && leb c 90 && d == c + 32 || leb 65 d && leb d 90 && c == d + 32

fold_case-same_letter : (c d : ℕ) → (fold_case c == fold_case d) ≡ same_letter c d
unfolding fold_case
fold_case-same_letter c d = ground arith

-- The same text, but for the case of the letters A to Z.
unfoldable pub same_text : List ℕ → List ℕ → Bool
same_text [] [] = true
same_text [] (d ∷ ds) = false
same_text (c ∷ cs) [] = false
same_text (c ∷ cs) (d ∷ ds) = let rest = same_text cs ds in same_letter c d && rest

-- Where a text stands with its NUL in the available characters, the result is whether it is the
-- expected text, but for the case of the letters A to Z.
pub bounded_ascii_equal_ci-same_text :
    (available : ℕ) (text expected : List ℕ) (a : ℕ) (m : Memory)
    → length text < available
    → IsText text
    → IsText expected
    → Holds text a m
    → bounded_ascii_equal_ci available expected a m ≡ some (same_text text expected)
unfolding bounded_ascii_equal_ci compare_character same_text
bounded_ascii_equal_ci-same_text zero text expected a m short t e h = absurd (omega (arith, short))
bounded_ascii_equal_ci-same_text (suc n) [] [] a m short t e h = rw h refl
bounded_ascii_equal_ci-same_text (suc n) [] (d ∷ ds) a m short t e h = rw h (ground (arith, e.0))
bounded_ascii_equal_ci-same_text (suc n) (c ∷ cs) [] a m short t e h = rw (h.0) (ground arith)
bounded_ascii_equal_ci-same_text (suc n) (c ∷ cs) (d ∷ ds) a m short t e h =
    let rest = bounded_ascii_equal_ci-same_text n cs ds (a + 1) m (ground arith) t.1 e.1 h.1 in
    rw (h.0, rest) (step (same_text cs ds))
  where
    step : (b : Bool) → compare_character c d (some b) ≡ some (same_letter c d && b)
    step b =
        rw (sym (fold_case-same_letter c d)) (unfold compare_character in ground (arith, t.0, e.0))
