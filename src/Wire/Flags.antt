-- ===== src/Wire/Flags.antt =====
-- The two header bits that an EffectCreated frame uses, in plain arithmetic.
use Prim.Native.Nat.{digits, bit_and-bitwise, bit_or-bitwise}
use mathlib.Core.Path.{ap₂}
use native.Mathlib.Nat.{pow-suc}
use ffb_interceptor_visualiz.Common.{
  ℕ, zero, suc, ◌+◌, ◌*◌, ◌/◌, ◌%◌, ◌^◌, ◌≤◌, ◌<◌, ◌≡◌, refl, sym, min, max, arith, ◌==◌, ==_iff,
  bit_and, bit_or, passes, passes_at, ap, ◌∙◌,
}
use ffb_interceptor_visualiz.Wire.Model.{
  parameters_absent_flag, parameters_present_flag, presence_mask_complement,
}

module _ (rest : ℕ → ℕ) (op : ℕ → ℕ → ℕ) where
  digits-zero : (n b : ℕ) → digits rest op n 0 b ≡ rest b
  digits-zero zero b = refl
  digits-zero (suc n) b = refl

  -- Fuel beyond the first number makes no difference.
  digits_surplus : (a b n m : ℕ) → a ≤ n → a ≤ m → digits rest op n a b ≡ digits rest op m a b
  digits_surplus zero b n m h k = digits-zero n b ∙ sym (digits-zero m b)
  digits_surplus (suc a) b zero m h k = elim h [ ]
  digits_surplus (suc a) b (suc n) zero h k = elim k [ ]
  digits_surplus (suc a) b (suc n) (suc m) h k =
      ap (λ t. t * 2 + op (suc a % 2) (b % 2))
        (digits_surplus (suc a / 2) (b / 2) n m (omega arith) (omega arith))

and_step : (a b : ℕ) → bit_and a b ≡ bit_and (a / 2) (b / 2) * 2 + min (a % 2) (b % 2)
and_step zero b = simp bit_and-bitwise (omega arith)
and_step (suc a) b = simp bit_and-bitwise (
    omega (
      arith,
      digits_surplus (λ c. 0) min (suc a / 2) (b / 2) a (suc a / 2) (omega arith) (omega arith),
    ))

or_step : (a b : ℕ) → bit_or a b ≡ bit_or (a / 2) (b / 2) * 2 + max (a % 2) (b % 2)
or_step zero b = simp bit_or-bitwise (omega arith)
or_step (suc a) b = simp bit_or-bitwise (
    omega (
      arith,
      digits_surplus (λ c. c) max (suc a / 2) (b / 2) a (suc a / 2) (omega arith) (omega arith),
    ))

-- k ones below m.
abbrev ones : ℕ → ℕ → ℕ
ones zero m = m
ones (suc k) m = 2 * ones k m + 1

half_lt : (lo k : ℕ) → lo < 2 ^ suc k → lo / 2 < 2 ^ k
half_lt lo k h = omega (arith, pow-suc 2 k)

-- A mask of ones keeps the low bits.
and-ones :
    (k lo hi m : ℕ) → lo < 2 ^ k → bit_and (lo + 2 ^ k * hi) (ones k m) ≡ lo + 2 ^ k * bit_and hi m
and-ones zero lo hi m h =
    ap₂ bit_and (let e : lo + 2 ^ 0 * hi ≡ hi = omega arith in e) refl ∙ omega arith
and-ones (suc k) lo hi m h =
    let a = lo + 2 ^ suc k * hi in
    let halved : a / 2 ≡ lo / 2 + 2 ^ k * hi = rw pow-suc (omega arith) in
    let mask : (2 * ones k m + 1) / 2 ≡ ones k m = omega arith in
    omega (
      arith,
      pow-suc 2 k,
      ap (λ (t : ℕ). t * hi) (pow-suc 2 k),
      ap (λ (t : ℕ). t * bit_and hi m) (pow-suc 2 k),
      and_step a (2 * ones k m + 1),
      ap₂ bit_and halved mask,
      and-ones k (lo / 2) hi m (half_lt lo k h),
    )

-- A mask above the low bits leaves them alone.
or-shifted :
    (k lo hi m : ℕ) → lo < 2 ^ k → bit_or (lo + 2 ^ k * hi) (2 ^ k * m) ≡ lo + 2 ^ k * bit_or hi m
or-shifted zero lo hi m h =
    ap₂ bit_or (let e : lo + 2 ^ 0 * hi ≡ hi = omega arith in e)
      (let e : 2 ^ 0 * m ≡ m = omega arith in e)
    ∙ omega arith
or-shifted (suc k) lo hi m h =
    let a = lo + 2 ^ suc k * hi in
    let halved : a / 2 ≡ lo / 2 + 2 ^ k * hi = rw pow-suc (omega arith) in
    let mask : (2 ^ suc k * m) / 2 ≡ 2 ^ k * m = rw pow-suc (omega arith) in
    omega (
      arith,
      pow-suc 2 k,
      ap (λ (t : ℕ). t * hi) (pow-suc 2 k),
      ap (λ (t : ℕ). t * m) (pow-suc 2 k),
      ap (λ (t : ℕ). t * bit_or hi m) (pow-suc 2 k),
      or_step a (2 ^ suc k * m),
      ap₂ bit_or halved mask,
      or-shifted k (lo / 2) hi m (half_lt lo k h),
    )

top_and : (x : ℕ) → x < 32 → bit_and x 0x1c ≡ x / 4 * 4
unfolding passes
top_and x h = (==_iff _ _).0 (passes_at (λ x. bit_and x 0x1c == x / 4 * 4) 32 h refl)

top_or_absent : (x : ℕ) → x < 32 → bit_or (x / 4 * 4) 1 ≡ x / 4 * 4 + 1
unfolding passes
top_or_absent x h =
    (==_iff _ _).0 (passes_at (λ x. bit_or (x / 4 * 4) 1 == x / 4 * 4 + 1) 32 h refl)

top_or_present : (x : ℕ) → x < 32 → bit_or (x / 4 * 4) 2 ≡ x / 4 * 4 + 2
unfolding passes
top_or_present x h =
    (==_iff _ _).0 (passes_at (λ x. bit_or (x / 4 * 4) 2 == x / 4 * 4 + 2) 32 h refl)

-- flags with the two presence bits, 27 and 28, reset.
abbrev pub cleared : ℕ → ℕ
cleared f = f % 2 ^ 27 + 2 ^ 27 * (f / 2 ^ 27 / 4 * 4)

split_flags : (f : ℕ) → f ≡ f % 2 ^ 27 + 2 ^ 27 * (f / 2 ^ 27)
split_flags f = omega arith

module _ (f : ℕ) (h : f < 2 ^ 32) where
  pub and-presence_mask : bit_and f presence_mask_complement ≡ cleared f
  and-presence_mask =
      ap (λ x. bit_and x presence_mask_complement) (split_flags f)
      ∙ and-ones 27 (f % 2 ^ 27) (f / 2 ^ 27) 0x1c (omega arith)
      ∙ omega (arith, top_and (f / 2 ^ 27) (omega arith))

  pub or-absent : bit_or (cleared f) parameters_absent_flag ≡ cleared f + 2 ^ 27
  or-absent =
      or-shifted 27 (f % 2 ^ 27) (f / 2 ^ 27 / 4 * 4) 1 (omega arith)
      ∙ omega (arith, top_or_absent (f / 2 ^ 27) (omega arith))

  pub or-present : bit_or (cleared f) parameters_present_flag ≡ cleared f + 2 ^ 28
  or-present =
      or-shifted 27 (f % 2 ^ 27) (f / 2 ^ 27 / 4 * 4) 2 (omega arith)
      ∙ omega (arith, top_or_present (f / 2 ^ 27) (omega arith))
