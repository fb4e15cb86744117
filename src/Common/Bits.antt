-- ===== src/Common/Bits.antt =====
-- Bytes, masks and little-endian digits.
use Prim.Native.Nat.{ℕ, zero, suc, ◌^◌, ◌<◌}
use mathlib.Core.Path.{◌≡◌}
use mathlib.Core.Bool.{Bool, true, ◌&&◌}
use native.Mathlib.Omega.{arith}

abbrev pub IsByte : ℕ → Type 0
IsByte b = b < 256

abbrev pub IsU16 : ℕ → Type 0
IsU16 v = v < 2 ^ 16

abbrev pub IsU32 : ℕ → Type 0
IsU32 v = v < 2 ^ 32

abbrev pub IsU64 : ℕ → Type 0
IsU64 v = v < 2 ^ 64

-- A test that passes for each of 0, …, n - 1.
unfoldable pub passes : (ℕ → Bool) → ℕ → Bool
passes test zero = true
passes test (suc n) = passes test n && test n

pub passes_at : (test : ℕ → Bool) {i : ℕ} (n : ℕ) → i < n → passes test n ≡ true → test i ≡ true
unfolding passes
passes_at test zero h e = elim h [ ]
passes_at test {i} (suc n) h e = ground (arith, passes_at test {i = i} n)
