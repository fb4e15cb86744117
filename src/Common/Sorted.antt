-- ===== src/Common/Sorted.antt =====
-- Lists of numbers in strictly falling order, under a bound.
use Prim.Native.Nat.{ℕ, ◌≤◌, ◌<◌}
use mathlib.Core.List.{List, [], ◌∷◌, ◌++◌}
use native.Mathlib.Omega.{arith}
use ffb_interceptor_visualiz.Common.Lists.{All}

-- Each number is above all that follow it.
abbrev pub Falling : List ℕ → Type 0
Falling [] = Unit {0}
Falling (x ∷ xs) = All (λ y. y < x) xs × Falling xs

-- The same by neighbours, with all numbers below `b`.
abbrev pub Chain : ℕ → List ℕ → Type 0
Chain b [] = Unit {0}
Chain b (x ∷ xs) = (x < b) × Chain x xs

abbrev pub rev_onto {ℓ} : {A : Type ℓ} → List A → List A → List A
rev_onto [] tail = tail
rev_onto (x ∷ xs) tail = rev_onto xs (x ∷ tail)

pub Chain-le : (b c : ℕ) (xs : List ℕ) → b ≤ c → Chain b xs → Chain c xs
Chain-le b c [] h k = tt
Chain-le b c (x ∷ xs) h k = (omega arith, k.1)

pub Chain-All : (b : ℕ) (xs : List ℕ) → Chain b xs → All (λ y. y < b) xs
Chain-All b [] k = tt
Chain-All b (x ∷ xs) k = (k.0, Chain-All b xs (Chain-le x b xs (omega arith) k.1))

pub Chain-Falling : (b : ℕ) (xs : List ℕ) → Chain b xs → Falling xs
Chain-Falling b [] k = tt
Chain-Falling b (x ∷ xs) k = (Chain-All x xs k.1, Chain-Falling x xs k.1)

-- The tail of a chain may be exchanged for one that no bound tells apart.
pub Chain-append_mono :
    (b : ℕ) (xs ys zs : List ℕ)
    → ((c : ℕ) → Chain c ys → Chain c zs)
    → Chain b (xs ++ ys)
    → Chain b (xs ++ zs)
Chain-append_mono b [] ys zs f k = f b k
Chain-append_mono b (x ∷ xs) ys zs f k = (k.0, Chain-append_mono x xs ys zs f k.1)

pub Chain-append_right : (b : ℕ) (xs ys : List ℕ) → Chain b (xs ++ ys) → Chain b ys
Chain-append_right b [] ys k = k
Chain-append_right b (x ∷ xs) ys k = Chain-le x b ys (omega arith) (Chain-append_right x xs ys k.1)

pub Chain-append_left : (b : ℕ) (xs ys : List ℕ) → Chain b (xs ++ ys) → Chain b xs
Chain-append_left b [] ys k = tt
Chain-append_left b (x ∷ xs) ys k = (k.0, Chain-append_left x xs ys k.1)

pub Chain-rev_onto : (b : ℕ) (xs ys : List ℕ) → Chain b (rev_onto xs ys) → Chain b ys
Chain-rev_onto b [] ys k = k
Chain-rev_onto b (x ∷ xs) ys k =
    let h = Chain-rev_onto b xs (x ∷ ys) k in Chain-le x b ys (omega arith) h.1
