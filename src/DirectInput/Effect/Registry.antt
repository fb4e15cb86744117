-- ===== src/DirectInput/Effect/Registry.antt =====
-- The registry of src/wrapper_effect.cpp as a map from addresses to reference counts.
use ffb_interceptor_visualiz.Common.{
  ℕ, ◌<◌, ◌≡◌, refl, sym, ap, true, false, ℤ, Bool-cases, inl, inr, subst, List, [], ◌∷◌, Option,
  none, some, ◌==◌, ==_iff, if◌then◌else◌, arith, All, ◌+◌, map,
}
use ffb_interceptor_visualiz.Common.{count}
use ffb_interceptor_visualiz.DirectInput.Effect.{
  WrapperEffect, Effects, query_interface, at_address, set_count, unregister, first_match,
}

-- The references to the object at an address; none where there is no object.
abbrev pub count_of : Option WrapperEffect → ℕ
count_of none = 0
count_of (some w) = w.ref_count

unfoldable pub count_at : ℕ → List WrapperEffect → ℕ
count_at a ws = count_of (at_address a ws)

-- The real effects of the objects.
abbrev pub reals : List WrapperEffect → List ℕ
reals = map λ w. w.real

-- No two objects at one address.
abbrev pub Apart : List WrapperEffect → Type 0
Apart [] = Unit {0}
Apart (w ∷ ws) = (at_address w.address ws ≡ none) × Apart ws

-- References are held, and there is a real effect.
abbrev pub IsAlive : WrapperEffect → Type 0
IsAlive w = (0 < w.ref_count) × (0 < w.real)

-- A query for another interface.
pub forwarded_query :
    (w : WrapperEffect) (forwarded : ℤ × ℕ) (s : Effects)
    → (query_interface w true false forwarded s).1 ≡ s
unfolding query_interface
forwarded_query w forwarded s = ground arith

pub at_address-address :
    (a : ℕ) (ws : List WrapperEffect) (w : WrapperEffect) → at_address a ws ≡ some w → w.address ≡ a
unfolding at_address
at_address-address a [] w h = cc
at_address-address a (v ∷ vs) w h = ground (arith, at_address-address a vs w)

pub at_address_here :
    (a : ℕ) (ws : List WrapperEffect) (w : WrapperEffect)
    → at_address a ws ≡ some w
    → at_address w.address ws ≡ some w
at_address_here a ws w h =
    subst (λ (b : ℕ). at_address b ws ≡ some w) (sym (at_address-address a ws w h)) h

-- A wrapper that the search finds is the one at its address.
pub first_match-at_address :
    (real identity : ℕ) (ws : List WrapperEffect) (w : WrapperEffect)
    → Apart ws
    → first_match real identity ws ≡ some w
    → at_address w.address ws ≡ some w
unfolding first_match at_address
first_match-at_address real identity [] w h e = cc
first_match-at_address real identity (v ∷ vs) w h e =
    ground (arith, first_match-at_address real identity vs w h.1, ==_iff v.address w.address)

pub at_address-IsAlive :
    (a : ℕ) (ws : List WrapperEffect) (w : WrapperEffect)
    → All IsAlive ws
    → at_address a ws ≡ some w
    → IsAlive w
unfolding at_address
at_address-IsAlive a [] w l h = cc
at_address-IsAlive a (v ∷ vs) w l h = ground (arith, at_address-IsAlive a vs w l.1)

pub count_at-cons :
    (b : ℕ) (w : WrapperEffect) (ws : List WrapperEffect)
    → count_at b (w ∷ ws) ≡ (if w.address == b then w.ref_count else count_at b ws)
unfolding at_address count_at
count_at-cons b w ws = ground arith

pub count_at_absent : (a : ℕ) (ws : List WrapperEffect) → at_address a ws ≡ none → count_at a ws ≡ 0
unfolding count_at
count_at_absent a ws h = ap count_of h

pub count_at-set_count :
    (a b n : ℕ) (ws : List WrapperEffect) (w : WrapperEffect)
    → at_address a ws ≡ some w
    → count_at b (set_count a n ws) ≡ (if a == b then n else count_at b ws)
unfolding at_address set_count count_at
count_at-set_count a b n [] w h = cc
count_at-set_count a b n (v ∷ vs) w h = ground (arith, count_at-set_count a b n vs w)

pub set_count-absent :
    (a b n : ℕ) (ws : List WrapperEffect)
    → at_address b ws ≡ none
    → at_address b (set_count a n ws) ≡ none
unfolding at_address set_count
set_count-absent a b n [] h = refl
set_count-absent a b n (v ∷ vs) h = ground (arith, set_count-absent a b n vs)

pub set_count-Apart : (a n : ℕ) (ws : List WrapperEffect) → Apart ws → Apart (set_count a n ws)
unfolding set_count
set_count-Apart a n [] h = tt
set_count-Apart a n (v ∷ vs) h =
    ground (arith, set_count-Apart a n vs h.1, set_count-absent a v.address n vs)

pub set_count-IsAlive :
    (a n : ℕ) (ws : List WrapperEffect) → 0 < n → All IsAlive ws → All IsAlive (set_count a n ws)
unfolding set_count
set_count-IsAlive a n [] k h = tt
set_count-IsAlive a n (v ∷ vs) k h = ground (arith, set_count-IsAlive a n vs k h.1)

pub reals-set_count : (a n : ℕ) (ws : List WrapperEffect) → reals (set_count a n ws) ≡ reals ws
unfolding set_count
reals-set_count a n [] = refl
reals-set_count a n (v ∷ vs) = ground (arith, reals-set_count a n vs)

pub unregister-absent :
    (a b : ℕ) (ws : List WrapperEffect)
    → at_address b ws ≡ none
    → at_address b (unregister a ws) ≡ none
unfolding at_address unregister
unregister-absent a b [] h = refl
unregister-absent a b (v ∷ vs) h = ground (arith, unregister-absent a b vs)

pub unregister-Apart : (a : ℕ) (ws : List WrapperEffect) → Apart ws → Apart (unregister a ws)
unfolding unregister
unregister-Apart a [] h = tt
unregister-Apart a (v ∷ vs) h =
    ground (arith, unregister-Apart a vs h.1, unregister-absent a v.address vs)

pub unregister-IsAlive :
    (a : ℕ) (ws : List WrapperEffect) → All IsAlive ws → All IsAlive (unregister a ws)
unfolding unregister
unregister-IsAlive a [] h = tt
unregister-IsAlive a (v ∷ vs) h = ground (arith, unregister-IsAlive a vs h.1)

pub reals-unregister :
    (r a : ℕ) (ws : List WrapperEffect) (w : WrapperEffect)
    → at_address a ws ≡ some w
    → (if r == w.real then 1 else 0) + count r (reals (unregister a ws)) ≡ count r (reals ws)
unfolding at_address unregister
reals-unregister r a [] w h = cc
reals-unregister r a (v ∷ vs) w h = elim (Bool-cases (v.address == a)) [
  | inl here ↦
      let same : v ≡ w = some_injective (rw here at h) in
      rw here
        (ap (λ (u : WrapperEffect). (if r == u.real then 1 else 0) + count r (reals vs)) (sym same))
  | inr other ↦ rw other (omega (arith, reals-unregister r a vs w (rw other at h)))
]
  where
    some_injective : some v ≡ some w → v ≡ w
    some_injective e = cc

pub count_at-unregister :
    (a b : ℕ) (ws : List WrapperEffect)
    → Apart ws
    → count_at b (unregister a ws) ≡ (if a == b then 0 else count_at b ws)
unfolding at_address unregister count_at
count_at-unregister a b [] h = ground arith
count_at-unregister a b (v ∷ vs) h = ground (arith, count_at-unregister a b vs h.1, ap count_of h.0)
