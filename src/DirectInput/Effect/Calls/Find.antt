-- ===== src/DirectInput/Effect/Calls/Find.antt =====
-- An enumerated effect is shown through its wrapper (created_effect_callback of
-- src/wrapper_device8.cpp, find_and_add_ref of src/wrapper_effect.cpp).
use ffb_interceptor_visualiz.Common.{
  ℕ, ◌+◌, ◌-◌, ◌%◌, ◌^◌, ◌<◌, ◌≡◌, refl, sym, ap, ◌∙◌, subst, Bool, true, false, List, [], ◌∷◌,
  none, some, ◌==◌, ◌&&◌, ◌||◌, not, arith, All, Bool-cases, Option-cases, inl, inr, ◌⊎◌,
}
use ffb_interceptor_visualiz.DirectInput.Effect.{
  WrapperEffect, Environment, Effects, at_address, set_count, add_ref_at, release_effect,
  release_at, increment, decrement, first_match, find_and_add_ref, created_effect_callback,
  call_with,
}
use ffb_interceptor_visualiz.DirectInput.Effect.Registry.{
  Apart, IsAlive, first_match-at_address, at_address-IsAlive,
}

-- The wrapper stands for the real effect: by its pointer, or by its identity, if that is known.
abbrev pub StandsFor : (real identity : ℕ) → WrapperEffect → Type 0
StandsFor real identity w = (w.real == real || not (identity == 0) && w.identity == identity) ≡ true

abbrev pub DoesNotStandFor : (real identity : ℕ) → WrapperEffect → Type 0
DoesNotStandFor real identity w =
    (w.real == real || not (identity == 0) && w.identity == identity) ≡ false

first_match-none :
    (real identity : ℕ) (ws : List WrapperEffect)
    → first_match real identity ws ≡ none
    → All (DoesNotStandFor real identity) ws
unfolding first_match
first_match-none real identity [] h = tt
first_match-none real identity (w ∷ ws) h = ground (arith, first_match-none real identity ws)

first_match-StandsFor :
    (real identity : ℕ) (ws : List WrapperEffect) (w : WrapperEffect)
    → first_match real identity ws ≡ some w
    → StandsFor real identity w
unfolding first_match
first_match-StandsFor real identity [] w h = cc
first_match-StandsFor real identity (v ∷ vs) w h =
    elim (Bool-cases (v.real == real || not (identity == 0) && v.identity == identity)) [
      | inl e ↦ subst (StandsFor real identity) (some_injective (rw e at h)) e
      | inr e ↦ first_match-StandsFor real identity vs w (rw e at h)
    ]
  where
    some_injective : some v ≡ some w → v ≡ w
    some_injective p = cc

-- The counts are as before when a reference is taken and given back.
set_count_back :
    (a n : ℕ) (ws : List WrapperEffect) (w : WrapperEffect)
    → at_address a ws ≡ some w
    → set_count a w.ref_count (set_count a n ws) ≡ ws
unfolding set_count at_address
set_count_back a n [] w h = cc
set_count_back a n (v ∷ vs) w h = ground (arith, set_count_back a n vs w)

at_address-set_count :
    (a n : ℕ) (ws : List WrapperEffect) (w : WrapperEffect)
    → at_address a ws ≡ some w
    → at_address a (set_count a n ws) ≡ some (record w { ref_count = n })
unfolding set_count at_address
at_address-set_count a n [] w h = cc
at_address-set_count a n (v ∷ vs) w h = ground (arith, at_address-set_count a n vs w)

release-add_ref :
    (env : Environment) (now : ℕ) (w : WrapperEffect) (s : Effects)
    → at_address w.address s.registry ≡ some w
    → 0 < w.ref_count
    → w.ref_count < 2 ^ 32 - 1
    → release_effect env now w.address (add_ref_at (some w) s) ≡ s
unfolding release_effect release_at add_ref_at increment decrement
release-add_ref env now w s e low high =
    let up : (w.ref_count + 1) % 2 ^ 32 ≡ w.ref_count + 1 = omega arith in
    let down : (w.ref_count + 1 + (2 ^ 32 - 1)) % 2 ^ 32 ≡ w.ref_count = omega arith in
    let more : (w.ref_count == 0) ≡ false = ground arith in
    let taken = at_address-set_count w.address (w.ref_count + 1) s.registry w e in
    let back = set_count_back w.address (w.ref_count + 1) s.registry w e in
    rw (up, taken, down, more) (ap (λ ws. record s { registry = ws }) back)

-- The references to each object are fewer than 2 ^ 32 - 1.
abbrev pub IsBounded : WrapperEffect → Type 0
IsBounded w = w.ref_count < 2 ^ 32 - 1

at_address-IsBounded :
    (a : ℕ) (ws : List WrapperEffect) (w : WrapperEffect)
    → All IsBounded ws
    → at_address a ws ≡ some w
    → IsBounded w
unfolding at_address
at_address-IsBounded a [] w l h = cc
at_address-IsBounded a (v ∷ vs) w l h = ground (arith, at_address-IsBounded a vs w l.1)

-- With one more reference to the wrapper.
abbrev pub held_once_more : WrapperEffect → Effects → Effects
held_once_more w s = record s { registry = set_count w.address (w.ref_count + 1) s.registry }

-- For a registry of live objects at different addresses, each with fewer than 2 ^ 32 - 1
-- references, and a real effect, any callback of an application is called with the address of a
-- registered wrapper that stands for that effect, to which it has a reference, or with the real
-- effect itself if no wrapper does; its answer is passed on. If it leaves the wrappers as it finds
-- them, they are afterwards as they were before.
pub created_effect_callback_shows :
    (env : Environment) (now : ℕ) (app : ℕ → Effects → Bool × Effects) (real identity : ℕ)
    (s : Effects)
    → 0 < real
    → Apart s.registry
    → All IsAlive s.registry
    → All IsBounded s.registry
    → ((w : WrapperEffect) × StandsFor real identity w
        × (at_address w.address s.registry ≡ some w)
        × ((created_effect_callback env now (some app) real identity s).0
            ≡ (app w.address (held_once_more w s)).0)
        × ((app w.address (held_once_more w s)).1 ≡ held_once_more w s
            → (created_effect_callback env now (some app) real identity s).1 ≡ s))
      ⊎ (All (DoesNotStandFor real identity) s.registry
          × (created_effect_callback env now (some app) real identity s ≡ app real s))
unfolding created_effect_callback find_and_add_ref call_with
created_effect_callback_shows env now app real identity s given apart alive bounded =
    let nonzero : (real == 0) ≡ false = ground arith in
    elim (Option-cases (first_match real identity s.registry)) [
      | inl e ↦ inr (first_match-none real identity s.registry e, rw (nonzero, e) refl)
      | inr (w, e) ↦
          let here = first_match-at_address real identity s.registry w apart e in
          let live = at_address-IsAlive w.address s.registry w alive here in
          let small = at_address-IsBounded w.address s.registry w bounded here in
          let taken : add_ref_at (some w) s ≡ held_once_more w s = taken_once w s small in
          inl (
            w,
            first_match-StandsFor real identity s.registry w e,
            here,
            rw (nonzero, e) (ap (λ (t : Effects). (app w.address t).0) taken),
            λ quiet.
                rw (nonzero, e)
                  (ap (λ (t : Effects). release_effect env now w.address (app w.address t).1) taken
                    ∙ ap (release_effect env now w.address) quiet
                    ∙ ap (release_effect env now w.address) (sym taken)
                    ∙ release-add_ref env now w s here live.0 small),
          )
    ]
  where
    taken_once :
        (w : WrapperEffect) (t : Effects) → IsBounded w → add_ref_at (some w) t ≡ held_once_more w t
    taken_once w t small =
        unfold add_ref_at increment in
        let up : (w.ref_count + 1) % 2 ^ 32 ≡ w.ref_count + 1 = omega arith in rw up refl
