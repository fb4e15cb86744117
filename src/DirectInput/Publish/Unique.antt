-- ===== src/DirectInput/Publish/Unique.antt =====
-- One shared state for each COM identity, and one wrapper for it (src/wrapper_device8.cpp).
use ffb_interceptor_visualiz.Common.{
  ℕ, ◌<◌, ◌≡◌, ◌≢◌, refl, ap, Bool, true, false, ◌&&◌, not, List, [], ◌∷◌, Option, none, some, ◌==◌,
  arith, Bool-cases, Option-cases, inl, inr, ◌⊎◌, All,
}
use ffb_interceptor_visualiz.DirectInput.Effect.{decrement}
use ffb_interceptor_visualiz.DirectInput.Publish.{
  State, Registry, Unicode, Attempt, make_state, is_valid, destroy, discard_unpublished, matches,
  find_state, wrapper_of, add_ref_state, settle, publish_state, publish_attempt, publish_or_add_ref,
  unregister_locked, set_state_count, release_state, release_found, state_at, Operation, publishes,
  adds_ref, releases, perform, perform_all, empty_registry,
}

false_not_true : false ≡ true → ⊥
false_not_true e = cc

-- Another state has another identity, if that of `s` is known.
abbrev pub Differs : State → State → Type 0
Differs s other = (not (s.identity == 0) && other.identity == s.identity) ≡ false

abbrev pub IsUnique : List State → Type 0
IsUnique [] = Unit {0}
IsUnique (s ∷ ss) = All (Differs s) ss × IsUnique ss

find_state-none :
    (real : ℕ) (candidate : State) (ss : List State)
    → find_state real candidate ss ≡ none
    → All (Differs candidate) ss
unfolding find_state matches
find_state-none real candidate [] h = tt
find_state-none real candidate (s ∷ ss) h = ground (arith, find_state-none real candidate ss)

-- Counts and removals leave the identities apart.
add_ref_state-Differs :
    (a : ℕ) (s : State) (ss : List State)
    → All (Differs s) ss
    → All (Differs s) (add_ref_state a ss)
unfolding add_ref_state
add_ref_state-Differs a s [] h = tt
add_ref_state-Differs a s (v ∷ vs) h = ground (arith, add_ref_state-Differs a s vs h.1)

add_ref_state-IsUnique : (a : ℕ) (ss : List State) → IsUnique ss → IsUnique (add_ref_state a ss)
unfolding add_ref_state
add_ref_state-IsUnique a [] h = tt
add_ref_state-IsUnique a (v ∷ vs) h =
    ground (arith, add_ref_state-IsUnique a vs h.1, add_ref_state-Differs a v vs h.0)

set_state_count-Differs :
    (a n : ℕ) (s : State) (ss : List State)
    → All (Differs s) ss
    → All (Differs s) (set_state_count a n ss)
unfolding set_state_count
set_state_count-Differs a n s [] h = tt
set_state_count-Differs a n s (v ∷ vs) h = ground (arith, set_state_count-Differs a n s vs h.1)

set_state_count-IsUnique :
    (a n : ℕ) (ss : List State) → IsUnique ss → IsUnique (set_state_count a n ss)
unfolding set_state_count
set_state_count-IsUnique a n [] h = tt
set_state_count-IsUnique a n (v ∷ vs) h =
    ground (arith, set_state_count-IsUnique a n vs h.1, set_state_count-Differs a n v vs h.0)

unregister_locked-Differs :
    (a : ℕ) (s : State) (ss : List State)
    → All (Differs s) ss
    → All (Differs s) (unregister_locked a ss)
unfolding unregister_locked
unregister_locked-Differs a s [] h = tt
unregister_locked-Differs a s (v ∷ vs) h = ground (arith, unregister_locked-Differs a s vs h.1)

unregister_locked-IsUnique :
    (a : ℕ) (ss : List State) → IsUnique ss → IsUnique (unregister_locked a ss)
unfolding unregister_locked
unregister_locked-IsUnique a [] h = tt
unregister_locked-IsUnique a (v ∷ vs) h =
    ground (arith, unregister_locked-IsUnique a vs h.1, unregister_locked-Differs a v vs h.0)

settle-IsUnique :
    (u : Unicode) (real : ℕ) (s : State) (r : Registry)
    → IsUnique r.states
    → IsUnique (settle u s (find_state real s r.states) r).1.states
unfolding settle destroy discard_unpublished
settle-IsUnique u real s r h = elim (Option-cases (find_state real s r.states)) [
  | inl e ↦ rw e (find_state-none real s r.states e, h)
  | inr (current, e) ↦ rw e (served current (Bool-cases (wrapper_of u current == 0)))
]
  where
    served :
        (current : State)
        → (wrapper_of u current == 0 ≡ true) ⊎ (wrapper_of u current == 0 ≡ false)
        → IsUnique (settle u s (some current) r).1.states
    served current (inl z) = rw z h
    served current (inr z) = rw z (add_ref_state-IsUnique current.address r.states h)

publish_or_add_ref-IsUnique :
    (u : Unicode) (real : ℕ) (t : Attempt) (r : Registry)
    → IsUnique r.states
    → IsUnique (publish_or_add_ref u real t r).1.states
unfolding publish_or_add_ref
publish_or_add_ref-IsUnique u real t r h = elim (Bool-cases (real == 0)) [
  | inl z ↦ rw z h
  | inr z ↦ rw z (attempt t.wrapper t.state)
]
  where
    of_state : (s : State) → IsUnique (publish_state u real s r).1.states
    of_state s = elim (Bool-cases (is_valid s)) [
      | inl v ↦ unfold publish_state in rw v (settle-IsUnique u real s r h)
      | inr v ↦ unfold publish_state discard_unpublished destroy in rw v h
    ]

    attempt :
        (wrapper state : Option ℕ) → IsUnique (publish_attempt u real t wrapper state r).1.states
    attempt none state = unfold publish_attempt in h
    attempt (some w) none = unfold publish_attempt in h
    attempt (some w) (some a) = unfold publish_attempt in of_state (make_state u real w a t)

release_found-IsUnique :
    (o : Option State) (r : Registry) → IsUnique r.states → IsUnique (release_found o r).states
unfolding release_state destroy
release_found-IsUnique none r h = h
release_found-IsUnique (some s) r h = elim (Bool-cases (decrement s.ref_count == 0)) [
  | inl z ↦ rw z (unregister_locked-IsUnique s.address r.states h)
  | inr z ↦ rw z (set_state_count-IsUnique s.address (decrement s.ref_count) r.states h)
]

perform_all-IsUnique_from :
    (os : List Operation) (r : Registry) → IsUnique r.states → IsUnique (perform_all os r).states
unfolding perform_all perform
perform_all-IsUnique_from [] r h = h
perform_all-IsUnique_from (publishes u real t ∷ os) r h =
    perform_all-IsUnique_from os _ (publish_or_add_ref-IsUnique u real t r h)
perform_all-IsUnique_from (adds_ref a ∷ os) r h =
    perform_all-IsUnique_from os _ (add_ref_state-IsUnique a r.states h)
perform_all-IsUnique_from (releases a ∷ os) r h =
    perform_all-IsUnique_from os _ (release_found-IsUnique (state_at a r.states) r h)

-- After any publications, references and releases, in any order and of whatever success, no two
-- registered states have the same known identity.
pub perform_all-IsUnique : (os : List Operation) → IsUnique (perform_all os empty_registry).states
perform_all-IsUnique os = perform_all-IsUnique_from os empty_registry tt

-- The state of `real`, where it is published.
find_state_first :
    (u : Unicode) (real wrapper state : ℕ) (t : Attempt) (candidate : State) (ss : List State)
    → 0 < real
    → find_state real candidate (make_state u real wrapper state t ∷ ss)
      ≡ some (make_state u real wrapper state t)
unfolding find_state matches make_state
find_state_first true real wrapper state t candidate ss h = ground arith
find_state_first false real wrapper state t candidate ss h = ground arith

settle_created :
    (u : Unicode) (s : State) (found : Option State) (r : Registry)
    → (settle u s found r).0.created ≡ true
    → settle u s found r
      ≡ (record { wrapper = wrapper_of u s; created = true }, record r { states = s ∷ r.states })
unfolding settle
settle_created u s none r h = refl
settle_created u s (some current) r h = elim (Bool-cases (wrapper_of u current == 0)) [
  | inl z ↦ absurd (false_not_true (rw z at h))
  | inr z ↦ absurd (false_not_true (rw z at h))
]

publish_state_created :
    (u : Unicode) (real : ℕ) (s : State) (r : Registry)
    → (publish_state u real s r).0.created ≡ true
    → publish_state u real s r
      ≡ (record { wrapper = wrapper_of u s; created = true }, record r { states = s ∷ r.states })
unfolding publish_state
publish_state_created u real s r h = elim (Bool-cases (is_valid s)) [
  | inl v ↦ rw v (settle_created u s (find_state real s r.states) r (rw v at h))
  | inr v ↦ absurd (false_not_true (rw v at h))
]

settle_served :
    (u : Unicode) (real wrapper state : ℕ) (t : Attempt) (candidate : State) (r : Registry)
    → 0 < wrapper
    → (settle u candidate (some (make_state u real wrapper state t)) r).0
      ≡ record { wrapper = wrapper; created = false }
unfolding settle make_state
settle_served true real wrapper state t candidate r h =
    let given : (wrapper == 0) ≡ false = ground arith in rw given refl
settle_served false real wrapper state t candidate r h =
    let given : (wrapper == 0) ≡ false = ground arith in rw given refl

wrapper_of-make_state :
    (u : Unicode) (real wrapper state : ℕ) (t : Attempt)
    → wrapper_of u (make_state u real wrapper state t) ≡ wrapper
unfolding make_state
wrapper_of-make_state true real wrapper state t = refl
wrapper_of-make_state false real wrapper state t = refl

publish_state_again :
    (u : Unicode) (real wrapper state : ℕ) (t : Attempt) (candidate : State) (r : Registry)
    → 0 < real
    → 0 < wrapper
    → is_valid candidate ≡ true
    → (publish_state u real (make_state u real wrapper state t) r).0.created ≡ true
    → (publish_state u real candidate
        (publish_state u real (make_state u real wrapper state t) r).1).0
      ≡ record {
        wrapper = (publish_state u real (make_state u real wrapper state t) r).0.wrapper;
        created = false;
      }
publish_state_again u real wrapper state t candidate r h k v made =
    let s = make_state u real wrapper state t in
    rw (publish_state_created u real s r made, wrapper_of-make_state u real wrapper state t)
      (unfold publish_state in
        rw (v, find_state_first u real wrapper state t candidate r.states h)
          (settle_served u real wrapper state t candidate _ k))

-- Whether memory and the alias allow a candidate.
unfoldable pub is_ready : Unicode → (real : ℕ) → Attempt → Option ℕ → Option ℕ → Bool
is_ready u real t (some wrapper) (some state) = is_valid (make_state u real wrapper state t)
is_ready u real t wrapper state = false

publish_attempt_again :
    (u : Unicode) (real : ℕ) (t later : Attempt) (w v x y : Option ℕ) (r : Registry)
    → 0 < real
    → w ≢ some 0
    → is_ready u real later x y ≡ true
    → (publish_attempt u real t w v r).0.created ≡ true
    → (publish_attempt u real later x y (publish_attempt u real t w v r).1).0
      ≡ record { wrapper = (publish_attempt u real t w v r).0.wrapper; created = false }
unfolding publish_attempt is_ready
publish_attempt_again u real t later none v x y r h n ready made = absurd (false_not_true made)
publish_attempt_again u real t later (some w) none x y r h n ready made =
    absurd (false_not_true made)
publish_attempt_again u real t later (some w) (some v) none y r h n ready made =
    absurd (false_not_true ready)
publish_attempt_again u real t later (some w) (some v) (some x) none r h n ready made =
    absurd (false_not_true ready)
publish_attempt_again u real t later (some w) (some v) (some x) (some y) r h n ready made =
    let given : w ≢ 0 = λ e. n (ap some e) in
    publish_state_again u real w v t (make_state u real x y later) r h (omega (arith, given)) ready
      made

-- Where publish_or_add_ref has created a wrapper, the next publication of the same real interface
-- returns that wrapper and creates none, if memory and the alias allow a candidate for it.
pub publish_or_add_ref_again :
    (u : Unicode) (real : ℕ) (t later : Attempt) (r : Registry)
    → 0 < real
    → t.wrapper ≢ some 0
    → is_ready u real later later.wrapper later.state ≡ true
    → (publish_or_add_ref u real t r).0.created ≡ true
    → (publish_or_add_ref u real later (publish_or_add_ref u real t r).1).0
      ≡ record { wrapper = (publish_or_add_ref u real t r).0.wrapper; created = false }
unfolding publish_or_add_ref
publish_or_add_ref_again u real t later r h n ready made =
    let given : (real == 0) ≡ false = ground arith in
    simp given (
      publish_attempt_again u real t later t.wrapper t.state later.wrapper later.state r h n ready
        (simp given at made))
