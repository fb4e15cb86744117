-- ===== src/DirectInput/Publish/Ownership.antt =====
-- Who owns the real interface after publish_or_add_ref of src/wrapper_device8.cpp.
use ffb_interceptor_visualiz.Common.{
  ℕ, ◌+◌, ◌<◌, ◌≡◌, ◌≢◌, refl, ap, Bool, true, false, List, [], ◌∷◌, Option, none, some, ◌==◌,
  if◌then◌else◌, arith, Bool-cases, inl, inr,
}
use ffb_interceptor_visualiz.DirectInput.Publish.{
  State, Registry, Unicode, Attempt, make_state, is_valid, release_real, destroy, detach,
  discard_unpublished, find_state, wrapper_of, add_ref_state, Published, nothing, settle,
  publish_state, publish_attempt, publish_or_add_ref,
}

abbrev pub one_if : Bool → ℕ
one_if true = 1
one_if false = 0

-- How often an interface was released, and how often registered states hold it.
unfoldable pub released_total : ℕ → List ℕ → ℕ
released_total x [] = 0
released_total x (y ∷ ys) = one_if (y == x) + released_total x ys

unfoldable pub held_total : ℕ → List State → ℕ
held_total x [] = 0
held_total x (s ∷ ss) = one_if (s.real_a == x) + one_if (s.real_w == x) + held_total x ss

-- The references to an interface that the registry has taken over.
unfoldable pub taken_over : ℕ → Registry → ℕ
taken_over x r = released_total x r.released + held_total x r.states

held_total-add_ref_state :
    (x a : ℕ) (ss : List State) → held_total x (add_ref_state a ss) ≡ held_total x ss
unfolding held_total add_ref_state
held_total-add_ref_state x a [] = refl
held_total-add_ref_state x a (s ∷ ss) = ground (arith, held_total-add_ref_state x a ss)

released_total-release_real :
    (x y : ℕ) (released : List ℕ)
    → 0 < x
    → released_total x (release_real y released) ≡ one_if (y == x) + released_total x released
unfolding released_total
released_total-release_real x y released h = ground arith

-- The candidate holds the interface once, in the place of its own kind.
pub record Holds (u : Unicode) (real : ℕ) (s : State) : Type 0 where
  pub once : one_if (s.real_a == real) + one_if (s.real_w == real) ≡ 1
  pub detached : one_if ((detach u s).real_a == real) + one_if ((detach u s).real_w == real) ≡ 0
  pub wrapped : 0 < wrapper_of u s

make_state-Holds :
    (u : Unicode) (real wrapper state : ℕ) (t : Attempt)
    → 0 < real
    → 0 < wrapper
    → t.alias_real ≢ real
    → Holds u real (make_state u real wrapper state t)
unfolding make_state
make_state-Holds true real wrapper state t h k n = ground arith
make_state-Holds false real wrapper state t h k n = ground arith

destroy_total :
    (x : ℕ) (s : State) (r : Registry)
    → 0 < x
    → taken_over x (destroy s r) ≡ one_if (s.real_a == x) + one_if (s.real_w == x) + taken_over x r
unfolding destroy taken_over
destroy_total x s r h = omega (
  arith,
  released_total-release_real x s.real_w (release_real s.real_a r.released) h,
  released_total-release_real x s.real_a r.released h,
)

discard_total :
    (u : Unicode) (x : ℕ) (s : State) (r : Registry)
    → 0 < x
    → Holds u x s
    → taken_over x (discard_unpublished u s r) ≡ taken_over x r
unfolding discard_unpublished
discard_total u x s r h k = omega (arith, destroy_total x (detach u s) r h, k.detached)

-- What a publication takes over: a reference if it returns a wrapper, and none otherwise.
abbrev pub Takes : ℕ → Registry → Published × Registry → Type 0
Takes real before (published, after) =
    taken_over real after ≡ (if published.wrapper == 0 then 0 else 1) + taken_over real before

settle-Takes :
    (u : Unicode) (real : ℕ) (s : State) (found : Option State) (r : Registry)
    → 0 < real
    → Holds u real s
    → Takes real r (settle u s found r)
unfolding settle
settle-Takes u real s none r h k =
    let given : (wrapper_of u s == 0) ≡ false = ground arith in
    rw given (unfold taken_over held_total in omega (arith, k.once))
settle-Takes u real s (some current) r h k = elim (Bool-cases (wrapper_of u current == 0)) [
  | inl e ↦ rw e (omega (arith, discard_total u real s r h k))
  | inr e ↦
      let moved = record r { states = add_ref_state current.address r.states } in
      let same : taken_over real moved ≡ taken_over real r = taken_over_moved current.address in
      rw (e, e) (omega (arith, destroy_total real s moved h, k.once, same))
]
  where
    taken_over_moved :
        (a : ℕ)
        → taken_over real (record r { states = add_ref_state a r.states }) ≡ taken_over real r
    taken_over_moved a =
        unfold taken_over in
        ap (λ (n : ℕ). released_total real r.released + n)
          (held_total-add_ref_state real a r.states)

nothing-Takes :
    (real : ℕ) (r t : Registry) → taken_over real t ≡ taken_over real r → Takes real r (nothing, t)
nothing-Takes real r t h = omega (arith, h)

publish_state-Takes :
    (u : Unicode) (real : ℕ) (s : State) (r : Registry)
    → 0 < real
    → Holds u real s
    → Takes real r (publish_state u real s r)
unfolding publish_state
publish_state-Takes u real s r h k = elim (Bool-cases (is_valid s)) [
  | inl e ↦ rw e (settle-Takes u real s (find_state real s r.states) r h k)
  | inr e ↦ rw e (nothing-Takes real r (discard_unpublished u s r) (discard_total u real s r h k))
]

publish_attempt-Takes :
    (u : Unicode) (real : ℕ) (t : Attempt) (wrapper state : Option ℕ) (r : Registry)
    → 0 < real
    → t.alias_real ≢ real
    → wrapper ≢ some 0
    → Takes real r (publish_attempt u real t wrapper state r)
unfolding publish_attempt
publish_attempt-Takes u real t none state r h n w = nothing-Takes real r r refl
publish_attempt-Takes u real t (some wrapper) none r h n w = nothing-Takes real r r refl
publish_attempt-Takes u real t (some wrapper) (some state) r h n w =
    let given : wrapper ≢ 0 = λ e. w (ap some e) in
    publish_state-Takes u real (make_state u real wrapper state t) r h
      (make_state-Holds u real wrapper state t h (omega (arith, given)) n)

-- publish_or_add_ref takes over the caller's reference to the real interface exactly if it returns
-- a wrapper: that reference is then held by a registered state, or has been released, once. If it
-- returns none, the interface is held and has been released as often as before. (The alias is
-- another interface, and `new` gives no null pointer.)
pub publish_or_add_ref-Takes :
    (u : Unicode) (real : ℕ) (t : Attempt) (r : Registry)
    → 0 < real
    → t.alias_real ≢ real
    → t.wrapper ≢ some 0
    → Takes real r (publish_or_add_ref u real t r)
unfolding publish_or_add_ref
publish_or_add_ref-Takes u real t r h n w =
    let given : (real == 0) ≡ false = ground arith in
    rw given (publish_attempt-Takes u real t t.wrapper t.state r h n w)
