-- ===== src/DirectInput/Publish.antt =====
-- The shared states of device wrappers, WrapperDevice8State of src/wrapper_device8.cpp, and
-- publish_or_add_ref. A pointer is a number, 0 if it is null; the chain of registry_next links is
-- a list, its head first.
mod Unique
mod Ownership
mod Runs
use ffb_interceptor_visualiz.Common.{
  ℕ, zero, suc, ◌+◌, ◌%◌, ◌^◌, Bool, true, false, ◌&&◌, ◌||◌, not, List, [], ◌∷◌, Option, none,
  some, ◌==◌, if◌then◌else◌,
}
use ffb_interceptor_visualiz.DirectInput.Effect.{increment, decrement}

-- `address` names the state; `registered` is its place in the list.
pub record State : Type 0 where
  pub address : ℕ
  pub ref_count : ℕ
  pub real_a : ℕ
  pub real_w : ℕ
  pub wrapper_a : ℕ
  pub wrapper_w : ℕ
  pub identity : ℕ

-- The registry, and the real interfaces that have been released (newest first).
pub record Registry : Type 0 where
  pub states : List State
  pub released : List ℕ

-- Whether the wrapper is for IDirectInputDevice8W (template<bool U>).
abbrev pub Unicode : Type 0
Unicode = Bool

-- What the constructor meets: the addresses that `new` gives for the wrapper, its state and the
-- alias wrapper (`none` if memory is short), the alias interface and the identity (0 if a query
-- fails).
pub record Attempt : Type 0 where
  pub wrapper : Option ℕ
  pub state : Option ℕ
  pub alias_real : ℕ
  pub alias_wrapper : Option ℕ
  pub identity : ℕ

-- The pointer that `new` stores.
abbrev pub or_null : Option ℕ → ℕ
or_null none = 0
or_null (some a) = a

-- The wrapper of the alias is made only for an alias.
abbrev pub alias_made : Attempt → ℕ
alias_made t = if t.alias_real == 0 then 0 else or_null t.alias_wrapper

unfoldable pub make_state : Unicode → (real wrapper state : ℕ) → Attempt → State
make_state true real wrapper state t = record {
  address = state;
  ref_count = 1;
  real_a = t.alias_real;
  real_w = real;
  wrapper_a = alias_made t;
  wrapper_w = wrapper;
  identity = t.identity;
}
make_state false real wrapper state t = record {
  address = state;
  ref_count = 1;
  real_a = real;
  real_w = t.alias_real;
  wrapper_a = wrapper;
  wrapper_w = alias_made t;
  identity = t.identity;
}

-- WrapperDevice8State::valid
unfoldable pub is_valid : State → Bool
is_valid s = (s.real_a == 0 || not (s.wrapper_a == 0)) && (s.real_w == 0 || not (s.wrapper_w == 0))

-- if (real_a) real_a->Release();
abbrev pub release_real : ℕ → List ℕ → List ℕ
release_real real released = if real == 0 then released else real ∷ released

-- ~WrapperDevice8State
unfoldable pub destroy : State → Registry → Registry
destroy s r = record r { released = release_real s.real_w (release_real s.real_a r.released) }

-- The interface of the wrapper, detached in discard_unpublished so that it is not released.
abbrev pub detach : Unicode → State → State
detach true s = record s { real_w = 0 }
detach false s = record s { real_a = 0 }

-- discard_unpublished of a wrapper with a state, whose only reference is given back.
unfoldable pub discard_unpublished : Unicode → State → Registry → Registry
unfolding destroy
discard_unpublished u s r = destroy (detach u s) r

-- exact_pointer and same_identity of the search.
unfoldable pub matches : (real : ℕ) → State → State → Bool
matches real candidate current =
    (not (current.real_a == 0) && current.real_a == real)
    || (not (current.real_w == 0) && current.real_w == real)
    || (not (candidate.identity == 0) && current.identity == candidate.identity)

-- The loop up to `break`: the first state that matches.
unfoldable pub find_state : (real : ℕ) → State → List State → Option State
find_state real candidate [] = none
find_state real candidate (s ∷ ss) =
    let rest = find_state real candidate ss in if matches real candidate s then some s else rest

abbrev pub wrapper_of : Unicode → State → ℕ
wrapper_of true s = s.wrapper_w
wrapper_of false s = s.wrapper_a

-- current->add_ref(), in the list.
unfoldable pub add_ref_state : ℕ → List State → List State
add_ref_state a [] = []
add_ref_state a (s ∷ ss) =
    let rest = add_ref_state a ss in
    if s.address == a then record s { ref_count = increment s.ref_count } ∷ ss else s ∷ rest

-- The returned wrapper, 0 for none, and whether it was created.
pub record Published : Type 0 where
  pub wrapper : ℕ
  pub created : Bool

abbrev pub nothing : Published
nothing = record { wrapper = 0; created = false }

-- The branches behind the search. A candidate that is not published gives its only reference back:
-- with the real interface, if an existing state serves, and without it if none can.
unfoldable pub settle : Unicode → State → Option State → Registry → Published × Registry
unfolding destroy discard_unpublished
settle u candidate none r = (
  record { wrapper = wrapper_of u candidate; created = true },
  record r { states = candidate ∷ r.states },
)
settle u candidate (some current) r =
    if wrapper_of u current == 0 then (nothing, discard_unpublished u candidate r) else (
      record { wrapper = wrapper_of u current; created = false },
      destroy candidate (record r { states = add_ref_state current.address r.states }),
    )

-- With a state that could be allocated.
unfoldable pub publish_state : Unicode → (real : ℕ) → State → Registry → Published × Registry
unfolding settle is_valid find_state
publish_state u real candidate r =
    if is_valid candidate
    then settle u candidate (find_state real candidate r.states) r
    else (nothing, discard_unpublished u candidate r)

-- Without memory for the wrapper or for its state there is nothing to give back.
unfoldable pub publish_attempt :
    Unicode → (real : ℕ) → Attempt → Option ℕ → Option ℕ → Registry → Published × Registry
unfolding publish_state make_state
publish_attempt u real t none state r = (nothing, r)
publish_attempt u real t (some wrapper) none r = (nothing, r)
publish_attempt u real t (some wrapper) (some state) r =
    publish_state u real (make_state u real wrapper state t) r

unfoldable pub publish_or_add_ref : Unicode → (real : ℕ) → Attempt → Registry → Published × Registry
unfolding publish_attempt
publish_or_add_ref u real t r =
    if real == 0 then (nothing, r) else publish_attempt u real t t.wrapper t.state r

-- unregister_locked: the walk along the links.
unfoldable pub unregister_locked : ℕ → List State → List State
unregister_locked a [] = []
unregister_locked a (s ∷ ss) =
    let rest = unregister_locked a ss in if s.address == a then ss else s ∷ rest

unfoldable pub set_state_count : ℕ → ℕ → List State → List State
set_state_count a n [] = []
set_state_count a n (s ∷ ss) =
    let rest = set_state_count a n ss in
    if s.address == a then record s { ref_count = n } ∷ ss else s ∷ rest

-- release() of a registered state.
unfoldable pub release_state : State → Registry → Registry
unfolding destroy
release_state s r =
    let count = decrement s.ref_count in
    if count == 0
    then destroy s (record r { states = unregister_locked s.address r.states })
    else record r { states = set_state_count s.address count r.states }

unfoldable pub state_at : ℕ → List State → Option State
state_at a [] = none
state_at a (s ∷ ss) = let rest = state_at a ss in if s.address == a then some s else rest

abbrev pub release_found : Option State → Registry → Registry
release_found none r = r
release_found (some s) r = release_state s r

-- The calls that change the registry.
pub data Operation : Type 0 where
  publishes : Unicode → (real : ℕ) → Attempt → Operation
  adds_ref releases : (address : ℕ) → Operation

unfoldable pub perform : Operation → Registry → Registry
unfolding release_state
perform (publishes u real t) r = (publish_or_add_ref u real t r).1
perform (adds_ref a) r = record r { states = add_ref_state a r.states }
perform (releases a) r = release_found (state_at a r.states) r

unfoldable pub perform_all : List Operation → Registry → Registry
unfolding perform
perform_all [] r = r
perform_all (o ∷ os) r = perform_all os (perform o r)

abbrev pub empty_registry : Registry
empty_registry = record { states = []; released = [] }
