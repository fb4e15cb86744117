-- ===== src/DirectInput/Publish/Runs.antt =====
-- publish_or_add_ref at concrete interfaces.
use ffb_interceptor_visualiz.Common.{◌≡◌, ◌≢◌, refl, true, false, List, [], ◌∷◌, none, some, arith}
use ffb_interceptor_visualiz.DirectInput.Effect.{increment, decrement}
use ffb_interceptor_visualiz.DirectInput.Publish.{
  Attempt, Operation, publishes, releases, publish_or_add_ref, publish_attempt, publish_state,
  make_state, is_valid, settle, find_state, matches, add_ref_state, destroy, discard_unpublished,
  perform, perform_all, release_state, unregister_locked, set_state_count, state_at, empty_registry,
}
use ffb_interceptor_visualiz.DirectInput.Publish.Ownership.{publish_or_add_ref-Takes, Takes}
use ffb_interceptor_visualiz.DirectInput.Publish.Unique.{
  is_ready, publish_or_add_ref_again, perform_all-IsUnique, IsUnique,
}

-- A device whose ANSI interface is 50 and whose Unicode interface is 60.
abbrev ansi : Attempt
ansi = record {
  wrapper = some 500;
  state = some 501;
  alias_real = 60;
  alias_wrapper = some 502;
  identity = 7;
}

abbrev unicode : Attempt
unicode = record {
  wrapper = some 600;
  state = some 601;
  alias_real = 50;
  alias_wrapper = some 602;
  identity = 7;
}

-- The same, where memory is short for the alias.
abbrev short : Attempt
short = record ansi { alias_wrapper = none }

abbrev later : Attempt
later = record ansi { wrapper = some 700; state = some 701; alias_wrapper = some 702 }

ansi_created :
    (publish_or_add_ref false 50 ansi empty_registry).0 ≡ record { wrapper = 500; created = true }
unfolding publish_or_add_ref publish_attempt publish_state make_state is_valid settle find_state
    matches
ansi_created = refl

unicode_shared :
    (publish_or_add_ref true 60 unicode (publish_or_add_ref false 50 ansi empty_registry).1).0
    ≡ record { wrapper = 502; created = false }
unfolding publish_or_add_ref publish_attempt publish_state make_state is_valid settle find_state
    matches
unicode_shared = refl

short_released : (publish_or_add_ref false 50 short empty_registry).1.released ≡ 60 ∷ []
unfolding publish_or_add_ref publish_attempt publish_state make_state is_valid discard_unpublished
    destroy
short_released = refl

not_zero : ansi.wrapper ≢ some 0
not_zero e = cc

publish_or_add_ref-Takes_example :
    Takes 50 empty_registry (publish_or_add_ref false 50 ansi empty_registry)
publish_or_add_ref-Takes_example =
    publish_or_add_ref-Takes false 50 ansi empty_registry (omega arith) (omega arith) not_zero

later_ready : is_ready false 50 later (some 700) (some 701) ≡ true
unfolding is_ready is_valid make_state
later_ready = refl

ansi_made : (publish_or_add_ref false 50 ansi empty_registry).0.created ≡ true
unfolding publish_or_add_ref publish_attempt publish_state make_state is_valid settle find_state
    matches
ansi_made = refl

publish_or_add_ref_again_example :
    (publish_or_add_ref false 50 later (publish_or_add_ref false 50 ansi empty_registry).1).0
    ≡ record {
      wrapper = (publish_or_add_ref false 50 ansi empty_registry).0.wrapper;
      created = false;
    }
publish_or_add_ref_again_example =
    publish_or_add_ref_again false 50 ansi later empty_registry (omega arith) not_zero later_ready
      ansi_made

abbrev operations : List Operation
operations = publishes false 50 ansi ∷ publishes true 60 unicode ∷ releases 501 ∷ releases 501 ∷ []

perform_all-IsUnique_example : IsUnique (perform_all operations empty_registry).states
perform_all-IsUnique_example = perform_all-IsUnique operations

all_released : (perform_all operations empty_registry).states ≡ []
unfolding perform_all perform publish_or_add_ref publish_attempt publish_state make_state is_valid
    settle find_state matches add_ref_state destroy release_state unregister_locked set_state_count
    state_at increment decrement
all_released = refl

interfaces_released : (perform_all operations empty_registry).released ≡ 60 ∷ 50 ∷ 60 ∷ 50 ∷ []
unfolding perform_all perform publish_or_add_ref publish_attempt publish_state make_state is_valid
    settle find_state matches add_ref_state destroy release_state unregister_locked set_state_count
    state_at increment decrement
interfaces_released = refl
