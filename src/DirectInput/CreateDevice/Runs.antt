-- ===== src/DirectInput/CreateDevice/Runs.antt =====
-- CreateDevice at concrete requests.
use ffb_interceptor_visualiz.Common.{
  ◌≡◌, refl, true, false, [], ◌∷◌, none, some, pos, replicate, arith,
}
use ffb_interceptor_visualiz.DirectInput.Effect.{increment}
use ffb_interceptor_visualiz.DirectInput.Publish.{
  publish_or_add_ref, publish_attempt, publish_state, make_state, is_valid, settle, find_state,
  empty_registry,
}
use ffb_interceptor_visualiz.DirectInput.CreateDevice.{
  Devices, Request, create_device, hand_out, wrapper_is_valid, IsFailOpen, create_device-IsFailOpen,
}

abbrev start : Devices
start = record { registry = empty_registry; next_device = 0; emitted = [] }

-- A device without an alias, under the name "G".
abbrev request : Request
request = record {
  out_given = true;
  guid = replicate 16 1;
  outer_given = false;
  hr = pos 0;
  real = 50;
  name = some (71 ∷ []);
  attempt = record {
    wrapper = some 500;
    state = some 501;
    alias_real = 0;
    alias_wrapper = none;
    identity = 7;
  };
}

-- The same, where memory is short for the shared state.
abbrev short : Request
short = record request { attempt = record request.attempt { state = none } }

wrapper_stored : (create_device 4242 false 40 request start).0.out ≡ 500
unfolding create_device hand_out wrapper_is_valid increment publish_or_add_ref publish_attempt
    publish_state make_state is_valid settle find_state
wrapper_stored = refl

real_stored : (create_device 4242 false 40 short start).0.out ≡ 50
unfolding create_device hand_out wrapper_is_valid increment publish_or_add_ref publish_attempt
real_stored = refl

create_device-IsFailOpen_example : IsFailOpen short (create_device 4242 false 40 short start).0
create_device-IsFailOpen_example =
    create_device-IsFailOpen 4242 false 40 short start (omega arith) refl
