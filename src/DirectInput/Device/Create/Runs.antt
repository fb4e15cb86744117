-- ===== src/DirectInput/Device/Create/Runs.antt =====
-- CreateEffect at a concrete request.
use ffb_interceptor_visualiz.Common.{◌≡◌, refl, true, false, some, pos, replicate}
use ffb_interceptor_visualiz.Wire.Effect.{absent}
use ffb_interceptor_visualiz.DirectInput.Effect.{Environment, no_effects, increment}
use ffb_interceptor_visualiz.DirectInput.Device.Create.{Created, Request, create_effect, wrap}

abbrev env : Environment
env = record {
  process_id = 4242;
  guid_of = λ k. replicate 16 0;
  sizes = record { dx5 = 52; dx6 = 56 };
}

abbrev request : Request
request = record {
  out_given = true;
  guid = replicate 16 1;
  parameters = absent;
  outer_given = false;
  hr = pos 1;
  real = 7;
  allocated = some 1000;
  found = true;
  identity = 70;
}

abbrev start : Created
start = record { effects = no_effects; next_effect = 4 }

wrapper_stored : (create_effect env 50 3 request start).0.out ≡ 1000
unfolding create_effect wrap increment
wrapper_stored = refl
