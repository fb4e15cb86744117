-- ===== src/DirectInput/Effect/Calls/Runs.antt =====
-- The wrappers of effects at concrete calls.
use ffb_interceptor_visualiz.Common.{
  ℕ, ◌+◌, ◌≡◌, ◌⊎◌, refl, Bool, true, List, [], ◌∷◌, some, arith, pos, replicate, length, All,
}
use ffb_interceptor_visualiz.Wire.Model.{EffectKind, kind_code}
use ffb_interceptor_visualiz.Wire.Effect.{absent}
use ffb_interceptor_visualiz.Common.{count}
use ffb_interceptor_visualiz.DirectInput.Effect.{
  WrapperEffect, Environment, Effects, at_address, set_count, unregister, construct, add_ref_at,
  release_effect, release_at, increment, decrement, first_match, find_and_add_ref, start_effect,
  set_parameters, created_effect_callback,
}
use ffb_interceptor_visualiz.DirectInput.Effect.Registry.{count_at, reals, Apart, IsAlive}
use ffb_interceptor_visualiz.DirectInput.Effect.Calls.{
  Call, creates, releases, finds, starts, sets, start_world, step, run, Legal,
}
use ffb_interceptor_visualiz.DirectInput.Effect.Calls.Invariant.{run_counts}
use ffb_interceptor_visualiz.DirectInput.Effect.Calls.Events.{Releases, run_releases}
use ffb_interceptor_visualiz.DirectInput.Effect.Calls.Find.{
  StandsFor, DoesNotStandFor, held_once_more, created_effect_callback_shows,
}

short_guid : EffectKind → List ℕ
short_guid k = kind_code k ∷ replicate 15 0

abbrev env : Environment
env = record { process_id = 4242; guid_of = short_guid; sizes = record { dx5 = 52; dx6 = 56 } }

abbrev guid : List ℕ
guid = 1 ∷ replicate 15 0

-- An effect that is created, started, found again, changed, and released twice.
abbrev calls : List Call
calls =
    creates 1000 7 true 70 3 5 guid
    ∷ starts 1000 (pos 0) 1 0
    ∷ finds 8 70
    ∷ sets 1000 (pos 0) absent 4
    ∷ releases 1000 99
    ∷ releases 1000 100
    ∷ []

calls-Legal : Legal env calls start_world
unfolding step at_address set_count construct release_effect release_at increment decrement
    first_match find_and_add_ref add_ref_at start_effect set_parameters
calls-Legal = (
  (refl, omega arith, omega arith, omega arith, refl),
  (
    (omega arith, omega arith, omega arith, omega arith),
    (
      tt,
      (
        (omega arith, omega arith, tt, omega arith),
        ((omega arith, omega arith), ((omega arith, omega arith), tt)),
      ),
    ),
  ),
)

run_counts_example :
    let world = run env calls start_world in
    ((a : ℕ) → count_at a world.effects.registry ≡ world.held a)
    × Apart world.effects.registry
    × All IsAlive world.effects.registry
    × ((r : ℕ)
        → count r world.effects.released + count r (reals world.effects.registry)
          ≡ count r (reals world.created))
run_counts_example = run_counts env calls (omega arith) calls-Legal

run_releases_example :
    let world = run env calls start_world in
    Releases env world.created world.effects.emitted world.effects.released
run_releases_example = run_releases env calls (omega arith) calls-Legal

-- The four calls that report, and the object destroyed.
calls_run :
    (length (run env calls start_world).effects.emitted
      + length (run env calls start_world).effects.released)
    ≡ 4
unfolding run step at_address set_count unregister construct release_effect release_at increment
    decrement first_match find_and_add_ref add_ref_at start_effect set_parameters
calls_run = refl

abbrev one_effect : Effects
one_effect = record {
  registry =
      record {
        address = 1000;
        real = 7;
        identity = 70;
        guid = guid;
        device_id = 3;
        effect_id = 5;
        ref_count = 1;
      }
      ∷ [];
  emitted = [];
  released = [];
}

-- A callback that looks at the pointer.
abbrev looks : ℕ → Effects → Bool × Effects
looks pointer s = (true, s)

created_effect_callback_shows_example :
    ((w : WrapperEffect) × StandsFor 8 70 w
      × (at_address w.address one_effect.registry ≡ some w)
      × ((created_effect_callback env 9 (some looks) 8 70 one_effect).0 ≡ true)
      × (held_once_more w one_effect ≡ held_once_more w one_effect
          → (created_effect_callback env 9 (some looks) 8 70 one_effect).1 ≡ one_effect))
    ⊎ (All (DoesNotStandFor 8 70) one_effect.registry
        × (created_effect_callback env 9 (some looks) 8 70 one_effect ≡ (true, one_effect)))
unfolding at_address
created_effect_callback_shows_example =
    created_effect_callback_shows env 9 looks 8 70 one_effect (omega arith) (refl, tt) (omega arith)
      (omega arith)
