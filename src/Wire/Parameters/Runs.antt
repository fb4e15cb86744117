-- ===== src/Wire/Parameters/Runs.antt =====
-- fill_effect_parameters at concrete effects.
use ffb_interceptor_visualiz.Common.{
  ◌≡◌, ◌≢◌, refl, [], ◌∷◌, none, some, replicate, arith, pos, negsuc,
}
use ffb_interceptor_visualiz.Wire.Model.{
  Event, blank, spring, zero_sample, custom, effect_created, effect_parameters_changed,
}
use ffb_interceptor_visualiz.Wire.Effect.{
  Effect, absent, at, Sizes, assign, when, skip, with_word, with_event, through, load, load_each,
  ◌>>◌,
}
use ffb_interceptor_visualiz.Wire.Parameters.{
  captures, fill_effect_parameters, fill_effect, fill_readable, fill_untyped, fill_common,
  fill_start_delay, fill_trigger, fill_axes, fill_envelope, fill_type_specific, fill_behind,
  fill_kind, fill_conditions, fill_each_condition, fill_condition, condition_total, redact_opaque,
  sized, settle,
}
use ffb_interceptor_visualiz.Wire.Parameters.Closed.{IsEffect}
use ffb_interceptor_visualiz.Wire.Parameters.Fits.{IsCounted, fill_effect_parameters-IsCounted}
use ffb_interceptor_visualiz.Wire.Parameters.Redaction.{
  IsRedacted, fill_effect_parameters-IsRedacted, fill_effect_parameters-dx5,
}

-- On a 32-bit Windows.
abbrev sizes : Sizes
sizes = record { dx5 = 52; dx6 = 56 }

-- A spring on two axes, with one condition of a negative offset; the DirectX 5 structure.
abbrev spring_effect : Effect
spring_effect = record {
  size = 52;
  flags = 0x12;
  duration = 0xffffffff;
  sample_period = 0;
  gain = 10000;
  trigger_button = 0xffffffff;
  trigger_repeat_interval = 0;
  axis_total = 2;
  axes = some (0 ∷ 4 ∷ []);
  directions = some (1 ∷ 0xffffffff ∷ []);
  envelope = none;
  type_specific_total = 24;
  type_specific = some (0xffffffff ∷ 10 ∷ 20 ∷ 30 ∷ 40 ∷ 50 ∷ []);
  start_delay = none;
}

abbrev spring_event : Event
spring_event = record blank { type = effect_created; effect_kind = spring }

abbrev changed_event : Event
changed_event = record blank { type = effect_parameters_changed; effect_kind = spring; flags = 0x4 }

abbrev custom_event : Event
custom_event = record blank { type = effect_created; effect_kind = custom }

spring_effect-IsEffect : IsEffect spring_effect
spring_effect-IsEffect = omega arith

spring_event-IsCounted : IsCounted spring_event
spring_event-IsCounted = omega arith

spring_filled : fill_effect_parameters sizes (at spring_effect) spring_event ≡ record spring_event {
  di_flags = 0x12;
  duration = 0xffffffff;
  gain = 10000;
  trigger_button = 0xffffffff;
  axis_count = 2;
  axes = pos 0 ∷ pos 4 ∷ replicate 6 (pos 0);
  directions = pos 1 ∷ negsuc 0 ∷ replicate 6 (pos 0);
  type_specific_size = 24;
  condition_count = 1;
  conditions =
      record {
        offset = negsuc 0;
        positive_coefficient = pos 10;
        negative_coefficient = pos 20;
        positive_saturation = 30;
        negative_saturation = 40;
        dead_band = pos 50;
      }
      ∷ replicate 7 zero_sample;
}
unfolding fill_effect_parameters fill_effect fill_readable fill_untyped fill_common fill_start_delay
    fill_trigger fill_axes fill_envelope fill_type_specific fill_behind fill_kind fill_conditions
    fill_each_condition fill_condition condition_total redact_opaque sized settle captures assign
    when skip with_word with_event through load load_each ◌>>◌
spring_filled = refl

fill_effect_parameters-IsCounted_example :
    IsCounted (fill_effect_parameters sizes (at spring_effect) spring_event)
fill_effect_parameters-IsCounted_example =
    fill_effect_parameters-IsCounted sizes (at spring_effect) spring_event spring_effect-IsEffect
      spring_event-IsCounted

at_spring-ne-absent : at spring_effect ≢ absent
at_spring-ne-absent h = cc

fill_effect_parameters-IsRedacted_example :
    IsRedacted custom_event (fill_effect_parameters sizes (at spring_effect) custom_event)
fill_effect_parameters-IsRedacted_example =
    fill_effect_parameters-IsRedacted sizes (at spring_effect) custom_event at_spring-ne-absent
      spring_effect-IsEffect refl

fill_effect_parameters-dx5_example :
    fill_effect_parameters sizes (at (record spring_effect { start_delay = some 7 })) spring_event
    ≡ fill_effect_parameters sizes (at spring_effect) spring_event
fill_effect_parameters-dx5_example =
    fill_effect_parameters-dx5 sizes spring_effect (some 7) spring_event (omega arith)
