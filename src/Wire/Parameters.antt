-- ===== src/Wire/Parameters.antt =====
-- fill_effect_parameters of src/telemetry_protocol.cpp: what an event takes from a DIEFFECT. The
-- sizes of the DIEFFECT structures depend on the width of a pointer and are an argument.
pub mod Closed
pub mod Typed
pub mod Fits
pub mod Frame
pub mod Redaction
mod Runs
use ffb_interceptor_visualiz.Common.{
  ℕ, zero, suc, ◌+◌, ◌*◌, ◌/◌, min, Bool, true, false, ◌&&◌, ◌||◌, not, List, [], ◌∷◌, Option, none,
  some, ltb, ◌==◌, if◌then◌else◌, get_elem?, get_or, set, bit_and, ℤ, to_i32,
}
use ffb_interceptor_visualiz.Wire.Model.{
  Event, EffectKind, constant, ramp, square, sine, triangle, sawtooth_up, sawtooth_down, spring,
  damper, inertia, friction, custom, MessageType, effect_created, ConditionSample, zero_sample,
  max_axes,
}
use ffb_interceptor_visualiz.Wire.Effect.{
  Words, Effect, EffectPointer, absent, unreadable, at, Sizes, Outcome, goes_on, returned, faulted,
  Fill, and_then, ◌>>◌, skip, assign, when, with_word, with_event, through, load, load_each,
}

-- DIEP_ constants of dinput.h.
abbrev pub duration_flag : ℕ
duration_flag = 0x1

abbrev pub sample_period_flag : ℕ
sample_period_flag = 0x2

abbrev pub gain_flag : ℕ
gain_flag = 0x4

abbrev pub trigger_button_flag : ℕ
trigger_button_flag = 0x8

abbrev pub trigger_repeat_flag : ℕ
trigger_repeat_flag = 0x10

abbrev pub axes_flag : ℕ
axes_flag = 0x20

abbrev pub direction_flag : ℕ
direction_flag = 0x40

abbrev pub envelope_flag : ℕ
envelope_flag = 0x80

abbrev pub type_specific_flag : ℕ
type_specific_flag = 0x100

abbrev pub start_delay_flag : ℕ
start_delay_flag = 0x200

abbrev pub is_created : MessageType → Bool
is_created effect_created = true
is_created other = false

abbrev pub is_opaque : EffectKind → Bool
is_opaque custom = true
is_opaque EffectKind.unknown = true
is_opaque other = false

unfoldable pub captures : Event → ℕ → Bool
captures event flag = is_created event.type || not (bit_and event.flags flag == 0)

abbrev pub redact : Event → Event
redact e = record e { custom_redacted = true }

-- Through `effect->dwDuration` and its like.
unfoldable pub fill_common : (ℕ → Bool) → Effect → Fill
fill_common captured effect = do
  assign (λ e. record e { di_flags = effect.flags })
  when (captured duration_flag) (assign (λ e. record e { duration = effect.duration }))
  when (captured sample_period_flag)
      (assign (λ e. record e { sample_period = effect.sample_period }))
  when (captured gain_flag) (assign (λ e. record e { gain = effect.gain }))

unfoldable pub fill_start_delay : Sizes → (ℕ → Bool) → Effect → Fill
fill_start_delay sizes captured effect =
    when (captured start_delay_flag && not (ltb effect.size sizes.dx6))
      (with_word effect.start_delay (λ w. assign (λ e. record e { start_delay = w })))

unfoldable pub fill_trigger : (ℕ → Bool) → Effect → Fill
fill_trigger captured effect = do
  when (captured trigger_button_flag)
      (assign (λ e. record e { trigger_button = effect.trigger_button }))
  when (captured trigger_repeat_flag)
      (assign (λ e. record e { trigger_repeat = effect.trigger_repeat_interval }))

abbrev pub set_axis : ℕ → ℕ → Event → Event
set_axis i w e = record e { axes = set e.axes i (to_i32 w) }

abbrev pub set_direction : ℕ → ℕ → Event → Event
set_direction i w e = record e { directions = set e.directions i (to_i32 w) }

unfoldable pub fill_axes : (ℕ → Bool) → Effect → Fill
fill_axes captured effect = do
  when (captured axes_flag || captured direction_flag)
      (assign (λ e. record e { axis_count = min effect.axis_total max_axes }))
  when (captured axes_flag)
      (through effect.axes (λ words. with_event (λ e. load_each set_axis words e.axis_count 0)))
  when (captured direction_flag) (
      through effect.directions
        (λ words. with_event (λ e. load_each set_direction words e.axis_count 0)))

-- DIENVELOPE: its size, and the two levels with their times. `size_fits` is its dwSize test.
unfoldable pub fill_envelope : (ℕ → Bool) → Effect → Fill
fill_envelope captured effect = when (captured envelope_flag) (
    through effect.envelope (λ words. with_word (get_elem? words 0) (λ size.
      when (not (ltb size 20)) (do
        load words 1 (λ w e. record e { envelope_attack_level = w })
        load words 2 (λ w e. record e { envelope_attack_time = w })
        load words 3 (λ w e. record e { envelope_fade_level = w })
        load words 4 (λ w e. record e { envelope_fade_time = w })))))

unfoldable pub fill_constant : Words → Fill
fill_constant words = load words 0 (λ w e. record e { magnitude = to_i32 w })

unfoldable pub fill_ramp : Words → Fill
fill_ramp words = do
  load words 0 (λ w e. record e { ramp_start = to_i32 w })
  load words 1 (λ w e. record e { ramp_end = to_i32 w })

unfoldable pub fill_periodic : Words → Fill
fill_periodic words = do
  load words 0 (λ w e. record e { periodic_magnitude = to_i32 w })
  load words 1 (λ w e. record e { periodic_offset = to_i32 w })
  load words 2 (λ w e. record e { periodic_phase = to_i32 w })
  load words 3 (λ w e. record e { periodic_period = to_i32 w })
  assign (λ e. record e { magnitude = e.periodic_magnitude })

abbrev pub update_condition : ℕ → (ConditionSample → ConditionSample) → Event → Event
update_condition i f e = record e {
  conditions = set e.conditions i (f (get_or e.conditions i zero_sample));
}

-- DICONDITION has six words.
unfoldable pub fill_condition : Words → ℕ → Fill
fill_condition words i = do
  load words (i * 6) (λ w. update_condition i (λ c. record c { offset = to_i32 w }))
  load words (i * 6 + 1)
      (λ w. update_condition i (λ c. record c { positive_coefficient = to_i32 w }))
  load words (i * 6 + 2)
      (λ w. update_condition i (λ c. record c { negative_coefficient = to_i32 w }))
  load words (i * 6 + 3) (λ w. update_condition i (λ c. record c { positive_saturation = w }))
  load words (i * 6 + 4) (λ w. update_condition i (λ c. record c { negative_saturation = w }))
  load words (i * 6 + 5) (λ w. update_condition i (λ c. record c { dead_band = to_i32 w }))

unfoldable pub fill_each_condition : Words → ℕ → ℕ → Fill
fill_each_condition words zero i = skip
fill_each_condition words (suc n) i = do fill_condition words i; fill_each_condition words n (i + 1)

-- The number of conditions that are read.
unfoldable pub condition_total : ℕ → ℕ → ℕ
condition_total size axis_count =
    let available = size / 24 in
    let wanted = if axis_count == 0 then available else axis_count in
    min (min wanted max_axes) available

unfoldable pub fill_conditions : Words → Fill
fill_conditions words = do
  assign (λ e. record e { condition_count = condition_total e.type_specific_size e.axis_count })
  with_event (λ e. fill_each_condition words e.condition_count 0)

unfoldable pub sized : ℕ → Fill → Fill
sized least f = with_event (λ e. when (not (ltb e.type_specific_size least)) f)

-- The switch over the kinds.
unfoldable pub fill_kind : EffectKind → Words → Fill
unfolding sized
fill_kind constant words = sized 4 (fill_constant words)
fill_kind ramp words = sized 8 (fill_ramp words)
fill_kind square words = sized 16 (fill_periodic words)
fill_kind sine words = sized 16 (fill_periodic words)
fill_kind triangle words = sized 16 (fill_periodic words)
fill_kind sawtooth_up words = sized 16 (fill_periodic words)
fill_kind sawtooth_down words = sized 16 (fill_periodic words)
fill_kind spring words = sized 24 (fill_conditions words)
fill_kind damper words = sized 24 (fill_conditions words)
fill_kind inertia words = sized 24 (fill_conditions words)
fill_kind friction words = sized 24 (fill_conditions words)
fill_kind custom words = assign redact
fill_kind EffectKind.unknown words = assign redact

-- The redaction of custom and unknown effects.
unfoldable pub redact_opaque : Fill
redact_opaque = with_event (λ e. when (is_opaque e.effect_kind) (assign redact))

-- Behind the type-specific pointer, which is null or leads to nothing if the size is 0.
unfoldable pub fill_behind : Option Words → Fill
fill_behind none = redact_opaque
fill_behind (some words) =
    with_event
      (λ e. if e.type_specific_size == 0 then redact_opaque else fill_kind e.effect_kind words)

unfoldable pub fill_type_specific : (ℕ → Bool) → Effect → Fill
fill_type_specific captured effect = when (captured type_specific_flag) (do
  assign (λ e. record e { type_specific_size = effect.type_specific_total })
  fill_behind effect.type_specific)

-- The __try block behind the test of dwSize, up to the redaction, and to its end.
unfoldable pub fill_untyped : Sizes → (ℕ → Bool) → Effect → Fill
fill_untyped sizes captured effect = do
  fill_common captured effect
  fill_start_delay sizes captured effect
  fill_trigger captured effect
  fill_axes captured effect
  fill_envelope captured effect

unfoldable pub fill_readable : Sizes → (ℕ → Bool) → Effect → Fill
fill_readable sizes captured effect = do
  fill_untyped sizes captured effect
  redact_opaque
  fill_type_specific captured effect

unfoldable pub fill_effect : Sizes → Effect → Fill
fill_effect sizes effect e =
    if ltb effect.size sizes.dx5
    then returned (record e { custom_redacted = is_opaque e.effect_kind })
    else fill_readable sizes (captures e) effect e

-- The __except block.
unfoldable pub settle : Outcome → Event
settle (goes_on e) = e
settle (returned e) = e
settle (faulted e) = record e { custom_redacted = true; axis_count = 0; condition_count = 0 }

unfoldable pub fill_effect_parameters : Sizes → EffectPointer → Event → Event
unfolding settle
fill_effect_parameters sizes absent e = e
fill_effect_parameters sizes unreadable e = settle (faulted e)
fill_effect_parameters sizes (at effect) e = settle (fill_effect sizes effect e)
