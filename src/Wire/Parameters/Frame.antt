-- ===== src/Wire/Parameters/Frame.antt =====
-- What fill_effect_parameters of src/telemetry_protocol.cpp leaves alone.
use ffb_interceptor_visualiz.Common.{ℕ, ◌≡◌, Bool, true, false, ltb, Bool-cases, inl, inr, arith}
use ffb_interceptor_visualiz.Wire.Model.{Event}
use ffb_interceptor_visualiz.Wire.Effect.{
  Effect, EffectPointer, absent, unreadable, at, Sizes, faulted,
}
use ffb_interceptor_visualiz.Wire.Parameters.{
  duration_flag, sample_period_flag, gain_flag, trigger_button_flag, trigger_repeat_flag, axes_flag,
  direction_flag, envelope_flag, type_specific_flag, start_delay_flag, is_opaque,
}
use ffb_interceptor_visualiz.Wire.Parameters.{fill_effect, fill_effect_parameters, captures}
use ffb_interceptor_visualiz.Wire.Parameters.Closed.{Ends, IsEffect, Untyped}
use ffb_interceptor_visualiz.Wire.Parameters.Typed.{
  Typed, Payload, settle-Ends, fill_readable-Ends, redact_opaque-Keeps,
}
use ffb_interceptor_visualiz.Wire.Parameters.Fits.{IsPointer}

-- The fields of `e` that the event `before` fixes, by the captured flags. The counts and the
-- redaction are left out: the handler of an access violation sets them.
pub record Untouched (captured : ℕ → Bool) (before e : Event) : Type 0 where
  pub type_same : e.type ≡ before.type
  pub kind_same : e.effect_kind ≡ before.effect_kind
  pub command_same : e.command ≡ before.command
  pub flags_same : e.flags ≡ before.flags
  pub sequence_same : e.sequence ≡ before.sequence
  pub qpc_ticks_same : e.qpc_ticks ≡ before.qpc_ticks
  pub process_same : e.process_id ≡ before.process_id
  pub device_same : e.device_id ≡ before.device_id
  pub effect_same : e.effect_id ≡ before.effect_id
  pub guid_same : e.effect_guid ≡ before.effect_guid
  pub hresult_same : e.hresult ≡ before.hresult
  pub duration_same : captured duration_flag ≡ false → e.duration ≡ before.duration
  pub sample_period_same :
      captured sample_period_flag ≡ false → e.sample_period ≡ before.sample_period
  pub gain_same : captured gain_flag ≡ false → e.gain ≡ before.gain
  pub start_delay_same : captured start_delay_flag ≡ false → e.start_delay ≡ before.start_delay
  pub trigger_button_same :
      captured trigger_button_flag ≡ false → e.trigger_button ≡ before.trigger_button
  pub trigger_repeat_same :
      captured trigger_repeat_flag ≡ false → e.trigger_repeat ≡ before.trigger_repeat
  pub axes_same : captured axes_flag ≡ false → e.axes ≡ before.axes
  pub directions_same : captured direction_flag ≡ false → e.directions ≡ before.directions
  pub attack_level_same :
      captured envelope_flag ≡ false → e.envelope_attack_level ≡ before.envelope_attack_level
  pub attack_time_same :
      captured envelope_flag ≡ false → e.envelope_attack_time ≡ before.envelope_attack_time
  pub fade_time_same :
      captured envelope_flag ≡ false → e.envelope_fade_time ≡ before.envelope_fade_time
  pub fade_level_same :
      captured envelope_flag ≡ false → e.envelope_fade_level ≡ before.envelope_fade_level
  pub size_same :
      captured type_specific_flag ≡ false → e.type_specific_size ≡ before.type_specific_size
  pub magnitude_same : captured type_specific_flag ≡ false → e.magnitude ≡ before.magnitude
  pub ramp_start_same : captured type_specific_flag ≡ false → e.ramp_start ≡ before.ramp_start
  pub ramp_end_same : captured type_specific_flag ≡ false → e.ramp_end ≡ before.ramp_end
  pub periodic_magnitude_same :
      captured type_specific_flag ≡ false → e.periodic_magnitude ≡ before.periodic_magnitude
  pub phase_same : captured type_specific_flag ≡ false → e.periodic_phase ≡ before.periodic_phase
  pub period_same : captured type_specific_flag ≡ false → e.periodic_period ≡ before.periodic_period
  pub offset_same : captured type_specific_flag ≡ false → e.periodic_offset ≡ before.periodic_offset
  pub conditions_same : captured type_specific_flag ≡ false → e.conditions ≡ before.conditions

module _ (captured : ℕ → Bool) (before : Event) where
  abbrev Keep : Event → Type 0
  Keep = Untouched captured before

  untyped-Untouched : Untyped captured Keep Keep
  untyped-Untouched = record {
    clear = λ e p. ground arith;
    set_di_flags = λ w e k p. ground arith;
    set_duration = λ c w e k p. ground arith;
    set_sample_period = λ c w e k p. ground arith;
    set_gain = λ c w e k p. ground arith;
    set_start_delay = λ c w e k p. ground arith;
    set_trigger_button = λ c w e k p. ground arith;
    set_trigger_repeat = λ c w e k p. ground arith;
    set_axis_count = λ c w e k p. ground arith;
    set_axes = λ c i w e k p. ground arith;
    set_directions = λ c i w e k p. ground arith;
    set_attack_level = λ c w e k p. ground arith;
    set_attack_time = λ c w e k p. ground arith;
    set_fade_level = λ c w e k p. ground arith;
    set_fade_time = λ c w e k p. ground arith;
  }

  payload-Untouched :
      captured type_specific_flag ≡ true → Payload (λ e. Keep e × (is_opaque e.effect_kind ≡ false))
  payload-Untouched c = record {
    set_magnitude = λ w e k p. ground arith;
    copy_magnitude = λ e p. ground arith;
    set_ramp_start = λ w e k p. ground arith;
    set_ramp_end = λ w e k p. ground arith;
    set_periodic_magnitude = λ w e k p. ground arith;
    set_periodic_offset = λ w e k p. ground arith;
    set_periodic_phase = λ w e k p. ground arith;
    set_periodic_period = λ w e k p. ground arith;
    set_condition_count = λ n e k p. ground arith;
    set_offset = λ i w e k p. ground arith;
    set_positive_coefficient = λ i w e k p. ground arith;
    set_negative_coefficient = λ i w e k p. ground arith;
    set_positive_saturation = λ i w e k p. ground arith;
    set_negative_saturation = λ i w e k p. ground arith;
    set_dead_band = λ i w e k p. ground arith;
  }

  typed-Untouched : Typed captured Keep Keep
  typed-Untouched = record {
    clear = λ e p. ground arith;
    set_redacted = λ e p. ground arith;
    set_size = λ c w e k p. ground arith;
    payload = payload-Untouched;
  }

nothing_touched : (captured : ℕ → Bool) (e : Event) → Untouched captured e e
nothing_touched captured e = ground arith

fill_effect-Untouched :
    (sizes : Sizes) (effect : Effect) (e : Event)
    → IsEffect effect
    → Ends (Untouched (captures e) e) (Untouched (captures e) e) (fill_effect sizes effect e)
unfolding fill_effect
fill_effect-Untouched sizes effect e v = elim (Bool-cases (ltb effect.size sizes.dx5)) [
  | inl h ↦ rw h (ground arith)
  | inr h ↦ rw h (
      fill_readable-Ends (untyped-Untouched (captures e) e) (typed-Untouched (captures e) e)
        (λ d q. (redact_opaque-Keeps (typed-Untouched (captures e) e) effect v).run d q) sizes
        effect v e (nothing_touched (captures e) e))
]

-- Whatever the DIEFFECT holds and however far it can be read, fill_effect_parameters leaves alone
-- what identifies the event and, but for the counts of axes and conditions, the fields of a group
-- that the event does not capture: that is, for events other than EffectCreated, of a group whose
-- DIEP_ flag is not among its flags.
pub fill_effect_parameters-Untouched :
    (sizes : Sizes) (pointer : EffectPointer) (e : Event)
    → IsPointer pointer
    → Untouched (captures e) e (fill_effect_parameters sizes pointer e)
unfolding fill_effect_parameters
fill_effect_parameters-Untouched sizes absent e v = nothing_touched (captures e) e
fill_effect_parameters-Untouched sizes unreadable e v =
    settle-Ends (Untouched (captures e) e) (faulted e)
      ((untyped-Untouched (captures e) e).clear e (nothing_touched (captures e) e))
fill_effect_parameters-Untouched sizes (at effect) e v =
    settle-Ends (Untouched (captures e) e) (fill_effect sizes effect e)
      (fill_effect-Untouched sizes effect e v)
