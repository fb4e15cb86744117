-- ===== src/Wire/Parameters/Redaction.antt =====
-- What fill_effect_parameters of src/telemetry_protocol.cpp keeps back.
use ffb_interceptor_visualiz.Common.{
  ℕ, ◌≤◌, ◌<◌, ◌≢◌, ◌≡◌, refl, Bool, true, false, Option, ltb, Bool-cases, inl, inr, arith,
}
use ffb_interceptor_visualiz.Wire.Model.{Event}
use ffb_interceptor_visualiz.Wire.Effect.{
  Effect, EffectPointer, absent, unreadable, at, Sizes, skip, assign, when, with_event,
}
use ffb_interceptor_visualiz.Wire.Parameters.{
  start_delay_flag, is_opaque, fill_common, fill_start_delay, fill_trigger, redact_opaque,
  fill_axes, fill_envelope, fill_type_specific, fill_untyped, fill_readable, settle,
}
use ffb_interceptor_visualiz.Wire.Parameters.{fill_effect, fill_effect_parameters, captures}
use ffb_interceptor_visualiz.Wire.Parameters.Closed.{Ends, IsEffect, Untyped}
use ffb_interceptor_visualiz.Wire.Parameters.Typed.{
  Typed, Payload, weaken-Ends, settle-Ends, fill_readable-Ends,
}
use ffb_interceptor_visualiz.Wire.Parameters.Fits.{IsPointer}

-- The fields that carry an effect's own data.
pub record SamePayload (before e : Event) : Type 0 where
  pub magnitude_same : e.magnitude ≡ before.magnitude
  pub ramp_start_same : e.ramp_start ≡ before.ramp_start
  pub ramp_end_same : e.ramp_end ≡ before.ramp_end
  pub periodic_magnitude_same : e.periodic_magnitude ≡ before.periodic_magnitude
  pub periodic_offset_same : e.periodic_offset ≡ before.periodic_offset
  pub periodic_phase_same : e.periodic_phase ≡ before.periodic_phase
  pub periodic_period_same : e.periodic_period ≡ before.periodic_period
  pub conditions_same : e.conditions ≡ before.conditions
  pub conditions_counted : e.condition_count ≤ before.condition_count

-- The event says that it is redacted, and carries none of the effect's own data.
pub record IsRedacted (before e : Event) : Type 0 where
  pub redacted : e.custom_redacted ≡ true
  pub same : SamePayload before e

module _ (captured : ℕ → Bool) (before : Event) where
  abbrev Opaque : Event → Type 0
  Opaque e = (is_opaque e.effect_kind ≡ true) × SamePayload before e

  abbrev OpaqueRedacted : Event → Type 0
  OpaqueRedacted e = (is_opaque e.effect_kind ≡ true) × IsRedacted before e

  untyped-Opaque : Untyped captured Opaque (IsRedacted before)
  untyped-Opaque = record {
    clear = λ e p. ground arith;
    set_di_flags = λ w e k p. ground arith;
    set_duration = λ c w e k p. ground arith;
    set_sample_period = λ c w e k p. ground arith;
    set_gain = λ c w e k p. ground arith;
    set_start_delay = λ c w e k p. ground arith;
    set_trigger_button = λ c w e k p. ground arith;
    set_trigger_repeat = λ c w e k p. ground arith;
    set_axis_count = λ c w e k p. ground arith;
    set_axes = λ c i w e k p. ground arith;
    set_directions = λ c i w e k p. ground arith;
    set_attack_level = λ c w e k p. ground arith;
    set_attack_time = λ c w e k p. ground arith;
    set_fade_level = λ c w e k p. ground arith;
    set_fade_time = λ c w e k p. ground arith;
  }

  -- No event is opaque and not opaque.
  payload-Opaque : Payload (λ e. OpaqueRedacted e × (is_opaque e.effect_kind ≡ false))
  payload-Opaque = record {
    set_magnitude = λ w e k p. absurd (cc);
    copy_magnitude = λ e p. absurd (cc);
    set_ramp_start = λ w e k p. absurd (cc);
    set_ramp_end = λ w e k p. absurd (cc);
    set_periodic_magnitude = λ w e k p. absurd (cc);
    set_periodic_offset = λ w e k p. absurd (cc);
    set_periodic_phase = λ w e k p. absurd (cc);
    set_periodic_period = λ w e k p. absurd (cc);
    set_condition_count = λ n e k p. absurd (cc);
    set_offset = λ i w e k p. absurd (cc);
    set_positive_coefficient = λ i w e k p. absurd (cc);
    set_negative_coefficient = λ i w e k p. absurd (cc);
    set_positive_saturation = λ i w e k p. absurd (cc);
    set_negative_saturation = λ i w e k p. absurd (cc);
    set_dead_band = λ i w e k p. absurd (cc);
  }

  typed-Opaque : Typed captured OpaqueRedacted (IsRedacted before)
  typed-Opaque = record {
    clear = λ e p. ground arith;
    set_redacted = λ e p. ground arith;
    set_size = λ c w e k p. ground arith;
    payload = λ c. payload-Opaque;
  }

  redact_opaque-Opaque :
      (e : Event) → Opaque e → Ends OpaqueRedacted (IsRedacted before) (redact_opaque e)
  unfolding redact_opaque with_event when assign skip
  redact_opaque-Opaque e p = rw p.0 (ground arith)

fill_effect-IsRedacted :
    (sizes : Sizes) (effect : Effect) (e : Event)
    → IsEffect effect
    → is_opaque e.effect_kind ≡ true
    → IsRedacted e (settle (fill_effect sizes effect e))
unfolding fill_effect settle
fill_effect-IsRedacted sizes effect e v k = elim (Bool-cases (ltb effect.size sizes.dx5)) [
  | inl h ↦ rw h (ground arith)
  | inr h ↦ rw h (
      settle-Ends (IsRedacted e) _ (
        weaken-Ends (IsRedacted e) (OpaqueRedacted (captures e) e) (IsRedacted e) _ (λ d q. q.1)
          (fill_readable-Ends (untyped-Opaque (captures e) e) (typed-Opaque (captures e) e)
            (redact_opaque-Opaque (captures e) e) sizes effect v e (k, ground arith))))
]

-- For a custom effect, or one whose kind is unknown, and a pointer that is not null,
-- fill_effect_parameters marks the event as redacted and writes nothing of the effect's own data
-- into it, whatever the flags and sizes are and wherever a read may fault.
pub fill_effect_parameters-IsRedacted :
    (sizes : Sizes) (pointer : EffectPointer) (e : Event)
    → pointer ≢ absent
    → IsPointer pointer
    → is_opaque e.effect_kind ≡ true
    → IsRedacted e (fill_effect_parameters sizes pointer e)
unfolding fill_effect_parameters
fill_effect_parameters-IsRedacted sizes absent e n v k = absurd (n refl)
fill_effect_parameters-IsRedacted sizes unreadable e n v k =
    (untyped-Opaque (captures e) e).clear e (k, ground arith)
fill_effect_parameters-IsRedacted sizes (at effect) e n v k =
    fill_effect-IsRedacted sizes effect e v k

no_start_delay :
    (sizes : Sizes) (captured : ℕ → Bool) (effect : Effect)
    → ltb effect.size sizes.dx6 ≡ true
    → fill_start_delay sizes captured effect ≡ skip
unfolding fill_start_delay when
no_start_delay sizes captured effect h = elim (Bool-cases (captured start_delay_flag)) [
  | inl c ↦ rw (h, c) refl
  | inr c ↦ rw (h, c) refl
]

fill_untyped-dx5 :
    (sizes : Sizes) (captured : ℕ → Bool) (effect : Effect) (behind : Option ℕ)
    → ltb effect.size sizes.dx6 ≡ true
    → fill_untyped sizes captured (record effect { start_delay = behind })
      ≡ fill_untyped sizes captured effect
unfolding fill_untyped fill_common fill_trigger fill_axes fill_envelope
fill_untyped-dx5 sizes captured effect behind h =
    rw
      (
        no_start_delay sizes captured effect h,
        no_start_delay sizes captured (record effect { start_delay = behind }) h,
      )
      refl

fill_readable-dx5 :
    (sizes : Sizes) (captured : ℕ → Bool) (effect : Effect) (behind : Option ℕ)
    → ltb effect.size sizes.dx6 ≡ true
    → fill_readable sizes captured (record effect { start_delay = behind })
      ≡ fill_readable sizes captured effect
unfolding fill_readable fill_type_specific
fill_readable-dx5 sizes captured effect behind h =
    rw (fill_untyped-dx5 sizes captured effect behind h) refl

-- From a structure of DirectX 5, which ends before dwStartDelay, that field is not read: what
-- stands behind the structure makes no difference.
pub fill_effect_parameters-dx5 :
    (sizes : Sizes) (effect : Effect) (behind : Option ℕ) (e : Event)
    → effect.size < sizes.dx6
    → fill_effect_parameters sizes (at (record effect { start_delay = behind })) e
      ≡ fill_effect_parameters sizes (at effect) e
unfolding fill_effect_parameters fill_effect
fill_effect_parameters-dx5 sizes effect behind e h =
    let short : ltb effect.size sizes.dx6 ≡ true = ground arith in
    rw (fill_readable-dx5 sizes (captures e) effect behind short) refl
