-- ===== src/Wire/Parameters/Typed.antt =====
-- The type-specific part of fill_effect_parameters, and the function as a whole.
use ffb_interceptor_visualiz.Common.{
  ℕ, zero, suc, ◌+◌, ◌*◌, ◌≤◌, ◌≡◌, refl, Bool, true, false, Option, none, some, ◌==◌, to_i32,
  IsU32, All, Bool-cases, inl, inr, arith,
}
use ffb_interceptor_visualiz.Wire.Model.{
  Event, EffectKind, constant, ramp, square, sine, triangle, sawtooth_up, sawtooth_down, spring,
  damper, inertia, friction, custom, max_axes,
}
use ffb_interceptor_visualiz.Wire.Effect.{
  Words, Effect, Sizes, Outcome, goes_on, returned, faulted, Fill, ◌>>◌, assign, with_event,
}
use ffb_interceptor_visualiz.Wire.Parameters.{
  type_specific_flag, is_opaque, redact, redact_opaque, fill_constant, fill_ramp, fill_periodic,
  update_condition, fill_condition, fill_each_condition, condition_total, fill_conditions, sized,
  fill_kind, fill_behind, fill_type_specific, fill_untyped, fill_readable, settle,
}
use ffb_interceptor_visualiz.Wire.Parameters.Closed.{
  cleared, Ends, then-Ends, Keeps, IsEffect, Sets, Keeps-skip, Keeps-then, Keeps-when, Keeps-assign,
  Keeps-with_event, Keeps-load, Untyped, fill_untyped-Keeps, AreWords,
}

-- The assignments from the type-specific words of an effect.
pub record Payload (P : Event → Type 0) : Type 0 where
  pub set_magnitude : Sets P (λ w e. record e { magnitude = to_i32 w })
  pub copy_magnitude : (e : Event) → P e → P (record e { magnitude = e.periodic_magnitude })
  pub set_ramp_start : Sets P (λ w e. record e { ramp_start = to_i32 w })
  pub set_ramp_end : Sets P (λ w e. record e { ramp_end = to_i32 w })
  pub set_periodic_magnitude : Sets P (λ w e. record e { periodic_magnitude = to_i32 w })
  pub set_periodic_offset : Sets P (λ w e. record e { periodic_offset = to_i32 w })
  pub set_periodic_phase : Sets P (λ w e. record e { periodic_phase = to_i32 w })
  pub set_periodic_period : Sets P (λ w e. record e { periodic_period = to_i32 w })
  pub set_condition_count :
      (n : ℕ) (e : Event) → n ≤ max_axes → P e → P (record e { condition_count = n })
  pub set_offset : (i : ℕ) → Sets P (λ w. update_condition i (λ c. record c { offset = to_i32 w }))
  pub set_positive_coefficient :
      (i : ℕ) → Sets P (λ w. update_condition i (λ c. record c { positive_coefficient = to_i32 w }))
  pub set_negative_coefficient :
      (i : ℕ) → Sets P (λ w. update_condition i (λ c. record c { negative_coefficient = to_i32 w }))
  pub set_positive_saturation :
      (i : ℕ) → Sets P (λ w. update_condition i (λ c. record c { positive_saturation = w }))
  pub set_negative_saturation :
      (i : ℕ) → Sets P (λ w. update_condition i (λ c. record c { negative_saturation = w }))
  pub set_dead_band :
      (i : ℕ) → Sets P (λ w. update_condition i (λ c. record c { dead_band = to_i32 w }))

condition_total-le : (size axis_count : ℕ) → condition_total size axis_count ≤ max_axes
unfolding condition_total
condition_total-le size axis_count = omega arith

module _ {P R : Event → Type 0} (clear : (e : Event) → P e → R (cleared e)) (u : Payload P)
    (words : Words) (a : All IsU32 words) where
  fill_constant-Keeps : Keeps P R (fill_constant words)
  unfolding fill_constant
  fill_constant-Keeps = Keeps-load clear words 0 a u.set_magnitude

  fill_ramp-Keeps : Keeps P R (fill_ramp words)
  unfolding fill_ramp
  fill_ramp-Keeps =
      Keeps-then (Keeps-load clear words 0 a u.set_ramp_start)
        (Keeps-load clear words 1 a u.set_ramp_end)

  fill_periodic-Keeps : Keeps P R (fill_periodic words)
  unfolding fill_periodic
  fill_periodic-Keeps = Keeps-then (Keeps-load clear words 0 a u.set_periodic_magnitude) (
      Keeps-then (Keeps-load clear words 1 a u.set_periodic_offset) (
        Keeps-then (Keeps-load clear words 2 a u.set_periodic_phase) (
          Keeps-then (Keeps-load clear words 3 a u.set_periodic_period)
            (Keeps-assign _ u.copy_magnitude))))

  fill_condition-Keeps : (i : ℕ) → Keeps P R (fill_condition words i)
  unfolding fill_condition
  fill_condition-Keeps i = Keeps-then (Keeps-load clear words (i * 6) a (u.set_offset i)) (
      Keeps-then (Keeps-load clear words (i * 6 + 1) a (u.set_positive_coefficient i)) (
        Keeps-then (Keeps-load clear words (i * 6 + 2) a (u.set_negative_coefficient i)) (
          Keeps-then (Keeps-load clear words (i * 6 + 3) a (u.set_positive_saturation i)) (
            Keeps-then (Keeps-load clear words (i * 6 + 4) a (u.set_negative_saturation i))
              (Keeps-load clear words (i * 6 + 5) a (u.set_dead_band i))))))

  fill_each_condition-Keeps : (n i : ℕ) → Keeps P R (fill_each_condition words n i)
  unfolding fill_each_condition
  fill_each_condition-Keeps zero i = Keeps-skip
  fill_each_condition-Keeps (suc n) i =
      Keeps-then (fill_condition-Keeps i) (fill_each_condition-Keeps n (i + 1))

  fill_conditions-Keeps : Keeps P R (fill_conditions words)
  unfolding fill_conditions
  fill_conditions-Keeps =
      Keeps-then
        (Keeps-assign _ λ e.
          u.set_condition_count (condition_total e.type_specific_size e.axis_count) e
            (condition_total-le e.type_specific_size e.axis_count))
        (Keeps-with_event λ e p. fill_each_condition-Keeps e.condition_count 0)

  sized-Keeps : (least : ℕ) {f : Fill} → Keeps P R f → Keeps P R (sized least f)
  unfolding sized
  sized-Keeps least k = Keeps-with_event λ e p. Keeps-when λ c. k

  -- The switch, at a kind that is not opaque.
  fill_kind-Keeps : (kind : EffectKind) → is_opaque kind ≡ false → Keeps P R (fill_kind kind words)
  unfolding fill_kind
  fill_kind-Keeps constant h = sized-Keeps 4 fill_constant-Keeps
  fill_kind-Keeps ramp h = sized-Keeps 8 fill_ramp-Keeps
  fill_kind-Keeps square h = sized-Keeps 16 fill_periodic-Keeps
  fill_kind-Keeps sine h = sized-Keeps 16 fill_periodic-Keeps
  fill_kind-Keeps triangle h = sized-Keeps 16 fill_periodic-Keeps
  fill_kind-Keeps sawtooth_up h = sized-Keeps 16 fill_periodic-Keeps
  fill_kind-Keeps sawtooth_down h = sized-Keeps 16 fill_periodic-Keeps
  fill_kind-Keeps spring h = sized-Keeps 24 fill_conditions-Keeps
  fill_kind-Keeps damper h = sized-Keeps 24 fill_conditions-Keeps
  fill_kind-Keeps inertia h = sized-Keeps 24 fill_conditions-Keeps
  fill_kind-Keeps friction h = sized-Keeps 24 fill_conditions-Keeps
  fill_kind-Keeps custom h = cc
  fill_kind-Keeps EffectKind.unknown h = cc

-- The payload of an opaque effect is not read.
fill_kind-opaque :
    (kind : EffectKind) (words : Words)
    → is_opaque kind ≡ true
    → fill_kind kind words ≡ assign redact
unfolding fill_kind
fill_kind-opaque custom words h = refl
fill_kind-opaque EffectKind.unknown words h = refl
fill_kind-opaque constant words h = cc
fill_kind-opaque ramp words h = cc
fill_kind-opaque square words h = cc
fill_kind-opaque sine words h = cc
fill_kind-opaque triangle words h = cc
fill_kind-opaque sawtooth_up words h = cc
fill_kind-opaque sawtooth_down words h = cc
fill_kind-opaque spring words h = cc
fill_kind-opaque damper words h = cc
fill_kind-opaque inertia words h = cc
fill_kind-opaque friction words h = cc

-- The assignments of the last part: the payload only of an effect that is not opaque.
pub record Typed (captured : ℕ → Bool) (P R : Event → Type 0) : Type 0 where
  pub clear : (e : Event) → P e → R (cleared e)
  pub set_redacted : (e : Event) → P e → P (redact e)
  pub set_size :
      captured type_specific_flag ≡ true → Sets P (λ w e. record e { type_specific_size = w })
  pub payload :
      captured type_specific_flag ≡ true → Payload (λ e. P e × (is_opaque e.effect_kind ≡ false))

pub weaken-Ends :
    (P Q R : Event → Type 0) (o : Outcome) → ((e : Event) → Q e → P e) → Ends Q R o → Ends P R o
weaken-Ends P Q R (goes_on e) f h = f e h
weaken-Ends P Q R (returned e) f h = h
weaken-Ends P Q R (faulted e) f h = h

module _ {captured : ℕ → Bool} {P R : Event → Type 0} (u : Typed captured P R) (effect : Effect)
    (v : IsEffect effect) where
  pub redact_opaque-Keeps : Keeps P R redact_opaque
  unfolding redact_opaque
  redact_opaque-Keeps = Keeps-with_event λ e p. Keeps-when λ c. Keeps-assign _ u.set_redacted

  fill_words-Keeps :
      (words : Words)
      → All IsU32 words
      → captured type_specific_flag ≡ true
      → Keeps P R (with_event (λ e. fill_kind e.effect_kind words))
  unfolding with_event
  fill_words-Keeps words a c = record {
    run = λ e p. elim (Bool-cases (is_opaque e.effect_kind)) [
      | inl h ↦
          rw (fill_kind-opaque e.effect_kind words h) ((Keeps-assign redact u.set_redacted).run e p)
      | inr h ↦
          weaken-Ends P (λ d. P d × (is_opaque d.effect_kind ≡ false)) R _ (λ d q. q.0)
            ((fill_kind-Keeps (λ d q. u.clear d q.0) (u.payload c) words a e.effect_kind h).run e
              (p, h))
    ];
  }

  fill_behind-Keeps :
      captured type_specific_flag ≡ true
      → (words : Option Words) → AreWords words
      → Keeps P R (fill_behind words)
  unfolding fill_behind with_event
  fill_behind-Keeps c none a = redact_opaque-Keeps
  fill_behind-Keeps c (some words) a = record {
    run = λ e p. elim (Bool-cases (e.type_specific_size == 0)) [
      | inl h ↦ rw h (redact_opaque-Keeps.run e p)
      | inr h ↦ rw h (unfold with_event in (fill_words-Keeps words a c).run e p)
    ];
  }

  pub fill_type_specific-Keeps : Keeps P R (fill_type_specific captured effect)
  unfolding fill_type_specific
  fill_type_specific-Keeps = Keeps-when λ c.
      Keeps-then
        (Keeps-assign _ λ e. u.set_size c effect.type_specific_total e v.type_specific_total_fits)
        (fill_behind-Keeps c effect.type_specific v.type_specific_fits)

-- The event that the function leaves, whichever way it leaves.
pub settle-Ends : (R : Event → Type 0) (o : Outcome) → Ends R R o → R (settle o)
unfolding settle
settle-Ends R (goes_on e) h = h
settle-Ends R (returned e) h = h
settle-Ends R (faulted e) h = h

module _ {captured : ℕ → Bool} {P Q R : Event → Type 0} (u : Untyped captured P R)
    (t : Typed captured Q R) (redacted : (e : Event) → P e → Ends Q R (redact_opaque e))
    (sizes : Sizes) (effect : Effect) (v : IsEffect effect) where
  -- `P` before the redaction and `Q` behind it.
  pub fill_readable-Ends : (e : Event) → P e → Ends Q R (fill_readable sizes captured effect e)
  unfolding fill_readable ◌>>◌
  fill_readable-Ends e p =
      then-Ends P Q R (fill_untyped sizes captured effect e) _
        ((fill_untyped-Keeps u effect v sizes).run e p)
        λ d q.
          then-Ends Q Q R (redact_opaque d) _ (redacted d q)
            (fill_type_specific-Keeps t effect v).run
