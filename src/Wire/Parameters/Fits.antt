-- ===== src/Wire/Parameters/Fits.antt =====
-- The fields that fill_effect_parameters leaves have the sizes and ranges of their types.
use ffb_interceptor_visualiz.Common.{
  ℕ, zero, suc, ◌≤◌, ◌≡◌, Bool, false, List, [], ◌∷◌, ltb, get_or, set, length-set, IsI32, to_i32,
  IsU32, All, Bool-cases, inl, inr, arith,
}
use ffb_interceptor_visualiz.Wire.Model.{Event, ConditionSample, zero_sample, max_axes}
use ffb_interceptor_visualiz.Wire.Effect.{
  Effect, EffectPointer, absent, unreadable, at, Sizes, faulted,
}
use ffb_interceptor_visualiz.Wire.Parameters.{is_opaque, set_axis, set_direction, update_condition}
use ffb_interceptor_visualiz.Wire.Model.{IsEvent, IsSample}
use ffb_interceptor_visualiz.Wire.Parameters.{fill_effect, fill_effect_parameters, captures}
use ffb_interceptor_visualiz.Wire.Parameters.Closed.{Ends, IsEffect, Sets, Untyped}
use ffb_interceptor_visualiz.Wire.Parameters.Typed.{
  Typed, Payload, settle-Ends, fill_readable-Ends, redact_opaque-Keeps,
}

-- The fields fit their types, and the counts their arrays.
pub record IsCounted (e : Event) : Type 0 where
  pub event : IsEvent e
  pub axes_counted : e.axis_count ≤ max_axes
  pub conditions_counted : e.condition_count ≤ max_axes

to_i32-IsI32 : (w : ℕ) → IsU32 w → IsI32 (to_i32 w)
to_i32-IsI32 w h = ground arith

All-set :
    {A : Type 0} (P : A → Type 0) (xs : List A) (i : ℕ) (x : A)
    → All P xs
    → P x
    → All P (set xs i x)
All-set P [] i x h k = tt
All-set P (y ∷ ys) zero x h k = (k, h.1)
All-set P (y ∷ ys) (suc i) x h k = (h.0, All-set P ys i x h.1 k)

All-get_or :
    {A : Type 0} (P : A → Type 0) (xs : List A) (i : ℕ) (d : A) → All P xs → P d → P (get_or xs i d)
All-get_or P [] i d h k = k
All-get_or P (y ∷ ys) zero d h k = h.0
All-get_or P (y ∷ ys) (suc i) d h k = All-get_or P ys i d h.1 k

set_axis-IsCounted : (i : ℕ) → Sets IsCounted (set_axis i)
set_axis-IsCounted i w e k p =
    let fits = to_i32-IsI32 w k in
    let size = length-set e.axes i (to_i32 w) in
    let all = All-set IsI32 e.axes i (to_i32 w) p.event.axes_fit fits in ground arith

set_direction-IsCounted : (i : ℕ) → Sets IsCounted (set_direction i)
set_direction-IsCounted i w e k p =
    let fits = to_i32-IsI32 w k in
    let size = length-set e.directions i (to_i32 w) in
    let all = All-set IsI32 e.directions i (to_i32 w) p.event.directions_fit fits in ground arith

-- A condition that is replaced by one that fits.
update_condition-IsCounted :
    (i : ℕ) (f : ConditionSample → ConditionSample) (e : Event)
    → ((c : ConditionSample) → IsSample c → IsSample (f c))
    → IsCounted e
    → IsCounted (update_condition i f e)
update_condition-IsCounted i f e h p =
    let old = All-get_or IsSample e.conditions i zero_sample p.event.conditions_fit (omega arith) in
    let new = f (get_or e.conditions i zero_sample) in
    let size = length-set e.conditions i new in
    let all = All-set IsSample e.conditions i new p.event.conditions_fit (h _ old) in ground arith

untyped-IsCounted : (captured : ℕ → Bool) → Untyped captured IsCounted IsCounted
untyped-IsCounted captured = record {
  clear = λ e p. ground arith;
  set_di_flags = λ w e k p. ground arith;
  set_duration = λ c w e k p. ground arith;
  set_sample_period = λ c w e k p. ground arith;
  set_gain = λ c w e k p. ground arith;
  set_start_delay = λ c w e k p. ground arith;
  set_trigger_button = λ c w e k p. ground arith;
  set_trigger_repeat = λ c w e k p. ground arith;
  set_axis_count = λ c w e k p. ground arith;
  set_axes = λ c. set_axis-IsCounted;
  set_directions = λ c. set_direction-IsCounted;
  set_attack_level = λ c w e k p. ground arith;
  set_attack_time = λ c w e k p. ground arith;
  set_fade_level = λ c w e k p. ground arith;
  set_fade_time = λ c w e k p. ground arith;
}

abbrev Shown : Event → Type 0
Shown e = IsCounted e × (is_opaque e.effect_kind ≡ false)

payload-IsCounted : Payload Shown
payload-IsCounted = record {
  set_magnitude = λ w e k p. let fits = to_i32-IsI32 w k in ground arith;
  copy_magnitude = λ e p. ground arith;
  set_ramp_start = λ w e k p. let fits = to_i32-IsI32 w k in ground arith;
  set_ramp_end = λ w e k p. let fits = to_i32-IsI32 w k in ground arith;
  set_periodic_magnitude = λ w e k p. let fits = to_i32-IsI32 w k in ground arith;
  set_periodic_offset = λ w e k p. let fits = to_i32-IsI32 w k in ground arith;
  set_periodic_phase = λ w e k p. let fits = to_i32-IsI32 w k in ground arith;
  set_periodic_period = λ w e k p. let fits = to_i32-IsI32 w k in ground arith;
  set_condition_count = λ n e k p. ground arith;
  set_offset = λ i w e k p. (
    update_condition-IsCounted i (λ c. record c { offset = to_i32 w }) e
        (λ c s. let fits = to_i32-IsI32 w k in ground arith) p.0,
    p.1,
  );
  set_positive_coefficient = λ i w e k p. (
    update_condition-IsCounted i (λ c. record c { positive_coefficient = to_i32 w }) e
        (λ c s. let fits = to_i32-IsI32 w k in ground arith) p.0,
    p.1,
  );
  set_negative_coefficient = λ i w e k p. (
    update_condition-IsCounted i (λ c. record c { negative_coefficient = to_i32 w }) e
        (λ c s. let fits = to_i32-IsI32 w k in ground arith) p.0,
    p.1,
  );
  set_positive_saturation = λ i w e k p. (
    update_condition-IsCounted i (λ c. record c { positive_saturation = w }) e (λ c s. ground arith)
        p.0,
    p.1,
  );
  set_negative_saturation = λ i w e k p. (
    update_condition-IsCounted i (λ c. record c { negative_saturation = w }) e (λ c s. ground arith)
        p.0,
    p.1,
  );
  set_dead_band = λ i w e k p. (
    update_condition-IsCounted i (λ c. record c { dead_band = to_i32 w }) e
        (λ c s. let fits = to_i32-IsI32 w k in ground arith) p.0,
    p.1,
  );
}

typed-IsCounted : (captured : ℕ → Bool) → Typed captured IsCounted IsCounted
typed-IsCounted captured = record {
  clear = λ e p. ground arith;
  set_redacted = λ e p. ground arith;
  set_size = λ c w e k p. ground arith;
  payload = λ c. payload-IsCounted;
}

abbrev pub IsPointer : EffectPointer → Type 0
IsPointer absent = Unit {0}
IsPointer unreadable = Unit {0}
IsPointer (at effect) = IsEffect effect

fill_effect-IsCounted :
    (sizes : Sizes) (effect : Effect) (e : Event)
    → IsEffect effect
    → IsCounted e
    → Ends IsCounted IsCounted (fill_effect sizes effect e)
unfolding fill_effect
fill_effect-IsCounted sizes effect e v p = elim (Bool-cases (ltb effect.size sizes.dx5)) [
  | inl h ↦ rw h (ground arith)
  | inr h ↦ rw h (
      fill_readable-Ends (untyped-IsCounted (captures e)) (typed-IsCounted (captures e))
        (λ d q. (redact_opaque-Keeps (typed-IsCounted (captures e)) effect v).run d q) sizes effect
        v e p)
]

-- From an event whose fields fit their types and whose counts are at most 8, fill_effect_parameters
-- makes such an event, for every DIEFFECT: whatever its counts and sizes say, and however much
-- can be read behind its pointers.
pub fill_effect_parameters-IsCounted :
    (sizes : Sizes) (pointer : EffectPointer) (e : Event)
    → IsPointer pointer
    → IsCounted e
    → IsCounted (fill_effect_parameters sizes pointer e)
unfolding fill_effect_parameters
fill_effect_parameters-IsCounted sizes absent e v p = p
fill_effect_parameters-IsCounted sizes unreadable e v p =
    settle-Ends IsCounted (faulted e) ((untyped-IsCounted (captures e)).clear e p)
fill_effect_parameters-IsCounted sizes (at effect) e v p =
    settle-Ends IsCounted (fill_effect sizes effect e) (fill_effect-IsCounted sizes effect e v p)
