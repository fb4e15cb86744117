-- ===== src/Wire/Parameters/Closed.antt =====
-- What holds of an event through fill_effect_parameters, from what its assignments keep.
use ffb_interceptor_visualiz.Common.{
  ℕ, zero, suc, ◌+◌, ◌≤◌, ◌≡◌, refl, min, Bool, true, false, ◌&&◌, ◌||◌, [], ◌∷◌, Option, none,
  some, get_elem?, IsU32, All, arith,
}
use ffb_interceptor_visualiz.Wire.Model.{Event, max_axes}
use ffb_interceptor_visualiz.Wire.Effect.{
  Words, Effect, Sizes, Outcome, goes_on, returned, faulted, Fill, and_then, ◌>>◌, skip, assign,
  when, with_word, with_event, through, load, load_each,
}
use ffb_interceptor_visualiz.Wire.Parameters.{
  duration_flag, sample_period_flag, gain_flag, trigger_button_flag, trigger_repeat_flag, axes_flag,
  direction_flag, envelope_flag, start_delay_flag, fill_common, fill_start_delay, fill_trigger,
  set_axis, set_direction, fill_axes, fill_envelope, fill_untyped,
}

-- The event behind the __except block.
abbrev pub cleared : Event → Event
cleared e = record e { custom_redacted = true; axis_count = 0; condition_count = 0 }

-- `P` where the function goes on, and `R` of the event that it leaves with.
abbrev pub Ends : (Event → Type 0) → (Event → Type 0) → Outcome → Type 0
Ends P R (goes_on e) = P e
Ends P R (returned e) = R e
Ends P R (faulted e) = R (cleared e)

-- `f` keeps `P`, and gives `R` where the function leaves in it.
pub record Keeps (P R : Event → Type 0) (f : Fill) : Type 0 where
  pub run : (e : Event) → P e → Ends P R (f e)

pub then-Ends :
    (P Q R : Event → Type 0) (o : Outcome) (g : Fill)
    → Ends P R o
    → ((e : Event) → P e → Ends Q R (g e))
    → Ends Q R (and_then o g)
then-Ends P Q R (goes_on e) g h k = k e h
then-Ends P Q R (returned e) g h k = h
then-Ends P Q R (faulted e) g h k = h

-- The words of a DIEFFECT have 32 bits.
abbrev pub AreWords : Option Words → Type 0
AreWords none = Unit {0}
AreWords (some words) = All IsU32 words

abbrev pub IsWord? : Option ℕ → Type 0
IsWord? none = Unit {0}
IsWord? (some w) = IsU32 w

pub record IsEffect (effect : Effect) : Type 0 where
  pub flags_fit : IsU32 effect.flags
  pub duration_fits : IsU32 effect.duration
  pub sample_period_fits : IsU32 effect.sample_period
  pub gain_fits : IsU32 effect.gain
  pub trigger_button_fits : IsU32 effect.trigger_button
  pub trigger_repeat_interval_fits : IsU32 effect.trigger_repeat_interval
  pub type_specific_total_fits : IsU32 effect.type_specific_total
  pub start_delay_fits : IsWord? effect.start_delay
  pub axes_fit : AreWords effect.axes
  pub directions_fit : AreWords effect.directions
  pub envelope_fits : AreWords effect.envelope
  pub type_specific_fits : AreWords effect.type_specific

get_elem?-IsWord? : (words : Words) (i : ℕ) → All IsU32 words → IsWord? (get_elem? words i)
get_elem?-IsWord? [] i h = tt
get_elem?-IsWord? (w ∷ words) zero h = h.0
get_elem?-IsWord? (w ∷ words) (suc i) h = get_elem?-IsWord? words i h.1

-- An assignment of a word keeps `P`.
abbrev pub Sets : (Event → Type 0) → (ℕ → Event → Event) → Type 0
Sets P f = (w : ℕ) (e : Event) → IsU32 w → P e → P (f w e)

module _ {P R : Event → Type 0} where
  pub Keeps-skip : Keeps P R skip
  unfolding skip
  Keeps-skip = record { run = λ e p. p }

  pub Keeps-then : {f g : Fill} → Keeps P R f → Keeps P R g → Keeps P R (f >> g)
  unfolding ◌>>◌
  Keeps-then {g = g} h k = record { run = λ e p. then-Ends P P R _ g (h.run e p) k.run }

  pub Keeps-when : {b : Bool} {f : Fill} → (b ≡ true → Keeps P R f) → Keeps P R (when b f)
  unfolding when skip
  Keeps-when {b = true} h = h refl
  Keeps-when {b = false} h = record { run = λ e p. p }

  pub Keeps-assign : (f : Event → Event) → ((e : Event) → P e → P (f e)) → Keeps P R (assign f)
  unfolding assign
  Keeps-assign f h = record { run = h }

  pub Keeps-with_event :
      {f : Event → Fill} → ((e : Event) → P e → Keeps P R (f e)) → Keeps P R (with_event f)
  unfolding with_event
  Keeps-with_event h = record { run = λ e p. (h e p).run e p }

  pub Keeps-through :
      (words : Option Words) {f : Words → Fill}
      → AreWords words
      → ((w : Words) → All IsU32 w → Keeps P R (f w))
      → Keeps P R (through words f)
  unfolding through skip
  Keeps-through none a h = record { run = λ e p. p }
  Keeps-through (some w) a h = h w a

module _ {P R : Event → Type 0} (clear : (e : Event) → P e → R (cleared e)) where
  pub Keeps-with_word :
      (w : Option ℕ) {f : ℕ → Fill}
      → IsWord? w
      → ((v : ℕ) → IsU32 v → Keeps P R (f v))
      → Keeps P R (with_word w f)
  unfolding with_word
  Keeps-with_word none a h = record { run = clear }
  Keeps-with_word (some v) a h = h v a

  pub Keeps-load :
      (words : Words) (i : ℕ) {f : ℕ → Event → Event}
      → All IsU32 words
      → Sets P f
      → Keeps P R (load words i f)
  unfolding load
  Keeps-load words i {f} a h =
      Keeps-with_word (get_elem? words i) (get_elem?-IsWord? words i a)
        (λ w k. Keeps-assign (f w) (λ e p. h w e k p))

  pub Keeps-load_each :
      {f : ℕ → ℕ → Event → Event} (words : Words)
      → All IsU32 words
      → ((i : ℕ) → Sets P (f i))
      → (n i : ℕ) → Keeps P R (load_each f words n i)
  unfolding load_each
  Keeps-load_each words a h zero i = Keeps-skip
  Keeps-load_each words a h (suc n) i =
      Keeps-then (Keeps-load words i a (h i)) (Keeps-load_each words a h n (i + 1))

-- The assignments that the function can make before the type-specific ones, each where its flag
-- is captured.
pub record Untyped (captured : ℕ → Bool) (P R : Event → Type 0) : Type 0 where
  pub clear : (e : Event) → P e → R (cleared e)
  pub set_di_flags : Sets P (λ w e. record e { di_flags = w })
  pub set_duration : captured duration_flag ≡ true → Sets P (λ w e. record e { duration = w })
  pub set_sample_period :
      captured sample_period_flag ≡ true → Sets P (λ w e. record e { sample_period = w })
  pub set_gain : captured gain_flag ≡ true → Sets P (λ w e. record e { gain = w })
  pub set_start_delay :
      captured start_delay_flag ≡ true → Sets P (λ w e. record e { start_delay = w })
  pub set_trigger_button :
      captured trigger_button_flag ≡ true → Sets P (λ w e. record e { trigger_button = w })
  pub set_trigger_repeat :
      captured trigger_repeat_flag ≡ true → Sets P (λ w e. record e { trigger_repeat = w })
  pub set_axis_count :
      (captured axes_flag || captured direction_flag) ≡ true
      → (w : ℕ) (e : Event) → w ≤ max_axes
      → P e
      → P (record e { axis_count = w })
  pub set_axes : captured axes_flag ≡ true → (i : ℕ) → Sets P (set_axis i)
  pub set_directions : captured direction_flag ≡ true → (i : ℕ) → Sets P (set_direction i)
  pub set_attack_level :
      captured envelope_flag ≡ true → Sets P (λ w e. record e { envelope_attack_level = w })
  pub set_attack_time :
      captured envelope_flag ≡ true → Sets P (λ w e. record e { envelope_attack_time = w })
  pub set_fade_level :
      captured envelope_flag ≡ true → Sets P (λ w e. record e { envelope_fade_level = w })
  pub set_fade_time :
      captured envelope_flag ≡ true → Sets P (λ w e. record e { envelope_fade_time = w })

and_left : (a b : Bool) → (a && b) ≡ true → a ≡ true
and_left a b h = ground arith

module _ {captured : ℕ → Bool} {P R : Event → Type 0} (u : Untyped captured P R) (effect : Effect)
    (v : IsEffect effect) where
  fill_common-Keeps : Keeps P R (fill_common captured effect)
  unfolding fill_common
  fill_common-Keeps = Keeps-then (Keeps-assign _ (λ e. u.set_di_flags effect.flags e v.flags_fit)) (
      Keeps-then
        (Keeps-when λ c. Keeps-assign _ λ e. u.set_duration c effect.duration e v.duration_fits)
        (Keeps-then
          (Keeps-when λ c.
            Keeps-assign _ λ e. u.set_sample_period c effect.sample_period e v.sample_period_fits)
          (Keeps-when λ c. Keeps-assign _ λ e. u.set_gain c effect.gain e v.gain_fits)))

  fill_start_delay-Keeps : (sizes : Sizes) → Keeps P R (fill_start_delay sizes captured effect)
  unfolding fill_start_delay
  fill_start_delay-Keeps sizes = Keeps-when λ c.
      Keeps-with_word u.clear effect.start_delay v.start_delay_fits
        λ w k. Keeps-assign _ λ e. u.set_start_delay (and_left _ _ c) w e k

  fill_trigger-Keeps : Keeps P R (fill_trigger captured effect)
  unfolding fill_trigger
  fill_trigger-Keeps =
      Keeps-then
        (Keeps-when λ c.
          Keeps-assign _ λ e. u.set_trigger_button c effect.trigger_button e v.trigger_button_fits)
        (Keeps-when λ c. Keeps-assign _ λ e.
          u.set_trigger_repeat c effect.trigger_repeat_interval e v.trigger_repeat_interval_fits)

  fill_axes-Keeps : Keeps P R (fill_axes captured effect)
  unfolding fill_axes
  fill_axes-Keeps =
      Keeps-then
        (Keeps-when λ c.
          Keeps-assign _ λ e. u.set_axis_count c (min effect.axis_total max_axes) e (omega arith))
        (Keeps-then
          (Keeps-when λ c. Keeps-through effect.axes v.axes_fit λ words a.
            Keeps-with_event λ e p. Keeps-load_each u.clear words a (u.set_axes c) e.axis_count 0)
          (Keeps-when λ c. Keeps-through effect.directions v.directions_fit λ words a.
            Keeps-with_event
              λ e p. Keeps-load_each u.clear words a (u.set_directions c) e.axis_count 0))

  fill_envelope-Keeps : Keeps P R (fill_envelope captured effect)
  unfolding fill_envelope
  fill_envelope-Keeps = Keeps-when λ c. Keeps-through effect.envelope v.envelope_fits λ words a.
      Keeps-with_word u.clear (get_elem? words 0) (get_elem?-IsWord? words 0 a) λ size k.
        Keeps-when λ fits. Keeps-then (Keeps-load u.clear words 1 a (u.set_attack_level c)) (
          Keeps-then (Keeps-load u.clear words 2 a (u.set_attack_time c)) (
            Keeps-then (Keeps-load u.clear words 3 a (u.set_fade_level c))
              (Keeps-load u.clear words 4 a (u.set_fade_time c))))

  pub fill_untyped-Keeps : (sizes : Sizes) → Keeps P R (fill_untyped sizes captured effect)
  unfolding fill_untyped
  fill_untyped-Keeps sizes = Keeps-then fill_common-Keeps (
      Keeps-then (fill_start_delay-Keeps sizes)
        (Keeps-then fill_trigger-Keeps (Keeps-then fill_axes-Keeps fill_envelope-Keeps)))
