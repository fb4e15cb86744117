-- ===== src/Wire/Groups.antt =====
-- The reader takes back what serialize_event wrote, group by group.
use ffb_interceptor_visualiz.Common.{
  ℕ, zero, suc, ◌≤◌, ◌≡◌, refl, Bool, true, false, Option, some, List, [], ◌∷◌, arith, ◌==◌,
  if◌then◌else◌, length, length-take, get_elem?, not, IsU32, IsI32, subst, take, min,
}
use ffb_interceptor_visualiz.Wire.Model.{
  Event, IsEvent, IsSample, EffectKind, kind_code, constant, ramp, square, sine, triangle,
  sawtooth_up, sawtooth_down, spring, damper, inertia, friction, custom,
}
use ffb_interceptor_visualiz.Wire.Writer.{
  Writer, put_u16, put_string, put_condition, put_i32, strnlen,
}
use ffb_interceptor_visualiz.Wire.Frame.{
  put_identity, put_parameters, put_forces, put_arrays, put_strings,
}
use ffb_interceptor_visualiz.Wire.Reader.{
  Reader, ◌>>=◌, require, lift, get_i32, get_condition, get_string, get_kind, kinds, read_identity,
  read_parameters, read_forces, read_arrays, read_strings,
}
use ffb_interceptor_visualiz.Wire.Agree.{
  Agree, Agree-bind, Agree-map, Agree-u16, Agree-u32, Agree-i32, Agree-exact, Agree-guid,
  Agree-fixed, Agree-each, put_i32-appends, put_condition-appends, Agree-condition,
}

module _ {A : Type 0} where
  -- A test that passes.
  pub Agree-require :
      {w : Writer} {r : Reader A} {a : A} {b : Bool}
      → b ≡ true
      → Agree w r a
      → Agree w (require b >>= λ _. r) a
  Agree-require h g = record { appends = g.appends; reads = λ rest. rw h (g.reads rest) }

module _ {A B : Type 0} where
  -- A code that stands for a value.
  pub Agree-lift :
      {w : Writer} {r : Reader A} {a : A} {b : B} (f : A → Option B)
      → f a ≡ some b
      → Agree w r a
      → Agree w (r >>= λ x. lift (f x)) b
  Agree-lift f h g = record { appends = g.appends; reads = λ rest. rw (g.reads rest, h) }

-- The text on the wire: up to its NUL, and 63 bytes at most.
abbrev pub c_string : List ℕ → List ℕ
c_string text = take (min (strnlen text 63) 63) text

strnlen-le : (text : List ℕ) (bound : ℕ) → strnlen text bound ≤ length text
unfolding strnlen
strnlen-le [] bound = omega arith
strnlen-le (c ∷ cs) zero = omega arith
strnlen-le (c ∷ cs) (suc bound) = ground (arith, strnlen-le cs bound)

pub length-c_string : (text : List ℕ) → length (c_string text) ≡ min (strnlen text 63) 63
length-c_string text =
    omega (arith, length-take (min (strnlen text 63) 63) text, strnlen-le text 63)

string-Agree : (text : List ℕ) → Agree (put_string text) get_string (c_string text)
unfolding put_string get_string
string-Agree text =
    Agree-bind _ (Agree-u16 (min (strnlen text 63) 63) (omega arith))
      (Agree-require (ground arith) (Agree-exact _ (c_string text) (length-c_string text)))

kind_code-le : (k : EffectKind) → kind_code k ≤ 12
unfolding kind_code
kind_code-le k = ground arith

kind_of_code : (k : EffectKind) → get_elem? kinds (kind_code k) ≡ some k
unfolding kind_code
kind_of_code EffectKind.unknown = refl
kind_of_code constant = refl
kind_of_code ramp = refl
kind_of_code square = refl
kind_of_code sine = refl
kind_of_code triangle = refl
kind_of_code sawtooth_up = refl
kind_of_code sawtooth_down = refl
kind_of_code spring = refl
kind_of_code damper = refl
kind_of_code inertia = refl
kind_of_code friction = refl
kind_of_code custom = refl

kind-Agree : (k : EffectKind) → Agree (put_u16 (kind_code k)) get_kind k
unfolding get_kind
kind-Agree k =
    Agree-lift _ (kind_of_code k) (Agree-u16 (kind_code k) (omega (arith, kind_code-le k)))

redacted_bit : (b : Bool) → not ((if b then 1 else 0) == 0) ≡ b
redacted_bit true = refl
redacted_bit false = refl

redacted_bit-IsU32 : (b : Bool) → IsU32 (if b then 1 else 0)
redacted_bit-IsU32 b = ground arith

module _ (e : Event) (v : IsEvent e) where
  pub identity-Agree :
      (d : Event)
      → Agree (put_identity e) (read_identity d) (record d {
        process_id = e.process_id;
        qpc_frequency = e.qpc_frequency;
        device_id = e.device_id;
        effect_id = e.effect_id;
        effect_guid = e.effect_guid;
        hresult = e.hresult;
        di_flags = e.di_flags;
      })
  unfolding put_identity read_identity
  identity-Agree d = Agree-bind _ (Agree-u32 e.process_id v.process_id_fits) (
      Agree-bind _ (Agree-u32 e.qpc_frequency v.qpc_frequency_fits) (
        Agree-bind _ (Agree-u32 e.device_id v.device_id_fits) (
          Agree-bind _ (Agree-u32 e.effect_id v.effect_id_fits) (
            Agree-bind _ (Agree-guid e.effect_guid v.effect_guid_size) (
              Agree-bind _ (Agree-i32 e.hresult v.hresult_fits)
                (Agree-map _ (Agree-u32 e.di_flags v.di_flags_fits)))))))

  pub parameters-Agree :
      (d : Event)
      → Agree (put_parameters e) (read_parameters d) (record d {
        duration = e.duration;
        sample_period = e.sample_period;
        gain = e.gain;
        start_delay = e.start_delay;
        trigger_button = e.trigger_button;
        trigger_repeat = e.trigger_repeat;
        iterations = e.iterations;
        envelope_attack_level = e.envelope_attack_level;
        envelope_attack_time = e.envelope_attack_time;
        envelope_fade_level = e.envelope_fade_level;
        envelope_fade_time = e.envelope_fade_time;
        property_id = e.property_id;
        dropped = e.dropped;
      })
  unfolding put_parameters read_parameters
  parameters-Agree d = Agree-bind _ (Agree-u32 e.duration v.duration_fits) (
      Agree-bind _ (Agree-u32 e.sample_period v.sample_period_fits) (
        Agree-bind _ (Agree-u32 e.gain v.gain_fits) (
          Agree-bind _ (Agree-u32 e.start_delay v.start_delay_fits) (
            Agree-bind _ (Agree-u32 e.trigger_button v.trigger_button_fits) (
              Agree-bind _ (Agree-u32 e.trigger_repeat v.trigger_repeat_fits) (
                Agree-bind _ (Agree-u32 e.iterations v.iterations_fits) (
                  Agree-bind _ (Agree-u32 e.envelope_attack_level v.envelope_attack_level_fits) (
                    Agree-bind _ (Agree-u32 e.envelope_attack_time v.envelope_attack_time_fits) (
                      Agree-bind _ (Agree-u32 e.envelope_fade_level v.envelope_fade_level_fits) (
                        Agree-bind _ (Agree-u32 e.envelope_fade_time v.envelope_fade_time_fits) (
                          Agree-bind _ (Agree-u32 e.property_id v.property_id_fits)
                            (Agree-map _ (Agree-u32 e.dropped v.dropped_fits)))))))))))))

  pub forces-Agree :
      (d : Event)
      → Agree (put_forces e) (read_forces d) (record d {
        magnitude = e.magnitude;
        ramp_start = e.ramp_start;
        ramp_end = e.ramp_end;
        periodic_magnitude = e.periodic_magnitude;
        periodic_offset = e.periodic_offset;
        periodic_phase = e.periodic_phase;
        periodic_period = e.periodic_period;
      })
  unfolding put_forces read_forces
  forces-Agree d = Agree-bind _ (Agree-i32 e.magnitude v.magnitude_fits) (
      Agree-bind _ (Agree-i32 e.ramp_start v.ramp_start_fits) (
        Agree-bind _ (Agree-i32 e.ramp_end v.ramp_end_fits) (
          Agree-bind _ (Agree-i32 e.periodic_magnitude v.periodic_magnitude_fits) (
            Agree-bind _ (Agree-i32 e.periodic_offset v.periodic_offset_fits) (
              Agree-bind _ (Agree-i32 e.periodic_phase v.periodic_phase_fits)
                (Agree-map _ (Agree-i32 e.periodic_period v.periodic_period_fits)))))))

  pub arrays-Agree :
      (d : Event)
      → Agree (put_arrays e) (read_arrays d) (record d {
        axis_count = e.axis_count;
        axes = e.axes;
        directions = e.directions;
        condition_count = e.condition_count;
        conditions = e.conditions;
        type_specific_size = e.type_specific_size;
        custom_redacted = e.custom_redacted;
      })
  unfolding put_arrays read_arrays
  arrays-Agree d =
      subst
        (λ (b : Bool). Agree (put_arrays e) (read_arrays d) (record d {
          axis_count = e.axis_count;
          axes = e.axes;
          directions = e.directions;
          condition_count = e.condition_count;
          conditions = e.conditions;
          type_specific_size = e.type_specific_size;
          custom_redacted = b;
        }))
        (redacted_bit e.custom_redacted)
        (Agree-bind _ (Agree-u32 e.axis_count v.axis_count_fits) (
          Agree-bind _
            (Agree-each put_i32 get_i32 IsI32 8 e.axes put_i32-appends Agree-i32 v.axes_size
              v.axes_fit)
            (Agree-bind _
              (Agree-each put_i32 get_i32 IsI32 8 e.directions put_i32-appends Agree-i32
                v.directions_size v.directions_fit)
              (Agree-bind _ (Agree-u32 e.condition_count v.condition_count_fits) (
                Agree-bind _
                  (Agree-each put_condition get_condition IsSample 8 e.conditions
                    put_condition-appends Agree-condition v.conditions_size v.conditions_fit)
                  (Agree-bind _ (Agree-u32 e.type_specific_size v.type_specific_size_fits) (
                    Agree-map _ (
                      Agree-u32 (if e.custom_redacted then 1 else 0)
                        (redacted_bit-IsU32 e.custom_redacted)))))))))

  pub strings-Agree :
      (d : Event)
      → Agree (put_strings e) (read_strings d) (record d {
        build_version = e.build_version;
        session_id = e.session_id;
        text = c_string e.text;
        effect_kind = e.effect_kind;
        command = e.command;
      })
  unfolding put_strings read_strings
  strings-Agree d = Agree-bind _ (Agree-fixed 32 e.build_version v.build_version_size) (
      Agree-bind _ (Agree-fixed 32 e.session_id v.session_id_size) (
        Agree-bind _ (string-Agree e.text) (
          Agree-bind _ (kind-Agree e.effect_kind)
            (Agree-map _ (Agree-u16 e.command v.command_fits)))))
