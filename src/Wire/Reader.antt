-- ===== src/Wire/Reader.antt =====
-- A reader of protocol-v1 frames, as docs/protocol-v1.md lays them out: the description against
-- which serialize_event is checked. It takes the fixed arrays whole and the text at its own length.
use ffb_interceptor_visualiz.Common.{
  ℕ, zero, suc, ◌+◌, ◌*◌, ◌/◌, ◌%◌, ◌^◌, Bool, true, false, ◌&&◌, not, Option, none, some, List, [],
  ◌∷◌, ltb, ◌==◌, if◌then◌else◌, length, get_elem?, ℤ, to_i32,
}
use ffb_interceptor_visualiz.Wire.Model.{
  Event, blank, ConditionSample, MessageType, hello, device_created, device_property_changed,
  effect_created, effect_parameters_changed, effect_command, device_command, drop_notice,
  EffectKind, constant, ramp, square, sine, triangle, sawtooth_up, sawtooth_down, spring, damper,
  inertia, friction, custom, EffectParameterPresence, absent, present,
}

abbrev pub Reader : Type 0 → Type 0
Reader A = List ℕ → Option (A × List ℕ)

abbrev pub continue_with :
    {A B : Type 0} → Option (A × List ℕ) → (A → Reader B) → Option (B × List ℕ)
continue_with none f = none
continue_with (some (a, rest)) f = f a rest

infixl 5 ◌>>=◌ ◌>>◌
abbrev pub ◌>>=◌ : {A B : Type 0} → Reader A → (A → Reader B) → Reader B
◌>>=◌ m f bytes = continue_with (m bytes) f

abbrev pub ◌>>◌ : {B : Type 0} → Reader (Unit {0}) → Reader B → Reader B
m >> k = m >>= λ _. k

abbrev pub done : {A : Type 0} → A → Reader A
done a bytes = some (a, bytes)

abbrev pub fail : {A : Type 0} → Reader A
fail bytes = none

abbrev pub require : Bool → Reader (Unit {0})
require true bytes = some (tt, bytes)
require false bytes = none

abbrev pub lift : {A : Type 0} → Option A → Reader A
lift none bytes = none
lift (some a) bytes = some (a, bytes)

unfoldable pub get_u16 : Reader ℕ
get_u16 (a ∷ b ∷ rest) = some (a + b * 2 ^ 8, rest)
get_u16 _ = none

unfoldable pub get_u32 : Reader ℕ
unfolding get_u16
get_u32 = do low ← get_u16; high ← get_u16; done (low + high * 2 ^ 16)

unfoldable pub get_u64 : Reader ℕ
unfolding get_u32
get_u64 = do low ← get_u32; high ← get_u32; done (low + high * 2 ^ 32)

unfoldable pub get_i32 : Reader ℤ
get_i32 = do word ← get_u32; done (to_i32 word)

-- The next n bytes.
unfoldable pub get_exact : ℕ → Reader (List ℕ)
get_exact zero bytes = some ([], bytes)
get_exact (suc n) [] = none
get_exact (suc n) (b ∷ bytes) = continue_with (get_exact n bytes) (λ bs. done (b ∷ bs))

-- n values, one after the other.
unfoldable pub get_each : {A : Type 0} → Reader A → ℕ → Reader (List A)
get_each get zero bytes = some ([], bytes)
get_each get (suc n) bytes =
    continue_with (get bytes)
      (λ a rest. continue_with (get_each get n rest) (λ as'. done (a ∷ as')))

unfoldable pub get_condition : Reader ConditionSample
get_condition = do
  offset ← get_i32
  positive_coefficient ← get_i32
  negative_coefficient ← get_i32
  positive_saturation ← get_u32
  negative_saturation ← get_u32
  dead_band ← get_i32
  done (record {
    offset = offset;
    positive_coefficient = positive_coefficient;
    negative_coefficient = negative_coefficient;
    positive_saturation = positive_saturation;
    negative_saturation = negative_saturation;
    dead_band = dead_band;
  })

-- A length of at most 63, and as many bytes.
unfoldable pub get_string : Reader (List ℕ)
get_string = do len ← get_u16; require (ltb len 64); get_exact len

unfoldable pub type_of : ℕ → Option MessageType
type_of code =
    if code == 1
    then some hello
    else if code == 2
    then some device_created
    else if code == 3
    then some device_property_changed
    else if code == 4
    then some effect_created
    else if code == 5
    then some effect_parameters_changed
    else if code == 6
    then some effect_command
    else if code == 7
    then some device_command
    else if code == 8
    then some drop_notice
    else none

unfoldable pub get_type : Reader MessageType
get_type = do code ← get_u16; lift (type_of code)

abbrev pub kinds : List EffectKind
kinds =
    EffectKind.unknown ∷ constant ∷ ramp ∷ square ∷ sine ∷ triangle ∷ sawtooth_up ∷ sawtooth_down
    ∷ spring ∷ damper ∷ inertia ∷ friction ∷ custom ∷ []

unfoldable pub get_kind : Reader EffectKind
get_kind = do code ← get_u16; lift (get_elem? kinds code)

-- What the two header bits of an EffectCreated frame say.
unfoldable pub presence_of : MessageType → ℕ → EffectParameterPresence
presence_of effect_created flags =
    if flags / 2 ^ 27 % 2 == 1
    then absent
    else if flags / 2 ^ 28 % 2 == 1
    then present
    else EffectParameterPresence.unknown
presence_of other flags = EffectParameterPresence.unknown

-- Who sent the event, and the call's result.
unfoldable pub read_identity : Event → Reader Event
read_identity event = do
  process_id ← get_u32
  qpc_frequency ← get_u32
  device_id ← get_u32
  effect_id ← get_u32
  effect_guid ← get_exact 16
  hresult ← get_i32
  di_flags ← get_u32
  done (record event {
    process_id = process_id;
    qpc_frequency = qpc_frequency;
    device_id = device_id;
    effect_id = effect_id;
    effect_guid = effect_guid;
    hresult = hresult;
    di_flags = di_flags;
  })

-- The common parameters.
unfoldable pub read_parameters : Event → Reader Event
read_parameters event = do
  duration ← get_u32
  sample_period ← get_u32
  gain ← get_u32
  start_delay ← get_u32
  trigger_button ← get_u32
  trigger_repeat ← get_u32
  iterations ← get_u32
  envelope_attack_level ← get_u32
  envelope_attack_time ← get_u32
  envelope_fade_level ← get_u32
  envelope_fade_time ← get_u32
  property_id ← get_u32
  dropped ← get_u32
  done (record event {
    duration = duration;
    sample_period = sample_period;
    gain = gain;
    start_delay = start_delay;
    trigger_button = trigger_button;
    trigger_repeat = trigger_repeat;
    iterations = iterations;
    envelope_attack_level = envelope_attack_level;
    envelope_attack_time = envelope_attack_time;
    envelope_fade_level = envelope_fade_level;
    envelope_fade_time = envelope_fade_time;
    property_id = property_id;
    dropped = dropped;
  })

-- The parameters of the effect kinds.
unfoldable pub read_forces : Event → Reader Event
read_forces event = do
  magnitude ← get_i32
  ramp_start ← get_i32
  ramp_end ← get_i32
  periodic_magnitude ← get_i32
  periodic_offset ← get_i32
  periodic_phase ← get_i32
  periodic_period ← get_i32
  done (record event {
    magnitude = magnitude;
    ramp_start = ramp_start;
    ramp_end = ramp_end;
    periodic_magnitude = periodic_magnitude;
    periodic_offset = periodic_offset;
    periodic_phase = periodic_phase;
    periodic_period = periodic_period;
  })

-- The arrays with their counts.
unfoldable pub read_arrays : Event → Reader Event
read_arrays event = do
  axis_count ← get_u32
  axes ← get_each get_i32 8
  directions ← get_each get_i32 8
  condition_count ← get_u32
  conditions ← get_each get_condition 8
  type_specific_size ← get_u32
  redacted ← get_u32
  done (record event {
    axis_count = axis_count;
    axes = axes;
    directions = directions;
    condition_count = condition_count;
    conditions = conditions;
    type_specific_size = type_specific_size;
    custom_redacted = not (redacted == 0);
  })

-- The strings, the effect's kind and the command.
unfoldable pub read_strings : Event → Reader Event
read_strings event = do
  build_version ← get_exact 32
  session_id ← get_exact 32
  text ← get_string
  effect_kind ← get_kind
  command ← get_u16
  done (record event {
    build_version = build_version;
    session_id = session_id;
    text = text;
    effect_kind = effect_kind;
    command = command;
  })

-- FFB1
abbrev pub is_magic : List ℕ → Bool
is_magic (a ∷ b ∷ c ∷ d ∷ []) = a == 0x46 && b == 0x46 && c == 0x42 && d == 0x31
is_magic other = false

-- The header of a frame of `size` bytes.
unfoldable pub read_header : ℕ → Event → Reader Event
read_header size event = do
  f ← get_exact 4
  require (is_magic f)
  version ← get_u16
  require (version == 1)
  type ← get_type
  frame_size ← get_u32
  require (frame_size == size)
  flags ← get_u32
  sequence ← get_u64
  qpc_ticks ← get_u64
  done (record event {
    type = type;
    flags = flags;
    sequence = sequence;
    qpc_ticks = qpc_ticks;
    effect_parameter_presence = presence_of type flags;
  })

-- A frame of `size` bytes.
abbrev pub read_frame : ℕ → Reader Event
read_frame size = do
  event ← read_header size blank
  event ← read_identity event
  event ← read_parameters event
  event ← read_forces event
  event ← read_arrays event
  read_strings event

-- Nothing may stand behind the frame.
abbrev pub at_end : Option (Event × List ℕ) → Option Event
at_end (some (event, [])) = some event
at_end other = none

-- The whole frame.
unfoldable pub decode : List ℕ → Option Event
decode frame = at_end (read_frame (length frame) frame)
