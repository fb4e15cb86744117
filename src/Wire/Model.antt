-- ===== src/Wire/Model.antt =====
-- The event of src/telemetry_protocol.h. An enum is a data type with a function to its wire code;
-- a std::int32_t or HRESULT is a ℤ, an unsigned field a ℕ, a GUID its sixteen bytes in memory
-- order, and a fixed array a list. `IsEvent` states the ranges that the C++ types give.
use ffb_interceptor_visualiz.Common.{
  ℕ, ◌≡◌, Bool, false, List, ℤ, pos, IsI32, IsU16, IsU32, IsU64, All, length, replicate,
}

abbrev pub protocol_version : ℕ
protocol_version = 1

abbrev pub max_frame_size : ℕ
max_frame_size = 65536

abbrev pub max_axes : ℕ
max_axes = 8

abbrev pub parameters_absent_flag : ℕ
parameters_absent_flag = 0x08000000

abbrev pub parameters_present_flag : ℕ
parameters_present_flag = 0x10000000

-- ~kEffectCreatedParametersPresenceMask on 32 bits.
abbrev pub presence_mask_complement : ℕ
presence_mask_complement = 0xe7ffffff

pub data MessageType : Type 0 where
  hello device_created device_property_changed effect_created : MessageType
  effect_parameters_changed effect_command device_command drop_notice : MessageType

pub data EffectKind : Type 0 where
  unknown constant ramp square sine triangle sawtooth_up sawtooth_down : EffectKind
  spring damper inertia friction custom : EffectKind

pub data EffectCommand : Type 0 where
  download start stop unload release : EffectCommand

pub data EffectParameterPresence : Type 0 where
  unknown absent present : EffectParameterPresence

unfoldable pub message_code : MessageType → ℕ
message_code hello = 1
message_code device_created = 2
message_code device_property_changed = 3
message_code effect_created = 4
message_code effect_parameters_changed = 5
message_code effect_command = 6
message_code device_command = 7
message_code drop_notice = 8

unfoldable pub kind_code : EffectKind → ℕ
kind_code EffectKind.unknown = 0
kind_code constant = 1
kind_code ramp = 2
kind_code square = 3
kind_code sine = 4
kind_code triangle = 5
kind_code sawtooth_up = 6
kind_code sawtooth_down = 7
kind_code spring = 8
kind_code damper = 9
kind_code inertia = 10
kind_code friction = 11
kind_code custom = 12

unfoldable pub command_code : EffectCommand → ℕ
command_code download = 1
command_code start = 2
command_code stop = 3
command_code unload = 4
command_code release = 5

pub record ConditionSample : Type 0 where
  pub offset : ℤ
  pub positive_coefficient : ℤ
  pub negative_coefficient : ℤ
  pub positive_saturation : ℕ
  pub negative_saturation : ℕ
  pub dead_band : ℤ

pub record Event : Type 0 where
  pub type : MessageType
  pub effect_kind : EffectKind
  pub effect_parameter_presence : EffectParameterPresence
  pub command : ℕ
  pub flags : ℕ
  pub sequence : ℕ
  pub qpc_ticks : ℕ
  pub process_id : ℕ
  pub device_id : ℕ
  pub effect_id : ℕ
  pub effect_guid : List ℕ
  pub hresult : ℤ
  pub di_flags : ℕ
  pub duration : ℕ
  pub sample_period : ℕ
  pub gain : ℕ
  pub start_delay : ℕ
  pub trigger_button : ℕ
  pub trigger_repeat : ℕ
  pub iterations : ℕ
  pub envelope_attack_level : ℕ
  pub envelope_attack_time : ℕ
  pub envelope_fade_level : ℕ
  pub envelope_fade_time : ℕ
  pub qpc_frequency : ℕ
  pub property_id : ℕ
  pub dropped : ℕ
  pub magnitude : ℤ
  pub ramp_start : ℤ
  pub ramp_end : ℤ
  pub periodic_magnitude : ℤ
  pub periodic_offset : ℤ
  pub periodic_phase : ℤ
  pub periodic_period : ℤ
  pub axis_count : ℕ
  pub axes : List ℤ
  pub directions : List ℤ
  pub condition_count : ℕ
  pub conditions : List ConditionSample
  pub type_specific_size : ℕ
  pub custom_redacted : Bool
  pub build_version : List ℕ
  pub session_id : List ℕ
  pub text : List ℕ

abbrev pub zero_sample : ConditionSample
zero_sample = record {
  offset = pos 0;
  positive_coefficient = pos 0;
  negative_coefficient = pos 0;
  positive_saturation = 0;
  negative_saturation = 0;
  dead_band = pos 0;
}

-- Event{}
abbrev pub blank : Event
blank = record {
  type = drop_notice;
  effect_kind = EffectKind.unknown;
  effect_parameter_presence = EffectParameterPresence.unknown;
  command = 0;
  flags = 0;
  sequence = 0;
  qpc_ticks = 0;
  process_id = 0;
  device_id = 0;
  effect_id = 0;
  effect_guid = replicate 16 0;
  hresult = pos 0;
  di_flags = 0;
  duration = 0;
  sample_period = 0;
  gain = 0;
  start_delay = 0;
  trigger_button = 0;
  trigger_repeat = 0;
  iterations = 0;
  envelope_attack_level = 0;
  envelope_attack_time = 0;
  envelope_fade_level = 0;
  envelope_fade_time = 0;
  qpc_frequency = 0;
  property_id = 0;
  dropped = 0;
  magnitude = pos 0;
  ramp_start = pos 0;
  ramp_end = pos 0;
  periodic_magnitude = pos 0;
  periodic_offset = pos 0;
  periodic_phase = pos 0;
  periodic_period = pos 0;
  axis_count = 0;
  axes = replicate 8 (pos 0);
  directions = replicate 8 (pos 0);
  condition_count = 0;
  conditions = replicate 8 zero_sample;
  type_specific_size = 0;
  custom_redacted = false;
  build_version = replicate 32 0;
  session_id = replicate 32 0;
  text = replicate 64 0;
}

pub record IsSample (s : ConditionSample) : Type 0 where
  pub offset_fits : IsI32 s.offset
  pub positive_coefficient_fits : IsI32 s.positive_coefficient
  pub negative_coefficient_fits : IsI32 s.negative_coefficient
  pub positive_saturation_fits : IsU32 s.positive_saturation
  pub negative_saturation_fits : IsU32 s.negative_saturation
  pub dead_band_fits : IsI32 s.dead_band

-- What the C++ types of the fields give: the ranges of the integers and the sizes of the arrays.
pub record IsEvent (e : Event) : Type 0 where
  pub command_fits : IsU16 e.command
  pub sequence_fits : IsU64 e.sequence
  pub qpc_ticks_fits : IsU64 e.qpc_ticks
  pub effect_guid_size : length e.effect_guid ≡ 16
  pub axes_size : length e.axes ≡ 8
  pub axes_fit : All IsI32 e.axes
  pub directions_size : length e.directions ≡ 8
  pub directions_fit : All IsI32 e.directions
  pub conditions_size : length e.conditions ≡ 8
  pub conditions_fit : All IsSample e.conditions
  pub build_version_size : length e.build_version ≡ 32
  pub session_id_size : length e.session_id ≡ 32
  pub process_id_fits : IsU32 e.process_id
  pub device_id_fits : IsU32 e.device_id
  pub effect_id_fits : IsU32 e.effect_id
  pub di_flags_fits : IsU32 e.di_flags
  pub duration_fits : IsU32 e.duration
  pub sample_period_fits : IsU32 e.sample_period
  pub gain_fits : IsU32 e.gain
  pub start_delay_fits : IsU32 e.start_delay
  pub trigger_button_fits : IsU32 e.trigger_button
  pub trigger_repeat_fits : IsU32 e.trigger_repeat
  pub iterations_fits : IsU32 e.iterations
  pub envelope_attack_level_fits : IsU32 e.envelope_attack_level
  pub envelope_attack_time_fits : IsU32 e.envelope_attack_time
  pub envelope_fade_level_fits : IsU32 e.envelope_fade_level
  pub envelope_fade_time_fits : IsU32 e.envelope_fade_time
  pub qpc_frequency_fits : IsU32 e.qpc_frequency
  pub property_id_fits : IsU32 e.property_id
  pub dropped_fits : IsU32 e.dropped
  pub axis_count_fits : IsU32 e.axis_count
  pub condition_count_fits : IsU32 e.condition_count
  pub type_specific_size_fits : IsU32 e.type_specific_size
  pub flags_fits : IsU32 e.flags
  pub hresult_fits : IsI32 e.hresult
  pub magnitude_fits : IsI32 e.magnitude
  pub ramp_start_fits : IsI32 e.ramp_start
  pub ramp_end_fits : IsI32 e.ramp_end
  pub periodic_magnitude_fits : IsI32 e.periodic_magnitude
  pub periodic_offset_fits : IsI32 e.periodic_offset
  pub periodic_phase_fits : IsI32 e.periodic_phase
  pub periodic_period_fits : IsI32 e.periodic_period
