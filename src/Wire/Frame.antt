-- ===== src/Wire/Frame.antt =====
-- serialize_event and valid_frame of src/telemetry_protocol.cpp. The payload is written in the
-- source's order, a function for each run of fields.
use ffb_interceptor_visualiz.Common.{
  ℕ, ◌+◌, ◌*◌, ◌%◌, ◌^◌, Bool, true, false, ◌&&◌, ◌||◌, not, List, [], ◌∷◌, ltb, ◌==◌,
  if◌then◌else◌, length, get_or, take, bit_and, bit_or,
}
use ffb_interceptor_visualiz.Wire.Model.{
  Event, MessageType, effect_created, EffectParameterPresence, absent, present, message_code,
  kind_code, protocol_version, max_frame_size, parameters_absent_flag, parameters_present_flag,
  presence_mask_complement,
}
use ffb_interceptor_visualiz.Wire.Writer.{
  Writer, ◌>>◌, put_u16, put_u32, put_u64, put_i32, put_guid, put_condition, put_string,
  put_fixed_string, put_each, insert_end,
}

-- Lines 232 to 238: who sent the event, and the call's result.
unfoldable pub put_identity : Event → Writer
put_identity event = do
  put_u32 event.process_id
  put_u32 event.qpc_frequency
  put_u32 event.device_id
  put_u32 event.effect_id
  put_guid event.effect_guid
  put_i32 event.hresult
  put_u32 event.di_flags

-- Lines 239 to 251: the common parameters.
unfoldable pub put_parameters : Event → Writer
put_parameters event = do
  put_u32 event.duration
  put_u32 event.sample_period
  put_u32 event.gain
  put_u32 event.start_delay
  put_u32 event.trigger_button
  put_u32 event.trigger_repeat
  put_u32 event.iterations
  put_u32 event.envelope_attack_level
  put_u32 event.envelope_attack_time
  put_u32 event.envelope_fade_level
  put_u32 event.envelope_fade_time
  put_u32 event.property_id
  put_u32 event.dropped

-- Lines 252 to 258: the parameters of the effect kinds.
unfoldable pub put_forces : Event → Writer
put_forces event = do
  put_i32 event.magnitude
  put_i32 event.ramp_start
  put_i32 event.ramp_end
  put_i32 event.periodic_magnitude
  put_i32 event.periodic_offset
  put_i32 event.periodic_phase
  put_i32 event.periodic_period

-- Lines 259 to 265: the arrays with their counts.
unfoldable pub put_arrays : Event → Writer
put_arrays event = do
  put_u32 event.axis_count
  put_each put_i32 event.axes
  put_each put_i32 event.directions
  put_u32 event.condition_count
  put_each put_condition event.conditions
  put_u32 event.type_specific_size
  put_u32 (if event.custom_redacted then 1 else 0)

-- Lines 266 to 272: the strings, and the fields that older readers do without.
unfoldable pub put_strings : Event → Writer
put_strings event = do
  put_fixed_string event.build_version 32
  put_fixed_string event.session_id 32
  put_string event.text
  put_u16 (kind_code event.effect_kind)
  put_u16 event.command

unfoldable pub payload : Event → List ℕ
payload event =
    (do
      put_identity event
      put_parameters event
      put_forces event
      put_arrays event
      put_strings event)
      []

presence_flags : EffectParameterPresence → ℕ → ℕ
presence_flags absent flags = bit_or flags parameters_absent_flag
presence_flags present flags = bit_or flags parameters_present_flag
presence_flags EffectParameterPresence.unknown flags = flags

flags_of_type : MessageType → Event → ℕ
flags_of_type effect_created event =
    presence_flags event.effect_parameter_presence (bit_and event.flags presence_mask_complement)
flags_of_type other event = event.flags

unfoldable pub wire_flags : Event → ℕ
unfolding presence_flags flags_of_type
wire_flags event = flags_of_type event.type event

-- 'F', 'F', 'B', '1'
abbrev pub magic : List ℕ
magic = 70 ∷ 70 ∷ 66 ∷ 49 ∷ []

unfoldable pub serialize_event : Event → List ℕ
serialize_event event =
    let body = payload event in
    (do
      insert_end magic
      put_u16 protocol_version
      put_u16 (message_code event.type)
      put_u32 ((32 + length body) % 2 ^ 32)
      put_u32 (wire_flags event)
      put_u64 event.sequence
      put_u64 event.qpc_ticks
      insert_end body)
      []

-- memcmp(…) == 0
unfoldable pub bytes_eq : List ℕ → List ℕ → Bool
bytes_eq [] [] = true
bytes_eq (x ∷ xs) (y ∷ ys) = x == y && bytes_eq xs ys
bytes_eq _ _ = false

-- The frame is given by its bytes, which are not a null pointer; `size` is their number.
unfoldable pub valid_frame : List ℕ → Bool
unfolding bytes_eq
valid_frame frame =
    let byte = λ (i : ℕ). get_or frame i 0 in
    let size = length frame in
    let version = (byte 4 + byte 5 * 2 ^ 8) % 2 ^ 16 in
    let frame_size = byte 8 + byte 9 * 2 ^ 8 + byte 10 * 2 ^ 16 + byte 11 * 2 ^ 24 in
    if ltb size 32 || ltb max_frame_size size
    then false
    else if not (bytes_eq (take 4 frame) magic)
    then false
    else if not (version == protocol_version)
    then false
    else frame_size == size
