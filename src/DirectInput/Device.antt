-- ===== src/DirectInput/Device.antt =====
-- The methods of WrapperDevice8 in src/wrapper_device8.cpp that report to Telemetry::emit. What the
-- real device's methods return are arguments of the calls.
pub mod Calls
pub mod Create
use ffb_interceptor_visualiz.Common.{
  ℕ, zero, suc, ◌+◌, ◌%◌, ◌^◌, Bool, true, false, ◌&&◌, ◌||◌, not, List, [], ◌∷◌, Option, none,
  some, ltb, ◌==◌, if◌then◌else◌, ℤ, pos, negsuc, to_i32, get_elem?, get_or,
}
use ffb_interceptor_visualiz.Wire.Model.{
  Event, EffectKind, effect_created, device_property_changed, device_command, blank,
  EffectParameterPresence, absent, present,
}
use ffb_interceptor_visualiz.Wire.Kinds.{effect_kind_from_guid}
use ffb_interceptor_visualiz.Wire.Effect.{Words, EffectPointer}
use ffb_interceptor_visualiz.Wire.Effect
use ffb_interceptor_visualiz.Wire.Parameters.{fill_effect_parameters}
use ffb_interceptor_visualiz.DirectInput.Effect.{Environment}

-- HRESULTs of winerror.h and dinput.h
abbrev pub dierr_inputlost : ℤ
dierr_inputlost = to_i32 0x8007001e

abbrev pub dierr_notacquired : ℤ
dierr_notacquired = to_i32 0x8007000c

abbrev pub dierr_otherapphasprio : ℤ
dierr_otherapphasprio = to_i32 0x80070005

abbrev pub hresult_eq : ℤ → ℤ → Bool
hresult_eq (pos m) (pos n) = m == n
hresult_eq (negsuc m) (negsuc n) = m == n
hresult_eq _ _ = false

-- SUCCEEDED
abbrev pub succeeded : ℤ → Bool
succeeded (pos n) = true
succeeded (negsuc n) = false

unfoldable pub acquisition_is_lost : ℤ → Bool
acquisition_is_lost hr =
    hresult_eq hr dierr_inputlost
    || hresult_eq hr dierr_notacquired
    || hresult_eq hr dierr_otherapphasprio

-- DISFFC_STOPALL
abbrev pub stop_all : ℕ
stop_all = 2

-- m_device_id, whether there is a shared state, and its playback_invalidated.
pub record Device : Type 0 where
  pub device_id : ℕ
  pub has_state : Bool
  pub playback_invalidated : Bool

-- The events handed to Telemetry::emit, newest first.
pub record Reports : Type 0 where
  pub device : Device
  pub emitted : List Event

abbrev pub report : Event → Reports → Reports
report event r = record r { emitted = event ∷ r.emitted }

unfoldable pub command_event : Environment → ℕ → ℕ → ℤ → Event
command_event env device_id command hr = record blank {
  type = device_command;
  process_id = env.process_id;
  device_id = device_id;
  di_flags = command;
  hresult = hr;
}

-- The property of a SetProperty call.
pub data Property : Type 0 where
  ff_gain autocenter other_property : Property

-- The value behind a header that may be null, short or unreadable (a DIPROPDWORD has five words).
unfoldable pub property_value : Option Words → ℕ
property_value none = 0
property_value (some words) = if ltb (get_or words 0 0) 20 then 0 else get_or words 4 0

unfoldable pub property_event : Environment → ℕ → ℕ → Option Words → ℤ → Event
property_event env device_id property_id header hr = record blank {
  type = device_property_changed;
  process_id = env.process_id;
  device_id = device_id;
  property_id = property_id;
  hresult = hr;
  gain = property_value header;
}

unfoldable pub emit_property : Environment → ℕ → Property → Option Words → ℤ → Reports → Reports
emit_property env device_id ff_gain header hr r =
    report (property_event env device_id 1 header hr) r
emit_property env device_id autocenter header hr r =
    report (property_event env device_id 2 header hr) r
emit_property env device_id other_property header hr r = r

abbrev pub presence : EffectPointer → EffectParameterPresence
presence EffectPointer.absent = absent
presence other = present

unfoldable pub created_event :
    Environment → (device_id effect_id : ℕ) (guid : List ℕ) → EffectPointer → ℤ → Event
created_event env device_id effect_id guid parameters hr =
    fill_effect_parameters env.sizes parameters (record blank {
      type = effect_created;
      effect_kind = effect_kind_from_guid env.guid_of guid;
      process_id = env.process_id;
      device_id = device_id;
      effect_id = effect_id;
      effect_guid = guid;
      hresult = hr;
      effect_parameter_presence = presence parameters;
    })

-- invalidate_playback: InterlockedExchange gives the gate's old value.
unfoldable pub invalidate_playback : Environment → ℤ → Reports → Reports
invalidate_playback env hr r =
    if r.device.has_state && not r.device.playback_invalidated
    then record {
      device = record r.device { playback_invalidated = true };
      emitted = command_event env r.device.device_id stop_all hr ∷ r.emitted;
    }
    else r

unfoldable pub acquire : Environment → ℤ → Reports → Reports
acquire env hr r =
    if succeeded hr && r.device.has_state
    then record r { device = record r.device { playback_invalidated = false } }
    else if acquisition_is_lost hr
    then invalidate_playback env (pos 0) r
    else r

unfoldable pub unacquire : Environment → ℤ → Reports → Reports
unacquire env hr r = if succeeded hr then invalidate_playback env hr r else r

-- GetDeviceState, GetDeviceData and Poll.
unfoldable pub read_device : Environment → ℤ → Reports → Reports
read_device env hr r = if acquisition_is_lost hr then invalidate_playback env (pos 0) r else r

unfoldable pub set_property : Environment → Property → Option Words → ℤ → Reports → Reports
set_property env property header hr r = emit_property env r.device.device_id property header hr r

unfoldable pub send_command : Environment → ℕ → ℤ → Reports → Reports
send_command env flags hr r = report (command_event env r.device.device_id flags hr) r
