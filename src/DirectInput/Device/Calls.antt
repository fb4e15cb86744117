-- ===== src/DirectInput/Device/Calls.antt =====
-- Any number of calls to a device of src/wrapper_device8.cpp, and what they report.
mod Runs
use ffb_interceptor_visualiz.Common.{
  ℕ, zero, suc, ◌+◌, ◌≡◌, refl, ap, ◌∙◌, Bool, true, false, ◌&&◌, ◌||◌, not, List, [], ◌∷◌, ◌++◌,
  Option, none, some, ◌==◌, if◌then◌else◌, ℤ, pos, negsuc, arith, ltb,
}
use ffb_interceptor_visualiz.Wire.Model.{Event, blank, device_command, device_property_changed}
use ffb_interceptor_visualiz.Wire.Effect.{Words}
use ffb_interceptor_visualiz.DirectInput.Effect.{Environment}
use ffb_interceptor_visualiz.DirectInput.Device.{
  Device, Reports, Property, ff_gain, autocenter, other_property, succeeded, acquisition_is_lost,
  stop_all, command_event, property_event, property_value, emit_property, invalidate_playback,
  acquire, unacquire, read_device, set_property, send_command,
}

pub data Call : Type 0 where
  acquires unacquires reads : (hr : ℤ) → Call
  sets_property : (property : Property) (header : Option Words) (hr : ℤ) → Call
  sends : (flags : ℕ) (hr : ℤ) → Call

module _ (env : Environment) where
  unfoldable pub step : Call → Reports → Reports
  step (acquires hr) r = acquire env hr r
  step (unacquires hr) r = unacquire env hr r
  step (reads hr) r = read_device env hr r
  step (sets_property property header hr) r = set_property env property header hr r
  step (sends flags hr) r = send_command env flags hr r

  -- The newest call first.
  unfoldable pub run : List Call → Reports → Reports
  unfolding step
  run [] r = r
  run (call ∷ earlier) r = step call (run earlier r)

-- The results that say that the acquisition is lost: 0x8007001e, 0x8007000c and 0x80070005.
abbrev pub is_lost : ℤ → Bool
is_lost (pos n) = false
is_lost (negsuc n) = n == 0x7ff8ffe1 || n == 0x7ff8fff3 || n == 0x7ff8fffa

abbrev pub is_success : ℤ → Bool
is_success (pos n) = true
is_success (negsuc n) = false

-- The history of a device's calls, newest first: whether effects can be playing after them. A
-- device begins unacquired; a successful Acquire lets effects play; a successful Unacquire, or
-- a result that says that the acquisition is lost, ends it.
abbrev pub ends_playback : Call → Bool
ends_playback (acquires hr) = is_lost hr
ends_playback (unacquires hr) = is_success hr
ends_playback (reads hr) = is_lost hr
ends_playback other = false

abbrev pub allows_playback : Call → Bool
allows_playback (acquires hr) = is_success hr
allows_playback other = false

unfoldable pub playing : List Call → Bool
playing [] = false
playing (call ∷ earlier) =
    let before = playing earlier in
    if allows_playback call then true else if ends_playback call then false else before

-- The result that a stop report carries.
abbrev pub stop_result : Call → ℤ
stop_result (unacquires hr) = hr
stop_result other = pos 0

-- The report of a force-feedback command; STOPALL is 2.
abbrev pub told_command : Environment → (device_id flags : ℕ) → ℤ → Event
told_command env device_id flags hr = record blank {
  type = device_command;
  process_id = env.process_id;
  device_id = device_id;
  di_flags = flags;
  hresult = hr;
}

-- The last of the five words of a DIPROPDWORD whose size is at least 20.
abbrev pub told_value : Option Words → ℕ
told_value (some (size ∷ header_size ∷ object ∷ how ∷ value ∷ rest)) =
    if ltb size 20 then 0 else value
told_value other = 0

abbrev pub told_change : Environment → (device_id property_id : ℕ) → Option Words → ℤ → Event
told_change env device_id property_id header hr = record blank {
  type = device_property_changed;
  process_id = env.process_id;
  device_id = device_id;
  property_id = property_id;
  gain = told_value header;
  hresult = hr;
}

abbrev pub told_property : Environment → ℕ → Property → Option Words → ℤ → List Event
told_property env device_id ff_gain header hr = told_change env device_id 1 header hr ∷ []
told_property env device_id autocenter header hr = told_change env device_id 2 header hr ∷ []
told_property env device_id other_property header hr = []

-- What a call tells by itself.
abbrev pub told : Environment → ℕ → Call → List Event
told env device_id (sets_property property header hr) =
    told_property env device_id property header hr
told env device_id (sends flags hr) = told_command env device_id flags hr ∷ []
told env device_id other = []

-- All reports, newest first: those of the calls by themselves, and a STOPALL for each call that
-- ends playback while effects can be playing.
unfoldable pub expected : Environment → ℕ → List Call → List Event
expected env device_id [] = []
expected env device_id (call ∷ earlier) =
    let before = expected env device_id earlier in
    if ends_playback call && playing earlier
    then told_command env device_id 2 (stop_result call) ∷ before
    else told env device_id call ++ before

command_event-told :
    (env : Environment) (device_id flags : ℕ) (hr : ℤ)
    → command_event env device_id flags hr ≡ told_command env device_id flags hr
unfolding command_event
command_event-told env device_id flags hr = refl

property_value-told : (header : Option Words) → property_value header ≡ told_value header
unfolding property_value
property_value-told none = refl
property_value-told (some []) = refl
property_value-told (some (a ∷ [])) = ground arith
property_value-told (some (a ∷ b ∷ [])) = ground arith
property_value-told (some (a ∷ b ∷ c ∷ [])) = ground arith
property_value-told (some (a ∷ b ∷ c ∷ d ∷ [])) = ground arith
property_value-told (some (a ∷ b ∷ c ∷ d ∷ e ∷ rest)) = refl

property_event-told :
    (env : Environment) (device_id property_id : ℕ) (header : Option Words) (hr : ℤ)
    → property_event env device_id property_id header hr
      ≡ told_change env device_id property_id header hr
unfolding property_event
property_event-told env device_id property_id header hr = rw (property_value-told header) refl

acquisition_is_lost-eq : (hr : ℤ) → acquisition_is_lost hr ≡ is_lost hr
unfolding acquisition_is_lost
acquisition_is_lost-eq (pos n) = refl
acquisition_is_lost-eq (negsuc n) = refl

succeeded-eq : (hr : ℤ) → succeeded hr ≡ is_success hr
succeeded-eq (pos n) = refl
succeeded-eq (negsuc n) = refl

lost_not_succeeded : (hr : ℤ) → succeeded hr ≡ true → acquisition_is_lost hr ≡ false
unfolding acquisition_is_lost
lost_not_succeeded (pos n) h = refl
lost_not_succeeded (negsuc n) h = cc

-- The gate is shut exactly while nothing can be playing.
pub record Agrees (env : Environment) (device_id : ℕ) (calls : List Call) (r : Reports)
    : Type 0 where
  pub same_device : r.device.device_id ≡ device_id
  pub with_state : r.device.has_state ≡ true
  pub gate : r.device.playback_invalidated ≡ not (playing calls)
  pub reported : r.emitted ≡ expected env device_id calls

step-Agrees :
    (env : Environment) (device_id : ℕ) (call : Call) (earlier : List Call) (r : Reports)
    → Agrees env device_id earlier r
    → Agrees env device_id (call ∷ earlier) (step env call r)
unfolding step playing expected acquire unacquire read_device set_property send_command
    invalidate_playback emit_property
step-Agrees env device_id (acquires hr) earlier r a = ground (
  arith,
  lost_not_succeeded hr,
  acquisition_is_lost-eq hr,
  succeeded-eq hr,
  ap (λ d. command_event env d stop_all (pos 0)) a.same_device,
  command_event-told env device_id 2 (pos 0),
)
step-Agrees env device_id (unacquires hr) earlier r a = ground (
  arith,
  succeeded-eq hr,
  ap (λ d. command_event env d stop_all hr) a.same_device,
  command_event-told env device_id 2 hr,
)
step-Agrees env device_id (reads hr) earlier r a = ground (
  arith,
  acquisition_is_lost-eq hr,
  ap (λ d. command_event env d stop_all (pos 0)) a.same_device,
  command_event-told env device_id 2 (pos 0),
)
step-Agrees env device_id (sets_property ff_gain header hr) earlier r a = ground (
  arith,
  ap (λ d. property_event env d 1 header hr) a.same_device,
  property_event-told env device_id 1 header hr,
)
step-Agrees env device_id (sets_property autocenter header hr) earlier r a = ground (
  arith,
  ap (λ d. property_event env d 2 header hr) a.same_device,
  property_event-told env device_id 2 header hr,
)
step-Agrees env device_id (sets_property other_property header hr) earlier r a = ground arith
step-Agrees env device_id (sends flags hr) earlier r a = ground (
  arith,
  ap (λ d. command_event env d flags hr) a.same_device,
  command_event-told env device_id flags hr,
)

-- A new device with a shared state.
abbrev pub fresh : ℕ → Reports
fresh device_id = record {
  device = record { device_id = device_id; has_state = true; playback_invalidated = true };
  emitted = [];
}

run-Agrees :
    (env : Environment) (device_id : ℕ) (calls : List Call)
    → Agrees env device_id calls (run env calls (fresh device_id))
unfolding run playing expected
run-Agrees env device_id [] = ground arith
run-Agrees env device_id (call ∷ earlier) =
    step-Agrees env device_id call earlier (run env earlier (fresh device_id))
      (run-Agrees env device_id earlier)

-- After any calls to a new device of Acquire, Unacquire, GetDeviceState, GetDeviceData, Poll,
-- SetProperty and SendForceFeedbackCommand, whatever they return, the events reported are those
-- that the history gives: a STOPALL exactly where a call ends playback that a successful Acquire had
-- allowed, with the result of a successful Unacquire or else DI_OK; and an event for each
-- force-feedback command and for each change of the gain and autocenter properties, with the flags,
-- the value and the result.
pub run_reports :
    (env : Environment) (device_id : ℕ) (calls : List Call)
    → (run env calls (fresh device_id)).emitted ≡ expected env device_id calls
run_reports env device_id calls = (run-Agrees env device_id calls).reported
