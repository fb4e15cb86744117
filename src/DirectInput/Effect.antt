-- ===== src/DirectInput/Effect.antt =====
-- The wrappers of effects, WrapperEffect of src/wrapper_effect.cpp, with their registry. A pointer
-- is a number, 0 if it is null; the chain of m_registry_next links is a list, its head first. What
-- the real effect's methods return are arguments of the calls.
pub mod Registry
pub mod Calls
use ffb_interceptor_visualiz.Common.{
  ℕ, zero, suc, ◌+◌, ◌-◌, ◌%◌, ◌^◌, Bool, true, false, ◌&&◌, ◌||◌, not, List, [], ◌∷◌, Option, none,
  some, ◌==◌, if◌then◌else◌, ℤ, pos,
}
use ffb_interceptor_visualiz.Wire.Model.{
  Event, EffectKind, EffectCommand, download, start, stop, unload, release, command_code,
  effect_command, effect_parameters_changed, blank,
}
use ffb_interceptor_visualiz.Wire.Kinds.{effect_kind_from_guid}
use ffb_interceptor_visualiz.Wire.Effect.{EffectPointer, Sizes}
use ffb_interceptor_visualiz.Wire.Parameters.{fill_effect_parameters}

pub record WrapperEffect : Type 0 where
  pub address : ℕ
  pub real : ℕ
  pub identity : ℕ
  pub guid : List ℕ
  pub device_id : ℕ
  pub effect_id : ℕ
  pub ref_count : ℕ

-- What the process and the headers fix.
pub record Environment : Type 0 where
  pub process_id : ℕ
  pub guid_of : EffectKind → List ℕ
  pub sizes : Sizes

-- The registry, the events handed to Telemetry::emit (newest first), and the real effects that
-- have been released, with how often.
pub record Effects : Type 0 where
  pub registry : List WrapperEffect
  pub emitted : List Event
  pub released : List ℕ

abbrev pub no_effects : Effects
no_effects = record { registry = []; emitted = []; released = [] }

-- A new object: `found` says that the query for IUnknown succeeded.
unfoldable pub new_wrapper :
    (address real : ℕ) (found : Bool) (identity device_id effect_id : ℕ) (guid : List ℕ)
    → WrapperEffect
new_wrapper address real found identity device_id effect_id guid = record {
  address = address;
  real = real;
  identity = if not (real == 0) && found then identity else 0;
  guid = guid;
  device_id = device_id;
  effect_id = effect_id;
  ref_count = 1;
}

-- The constructor.
unfoldable pub construct :
    (address real : ℕ) (found : Bool) (identity device_id effect_id : ℕ) (guid : List ℕ)
    → Effects
    → Effects
unfolding new_wrapper
construct address real found identity device_id effect_id guid s = record s {
  registry = new_wrapper address real found identity device_id effect_id guid ∷ s.registry;
}

-- InterlockedIncrement and InterlockedDecrement
unfoldable pub increment : ℕ → ℕ
increment n = (n + 1) % 2 ^ 32

unfoldable pub decrement : ℕ → ℕ
decrement n = (n + (2 ^ 32 - 1)) % 2 ^ 32

-- The object at an address; there is at most one.
unfoldable pub at_address : ℕ → List WrapperEffect → Option WrapperEffect
at_address a [] = none
at_address a (w ∷ ws) = let rest = at_address a ws in if w.address == a then some w else rest

unfoldable pub set_count : ℕ → ℕ → List WrapperEffect → List WrapperEffect
set_count a n [] = []
set_count a n (w ∷ ws) =
    let rest = set_count a n ws in
    if w.address == a then record w { ref_count = n } ∷ ws else w ∷ rest

unfoldable pub add_ref_at : Option WrapperEffect → Effects → Effects
add_ref_at none s = s
add_ref_at (some w) s = record s {
  registry = set_count w.address (increment w.ref_count) s.registry;
}

unfoldable pub add_ref : ℕ → Effects → Effects
unfolding add_ref_at
add_ref a s = add_ref_at (at_address a s.registry) s

-- unregister_instance_locked: the walk along the links.
unfoldable pub unregister : ℕ → List WrapperEffect → List WrapperEffect
unregister a [] = []
unregister a (w ∷ ws) = let rest = unregister a ws in if w.address == a then ws else w ∷ rest

unfoldable pub effect_event : Environment → WrapperEffect → Event
effect_event env w = record blank {
  effect_kind = effect_kind_from_guid env.guid_of w.guid;
  process_id = env.process_id;
  device_id = w.device_id;
  effect_id = w.effect_id;
  effect_guid = w.guid;
}

unfoldable pub command_event : Environment → WrapperEffect → EffectCommand → Event
command_event env w command = record (effect_event env w) {
  type = effect_command;
  command = command_code command;
}

-- Release: `now` is qpc_now(). The last reference also destroys the object, which releases the
-- real effect.
unfoldable pub release_at : Environment → ℕ → Option WrapperEffect → Effects → Effects
release_at env now none s = s
release_at env now (some w) s =
    let count = decrement w.ref_count in
    if count == 0
    then record {
      registry = unregister w.address s.registry;
      emitted = record (command_event env w release) { qpc_ticks = now } ∷ s.emitted;
      released = if w.real == 0 then s.released else w.real ∷ s.released;
    }
    else record s { registry = set_count w.address count s.registry }

unfoldable pub release_effect : Environment → ℕ → ℕ → Effects → Effects
unfolding release_at
release_effect env now a s = release_at env now (at_address a s.registry) s

-- The loop of find_and_add_ref; `identity` is 0 if the query failed.
unfoldable pub first_match : (real identity : ℕ) → List WrapperEffect → Option WrapperEffect
first_match real identity [] = none
first_match real identity (w ∷ ws) =
    let rest = first_match real identity ws in
    if w.real == real || not (identity == 0) && w.identity == identity then some w else rest

-- find_and_add_ref, with the wrapper that it returns.
unfoldable pub find_and_add_ref : (real identity : ℕ) → Effects → Option WrapperEffect × Effects
unfolding first_match add_ref_at
find_and_add_ref real identity s =
    if real == 0
    then (none, s)
    else (let found = first_match real identity s.registry in (found, add_ref_at found s))

-- DIERR_UNSUPPORTED, as a signed number (0x80004001).
abbrev pub dierr_unsupported : ℤ
dierr_unsupported = ℤ.negsuc 0x7fffbffe

-- A method of the real effect, where there is one.
unfoldable pub from_real : WrapperEffect → ℤ → ℤ
from_real w hr = if w.real == 0 then dierr_unsupported else hr

abbrev pub emit : Event → Effects → Effects
emit event s = record s { emitted = event ∷ s.emitted }

-- Start, Stop, Download and Unload, each with the real effect's result.
unfoldable pub start_effect :
    Environment → WrapperEffect → (hr : ℤ) (iterations flags : ℕ) → Effects → ℤ × Effects
start_effect env w hr iterations flags s =
    let result = from_real w hr in
    (
      result,
      emit
          (record (command_event env w start) {
            hresult = result;
            flags = flags;
            iterations = iterations;
          })
          s,
    )

unfoldable pub stop_effect : Environment → WrapperEffect → (hr : ℤ) → Effects → ℤ × Effects
stop_effect env w hr s =
    let result = from_real w hr in
    (result, emit (record (command_event env w stop) { hresult = result }) s)

unfoldable pub download_effect : Environment → WrapperEffect → (hr : ℤ) → Effects → ℤ × Effects
download_effect env w hr s =
    let result = from_real w hr in
    (result, emit (record (command_event env w download) { hresult = result }) s)

unfoldable pub unload_effect : Environment → WrapperEffect → (hr : ℤ) → Effects → ℤ × Effects
unload_effect env w hr s =
    let result = from_real w hr in
    (result, emit (record (command_event env w unload) { hresult = result }) s)

unfoldable pub set_parameters :
    Environment
    → WrapperEffect
    → (hr : ℤ) (parameters : EffectPointer) (flags : ℕ) → Effects
    → ℤ × Effects
set_parameters env w hr parameters flags s =
    let result = from_real w hr in
    (
      result,
      emit
          (fill_effect_parameters env.sizes parameters (record (effect_event env w) {
            type = effect_parameters_changed;
            hresult = result;
            flags = flags;
          }))
          s,
    )

-- E_POINTER and E_NOINTERFACE (0x80004003 and 0x80004002)
abbrev pub e_pointer : ℤ
e_pointer = ℤ.negsuc 0x7fffbffc

abbrev pub e_nointerface : ℤ
e_nointerface = ℤ.negsuc 0x7fffbffd

-- QueryInterface: `known` says that IUnknown or IDirectInputEffect is asked for, and `forwarded` is
-- what the real effect answers; the result comes with the pointer that is stored, if any can be.
unfoldable pub query_interface :
    WrapperEffect → (out_given known : Bool) (forwarded : ℤ × ℕ) → Effects → (ℤ × ℕ) × Effects
query_interface w out_given known forwarded s =
    if not out_given
    then ((e_pointer, 0), s)
    else if known
    then ((pos 0, w.address), add_ref w.address s)
    else if w.real == 0
    then ((e_nointerface, 0), s)
    else (forwarded, s)

-- What an EnumCreatedEffectObjects callback hands to the application's callback, `app`: the
-- wrapper of the real effect, or the real effect itself where there is none.
unfoldable pub call_with :
    Environment
    → ℕ
    → (ℕ → Effects → Bool × Effects)
    → ℕ
    → Option WrapperEffect × Effects
    → Bool × Effects
call_with env now app real (none, s) = app real s
call_with env now app real (some w, s) =
    let (result, after) = app w.address s in (result, release_effect env now w.address after)

-- created_effect_callback of src/wrapper_device8.cpp. `none` is an application without a callback;
-- the result DIENUM_STOP is `false`.
unfoldable pub created_effect_callback :
    Environment
    → ℕ
    → Option (ℕ → Effects → Bool × Effects)
    → (real identity : ℕ) → Effects
    → Bool × Effects
unfolding call_with
created_effect_callback env now none real identity s = (false, s)
created_effect_callback env now (some app) real identity s =
    call_with env now app real (find_and_add_ref real identity s)
