-- ===== src/DirectInput/Effect/Calls/Events.antt =====
-- The events that the wrappers of src/wrapper_effect.cpp hand to Telemetry::emit.
use ffb_interceptor_visualiz.Common.{
  ℕ, ◌<◌, ◌≢◌, ◌≡◌, refl, sym, subst, Bool, true, false, List, [], ◌∷◌, Option, none, some, ◌==◌,
  arith, All, Occurs, length, Bool-cases, inl, inr, ℤ, IsU32, IsU64, IsI32,
}
use ffb_interceptor_visualiz.Wire.Model.{
  Event, EffectCommand, download, start, stop, unload, release, command_code,
  effect_parameters_changed, effect_command,
}
use ffb_interceptor_visualiz.Wire.Effect.{EffectPointer}
use ffb_interceptor_visualiz.Wire.Parameters.Fits.{
  IsCounted, IsPointer, fill_effect_parameters-IsCounted,
}
use ffb_interceptor_visualiz.Wire.Parameters.Frame.{fill_effect_parameters-Untouched}
use ffb_interceptor_visualiz.DirectInput.Effect.{
  WrapperEffect, Environment, Effects, at_address, new_wrapper, set_count, unregister, construct,
  add_ref, add_ref_at, release_effect, release_at, increment, decrement, effect_event,
  command_event, from_real, emit, find_and_add_ref, start_effect, stop_effect, download_effect,
  unload_effect, set_parameters, query_interface,
}
use ffb_interceptor_visualiz.DirectInput.Effect.Registry.{forwarded_query}
use ffb_interceptor_visualiz.DirectInput.Effect.Calls.{
  Call, creates, adds_ref, queries, releases, finds, starts, stops, downloads, unloads, sets,
  on_object, World, start_world, step, run, Allowed, Legal,
}

-- The fields of an object that its events carry.
abbrev pub Fits : WrapperEffect → Type 0
Fits w = IsU32 w.device_id × IsU32 w.effect_id × (length w.guid ≡ 16) × (0 < w.real)

set_count-Fits : (a n : ℕ) (ws : List WrapperEffect) → All Fits ws → All Fits (set_count a n ws)
unfolding set_count
set_count-Fits a n [] h = tt
set_count-Fits a n (w ∷ ws) h = ground (arith, set_count-Fits a n ws h.1)

unregister-Fits : (a : ℕ) (ws : List WrapperEffect) → All Fits ws → All Fits (unregister a ws)
unfolding unregister
unregister-Fits a [] h = tt
unregister-Fits a (w ∷ ws) h = ground (arith, unregister-Fits a ws h.1)

-- A predicate on a registered object, if there is one.
abbrev Where : (WrapperEffect → Type 0) → Option WrapperEffect → Type 0
Where P none = Unit {0}
Where P (some w) = P w

at_address-Fits : (a : ℕ) (ws : List WrapperEffect) → All Fits ws → Where Fits (at_address a ws)
unfolding at_address
at_address-Fits a [] h = tt
at_address-Fits a (w ∷ ws) h = elim (Bool-cases (w.address == a)) [
  | inl e ↦ rw e h.0
  | inr e ↦ rw e (at_address-Fits a ws h.1)
]

-- Whether an event reports a Release.
abbrev pub is_release : Event → Bool
is_release e = e.command == 5

-- The event reports the Release of an object that was created around the real effect.
abbrev pub IsRelease : Environment → (made : List WrapperEffect) → ℕ → Event → Type 0
IsRelease env made real e =
    (w : WrapperEffect) × Occurs w made
    × (w.real ≡ real)
    × (e.type ≡ effect_command)
    × (e.command ≡ 5)
    × (e.process_id ≡ env.process_id)
    × (e.device_id ≡ w.device_id)
    × (e.effect_id ≡ w.effect_id)
    × (e.effect_guid ≡ w.guid)

-- The Release events among the events are those of the real effects, in their order.
pub data Releases (env : Environment) (made : List WrapperEffect)
    : List Event → List ℕ → Type 0 where
  nothing : Releases env made [] []
  other :
      {e : Event} {es : List Event} {reals : List ℕ}
      → is_release e ≡ false
      → Releases env made es reals
      → Releases env made (e ∷ es) reals
  told :
      {e : Event} {es : List Event} {real : ℕ} {reals : List ℕ}
      → IsRelease env made real e
      → Releases env made es reals
      → Releases env made (e ∷ es) (real ∷ reals)

Releases-cons :
    {env : Environment} {made : List WrapperEffect} {es : List Event} {reals : List ℕ}
    (v : WrapperEffect)
    → Releases env made es reals
    → Releases env (v ∷ made) es reals
Releases-cons v nothing = nothing
Releases-cons v (other h r) = other h (Releases-cons v r)
Releases-cons v (told (w, o, real, type, command, process, device, effect, guid) r) =
    told (w, inr o, real, type, command, process, device, effect, guid) (Releases-cons v r)

-- The object has been created with these fields.
abbrev Stems : List WrapperEffect → WrapperEffect → Type 0
Stems made w =
    (v : WrapperEffect) × Occurs v made
    × (v.real ≡ w.real)
    × (v.device_id ≡ w.device_id)
    × (v.effect_id ≡ w.effect_id)
    × (v.guid ≡ w.guid)

All-Stems :
    (made : List WrapperEffect) (v : WrapperEffect) (ws : List WrapperEffect)
    → All (Stems made) ws
    → All (Stems (v ∷ made)) ws
All-Stems made v [] h = tt
All-Stems made v (w ∷ ws) ((u, o, real, device, effect, guid), h) =
    ((u, inr o, real, device, effect, guid), All-Stems made v ws h)

set_count-Stems :
    (made : List WrapperEffect) (a n : ℕ) (ws : List WrapperEffect)
    → All (Stems made) ws
    → All (Stems made) (set_count a n ws)
unfolding set_count
set_count-Stems made a n [] h = tt
set_count-Stems made a n (w ∷ ws) h = elim (Bool-cases (w.address == a)) [
  | inl here ↦ rw here h
  | inr later ↦ rw later (h.0, set_count-Stems made a n ws h.1)
]

unregister-Stems :
    (made : List WrapperEffect) (a : ℕ) (ws : List WrapperEffect)
    → All (Stems made) ws
    → All (Stems made) (unregister a ws)
unfolding unregister
unregister-Stems made a [] h = tt
unregister-Stems made a (w ∷ ws) h = elim (Bool-cases (w.address == a)) [
  | inl here ↦ rw here h.1
  | inr later ↦ rw later (h.0, unregister-Stems made a ws h.1)
]

at_address-Stems :
    (made : List WrapperEffect) (a : ℕ) (ws : List WrapperEffect)
    → All (Stems made) ws
    → Where (Stems made) (at_address a ws)
unfolding at_address
at_address-Stems made a [] h = tt
at_address-Stems made a (w ∷ ws) h = elim (Bool-cases (w.address == a)) [
  | inl e ↦ rw e h.0
  | inr e ↦ rw e (at_address-Stems made a ws h.1)
]

pub record IsReported (env : Environment) (made : List WrapperEffect) (s : Effects) : Type 0 where
  pub fitting : All Fits s.registry
  pub stems : All (Stems made) s.registry
  pub counted : All IsCounted s.emitted
  pub releases_told : Releases env made s.emitted s.released

from_real-IsI32 : (w : WrapperEffect) (hr : ℤ) → IsI32 hr → IsI32 (from_real w hr)
unfolding from_real
from_real-IsI32 w hr h = elim (Bool-cases (w.real == 0)) [
  | inl e ↦ rw e (omega arith)
  | inr e ↦ rw e h
]

other_command :
    (env : Environment) (w : WrapperEffect) (c : EffectCommand)
    → c ≢ release
    → is_release (command_event env w c) ≡ false
unfolding command_event command_code
other_command env w download n = refl
other_command env w start n = refl
other_command env w stop n = refl
other_command env w unload n = refl
other_command env w release n = absurd (n refl)

release_code : (env : Environment) (w : WrapperEffect) → (command_event env w release).command ≡ 5
unfolding command_event command_code
release_code env w = refl

module _ (env : Environment) (process : IsU32 env.process_id) (made : List WrapperEffect) where
  effect_event-IsCounted : (w : WrapperEffect) → Fits w → IsCounted (effect_event env w)
  unfolding effect_event
  effect_event-IsCounted w h = ground arith

  command_event-IsCounted :
      (w : WrapperEffect) (command : EffectCommand)
      → Fits w
      → IsCounted (command_event env w command)
  unfolding command_event command_code
  command_event-IsCounted w command h = ground (arith, effect_event-IsCounted w h)

  no_command : (w : WrapperEffect) → is_release (effect_event env w) ≡ false
  unfolding effect_event
  no_command w = refl

  emit-IsReported :
      (e : Event) (s : Effects)
      → IsCounted e
      → is_release e ≡ false
      → IsReported env made s
      → IsReported env made (emit e s)
  emit-IsReported e s h k r = record {
    fitting = r.fitting;
    stems = r.stems;
    counted = (h, r.counted);
    releases_told = other k r.releases_told;
  }

  -- The methods that report a command.
  command-IsReported :
      (w : WrapperEffect) (command : EffectCommand) (hr : ℤ) (flags iterations : ℕ) (s : Effects)
      → command ≢ release
      → Fits w
      → IsI32 hr
      → IsU32 flags
      → IsU32 iterations
      → IsReported env made s
      → IsReported env made (
          emit
            (record (command_event env w command) {
              hresult = from_real w hr;
              flags = flags;
              iterations = iterations;
            })
            s)
  command-IsReported w command hr flags iterations s n h i j k r =
      let result = from_real-IsI32 w hr i in
      let base = command_event-IsCounted w command h in
      emit-IsReported _ s (ground arith) (other_command env w command n) r

  parameters-IsReported :
      (w : WrapperEffect) (hr : ℤ) (parameters : EffectPointer) (flags : ℕ) (s : Effects)
      → Fits w
      → IsI32 hr
      → IsPointer parameters
      → IsU32 flags
      → IsReported env made s
      → IsReported env made (set_parameters env w hr parameters flags s).1
  unfolding set_parameters
  parameters-IsReported w hr parameters flags s h i p j r =
      let result = from_real-IsI32 w hr i in
      let base = effect_event-IsCounted w h in
      let start_event : Event = record (effect_event env w) {
        type = effect_parameters_changed;
        hresult = from_real w hr;
        flags = flags;
      } in
      let given : IsCounted start_event = ground arith in
      let same =
        (fill_effect_parameters-Untouched env.sizes parameters start_event p).command_same in
      emit-IsReported _ s
        (fill_effect_parameters-IsCounted env.sizes parameters start_event p given)
        (rw same (no_command w)) r

  release_event :
      (now : ℕ) (w : WrapperEffect)
      → Stems made w
      → IsRelease env made w.real (record (command_event env w release) { qpc_ticks = now })
  unfolding command_event effect_event command_code
  release_event now w (v, o, real, device, effect, guid) =
      (v, o, real, refl, refl, refl, sym device, sym effect, sym guid)

  release_at-IsReported :
      (now : ℕ) (w : WrapperEffect) (s : Effects)
      → IsU64 now
      → Fits w
      → Stems made w
      → IsReported env made s
      → IsReported env made (release_at env now (some w) s)
  unfolding release_at
  release_at-IsReported now w s n h stem r = elim (Bool-cases (decrement w.ref_count == 0)) [
    | inl last ↦
        let base = command_event-IsCounted w release h in
        let given : (w.real == 0) ≡ false = ground (arith, h.3) in
        rw (last, given)
          (record {
            fitting = unregister-Fits w.address s.registry r.fitting;
            stems = unregister-Stems made w.address s.registry r.stems;
            counted = (ground arith, r.counted);
            releases_told = told (release_event now w stem) r.releases_told;
          })
    | inr more ↦ rw more (record {
      fitting = set_count-Fits w.address (decrement w.ref_count) s.registry r.fitting;
      stems = set_count-Stems made w.address (decrement w.ref_count) s.registry r.stems;
      counted = r.counted;
      releases_told = r.releases_told;
    })
  ]

  add_ref_at-IsReported :
      (o : Option WrapperEffect) (s : Effects)
      → IsReported env made s
      → IsReported env made (add_ref_at o s)
  unfolding add_ref_at
  add_ref_at-IsReported none s r = r
  add_ref_at-IsReported (some w) s r = record {
    fitting = set_count-Fits w.address (increment w.ref_count) s.registry r.fitting;
    stems = set_count-Stems made w.address (increment w.ref_count) s.registry r.stems;
    counted = r.counted;
    releases_told = r.releases_told;
  }

  on_object-IsReported :
      (o : Option WrapperEffect) (method : WrapperEffect → Effects → ℤ × Effects) (s : Effects)
      → Where Fits o
      → ((w : WrapperEffect) → Fits w → IsReported env made (method w s).1)
      → IsReported env made s
      → IsReported env made (on_object o method s)
  on_object-IsReported none method s h k r = r
  on_object-IsReported (some w) method s h k r = k w h

  release_object-IsReported :
      (now : ℕ) (o : Option WrapperEffect) (s : Effects)
      → IsU64 now
      → Where Fits o
      → Where (Stems made) o
      → IsReported env made s
      → IsReported env made (release_at env now o s)
  unfolding release_at
  release_object-IsReported now none s n h stem r = r
  release_object-IsReported now (some w) s n h stem r =
      unfold release_at in release_at-IsReported now w s n h stem r

  query-IsReported :
      (a : ℕ) (out_given known : Bool) (forwarded : ℤ × ℕ) (o : Option WrapperEffect) (s : Effects)
      → IsReported env made s
      → IsReported env made (
          on_object o
            (λ w t.
              let (answer, after) = query_interface w out_given known forwarded t in
              (answer.0, after))
            s)
  unfolding query_interface add_ref
  query-IsReported a out_given known forwarded none s r = r
  query-IsReported a false known forwarded (some w) s r = r
  query-IsReported a true true forwarded (some w) s r = add_ref_at-IsReported _ s r
  query-IsReported a true false forwarded (some w) s r =
      subst (IsReported env made) (sym (forwarded_query w forwarded s)) r

module _ (env : Environment) (process : IsU32 env.process_id) where
  step-IsReported :
      (call : Call) (world : World)
      → Allowed env call world
      → IsReported env world.created world.effects
      → IsReported env (step env call world).created (step env call world).effects
  unfolding step new_wrapper construct add_ref release_effect find_and_add_ref start_effect
      stop_effect download_effect unload_effect command_event effect_event
  step-IsReported (creates address real found identity device_id effect_id guid) world h r =
      let w = new_wrapper address real found identity device_id effect_id guid in
      record {
        fitting = ((h.2, h.3, h.4, h.1), r.fitting);
        stems = (
          (w, inl refl, refl, refl, refl, refl),
          All-Stems world.created w world.effects.registry r.stems,
        );
        counted = r.counted;
        releases_told = Releases-cons w r.releases_told;
      }
  step-IsReported (adds_ref a) world h r =
      add_ref_at-IsReported env process world.created _ world.effects r
  step-IsReported (queries a out_given known forwarded) world h r =
      query-IsReported env process world.created a out_given known forwarded
        (at_address a world.effects.registry) world.effects r
  step-IsReported (releases a now) world h r =
      release_object-IsReported env process world.created now _ world.effects h.1
        (at_address-Fits a world.effects.registry r.fitting)
        (at_address-Stems world.created a world.effects.registry r.stems) r
  step-IsReported (finds real identity) world h r = elim (Bool-cases (real == 0)) [
    | inl z ↦ rw z r
    | inr z ↦ rw z (add_ref_at-IsReported env process world.created _ world.effects r)
  ]
  step-IsReported (starts a hr iterations flags) world h r =
      on_object-IsReported env process world.created (at_address a world.effects.registry)
        (λ w. start_effect env w hr iterations flags) world.effects
        (at_address-Fits a world.effects.registry r.fitting)
        (λ w f.
          command-IsReported env process world.created w start hr flags iterations world.effects
            (λ e. cc) f h.1 h.3 h.2 r)
        r
  step-IsReported (stops a hr) world h r =
      on_object-IsReported env process world.created (at_address a world.effects.registry)
        (λ w. stop_effect env w hr) world.effects
        (at_address-Fits a world.effects.registry r.fitting)
        (λ w f.
          command-IsReported env process world.created w stop hr 0 0 world.effects (λ e. cc) f h.1
            (omega arith) (omega arith) r)
        r
  step-IsReported (downloads a hr) world h r =
      on_object-IsReported env process world.created (at_address a world.effects.registry)
        (λ w. download_effect env w hr) world.effects
        (at_address-Fits a world.effects.registry r.fitting)
        (λ w f.
          command-IsReported env process world.created w download hr 0 0 world.effects (λ e. cc) f
            h.1 (omega arith) (omega arith) r)
        r
  step-IsReported (unloads a hr) world h r =
      on_object-IsReported env process world.created (at_address a world.effects.registry)
        (λ w. unload_effect env w hr) world.effects
        (at_address-Fits a world.effects.registry r.fitting)
        (λ w f.
          command-IsReported env process world.created w unload hr 0 0 world.effects (λ e. cc) f h.1
            (omega arith) (omega arith) r)
        r
  step-IsReported (sets a hr parameters flags) world h r =
      on_object-IsReported env process world.created (at_address a world.effects.registry)
        (λ w. set_parameters env w hr parameters flags) world.effects
        (at_address-Fits a world.effects.registry r.fitting)
        (λ w f.
          parameters-IsReported env process world.created w hr parameters flags world.effects f h.1
            h.2 h.3 r)
        r

  run-IsReported :
      (calls : List Call) (world : World)
      → Legal env calls world
      → IsReported env world.created world.effects
      → IsReported env (run env calls world).created (run env calls world).effects
  unfolding run
  run-IsReported [] world legal r = r
  run-IsReported (call ∷ calls) world legal r =
      run-IsReported calls (step env call world) legal.1 (step-IsReported call world legal.0 r)

start_world-IsReported : (env : Environment) → IsReported env [] start_world.effects
start_world-IsReported env = record {
  fitting = tt;
  stems = tt;
  counted = tt;
  releases_told = nothing;
}

-- Over any legal calls, the Release events among those emitted are those of the real effects that
-- have been released, one for each and in the order of the releases: each is an EffectCommand with
-- the command of a Release, the process, and the device, the effect and the GUID of an object that
-- was created around that real effect.
pub run_releases :
    (env : Environment) (calls : List Call)
    → IsU32 env.process_id
    → Legal env calls start_world
    → let world = run env calls start_world in
      Releases env world.created world.effects.emitted world.effects.released
run_releases env calls process legal =
    (run-IsReported env process calls start_world legal (start_world-IsReported env)).releases_told
