-- ===== src/DirectInput/Effect/Calls.antt =====
-- Any number of calls to the wrappers of effects, by clients that use the references that they
-- have been given. `held` keeps a client's book: the references it has to each object.
mod Invariant
mod Events
mod Find
mod Runs
use ffb_interceptor_visualiz.Common.{
  ℕ, zero, suc, ◌+◌, ◌-◌, ◌<◌, ◌≡◌, Bool, true, false, ◌&&◌, List, [], ◌∷◌, Option, none, some,
  ◌==◌, if◌then◌else◌, ℤ, IsU32, IsI32, IsU64, length,
}
use ffb_interceptor_visualiz.Wire.Effect.{EffectPointer}
use ffb_interceptor_visualiz.Wire.Parameters.Fits.{IsPointer}
use ffb_interceptor_visualiz.DirectInput.Effect.{
  WrapperEffect, Environment, Effects, no_effects, at_address, new_wrapper, construct, add_ref,
  release_effect, find_and_add_ref, start_effect, stop_effect, download_effect, unload_effect,
  set_parameters, query_interface,
}

pub data Call : Type 0 where
  creates :
      (address real : ℕ) (found : Bool) (identity device_id effect_id : ℕ) (guid : List ℕ) → Call
  adds_ref : (address : ℕ) → Call
  queries : (address : ℕ) (out_given known : Bool) (forwarded : ℤ × ℕ) → Call
  releases : (address now : ℕ) → Call
  finds : (real identity : ℕ) → Call
  starts : (address : ℕ) (hr : ℤ) (iterations flags : ℕ) → Call
  stops downloads unloads : (address : ℕ) (hr : ℤ) → Call
  sets : (address : ℕ) (hr : ℤ) (parameters : EffectPointer) (flags : ℕ) → Call

-- A method of the object at an address.
abbrev pub on_object :
    Option WrapperEffect → (WrapperEffect → Effects → ℤ × Effects) → Effects → Effects
on_object none method s = s
on_object (some w) method s = (method w s).1

pub record World : Type 0 where
  pub effects : Effects
  pub held : ℕ → ℕ
  pub created : List WrapperEffect

abbrev pub start_world : World
start_world = record { effects = no_effects; held = λ a. 0; created = [] }

-- The book after a reference is gained, or given back.
abbrev pub credit : ℕ → (ℕ → ℕ) → ℕ → ℕ
credit a held b = if a == b then held b + 1 else held b

abbrev pub debit : ℕ → (ℕ → ℕ) → ℕ → ℕ
debit a held b = if a == b then held b - 1 else held b

abbrev pub credit_found : Option WrapperEffect → (ℕ → ℕ) → ℕ → ℕ
credit_found none held = held
credit_found (some w) held = credit w.address held

module _ (env : Environment) where
  unfoldable pub step : Call → World → World
  step (creates address real found identity device_id effect_id guid) world = record {
    effects = construct address real found identity device_id effect_id guid world.effects;
    held = credit address world.held;
    created = new_wrapper address real found identity device_id effect_id guid ∷ world.created;
  }
  step (adds_ref a) world = record world {
    effects = add_ref a world.effects;
    held = credit a world.held;
  }
  step (queries a out_given known forwarded) world = record world {
    effects =
        on_object (at_address a world.effects.registry)
          (λ w s.
            let (answer, after) = query_interface w out_given known forwarded s in
            (answer.0, after))
          world.effects;
    held = if out_given && known then credit a world.held else world.held;
  }
  step (releases a now) world = record world {
    effects = release_effect env now a world.effects;
    held = debit a world.held;
  }
  step (finds real identity) world =
      let (found, effects) = find_and_add_ref real identity world.effects in
      record world { effects = effects; held = credit_found found world.held }
  step (starts a hr iterations flags) world = record world {
    effects =
        on_object (at_address a world.effects.registry)
          (λ w. start_effect env w hr iterations flags) world.effects;
  }
  step (stops a hr) world = record world {
    effects =
        on_object (at_address a world.effects.registry) (λ w. stop_effect env w hr) world.effects;
  }
  step (downloads a hr) world = record world {
    effects =
        on_object (at_address a world.effects.registry) (λ w. download_effect env w hr)
          world.effects;
  }
  step (unloads a hr) world = record world {
    effects =
        on_object (at_address a world.effects.registry) (λ w. unload_effect env w hr) world.effects;
  }
  step (sets a hr parameters flags) world = record world {
    effects =
        on_object (at_address a world.effects.registry)
          (λ w. set_parameters env w hr parameters flags) world.effects;
  }

  unfoldable pub run : List Call → World → World
  unfolding step
  run [] world = world
  run (call ∷ calls) world = run calls (step call world)

  -- What COM and the allocator give: an object is created where there is none, around a real
  -- effect; a client calls the objects to which it has a reference; and arguments fit their types.
  abbrev pub Allowed : Call → World → Type 0
  Allowed (creates address real found identity device_id effect_id guid) world =
      (at_address address world.effects.registry ≡ none)
      × (0 < real)
      × IsU32 device_id
      × IsU32 effect_id
      × (length guid ≡ 16)
  Allowed (adds_ref a) world = 0 < world.held a
  Allowed (queries a out_given known forwarded) world = 0 < world.held a
  Allowed (releases a now) world = (0 < world.held a) × IsU64 now
  Allowed (finds real identity) world = Unit {0}
  Allowed (starts a hr iterations flags) world =
      (0 < world.held a) × IsI32 hr × IsU32 iterations × IsU32 flags
  Allowed (stops a hr) world = (0 < world.held a) × IsI32 hr
  Allowed (downloads a hr) world = (0 < world.held a) × IsI32 hr
  Allowed (unloads a hr) world = (0 < world.held a) × IsI32 hr
  Allowed (sets a hr parameters flags) world =
      (0 < world.held a) × IsI32 hr × IsPointer parameters × IsU32 flags

  abbrev pub Legal : List Call → World → Type 0
  unfolding step
  Legal [] world = Unit {0}
  Legal (call ∷ calls) world = Allowed call world × Legal calls (step call world)
