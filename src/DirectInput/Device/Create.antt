-- ===== src/DirectInput/Device/Create.antt =====
-- CreateEffect of src/wrapper_device8.cpp.
mod Runs
use ffb_interceptor_visualiz.Common.{
  ℕ, zero, suc, ◌+◌, ◌%◌, ◌^◌, ◌<◌, ◌≢◌, ◌≡◌, sym, ap, ◌∙◌, Bool, ◌&&◌, ◌||◌, not, List, [], ◌∷◌,
  Option, none, some, ◌==◌, ==_iff, if◌then◌else◌, ℤ, pos, negsuc, to_i32, ◌⊎◌, ◌↔◌,
}
use ffb_interceptor_visualiz.Wire.Model.{Event}
use ffb_interceptor_visualiz.Wire.Effect.{EffectPointer}
use ffb_interceptor_visualiz.DirectInput.Effect.{
  Environment, Effects, WrapperEffect, construct, first_match, at_address, e_pointer, increment,
}
use ffb_interceptor_visualiz.DirectInput.Device.{succeeded, created_event}

-- DIERR_NOTINITIALIZED
abbrev pub dierr_notinitialized : ℤ
dierr_notinitialized = to_i32 0x80070015

-- The effects and Telemetry's counter of their numbers.
pub record Created : Type 0 where
  pub effects : Effects
  pub next_effect : ℕ

-- A call: what it is given, what the real device answers (`real` is 0 for a null pointer), what
-- `new` gives (`none` if memory is short), and what the query for IUnknown gives.
pub record Request : Type 0 where
  pub out_given : Bool
  pub guid : List ℕ
  pub parameters : EffectPointer
  pub outer_given : Bool
  pub hr : ℤ
  pub real : ℕ
  pub allocated : Option ℕ
  pub found : Bool
  pub identity : ℕ

-- The result and the pointer that is stored.
pub record Answer : Type 0 where
  pub hr : ℤ
  pub out : ℕ

abbrev pub tell : Event → Effects → Effects
tell event s = record s { emitted = event ∷ s.emitted }

unfoldable pub wrap : Environment → ℕ → Request → Option ℕ → ℕ → Created → Answer × Created
wrap env device_id request none effect_id s = (
  record { hr = request.hr; out = request.real },
  record {
    effects =
        tell (created_event env device_id effect_id request.guid request.parameters request.hr)
          s.effects;
    next_effect = effect_id;
  },
)
wrap env device_id request (some address) effect_id s = (
  record { hr = request.hr; out = address },
  record {
    effects =
        tell (created_event env device_id effect_id request.guid request.parameters request.hr) (
          construct address request.real request.found request.identity device_id effect_id
            request.guid s.effects);
    next_effect = effect_id;
  },
)

-- `m_real` is the device's real interface, 0 if it is null.
unfoldable pub create_effect :
    Environment → (m_real device_id : ℕ) → Request → Created → Answer × Created
unfolding wrap increment
create_effect env m_real device_id request s =
    if not request.out_given
    then (record { hr = e_pointer; out = 0 }, s)
    else if m_real == 0
    then (record { hr = dierr_notinitialized; out = 0 }, s)
    else if not (succeeded request.hr) || request.real == 0 || request.outer_given
    then (
      record { hr = request.hr; out = request.real },
      record s {
        effects =
            tell (created_event env device_id 0 request.guid request.parameters request.hr)
              s.effects;
      },
    )
    else wrap env device_id request request.allocated (increment s.next_effect) s

-- What the call that reaches the real device leaves.
pub record IsTransparent (env : Environment) (device_id : ℕ) (request : Request) (s : Created)
    (answer : Answer) (t : Created) : Type 0 where
  pub result : answer.hr ≡ request.hr
  pub null_kept : (answer.out ≡ 0) ↔ (request.real ≡ 0)
  pub told :
      (effect_id : ℕ) × (t.effects.emitted
        ≡ created_event env device_id effect_id request.guid request.parameters request.hr
          ∷ s.effects.emitted)
  pub shown :
      (answer.out ≡ request.real)
      ⊎ ((w : WrapperEffect) × (first_match request.real request.identity t.effects.registry
            ≡ some w)
          × (w.address ≡ answer.out))

-- `new` does not give a null pointer.
abbrev pub IsAddress : Option ℕ → Type 0
IsAddress none = Unit {0}
IsAddress (some address) = 0 < address
