-- ===== src/DirectInput/CreateDevice.antt =====
-- WrapperDirectInput8::CreateDevice of src/wrapper_dinput8.cpp.
mod Runs
use ffb_interceptor_visualiz.Common.{
  ℕ, zero, suc, ◌+◌, ◌<◌, ◌≡◌, ◌≢◌, ◌↔◌, ◌⊎◌, inl, inr, refl, sym, ap, arith, Bool-cases, Bool,
  true, false, ◌&&◌, ◌||◌, not, List, [], ◌∷◌, Option, none, some, ◌==◌, if◌then◌else◌, ℤ, pos,
}
use ffb_interceptor_visualiz.Wire.Model.{Event, device_created, blank}
use ffb_interceptor_visualiz.Wire.Text.{copy_utf8_truncated}
use ffb_interceptor_visualiz.DirectInput.Effect.{e_pointer, increment}
use ffb_interceptor_visualiz.DirectInput.Device.{succeeded}
use ffb_interceptor_visualiz.DirectInput.Device.Create.{Answer, dierr_notinitialized}
use ffb_interceptor_visualiz.DirectInput.Publish.{
  State, Registry, Unicode, Attempt, is_valid, Published, publish_or_add_ref,
}

-- The registry, Telemetry's counter of device numbers, and the events handed to emit (newest
-- first).
pub record Devices : Type 0 where
  pub registry : Registry
  pub next_device : ℕ
  pub emitted : List Event

-- A call: what it is given, what the real object answers (`real` is 0 for a null pointer), what
-- product_name returns (`none` if it throws), and what the wrapper's constructor meets.
pub record Request : Type 0 where
  pub out_given : Bool
  pub guid : List ℕ
  pub outer_given : Bool
  pub hr : ℤ
  pub real : ℕ
  pub name : Option (List ℕ)
  pub attempt : Attempt

abbrev pub text_or_blank : Option (List ℕ) → List ℕ
text_or_blank none = blank.text
text_or_blank (some text) = text

abbrev pub or_cleared : Option (List ℕ) → List ℕ
or_cleared none = []
or_cleared (some name) = name

unfoldable pub device_event :
    (process_id device_id : ℕ) (guid : List ℕ) → ℤ → (name : List ℕ) → Event
device_event process_id device_id guid hr name = record blank {
  type = device_created;
  process_id = process_id;
  device_id = device_id;
  effect_guid = guid;
  hresult = hr;
  text = text_or_blank (copy_utf8_truncated (some blank.text) (some name)).0;
}

abbrev pub emit_device : Event → Devices → Devices
emit_device event s = record s { emitted = event ∷ s.emitted }

-- wrapped->valid(), by the state that the wrapper belongs to.
unfoldable pub wrapper_is_valid : (wrapper : ℕ) → List State → Bool
wrapper_is_valid wrapper [] = false
wrapper_is_valid wrapper (s ∷ ss) =
    let rest = wrapper_is_valid wrapper ss in
    if s.wrapper_a == wrapper || s.wrapper_w == wrapper then is_valid s else rest

-- Behind publish_or_add_ref.
unfoldable pub hand_out :
    (process_id device_id : ℕ) → Request → Published × Registry → Devices → Answer × Devices
unfolding wrapper_is_valid device_event
hand_out process_id device_id request (published, registry) s =
    if published.wrapper == 0 || not (wrapper_is_valid published.wrapper registry.states)
    then (record { hr = request.hr; out = request.real }, record s { registry = registry })
    else (
      record { hr = request.hr; out = published.wrapper },
      record s {
        registry = registry;
        emitted =
            if published.created
            then device_event process_id device_id request.guid request.hr (or_cleared request.name)
              ∷ s.emitted
            else s.emitted;
      },
    )

-- `m_real` is the wrapper's real interface, 0 if it is null.
unfoldable pub create_device :
    (process_id : ℕ) → Unicode → (m_real : ℕ) → Request → Devices → Answer × Devices
unfolding hand_out increment device_event
create_device process_id u m_real request s =
    if not request.out_given
    then (record { hr = e_pointer; out = 0 }, s)
    else if m_real == 0
    then (record { hr = dierr_notinitialized; out = 0 }, s)
    else if not (succeeded request.hr) || request.real == 0
    then (
      record { hr = request.hr; out = 0 },
      emit_device (device_event process_id 0 request.guid request.hr []) s,
    )
    else if request.outer_given
    then (
      record { hr = request.hr; out = request.real },
      emit_device (device_event process_id 0 request.guid request.hr []) s,
    )
    else hand_out process_id (increment s.next_device) request
        (publish_or_add_ref u request.real request.attempt s.registry)
        (record s { next_device = increment s.next_device })

-- The caller gets the real object's result, and a pointer exactly if there is one to get.
abbrev pub IsFailOpen : Request → Answer → Type 0
IsFailOpen request answer =
    (answer.hr ≡ request.hr)
    × ((answer.out ≡ 0) ↔ ((succeeded request.hr && not (request.real == 0)) ≡ false))

hand_out-IsFailOpen :
    (process_id device_id : ℕ) (request : Request) (p : Published × Registry) (s : Devices)
    → (not (succeeded request.hr) || request.real == 0) ≡ false
    → IsFailOpen request (hand_out process_id device_id request p s).0
unfolding hand_out
hand_out-IsFailOpen process_id device_id request (published, registry) s h = ground arith

-- Where CreateDevice reaches the real object, its result is that object's, and it stores a pointer
-- that is not null exactly if that object succeeds with one, whatever fails in the wrapper.
pub create_device-IsFailOpen :
    (process_id : ℕ) (u : Unicode) (m_real : ℕ) (request : Request) (s : Devices)
    → 0 < m_real
    → request.out_given ≡ true
    → IsFailOpen request (create_device process_id u m_real request s).0
unfolding create_device
create_device-IsFailOpen process_id u m_real request s h given =
    let device : (m_real == 0) ≡ false = ground arith in
    elim (Bool-cases (not (succeeded request.hr) || request.real == 0)) [
      | inl refused ↦
          simp (given, device, refused)
            (refl, refused_pointer (succeeded request.hr) (request.real == 0) refused)
      | inr accepted ↦ elim (Bool-cases request.outer_given) [
        | inl outer ↦
            simp (given, device, accepted, outer)
              (refl, real_pointer (succeeded request.hr) accepted)
        | inr plain ↦
            simp (given, device, accepted, plain)
              (hand_out-IsFailOpen process_id (increment s.next_device) request
                (publish_or_add_ref u request.real request.attempt s.registry)
                (record s { next_device = increment s.next_device }) accepted)
      ]
    ]
  where
    refused_pointer : (a b : Bool) → (not a || b) ≡ true → (zero ≡ zero) ↔ ((a && not b) ≡ false)
    refused_pointer a b e = ground arith

    real_pointer :
        (a : Bool)
        → (not a || request.real == 0) ≡ false
        → (request.real ≡ 0) ↔ ((a && not (request.real == 0)) ≡ false)
    real_pointer a e = ground arith
