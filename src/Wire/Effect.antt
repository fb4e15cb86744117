-- ===== src/Wire/Effect.antt =====
-- DIEFFECT as fill_effect_parameters of src/telemetry_protocol.cpp reads it, and the points where
-- that function can leave. A pointer is null, or leads to as many 32-bit words as can be read
-- there; a read behind them is the access violation that the __except block catches.
use ffb_interceptor_visualiz.Common.{
  ℕ, zero, suc, ◌+◌, Bool, List, Option, none, some, if◌then◌else◌, get_elem?,
}
use ffb_interceptor_visualiz.Wire.Model.{Event}

-- The words that can be read behind a pointer.
abbrev pub Words : Type 0
Words = List ℕ

-- DIEFFECT. `start_delay` is `none` where the structure ends before it.
pub record Effect : Type 0 where
  pub size : ℕ
  pub flags : ℕ
  pub duration : ℕ
  pub sample_period : ℕ
  pub gain : ℕ
  pub trigger_button : ℕ
  pub trigger_repeat_interval : ℕ
  pub axis_total : ℕ
  pub axes : Option Words
  pub directions : Option Words
  pub envelope : Option Words
  pub type_specific_total : ℕ
  pub type_specific : Option Words
  pub start_delay : Option ℕ

-- `absent` is a null pointer, and `unreadable` one behind which not even the size can be read.
pub data EffectPointer : Type 0 where
  absent unreadable : EffectPointer
  at : Effect → EffectPointer

-- sizeof(DIEFFECT_DX5) and sizeof(DIEFFECT)
pub record Sizes : Type 0 where
  pub dx5 : ℕ
  pub dx6 : ℕ

-- A point of the function: it goes on, has returned, or has faulted, with the event so far.
pub data Outcome : Type 0 where
  goes_on returned faulted : Event → Outcome

abbrev pub Fill : Type 0
Fill = Event → Outcome

abbrev pub and_then : Outcome → Fill → Outcome
and_then (goes_on e) f = f e
and_then (returned e) f = returned e
and_then (faulted e) f = faulted e

infixl 5 ◌>>◌
unfoldable pub ◌>>◌ : Fill → Fill → Fill
◌>>◌ f g e = and_then (f e) g

unfoldable pub skip : Fill
skip e = goes_on e

unfoldable pub assign : (Event → Event) → Fill
assign f e = goes_on (f e)

unfoldable pub when : Bool → Fill → Fill
when b f = if b then f else skip

-- Uses the word at an index, which may fault.
unfoldable pub with_word : Option ℕ → (ℕ → Fill) → Fill
with_word none f e = faulted e
with_word (some w) f e = f w e

-- Looks at the event so far.
unfoldable pub with_event : (Event → Fill) → Fill
with_event f e = f e e

-- Behind a pointer that is not null.
unfoldable pub through : Option Words → (Words → Fill) → Fill
through none f = skip
through (some words) f = f words

unfoldable pub load : Words → ℕ → (ℕ → Event → Event) → Fill
load words i f = with_word (get_elem? words i) (λ w. assign (f w))

-- The loop that fills the first `n` entries of an array.
unfoldable pub load_each : (ℕ → ℕ → Event → Event) → Words → ℕ → ℕ → Fill
load_each f words zero i = skip
load_each f words (suc n) i = do load words i (f i); load_each f words n (i + 1)
