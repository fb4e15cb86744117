-- ===== src/Wire/Runs.antt =====
-- Concrete frames, and the theorems about frames at concrete events.
use ffb_interceptor_visualiz.Common.{
  ℕ, ◌≤◌, ◌≡◌, refl, List, [], ◌++◌, drop, ◌+◌, some, ◌∷◌, negsuc, replicate, arith, length, true,
}
use ffb_interceptor_visualiz.Wire.Model.{Event, blank, IsEvent, effect_created, constant, present}
use ffb_interceptor_visualiz.Wire.Frame.{serialize_event, valid_frame}
use ffb_interceptor_visualiz.Wire.Text.{copy_utf8_truncated, copy_text, truncated_length, back_up}
use ffb_interceptor_visualiz.Wire.Truncation.{Point, bytes, fitting}
use ffb_interceptor_visualiz.Wire.Copy.{
  Terminated, copy_utf8_truncated-bytes, copy_utf8_truncated-Terminated,
}
use ffb_interceptor_visualiz.Wire.Reader.{decode}
use ffb_interceptor_visualiz.Wire.RoundTrip.{
  on_wire, decode-serialize_event, valid_frame-serialize_event,
}

-- A constant force of -5000 on two axes, with a text of two bytes.
abbrev created_event : Event
created_event = record blank {
  type = effect_created;
  effect_kind = constant;
  effect_parameter_presence = present;
  flags = 0x0800000d;
  sequence = 7;
  magnitude = negsuc 4999;
  axis_count = 2;
  text = 111 ∷ 107 ∷ replicate 62 0;
}

created_event-IsEvent : IsEvent created_event
created_event-IsEvent = omega arith

decode-serialize_event_example :
    decode (serialize_event created_event) ≡ some (on_wire created_event)
decode-serialize_event_example = decode-serialize_event created_event created_event-IsEvent

valid_frame-serialize_event_example :
    (valid_frame (serialize_event created_event) ≡ true)
    × (494 ≤ length (serialize_event created_event))
    × (length (serialize_event created_event) ≤ 557)
valid_frame-serialize_event_example =
    valid_frame-serialize_event created_event created_event-IsEvent

-- a, the euro sign (of three bytes) and b, for a buffer of four characters
abbrev points : List Point
points =
    record { lead = 97; tail = [] }
    ∷ record { lead = 226; tail = 130 ∷ 172 ∷ [] }
    ∷ record { lead = 98; tail = [] }
    ∷ []

abbrev buffer_rest : List ℕ
buffer_rest = 1 ∷ 2 ∷ 3 ∷ []

euro_left_out :
    copy_utf8_truncated (some (0 ∷ buffer_rest)) (some (97 ∷ 226 ∷ 130 ∷ 172 ∷ 98 ∷ []))
    ≡ (some (97 ∷ 0 ∷ 2 ∷ 3 ∷ []), 1)
unfolding copy_utf8_truncated copy_text truncated_length back_up
euro_left_out = refl

copy_utf8_truncated-bytes_example :
    copy_utf8_truncated (some (0 ∷ buffer_rest)) (some (bytes points)) ≡ (
      some (
          bytes (fitting 3 points)
          ++ 0 ∷ drop (length (bytes (fitting 3 points)) + 1) (0 ∷ buffer_rest)),
      length (bytes (fitting 3 points)),
    )
copy_utf8_truncated-bytes_example =
    copy_utf8_truncated-bytes 0 buffer_rest points
      ((refl, _), ((refl, (refl, (refl, _))), ((refl, _), _)))

copy_utf8_truncated-Terminated_example :
    Terminated 4
      (copy_utf8_truncated (some (0 ∷ buffer_rest)) (some (130 ∷ 130 ∷ 130 ∷ 130 ∷ 130 ∷ [])))
copy_utf8_truncated-Terminated_example =
    copy_utf8_truncated-Terminated 0 buffer_rest (some (130 ∷ 130 ∷ 130 ∷ 130 ∷ 130 ∷ []))
