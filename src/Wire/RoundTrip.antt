-- ===== src/Wire/RoundTrip.antt =====
-- serialize_event against valid_frame and against the reader of protocol-v1 frames.
use ffb_interceptor_visualiz.Common.{
  ℕ, ◌+◌, ◌%◌, ◌^◌, ◌≤◌, ◌<◌, ◌≡◌, refl, sym, ap, ◌∙◌, subst, true, some, List, [], append-nil,
  arith, ==_iff, length, IsU32,
}
use mathlib.Core.Path.{ap₂}
use ffb_interceptor_visualiz.Wire.Model.{
  Event, blank, IsEvent, MessageType, hello, device_created, device_property_changed,
  effect_created, effect_parameters_changed, effect_command, device_command, drop_notice,
  message_code, EffectParameterPresence, absent, present, protocol_version,
}
use ffb_interceptor_visualiz.Wire.Writer.{Writer, ◌>>◌, put_u16, put_u32, put_u64, insert_end}
use ffb_interceptor_visualiz.Wire.Frame.{
  put_identity, put_parameters, put_forces, put_arrays, put_strings, payload, wire_flags, magic,
  serialize_event, valid_frame,
}
use ffb_interceptor_visualiz.Wire.Flags.{cleared, and-presence_mask, or-absent, or-present}
use ffb_interceptor_visualiz.Wire.Reader.{
  ◌>>=◌, type_of, get_type, presence_of, read_header, read_identity, read_parameters, read_forces,
  read_arrays, read_strings, read_frame, at_end, decode,
}
use ffb_interceptor_visualiz.Wire.Size.{length-payload, length-serialize_event, length-c_string-le}
use ffb_interceptor_visualiz.Wire.Agree.{
  Agree, Agree-bind, Agree-map, Agree-u16, Agree-u32, Agree-u64, Agree-exact,
}
use ffb_interceptor_visualiz.Wire.Groups.{
  Agree-require, Agree-lift, c_string, identity-Agree, parameters-Agree, forces-Agree, arrays-Agree,
  strings-Agree,
}

-- The presence that a frame of this type shows.
abbrev pub shown_presence : MessageType → EffectParameterPresence → EffectParameterPresence
shown_presence effect_created p = p
shown_presence other p = EffectParameterPresence.unknown

-- The flags of a frame of this type: those of the event, but in an EffectCreated frame bit 27 is
-- set for absent parameters, bit 28 for present ones, and both are reset otherwise.
abbrev pub shown_flags : MessageType → EffectParameterPresence → ℕ → ℕ
shown_flags effect_created absent f = cleared f + 2 ^ 27
shown_flags effect_created present f = cleared f + 2 ^ 28
shown_flags effect_created EffectParameterPresence.unknown f = cleared f
shown_flags other p f = f

-- The event as the frame shows it: with the flags of the header, the parameter presence of
-- EffectCreated only, and the text up to its NUL.
abbrev pub on_wire : Event → Event
on_wire e = record e {
  flags = shown_flags e.type e.effect_parameter_presence e.flags;
  effect_parameter_presence = shown_presence e.type e.effect_parameter_presence;
  text = c_string e.text;
}

type_of_code : (t : MessageType) → type_of (message_code t) ≡ some t
unfolding message_code type_of
type_of_code hello = refl
type_of_code device_created = refl
type_of_code device_property_changed = refl
type_of_code effect_created = refl
type_of_code effect_parameters_changed = refl
type_of_code effect_command = refl
type_of_code device_command = refl
type_of_code drop_notice = refl

message_code-le : (t : MessageType) → message_code t ≤ 8
unfolding message_code
message_code-le t = ground arith

type-Agree : (t : MessageType) → Agree (put_u16 (message_code t)) get_type t
unfolding get_type
type-Agree t =
    Agree-lift _ (type_of_code t) (Agree-u16 (message_code t) (omega (arith, message_code-le t)))

wire_flags-shown :
    (t : MessageType) (p : EffectParameterPresence) (e : Event)
    → IsU32 e.flags
    → wire_flags (record e { type = t; effect_parameter_presence = p }) ≡ shown_flags t p e.flags
unfolding wire_flags
wire_flags-shown effect_created absent e h =
    ground (arith, and-presence_mask e.flags h, or-absent e.flags h)
wire_flags-shown effect_created present e h =
    ground (arith, and-presence_mask e.flags h, or-present e.flags h)
wire_flags-shown effect_created EffectParameterPresence.unknown e h = and-presence_mask e.flags h
wire_flags-shown t p e h = refl

wire_flags-lt : (e : Event) → IsU32 e.flags → IsU32 (wire_flags e)
unfolding wire_flags
wire_flags-lt e h =
    ground (arith, and-presence_mask e.flags h, or-absent e.flags h, or-present e.flags h)

presence_of-wire_flags :
    (t : MessageType) (e : Event)
    → IsU32 e.flags
    → presence_of t (wire_flags (record e { type = t }))
      ≡ shown_presence t e.effect_parameter_presence
unfolding wire_flags presence_of
presence_of-wire_flags effect_created e h =
    ground (arith, and-presence_mask e.flags h, or-absent e.flags h, or-present e.flags h)
presence_of-wire_flags t e h = refl

abbrev header : Event → ℕ → Writer
header e size = do
  insert_end magic
  put_u16 protocol_version
  put_u16 (message_code e.type)
  put_u32 (size % 2 ^ 32)
  put_u32 (wire_flags e)
  put_u64 e.sequence
  put_u64 e.qpc_ticks

header-Agree :
    (e : Event) (v : IsEvent e) (size : ℕ)
    → size < 2 ^ 32
    → Agree (header e size) (read_header size blank) (record blank {
      type = e.type;
      flags = wire_flags e;
      sequence = e.sequence;
      qpc_ticks = e.qpc_ticks;
      effect_parameter_presence = shown_presence e.type e.effect_parameter_presence;
    })
unfolding read_header
header-Agree e v size h =
    subst
      (λ (p : EffectParameterPresence).
        Agree (header e size) (read_header size blank) (record blank {
          type = e.type;
          flags = wire_flags e;
          sequence = e.sequence;
          qpc_ticks = e.qpc_ticks;
          effect_parameter_presence = p;
        }))
      (presence_of-wire_flags e.type e v.flags_fits)
      (Agree-bind _ (Agree-exact 4 magic refl) (
        Agree-require refl (
          Agree-bind _ (Agree-u16 protocol_version (omega arith)) (
            Agree-require refl (
              Agree-bind _ (type-Agree e.type) (
                Agree-bind _ (Agree-u32 (size % 2 ^ 32) (omega arith)) (
                  Agree-require ((==_iff _ _).1 (omega arith)) (
                    Agree-bind _ (Agree-u32 (wire_flags e) (wire_flags-lt e v.flags_fits)) (
                      Agree-bind _ (Agree-u64 e.sequence v.sequence_fits)
                        (Agree-map _ (Agree-u64 e.qpc_ticks v.qpc_ticks_fits)))))))))))

abbrev body : Event → Writer
body e = do put_identity e; put_parameters e; put_forces e; put_arrays e; put_strings e

body-Agree :
    (e : Event) (v : IsEvent e) (d : Event)
    → Agree
        (body e)
        (read_identity d >>= λ d2. read_parameters d2 >>= λ d3.
          read_forces d3 >>= λ d4. read_arrays d4 >>= λ d5. read_strings d5)
        (record e {
          type = d.type;
          flags = d.flags;
          sequence = d.sequence;
          qpc_ticks = d.qpc_ticks;
          effect_parameter_presence = d.effect_parameter_presence;
          text = c_string e.text;
        })
body-Agree e v d = Agree-bind _ (identity-Agree e v d) (
    Agree-bind _ (parameters-Agree e v _)
      (Agree-bind _ (forces-Agree e v _) (Agree-bind _ (arrays-Agree e v _) (strings-Agree e v _))))

frame_size : Event → ℕ
frame_size e = 32 + length (payload e)

frame_size-bounds : (e : Event) → IsEvent e → (494 ≤ frame_size e) × (frame_size e ≤ 557)
unfolding frame_size
frame_size-bounds e v = omega (arith, length-payload e v, length-c_string-le e.text)

written_frame-Agree :
    (e : Event) (v : IsEvent e)
    → Agree
        (header e (frame_size e) >> body e)
        (read_frame (frame_size e))
        (record (on_wire e) { flags = wire_flags e })
written_frame-Agree e v =
    Agree-bind _ (header-Agree e v (frame_size e) (omega (arith, frame_size-bounds e v)))
      (body-Agree e v _)

frame-Agree :
    (e : Event) (v : IsEvent e)
    → Agree (header e (frame_size e) >> body e) (read_frame (frame_size e)) (on_wire e)
frame-Agree e v =
    subst
      (λ (f : ℕ).
        Agree (header e (frame_size e) >> body e) (read_frame (frame_size e))
          (record (on_wire e) { flags = f }))
      (wire_flags-shown e.type e.effect_parameter_presence e v.flags_fits) (written_frame-Agree e v)

serialize_event-frame :
    (e : Event) → IsEvent e → serialize_event e ≡ (header e (frame_size e) >> body e) []
unfolding serialize_event payload frame_size
serialize_event-frame e v =
    sym ((body-Agree e v blank).appends (header e (32 + length (body e [])) []))

-- Every event whose fields have the sizes and ranges of their C++ types is serialised to a frame
-- from which a reader of protocol v1 takes back all of them, to the last byte: as given, but for
-- the flags, where bits 27 and 28 of EffectCreated show the presence of its parameters, and for the
-- text, which ends before its NUL or after 63 bytes.
pub decode-serialize_event : (e : Event) → IsEvent e → decode (serialize_event e) ≡ some (on_wire e)
unfolding decode frame_size
decode-serialize_event e v =
    let frame = (header e (frame_size e) >> body e) [] in
    let taken : read_frame (frame_size e) frame ≡ some (on_wire e, []) =
      rw append-nil at ((frame-Agree e v).reads []) in
    ap₂ (λ (n : ℕ) (f : List ℕ). at_end (read_frame n f)) (length-serialize_event e)
      (serialize_event-frame e v)
    ∙ ap at_end taken

-- Every event whose fields have the sizes and ranges of their C++ types is serialised to a frame
-- that valid_frame accepts, of 494 to 557 bytes.
pub valid_frame-serialize_event :
    (e : Event)
    → IsEvent e
    → (valid_frame (serialize_event e) ≡ true)
      × (494 ≤ length (serialize_event e))
      × (length (serialize_event e) ≤ 557)
unfolding valid_frame serialize_event put_u16 put_u32 put_u64 frame_size
valid_frame-serialize_event e v = (
  ground (arith, frame_size-bounds e v),
  omega (arith, frame_size-bounds e v),
  omega (arith, frame_size-bounds e v),
)
