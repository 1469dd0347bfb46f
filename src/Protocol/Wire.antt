-- ===== src/Protocol/Wire.antt =====
-- pkg/websocket/protocol.go: Timestamp, NewEnvelopeWithID, ToJSON and ParseEnvelope. The packages time
-- and encoding/json are parameters.
use k8s_runpod_kubelet.Base.{
  Bool, String, List, [], ◌∷◌, Option, none, some, ◌==◌, if◌then◌else◌, Result, ok, err, plain,
}
use k8s_runpod_kubelet.Protocol.Json.{
  Json, null, str, obj, Fields, ◌>>=◌, member, struct, string_into, raw_into,
}
use k8s_runpod_kubelet.Protocol.Slots.{Slots, fields_of, text_slot}
use k8s_runpod_kubelet.Protocol.Messages.{Envelope}

-- What the package time offers for a time in UTC: `format` writes it by RFC3339Nano, and `parse`
-- reads a text by a layout, in UTC where the layout has no offset.
pub record TimePackage (Time : Type 0) : Type 0 where
  pub zero_time : Time
  pub is_zero_time : Time → Bool
  pub format : Time → String
  pub parse : (layout text : String) → Option Time

-- An envelope with its time stamp.
pub record Stamped (Time : Type 0) : Type 0 where
  pub envelope : Envelope
  pub timestamp : Time

abbrev pub rfc3339_nano : String
rfc3339_nano = "2006-01-02T15:04:05.999999999Z07:00"

-- The layouts in the order in which they are tried.
abbrev pub layouts : List String
layouts =
    rfc3339_nano ∷ "2006-01-02T15:04:05.999999999" ∷ "2006-01-02T15:04:05"
    ∷ "2006-01-02 15:04:05.999999999" ∷ "2006-01-02 15:04:05" ∷ []

module _ {Time : Type 0} (clock : TimePackage Time) where
  -- Timestamp.MarshalJSON
  unfoldable pub write_timestamp : (now t : Time) → Json
  write_timestamp now t = str (clock.format (if clock.is_zero_time t then now else t))

  abbrev pub or_parsed : Option Time → Option Time → Option Time
  or_parsed none next = next
  or_parsed (some t) next = some t

  unfoldable pub first_parsed : List String → String → Option Time
  first_parsed [] s = none
  first_parsed (layout ∷ rest) s = or_parsed (clock.parse layout s) (first_parsed rest s)

  -- Timestamp.UnmarshalJSON, which is called for `null` too; `none` is an error
  unfoldable pub read_timestamp : Json → Option Time
  unfolding first_parsed
  read_timestamp null = some clock.zero_time
  read_timestamp (str s) = if s == "" then some clock.zero_time else first_parsed layouts s
  read_timestamp _ = none

  abbrev timestamp_into : Time → Json → Option Time
  unfolding read_timestamp
  timestamp_into old j = read_timestamp j

  -- NewEnvelopeWithID, of the marshalled payload
  unfoldable pub new_envelope_with_id : (id type : String) → Json → String → Time → Stamped Time
  new_envelope_with_id id type payload kubelet_id now = record {
    envelope = record { id = id; type = type; payload = some payload; kubelet_id = kubelet_id };
    timestamp = now;
  }

  -- A json.RawMessage that is nil is written as null.
  abbrev pub raw_slot : Option Json → Option Json
  raw_slot none = some null
  raw_slot (some j) = some j

  abbrev pub envelope_slots : Time → Stamped Time → Slots
  envelope_slots now s =
      ("id", some (str s.envelope.id))
      ∷ ("type", some (str s.envelope.type))
      ∷ ("payload", raw_slot s.envelope.payload)
      ∷ ("timestamp", some (write_timestamp now s.timestamp))
      ∷ ("kubelet_id", text_slot s.envelope.kubelet_id)
      ∷ []

  -- Envelope.ToJSON, up to the printing of the value
  unfoldable pub write_envelope : Time → Stamped Time → Json
  write_envelope now s = obj (fields_of (envelope_slots now s))

  envelope_fields : Fields → Option (Stamped Time)
  unfolding member string_into raw_into timestamp_into
  envelope_fields fs = do
    id ← member string_into "id" "" fs
    type ← member string_into "type" "" fs
    payload ← member raw_into "payload" none fs
    timestamp ← member timestamp_into "timestamp" clock.zero_time fs
    kubelet_id ← member string_into "kubelet_id" "" fs
    some (record {
      envelope = record { id = id; type = type; payload = payload; kubelet_id = kubelet_id };
      timestamp = timestamp;
    })

  abbrev empty_envelope : Stamped Time
  empty_envelope = record {
    envelope = record { id = ""; type = ""; payload = none; kubelet_id = "" };
    timestamp = clock.zero_time;
  }

  unfoldable pub read_envelope : Json → Option (Stamped Time)
  unfolding envelope_fields
  read_envelope = struct empty_envelope envelope_fields

  -- The check behind json.Unmarshal; the text of its error is cut as in Protocol/Decode.
  abbrev pub typed : Option (Stamped Time) → Result (Stamped Time)
  typed none = err (plain "failed to parse envelope: ")
  typed (some s) = if s.envelope.type == "" then err (plain "envelope has no type") else ok s

  unfoldable pub parsed : Option Json → Result (Stamped Time)
  unfolding read_envelope
  parsed none = err (plain "failed to parse envelope: ")
  parsed (some j) = typed (read_envelope j)

  -- ParseEnvelope
  unfoldable pub parse_envelope : (String → Option Json) → String → Result (Stamped Time)
  unfolding parsed
  parse_envelope parse_json text = parsed (parse_json text)
