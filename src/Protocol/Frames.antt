-- ===== src/Protocol/Frames.antt =====
-- What is read back from the text of a frame.
use k8s_runpod_kubelet.Base.{
  false, String, Option, some, ◌≡◌, ◌≢◌, refl, sym, ap, ◌∙◌, eq_false, ok,
}
use k8s_runpod_kubelet.Protocol.Json.{Json}
use k8s_runpod_kubelet.Protocol.Slots.{member-fields_of}
use k8s_runpod_kubelet.Protocol.Messages.{Envelope}
use k8s_runpod_kubelet.Protocol.Decode.{read_command, decode_payload}
use k8s_runpod_kubelet.Protocol.Encode.{new_command, write_command}
use k8s_runpod_kubelet.Protocol.RoundTrip.{text_back}
use k8s_runpod_kubelet.Protocol.Wire.{
  TimePackage, Stamped, rfc3339_nano, write_timestamp, first_parsed, read_timestamp, write_envelope,
  read_envelope, parse_envelope, parsed, typed,
}

-- The time stamp is one that the package time writes and reads back.
pub record IsWritable {Time : Type 0} (clock : TimePackage Time) (t : Time) : Type 0 where
  pub is_set : clock.is_zero_time t ≡ false
  pub written : clock.format t ≢ ""
  pub read_back : clock.parse rfc3339_nano (clock.format t) ≡ some t

module _ {Time : Type 0} (clock : TimePackage Time) where
  read-write_timestamp :
      (now t : Time)
      → IsWritable clock t
      → read_timestamp clock (write_timestamp clock now t) ≡ some t
  unfolding read_timestamp write_timestamp first_parsed
  read-write_timestamp now t v =
      simp (v.is_set, eq_false (clock.format t) "" v.written, v.read_back)

  abbrev with_payload : Stamped Time → Option Json → Option (Stamped Time)
  with_payload s o = some (record s { envelope = record e { payload = o } })
    where
      e : Envelope
      e = s.envelope

  read-write_envelope :
      (now : Time) (s : Stamped Time) (j : Json)
      → s.envelope.payload ≡ some j
      → IsWritable clock s.timestamp
      → read_envelope clock (write_envelope clock now s) ≡ some s
  unfolding read_envelope write_envelope
  read-write_envelope now s j p v =
      simp (member-fields_of, text_back, p, read-write_timestamp now s.timestamp v)
        (ap (with_payload s) (sym p))

  -- ParseEnvelope gives back the envelope that ToJSON was given, if it has a type and a payload, its
  -- time stamp is set and is one that the package time writes and reads back, and encoding/json
  -- reads the text that it wrote as the value that was written.
  pub parse_envelope-write_envelope :
      (parse_json : String → Option Json) (print_json : Json → String) (now : Time)
      (s : Stamped Time) (j : Json)
      → s.envelope.payload ≡ some j
      → s.envelope.type ≢ ""
      → IsWritable clock s.timestamp
      → parse_json (print_json (write_envelope clock now s)) ≡ some (write_envelope clock now s)
      → parse_envelope clock parse_json (print_json (write_envelope clock now s)) ≡ ok s
  unfolding parse_envelope parsed
  parse_envelope-write_envelope parse_json print_json now s j p n v back =
      ap (parsed clock) back
      ∙ ap (typed clock) (read-write_envelope now s j p v)
      ∙ rw (eq_false s.envelope.type "" n) refl

-- The payload of a command envelope is read as the command that was written into it.
pub decode_payload-write_command :
    (type : String) (data_json : Json) (e : Envelope)
    → e.payload ≡ some (write_command (new_command type data_json))
    → decode_payload read_command e ≡ ok (new_command type data_json)
unfolding decode_payload read_command write_command new_command
decode_payload-write_command type data_json e p = rw p refl
