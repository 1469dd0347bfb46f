-- ===== src/Protocol/Replies.antt =====
-- pkg/websocket/protocol.go: what the JSON tags of Response read back from a response that was
-- written, and from its frame.
use k8s_runpod_kubelet.Base.{String, Option, none, some, ◌≡◌, ◌≢◌, refl, ok}
use k8s_runpod_kubelet.Kubernetes.{Pod}
use k8s_runpod_kubelet.Protocol.Json.{
  Json, null, obj, Fields, ◌>>=◌, member, struct, pointer_into, string_into,
}
use k8s_runpod_kubelet.Protocol.Slots.{fields_of, member-fields_of}
use k8s_runpod_kubelet.Protocol.Messages.{Envelope, ErrorDetails, Response}
use k8s_runpod_kubelet.Protocol.Decode.{decode_payload}
use k8s_runpod_kubelet.Protocol.RoundTrip.{text_back}
use k8s_runpod_kubelet.Protocol.Events.{Frame}
use k8s_runpod_kubelet.Protocol.Wire.{TimePackage, parse_envelope, new_envelope_with_id}
use k8s_runpod_kubelet.Protocol.Frames.{IsWritable, parse_envelope-write_envelope}
use k8s_runpod_kubelet.Protocol.Payloads.{
  write_error, write_data, status_text, response_slots, write_response, envelope_of, write_frame,
}

-- A Response as it is read: any text as its status, and the value in its interface{}, where `null`
-- is nil.
pub record Received : Type 0 where
  pub command_id : String
  pub status : String
  pub body : Json
  pub error : Option ErrorDetails

abbrev any_into : Json → Json → Option Json
any_into old j = some j

abbrev no_error : ErrorDetails
no_error = record { code = ""; message = ""; provider_error = "" }

error_fields : ErrorDetails → Fields → Option ErrorDetails
unfolding member string_into
error_fields old fs = do
  code ← member string_into "code" old.code fs
  message ← member string_into "message" old.message fs
  provider_error ← member string_into "provider_error" old.provider_error fs
  some (record { code = code; message = message; provider_error = provider_error })

response_fields : Fields → Option Received
unfolding member string_into error_fields
response_fields fs = do
  command_id ← member string_into "command_id" "" fs
  status ← member string_into "status" "" fs
  body ← member any_into "data" null fs
  error ← member (pointer_into no_error error_fields) "error" none fs
  some (record { command_id = command_id; status = status; body = body; error = error })

unfoldable pub read_response : Json → Option Received
unfolding response_fields
read_response =
    struct (record { command_id = ""; status = ""; body = null; error = none }) response_fields

-- What is read of a response that was written.
abbrev pub as_read : Response → Received
as_read r = record {
  command_id = r.command_id;
  status = status_text r.status;
  body = write_data r.body;
  error = r.error;
}

error_back :
    (o : Option ErrorDetails) → pointer_into no_error error_fields none (write_error o) ≡ some o
unfolding error_fields
error_back none = refl
error_back (some e) = simp (member-fields_of, text_back)

pub read-write_response : (r : Response) → read_response (write_response r) ≡ some (as_read r)
unfolding read_response response_fields write_response string_into
read-write_response r = simp (member-fields_of, error_back)

module _ {Time : Type 0} (clock : TimePackage Time) (write_pod : Pod → Json) (now : Time)
    (id : String) where
  -- The text of a frame that goes out is parsed as the envelope that was made for it.
  pub parse_envelope-write_frame :
      (parse_json : String → Option Json) (print_json : Json → String) (f : Frame)
      → f.type ≢ ""
      → IsWritable clock now
      → parse_json (print_json (write_frame write_pod clock now id f))
        ≡ some (write_frame write_pod clock now id f)
      → parse_envelope clock parse_json (print_json (write_frame write_pod clock now id f))
        ≡ ok (envelope_of write_pod clock now id f)
  unfolding write_frame envelope_of new_envelope_with_id
  parse_envelope-write_frame parse_json print_json f n t back =
      parse_envelope-write_envelope clock parse_json print_json now
        (envelope_of write_pod clock now id f) _ refl n t back

decode_payload_back {ℓ} :
    {A : Type ℓ} (read : Json → Option A) (fs : Fields) (a : A) (e : Envelope)
    → e.payload ≡ some (obj fs)
    → read (obj fs) ≡ some a
    → decode_payload read e ≡ ok a
unfolding decode_payload
decode_payload_back read fs a e p h = rw (p, h) refl

-- The payload of the envelope of a response is read as the response.
pub decode_payload-write_response :
    (r : Response) (e : Envelope)
    → e.payload ≡ some (write_response r)
    → decode_payload read_response e ≡ ok (as_read r)
unfolding write_response
decode_payload-write_response r e p =
    decode_payload_back read_response (fields_of (response_slots r)) (as_read r) e p
      (read-write_response r)
