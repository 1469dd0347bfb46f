-- ===== src/VirtualKubelet/Answered.antt =====
-- pkg/virtual_kubelet/kubelet.go: a round of processCommands, as the platform sees it, from the
-- envelope of a command in the channel to the text of the frame that answers it.
use k8s_runpod_kubelet.Base.{
  ◌<◌, true, String, List, [], ◌∷◌, ◌++◌, Option, none, some, length, ◌≡◌, ◌≢◌, ◌⊎◌, inl, inr, refl,
  ap, ok, differ,
}
use k8s_runpod_kubelet.Kubernetes.{Pod}
use k8s_runpod_kubelet.Protocol.Json.{Json, null}
use k8s_runpod_kubelet.Protocol.Messages.{
  Envelope, ErrorDetails, Response, ResponseData, unset, empty, deployed, terminated, reported,
  envelope_response,
}
use k8s_runpod_kubelet.Protocol.Events.{new_envelope}
use k8s_runpod_kubelet.Protocol.Decode.{decode_payload}
use k8s_runpod_kubelet.Protocol.Wire.{TimePackage, Stamped, parse_envelope, new_envelope_with_id}
use k8s_runpod_kubelet.Protocol.Frames.{IsWritable}
use k8s_runpod_kubelet.Protocol.Payloads.{
  write_data, status_text, write_payload, envelope_of, write_frame,
}
use k8s_runpod_kubelet.Protocol.Replies.{
  Received, as_read, read_response, parse_envelope-write_frame, decode_payload-write_response,
}
use k8s_runpod_kubelet.Providers.World.{World}
use k8s_runpod_kubelet.Command.Handler.{handle_command}
use k8s_runpod_kubelet.Command.Answers.{IsWellFormed, handle_command-IsWellFormed}
use k8s_runpod_kubelet.VirtualKubelet.State.{Kubelet}
use k8s_runpod_kubelet.VirtualKubelet.Commands.{handler, process_next}
use k8s_runpod_kubelet.VirtualKubelet.Draining.{frame_of, received, next_round}

-- Only the data that is unset is written as null.
write_data_set : (d : ResponseData) → d ≢ unset → write_data d ≢ null
unfolding write_data
write_data_set unset n q = n refl
write_data_set empty n q = cc
write_data_set (deployed r) n q = cc
write_data_set (terminated r) n q = cc
write_data_set (reported r) n q = cc

-- A response as it is read: of this command, and either a success with data and no error, or an error
-- with a code and no data.
abbrev pub Answers : String → Received → Type 0
Answers id x =
    (x.command_id ≡ id)
    × (((x.status ≡ "success") × (x.error ≡ none) × (x.body ≢ null))
        ⊎ ((d : ErrorDetails) × (x.status ≡ "error")
            × (x.body ≡ null)
            × (x.error ≡ some d)
            × (d.code ≢ "")))

as_read-Answers : (id : String) (r : Response) → IsWellFormed id r → Answers id (as_read r)
unfolding write_data
as_read-Answers id r (same, inl (s, e, b)) =
    (same, inl (ap status_text s, e, write_data_set r.body b))
as_read-Answers id r (same, inr (d, s, b, e, c)) =
    (same, inr (d, ap status_text s, ap write_data b, e, c))

module _ {Time : Type 0} (clock : TimePackage Time) (write_pod : Pod → Json) (now : Time)
    (id : String) (parse_json : String → Option Json) (print_json : Json → String) where
  -- Let a command be the next in the channel, while the client is connected and has room for a frame.
  -- Then a round of processCommands takes it and puts one frame behind those that are there. The text
  -- of this frame, as ToJSON prints it with any id, is parsed by ParseEnvelope as an envelope of the
  -- type response, and its payload is read by the tags of Response as the answer to this command:
  -- with its id, and either "success" with data and no error, or "error" with an error, whose code is
  -- not empty, and no data. The time stamp is to be one that the package time writes and reads back,
  -- and encoding/json is to read the text that it printed for the frame as the value that was printed.
  pub process_next-Answers :
      (w : World) (k : Kubelet) (e : Envelope) (rest : List Envelope)
      → k.ws_client.link.commands ≡ e ∷ rest
      → k.ws_client.link.connected ≡ true
      → length k.ws_client.link.outbound < 200
      → IsWritable clock now
      → let out = write_frame write_pod clock now id (frame_of w (received k rest) e) in
        parse_json (print_json out) ≡ some out
        → (s : Stamped Time) × (x : Received) × ((process_next w k).ws_client.link
            ≡ record k.ws_client.link {
              commands = rest;
              outbound = k.ws_client.link.outbound ++ frame_of w (received k rest) e ∷ [];
            })
          × (parse_envelope clock parse_json
                (print_json (write_frame write_pod clock now id (frame_of w (received k rest) e)))
              ≡ ok s)
          × (s.envelope.type ≡ envelope_response)
          × (decode_payload read_response s.envelope ≡ ok x)
          × Answers e.id x
  unfolding frame_of new_envelope envelope_of new_envelope_with_id write_payload
  process_next-Answers w k e rest q on room t back =
      let k1 = received k rest in
      let f = frame_of w k1 e in
      let r = (handle_command w (handler k1) e k1).1 in
      let s = envelope_of write_pod clock now id f in
      (
        s,
        as_read r,
        next_round w k e rest q on room,
        parse_envelope-write_frame clock write_pod now id parse_json print_json f
            (differ envelope_response "" refl) t back,
        refl,
        decode_payload-write_response r s.envelope refl,
        as_read-Answers e.id r (handle_command-IsWellFormed w (handler k1) e k1),
      )
