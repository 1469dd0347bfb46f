-- ===== src/WsClient/Reader.antt =====
-- pkg/websocket/client.go: messageReader, from the text of a message on.
use k8s_runpod_kubelet.Base.{
  String, [], ◌∷◌, ◌++◌, Option, some, length, ltb, ◌<◌, ◌≡◌, refl, ap, ◌∙◌, Result, ok, err, arith,
  differ, true,
}
use k8s_runpod_kubelet.Protocol.Json.{Json}
use k8s_runpod_kubelet.Protocol.Messages.{
  Envelope, Command, DeployParams, envelope_command, command_deploy,
}
use k8s_runpod_kubelet.Protocol.Decode.{
  read_command, read_deploy_params, decode_payload, decode_data,
}
use k8s_runpod_kubelet.Protocol.Encode.{new_command, write_command, write_deploy_params}
use k8s_runpod_kubelet.Protocol.RoundTrip.{IsSendable, deploy_params_back, decoded_back}
use k8s_runpod_kubelet.Protocol.Wire.{
  TimePackage, Stamped, new_envelope_with_id, write_envelope, parse_envelope,
}
use k8s_runpod_kubelet.Protocol.Frames.{
  IsWritable, parse_envelope-write_envelope, decode_payload-write_command,
}
use k8s_runpod_kubelet.WsClient.Link.{Link, handle_incoming_message}

module _ {Time : Type 0} (clock : TimePackage Time) where
  -- A frame that does not parse is only logged.
  abbrev pub take_parsed : Link → Result (Stamped Time) → Link
  take_parsed l (err e) = l
  take_parsed l (ok s) = handle_incoming_message l s.envelope

  -- the body of messageReader's loop, behind a successful ReadMessage
  unfoldable pub read_message : (String → Option Json) → Link → String → Link
  unfolding parse_envelope
  read_message parse_json l text = take_parsed l (parse_envelope clock parse_json text)

  -- The envelope of a deploy command as the platform sends it.
  abbrev pub deploy_envelope : (id : String) → DeployParams → Time → Stamped Time
  deploy_envelope id p now =
      new_envelope_with_id clock id envelope_command
        (write_command (new_command command_deploy (write_deploy_params p))) "" now

  -- A deploy command that comes in as a text, while the command channel has room, is put behind the
  -- commands that are there, and is decoded to the type and the parameters that were sent; nothing
  -- else of the client changes.
  pub read_message-deploy :
      (parse_json : String → Option Json) (print_json : Json → String) (id : String)
      (p : DeployParams) (now : Time) (l : Link)
      → IsSendable p
      → IsWritable clock now
      → length l.commands < 100
      → parse_json (print_json (write_envelope clock now (deploy_envelope id p now)))
        ≡ some (write_envelope clock now (deploy_envelope id p now))
      → (e : Envelope) × (cmd : Command) × (read_message parse_json l
            (print_json (write_envelope clock now (deploy_envelope id p now)))
          ≡ record l { commands = l.commands ++ e ∷ [] })
        × (e.id ≡ id)
        × (decode_payload read_command e ≡ ok cmd)
        × (cmd.type ≡ command_deploy)
        × (decode_data read_deploy_params cmd ≡ ok p)
  unfolding read_message new_envelope_with_id handle_incoming_message new_command
      write_deploy_params
  read_message-deploy parse_json print_json id p now l v t room back =
      let sent = deploy_envelope id p now in
      let below : ltb (length l.commands) 100 ≡ true = ground (arith, room) in
      (
        sent.envelope,
        new_command command_deploy (write_deploy_params p),
        ap (take_parsed l) (
              parse_envelope-write_envelope clock parse_json print_json now sent _ refl
                (differ envelope_command "" refl) t back)
            ∙ rw below refl,
        refl,
        decode_payload-write_command command_deploy _ sent.envelope refl,
        refl,
        decoded_back read_deploy_params command_deploy _ p (deploy_params_back p v),
      )
