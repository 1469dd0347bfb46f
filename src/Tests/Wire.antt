-- ===== src/Tests/Wire.antt =====
-- Commands and envelopes on their way: written, read and queued.
use k8s_runpod_kubelet.Base.{
  none, List, Option, ◌==◌, if◌then◌else◌, fill, true, false, String, [], ◌∷◌, ◌++◌, some, ok, ◌≡◌,
  refl, differ, arith, lookup,
}
use k8s_runpod_kubelet.Protocol.Json.{Json}
use k8s_runpod_kubelet.Protocol.Messages.{Envelope, Command, DeployParams, command_deploy}
use k8s_runpod_kubelet.Protocol.Decode.{
  read_command, read_deploy_params, read_terminate_params, read_status_params, read_reject_params,
  decode_payload, decode_data,
}
use k8s_runpod_kubelet.Protocol.Encode.{
  new_command, write_deploy_params, write_terminate_params, write_status_params,
  write_reject_params,
}
use k8s_runpod_kubelet.Protocol.RoundTrip.{IsSendable, decode_data-new_command}
use k8s_runpod_kubelet.Protocol.Wire.{TimePackage, Stamped, write_envelope, parse_envelope}
use k8s_runpod_kubelet.Protocol.Frames.{IsWritable, parse_envelope-write_envelope}
use k8s_runpod_kubelet.WsClient.Config.{default_client_config}
use k8s_runpod_kubelet.WsClient.Link.{Link, new_client, policy_violation, read_failed}
use k8s_runpod_kubelet.WsClient.Inbox.{
  fails, texts_read, commands_in, message_reader, message_reader-texts,
}
use k8s_runpod_kubelet.WsClient.Reader.{read_message, deploy_envelope, read_message-deploy}
use k8s_runpod_kubelet.Scenarios.{
  deploy_params, terminate_params, status_params, reject_params, envelope_of, data_of,
}

-- Times that are their own texts.
abbrev pub clock : TimePackage String
clock = record {
  zero_time = "";
  is_zero_time = λ t. false;
  format = λ t. t;
  parse = λ layout s. some s;
}

abbrev pub noon : String
noon = "2025-01-01T12:00:00Z"

pub noon-IsWritable : IsWritable clock noon
noon-IsWritable = record { is_set = refl; written = differ noon "" refl; read_back = refl }

abbrev sent_params : DeployParams
sent_params = record (deploy_params "runpod") { env = some (("A", "1") ∷ []) }

sent_params-IsSendable : IsSendable sent_params
unfolding lookup
sent_params-IsSendable = record {
  env = (refl, tt);
  disk = omega arith;
  volume = omega arith;
  gpus = omega arith;
  ram = omega arith;
}

decode_data-new_command_example :
    (decode_data read_deploy_params (new_command "deploy" (write_deploy_params sent_params))
      ≡ ok sent_params)
    × (decode_data read_terminate_params
          (new_command "deploy" (write_terminate_params terminate_params))
        ≡ ok terminate_params)
    × (decode_data read_status_params (new_command "deploy" (write_status_params status_params))
        ≡ ok status_params)
    × (decode_data read_reject_params (new_command "deploy" (write_reject_params reject_params))
        ≡ ok reject_params)
decode_data-new_command_example =
    decode_data-new_command "deploy" sent_params terminate_params status_params reject_params
      sent_params-IsSendable

abbrev stamped : Stamped String
stamped = record { envelope = envelope_of "c1" "deploy" (data_of "runpod"); timestamp = noon }

-- A printer that forgets its value, with the parser that knows the one value there is.
parse_envelope-write_envelope_example :
    parse_envelope clock (λ s. some (write_envelope clock noon stamped)) "{}" ≡ ok stamped
parse_envelope-write_envelope_example =
    parse_envelope-write_envelope clock (λ s. some (write_envelope clock noon stamped)) (λ j. "{}")
      noon stamped _ refl (differ "command" "" refl) noon-IsWritable refl

abbrev link : Link
link = new_client default_client_config

abbrev sent_deploy : Json
sent_deploy = write_envelope clock noon (deploy_envelope clock "c1" sent_params noon)

read_message-deploy_example :
    (e : Envelope) × (cmd : Command) × (read_message clock (λ s. some sent_deploy) link "{}"
      ≡ record link { commands = link.commands ++ e ∷ [] })
    × (e.id ≡ "c1")
    × (decode_payload read_command e ≡ ok cmd)
    × (cmd.type ≡ command_deploy)
    × (decode_data read_deploy_params cmd ≡ ok sent_params)
unfolding new_client
read_message-deploy_example =
    read_message-deploy clock (λ s. some sent_deploy) (λ j. "{}") "c1" sent_params noon link
      sent_params-IsSendable noon-IsWritable (omega arith) refl

-- A text that is no JSON between two commands.
abbrev parse_unless_junk : String → Option Json
parse_unless_junk s = if s == "junk" then none else some sent_deploy

abbrev online : Link
online = record link { has_conn = true }

abbrev sent_texts : List String
sent_texts = "one" ∷ "junk" ∷ "two" ∷ []

message_reader-texts_example :
    message_reader clock parse_unless_junk online
      (texts_read sent_texts ++ fails (policy_violation "plan limit") ∷ [])
    ≡ read_failed
        (record online {
          commands = fill 100 online.commands (commands_in clock parse_unless_junk sent_texts);
        })
        (policy_violation "plan limit")
message_reader-texts_example =
    message_reader-texts clock parse_unless_junk online sent_texts (policy_violation "plan limit")
      [] refl
