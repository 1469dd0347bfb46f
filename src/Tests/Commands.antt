-- ===== src/Tests/Commands.antt =====
-- Commands of the platform: an unknown provider, a provider error, a ping, a rejection.
use k8s_runpod_kubelet.Base.{String, none, some, ◌≡◌, refl, inl, lookup, provider_error_text}
use k8s_runpod_kubelet.Protocol.Json.{null}
use k8s_runpod_kubelet.Protocol.Messages.{new_error_response}
use k8s_runpod_kubelet.Protocol.Decode.{
  read_command, read_deploy_params, decode_payload, decode_data,
}
use k8s_runpod_kubelet.Command.Handler.{Handler, handle_command}
use k8s_runpod_kubelet.Command.Answers.{IsWellFormed, handle_command-IsWellFormed}
use k8s_runpod_kubelet.Command.Routing.{provider_error_surfaces}
use k8s_runpod_kubelet.Scenarios.{
  world, quota_error, failing, manager_of, data_of, envelope_of, command_of, deploy_params,
}

-- A handler whose owner counts nothing: its state is the code of the last rejection.
abbrev handler : Handler String
handler = record {
  manager = manager_of failing;
  reject_func = some (λ params s. (params.code, none));
}

handle_command-IsWellFormed_example :
    IsWellFormed "c1" (handle_command world handler (envelope_of "c1" "ping" null) "").1
handle_command-IsWellFormed_example =
    handle_command-IsWellFormed world handler (envelope_of "c1" "ping" null) ""

provider_error_surfaces_example :
    handle_command world handler (envelope_of "c3" "deploy" (data_of "runpod")) ""
    ≡ ("", new_error_response "c3" "quota" "runpod error quota: no gpu" "no gpu")
unfolding decode_payload decode_data read_command read_deploy_params lookup provider_error_text
provider_error_surfaces_example =
    provider_error_surfaces world handler (envelope_of "c3" "deploy" (data_of "runpod")) ""
      (command_of "deploy" (data_of "runpod")) "runpod" "deployment_failed" failing quota_error refl
      (inl (deploy_params "runpod", refl, refl, refl, refl)) refl
      (λ params. refl, λ params. refl, λ params. refl)
