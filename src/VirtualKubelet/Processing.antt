-- ===== src/VirtualKubelet/Processing.antt =====
-- What a round of processCommands does to the bookkeeping of the pods.
use k8s_runpod_kubelet.Base.{
  some, lookup, ◌≡◌, refl, ap, ◌∙◌, inl, inr, ◌==◌, Bool-cases, if◌then◌else◌, ok,
}
use k8s_runpod_kubelet.Protocol.Messages.{
  Envelope, Command, Response, DeployParams, DeployResult, new_success_response, deployed, pod_key,
  is_success, command_deploy,
}
use k8s_runpod_kubelet.Protocol.Decode.{
  read_command, read_deploy_params, decode_payload, decode_data,
}
use k8s_runpod_kubelet.Providers.World.{World}
use k8s_runpod_kubelet.Providers.Manager.{Provider}
use k8s_runpod_kubelet.Command.Handler.{handle_command}
use k8s_runpod_kubelet.Command.Routing.{named_result, deploy_succeeds}
use k8s_runpod_kubelet.WsClient.Link.{send_response}
use k8s_runpod_kubelet.VirtualKubelet.State.{Kubelet, PodInstanceInfo, with_link}
use k8s_runpod_kubelet.VirtualKubelet.Commands.{
  deployed_instance, handle_deployment_success, handler, book_response, book_command, book_params,
  process_command,
}
use k8s_runpod_kubelet.VirtualKubelet.Deployed.{deployed_entry}

-- Naming the provider twice changes nothing.
named_instance :
    (params : DeployParams) (r : DeployResult) (info : PodInstanceInfo)
    → deployed_instance params (named_result params r) info ≡ deployed_instance params r info
named_instance params r info = elim (Bool-cases (r.provider == "")) [
  | inl e ↦ elim (Bool-cases (params.provider == "")) [ inl f ↦ simp (e, f) | inr f ↦ simp (e, f) ]
  | inr e ↦ simp e
]

module _ (k : Kubelet) (e : Envelope) (cmd : Command) (params : DeployParams)
    (r : DeployResult) where
  book_deployed :
      decode_payload read_command e ≡ ok cmd
      → cmd.type ≡ command_deploy
      → decode_data read_deploy_params cmd ≡ ok params
      → book_response k e (new_success_response e.id (deployed r))
        ≡ handle_deployment_success k params r
  unfolding book_response new_success_response is_success
  book_deployed d t q =
      ap (book_command k r) d
      ∙ ap
          (λ x.
            if x == command_deploy then book_params k r (decode_data read_deploy_params cmd) else k)
          t
      ∙ ap (book_params k r) q

-- The state behind a response: its bookkeeping, and the response in the queue if it fits.
abbrev answered : Envelope → Kubelet × Response → Kubelet
answered e (k, r) =
    let k2 = book_response k e r in with_link k2 (send_response k2.ws_client.link r).0

process_command_eq :
    (w : World) (k : Kubelet) (e : Envelope)
    → process_command w k e ≡ answered e (handle_command w (handler k) e k)
unfolding process_command
process_command_eq w k e = refl

-- A deploy command whose provider is registered and carries it out, for a pod that has an instance:
-- afterwards the instance has the provider's id of the pod, its status, its cost, its machine and,
-- as the location, its data center, and the name of the provider, taken from the command if the
-- result names none; its other fields are as they were.
pub process_deploy :
    (w : World) (k : Kubelet) (e : Envelope) (cmd : Command) (params : DeployParams) (p : Provider)
    (r : DeployResult) (info : PodInstanceInfo)
    → decode_payload read_command e ≡ ok cmd
    → cmd.type ≡ command_deploy
    → decode_data read_deploy_params cmd ≡ ok params
    → lookup params.provider k.manager.providers ≡ some p
    → p.deploy w params ≡ ok r
    → lookup (pod_key params.namespace params.pod_name) k.pod_status ≡ some info
    → lookup (pod_key params.namespace params.pod_name) (process_command w k e).pod_status
      ≡ some (record {
        pod_id = info.pod_id;
        provider_pod_id = r.provider_pod_id;
        provider = if r.provider == "" then params.provider else r.provider;
        status = r.status;
        cost_per_hour = r.cost_per_hour;
        machine_id = r.machine_id;
        location = r.datacenter_id;
        creation_time = info.creation_time;
        status_result = info.status_result;
        reject_code = info.reject_code;
        reject_message = info.reject_message;
      })
process_deploy w k e cmd params p r info d t q found f entry =
    let key = pod_key params.namespace params.pod_name in
    let r' = named_result params r in
    ap (λ x. lookup key x.pod_status)
      (process_command_eq w k e
        ∙ ap (answered e) (deploy_succeeds w (handler k) e k cmd params p r d t q found f))
    ∙ ap (λ x. lookup key x.pod_status) (book_deployed k e cmd params r' d t q)
    ∙ deployed_entry k params r' info entry
    ∙ ap some (named_instance params r info)
