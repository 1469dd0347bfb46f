-- ===== src/VirtualKubelet/Commands.antt =====
-- pkg/virtual_kubelet/kubelet.go: what the commands of the platform do to the pods.
use Prim.Native.String.{◌++◌}
use k8s_runpod_kubelet.Base.{
  String, Option, none, some, Dict, lookup, insert, Result, ok, err, GoError, plain, ◌==◌,
  if◌then◌else◌,
}
use k8s_runpod_kubelet.Kubernetes.{Pod}
use k8s_runpod_kubelet.Protocol.Messages.{
  Envelope, Command, Response, ResponseData, DeployParams, DeployResult, RejectParams, deployed,
  pod_key, command_deploy, is_success,
}
use k8s_runpod_kubelet.Protocol.Decode.{
  read_command, read_deploy_params, decode_payload, decode_data,
}
use k8s_runpod_kubelet.Providers.World.{World}
use k8s_runpod_kubelet.Providers.Status.{phase_pending, phase_failed}
use k8s_runpod_kubelet.Command.Handler.{Handler, handle_command}
use k8s_runpod_kubelet.WsClient.Link.{Link, send_response, take_command}
use k8s_runpod_kubelet.VirtualKubelet.State.{Kubelet, PodInstanceInfo, with_link, update_pod_status}

-- The writes through the pointer to the entry of the map; without an entry there is nothing to do.
abbrev pub update_entry {ℓ} : {V : Type ℓ} → String → (V → V) → Option V → Dict V → Dict V
update_entry key f none m = m
update_entry key f (some v) m = insert key (f v) m

-- updatePodStatus on the pod of the cache, which the callback's caller and the map share
abbrev pub report_cached : Kubelet → String → Pod → (phase reason message : String) → Kubelet
report_cached k key pod phase reason message =
    let (k', pod') = update_pod_status k pod phase reason message in
    record k' { pods = insert key pod' k'.pods }

-- What a successful deploy writes into the instance.
abbrev pub deployed_instance : DeployParams → DeployResult → PodInstanceInfo → PodInstanceInfo
deployed_instance params r info = record info {
  provider_pod_id = r.provider_pod_id;
  provider = if r.provider == "" then params.provider else r.provider;
  status = r.status;
  cost_per_hour = r.cost_per_hour;
  machine_id = r.machine_id;
  location = r.datacenter_id;
}

abbrev pub report_deployed : Kubelet → String → Option Pod → Kubelet
report_deployed k key none = k
report_deployed k key (some pod) =
    report_cached k key pod phase_pending "" "Instance deployed, waiting for startup"

-- handleDeploymentSuccess
unfoldable pub handle_deployment_success : Kubelet → DeployParams → DeployResult → Kubelet
unfolding update_pod_status
handle_deployment_success k params r =
    let key = pod_key params.namespace params.pod_name in
    let entry = lookup key k.pod_status in
    let stored = record k {
      pod_status = update_entry key (deployed_instance params r) entry k.pod_status;
    } in
    report_deployed stored key (lookup key k.pods)

abbrev pub rejected_instance : RejectParams → PodInstanceInfo → PodInstanceInfo
rejected_instance params info = record info {
  reject_code = params.code;
  reject_message = params.message;
  status = "REJECTED";
}

abbrev pub report_rejected : Kubelet → String → RejectParams → Option Pod → Kubelet × Option GoError
report_rejected k key params none = (k, some (plain ("pod " ++ (key ++ " not found"))))
report_rejected k key params (some pod) =
    (report_cached k key pod phase_failed params.code params.message, none)

-- handleReject
unfoldable pub handle_reject : RejectParams → Kubelet → Kubelet × Option GoError
unfolding update_pod_status
handle_reject params k =
    let key = pod_key params.namespace params.pod_name in
    let entry = lookup key k.pod_status in
    let stored = record k {
      pod_status = update_entry key (rejected_instance params) entry k.pod_status;
    } in
    report_rejected stored key params (lookup key k.pods)

-- The handler with the callback that NewProvider sets.
abbrev pub handler : Kubelet → Handler Kubelet
handler k = record { manager = k.manager; reject_func = some handle_reject }

abbrev pub book_params : Kubelet → DeployResult → Result DeployParams → Kubelet
book_params k r (err x) = k
book_params k r (ok params) = handle_deployment_success k params r

abbrev pub book_command : Kubelet → DeployResult → Result Command → Kubelet
book_command k r (err x) = k
book_command k r (ok cmd) =
    if cmd.type == command_deploy then book_params k r (decode_data read_deploy_params cmd) else k

abbrev pub book_body : Kubelet → Envelope → ResponseData → Kubelet
book_body k e (deployed r) = book_command k r (decode_payload read_command e)
book_body k e d = k

-- The bookkeeping of processCommands, after a command has been handled.
unfoldable pub book_response : Kubelet → Envelope → Response → Kubelet
book_response k e r = if is_success r.status then book_body k e r.body else k

-- One round of processCommands for an envelope; an error of SendResponse is only logged.
unfoldable pub process_command : World → Kubelet → Envelope → Kubelet
unfolding book_response
process_command w k e =
    let (k1, response) = handle_command w (handler k) e k in
    let k2 = book_response k1 e response in
    with_link k2 (send_response k2.ws_client.link response).0

unfoldable pub process_taken : World → Kubelet → Link × Option Envelope → Kubelet
process_taken w k (l, none) = k
process_taken w k (l, some e) = process_command w (with_link k l) e

-- processCommands: the loop takes the next envelope, if there is one.
unfoldable pub process_next : World → Kubelet → Kubelet
unfolding process_command process_taken
process_next w k = process_taken w k (take_command k.ws_client.link)
