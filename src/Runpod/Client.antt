-- ===== src/Runpod/Client.antt =====
-- pkg/providers/runpod/client.go: the Client as a provider.
use Prim.Native.String.{◌++◌}
use k8s_runpod_kubelet.Base.{
  Bool, true, false, String, List, [], ◌∷◌, Option, none, some, Dict, insert, Result, ok, err,
  GoError, from_provider, error_text, ◌==◌, ◌||◌, not, is_empty, is_positive, cut, trim_space,
  equal_fold, if◌then◌else◌,
}
use k8s_runpod_kubelet.Protocol.Json.{
  Json, obj, str, arr, json_int, json_strings, json_fields, json_dict,
}
use k8s_runpod_kubelet.Protocol.Messages.{DeployParams, DeployResult}
use k8s_runpod_kubelet.Providers.Status.{get_standard_status}
use k8s_runpod_kubelet.Runpod.Responses.{MachineInfo, CreatePodResponse}
use k8s_runpod_kubelet.Runpod.Calls.{Call, done, request}
use k8s_runpod_kubelet.Runpod.Rest.{deploy_pod_rest}

pub record Client : Type 0 where
  pub api_key : String

-- NewClient
unfoldable pub new_client : (String → String) → Client
new_client getenv = record { api_key = getenv "RUNPOD_API_KEY" }

-- getAPIKey
unfoldable pub get_api_key : (String → String) → Client → String → String
get_api_key getenv c param_key =
    if not (param_key == "")
    then param_key
    else if not (c.api_key == "")
    then c.api_key
    else getenv "RUNPOD_API_KEY"

-- NewProviderError for this provider
abbrev pub runpod_error : (code message : String) → Bool → GoError
runpod_error code message retry =
    from_provider (record { provider = "runpod"; code = code; message = message; retry = retry })

abbrev pub missing_api_key : GoError
missing_api_key =
    runpod_error "missing_api_key" "no API key provided and RUNPOD_API_KEY not set" false

-- `m[k] = v` under a test
abbrev pub when_set : Bool → String → Json → Dict Json → Dict Json
when_set true k v m = insert k v m
when_set false k v m = m

-- applyContainerSpec
unfoldable pub apply_container_spec : Dict Json → DeployParams → Dict Json
apply_container_spec m p = when_set (is_positive p.gpu_count) "gpuCount" (json_int p.gpu_count) (
    when_set (not (is_empty p.args)) "dockerStartCmd" (arr (json_strings p.args))
      (when_set (not (is_empty p.command)) "dockerEntrypoint" (arr (json_strings p.command)) m))

-- convertDeployParams
unfoldable pub convert_deploy_params : DeployParams → Dict Json
unfolding apply_container_spec
convert_deploy_params p =
    let base =
      ("name", str p.name)
      ∷ ("imageName", str p.image)
      ∷ ("containerDiskInGb", json_int p.container_disk_in_gb)
      ∷ ("volumeInGb", json_int p.volume_in_gb)
      ∷ ("env", json_dict p.env)
      ∷ [] in
    let gpus =
      when_set (not (is_empty p.gpu_type_ids)) "gpuTypeIds" (arr (json_strings p.gpu_type_ids))
        base in
    let ports = when_set (not (is_empty p.ports)) "ports" (arr (json_strings p.ports)) gpus in
    let centers =
      when_set (not (is_empty p.datacenter_ids)) "dataCenterIds"
        (arr (json_strings p.datacenter_ids)) ports in
    let cloud = when_set (not (p.cloud_type == "")) "cloudType" (str p.cloud_type) centers in
    let template = when_set (not (p.template_id == "")) "templateId" (str p.template_id) cloud in
    let auth =
      when_set (not (p.container_auth_id == "")) "containerRegistryAuthId" (str p.container_auth_id)
        template in
    let ram =
      when_set (is_positive p.min_ram_per_gpu) "minRAMPerGPU" (json_int p.min_ram_per_gpu) auth in
    apply_container_spec ram p

-- The port of a specification `port/http`, `none` for any other.
unfoldable pub http_port : String → Option String
unfolding cut trim_space equal_fold
http_port spec =
    let (port, proto) = cut spec b'/' in
    if trim_space port == "" || not (equal_fold (trim_space proto) "http")
    then none
    else some (trim_space port)

abbrev pub proxy_url : (pod_id port : String) → String
proxy_url pod_id port = "https://" ++ (pod_id ++ ("-" ++ (port ++ ".proxy.runpod.net")))

unfoldable pub add_url : String → Option String → Dict String → Dict String
add_url pod_id none urls = urls
add_url pod_id (some port) urls = insert port (proxy_url pod_id port) urls

unfoldable pub port_urls : String → List String → Dict String → Dict String
unfolding add_url http_port
port_urls pod_id [] urls = urls
port_urls pod_id (spec ∷ specs) urls = port_urls pod_id specs (add_url pod_id (http_port spec) urls)

-- proxyPortURLs; a nil map is the empty one
unfoldable pub proxy_port_urls : String → List String → Dict String
unfolding port_urls
proxy_port_urls pod_id ports = if pod_id == "" then [] else port_urls pod_id ports []

abbrev gpu_type_of : Option MachineInfo → String
gpu_type_of none = ""
gpu_type_of (some m) = m.gpu_type_id

abbrev data_center_of : Option MachineInfo → String
data_center_of none = ""
data_center_of (some m) = m.data_center_id

-- The result of Deploy for a pod that was created.
unfoldable pub deploy_result : DeployParams → CreatePodResponse → DeployResult
unfolding get_standard_status proxy_port_urls
deploy_result params created = record {
  provider_pod_id = created.id;
  provider = "runpod";
  status =
      get_standard_status
        (if created.desired_status == "" then "STARTING" else created.desired_status) "runpod";
  cost_per_hour = created.cost_per_hr;
  gpu_type = gpu_type_of created.machine;
  machine_id = created.machine_id;
  datacenter_id = data_center_of created.machine;
  ports = proxy_port_urls created.id params.ports;
}

unfoldable pub deploy_outcome : DeployParams → Result CreatePodResponse → Result DeployResult
deploy_outcome params (err e) = err (runpod_error "deployment_failed" (error_text e) true)
deploy_outcome params (ok created) = ok (deploy_result params created)

-- Goes on with what a call gives.
unfoldable pub map_call {ℓ κ} : {A : Type ℓ} {B : Type κ} → (A → B) → Call A → Call B
map_call f (done a) = done (f a)
map_call f (request r k) = request r (λ reply. map_call f (k reply))

module _ (getenv : String → String) (parse : String → Option Json) (c : Client) where
  -- Client.Deploy
  unfoldable pub deploy : DeployParams → Call (Result DeployResult)
  unfolding deploy_outcome map_call deploy_pod_rest convert_deploy_params get_api_key
  deploy params =
      let key = get_api_key getenv c params.api_key in
      if key == ""
      then done (err missing_api_key)
      else map_call (deploy_outcome params)
          (deploy_pod_rest parse (obj (json_fields (convert_deploy_params params))) key)
