-- ===== src/Tests/Platform.antt =====
-- The configuration, the start and the RunPod client at concrete inputs.
use k8s_runpod_kubelet.Base.{
  ℕ, none, some, pos, true, false, ◌≡◌, ◌↔◌, ◌⊎◌, refl, differ, trim_space, if◌then◌else◌,
}
use k8s_runpod_kubelet.Protocol.Json.{obj, json_fields}
use k8s_runpod_kubelet.Protocol.Messages.{DeployParams, StatusParams, TerminateParams}
use k8s_runpod_kubelet.Providers.World.{Body, response}
use k8s_runpod_kubelet.Providers.Status.{phase_running, phase_succeeded, phase_failed}
use k8s_runpod_kubelet.Config.Settings.{validate}
use k8s_runpod_kubelet.Config.Laws.{IsValid, validate_iff}
use k8s_runpod_kubelet.Runpod.Responses.{CreatePodResponse, DetailedStatus, read_create_response}
use k8s_runpod_kubelet.Runpod.Calls.{run}
use k8s_runpod_kubelet.Runpod.Rest.{make_rest_request}
use k8s_runpod_kubelet.Runpod.Client.{
  Client, get_api_key, deploy, deploy_result, convert_deploy_params,
}
use k8s_runpod_kubelet.Runpod.Operations.{
  get_status, terminate, found_result, is_successful_completion,
}
use k8s_runpod_kubelet.Runpod.Reports.{found_result-consistent, terminate-succeeds}
use k8s_runpod_kubelet.Runpod.Deploys.{Creates, deploy-Creates}
use k8s_runpod_kubelet.Runpod.Requests.{AllRequests, IsKeyFor, requests_authorised}
use k8s_runpod_kubelet.Scenarios.{
  world, keyed_deploy_params, terminate_params, status_params, config,
}

abbrev client : Client
client = record { api_key = "" }

abbrev detailed : DetailedStatus
detailed = record {
  id = "pod-1";
  name = "web";
  desired_status = "EXITED";
  current_status = "";
  cost_per_hr = pos 0;
  image = "";
  env = none;
  machine_id = "";
  port_mappings = none;
  runtime = none;
  machine = none;
  last_error = "";
  container_registry_auth_id = "";
  template_id = "";
}

abbrev created : CreatePodResponse
created = record {
  id = "pod-1";
  cost_per_hr = pos 0;
  desired_status = "";
  machine_id = "";
  machine = none;
}

validate_iff_example : (validate config ≡ none) ↔ IsValid config
validate_iff_example = validate_iff config

found_result-consistent_example :
    let r = found_result status_params detailed in
    (r.is_running ≡ true → (r.phase ≡ phase_running) × (r.is_terminated ≡ false))
    × (r.is_terminated ≡ true
        → (r.is_running ≡ false)
          × (r.phase ≡ (
              if is_successful_completion detailed.runtime then phase_succeeded else phase_failed)))
    × (r.phase ≡ phase_succeeded → r.is_terminated ≡ true)
    × (r.status ≡ "EXITED")
found_result-consistent_example = found_result-consistent status_params detailed

terminate-succeeds_example :
    (run world.http (terminate world.getenv world.parse_json client terminate_params) ≡ none) ↔ (
      (status : ℕ) × (body : Body) × (world.http (
          make_rest_request "DELETE" "pods/pod-1" none
            (get_api_key world.getenv client terminate_params.api_key))
        ≡ response status body)
      × ((status ≡ 200) ⊎ (status ≡ 204) ⊎ (status ≡ 404)))
unfolding get_api_key trim_space
terminate-succeeds_example =
    terminate-succeeds world.getenv world.parse_json client world.http terminate_params
      (differ "key" "" refl) (differ "pod-1" "" refl)

deploy-Creates_example :
    (made : CreatePodResponse) × Creates world.parse_json
      (world.http (
        make_rest_request "POST" "pods"
          (some (obj (json_fields (convert_deploy_params keyed_deploy_params))))
          (get_api_key world.getenv client keyed_deploy_params.api_key)))
      made
    × (deploy_result keyed_deploy_params created ≡ deploy_result keyed_deploy_params made)
unfolding get_api_key deploy run read_create_response
deploy-Creates_example =
    deploy-Creates world.getenv world.parse_json client world.http keyed_deploy_params
      (deploy_result keyed_deploy_params created) (differ "key" "" refl) refl

requests_authorised_example :
    ((p : DeployParams)
      → AllRequests
          (λ r. IsKeyFor world.getenv client p.api_key r.api_key)
          (deploy world.getenv world.parse_json client p))
    × ((p : StatusParams)
        → AllRequests
            (λ r. IsKeyFor world.getenv client p.api_key r.api_key)
            (get_status world.getenv world.parse_json client p))
    × ((p : TerminateParams)
        → AllRequests
            (λ r. IsKeyFor world.getenv client p.api_key r.api_key)
            (terminate world.getenv world.parse_json client p))
requests_authorised_example = requests_authorised world.getenv world.parse_json client
