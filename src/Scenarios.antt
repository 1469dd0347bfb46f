-- ===== src/Scenarios.antt =====
-- Concrete inputs for the tests: a world, a provider, commands, pods and configurations.
use k8s_runpod_kubelet.Base.{
  true, String, [], ◌∷◌, none, some, pos, ok, err, from_provider, ProviderError,
}
use k8s_runpod_kubelet.Protocol.Json.{Json, null, str, obj, field, end}
use k8s_runpod_kubelet.Protocol.Messages.{
  Envelope, Command, DeployParams, DeployResult, TerminateParams, StatusParams, RejectParams,
}
use k8s_runpod_kubelet.Protocol.Decode.{no_deploy_params}
use k8s_runpod_kubelet.Providers.World.{World, response, text}
use k8s_runpod_kubelet.Providers.Manager.{Manager, Provider}
use k8s_runpod_kubelet.Kubernetes.{Pod}
use k8s_runpod_kubelet.Config.Settings.{Config, default_config}

-- A service that answers every request by a created pod.
abbrev pub world : World
world = record {
  http = λ r. response 201 (text "{}");
  parse_json = λ s. some (obj (field "id" (str "pod-1") end));
  getenv = λ s. "env-key";
}

abbrev pub deploy_result : DeployResult
deploy_result = record {
  provider_pod_id = "pod-1";
  provider = "";
  status = "STARTING";
  cost_per_hour = pos 250000;
  gpu_type = "";
  machine_id = "m1";
  datacenter_id = "EU";
  ports = [];
}

abbrev pub quota_error : ProviderError
quota_error = record { provider = "runpod"; code = "quota"; message = "no gpu"; retry = true }

-- A provider that deploys every pod, and one that fails every call.
abbrev pub working : Provider
working = record {
  get_name = "runpod";
  deploy = λ w params. ok deploy_result;
  get_status = λ w params. err (from_provider quota_error);
  terminate = λ w params. none;
  ping = λ w. none;
}

abbrev pub failing : Provider
failing = record {
  get_name = "runpod";
  deploy = λ w params. err (from_provider quota_error);
  get_status = λ w params. err (from_provider quota_error);
  terminate = λ w params. some (from_provider quota_error);
  ping = λ w. none;
}

abbrev pub manager_of : Provider → Manager
manager_of p = record { providers = (p.get_name, p) ∷ [] }

-- The data of a command for the pod `web`.
abbrev pub data_of : String → Json
data_of provider = obj (
    field "pod_name" (str "web")
      (field "namespace" (str "default") (field "provider" (str provider) end)))

abbrev pub envelope_of : (id type : String) → Json → Envelope
envelope_of id type j = record {
  id = id;
  type = "command";
  payload = some (obj (field "type" (str type) (field "data" j end)));
  kubelet_id = "k1";
}

abbrev pub command_of : String → Json → Command
command_of type j = record { type = type; body = some j }

abbrev pub deploy_params : String → DeployParams
deploy_params provider = record no_deploy_params {
  pod_name = "web";
  namespace = "default";
  provider = provider;
}

abbrev pub keyed_deploy_params : DeployParams
keyed_deploy_params = record no_deploy_params {
  pod_name = "web";
  api_key = "key";
  ports = "80/http" ∷ [];
}

abbrev pub terminate_params : TerminateParams
terminate_params = record {
  pod_name = "web";
  namespace = "default";
  provider = "runpod";
  provider_pod_id = "pod-1";
  api_key = "key";
}

abbrev pub status_params : StatusParams
status_params = record {
  pod_name = "web";
  namespace = "default";
  provider = "runpod";
  provider_pod_id = "pod-1";
  api_key = "key";
}

abbrev pub reject_params : RejectParams
reject_params = record {
  pod_name = " web";
  namespace = "default";
  code = "insufficient_credits";
  message = "top up";
  upgrade_url = "";
}

abbrev pub pod : Pod
pod = record {
  api_version = "v1";
  kind = "Pod";
  namespace = "default";
  name = "web";
  uid = "u1";
  annotations = [];
  containers = "main" ∷ [];
  phase = "";
  reason = "";
  message = "";
  rest = null;
}

-- The defaults with a key.
abbrev pub config : Config
config = record default_config { backend_api_key = "token" }
