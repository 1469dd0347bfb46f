-- ===== src/Tests/Settings.antt =====
-- The configuration of a start with some flags and variables.
use k8s_runpod_kubelet.Base.{String, [], ◌∷◌, pos, ◌≡◌, ◌==◌, if◌then◌else◌, trim_space}
use k8s_runpod_kubelet.Config.Sources.{Flags, effective_configuration, trimmed_parts, split_commas}
use k8s_runpod_kubelet.Config.Precedence.{first_set, effective_configuration_lem}

abbrev getenv : String → String
getenv name = if name == "BACKEND_API_KEY" then "token" else ""

abbrev flags : Flags
flags = record {
  node_name = "node-1";
  cluster_name = "";
  operating_system = "";
  internal_ip = "";
  listen_port = pos 0;
  log_level = "";
  backend_url = "";
  backend_api_key = "";
  health_server_addr = "";
  namespace = "";
  reconcile_interval = pos 0;
  enabled_providers = "runpod, vastai";
}

effective_configuration_lem_example :
    let c = effective_configuration getenv flags in
    (c.backend_url ≡ "wss://gpuconduit.io/api/kubelet/ws")
    × (c.backend_api_key ≡ "token")
    × (c.cluster_name ≡ "default")
    × (c.node_name ≡ "node-1")
    × (c.namespace ≡ "kube-system")
    × (c.log_level ≡ "info")
    × (c.providers.runpod.api_key ≡ "")
    × (c.providers.enabled_providers ≡ "runpod" ∷ "vastai" ∷ [])
unfolding first_set trimmed_parts split_commas trim_space
effective_configuration_lem_example = effective_configuration_lem getenv flags
