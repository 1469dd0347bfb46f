-- ===== src/Config/Settings.antt =====
-- pkg/config/config.go: the types, the defaults and the checks.
use Prim.Native.String.{◌++◌}
use k8s_runpod_kubelet.Base.{
  Bool, false, String, List, [], ◌∷◌, Option, none, some, ℤ, pos, negsuc, Float, is_positive, leb,
  is_empty, contains, ◌==◌, not, ◌&&◌, ◌||◌, if◌then◌else◌, GoError, plain,
}
use k8s_runpod_kubelet.WsClient.Config.{seconds}

pub record WebSocketConfig : Type 0 where
  pub reconnect_interval : ℤ
  pub max_reconnect_delay : ℤ
  pub ping_interval : ℤ
  pub pong_timeout : ℤ
  pub write_timeout : ℤ
  pub read_timeout : ℤ

pub record RunPodProviderConfig : Type 0 where
  pub api_key : String
  pub default_cloud_type : String
  pub datacenter_ids : List String
  pub max_gpu_price : Float

pub record VastAiProviderConfig : Type 0 where
  pub api_key : String
  pub datacenter_ids : List String
  pub max_gpu_price : Float

pub record SaladProviderConfig : Type 0 where
  pub api_key : String
  pub max_gpu_price : Float

pub record AwsProviderConfig : Type 0 where
  pub access_key_id : String
  pub secret_access_key : String
  pub region : String
  pub availability_zones : List String
  pub max_instance_price : Float

pub record GcpProviderConfig : Type 0 where
  pub service_account_key : String
  pub project_id : String
  pub zones : List String
  pub max_instance_price : Float

pub record ProviderConfig : Type 0 where
  pub enabled_providers : List String
  pub runpod : RunPodProviderConfig
  pub vastai : VastAiProviderConfig
  pub salad : SaladProviderConfig
  pub aws : AwsProviderConfig
  pub gcp : GcpProviderConfig

pub record Config : Type 0 where
  pub backend_url : String
  pub backend_api_key : String
  pub web_socket : WebSocketConfig
  pub providers : ProviderConfig
  pub cluster_name : String
  pub node_name : String
  pub operating_system : String
  pub internal_ip : String
  pub listen_port : ℤ
  pub health_server_address : String
  pub namespace : String
  pub reconcile_interval : ℤ
  pub log_level : String
  pub heartbeat_interval : ℤ

-- DefaultConfig. A price of 0.5 is 500000 millionths.
abbrev pub default_config : Config
default_config = record {
  backend_url = "wss://gpuconduit.io/api/kubelet/ws";
  backend_api_key = "";
  web_socket = record {
    reconnect_interval = seconds 5;
    max_reconnect_delay = seconds 300;
    ping_interval = seconds 30;
    pong_timeout = seconds 10;
    write_timeout = seconds 10;
    read_timeout = seconds 60;
  };
  providers = record {
    enabled_providers = "runpod" ∷ [];
    runpod = record {
      api_key = "";
      default_cloud_type = "SECURE";
      datacenter_ids = [];
      max_gpu_price = pos 500000;
    };
    vastai = record { api_key = ""; datacenter_ids = []; max_gpu_price = pos 500000 };
    salad = record { api_key = ""; max_gpu_price = pos 500000 };
    aws = record {
      access_key_id = "";
      secret_access_key = "";
      region = "us-east-1";
      availability_zones = [];
      max_instance_price = pos 2000000;
    };
    gcp = record {
      service_account_key = "";
      project_id = "";
      zones = [];
      max_instance_price = pos 2000000;
    };
  };
  cluster_name = "default";
  node_name = "conduit-node";
  operating_system = "Linux";
  internal_ip = "127.0.0.1";
  listen_port = pos 10250;
  health_server_address = ":8080";
  namespace = "kube-system";
  reconcile_interval = seconds 30;
  log_level = "info";
  heartbeat_interval = seconds 300;
}

abbrev pub valid_providers : List String
valid_providers = "runpod" ∷ "vastai" ∷ "salad" ∷ "aws" ∷ "gcp" ∷ []

-- The first provider that is not valid.
unfoldable pub first_invalid : List String → Option String
first_invalid [] = none
first_invalid (p ∷ ps) = if contains p valid_providers then first_invalid ps else some p

abbrev pub is_port : ℤ → Bool
is_port (pos n) = leb 1 n && leb n 65535
is_port (negsuc n) = false

-- The checks of Validate that follow the loop over the providers.
unfoldable pub check_timeouts : WebSocketConfig → Option String → Option GoError
check_timeouts ws (some p) = some (plain ("invalid provider: " ++ p))
check_timeouts ws none =
    if not (is_positive ws.reconnect_interval)
    then some (plain "websocket reconnect_interval must be positive")
    else if not (is_positive ws.ping_interval)
    then some (plain "websocket ping_interval must be positive")
    else none

-- Validate
unfoldable pub validate : Config → Option GoError
unfolding check_timeouts first_invalid
validate c =
    if c.backend_url == ""
    then some (plain "backend_url is required")
    else if c.backend_api_key == ""
    then some (plain "backend_api_key is required")
    else if c.node_name == ""
    then some (plain "node_name is required")
    else if not (is_port c.listen_port)
    then some (plain "listen_port must be between 1 and 65535")
    else if is_empty c.providers.enabled_providers
    then some (plain "at least one provider must be enabled")
    else check_timeouts c.web_socket (first_invalid c.providers.enabled_providers)

abbrev is_set : String → Bool
is_set s = not (s == "")

-- HasLocalProviderKey
unfoldable pub has_local_provider_key : Config → Bool
has_local_provider_key c =
    let p = c.providers in
    is_set p.runpod.api_key
    || is_set p.vastai.api_key
    || is_set p.salad.api_key
    || (is_set p.aws.access_key_id && is_set p.aws.secret_access_key)
    || is_set p.gcp.service_account_key

-- KeyMode
unfoldable pub key_mode : Config → String
unfolding has_local_provider_key
key_mode c = if has_local_provider_key c then "local" else "platform"

-- IsProviderEnabled
unfoldable pub is_provider_enabled : Config → String → Bool
is_provider_enabled c provider = contains provider c.providers.enabled_providers
