-- ===== src/Config/Sources.antt =====
-- Where the settings come from: pkg/config/config.go, LoadFromEnvironment, and
-- cmd/virtual_kubelet/main.go, loadConfiguration and overrideConfiguration.
use Prim.Native.Char.{Char, code}
use k8s_runpod_kubelet.Base.{
  ◌*◌, ◌-◌, suc, String, List, [], ◌∷◌, ℤ, pos, negsuc, is_zero, wrap_int64, eqb, ◌==◌, trim_space,
  if◌then◌else◌,
}
use k8s_runpod_kubelet.Config.Settings.{Config, ProviderConfig, default_config}

-- A value that is set takes the place of the old one.
abbrev pub or_old : String → String → String
or_old new old = if new == "" then old else new

-- LoadFromEnvironment
unfoldable pub load_from_environment : (String → String) → Config → Config
load_from_environment getenv c = record c {
  backend_url = or_old (getenv "BACKEND_URL") c.backend_url;
  backend_api_key = or_old (getenv "BACKEND_API_KEY") c.backend_api_key;
  cluster_name = or_old (getenv "CLUSTER_NAME") c.cluster_name;
  node_name = or_old (getenv "NODE_NAME") c.node_name;
  namespace = or_old (getenv "NAMESPACE") c.namespace;
  log_level = or_old (getenv "LOG_LEVEL") c.log_level;
  providers = record p {
    runpod = record runpod { api_key = or_old (getenv "RUNPOD_API_KEY") runpod.api_key };
    vastai = record vastai { api_key = or_old (getenv "VASTAI_API_KEY") vastai.api_key };
    salad = record salad { api_key = or_old (getenv "SALAD_API_KEY") salad.api_key };
    aws = record aws {
      access_key_id = or_old (getenv "AWS_ACCESS_KEY_ID") aws.access_key_id;
      secret_access_key = or_old (getenv "AWS_SECRET_ACCESS_KEY") aws.secret_access_key;
      region = or_old (getenv "AWS_REGION") aws.region;
    };
    gcp = record gcp {
      service_account_key =
          or_old (getenv "GOOGLE_APPLICATION_CREDENTIALS") gcp.service_account_key;
      project_id = or_old (getenv "GCP_PROJECT_ID") gcp.project_id;
    };
  };
}
  where
    p : ProviderConfig
    p = c.providers

    open p use {runpod, vastai, salad, aws, gcp}

-- loadConfiguration
unfoldable pub load_configuration : (String → String) → Config
unfolding load_from_environment
load_configuration getenv = load_from_environment getenv default_config

-- The command line flags that set a field of the configuration.
pub record Flags : Type 0 where
  pub node_name : String
  pub cluster_name : String
  pub operating_system : String
  pub internal_ip : String
  pub listen_port : ℤ
  pub log_level : String
  pub backend_url : String
  pub backend_api_key : String
  pub health_server_addr : String
  pub namespace : String
  pub reconcile_interval : ℤ
  pub enabled_providers : String

-- A character goes to the front of the first part.
onto_first : Char → List String → List String
onto_first c [] = String.◌∷◌ c "" ∷ []
onto_first c (part ∷ parts) = String.◌∷◌ c part ∷ parts

-- strings.Split(s, ",")
unfoldable pub split_commas : String → List String
unfolding onto_first
split_commas String.[] = "" ∷ []
split_commas (String.◌∷◌ c s) =
    let parts = split_commas s in if eqb (code c) b',' then "" ∷ parts else onto_first c parts

-- The loop over the parts in overrideConfiguration.
unfoldable pub trimmed_parts : List String → List String
unfolding trim_space
trimmed_parts [] = []
trimmed_parts (p ∷ ps) =
    let rest = trimmed_parts ps in if trim_space p == "" then rest else trim_space p ∷ rest

-- An empty list leaves the old one.
abbrev pub or_old_list : List String → List String → List String
or_old_list [] old = old
or_old_list (p ∷ ps) old = p ∷ ps

-- time.Duration(n) * time.Second
unfoldable pub times_second : ℤ → ℤ
unfolding wrap_int64
times_second (pos n) = wrap_int64 (pos (n * 1000000000))
times_second (negsuc n) = wrap_int64 (negsuc (suc n * 1000000000 - 1))

-- overrideConfiguration
unfoldable pub override_configuration : Flags → Config → Config
unfolding trimmed_parts split_commas times_second
override_configuration f c = record c {
  node_name = or_old f.node_name c.node_name;
  cluster_name = or_old f.cluster_name c.cluster_name;
  operating_system = or_old f.operating_system c.operating_system;
  internal_ip = or_old f.internal_ip c.internal_ip;
  listen_port = if is_zero f.listen_port then c.listen_port else f.listen_port;
  backend_url = or_old f.backend_url c.backend_url;
  backend_api_key = or_old f.backend_api_key c.backend_api_key;
  health_server_address = or_old f.health_server_addr c.health_server_address;
  namespace = or_old f.namespace c.namespace;
  log_level = or_old f.log_level c.log_level;
  reconcile_interval =
      if is_zero f.reconcile_interval
      then c.reconcile_interval
      else times_second f.reconcile_interval;
  providers = record p {
    enabled_providers =
        or_old_list (trimmed_parts (split_commas f.enabled_providers)) p.enabled_providers;
  };
}
  where
    p : ProviderConfig
    p = c.providers

-- The configuration that main validates.
unfoldable pub effective_configuration : (String → String) → Flags → Config
unfolding load_configuration override_configuration
effective_configuration getenv f = override_configuration f (load_configuration getenv)
