-- ===== src/Protocol/Decode.antt =====
-- DecodePayload and DecodeData, at each type that the program decodes.
use Prim.Native.String.{◌++◌}
use k8s_runpod_kubelet.Base.{String, [], Option, none, some, pos, Result, ok, err, plain}
use k8s_runpod_kubelet.Protocol.Json.{
  Json, null, Fields, ◌>>=◌, member, struct, string_into, int_into, float_into, strings_into,
  dict_into, raw_into,
}
use k8s_runpod_kubelet.Protocol.Messages.{
  Envelope, Command, DeployParams, TerminateParams, StatusParams, RejectParams,
}

command_fields : Fields → Option Command
unfolding member string_into raw_into
command_fields fs = do
  type ← member string_into "type" "" fs
  body ← member raw_into "data" none fs
  some (record { type = type; body = body })

unfoldable pub read_command : Json → Option Command
unfolding command_fields
read_command = struct (record { type = ""; body = none }) command_fields

abbrev pub no_deploy_params : DeployParams
no_deploy_params = record {
  pod_name = "";
  namespace = "";
  provider = "";
  api_key = "";
  image = "";
  name = "";
  env = none;
  ports = [];
  container_disk_in_gb = pos 0;
  volume_in_gb = pos 0;
  gpu_type_ids = [];
  gpu_count = pos 0;
  min_ram_per_gpu = pos 0;
  cloud_type = "";
  datacenter_ids = [];
  template_id = "";
  container_auth_id = "";
  max_price = pos 0;
  command = [];
  args = [];
}

deploy_fields : Fields → Option DeployParams
unfolding member string_into dict_into strings_into int_into float_into
deploy_fields fs = do
  pod_name ← member string_into "pod_name" "" fs
  namespace ← member string_into "namespace" "" fs
  provider ← member string_into "provider" "" fs
  api_key ← member string_into "api_key" "" fs
  image ← member string_into "image" "" fs
  name ← member string_into "name" "" fs
  env ← member dict_into "env" none fs
  ports ← member strings_into "ports" [] fs
  container_disk_in_gb ← member int_into "container_disk_in_gb" (pos 0) fs
  volume_in_gb ← member int_into "volume_in_gb" (pos 0) fs
  gpu_type_ids ← member strings_into "gpu_type_ids" [] fs
  gpu_count ← member int_into "gpu_count" (pos 0) fs
  min_ram_per_gpu ← member int_into "min_ram_per_gpu" (pos 0) fs
  cloud_type ← member string_into "cloud_type" "" fs
  datacenter_ids ← member strings_into "datacenter_ids" [] fs
  template_id ← member string_into "template_id" "" fs
  container_auth_id ← member string_into "container_auth_id" "" fs
  max_price ← member float_into "max_price" (pos 0) fs
  command ← member strings_into "command" [] fs
  args ← member strings_into "args" [] fs
  some (record {
    pod_name = pod_name;
    namespace = namespace;
    provider = provider;
    api_key = api_key;
    image = image;
    name = name;
    env = env;
    ports = ports;
    container_disk_in_gb = container_disk_in_gb;
    volume_in_gb = volume_in_gb;
    gpu_type_ids = gpu_type_ids;
    gpu_count = gpu_count;
    min_ram_per_gpu = min_ram_per_gpu;
    cloud_type = cloud_type;
    datacenter_ids = datacenter_ids;
    template_id = template_id;
    container_auth_id = container_auth_id;
    max_price = max_price;
    command = command;
    args = args;
  })

unfoldable pub read_deploy_params : Json → Option DeployParams
unfolding deploy_fields
read_deploy_params = struct no_deploy_params deploy_fields

terminate_fields : Fields → Option TerminateParams
unfolding member string_into
terminate_fields fs = do
  pod_name ← member string_into "pod_name" "" fs
  namespace ← member string_into "namespace" "" fs
  provider ← member string_into "provider" "" fs
  provider_pod_id ← member string_into "provider_pod_id" "" fs
  api_key ← member string_into "api_key" "" fs
  some (record {
    pod_name = pod_name;
    namespace = namespace;
    provider = provider;
    provider_pod_id = provider_pod_id;
    api_key = api_key;
  })

unfoldable pub read_terminate_params : Json → Option TerminateParams
unfolding terminate_fields
read_terminate_params =
    struct
      (record { pod_name = ""; namespace = ""; provider = ""; provider_pod_id = ""; api_key = "" })
      terminate_fields

status_fields : Fields → Option StatusParams
unfolding member string_into
status_fields fs = do
  pod_name ← member string_into "pod_name" "" fs
  namespace ← member string_into "namespace" "" fs
  provider ← member string_into "provider" "" fs
  provider_pod_id ← member string_into "provider_pod_id" "" fs
  api_key ← member string_into "api_key" "" fs
  some (record {
    pod_name = pod_name;
    namespace = namespace;
    provider = provider;
    provider_pod_id = provider_pod_id;
    api_key = api_key;
  })

unfoldable pub read_status_params : Json → Option StatusParams
unfolding status_fields
read_status_params =
    struct
      (record { pod_name = ""; namespace = ""; provider = ""; provider_pod_id = ""; api_key = "" })
      status_fields

reject_fields : Fields → Option RejectParams
unfolding member string_into
reject_fields fs = do
  pod_name ← member string_into "pod_name" "" fs
  namespace ← member string_into "namespace" "" fs
  code ← member string_into "code" "" fs
  message ← member string_into "message" "" fs
  upgrade_url ← member string_into "upgrade_url" "" fs
  some (record {
    pod_name = pod_name;
    namespace = namespace;
    code = code;
    message = message;
    upgrade_url = upgrade_url;
  })

unfoldable pub read_reject_params : Json → Option RejectParams
unfolding reject_fields
read_reject_params =
    struct (record { pod_name = ""; namespace = ""; code = ""; message = ""; upgrade_url = "" })
      reject_fields

-- Of the text of an UnmarshalTypeError only its fixed beginning is kept.
abbrev pub unmarshal_error : String
unmarshal_error = "json: cannot unmarshal"

abbrev decoded {ℓ} : {A : Type ℓ} → String → Option A → Result A
decoded prefix none = err (plain (prefix ++ unmarshal_error))
decoded prefix (some a) = ok a

abbrev decode_raw {ℓ} : {A : Type ℓ} → String → String → (Json → Option A) → Option Json → Result A
decode_raw missing prefix read none = err (plain missing)
decode_raw missing prefix read (some null) = err (plain missing)
decode_raw missing prefix read (some j) = decoded prefix (read j)

-- Envelope.DecodePayload
unfoldable pub decode_payload {ℓ} : {A : Type ℓ} → (Json → Option A) → Envelope → Result A
decode_payload read e =
    decode_raw ("envelope " ++ (e.type ++ " has empty payload"))
      ("failed to decode " ++ (e.type ++ " payload: ")) read e.payload

-- Command.DecodeData
unfoldable pub decode_data {ℓ} : {A : Type ℓ} → (Json → Option A) → Command → Result A
decode_data read c =
    decode_raw (c.type ++ " command has no data")
      ("failed to decode " ++ (c.type ++ " command data: ")) read c.body
