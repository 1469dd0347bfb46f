-- ===== src/Protocol/Messages.antt =====
-- The payloads of the frames and the data of the commands. Time stamps are left out: no decision
-- of the program reads one.
use k8s_runpod_kubelet.Base.{
  Bool, true, false, String, List, Option, none, some, ℤ, Float, Dict, trim_space,
}
use Prim.Native.String.{◌++◌}
use k8s_runpod_kubelet.Protocol.Json.{Json}

-- EnvelopeType is a Go string: other values than these are possible.
abbrev pub envelope_command : String
envelope_command = "command"

abbrev pub envelope_response : String
envelope_response = "response"

abbrev pub envelope_event : String
envelope_event = "event"

abbrev pub envelope_heartbeat : String
envelope_heartbeat = "heartbeat"

abbrev pub envelope_registration : String
envelope_registration = "kubelet_registration"

abbrev pub command_deploy : String
command_deploy = "deploy"

abbrev pub command_terminate : String
command_terminate = "terminate"

abbrev pub command_status : String
command_status = "status"

abbrev pub command_ping : String
command_ping = "ping"

abbrev pub command_reject : String
command_reject = "reject"

-- An envelope that came in. The payload is `none` where the frame has none.
pub record Envelope : Type 0 where
  pub id : String
  pub type : String
  pub payload : Option Json
  pub kubelet_id : String

-- `body` is the field Data.
pub record Command : Type 0 where
  pub type : String
  pub body : Option Json

pub record ErrorDetails : Type 0 where
  pub code : String
  pub message : String
  pub provider_error : String

pub record DeployParams : Type 0 where
  pub pod_name : String
  pub namespace : String
  pub provider : String
  pub api_key : String
  pub image : String
  pub name : String
  -- `none` is the nil map
  pub env : Option (Dict String)
  pub ports : List String
  pub container_disk_in_gb : ℤ
  pub volume_in_gb : ℤ
  pub gpu_type_ids : List String
  pub gpu_count : ℤ
  pub min_ram_per_gpu : ℤ
  pub cloud_type : String
  pub datacenter_ids : List String
  pub template_id : String
  pub container_auth_id : String
  pub max_price : Float
  pub command : List String
  pub args : List String

pub record DeployResult : Type 0 where
  pub provider_pod_id : String
  pub provider : String
  pub status : String
  pub cost_per_hour : Float
  pub gpu_type : String
  pub machine_id : String
  pub datacenter_id : String
  pub ports : Dict String

pub record TerminateParams : Type 0 where
  pub pod_name : String
  pub namespace : String
  pub provider : String
  pub provider_pod_id : String
  pub api_key : String

pub record TerminateResult : Type 0 where
  pub terminated : Bool

pub record StatusParams : Type 0 where
  pub pod_name : String
  pub namespace : String
  pub provider : String
  pub provider_pod_id : String
  pub api_key : String

pub record StatusResult : Type 0 where
  pub pod_name : String
  pub provider_pod_id : String
  pub provider : String
  pub status : String
  pub phase : String
  pub is_running : Bool
  pub is_terminated : Bool
  pub exit_code : ℤ
  pub message : String

pub record RejectParams : Type 0 where
  pub pod_name : String
  pub namespace : String
  pub code : String
  pub message : String
  pub upgrade_url : String

-- What stands in the `interface{}` of Response.Data; `empty` is the empty map, `unset` is nil.
pub data ResponseData : Type 0 where
  unset empty : ResponseData
  deployed : DeployResult → ResponseData
  terminated : TerminateResult → ResponseData
  reported : StatusResult → ResponseData

pub data ResponseStatus : Type 0 where
  success error : ResponseStatus

pub record Response : Type 0 where
  pub command_id : String
  pub status : ResponseStatus
  pub body : ResponseData
  pub error : Option ErrorDetails

empty_if_unset : ResponseData → ResponseData
empty_if_unset unset = empty
empty_if_unset d = d

-- NewSuccessResponse
unfoldable pub new_success_response : String → ResponseData → Response
unfolding empty_if_unset
new_success_response command_id d = record {
  command_id = command_id;
  status = success;
  body = empty_if_unset d;
  error = none;
}

-- NewErrorResponse
unfoldable pub new_error_response : String → String → String → String → Response
new_error_response command_id code message provider_error = record {
  command_id = command_id;
  status = error;
  body = unset;
  error = some (record { code = code; message = message; provider_error = provider_error });
}

-- Response.Success, of a response that is not nil
unfoldable pub is_success : ResponseStatus → Bool
is_success success = true
is_success error = false

-- PodKey
unfoldable pub pod_key : String → String → String
pod_key namespace name = trim_space namespace ++ ("/" ++ trim_space name)
