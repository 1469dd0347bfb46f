-- ===== src/Command/Handler.antt =====
-- pkg/command/handler.go. The reject callback works on the state `S` of its owner, which a handler
-- passes on; no other command touches it. Logging is left out.
use Prim.Native.String.{◌++◌}
use k8s_runpod_kubelet.Base.{
  String, Option, none, some, ◌==◌, if◌then◌else◌, Result, ok, err, GoError, plain, from_provider,
  error_text, provider_error_text, true, List, Bool, Dict,
}
use k8s_runpod_kubelet.Protocol.Messages.{
  Envelope, Command, Response, DeployParams, DeployResult, StatusParams, TerminateParams,
  StatusResult, RejectParams, empty, deployed, terminated, reported, new_success_response,
  new_error_response, command_deploy, command_terminate, command_status, command_ping,
  command_reject,
}
use k8s_runpod_kubelet.Protocol.Decode.{
  read_command, read_deploy_params, read_terminate_params, read_status_params, read_reject_params,
  decode_payload, decode_data,
}
use k8s_runpod_kubelet.Providers.World.{World}
use k8s_runpod_kubelet.Providers.Manager.{Manager}
use k8s_runpod_kubelet.Providers.Manager

abbrev pub invalid_command : String
invalid_command = "invalid_command"

abbrev pub invalid_params : String
invalid_params = "invalid_params"

abbrev pub unknown_command : String
unknown_command = "unknown_command"

abbrev pub deployment_failed : String
deployment_failed = "deployment_failed"

abbrev pub termination_failed : String
termination_failed = "termination_failed"

abbrev pub status_failed : String
status_failed = "status_failed"

abbrev pub reject_failed : String
reject_failed = "reject_failed"

-- RejectFunc
abbrev pub RejectFunc {ℓ} : Type ℓ → Type ℓ
RejectFunc S = RejectParams → S → S × Option GoError

pub record Handler {ℓ} (S : Type ℓ) : Type ℓ where
  pub manager : Manager
  pub reject_func : Option (RejectFunc S)

-- errorResponse
unfoldable pub error_response : String → String → GoError → Response
unfolding error_text
error_response command_id code (from_provider e) =
    new_error_response command_id (if e.code == "" then code else e.code) (provider_error_text e)
      e.message
error_response command_id code (plain s) = new_error_response command_id code s ""

-- The answer to data that does not decode.
abbrev pub bad_params : String → String → GoError → Response
bad_params command_id kind e =
    new_error_response command_id invalid_params
      ("failed to parse " ++ (kind ++ (" parameters: " ++ error_text e))) ""

abbrev pub deploy_outcome : String → DeployParams → Result DeployResult → Response
deploy_outcome id params (err e) = error_response id deployment_failed e
deploy_outcome id params (ok r) =
    new_success_response id
      (deployed (record r { provider = if r.provider == "" then params.provider else r.provider }))

abbrev pub deploy_with : World → Manager → String → Result DeployParams → Response
deploy_with w m id (err e) = bad_params id "deploy" e
deploy_with w m id (ok params) =
    deploy_outcome id params (Manager.deploy w m params.provider params)

-- handleDeploy
unfoldable pub handle_deploy : World → Manager → String → Command → Response
handle_deploy w m id cmd = deploy_with w m id (decode_data read_deploy_params cmd)

abbrev pub terminate_outcome : String → Option GoError → Response
terminate_outcome id (some e) = error_response id termination_failed e
terminate_outcome id none = new_success_response id (terminated (record { terminated = true }))

abbrev pub terminate_with : World → Manager → String → Result TerminateParams → Response
terminate_with w m id (err e) = bad_params id "terminate" e
terminate_with w m id (ok params) =
    terminate_outcome id (Manager.terminate w m params.provider params)

-- handleTerminate
unfoldable pub handle_terminate : World → Manager → String → Command → Response
handle_terminate w m id cmd = terminate_with w m id (decode_data read_terminate_params cmd)

abbrev pub status_outcome : String → StatusParams → Result StatusResult → Response
status_outcome id params (err e) = error_response id status_failed e
status_outcome id params (ok r) = new_success_response id (
    reported (record r {
      pod_name = params.pod_name;
      provider_pod_id = params.provider_pod_id;
      provider = if r.provider == "" then params.provider else r.provider;
    }))

abbrev pub status_with : World → Manager → String → Result StatusParams → Response
status_with w m id (err e) = bad_params id "status" e
status_with w m id (ok params) =
    status_outcome id params (Manager.get_status w m params.provider params)

-- handleStatus
unfoldable pub handle_status : World → Manager → String → Command → Response
handle_status w m id cmd = status_with w m id (decode_data read_status_params cmd)

-- handlePing
unfoldable pub handle_ping : String → Response
handle_ping id = new_success_response id empty

module _ {ℓ} {S : Type ℓ} where
  -- NewHandler
  unfoldable pub new_handler : Manager → Handler S
  new_handler m = record { manager = m; reject_func = none }

  -- SetRejectHandler
  unfoldable pub set_reject_handler : Handler S → RejectFunc S → Handler S
  set_reject_handler h fn = record h { reject_func = some fn }

  abbrev pub reject_outcome : String → S × Option GoError → S × Response
  reject_outcome id (s, some e) = (s, new_error_response id reject_failed (error_text e) "")
  reject_outcome id (s, none) = (s, new_success_response id empty)

  abbrev pub apply_reject : Option (RejectFunc S) → String → RejectParams → S → S × Response
  apply_reject none id params s =
      (s, new_error_response id reject_failed "no reject handler configured" "")
  apply_reject (some f) id params s = reject_outcome id (f params s)

  abbrev pub reject_with : Handler S → String → S → Result RejectParams → S × Response
  reject_with h id s (err e) = (s, bad_params id "reject" e)
  reject_with h id s (ok params) = apply_reject h.reject_func id params s

  -- handleReject
  unfoldable pub handle_reject : Handler S → String → Command → S → S × Response
  handle_reject h id cmd s = reject_with h id s (decode_data read_reject_params cmd)

  -- the `switch` of Handle
  unfoldable pub dispatch : World → Handler S → String → Command → S → String → S × Response
  dispatch w h id cmd s kind =
      if kind == command_deploy
      then (s, handle_deploy w h.manager id cmd)
      else if kind == command_terminate
      then (s, handle_terminate w h.manager id cmd)
      else if kind == command_status
      then (s, handle_status w h.manager id cmd)
      else if kind == command_ping
      then (s, handle_ping id)
      else if kind == command_reject
      then handle_reject h id cmd s
      else (s, new_error_response id unknown_command ("unknown command type: " ++ kind) "")

  -- Handle
  unfoldable pub handle : World → Handler S → String → Command → S → S × Response
  unfolding dispatch
  handle w h id cmd s = dispatch w h id cmd s cmd.type

  abbrev pub handle_with : World → Handler S → String → S → Result Command → S × Response
  handle_with w h id s (err x) =
      (s, new_error_response id invalid_command ("failed to parse command: " ++ error_text x) "")
  handle_with w h id s (ok cmd) = handle w h id cmd s

  -- HandleCommand
  unfoldable pub handle_command : World → Handler S → Envelope → S → S × Response
  handle_command w h e s = handle_with w h e.id s (decode_payload read_command e)

  -- ExecuteCommand, which measures the time for the log
  unfoldable pub execute_command : World → Handler S → Envelope → S → S × Response
  unfolding handle_command
  execute_command w h e s = handle_command w h e s

  -- GetHealthStatus
  unfoldable pub get_health_status : World → Handler S → Dict Bool
  get_health_status w h = Manager.health_check w h.manager

  -- GetAvailableProviders
  unfoldable pub get_available_providers : Handler S → List String
  get_available_providers h = Manager.list_providers h.manager
