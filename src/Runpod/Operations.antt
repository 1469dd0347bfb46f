-- ===== src/Runpod/Operations.antt =====
-- pkg/providers/runpod/client.go: GetStatus, Terminate and Ping, and the Client as a Provider.
use Prim.Native.String.{◌++◌}
use k8s_runpod_kubelet.Base.{
  Bool, true, false, String, List, [], ◌∷◌, Option, none, some, ℤ, pos, Result, ok, err, GoError,
  plain, error_text, ◌==◌, ◌||◌, is_zero, contains_lower, leb, decimal, if◌then◌else◌,
}
use k8s_runpod_kubelet.Protocol.Json.{
  Json, null, str, arr, obj, end, field, Items, nil, cons, ◌>>=◌, member, struct_into, string_into,
}
use k8s_runpod_kubelet.Protocol.Messages.{StatusParams, StatusResult, TerminateParams}
use k8s_runpod_kubelet.Providers.World.{Request, Reply, failed, response, unreadable, text}
use k8s_runpod_kubelet.Providers.Status.{get_standard_status, phase_for_status, phase_failed}
use k8s_runpod_kubelet.Providers.Manager.{Provider}
use k8s_runpod_kubelet.Runpod.Responses.{RuntimeInfo, DetailedStatus}
use k8s_runpod_kubelet.Runpod.Calls.{Call, done, request, run}
use k8s_runpod_kubelet.Runpod.Rest.{get_detailed_pod_status, terminate_pod, unmarshal, unmarshalled}
use k8s_runpod_kubelet.Runpod.Client.{
  Client, get_api_key, runpod_error, missing_api_key, map_call, deploy,
}

completed : RuntimeInfo → Bool
completed r =
    if is_zero r.container.exit_code
    then true
    else if r.pod_completion_status == ""
    then false
    else contains_lower r.pod_completion_status "success"
      || contains_lower r.pod_completion_status "completed"

-- isSuccessfulCompletion
unfoldable pub is_successful_completion : Option RuntimeInfo → Bool
unfolding completed contains_lower
is_successful_completion none = false
is_successful_completion (some r) = completed r

-- The exit code and the message of a result.
abbrev runtime_exit_code : Option RuntimeInfo → ℤ
runtime_exit_code none = pos 0
runtime_exit_code (some r) = r.container.exit_code

abbrev runtime_message : String → Option RuntimeInfo → String
runtime_message last_error none = ""
runtime_message last_error (some r) =
    if r.container.message == "" then last_error else r.container.message

-- The result of GetStatus for a pod that RunPod does not have.
abbrev pub not_found_result : StatusParams → StatusResult
not_found_result params = record {
  pod_name = "";
  provider_pod_id = params.provider_pod_id;
  provider = "runpod";
  status = "NOT_FOUND";
  phase = phase_failed;
  is_running = false;
  is_terminated = true;
  exit_code = pos 0;
  message = "pod not found on RunPod";
}

-- The result of GetStatus for a pod that RunPod has.
unfoldable pub found_result : StatusParams → DetailedStatus → StatusResult
found_result params s = record {
  pod_name = "";
  provider_pod_id = params.provider_pod_id;
  provider = "runpod";
  status = get_standard_status s.desired_status "runpod";
  phase =
      phase_for_status (get_standard_status s.desired_status "runpod")
        (is_successful_completion s.runtime);
  is_running = s.desired_status == "RUNNING";
  is_terminated = s.desired_status == "TERMINATED" || s.desired_status == "EXITED";
  exit_code = runtime_exit_code s.runtime;
  message = runtime_message s.last_error s.runtime;
}

unfoldable pub status_outcome : StatusParams → Result (Option DetailedStatus) → Result StatusResult
unfolding found_result
status_outcome params (err e) = err (runpod_error "status_check_failed" (error_text e) true)
status_outcome params (ok none) = ok (not_found_result params)
status_outcome params (ok (some s)) = ok (found_result params s)

unfoldable pub terminate_outcome : Option GoError → Option GoError
terminate_outcome none = none
terminate_outcome (some e) = some (runpod_error "termination_failed" (error_text e) true)

-- The body of Ping's GraphQL request.
abbrev ping_query : Json
ping_query = obj (field "query" (str "query { gpuTypes { id } }") (field "variables" null end))

-- the request of executeGraphQL
abbrev pub graph_ql_request : (api_key : String) → Json → Request
graph_ql_request api_key query = record {
  method = "POST";
  url = "https://api.runpod.io/graphql";
  body = some query;
  api_key = api_key;
  timeout_seconds = 10;
}

abbrev ping_request : String → Request
ping_request api_key = graph_ql_request api_key ping_query

ids_of : Items → Option (List String)
unfolding member string_into
ids_of nil = some []
ids_of (cons j rest) =
    struct_into (λ id fs. member string_into "id" id fs) "" j
    >>= (λ id. ids_of rest >>= (λ ids. some (id ∷ ids)))

ids_into : List String → Json → Option (List String)
unfolding ids_of
ids_into old null = some []
ids_into old (arr items) = ids_of items
ids_into old _ = none

read_gpu_ids : Json → Option (List String)
unfolding member ids_into
read_gpu_ids =
    struct_into
      (λ ids fs. member (struct_into (λ ids' gs. member ids_into "gpuTypes" ids' gs)) "data" ids fs)
      []

-- Decode of a Decoder, whose reader fails with this text behind what it has read: an object or an
-- array that is complete by then is decoded.
abbrev decoded_before {ℓ} : {A : Type ℓ} → (Json → Option A) → String → Option Json → Result A
decoded_before read s (some (obj fields)) = unmarshalled "" (read (obj fields))
decoded_before read s (some (arr items)) = unmarshalled "" (read (arr items))
decoded_before read s _ = err (plain s)

-- executeGraphQL, behind its request
unfoldable pub graph_ql_reply {ℓ} :
    {A : Type ℓ} → (Json → Option A) → (String → Option Json) → Reply → Result A
unfolding unmarshal
graph_ql_reply read parse (failed s) = err (plain ("API request failed: " ++ s))
graph_ql_reply read parse (response status (unreadable s before)) =
    if leb 400 status
    then err (plain ("API returned error: " ++ (decimal status ++ (" " ++ before))))
    else decoded_before read s (parse before)
graph_ql_reply read parse (response status (text s)) =
    if leb 400 status
    then err (plain ("API returned error: " ++ (decimal status ++ (" " ++ s))))
    else unmarshal parse read "" s

unfoldable pub ping_reply : (String → Option Json) → Reply → Result (List String)
unfolding graph_ql_reply read_gpu_ids
ping_reply parse reply = graph_ql_reply read_gpu_ids parse reply

ping_outcome : Result (List String) → Option GoError
ping_outcome (ok ids) = none
ping_outcome (err e) = some (runpod_error "connectivity_failed" (error_text e) true)

module _ (getenv : String → String) (parse : String → Option Json) (c : Client) where
  -- Client.GetStatus
  unfoldable pub get_status : StatusParams → Call (Result StatusResult)
  unfolding status_outcome map_call get_detailed_pod_status get_api_key
  get_status params =
      let key = get_api_key getenv c params.api_key in
      if key == ""
      then done (err missing_api_key)
      else map_call (status_outcome params)
          (get_detailed_pod_status parse params.provider_pod_id key)

  -- Client.Terminate
  unfoldable pub terminate : TerminateParams → Call (Option GoError)
  unfolding terminate_outcome map_call terminate_pod get_api_key
  terminate params =
      let key = get_api_key getenv c params.api_key in
      if key == ""
      then done (some missing_api_key)
      else map_call terminate_outcome (terminate_pod params.provider_pod_id key)

  -- Client.Ping
  unfoldable pub ping : Call (Option GoError)
  unfolding ping_outcome ping_reply
  ping =
      if c.api_key == ""
      then done (some (runpod_error "auth_failed" "API key not configured" false))
      else request (ping_request c.api_key) (λ reply. done (ping_outcome (ping_reply parse reply)))

-- The client behind the Provider interface.
unfoldable pub provider : Client → Provider
unfolding run deploy get_status terminate ping
provider c = record {
  get_name = "runpod";
  deploy = λ w params. run w.http (deploy w.getenv w.parse_json c params);
  get_status = λ w params. run w.http (get_status w.getenv w.parse_json c params);
  terminate = λ w params. run w.http (terminate w.getenv w.parse_json c params);
  ping = λ w. run w.http (ping w.getenv w.parse_json c);
}
