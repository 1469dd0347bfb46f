-- ===== src/Runpod/Rest.antt =====
-- pkg/providers/runpod/client.go: the requests to the REST API and the reading of the replies.
use Prim.Native.Char.{code}
use Prim.Native.String.{◌++◌}
use k8s_runpod_kubelet.Base.{
  ℕ, ◌/◌, ◌%◌, String, Option, none, some, Result, ok, err, GoError, plain, ◌==◌, ◌&&◌, not, eqb,
  leb, trim_space, decimal, if◌then◌else◌,
}
use k8s_runpod_kubelet.Protocol.Json.{Json}
use k8s_runpod_kubelet.Protocol.Decode.{unmarshal_error}
use k8s_runpod_kubelet.Providers.World.{Request, Reply, Body, failed, response, unreadable, text}
use k8s_runpod_kubelet.Runpod.Responses.{
  CreatePodResponse, DetailedStatus, read_create_response, read_detailed_status,
}
use k8s_runpod_kubelet.Runpod.Calls.{Call, done, request}

abbrev pub base_rest_url : String
base_rest_url = "https://rest.runpod.io/v1/"

-- makeRESTRequestWithKey: the request. That a request cannot be made is a failed reply, whose text
-- is that of the error that the function returns.
unfoldable pub make_rest_request : (method endpoint : String) → Option Json → String → Request
make_rest_request method endpoint body api_key = record {
  method = method;
  url = base_rest_url ++ endpoint;
  body = body;
  api_key = api_key;
  timeout_seconds = if method == "POST" && endpoint == "pods" then 60 else 30;
}

-- string(body) after ReadAll, whose error is ignored
abbrev body_text : Body → String
body_text (unreadable s before) = before
body_text (text s) = s

abbrev api_error : ℕ → Body → GoError
api_error status body =
    plain ("API returned error: " ++ (decimal status ++ (" " ++ body_text body)))

abbrev pub unmarshalled {ℓ} : {A : Type ℓ} → String → Option A → Result A
unmarshalled prefix none = err (plain (prefix ++ unmarshal_error))
unmarshalled prefix (some a) = ok a

-- json.Unmarshal of a text into a struct; the text of its error is cut as in Protocol/Decode
unfoldable pub unmarshal {ℓ} :
    {A : Type ℓ} → (String → Option Json) → (Json → Option A) → String → String → Result A
unmarshal {A} parse read prefix s = parsed (parse s)
  where
    parsed : Option Json → Result A
    parsed none = err (plain (prefix ++ "invalid character"))
    parsed (some j) = unmarshalled prefix (read j)

unfoldable pub check_created : String → Result CreatePodResponse → Result CreatePodResponse
check_created body (err e) = err e
check_created body (ok r) =
    if r.id == "" then err (plain ("pod deployment failed: " ++ body)) else ok r

unfoldable pub created_from : (String → Option Json) → ℕ → Body → Result CreatePodResponse
created_from parse status (unreadable s before) =
    err (plain ("failed to read response body: " ++ s))
created_from parse status (text s) =
    if leb 400 status
    then err (api_error status (text s))
    else check_created s (unmarshal parse read_create_response "failed to parse response: " s)

unfoldable pub created_reply : (String → Option Json) → Reply → Result CreatePodResponse
unfolding created_from check_created unmarshal
created_reply parse (failed s) = err (plain ("API request failed: " ++ s))
created_reply parse (response status body) = created_from parse status body

-- deployPodRESTWithKey
unfoldable pub deploy_pod_rest :
    (String → Option Json) → Json → String → Call (Result CreatePodResponse)
unfolding created_reply make_rest_request
deploy_pod_rest parse params api_key =
    request (make_rest_request "POST" "pods" (some params) api_key)
      (λ reply. done (created_reply parse reply))

abbrev pub some_status : Result DetailedStatus → Result (Option DetailedStatus)
some_status (err e) = err e
some_status (ok s) = ok (some s)

unfoldable pub status_from : (String → Option Json) → Body → Result (Option DetailedStatus)
status_from parse (unreadable s before) = err (plain ("error reading response body: " ++ s))
status_from parse (text s) =
    some_status (unmarshal parse read_detailed_status "failed to parse pod status: " s)

-- A pod that is not found is `none`.
unfoldable pub status_reply : (String → Option Json) → Reply → Result (Option DetailedStatus)
unfolding status_from unmarshal
status_reply parse (failed s) = err (plain ("failed to get pod details: " ++ s))
status_reply parse (response status body) =
    if eqb status 404
    then ok none
    else if not (eqb status 200)
    then err (api_error status body)
    else status_from parse body

-- getDetailedPodStatusWithKey
unfoldable pub get_detailed_pod_status :
    (String → Option Json) → String → String → Call (Result (Option DetailedStatus))
unfolding status_reply make_rest_request
get_detailed_pod_status parse pod_id api_key =
    request (make_rest_request "GET" ("pods/" ++ pod_id) none api_key)
      (λ reply. done (status_reply parse reply))

unfoldable pub terminated_reply : Reply → Option GoError
terminated_reply (failed s) = some (plain s)
terminated_reply (response status body) =
    if eqb status 404
    then none
    else if not (eqb status 200) && not (eqb status 204)
    then some (
        plain (
          "failed to terminate pod, status: "
          ++ (decimal status ++ (", response: " ++ body_text body))))
    else none

hex_digit : ℕ → String
hex_digit n =
    if eqb n 10
    then "a"
    else if eqb n 11
    then "b"
    else if eqb n 12
    then "c"
    else if eqb n 13
    then "d"
    else if eqb n 14
    then "e"
    else if eqb n 15
    then "f"
    else decimal n

-- A white space character as `%q` prints it; all of them but the space are escaped.
escaped : ℕ → String
unfolding hex_digit
escaped c =
    if eqb c 9
    then "\\t"
    else if eqb c 10
    then "\\n"
    else if eqb c 11
    then "\\v"
    else if eqb c 12
    then "\\f"
    else if eqb c 13
    then "\\r"
    else if eqb c 32
    then " "
    else "\\u"
      ++ (hex_digit (c / 4096 % 16)
          ++ (hex_digit (c / 256 % 16) ++ (hex_digit (c / 16 % 16) ++ hex_digit (c % 16))))

escaped_text : String → String
unfolding escaped
escaped_text String.[] = ""
escaped_text (String.◌∷◌ c s) = escaped (code c) ++ escaped_text s

-- terminatePodWithKey
unfoldable pub terminate_pod : String → String → Call (Option GoError)
unfolding terminated_reply make_rest_request trim_space escaped_text
terminate_pod pod_id api_key =
    if trim_space pod_id == ""
    then done (some (plain ("invalid pod ID: \"" ++ (escaped_text pod_id ++ "\""))))
    else request (make_rest_request "DELETE" ("pods/" ++ pod_id) none api_key)
        (λ reply. done (terminated_reply reply))
