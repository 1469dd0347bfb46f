-- ===== src/Tests/Replies.antt =====
-- The RunPod client: the ports of a pod and the status of a pod that is gone.
use Prim.Native.String.{◌++◌}
use k8s_runpod_kubelet.Base.{Option, none, ok, Result, ◌≡◌, ◌↔◌, differ, refl}
use k8s_runpod_kubelet.Providers.World.{Request, Reply, response, text}
use k8s_runpod_kubelet.Runpod.Responses.{DetailedStatus}
use k8s_runpod_kubelet.Runpod.Calls.{run, request, done}
use k8s_runpod_kubelet.Runpod.Rest.{make_rest_request}
use k8s_runpod_kubelet.Runpod.Client.{Client, get_api_key, deploy}
use k8s_runpod_kubelet.Runpod.Operations.{get_status, not_found_result}
use k8s_runpod_kubelet.Runpod.Body.{Asks, deploy-Asks}
use k8s_runpod_kubelet.Protocol.Messages.{DeployResult}
use k8s_runpod_kubelet.Runpod.Found.{Tells, result_of, get_status-Tells}
use k8s_runpod_kubelet.Scenarios.{world, status_params, keyed_deploy_params}

abbrev client : Client
client = record { api_key = "" }

-- A service that has no pod.
abbrev gone : Request → Reply
gone r = response 404 (text "")

get_status-Tells_example :
    (run gone (get_status world.getenv world.parse_json client status_params)
      ≡ ok (not_found_result status_params))
    ↔ ((o : Option DetailedStatus) × Tells world.parse_json
          (gone (
            make_rest_request "GET"
              ("pods/" ++ status_params.provider_pod_id)
              none
              (get_api_key world.getenv client status_params.api_key)))
          o
        × (not_found_result status_params ≡ result_of status_params o))
unfolding get_api_key
get_status-Tells_example =
    get_status-Tells world.getenv world.parse_json client gone status_params
      (not_found_result status_params) (differ "key" "" refl)

deploy-Asks_example :
    (r : Request) × (answer : Reply → Result DeployResult) × (deploy world.getenv world.parse_json
        client keyed_deploy_params
      ≡ request r (λ reply. done (answer reply)))
    × (r.api_key ≡ "key")
    × Asks keyed_deploy_params r
unfolding get_api_key
deploy-Asks_example =
    deploy-Asks world.getenv world.parse_json client keyed_deploy_params (differ "key" "" refl)
