-- ===== src/Tests/Pods.antt =====
-- A kubelet with one pod: its creation, deployment, rejection and deletion.
use k8s_runpod_kubelet.Base.{
  String, List, [], ◌∷◌, some, none, ok, ◌≡◌, ◌≢◌, refl, differ, lookup, insert, trim_space, pos,
}
use k8s_runpod_kubelet.Kubernetes.{pod_scheduled}
use k8s_runpod_kubelet.Protocol.Messages.{pod_key}
use k8s_runpod_kubelet.Protocol.Decode.{
  read_command, read_deploy_params, decode_payload, decode_data,
}
use k8s_runpod_kubelet.VirtualKubelet.State.{
  Kubelet, PodInstanceInfo, create_pod, get_pod, get_pod_key, new_instance,
}
use k8s_runpod_kubelet.VirtualKubelet.Status.{get_pod_status, done, pending_status}
use k8s_runpod_kubelet.VirtualKubelet.Commands.{
  handle_reject, handle_deployment_success, process_command, rejected_instance,
}
use k8s_runpod_kubelet.VirtualKubelet.Setup.{
  initial, new_provider, initialize_providers, init_loop, init_provider,
}
use k8s_runpod_kubelet.Providers.Manager.{register_provider, new_manager}
use k8s_runpod_kubelet.Config.Settings.{is_provider_enabled}
use k8s_runpod_kubelet.VirtualKubelet.System.{Op, creates, processes, sets_callback, run}
use k8s_runpod_kubelet.VirtualKubelet.Observed.{Reports, get_pod_status-Reports}
use k8s_runpod_kubelet.VirtualKubelet.Lifecycle.{create_pod_lem}
use k8s_runpod_kubelet.VirtualKubelet.Rejection.{handle_reject_lem}
use k8s_runpod_kubelet.VirtualKubelet.Deployed.{deployed_stays_rejected}
use k8s_runpod_kubelet.VirtualKubelet.Processing.{process_deploy}
use k8s_runpod_kubelet.Scenarios.{
  world, working, manager_of, deploy_result, data_of, envelope_of, command_of, deploy_params,
  reject_params, pod, config,
}

abbrev fresh : Kubelet
fresh = initial config "node" "10.0.0.1" (manager_of working)

-- The kubelet with the pod `web` and its instance.
abbrev instance_of_web : PodInstanceInfo
instance_of_web = new_instance 0 pod

abbrev one_pod : Kubelet
one_pod = record fresh {
  pods = ("default/web", pod) ∷ [];
  pod_status = ("default/web", instance_of_web) ∷ [];
}

abbrev rejected_web : PodInstanceInfo
rejected_web = rejected_instance reject_params instance_of_web

abbrev one_rejected : Kubelet
one_rejected = record fresh {
  pods = ("default/web", pod) ∷ [];
  pod_status = ("default/web", rejected_web) ∷ [];
}

abbrev ops : List Op
ops = sets_callback ∷ creates 0 pod ∷ processes world ∷ []

get_pod_status-Reports_example :
    Reports (run fresh ops) "default/web" (get_pod_status (run fresh ops) "default" "web")
unfolding new_provider initialize_providers init_loop init_provider register_provider new_manager
    insert lookup is_provider_enabled
get_pod_status-Reports_example =
    get_pod_status-Reports config "node" "10.0.0.1" working fresh ops "default" "web" refl

create_pod_lem_example :
    let t = create_pod 7 one_rejected pod in
    (get_pod t "default" "web" ≡ ok pod)
    × (get_pod_status t "default" "web" ≡ done pending_status)
    × ((key : String)
        → get_pod_key pod ≢ key
        → (lookup key t.pods ≡ lookup key one_rejected.pods)
          × (lookup key t.pod_status ≡ lookup key one_rejected.pod_status))
create_pod_lem_example = create_pod_lem 7 one_rejected pod

handle_reject_lem_example :
    let t = handle_reject reject_params one_pod in
    (t.1 ≡ none)
    × (get_pod_status t.0 "default" "web"
        ≡ done (record {
          phase = "Failed";
          reason = "insufficient_credits";
          message = "top up";
          conditions = pod_scheduled ∷ [];
          container_statuses = [];
        }))
    × (t.0.notified ≡ [])
unfolding pod_key trim_space lookup
handle_reject_lem_example =
    handle_reject_lem one_pod reject_params pod instance_of_web refl refl
      (differ "insufficient_credits" "" refl)

process_deploy_example :
    lookup "default/web"
      (process_command world one_pod (envelope_of "c1" "deploy" (data_of "runpod"))).pod_status
    ≡ some (record instance_of_web {
      provider_pod_id = "pod-1";
      provider = "runpod";
      status = "STARTING";
      cost_per_hour = pos 250000;
      machine_id = "m1";
      location = "EU";
    })
unfolding decode_payload decode_data read_command read_deploy_params lookup pod_key trim_space
process_deploy_example =
    process_deploy world one_pod (envelope_of "c1" "deploy" (data_of "runpod"))
      (command_of "deploy" (data_of "runpod")) (deploy_params "runpod") working deploy_result
      instance_of_web refl refl refl refl refl refl

deployed_stays_rejected_example :
    let t = handle_deployment_success one_rejected (deploy_params "runpod") deploy_result in
    (lookup "default/web" t.pod_status
      ≡ some (record rejected_web {
        provider_pod_id = "pod-1";
        provider = "runpod";
        status = "STARTING";
        cost_per_hour = pos 250000;
        machine_id = "m1";
        location = "EU";
      }))
    × (get_pod_status t "default" "web"
        ≡ done (record {
          phase = "Failed";
          reason = "insufficient_credits";
          message = "top up";
          conditions = pod_scheduled ∷ [];
          container_statuses = [];
        }))
    × (t.notified ≡ [])
unfolding pod_key trim_space lookup
deployed_stays_rejected_example =
    deployed_stays_rejected one_rejected (deploy_params "runpod") deploy_result pod rejected_web
      refl refl (differ "insufficient_credits" "" refl)
