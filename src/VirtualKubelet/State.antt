-- ===== src/VirtualKubelet/State.antt =====
-- pkg/virtual_kubelet/kubelet.go: the state of the Provider and the pod operations. Each operation
-- is taken as atomic. `notified` holds what the notification callback was called with, the latest
-- first; it is not part of the program's state.
use Prim.Native.String.{◌++◌}
use k8s_runpod_kubelet.Base.{
  ℕ, Bool, true, String, List, ◌∷◌, Option, none, some, pos, Float, Dict, lookup, insert, delete,
  values, Result, ok, err, plain, if◌then◌else◌,
}
use k8s_runpod_kubelet.Kubernetes.{Pod}
use k8s_runpod_kubelet.Protocol.Messages.{StatusResult}
use k8s_runpod_kubelet.Protocol.Events.{Event, pod_created, pod_deleted}
use k8s_runpod_kubelet.Providers.Manager.{Manager}
use k8s_runpod_kubelet.Providers.Status.{phase_pending}
use k8s_runpod_kubelet.Config.Settings.{Config}
use k8s_runpod_kubelet.WsClient.Link.{Link, send_event}
use k8s_runpod_kubelet.WsClient.Loop.{Loop}

-- Times are in nanoseconds; LastStatusCheck, which nothing reads, is left out.
pub record PodInstanceInfo : Type 0 where
  pub pod_id : String
  pub provider_pod_id : String
  pub provider : String
  pub status : String
  pub cost_per_hour : Float
  pub machine_id : String
  pub location : String
  pub creation_time : ℕ
  pub status_result : Option StatusResult
  pub reject_code : String
  pub reject_message : String

pub record Kubelet : Type 0 where
  pub node_name : String
  pub internal_ip : String
  pub config : Config
  pub manager : Manager
  pub ws_client : Loop
  pub pods : Dict Pod
  pub pod_status : Dict PodInstanceInfo
  -- whether NotifyPods has set the callback
  pub notify_set : Bool
  pub notified : List Pod

abbrev pub with_link : Kubelet → Link → Kubelet
with_link k l = record k { ws_client = record w { link = l } }
  where
    w : Loop
    w = k.ws_client

-- SendEvent through the client; its error is only logged
unfoldable pub notify_backend : Kubelet → Event → Kubelet
notify_backend k e = with_link k (send_event k.ws_client.link e).0

-- getPodKey
unfoldable pub get_pod_key : Pod → String
get_pod_key pod = pod.namespace ++ ("/" ++ pod.name)

abbrev pub set_status : Pod → (phase reason message : String) → Pod
set_status pod phase reason message = record pod {
  phase = phase;
  reason = reason;
  message = message;
}

-- updatePodStatus, with the pod as it is afterwards: the caller's pointer sees the change
unfoldable pub update_pod_status : Kubelet → Pod → (phase reason message : String) → Kubelet × Pod
update_pod_status k pod phase reason message =
    if k.notify_set
    then (let pod' = set_status pod phase reason message in
        (record k { notified = pod' ∷ k.notified }, pod'))
    else (k, pod)

-- The entry that CreatePod makes.
abbrev pub new_instance : ℕ → Pod → PodInstanceInfo
new_instance now pod = record {
  pod_id = pod.uid;
  provider_pod_id = "";
  provider = "";
  status = "PENDING";
  cost_per_hour = pos 0;
  machine_id = "";
  location = "";
  creation_time = now;
  status_result = none;
  reject_code = "";
  reject_message = "";
}

abbrev pub created_event : Pod → Event
created_event pod = pod_created (record {
  pod_name = pod.name;
  namespace = pod.namespace;
  uid = pod.uid;
  pod_spec = record pod { api_version = "v1"; kind = "Pod" };
  annotations = pod.annotations;
})

-- CreatePod. The status is set in the caller's pod, of which the cache holds a copy.
unfoldable pub create_pod : ℕ → Kubelet → Pod → Kubelet
unfolding notify_backend update_pod_status get_pod_key
create_pod now k pod =
    let stored = record k {
      pods = insert (get_pod_key pod) pod k.pods;
      pod_status = insert (get_pod_key pod) (new_instance now pod) k.pod_status;
    } in
    let sent = notify_backend stored (created_event pod) in
    (update_pod_status sent pod phase_pending "" "Pod creation event sent to backend").0

-- UpdatePod
unfoldable pub update_pod : Kubelet → Pod → Kubelet
unfolding get_pod_key
update_pod k pod = record k { pods = insert (get_pod_key pod) pod k.pods }

abbrev pub instance_id : Option PodInstanceInfo → String
instance_id none = ""
instance_id (some info) = info.provider_pod_id

abbrev pub deleted_event : Pod → String → Event
deleted_event pod provider_pod_id = pod_deleted (record {
  pod_name = pod.name;
  namespace = pod.namespace;
  uid = pod.uid;
  provider_pod_id = provider_pod_id;
  reason = "Pod deleted by Kubernetes";
})

-- DeletePod
unfoldable pub delete_pod : Kubelet → Pod → Kubelet
unfolding notify_backend get_pod_key
delete_pod k pod =
    let key = get_pod_key pod in
    let sent = notify_backend k (deleted_event pod (instance_id (lookup key k.pod_status))) in
    record sent { pods = delete key k.pods; pod_status = delete key k.pod_status }

abbrev pub pod_or_error : Option Pod → Result Pod
pod_or_error none = err (plain "pod not found")
pod_or_error (some pod) = ok pod

-- GetPod
unfoldable pub get_pod : Kubelet → (namespace name : String) → Result Pod
get_pod k namespace name = pod_or_error (lookup (namespace ++ ("/" ++ name)) k.pods)

-- GetPods
unfoldable pub get_pods : Kubelet → List Pod
get_pods k = values k.pods

-- NotifyPods
unfoldable pub notify_pods : Kubelet → Kubelet
notify_pods k = record k { notify_set = true }
