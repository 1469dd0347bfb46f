-- ===== src/VirtualKubelet/Status.antt =====
-- pkg/virtual_kubelet/kubelet.go: GetPodStatus.
use Prim.Native.String.{◌++◌}
use k8s_runpod_kubelet.Base.{
  String, List, [], ◌∷◌, Option, none, some, to_int32, lookup, GoError, plain, ◌==◌, if◌then◌else◌,
}
use k8s_runpod_kubelet.Kubernetes.{
  Pod, PodStatus, ContainerState, terminated, running, waiting, pod_scheduled, pod_ready,
}
use k8s_runpod_kubelet.Protocol.Messages.{StatusResult}
use k8s_runpod_kubelet.Providers.Status.{
  phase_pending, phase_running, phase_succeeded, phase_failed,
}
use k8s_runpod_kubelet.VirtualKubelet.State.{Kubelet, PodInstanceInfo}

-- The outcome of a call that may panic.
pub data Outcome {ℓ} (A : Type ℓ) : Type ℓ where
  done : A → Outcome A
  failed : GoError → Outcome A
  panicked : Outcome A

-- The status before the instance is looked at.
abbrev pub pending_status : PodStatus
pending_status = record {
  phase = phase_pending;
  reason = "";
  message = "";
  conditions = pod_scheduled ∷ [];
  container_statuses = [];
}

-- The switch on the provider's phase. Phases that it does not name leave the pod pending.
unfoldable pub phase_status : String → PodStatus
phase_status phase =
    if phase == phase_running
    then record pending_status {
      phase = phase_running;
      conditions = pod_scheduled ∷ pod_ready ∷ [];
    }
    else if phase == phase_succeeded
    then record pending_status { phase = phase_succeeded }
    else if phase == phase_failed
    then record pending_status { phase = phase_failed }
    else pending_status

unfoldable pub container_state : PodInstanceInfo → StatusResult → ContainerState
container_state info r =
    if r.is_terminated
    then terminated (to_int32 r.exit_code) r.message
    else if r.is_running
    then running info.creation_time
    else waiting info.status r.message

-- The status with its container; Containers[0] of an empty list is a panic.
unfoldable pub with_container :
    PodInstanceInfo → StatusResult → PodStatus → List String → Outcome PodStatus
with_container info r s [] = panicked
with_container info r s (name ∷ names) = done (record s {
  container_statuses =
      record {
        name = name;
        ready = s.phase == phase_running;
        started = s.phase == phase_running;
        state = container_state info r;
      }
      ∷ [];
})

unfoldable pub provider_status : Pod → PodInstanceInfo → Option StatusResult → Outcome PodStatus
provider_status pod info none = done pending_status
provider_status pod info (some r) = with_container info r (phase_status r.phase) pod.containers

-- The status of a pod that the platform has rejected.
abbrev pub rejected_status : PodInstanceInfo → PodStatus
rejected_status info = record pending_status {
  phase = phase_failed;
  reason = info.reject_code;
  message = info.reject_message;
}

unfoldable pub instance_status : Pod → Option PodInstanceInfo → Outcome PodStatus
instance_status pod none = done pending_status
instance_status pod (some info) =
    if info.reject_code == ""
    then provider_status pod info info.status_result
    else done (rejected_status info)

unfoldable pub status_of : Option Pod → Option PodInstanceInfo → Outcome PodStatus
status_of none info = failed (plain "pod not found")
status_of (some pod) info = instance_status pod info

-- GetPodStatus
unfoldable pub get_pod_status : Kubelet → (namespace name : String) → Outcome PodStatus
unfolding status_of instance_status provider_status with_container phase_status container_state
get_pod_status k namespace name =
    let key = namespace ++ ("/" ++ name) in status_of (lookup key k.pods) (lookup key k.pod_status)
