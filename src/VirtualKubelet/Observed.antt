-- ===== src/VirtualKubelet/Observed.antt =====
-- What GetPodStatus can report in the states that the kubelet reaches.
use mathlib.Core.Path.{ap₂}
use Prim.Native.String.{◌++◌}
use k8s_runpod_kubelet.Base.{
  String, List, none, some, lookup, ◌≡◌, ◌≢◌, ap, ◌∙◌, ◌⊎◌, inl, inr, text_cases, Option-cases, ok,
  plain,
}
use k8s_runpod_kubelet.Kubernetes.{Pod, PodStatus}
use k8s_runpod_kubelet.Providers.Manager.{Provider}
use k8s_runpod_kubelet.Config.Settings.{Config}
use k8s_runpod_kubelet.VirtualKubelet.State.{Kubelet, PodInstanceInfo}
use k8s_runpod_kubelet.VirtualKubelet.Status.{
  Outcome, done, failed, pending_status, rejected_status, status_of, instance_status,
  provider_status, get_pod_status,
}
use k8s_runpod_kubelet.VirtualKubelet.Setup.{new_provider}
use k8s_runpod_kubelet.VirtualKubelet.System.{Op, run}
use k8s_runpod_kubelet.VirtualKubelet.Invariant.{Inv}
use k8s_runpod_kubelet.VirtualKubelet.Preservation.{run-new_provider-Inv}

-- The three reports: no such pod; a pending pod, with no container; a rejected pod, failed with the
-- reason and the message of the platform.
abbrev pub Reports : Kubelet → String → Outcome PodStatus → Type 0
Reports k key r =
    ((lookup key k.pods ≡ none) × (r ≡ failed (plain "pod not found")))
    ⊎ ((pod : Pod) × (lookup key k.pods ≡ some pod) × (r ≡ done pending_status))
    ⊎ ((pod : Pod) × (info : PodInstanceInfo) × (lookup key k.pods ≡ some pod)
        × (lookup key k.pod_status ≡ some info)
        × (info.reject_code ≢ "")
        × (r ≡ done (rejected_status info)))

-- With no status result the instance tells only whether the pod was rejected.
pub instance_status-unreported :
    (pod : Pod) (info : PodInstanceInfo)
    → info.status_result ≡ none
    → ((info.reject_code ≡ "") × (instance_status pod (some info) ≡ done pending_status))
      ⊎ ((info.reject_code ≢ "") × (instance_status pod (some info) ≡ done (rejected_status info)))
unfolding instance_status provider_status
instance_status-unreported pod info u = elim (text_cases info.reject_code "") [
  | inl (e, b) ↦ inl (e, rw b (ap (provider_status pod info) u))
  | inr (n, b) ↦ inr (n, rw b)
]

status_of-Reports :
    (k : Kubelet) (key : String)
    → Inv k
    → Reports k key (status_of (lookup key k.pods) (lookup key k.pod_status))
unfolding status_of instance_status
status_of-Reports k key v = elim (Option-cases (lookup key k.pods)) [
  | inl p ↦ inl (p, ap (λ o. status_of o (lookup key k.pod_status)) p)
  | inr (pod, p) ↦ elim (Option-cases (lookup key k.pod_status)) [
    | inl q ↦ inr (inl (pod, p, ap₂ status_of p q))
    | inr (info, q) ↦ elim (instance_status-unreported pod info (v.unreported key info q)) [
      | inl (_, r) ↦ inr (inl (pod, p, ap₂ status_of p q ∙ r))
      | inr (n, r) ↦ inr (inr (pod, info, p, q, n, ap₂ status_of p q ∙ r))
    ]
  ]
]

-- In every state that a new kubelet reaches, by any operations in any order, GetPodStatus reports
-- one of three things and never panics: the pod is not in the cache; the pod is Pending with no
-- reason and no container status; or the platform rejected it and it is Failed with the code and
-- the message of the rejection. No pod is ever reported Running or Succeeded.
pub get_pod_status-Reports :
    (cfg : Config) (node ip : String) (client : Provider) (k : Kubelet) (ops : List Op)
    (namespace name : String)
    → new_provider cfg node ip client ≡ ok k
    → Reports (run k ops) (namespace ++ ("/" ++ name)) (get_pod_status (run k ops) namespace name)
unfolding get_pod_status
get_pod_status-Reports cfg node ip client k ops namespace name h =
    status_of-Reports (run k ops) _ (run-new_provider-Inv cfg node ip client k ops h)
