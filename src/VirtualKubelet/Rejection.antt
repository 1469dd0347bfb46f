-- ===== src/VirtualKubelet/Rejection.antt =====
-- pkg/virtual_kubelet/kubelet.go: handleReject, the rejection of a pod by the platform.
use mathlib.Core.Path.{ap₂}
use k8s_runpod_kubelet.Base.{
  false, Bool-cases, inl, inr, if◌then◌else◌, String, [], ◌∷◌, Option, none, some, lookup,
  lookup-insert_self, ◌≡◌, ◌≢◌, refl, ap, ◌∙◌, ◌==◌, eq_false, trim_space,
}
use k8s_runpod_kubelet.Kubernetes.{Pod, pod_scheduled}
use k8s_runpod_kubelet.Providers.Status.{phase_failed}
use k8s_runpod_kubelet.Protocol.Messages.{RejectParams, pod_key}
use k8s_runpod_kubelet.VirtualKubelet.State.{
  Kubelet, PodInstanceInfo, update_pod_status, set_status,
}
use k8s_runpod_kubelet.VirtualKubelet.Status.{
  done, rejected_status, status_of, instance_status, get_pod_status,
}
use k8s_runpod_kubelet.VirtualKubelet.Commands.{
  handle_reject, report_cached, report_rejected, update_entry, rejected_instance,
}
use k8s_runpod_kubelet.VirtualKubelet.Bookkeeping.{update_pod_status_kept}

pub report_cached_maps :
    (k : Kubelet) (key : String) (pod : Pod) (phase reason message : String)
    → let t = report_cached k key pod phase reason message in
      (lookup key t.pods ≡ some (update_pod_status k pod phase reason message).1)
      × (t.pod_status ≡ k.pod_status)
report_cached_maps k key pod phase reason message =
    let (p, q, _) = update_pod_status_kept k pod phase reason message in
    (lookup-insert_self key _ _, q)

pub update_pod_status-notified :
    (k : Kubelet) (pod : Pod) (phase reason message : String)
    → (update_pod_status k pod phase reason message).0.notified
      ≡ (if k.notify_set then set_status pod phase reason message ∷ k.notified else k.notified)
unfolding update_pod_status
update_pod_status-notified k pod phase reason message = elim (Bool-cases k.notify_set) [
  | inl e ↦ rw e refl
  | inr e ↦ rw e refl
]

-- A rejection with a code is what GetPodStatus shows.
pub rejected_shown :
    (o : Option Pod) (pod : Pod) (e : Option PodInstanceInfo) (info : PodInstanceInfo)
    → o ≡ some pod
    → e ≡ some info
    → info.reject_code ≢ ""
    → status_of o e ≡ done (rejected_status info)
unfolding status_of instance_status
rejected_shown o pod e info p q n =
    ap₂ status_of p q ∙ rejected_test (eq_false info.reject_code "" n)
  where
    rejected_test :
        (info.reject_code == "") ≡ false
        → instance_status pod (some info) ≡ done (rejected_status info)
    rejected_test b = rw b

module _ (k : Kubelet) (params : RejectParams) (pod : Pod) (info : PodInstanceInfo)
    (cached : lookup (pod_key params.namespace params.pod_name) k.pods ≡ some pod)
    (entry : lookup (pod_key params.namespace params.pod_name) k.pod_status ≡ some info) where
  key : String
  key = pod_key params.namespace params.pod_name

  stored : Kubelet
  stored = record k {
    pod_status =
        update_entry (pod_key params.namespace params.pod_name) (rejected_instance params)
          (lookup (pod_key params.namespace params.pod_name) k.pod_status) k.pod_status;
  }

  handle_reject_eq :
      handle_reject params k
      ≡ (report_cached stored key pod phase_failed params.code params.message, none)
  unfolding handle_reject stored key
  handle_reject_eq = ap (report_rejected stored key params) cached

  rejected_entry :
      lookup key (handle_reject params k).0.pod_status ≡ some (rejected_instance params info)
  unfolding stored key
  rejected_entry =
      ap (λ t. lookup key t.0.pod_status) handle_reject_eq
      ∙ ap (lookup key)
          (report_cached_maps stored key pod phase_failed params.code params.message).1
      ∙ ap (λ e. lookup key (update_entry key (rejected_instance params) e k.pod_status)) entry
      ∙ lookup-insert_self key (rejected_instance params info) k.pod_status

  rejected_pod :
      lookup key (handle_reject params k).0.pods
      ≡ some (update_pod_status stored pod phase_failed params.code params.message).1
  rejected_pod =
      ap (λ t. lookup key t.0.pods) handle_reject_eq
      ∙ (report_cached_maps stored key pod phase_failed params.code params.message).0

  -- A rejection with a code, of a pod in the cache that has an instance: the callback succeeds,
  -- GetPodStatus then reports the pod as Failed, with the code as the reason, the platform's
  -- message, the one condition PodScheduled and no container, and if the callback of the controllers
  -- is set, it is called once, with the pod as it was but for this phase, reason and message. The
  -- pod is the one whose namespace and name the parameters give, but for white space around them.
  pub handle_reject_lem :
      params.code ≢ ""
      → let t = handle_reject params k in
        (t.1 ≡ none)
        × (get_pod_status t.0 (trim_space params.namespace) (trim_space params.pod_name)
            ≡ done (record {
              phase = "Failed";
              reason = params.code;
              message = params.message;
              conditions = pod_scheduled ∷ [];
              container_statuses = [];
            }))
        × (t.0.notified ≡ (
            if k.notify_set
            then record pod { phase = "Failed"; reason = params.code; message = params.message }
              ∷ k.notified
            else k.notified))
  unfolding get_pod_status pod_key key stored
  handle_reject_lem n = (
    ap (λ t. t.1) handle_reject_eq,
    rejected_shown _ _ _ (rejected_instance params info) rejected_pod rejected_entry n,
    ap (λ t. t.0.notified) handle_reject_eq
        ∙ update_pod_status-notified stored pod phase_failed params.code params.message,
  )
