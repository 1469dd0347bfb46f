-- ===== src/VirtualKubelet/Lifecycle.antt =====
-- The life of a pod: created, rejected, deployed, deleted.
use mathlib.Core.Path.{ap₂}
use k8s_runpod_kubelet.Base.{
  ℕ, String, lookup, insert, lookup-insert_self, lookup-insert_ne, lookup-delete_self,
  lookup-delete_ne, ◌≡◌, ◌≢◌, ap, ◌∙◌, ok, err, plain,
}
use k8s_runpod_kubelet.Kubernetes.{Pod}
use k8s_runpod_kubelet.VirtualKubelet.State.{
  Kubelet, get_pod_key, create_pod, delete_pod, get_pod, pod_or_error, new_instance, notify_backend,
}
use k8s_runpod_kubelet.VirtualKubelet.Status.{
  done, failed, pending_status, status_of, instance_status, provider_status, get_pod_status,
}
use k8s_runpod_kubelet.VirtualKubelet.Bookkeeping.{update_pod_status_kept}

pub create_pod_maps :
    (now : ℕ) (k : Kubelet) (pod : Pod)
    → ((create_pod now k pod).pods ≡ insert (get_pod_key pod) pod k.pods)
      × ((create_pod now k pod).pod_status
          ≡ insert (get_pod_key pod) (new_instance now pod) k.pod_status)
unfolding create_pod notify_backend
create_pod_maps now k pod = let (p, q, _) = update_pod_status_kept _ pod _ _ _ in (p, q)

-- After CreatePod, GetPod gives the pod that was created and GetPodStatus reports it as pending,
-- also if the platform rejected an earlier pod of this name; the other pods and instances are as
-- they were.
pub create_pod_lem :
    (now : ℕ) (k : Kubelet) (pod : Pod)
    → let t = create_pod now k pod in
      (get_pod t pod.namespace pod.name ≡ ok pod)
      × (get_pod_status t pod.namespace pod.name ≡ done pending_status)
      × ((key : String)
          → get_pod_key pod ≢ key
          → (lookup key t.pods ≡ lookup key k.pods)
            × (lookup key t.pod_status ≡ lookup key k.pod_status))
unfolding get_pod get_pod_status get_pod_key status_of instance_status provider_status
create_pod_lem now k pod =
    let (p, q) = create_pod_maps now k pod in
    let here = ap (lookup (get_pod_key pod)) p ∙ lookup-insert_self _ pod k.pods in
    let entry =
      ap (lookup (get_pod_key pod)) q ∙ lookup-insert_self _ (new_instance now pod) k.pod_status in
    (
      ap pod_or_error here,
      ap₂ status_of here entry,
      λ key n. (
        ap (lookup key) p ∙ lookup-insert_ne _ key pod k.pods n,
        ap (lookup key) q ∙ lookup-insert_ne _ key (new_instance now pod) k.pod_status n,
      ),
    )

-- After DeletePod, GetPod and GetPodStatus do not find the pod, whatever was known of it; the other
-- pods and instances are as they were.
delete_pod_lem :
    (k : Kubelet) (pod : Pod)
    → let t = delete_pod k pod in
      (get_pod t pod.namespace pod.name ≡ err (plain "pod not found"))
      × (get_pod_status t pod.namespace pod.name ≡ failed (plain "pod not found"))
      × ((key : String)
          → get_pod_key pod ≢ key
          → (lookup key t.pods ≡ lookup key k.pods)
            × (lookup key t.pod_status ≡ lookup key k.pod_status))
unfolding delete_pod get_pod get_pod_status get_pod_key status_of notify_backend
delete_pod_lem k pod =
    let key = get_pod_key pod in
    (
      ap pod_or_error (lookup-delete_self key k.pods),
      ap (λ o. status_of o (lookup key (delete_pod k pod).pod_status))
          (lookup-delete_self key k.pods),
      λ j n. (lookup-delete_ne key j k.pods n, lookup-delete_ne key j k.pod_status n),
    )
