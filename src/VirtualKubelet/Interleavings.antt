-- ===== src/VirtualKubelet/Interleavings.antt =====
-- pkg/virtual_kubelet/kubelet.go: the bookkeeping of the pods when the goroutines interleave, so that
-- their atomic sections come in any order.
use k8s_runpod_kubelet.Base.{
  ℕ, String, List, [], ◌∷◌, insert, ap, ◌≡◌, refl, lookup-insert_self, ok, is_some,
}
use k8s_runpod_kubelet.Kubernetes.{Pod}
use k8s_runpod_kubelet.Providers.Manager.{Provider}
use k8s_runpod_kubelet.Config.Settings.{Config}
use k8s_runpod_kubelet.VirtualKubelet.State.{Kubelet, get_pod_key, new_instance, notify_pods}
use k8s_runpod_kubelet.VirtualKubelet.Setup.{new_provider}
use k8s_runpod_kubelet.VirtualKubelet.Sections.{
  Section, stores, announces, reports_created, removes, replaces, handles, books, responds,
  sends_registration, asks_callback, beats, link_event, enter, enter_all,
}
use k8s_runpod_kubelet.VirtualKubelet.Invariant.{
  Inv, Inv-maps, insert_pod-Inv, insert_instance-Inv, delete-Inv,
}
use k8s_runpod_kubelet.VirtualKubelet.Bookkeeping.{
  update_pod_status_kept, notify_backend-Inv, update_pod-Inv, handle_command-Inv, book_response-Inv,
}
use k8s_runpod_kubelet.VirtualKubelet.Preservation.{new_provider-Inv}

store-Inv :
    (now : ℕ) (k : Kubelet) (pod : Pod)
    → Inv k
    → Inv (record k {
      pods = insert (get_pod_key pod) pod k.pods;
      pod_status = insert (get_pod_key pod) (new_instance now pod) k.pod_status;
    })
store-Inv now k pod v =
    let key = get_pod_key pod in
    insert_instance-Inv _ key (new_instance now pod)
      (ap is_some (lookup-insert_self key pod k.pods)) refl (insert_pod-Inv k key pod refl v)

pub enter-Inv : (k : Kubelet) (s : Section) → Inv k → Inv (enter k s)
unfolding enter notify_pods
enter-Inv k (stores now pod) v = store-Inv now k pod v
enter-Inv k (announces e) v = notify_backend-Inv k e v
enter-Inv k (reports_created pod) v =
    let (p, q, _) = update_pod_status_kept k pod _ _ _ in Inv-maps p q v
enter-Inv k (removes pod) v = delete-Inv k (get_pod_key pod) v
enter-Inv k (replaces pod) v = update_pod-Inv k pod v
enter-Inv k (handles w e) v = handle_command-Inv w k e v
enter-Inv k (books e r) v = book_response-Inv k e r v
enter-Inv k (responds r) v = Inv-maps refl refl v
enter-Inv k sends_registration v = Inv-maps refl refl v
enter-Inv k asks_callback v = Inv-maps refl refl v
enter-Inv k beats v = Inv-maps refl refl v
enter-Inv k (link_event e) v = Inv-maps refl refl v

enter_all-Inv : (k : Kubelet) (ss : List Section) → Inv k → Inv (enter_all k ss)
unfolding enter_all
enter_all-Inv k [] v = v
enter_all-Inv k (s ∷ ss) v = enter_all-Inv (enter k s) ss (enter-Inv k s v)

-- From a new kubelet on, whatever the atomic sections of its goroutines are and in whatever order
-- they come: every instance belongs to a pod of the cache, every pod stands under its own namespace
-- and name, and no instance has a status result.
pub enter_all-new_provider-Inv :
    (cfg : Config) (node ip : String) (client : Provider) (k : Kubelet) (ss : List Section)
    → new_provider cfg node ip client ≡ ok k
    → Inv (enter_all k ss)
enter_all-new_provider-Inv cfg node ip client k ss h =
    enter_all-Inv k ss (new_provider-Inv cfg node ip client k h)
