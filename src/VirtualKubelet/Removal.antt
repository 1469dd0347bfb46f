-- ===== src/VirtualKubelet/Removal.antt =====
-- pkg/virtual_kubelet/kubelet.go: DeletePod of a pod while a command for it is handled.
use k8s_runpod_kubelet.Base.{
  String, List, [], ◌∷◌, none, some, Dict, lookup, insert, delete, ap, ◌∙◌, ◌≡◌, ◌≢◌,
  lookup-insert_ne, lookup-delete, lookup-delete_self, text_cases, inl, inr, Option-cases, err,
  plain, arith,
}
use mathlib.Core.Path.{ap₂}
use k8s_runpod_kubelet.Kubernetes.{Pod}
use k8s_runpod_kubelet.VirtualKubelet.State.{
  Kubelet, get_pod_key, update_pod_status, update_pod, notify_backend, notify_pods, get_pod,
  pod_or_error,
}
use k8s_runpod_kubelet.VirtualKubelet.Status.{failed, status_of, get_pod_status}
use k8s_runpod_kubelet.VirtualKubelet.Commands.{report_cached, update_entry}
use k8s_runpod_kubelet.VirtualKubelet.Changes.{Survives, handle_command_kept, book_response_kept}
use k8s_runpod_kubelet.VirtualKubelet.Bookkeeping.{update_pod_status_kept}
use k8s_runpod_kubelet.VirtualKubelet.Sections.{
  Section, stores, announces, reports_created, removes, replaces, handles, books, responds,
  sends_registration, asks_callback, beats, link_event, enter, enter_all,
}

module _ {ℓ} {V : Type ℓ} (j : String) where
  -- A write to a key that is there brings no other key.
  insert-none :
      (k : String) (old v : V) (m : Dict V)
      → lookup k m ≡ some old
      → lookup j m ≡ none
      → lookup j (insert k v m) ≡ none
  insert-none k old v m here h = elim (text_cases k j) [
    | inl (e, _) ↦ cc (ap (λ x. lookup x m) e, here, h)
    | inr (n, _) ↦ lookup-insert_ne k j v m n ∙ h
  ]

  update_entry-none :
      (k : String) (f : V → V) (m : Dict V)
      → lookup j m ≡ none
      → lookup j (update_entry k f (lookup k m) m) ≡ none
  update_entry-none k f m h = elim (Option-cases (lookup k m)) [
    | inl e ↦ ap (λ o. lookup j (update_entry k f o m)) e ∙ h
    | inr (v, e) ↦ ap (λ o. lookup j (update_entry k f o m)) e ∙ insert-none k v (f v) m e h
  ]

  delete-none : (k : String) (m : Dict V) → lookup j m ≡ none → lookup j (delete k m) ≡ none
  delete-none k m h = lookup-delete k j m ∙ (ground (arith, h))

module _ (key : String) where
  -- The kubelet has neither a pod nor an instance under this key.
  abbrev pub Unknown : Kubelet → Type 0
  Unknown k = (lookup key k.pods ≡ none) × (lookup key k.pod_status ≡ none)

  report_cached-Unknown :
      (k : Kubelet) (at : String) (pod : Pod) (phase reason message : String)
      → lookup at k.pods ≡ some pod
      → Unknown k
      → Unknown (report_cached k at pod phase reason message)
  report_cached-Unknown k at pod phase reason message here (p, q) =
      let (kept, kept_status, _) = update_pod_status_kept k pod phase reason message in
      let (k', pod') = update_pod_status k pod phase reason message in
      (
        insert-none key at pod pod' k'.pods (ap (lookup at) kept ∙ here) (ap (lookup key) kept ∙ p),
        ap (lookup key) kept_status ∙ q,
      )

  survives-Unknown : Survives Unknown
  survives-Unknown = record {
    writes = λ k at f kept u. (u.0, update_entry-none key at f k.pod_status u.1);
    reports = λ k at pod phase reason message here u.
        report_cached-Unknown k at pod phase reason message here u;
  }

  -- The section is not one of CreatePod or UpdatePod for a pod of this key.
  abbrev pub Leaves : Section → Type 0
  Leaves (stores now pod) = get_pod_key pod ≢ key
  Leaves (replaces pod) = get_pod_key pod ≢ key
  Leaves s = Unit

  abbrev pub LeavesAll : List Section → Type 0
  LeavesAll [] = Unit
  LeavesAll (s ∷ ss) = Leaves s × LeavesAll ss

  enter-Unknown : (k : Kubelet) (s : Section) → Leaves s → Unknown k → Unknown (enter k s)
  unfolding enter notify_backend update_pod notify_pods
  enter-Unknown k (stores now pod) n (p, q) =
      (lookup-insert_ne _ key _ k.pods n ∙ p, lookup-insert_ne _ key _ k.pod_status n ∙ q)
  enter-Unknown k (announces e) n u = u
  enter-Unknown k (reports_created pod) n (p, q) =
      let (kept, kept_status, _) = update_pod_status_kept k pod _ _ _ in
      (ap (lookup key) kept ∙ p, ap (lookup key) kept_status ∙ q)
  enter-Unknown k (removes pod) n (p, q) =
      (delete-none key _ k.pods p, delete-none key _ k.pod_status q)
  enter-Unknown k (replaces pod) n (p, q) = (lookup-insert_ne _ key _ k.pods n ∙ p, q)
  enter-Unknown k (handles w e) n u = handle_command_kept Unknown survives-Unknown w k e u
  enter-Unknown k (books e r) n u = book_response_kept Unknown survives-Unknown k e r u
  enter-Unknown k (responds r) n u = u
  enter-Unknown k sends_registration n u = u
  enter-Unknown k asks_callback n u = u
  enter-Unknown k beats n u = u
  enter-Unknown k (link_event e) n u = u

  enter_all-Unknown :
      (k : Kubelet) (ss : List Section) → LeavesAll ss → Unknown k → Unknown (enter_all k ss)
  unfolding enter_all
  enter_all-Unknown k [] n u = u
  enter_all-Unknown k (s ∷ ss) (n, ns) u =
      enter_all-Unknown (enter k s) ss ns (enter-Unknown k s n u)

-- Once DeletePod has removed a pod, GetPod and GetPodStatus do not find it, whatever sections of the
-- goroutines follow and in whatever order, so long as none of them is that of a CreatePod or an
-- UpdatePod for a pod of the same key: the result of a deploy that was in flight, and a rejection
-- that comes too late, do not bring the pod back.
pub enter_all-removes :
    (k : Kubelet) (pod : Pod) (ss : List Section)
    → LeavesAll (get_pod_key pod) ss
    → let t = enter_all k (removes pod ∷ ss) in
      (get_pod t pod.namespace pod.name ≡ err (plain "pod not found"))
      × (get_pod_status t pod.namespace pod.name ≡ failed (plain "pod not found"))
unfolding enter_all enter get_pod get_pod_status get_pod_key status_of
enter_all-removes k pod ss leaves =
    let key = get_pod_key pod in
    let gone : Unknown key (enter k (removes pod)) =
      (lookup-delete_self key k.pods, lookup-delete_self key k.pod_status) in
    let (p, q) = enter_all-Unknown key (enter k (removes pod)) ss leaves gone in
    (ap pod_or_error p, ap₂ status_of p q)
