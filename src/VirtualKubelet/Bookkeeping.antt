-- ===== src/VirtualKubelet/Bookkeeping.antt =====
-- The pod operations and the commands keep the invariant of the pod bookkeeping.
use k8s_runpod_kubelet.Base.{
  ℕ, String, lookup, insert, ap, ◌∙◌, ◌≡◌, refl, lookup-insert_self, inl, inr, Option-cases,
  is_some, Bool-cases,
}
use k8s_runpod_kubelet.Kubernetes.{Pod}
use k8s_runpod_kubelet.Protocol.Messages.{Envelope, Response}
use k8s_runpod_kubelet.Protocol.Events.{Event}
use k8s_runpod_kubelet.Providers.World.{World}
use k8s_runpod_kubelet.Command.Handler.{handle_command}
use k8s_runpod_kubelet.VirtualKubelet.State.{
  Kubelet, PodInstanceInfo, get_pod_key, update_pod_status, create_pod, update_pod, delete_pod,
  new_instance, created_event, notify_backend,
}
use k8s_runpod_kubelet.VirtualKubelet.Commands.{
  report_cached, update_entry, handler, book_response, process_command,
}
use k8s_runpod_kubelet.VirtualKubelet.Changes.{Survives, handle_command_kept, book_response_kept}
use k8s_runpod_kubelet.VirtualKubelet.Invariant.{
  Inv, Inv-maps, insert_pod-Inv, insert_instance-Inv, delete-Inv,
}

module _ (k : Kubelet) (pod : Pod) (phase reason message : String) where
  pub update_pod_status_kept :
      let r = update_pod_status k pod phase reason message in
      (r.0.pods ≡ k.pods) × (r.0.pod_status ≡ k.pod_status) × (get_pod_key r.1 ≡ get_pod_key pod)
  unfolding update_pod_status get_pod_key
  update_pod_status_kept = elim (Bool-cases k.notify_set) [
    | inl e ↦ rw e (refl, refl, refl)
    | inr e ↦ rw e (refl, refl, refl)
  ]

  report_cached-Inv :
      (key : String)
      → get_pod_key pod ≡ key
      → Inv k
      → Inv (report_cached k key pod phase reason message)
  report_cached-Inv key e v =
      let (p, q, g) = update_pod_status_kept in
      let (k', pod') = update_pod_status k pod phase reason message in
      insert_pod-Inv k' key pod' (g ∙ e) (Inv-maps p q v)

pub notify_backend-Inv : (k : Kubelet) (e : Event) → Inv k → Inv (notify_backend k e)
unfolding notify_backend
notify_backend-Inv k e v = Inv-maps refl refl v

pub create_pod-Inv : (now : ℕ) (k : Kubelet) (pod : Pod) → Inv k → Inv (create_pod now k pod)
unfolding create_pod
create_pod-Inv now k pod v =
    let key = get_pod_key pod in
    let cached : Kubelet = record k { pods = insert key pod k.pods } in
    let stored : Inv
        (record cached { pod_status = insert key (new_instance now pod) k.pod_status }) =
      insert_instance-Inv cached key (new_instance now pod)
        (ap is_some (lookup-insert_self key pod k.pods)) refl (insert_pod-Inv k key pod refl v) in
    let (p, q, g) = update_pod_status_kept _ pod _ _ _ in
    Inv-maps p q (notify_backend-Inv _ (created_event pod) stored)

pub update_pod-Inv : (k : Kubelet) (pod : Pod) → Inv k → Inv (update_pod k pod)
unfolding update_pod
update_pod-Inv k pod v = insert_pod-Inv k (get_pod_key pod) pod refl v

pub delete_pod-Inv : (k : Kubelet) (pod : Pod) → Inv k → Inv (delete_pod k pod)
unfolding delete_pod
delete_pod-Inv k pod v = delete-Inv _ (get_pod_key pod) (notify_backend-Inv k _ v)

-- A write into an instance that leaves its status result alone.
update_entry-Inv :
    (k : Kubelet) (key : String) (f : PodInstanceInfo → PodInstanceInfo)
    → ((info : PodInstanceInfo) → (f info).status_result ≡ info.status_result)
    → Inv k
    → Inv (record k { pod_status = update_entry key f (lookup key k.pod_status) k.pod_status })
update_entry-Inv k key f kept v = elim (Option-cases (lookup key k.pod_status)) [
  | inl e ↦ Inv-maps refl (ap (λ t. update_entry key f t k.pod_status) e) v
  | inr (info, e) ↦ Inv-maps refl (ap (λ t. update_entry key f t k.pod_status) e) (
      insert_instance-Inv k key (f info) (v.tracked key (ap is_some e))
        (kept info ∙ v.unreported key info e) v)
]

survives-Inv : Survives Inv
survives-Inv = record {
  writes = λ k key f kept v. update_entry-Inv k key f kept v;
  reports = λ k key pod phase reason message here v.
      report_cached-Inv k pod phase reason message key (v.keyed key pod here) v;
}

pub handle_command-Inv :
    (w : World) (k : Kubelet) (e : Envelope) → Inv k → Inv (handle_command w (handler k) e k).0
handle_command-Inv = handle_command_kept Inv survives-Inv

pub book_response-Inv :
    (k : Kubelet) (e : Envelope) (r : Response) → Inv k → Inv (book_response k e r)
book_response-Inv = book_response_kept Inv survives-Inv

pub process_command-Inv :
    (w : World) (k : Kubelet) (e : Envelope) → Inv k → Inv (process_command w k e)
unfolding process_command
process_command-Inv w k e v =
    let (k1, response) = handle_command w (handler k) e k in
    let booked : Inv (book_response k1 e response) =
      book_response-Inv k1 e response (handle_command-Inv w k e v) in
    Inv-maps refl refl booked
