-- ===== src/VirtualKubelet/Driven.antt =====
-- The kubelet drives its client by the events of the client alone.
use mathlib.Core.Path.{subst}
use k8s_runpod_kubelet.Base.{
  String, List, [], ◌∷◌, ◌++◌, Option, none, some, ◌≡◌, refl, ap, ◌∙◌, sym, inl, inr, Bool-cases,
  GoError, insert,
}
use k8s_runpod_kubelet.Kubernetes.{Pod}
use k8s_runpod_kubelet.Protocol.Messages.{
  Envelope, envelope_response, envelope_event, envelope_registration,
}
use k8s_runpod_kubelet.Protocol.Events.{Frame, response, event, registration, new_envelope}
use k8s_runpod_kubelet.Protocol.Events
use k8s_runpod_kubelet.Providers.World.{World}
use k8s_runpod_kubelet.Command.Handler.{handle_command}
use k8s_runpod_kubelet.WsClient.Link.{
  Link, Transfer, sends, takes_command, transfer, send_payload, send_event, send_response,
  send_registration, take_command,
}
use k8s_runpod_kubelet.WsClient.Loop.{
  Loop, Phase, Event, meanwhile, dialing, serving, stopped, backing_off, refused, react, step,
}
use k8s_runpod_kubelet.WsClient.Loop
use k8s_runpod_kubelet.WsClient.Reconnect.{react-meanwhile}
use k8s_runpod_kubelet.VirtualKubelet.State.{
  Kubelet, update_pod_status, create_pod, update_pod, delete_pod, notify_pods, notify_backend,
  created_event, get_pod_key, new_instance,
}
use k8s_runpod_kubelet.VirtualKubelet.Commands.{
  handler, book_response, process_command, process_taken, process_next,
}
use k8s_runpod_kubelet.VirtualKubelet.Setup.{registration_of, registered, register_with_backend}
use k8s_runpod_kubelet.VirtualKubelet.System.{
  Op, creates, updates, deletes, processes, sets_callback, registers, network, apply, run,
}
use k8s_runpod_kubelet.VirtualKubelet.Draining.{received, process_next_eq}
use k8s_runpod_kubelet.VirtualKubelet.Replies.{handle_command-Has, book_response-Has}

run-append : (s : Loop) (es fs : List Event) → Loop.run s (es ++ fs) ≡ Loop.run (Loop.run s es) fs
unfolding Loop.run
run-append s [] fs = refl
run-append s (e ∷ es) fs = run-append (step s e) es fs

-- The one client is reached from the other by events.
abbrev pub Reaches : Loop → Loop → Type 0
Reaches c d = (es : List Event) × (d ≡ Loop.run c es)

same : (c d : Loop) → d ≡ c → Reaches c d
unfolding Loop.run
same c d p = ([], p)

moved : (c d e : Loop) → e ≡ d → Reaches c d → Reaches c e
moved c d e p (es, q) = (es, p ∙ q)

then_one :
    (c d e : Loop) (op : Transfer)
    → e ≡ record d { link = transfer d.link op }
    → Reaches c d
    → Reaches c e
unfolding Loop.run step
then_one c d e op p (es, q) = (
  es ++ meanwhile op ∷ [],
  p
      ∙ sym (
          run-append c es (meanwhile op ∷ [])
          ∙ ap (λ s. react s.phase (meanwhile op) s) (sym q)
          ∙ react-meanwhile d.phase op d),
)

pub update_pod_status-client :
    (k : Kubelet) (pod : Pod) (phase reason message : String)
    → (update_pod_status k pod phase reason message).0.ws_client ≡ k.ws_client
unfolding update_pod_status
update_pod_status-client k pod phase reason message = elim (Bool-cases k.notify_set) [
  | inl e ↦ rw e refl
  | inr e ↦ rw e refl
]

notify_backend-Reaches :
    (c : Loop) (k : Kubelet) (e : Events.Event)
    → Reaches c k.ws_client
    → Reaches c (notify_backend k e).ws_client
unfolding notify_backend send_event send_payload transfer
notify_backend-Reaches c k e r =
    then_one c k.ws_client _
      (sends (new_envelope envelope_event (event e) k.ws_client.link.config.kubelet_id)) refl r

process_command-Reaches :
    (c : Loop) (w : World) (k : Kubelet) (e : Envelope)
    → Reaches c k.ws_client
    → Reaches c (process_command w k e).ws_client
unfolding process_command send_response send_payload transfer
process_command-Reaches c w k e r =
    let (k1, answer) = handle_command w (handler k) e k in
    let kept : (book_response k1 e answer).ws_client ≡ k.ws_client =
      book_response-Has k.ws_client k1 e answer (handle_command-Has k.ws_client w k e refl) in
    then_one c k.ws_client _
      (sends (new_envelope envelope_response (response answer) k.ws_client.link.config.kubelet_id))
      (ap (λ (d : Loop). record d { link = (send_response d.link answer).0 }) kept) r

took :
    (c : Loop) (e : Envelope) (es : List Envelope)
    → c.link.commands ≡ e ∷ es
    → record c { link = record c.link { commands = es } }
      ≡ record c { link = transfer c.link takes_command }
unfolding transfer take_command
took c e es q = rw q refl

process_next-Reaches :
    (w : World) (k : Kubelet) (es : List Envelope)
    → k.ws_client.link.commands ≡ es
    → Reaches k.ws_client (process_next w k).ws_client
unfolding process_next process_taken take_command
process_next-Reaches w k [] q = same _ _ (rw q refl)
process_next-Reaches w k (e ∷ es) q =
    let taken : Reaches k.ws_client (received k es).ws_client =
      then_one _ k.ws_client _ takes_command (took k.ws_client e es q) (same _ _ refl) in
    subst (λ t. Reaches k.ws_client t.ws_client) (sym (process_next_eq w k e es q))
      (process_command-Reaches k.ws_client w (received k es) e taken)

registered-Reaches :
    (c : Loop) (k : Kubelet) (l : Link) (o : Option GoError)
    → Reaches c (record k.ws_client { link = l })
    → Reaches c (registered k (l, o)).ws_client
unfolding registered
registered-Reaches c k l (some x) r = r
registered-Reaches c k l none r = notify_backend-Reaches c _ _ r

apply-Reaches : (k : Kubelet) (op : Op) → Reaches k.ws_client (apply k op).ws_client
unfolding apply create_pod update_pod delete_pod notify_pods register_with_backend Loop.run
    send_registration send_payload transfer
apply-Reaches k (creates now pod) =
    let stored : Kubelet = record k {
      pods = insert (get_pod_key pod) pod k.pods;
      pod_status = insert (get_pod_key pod) (new_instance now pod) k.pod_status;
    } in
    let e = created_event pod in
    moved _ _ _ (update_pod_status-client (notify_backend stored e) pod _ _ _)
      (notify_backend-Reaches k.ws_client stored e (same _ _ refl))
apply-Reaches k (updates pod) = same _ _ refl
apply-Reaches k (deletes pod) = notify_backend-Reaches k.ws_client k _ (same _ _ refl)
apply-Reaches k (processes w) = process_next-Reaches w k _ refl
apply-Reaches k sets_callback = same _ _ refl
apply-Reaches k registers =
    let l = k.ws_client.link in
    let t = send_registration l (registration_of k) in
    registered-Reaches k.ws_client k t.0 t.1 (
      then_one _ k.ws_client _
        (sends (
          new_envelope envelope_registration (registration (registration_of k))
            l.config.kubelet_id))
        refl (same _ _ refl))
apply-Reaches k (network e) = (e ∷ [], refl)

-- Whatever is done with the kubelet, its client goes through the states of the connection loop
-- under some events of the loop and of the other goroutines: no operation of the kubelet does to the
-- client what these events cannot do. What holds of every run of the client holds in the kubelet.
pub run-Reaches : (k : Kubelet) (ops : List Op) → Reaches k.ws_client (run k ops).ws_client
unfolding run Loop.run
run-Reaches k [] = same _ _ refl
run-Reaches k (op ∷ ops) =
    let (es, p) = apply-Reaches k op in
    let (fs, q) = run-Reaches (apply k op) ops in
    (es ++ fs, q ∙ ap (λ c. Loop.run c fs) p ∙ sym (run-append k.ws_client es fs))
