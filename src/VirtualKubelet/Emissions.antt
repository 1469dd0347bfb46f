-- ===== src/VirtualKubelet/Emissions.antt =====
-- pkg/virtual_kubelet/kubelet.go: which frames each operation puts into the queue.
use k8s_runpod_kubelet.Base.{ℕ, List, [], ◌∷◌, lookup, ◌≡◌, refl, sym, ap, ◌∙◌}
use k8s_runpod_kubelet.Kubernetes.{Pod}
use k8s_runpod_kubelet.Protocol.Messages.{Envelope, envelope_event}
use k8s_runpod_kubelet.Protocol.Events.{Event, Frame, new_envelope}
use k8s_runpod_kubelet.Protocol.Events
use k8s_runpod_kubelet.Providers.World.{World}
use k8s_runpod_kubelet.Command.Handler.{handle_command}
use k8s_runpod_kubelet.WsClient.Link.{Link, send_payload, send_event, send_response, take_command}
use k8s_runpod_kubelet.WsClient.Loop.{Loop, step}
use k8s_runpod_kubelet.WsClient.Sending.{emitted, send_envelope-emitted, emitted-nil}
use k8s_runpod_kubelet.VirtualKubelet.State.{
  Kubelet, with_link, notify_backend, get_pod_key, created_event, deleted_event, instance_id,
  create_pod, update_pod, delete_pod, notify_pods,
}
use k8s_runpod_kubelet.VirtualKubelet.Commands.{
  handler, book_response, process_command, process_taken, process_next,
}
use k8s_runpod_kubelet.VirtualKubelet.System.{
  Op, creates, updates, deletes, processes, sets_callback, registers, network, apply,
}
use k8s_runpod_kubelet.VirtualKubelet.Replies.{handle_command-Has, book_response-Has}
use k8s_runpod_kubelet.VirtualKubelet.Draining.{frame_of, received, process_next_eq}
use k8s_runpod_kubelet.VirtualKubelet.Driven.{update_pod_status-client}
use k8s_runpod_kubelet.VirtualKubelet.Registering.{
  registration_frame, ready_frame, register_with_backend_lem,
}

abbrev pub event_frame : Kubelet → Event → Frame
event_frame k e =
    new_envelope envelope_event (Events.Payload.event e) k.ws_client.link.config.kubelet_id

abbrev pub answers_to : World → Kubelet → List Envelope → List Frame
answers_to w k [] = []
answers_to w k (e ∷ rest) = frame_of w (received k rest) e ∷ []

-- What an operation wants to send, in this order.
abbrev pub frames_of : Kubelet → Op → List Frame
frames_of k (creates now pod) = event_frame k (created_event pod) ∷ []
frames_of k (updates pod) = []
frames_of k (deletes pod) =
    event_frame k (deleted_event pod (instance_id (lookup (get_pod_key pod) k.pod_status))) ∷ []
frames_of k (processes w) = answers_to w k k.ws_client.link.commands
frames_of k sets_callback = []
frames_of k registers = registration_frame k ∷ ready_frame k ∷ []
frames_of k (network e) = []

-- The client behind the receive of a command, where the operation makes one.
abbrev pub tail_of : List Envelope → List Envelope
tail_of [] = []
tail_of (e ∷ rest) = rest

abbrev pub received_by : Link → Op → Link
received_by l (processes w) = record l { commands = tail_of l.commands }
received_by l op = l

-- The client after an operation: the frames are in the queue, or an event of the connection happened.
abbrev pub Emits : Kubelet → Op → Kubelet → Type 0
Emits k (network e) t = t.ws_client ≡ step k.ws_client e
Emits k op t =
    t.ws_client
    ≡ (with_link k (emitted (received_by k.ws_client.link op) (frames_of k op))).ws_client

notify_backend-client :
    (k : Kubelet) (e : Event)
    → (notify_backend k e).ws_client
      ≡ (with_link k (emitted k.ws_client.link (event_frame k e ∷ []))).ws_client
unfolding notify_backend send_event send_payload
notify_backend-client k e =
    ap (λ l. (with_link k l).ws_client) (send_envelope-emitted k.ws_client.link (event_frame k e))

create_pod-client :
    (now : ℕ) (k : Kubelet) (pod : Pod) → Emits k (creates now pod) (create_pod now k pod)
unfolding create_pod notify_backend
create_pod-client now k pod =
    update_pod_status-client _ pod _ _ _ ∙ notify_backend-client k (created_event pod)

delete_pod-client : (k : Kubelet) (pod : Pod) → Emits k (deletes pod) (delete_pod k pod)
unfolding delete_pod
delete_pod-client k pod = notify_backend-client k _

-- A round that takes a command leaves its response, whatever the room.
process_command-client :
    (w : World) (k : Kubelet) (e : Envelope)
    → (process_command w k e).ws_client
      ≡ (with_link k (emitted k.ws_client.link (frame_of w k e ∷ []))).ws_client
unfolding process_command frame_of send_response send_payload
process_command-client w k e =
    let (k1, r) = handle_command w (handler k) e k in
    let kept : (book_response k1 e r).ws_client ≡ k.ws_client =
      book_response-Has k.ws_client k1 e r (handle_command-Has k.ws_client w k e refl) in
    ap (λ (c : Loop). record c { link = (send_response c.link r).0 }) kept
    ∙ ap (λ l. (with_link k l).ws_client) (send_envelope-emitted k.ws_client.link (frame_of w k e))

process_nothing : (w : World) (k : Kubelet) → k.ws_client.link.commands ≡ [] → process_next w k ≡ k
unfolding process_next process_taken take_command
process_nothing w k q = simp q

process_taken-client :
    (w : World) (k : Kubelet) (es : List Envelope)
    → k.ws_client.link.commands ≡ es
    → (process_next w k).ws_client
      ≡ (with_link k (
          emitted
            (record k.ws_client.link { commands = tail_of es })
            (answers_to w k es))).ws_client
process_taken-client w k [] q =
    ap (λ t. t.ws_client) (process_nothing w k q)
    ∙ ap (λ es. (with_link k (record k.ws_client.link { commands = es })).ws_client) q
    ∙ ap (λ l. (with_link k l).ws_client)
        (sym (emitted-nil (record k.ws_client.link { commands = [] })))
process_taken-client w k (e ∷ rest) q =
    ap (λ t. t.ws_client) (process_next_eq w k e rest q)
    ∙ process_command-client w (received k rest) e

-- What an operation of the kubelet does to its client, in any state. If the client is connected,
-- CreatePod puts the event of the pod, DeletePod the event of its removal, with the id that the
-- provider gave the pod, a round of processCommands that takes a command the response to it, and
-- registerWithBackend the registration and the event kubelet_ready, behind the frames that are there,
-- as many as the channel of 200 has room for; other operations put nothing there. If it is not
-- connected, the frames are dropped. A round takes the first command from the channel. Nothing else of
-- the client changes, but for the events of the connection.
pub apply-Emits : (k : Kubelet) (op : Op) → Emits k op (apply k op)
unfolding apply update_pod notify_pods
apply-Emits k (creates now pod) = create_pod-client now k pod
apply-Emits k (updates pod) =
    ap (λ l. (with_link k l).ws_client) (sym (emitted-nil k.ws_client.link))
apply-Emits k (deletes pod) = delete_pod-client k pod
apply-Emits k (processes w) = process_taken-client w k k.ws_client.link.commands refl
apply-Emits k sets_callback =
    ap (λ l. (with_link k l).ws_client) (sym (emitted-nil k.ws_client.link))
apply-Emits k registers = ap (λ t. t.ws_client) (register_with_backend_lem k)
apply-Emits k (network e) = refl
