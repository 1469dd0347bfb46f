-- ===== src/VirtualKubelet/Sections.antt =====
-- pkg/virtual_kubelet/kubelet.go: the operations of the kubelet as sequences of atomic sections,
-- between which other goroutines run. A section is what runs under podsMutex, a send or a receive on
-- a channel, or a call of the notification callback. The write that a deploy result or a rejection
-- makes to the cached pod, behind the section that looks it up, is taken as part of that section;
-- so is the call of a provider, which shares no state with the pods.
use k8s_runpod_kubelet.Base.{
  ℕ, List, [], ◌∷◌, Option, none, some, lookup, insert, delete, ◌≡◌, refl, ap, ◌∙◌, GoError,
}
use k8s_runpod_kubelet.Kubernetes.{Pod}
use k8s_runpod_kubelet.Protocol.Messages.{Envelope, Response}
use k8s_runpod_kubelet.Protocol.Events.{Event, kubelet_ready}
use k8s_runpod_kubelet.Providers.World.{World}
use k8s_runpod_kubelet.Providers.Status.{phase_pending}
use k8s_runpod_kubelet.Command.Handler.{handle_command}
use k8s_runpod_kubelet.WsClient.Link.{
  Link, takes_command, transfer, take_command, send_response, send_registration, heartbeat_tick,
}
use k8s_runpod_kubelet.WsClient.Loop.{meanwhile, react, step}
use k8s_runpod_kubelet.WsClient.Loop
use k8s_runpod_kubelet.WsClient.Reconnect.{react-meanwhile}
use k8s_runpod_kubelet.VirtualKubelet.State.{
  Kubelet, with_link, notify_backend, get_pod_key, update_pod_status, new_instance, created_event,
  instance_id, deleted_event, create_pod, update_pod, delete_pod, notify_pods,
}
use k8s_runpod_kubelet.VirtualKubelet.Commands.{
  handler, book_response, process_command, process_taken, process_next,
}
use k8s_runpod_kubelet.VirtualKubelet.Setup.{registration_of, registered, register_with_backend}
use k8s_runpod_kubelet.VirtualKubelet.System.{
  Op, creates, updates, deletes, processes, sets_callback, registers, network, apply,
}

-- A section of one of the operations, a tick of the client's heartbeatRoutine (`beats`), or what
-- else happens in the client.
pub data Section : Type 0 where
  stores : (now : ℕ) (pod : Pod) → Section
  announces : Event → Section
  reports_created removes replaces : Pod → Section
  handles : World → Envelope → Section
  books : Envelope → Response → Section
  responds : Response → Section
  sends_registration asks_callback beats : Section
  link_event : Loop.Event → Section

-- What a section does to the state.
unfoldable pub enter : Kubelet → Section → Kubelet
unfolding notify_backend update_pod_status get_pod_key
enter k (stores now pod) = record k {
  pods = insert (get_pod_key pod) pod k.pods;
  pod_status = insert (get_pod_key pod) (new_instance now pod) k.pod_status;
}
enter k (announces e) = notify_backend k e
enter k (reports_created pod) =
    (update_pod_status k pod phase_pending "" "Pod creation event sent to backend").0
enter k (removes pod) = record k {
  pods = delete (get_pod_key pod) k.pods;
  pod_status = delete (get_pod_key pod) k.pod_status;
}
enter k (replaces pod) = update_pod k pod
enter k (handles w e) = (handle_command w (handler k) e k).0
enter k (books e r) = book_response k e r
enter k (responds r) = with_link k (send_response k.ws_client.link r).0
enter k sends_registration = with_link k (send_registration k.ws_client.link (registration_of k)).0
enter k asks_callback = notify_pods k
enter k beats = with_link k (heartbeat_tick k.ws_client.link)
enter k (link_event e) = record k { ws_client = Loop.step k.ws_client e }

unfoldable pub enter_all : Kubelet → List Section → Kubelet
enter_all k [] = k
enter_all k (s ∷ ss) = enter_all (enter k s) ss

-- A round of processCommands for an envelope: the response is computed from the state in which the
-- command is handled.
abbrev pub round_sections : World → Kubelet → Envelope → List Section
round_sections w k e =
    let r = (handle_command w (handler k) e k).1 in handles w e ∷ books e r ∷ responds r ∷ []

abbrev next_sections : World → Kubelet → Link × Option Envelope → List Section
next_sections w k (l, none) = []
next_sections w k (l, some e) =
    link_event (meanwhile takes_command) ∷ round_sections w (with_link k l) e

abbrev ready_sections : Kubelet → Option GoError → List Section
ready_sections k (some x) = []
ready_sections k none = announces (kubelet_ready k.node_name) ∷ []

-- The sections of an operation that starts in this state.
unfoldable pub sections_of : Kubelet → Op → List Section
sections_of k (creates now pod) =
    stores now pod ∷ announces (created_event pod) ∷ reports_created pod ∷ []
sections_of k (updates pod) = replaces pod ∷ []
sections_of k (deletes pod) =
    announces (deleted_event pod (instance_id (lookup (get_pod_key pod) k.pod_status)))
    ∷ removes pod
    ∷ []
sections_of k (processes w) = next_sections w k (take_command k.ws_client.link)
sections_of k sets_callback = asks_callback ∷ []
sections_of k registers =
    sends_registration ∷ ready_sections k (send_registration k.ws_client.link (registration_of k)).1
sections_of k (network e) = link_event e ∷ []

take_event :
    (k : Kubelet)
    → enter k (link_event (meanwhile takes_command)) ≡ with_link k (take_command k.ws_client.link).0
unfolding enter step transfer
take_event k =
    ap (λ c. record k { ws_client = c })
      (react-meanwhile k.ws_client.phase takes_command k.ws_client)

round_alone :
    (w : World) (k : Kubelet) (e : Envelope)
    → enter_all k (round_sections w k e) ≡ process_command w k e
unfolding enter_all enter process_command
round_alone w k e = refl

next_alone :
    (w : World) (k : Kubelet) (t : Link × Option Envelope)
    → enter k (link_event (meanwhile takes_command)) ≡ with_link k t.0
    → enter_all k (next_sections w k t) ≡ process_taken w k t
unfolding enter_all process_taken
next_alone w k (l, none) q = refl
next_alone w k (l, some e) q =
    ap (λ s. enter_all s (round_sections w (with_link k l) e)) q ∙ round_alone w (with_link k l) e

register_alone :
    (k : Kubelet) (t : Link × Option GoError)
    → enter_all (with_link k t.0) (ready_sections k t.1) ≡ registered k t
unfolding enter_all enter registered
register_alone k (l, some x) = refl
register_alone k (l, none) = refl

-- Alone, with no other goroutine in between, the sections of an operation do what the operation
-- does as a whole.
enter_all-sections_of : (k : Kubelet) (op : Op) → enter_all k (sections_of k op) ≡ apply k op
unfolding enter_all enter sections_of apply create_pod delete_pod process_next register_with_backend
enter_all-sections_of k (creates now pod) = refl
enter_all-sections_of k (updates pod) = refl
enter_all-sections_of k (deletes pod) = refl
enter_all-sections_of k (processes w) =
    next_alone w k (take_command k.ws_client.link) (take_event k)
enter_all-sections_of k sets_callback = refl
enter_all-sections_of k registers = register_alone k _
enter_all-sections_of k (network e) = refl
