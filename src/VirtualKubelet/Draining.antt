-- ===== src/VirtualKubelet/Draining.antt =====
-- The rounds of processCommands answer every command that is waiting, in order.
use mathlib.Core.Path.{ap₂}
use mathlib.Core.List.{append_assoc, append-nil}
use k8s_runpod_kubelet.Base.{
  ◌+◌, ◌≤◌, ◌<◌, true, String, List, [], ◌∷◌, ◌++◌, Option, none, some, length, length-append, ◌≡◌,
  refl, ap, ◌∙◌, sym, arith,
}
use k8s_runpod_kubelet.Protocol.Messages.{Envelope, envelope_response}
use k8s_runpod_kubelet.Protocol.Events.{Frame, Payload, response, new_envelope}
use k8s_runpod_kubelet.Providers.World.{World}
use k8s_runpod_kubelet.Command.Handler.{handle_command}
use k8s_runpod_kubelet.Command.Answers.{handle_command-IsWellFormed}
use k8s_runpod_kubelet.WsClient.Link.{Link, take_command}
use k8s_runpod_kubelet.VirtualKubelet.State.{Kubelet, with_link}
use k8s_runpod_kubelet.VirtualKubelet.Commands.{
  handler, process_command, process_taken, process_next,
}
use k8s_runpod_kubelet.VirtualKubelet.Replies.{process_command-response}

-- One round for each of the worlds.
unfoldable pub rounds : List World → Kubelet → Kubelet
rounds [] k = k
rounds (w ∷ ws) k = rounds ws (process_next w k)

-- The command that a payload answers.
abbrev answered_by : Payload → Option String
answered_by (response r) = some r.command_id
answered_by p = none

abbrev pub answers : List Frame → List (Option String)
answers [] = []
answers (f ∷ fs) = answered_by f.payload ∷ answers fs

abbrev pub asked : List Envelope → List (Option String)
asked [] = []
asked (e ∷ es) = some e.id ∷ asked es

-- The queue of commands is empty, and behind the frames there is one answer to each command.
abbrev pub Drained : Link → Link → Type 0
Drained l t =
    (fs : List Frame) × (t ≡ record l { commands = []; outbound = l.outbound ++ fs })
    × (answers fs ≡ asked l.commands)

unfoldable pub frame_of : World → Kubelet → Envelope → Frame
frame_of w k e =
    new_envelope envelope_response (response (handle_command w (handler k) e k).1)
      k.ws_client.link.config.kubelet_id

-- The kubelet behind the receive of an envelope.
abbrev pub received : Kubelet → List Envelope → Kubelet
received k rest = with_link k (record k.ws_client.link { commands = rest })

pub process_next_eq :
    (w : World) (k : Kubelet) (e : Envelope) (rest : List Envelope)
    → k.ws_client.link.commands ≡ e ∷ rest
    → process_next w k ≡ process_command w (received k rest) e
unfolding process_next process_taken take_command
process_next_eq w k e rest q = rw q refl

pub next_round :
    (w : World) (k : Kubelet) (e : Envelope) (rest : List Envelope)
    → k.ws_client.link.commands ≡ e ∷ rest
    → k.ws_client.link.connected ≡ true
    → length k.ws_client.link.outbound < 200
    → let f = frame_of w (received k rest) e in
      (process_next w k).ws_client.link
      ≡ record k.ws_client.link { commands = rest; outbound = k.ws_client.link.outbound ++ f ∷ [] }
unfolding frame_of
next_round w k e rest q on room =
    ap (λ t. t.ws_client.link) (process_next_eq w k e rest q)
    ∙ process_command-response w (received k rest) e on room

frame_answers :
    (w : World) (k : Kubelet) (e : Envelope) → answered_by (frame_of w k e).payload ≡ some e.id
unfolding frame_of new_envelope
frame_answers w k e = ap some (handle_command-IsWellFormed w (handler k) e k).0

rounds-Drained :
    (ws : List World) (es : List Envelope) (k : Kubelet)
    → k.ws_client.link.commands ≡ es
    → k.ws_client.link.connected ≡ true
    → length ws ≡ length es
    → length k.ws_client.link.outbound + length es ≤ 200
    → (fs : List Frame) × ((rounds ws k).ws_client.link
        ≡ record k.ws_client.link { commands = []; outbound = k.ws_client.link.outbound ++ fs })
      × (answers fs ≡ asked es)
unfolding rounds
rounds-Drained [] [] k q on n room =
    let l = k.ws_client.link in
    ([], λ i. record l { commands = q i; outbound = sym (append-nil l.outbound) i }, refl)
rounds-Drained (w ∷ ws) [] k q on n room = absurd (omega (arith, n))
rounds-Drained [] (e ∷ es) k q on n room = absurd (omega (arith, n))
rounds-Drained (w ∷ ws) (e ∷ es) k q on n room =
    let l = k.ws_client.link in
    let f = frame_of w (received k es) e in
    let next = next_round w k e es q on (omega (arith, room)) in
    let queued = ap (λ t. length t.outbound) next ∙ length-append l.outbound (f ∷ []) in
    let (fs, r, a) =
      rounds-Drained ws es (process_next w k) (ap (λ t. t.commands) next)
        (ap (λ t. t.connected) next ∙ on) (omega (arith, n)) (omega (arith, queued, room)) in
    (
      f ∷ fs,
      r
          ∙ ap (λ (t : Link). record t { commands = []; outbound = t.outbound ++ fs }) next
          ∙ ap (λ o. record l { commands = []; outbound = o })
              (append_assoc l.outbound (f ∷ []) fs),
      ap₂ (λ o os. o ∷ os) (frame_answers w (received k es) e) a,
    )

-- While the client is connected, as many rounds of processCommands as there are commands waiting
-- empty the queue of commands, provided the outbound queue has room for as many frames: behind what
-- it holds there is then exactly one response to each command, in the order of the commands,
-- whatever these are and whatever the providers answer. Nothing else of what the client shares
-- changes.
pub rounds-drain :
    (ws : List World) (k : Kubelet)
    → let l = k.ws_client.link in
      l.connected ≡ true
      → length ws ≡ length l.commands
      → length l.outbound + length l.commands ≤ 200
      → Drained l (rounds ws k).ws_client.link
rounds-drain ws k on n room = rounds-Drained ws k.ws_client.link.commands k refl on n room
