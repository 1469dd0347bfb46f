-- ===== src/WsClient/Queues.antt =====
-- The two queues of the client: bounded, in order, and nothing lost between enqueueing and taking.
use k8s_runpod_kubelet.Base.{
  ◌≤◌, List, [], ◌∷◌, ◌++◌, ◌≡◌, sym, ap, ◌∙◌, Option, none, some, arith, length, length-append,
  GoError,
}
use mathlib.Core.List.{append-nil, append_assoc}
use k8s_runpod_kubelet.Protocol.Events.{Frame}
use k8s_runpod_kubelet.WsClient.Config.{ClientConfig}
use k8s_runpod_kubelet.WsClient.Link.{
  Link, Transfer, sends, receives, takes_command, takes_outbound, new_client, send_envelope,
  take_outbound, transfer,
}
use k8s_runpod_kubelet.WsClient.Loop.{
  Loop, Phase, Event, meanwhile, dialing, serving, stopped, backing_off, refused, react, start,
  step, run,
}

-- The capacities of the channels.
pub record IsBounded (l : Link) : Type 0 where
  pub commands : length l.commands ≤ 100
  pub outbound : length l.outbound ≤ 200

transfer-IsBounded : (l : Link) (op : Transfer) → IsBounded l → IsBounded (transfer l op)
unfolding transfer
transfer-IsBounded l (sends f) v = ground (arith, length-append l.outbound (f ∷ []))
transfer-IsBounded l (receives e) v = ground (arith, length-append l.commands (e ∷ []))
transfer-IsBounded l takes_command v = ground arith
transfer-IsBounded l takes_outbound v = ground arith

-- What an event adds to the queue of frames, and what it takes from it.
abbrev accepted_by : Link → Frame → Option GoError → List Frame
accepted_by l f none = f ∷ []
accepted_by l f (some x) = []

abbrev listed {ℓ} : {A : Type ℓ} → Option A → List A
listed none = []
listed (some a) = a ∷ []

unfoldable pub accepted : Link → Event → List Frame
unfolding send_envelope
accepted l (meanwhile (sends f)) = accepted_by l f (send_envelope l f).1
accepted l _ = []

unfoldable pub taken : Link → Event → List Frame
unfolding take_outbound
taken l (meanwhile takes_outbound) = listed (take_outbound l).1
taken l _ = []

unfoldable pub all_accepted : Loop → List Event → List Frame
all_accepted s [] = []
all_accepted s (e ∷ es) = accepted s.link e ++ all_accepted (step s e) es

unfoldable pub all_taken : Loop → List Event → List Frame
all_taken s [] = []
all_taken s (e ∷ es) = taken s.link e ++ all_taken (step s e) es

react-outbound :
    (p : Phase) (e : Event) (s : Loop)
    → s.link.outbound ++ accepted s.link e ≡ taken s.link e ++ (react p e s).link.outbound
unfolding react accepted taken
react-outbound dialing (meanwhile (sends f)) s = ground (arith, append-nil s.link.outbound)
react-outbound dialing (meanwhile (receives e)) s = ground (arith, append-nil s.link.outbound)
react-outbound dialing (meanwhile takes_command) s = ground (arith, append-nil s.link.outbound)
react-outbound dialing (meanwhile takes_outbound) s = ground (arith, append-nil s.link.outbound)
react-outbound p e s = ground (arith, append-nil s.link.outbound)

step-outbound :
    (s : Loop) (e : Event)
    → s.link.outbound ++ accepted s.link e ≡ taken s.link e ++ (step s e).link.outbound
unfolding step
step-outbound s e = react-outbound s.phase e s

-- Over any events of the loop and of the other goroutines, the frames that were in the queue at the
-- start, followed by those that sendEnvelope accepted, are those that the writer took, in the order
-- in which it took them, followed by those that are still in the queue: no frame is lost in the
-- queue, none is duplicated and none overtakes another, also across connections.
pub run-outbound :
    (s : Loop) (es : List Event)
    → s.link.outbound ++ all_accepted s es ≡ all_taken s es ++ (run s es).link.outbound
unfolding run all_accepted all_taken
run-outbound s [] = append-nil s.link.outbound
run-outbound s (e ∷ es) =
    sym (append_assoc s.link.outbound (accepted s.link e) (all_accepted (step s e) es))
    ∙ ap (λ t. t ++ all_accepted (step s e) es) (step-outbound s e)
    ∙ append_assoc (taken s.link e) (step s e).link.outbound (all_accepted (step s e) es)
    ∙ ap (◌++◌ (taken s.link e)) (run-outbound (step s e) es)
    ∙ sym
        (append_assoc (taken s.link e) (all_taken (step s e) es) (run (step s e) es).link.outbound)

react-IsBounded :
    (p : Phase) (e : Event) (s : Loop) → IsBounded s.link → IsBounded (react p e s).link
unfolding react
react-IsBounded dialing (meanwhile op) s v = transfer-IsBounded s.link op v
react-IsBounded serving (meanwhile op) s v = transfer-IsBounded s.link op v
react-IsBounded stopped (meanwhile op) s v = transfer-IsBounded s.link op v
react-IsBounded (backing_off w) (meanwhile op) s v = transfer-IsBounded s.link op v
react-IsBounded (refused w) (meanwhile op) s v = transfer-IsBounded s.link op v
react-IsBounded p e s v = ground arith

run-IsBounded : (s : Loop) (es : List Event) → IsBounded s.link → IsBounded (run s es).link
unfolding run step
run-IsBounded s [] v = v
run-IsBounded s (e ∷ es) v = run-IsBounded (step s e) es (react-IsBounded s.phase e s v)

-- From a new client on, the command channel never holds more than its 100 envelopes and the
-- outbound channel never more than its 200 frames.
run-start-IsBounded :
    (c : ClientConfig) (es : List Event) → IsBounded (run (start (new_client c)) es).link
unfolding start new_client
run-start-IsBounded c es = run-IsBounded _ es (omega arith)
