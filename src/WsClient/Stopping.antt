-- ===== src/WsClient/Stopping.antt =====
-- What remains possible once the connection loop has seen the end of its context.
use k8s_runpod_kubelet.Base.{false, List, [], ◌∷◌, ◌++◌, ◌≡◌, refl, ap, ◌∙◌, arith}
use k8s_runpod_kubelet.WsClient.Config.{ClientConfig}
use k8s_runpod_kubelet.WsClient.Link.{Link, sends, new_client}
use k8s_runpod_kubelet.WsClient.Loop.{
  Loop, Phase, Event, cancel, meanwhile, dialing, serving, stopped, backing_off, refused, react,
  start, step, stop, run,
}
use k8s_runpod_kubelet.WsClient.Queues.{accepted, all_accepted}
use k8s_runpod_kubelet.WsClient.Reconnect.{Inv, is_serving, run-start-Inv, step-Inv, run-Inv}

react-cancel : (p : Phase) (s : Loop) → s.phase ≡ p → (react p cancel s).phase ≡ stopped
unfolding react
react-cancel stopped s q = q
react-cancel dialing s q = refl
react-cancel serving s q = refl
react-cancel (backing_off w) s q = refl
react-cancel (refused w) s q = refl

step-cancel : (s : Loop) → (step s cancel).phase ≡ stopped
unfolding step
step-cancel s = react-cancel s.phase s refl

react-stopped : (e : Event) (s : Loop) → s.phase ≡ stopped → (react stopped e s).phase ≡ stopped
unfolding react
react-stopped e s q = ground arith

step-stopped : (s : Loop) (e : Event) → s.phase ≡ stopped → (step s e).phase ≡ stopped
unfolding step
step-stopped s e q = ap (λ p. (react p e s).phase) q ∙ react-stopped e s q

run-stopped : (s : Loop) (es : List Event) → s.phase ≡ stopped → (run s es).phase ≡ stopped
unfolding run
run-stopped s [] q = q
run-stopped s (e ∷ es) q = run-stopped (step s e) es (step-stopped s e q)

accepted-offline : (l : Link) (e : Event) → l.connected ≡ false → accepted l e ≡ []
unfolding accepted
accepted-offline l (meanwhile (sends f)) h = rw h
accepted-offline l e h = ground arith

accepted-stopped :
    (c : ClientConfig) (s : Loop) (es : List Event)
    → s.phase ≡ stopped
    → Inv c s
    → all_accepted s es ≡ []
unfolding all_accepted
accepted-stopped c s [] q v = refl
accepted-stopped c s (e ∷ es) q v =
    ap (λ fs. fs ++ all_accepted (step s e) es)
      (accepted-offline s.link e (v.online ∙ ap is_serving q))
    ∙ accepted-stopped c (step s e) es (step-stopped s e q) (step-Inv c s e v)

-- Wherever the connection loop stands when Stop is called, it then returns and never dials again,
-- whatever happens afterwards: the client stays without a connection, and sendEnvelope accepts no
-- frame any more. A call of sendEnvelope is one step here, its test of the connection included; one
-- that has passed the test before Stop counts as done before it.
pub run-stop :
    (c : ClientConfig) (es after : List Event)
    → let stopping = stop (run (start (new_client c)) es) in
      let t = run stopping after in
      (t.phase ≡ stopped)
      × (t.link.connected ≡ false)
      × (t.link.has_conn ≡ false)
      × (all_accepted stopping after ≡ [])
unfolding stop
run-stop c es after =
    let s = run (start (new_client c)) es in
    let stopping = step s cancel in
    let w = step-Inv c s cancel (run-start-Inv c es) in
    let here = step-cancel s in
    let v = run-Inv c stopping after w in
    let there = run-stopped stopping after here in
    (
      there,
      v.online ∙ ap is_serving there,
      v.has_conn ∙ ap is_serving there,
      accepted-stopped c stopping after here w,
    )
