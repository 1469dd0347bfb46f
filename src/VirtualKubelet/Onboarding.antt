-- ===== src/VirtualKubelet/Onboarding.antt =====
-- pkg/virtual_kubelet/kubelet.go: what a connect sets off, by the callback that NewProvider sets.
use k8s_runpod_kubelet.Base.{
  List, [], ◌∷◌, Option, none, some, ◌≡◌, refl, ap, ◌∙◌, GoError, true, if◌then◌else◌,
}
use k8s_runpod_kubelet.WsClient.Link.{connect}
use k8s_runpod_kubelet.WsClient.Loop.{
  Loop, dialing, serving, backing_off, dial_fails, dial_succeeds, react, step,
}
use k8s_runpod_kubelet.WsClient.Connect.{dial_event, set_on_connect, on_connected}
use k8s_runpod_kubelet.WsClient.Sending.{with_frames}
use k8s_runpod_kubelet.VirtualKubelet.State.{Kubelet, with_link}
use k8s_runpod_kubelet.VirtualKubelet.Setup.{register_with_backend}
use k8s_runpod_kubelet.VirtualKubelet.System.{Op, registers, network, apply, run}
use k8s_runpod_kubelet.VirtualKubelet.Registering.{
  registration_frame, ready_frame, register_with_backend_lem,
}

-- The callback of the client that NewProvider makes.
unfoldable pub provider_callback : Option Op
unfolding set_on_connect
provider_callback = set_on_connect none registers

-- A call of connect that has this result, and the callback, where no other goroutine comes between.
unfoldable pub dial_ops : Option GoError → List Op
unfolding provider_callback on_connected
dial_ops result = network (dial_event result) ∷ on_connected provider_callback result

-- The kubelet behind it.
abbrev pub Onboards : Kubelet → Option GoError → Kubelet → Type 0
Onboards k none t =
    (t.ws_client.phase ≡ serving)
    × (t.ws_client.link
        ≡ with_frames (connect k.ws_client.link) (registration_frame k ∷ ready_frame k ∷ []))
Onboards k (some e) t =
    (t.ws_client.phase ≡ backing_off k.ws_client.reconnect_delay)
    × (t.ws_client.link ≡ k.ws_client.link)

abbrev connected : Loop → Loop
connected s = record s {
  phase = serving;
  reconnect_delay = s.link.config.reconnect_interval;
  link = connect s.link;
}

step-dial_succeeds : (s : Loop) → s.phase ≡ dialing → step s dial_succeeds ≡ connected s
unfolding step react
step-dial_succeeds s p = ap (λ x. react x dial_succeeds s) p

step-dial_fails :
    (s : Loop)
    → s.phase ≡ dialing
    → step s dial_fails ≡ record s { phase = backing_off s.reconnect_delay }
unfolding step react
step-dial_fails s p = ap (λ x. react x dial_fails s) p

registered_online :
    (k : Kubelet)
    → k.ws_client.link.connected ≡ true
    → (register_with_backend k).ws_client ≡ record k.ws_client {
      link = with_frames k.ws_client.link (registration_frame k ∷ ready_frame k ∷ []);
    }
registered_online k on =
    let l = k.ws_client.link in
    let fs = registration_frame k ∷ ready_frame k ∷ [] in
    ap (λ t. t.ws_client) (register_with_backend_lem k)
    ∙ ap (λ b. (with_link k (if b then with_frames l fs else l)).ws_client) on

-- When connectionManager is about to dial and its call of connect succeeds, the message loop runs and
-- the callback that NewProvider has set puts the registration of the kubelet and then the event
-- kubelet_ready behind the frames that are there, as many of the two as the channel has room for, if
-- nothing else comes between. If connect fails, the loop waits and nothing is sent.
pub run-dial_ops :
    (k : Kubelet) (result : Option GoError)
    → k.ws_client.phase ≡ dialing
    → Onboards k result (run k (dial_ops result))
unfolding run apply dial_ops connect
run-dial_ops k none p =
    let online = record k { ws_client = connected k.ws_client } in
    let there =
      ap (λ (c : Loop). (register_with_backend (record k { ws_client = c })).ws_client)
        (step-dial_succeeds k.ws_client p) in
    let done = there ∙ registered_online online refl in
    (ap (λ (c : Loop). c.phase) done, ap (λ (c : Loop). c.link) done)
run-dial_ops k (some e) p =
    let done = step-dial_fails k.ws_client p in
    (ap (λ (c : Loop). c.phase) done, ap (λ (c : Loop). c.link) done)
