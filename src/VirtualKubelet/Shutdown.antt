-- ===== src/VirtualKubelet/Shutdown.antt =====
-- What remains possible after Cleanup.
use k8s_runpod_kubelet.Base.{String, List, some, false, ok, plain, ◌≡◌, ap, sym, ◌∙◌}
use k8s_runpod_kubelet.Config.Settings.{Config}
use k8s_runpod_kubelet.Providers.Manager.{Provider}
use k8s_runpod_kubelet.WsClient.Link.{new_client}
use k8s_runpod_kubelet.WsClient.Loop.{Loop, Phase, Event, stopped}
use k8s_runpod_kubelet.WsClient.Loop
use k8s_runpod_kubelet.WsClient.Stopping.{run-stop}
use k8s_runpod_kubelet.VirtualKubelet.State.{Kubelet}
use k8s_runpod_kubelet.VirtualKubelet.Setup.{new_provider, client_config, cleanup, ping}
use k8s_runpod_kubelet.VirtualKubelet.System.{Op, run}
use k8s_runpod_kubelet.VirtualKubelet.Preservation.{new_provider_made}
use k8s_runpod_kubelet.VirtualKubelet.Driven.{run-Reaches}

-- Without a connection Ping fails.
ping-offline :
    (k : Kubelet)
    → k.ws_client.link.connected ≡ false
    → ping k ≡ some (plain "WebSocket client not connected to backend")
unfolding ping
ping-offline k h = rw h

-- After Cleanup, in whatever state a kubelet has come to, the connection loop has returned. It does
-- not start again, and Ping, on which the readiness depends, fails, whatever the controllers, the
-- platform, the providers and the network do afterwards.
pub cleanup-stopped :
    (cfg : Config) (node ip : String) (client : Provider) (k : Kubelet) (ops after : List Op)
    → new_provider cfg node ip client ≡ ok k
    → let t = run (cleanup (run k ops)).0 after in
      (t.ws_client.phase ≡ stopped)
      × (ping t ≡ some (plain "WebSocket client not connected to backend"))
unfolding cleanup
cleanup-stopped cfg node ip client k ops after h =
    let (m, made) = new_provider_made cfg node ip client k h in
    let (es, p) = run-Reaches k ops in
    let (fs, q) = run-Reaches (cleanup (run k ops)).0 after in
    let c = client_config cfg in
    let begun : (run k ops).ws_client ≡ Loop.run (Loop.start (new_client c)) es =
      p ∙ ap (λ (s : Kubelet). Loop.run s.ws_client es) (sym made) in
    let reached = q ∙ ap (λ s. Loop.run (Loop.stop s) fs) begun in
    let (phase, offline, _, _) = run-stop c es fs in
    (
      ap (λ (s : Loop). s.phase) reached ∙ phase,
      ping-offline _ (ap (λ (s : Loop). s.link.connected) reached ∙ offline),
    )
