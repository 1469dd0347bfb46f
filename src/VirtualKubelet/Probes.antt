-- ===== src/VirtualKubelet/Probes.antt =====
-- What the endpoints of the health server tell.
use k8s_runpod_kubelet.Base.{
  ℕ, Bool, true, false, String, List, not, ◌≡◌, refl, sym, ap, ◌∙◌, inl, inr, Bool-cases, ok,
  if◌then◌else◌, eqb,
}
use k8s_runpod_kubelet.Config.Settings.{Config}
use k8s_runpod_kubelet.Providers.Manager.{Provider}
use k8s_runpod_kubelet.WsClient.Loop.{Loop, Phase, serving}
use k8s_runpod_kubelet.WsClient.Loop
use k8s_runpod_kubelet.WsClient.Link.{new_client}
use k8s_runpod_kubelet.WsClient.Reconnect.{is_serving, run-start-Inv}
use k8s_runpod_kubelet.VirtualKubelet.State.{Kubelet}
use k8s_runpod_kubelet.VirtualKubelet.Setup.{new_provider, client_config, ping}
use k8s_runpod_kubelet.VirtualKubelet.System.{Op, run}
use k8s_runpod_kubelet.VirtualKubelet.Preservation.{new_provider_made}
use k8s_runpod_kubelet.VirtualKubelet.Driven.{run-Reaches}
use k8s_runpod_kubelet.VirtualKubelet.Health.{
  HealthServer, Answer, http_error, written, health, new_health_server, handle_liveness,
  handle_readiness, handle_health, main_health_server, fails,
}

abbrev pub code_of {ℓ} : {Time : Type ℓ} → Answer Time → ℕ
code_of (http_error text code) = code
code_of (written code body) = code

-- What /health tells where the two probes answer these codes.
abbrev pub summary : (live ready : ℕ) → String
summary live ready =
    if eqb live 200 then (if eqb ready 200 then "healthy" else "not_ready") else "not_alive"

abbrev pub both_ok : (live ready : ℕ) → Bool
both_ok live ready = if eqb live 200 then eqb ready 200 else false

-- /health agrees with the two probes, whatever their functions are: it answers 200 and healthy if
-- /healthz and /readyz both answer 200, else 503 and not healthy; its status names the liveness
-- probe if that one fails, else the readiness probe if that one fails.
handle_health-probes {ℓ κ} :
    {S : Type ℓ} {Time : Type κ} (hs : HealthServer S) (s : S) (now : Time)
    → let live = code_of (handle_liveness hs s now) in
      let ready = code_of (handle_readiness hs s now) in
      handle_health hs s now
      ≡ written
          (if both_ok live ready then 200 else 503)
          (health (summary live ready) (both_ok live ready) now)
unfolding handle_health handle_liveness handle_readiness
handle_health-probes hs s now = elim (Bool-cases (fails hs.liveness_func s)) [
  | inl e ↦ elim (Bool-cases (fails hs.readiness_func s)) [
    | inl f ↦ rw (e, f) refl
    | inr f ↦ rw (e, f) refl
  ]
  | inr e ↦ elim (Bool-cases (fails hs.readiness_func s)) [
    | inl f ↦ rw (e, f) refl
    | inr f ↦ rw (e, f) refl
  ]
]

-- The client of a kubelet that runs counts as connected exactly in the message loop.
connected_serving :
    (cfg : Config) (node ip : String) (client : Provider) (k : Kubelet) (ops : List Op)
    → new_provider cfg node ip client ≡ ok k
    → (run k ops).ws_client.link.connected ≡ is_serving (run k ops).ws_client.phase
connected_serving cfg node ip client k ops h =
    let (m, made) = new_provider_made cfg node ip client k h in
    let (es, p) = run-Reaches k ops in
    let c = client_config cfg in
    let q : (run k ops).ws_client ≡ Loop.run (Loop.start (new_client c)) es =
      p ∙ ap (λ (t : Kubelet). Loop.run t.ws_client es) (sym made) in
    ap (λ (t : Loop). t.link.connected) q
    ∙ (run-start-Inv c es).online
    ∙ ap (λ (t : Loop). is_serving t.phase) (sym q)

main_health_server_ready :
    (cfg : Config) (k : Kubelet)
    → fails (main_health_server cfg).readiness_func k ≡ not k.ws_client.link.connected
unfolding main_health_server new_health_server ping
main_health_server_ready cfg k = elim (Bool-cases k.ws_client.link.connected) [
  | inl e ↦ rw e refl
  | inr e ↦ rw e refl
]

-- The answers of a server whose owner is alive, and ready as this tells.
abbrev pub Tells {ℓ κ} : {S : Type ℓ} {Time : Type κ} → HealthServer S → S → Time → Bool → Type κ
Tells hs s now ready =
    (code_of (handle_readiness hs s now) ≡ (if ready then 200 else 503))
    × (code_of (handle_liveness hs s now) ≡ 200)
    × (handle_health hs s now
        ≡ written (if ready then 200 else 503)
            (health (if ready then "healthy" else "not_ready") ready now))

tells {ℓ κ} :
    {S : Type ℓ} {Time : Type κ} (hs : HealthServer S) (s : S) (now : Time) (ready : Bool)
    → fails hs.liveness_func s ≡ false
    → fails hs.readiness_func s ≡ not ready
    → Tells hs s now ready
unfolding handle_health handle_liveness handle_readiness
tells hs s now true p q = rw (p, q) (refl, refl, refl)
tells hs s now false p q = rw (p, q) (refl, refl, refl)

-- The health server that main makes, over the state of a kubelet that runs: whatever the
-- controllers, the platform, the providers and the network have done, /readyz answers 200 exactly
-- while the connection loop is in the message loop and 503 else, /healthz always answers 200, and
-- /health then tells healthy or not_ready, never not_alive.
pub probes-serving {κ} :
    {Time : Type κ} (cfg : Config) (node ip : String) (client : Provider) (k : Kubelet)
    (ops : List Op) (now : Time)
    → new_provider cfg node ip client ≡ ok k
    → Tells (main_health_server cfg) (run k ops) now (is_serving (run k ops).ws_client.phase)
unfolding main_health_server new_health_server
probes-serving cfg node ip client k ops now h =
    tells (main_health_server cfg) (run k ops) now (is_serving (run k ops).ws_client.phase) refl (
      main_health_server_ready cfg (run k ops)
      ∙ ap not (connected_serving cfg node ip client k ops h))
