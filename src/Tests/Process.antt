-- ===== src/Tests/Process.antt =====
-- The kubelet and the process as a whole.
use k8s_runpod_kubelet.Base.{
  true, false, String, List, [], ◌∷◌, some, none, ◌≡◌, refl, arith, plain, lookup, insert, pos,
}
use k8s_runpod_kubelet.Providers.Manager.{register_provider, new_manager}
use k8s_runpod_kubelet.Config.Settings.{is_provider_enabled}
use k8s_runpod_kubelet.Config.Sources.{Flags}
use k8s_runpod_kubelet.WsClient.Config.{default_client_config}
use k8s_runpod_kubelet.WsClient.Link.{Link, new_client}
use k8s_runpod_kubelet.WsClient.Loop.{Loop, stopped, dial_succeeds}
use k8s_runpod_kubelet.WsClient.Reconnect.{is_serving}
use k8s_runpod_kubelet.VirtualKubelet.State.{Kubelet}
use k8s_runpod_kubelet.VirtualKubelet.Status.{get_pod_status}
use k8s_runpod_kubelet.VirtualKubelet.Setup.{
  cleanup, ping, initial, new_provider, initialize_providers, init_loop, init_provider,
}
use k8s_runpod_kubelet.VirtualKubelet.System.{Op, creates, processes, registers, network, run}
use k8s_runpod_kubelet.VirtualKubelet.View.{absent, changes, replay, report}
use k8s_runpod_kubelet.VirtualKubelet.Refinement.{get_pod_status-replay}
use k8s_runpod_kubelet.VirtualKubelet.Draining.{rounds, Drained, rounds-drain}
use k8s_runpod_kubelet.VirtualKubelet.Shutdown.{cleanup-stopped}
use k8s_runpod_kubelet.VirtualKubelet.Health.{main_health_server}
use k8s_runpod_kubelet.VirtualKubelet.Probes.{Tells, probes-serving}
use k8s_runpod_kubelet.Cmd.Main.{CommandLine, Outside, exited}
use k8s_runpod_kubelet.Scenarios.{world, working, manager_of, data_of, envelope_of, pod, config}

abbrev fresh : Kubelet
fresh = initial config "node" "10.0.0.1" (manager_of working)

abbrev now : String
now = "2025-01-01T12:00:00Z"

abbrev ops : List Op
ops = creates 0 pod ∷ network dial_succeeds ∷ registers ∷ processes world ∷ []

get_pod_status-replay_example :
    get_pod_status (run fresh ops) "default" "web"
    ≡ report (replay (changes fresh ops) (λ _. absent) "default/web")
unfolding new_provider initialize_providers init_loop init_provider register_provider new_manager
    insert lookup is_provider_enabled
get_pod_status-replay_example =
    get_pod_status-replay config "node" "10.0.0.1" working fresh ops "default" "web" refl

cleanup-stopped_example :
    let t = run (cleanup (run fresh ops)).0 ops in
    (t.ws_client.phase ≡ stopped)
    × (ping t ≡ some (plain "WebSocket client not connected to backend"))
unfolding new_provider initialize_providers init_loop init_provider register_provider new_manager
    insert lookup is_provider_enabled
cleanup-stopped_example = cleanup-stopped config "node" "10.0.0.1" working fresh ops ops refl

probes-serving_example :
    Tells
      (main_health_server config)
      (run fresh ops)
      now
      (is_serving (run fresh ops).ws_client.phase)
unfolding new_provider initialize_providers init_loop init_provider register_provider new_manager
    insert lookup is_provider_enabled
probes-serving_example = probes-serving config "node" "10.0.0.1" working fresh ops now refl

-- A kubelet that is connected, with two commands to process.
abbrev link : Link
link = record (new_client default_client_config) {
  connected = true;
  commands =
      envelope_of "c1" "deploy" (data_of "runpod")
      ∷ envelope_of "c2" "frobnicate" (data_of "runpod")
      ∷ [];
}

abbrev busy : Kubelet
busy = record fresh { ws_client = record client { link = link } }
  where
    client : Loop
    client = fresh.ws_client

rounds-drain_example : Drained link (rounds (world ∷ world ∷ []) busy).ws_client.link
unfolding new_client
rounds-drain_example = rounds-drain (world ∷ world ∷ []) busy refl refl (omega arith)

abbrev no_flags : Flags
no_flags = record {
  node_name = "";
  cluster_name = "";
  operating_system = "";
  internal_ip = "";
  listen_port = pos 0;
  log_level = "";
  backend_url = "";
  backend_api_key = "token";
  health_server_addr = "";
  namespace = "";
  reconcile_interval = pos 0;
  enabled_providers = "";
}

abbrev line : CommandLine
line = record { show_version = false; kubeconfig = ""; flags = no_flags }

-- The pod controller exits before it is ready.
abbrev outside : Outside
outside = record {
  kubernetes_client = none;
  controllers = none;
  readiness = exited (some (plain "no cache"));
}
