-- ===== src/VirtualKubelet/Setup.antt =====
-- pkg/virtual_kubelet/kubelet.go: NewProvider, initializeProviders, the registration and Ping.
use k8s_runpod_kubelet.Base.{
  false, String, List, [], ◌∷◌, Option, none, some, Result, ok, GoError, plain, wrap, ◌>>=◌, ◌==◌,
  not, ◌||◌, if◌then◌else◌,
}
use k8s_runpod_kubelet.Protocol.Events.{Registration, kubelet_ready}
use k8s_runpod_kubelet.Providers.Manager.{
  Manager, Provider, new_manager, register_provider, list_providers,
}
use k8s_runpod_kubelet.Config.Settings.{Config, WebSocketConfig, key_mode, is_provider_enabled}
use k8s_runpod_kubelet.Config.Urls.{get_web_socket_url}
use k8s_runpod_kubelet.WsClient.Config.{ClientConfig}
use k8s_runpod_kubelet.WsClient.Link.{Link, new_client, send_registration}
use k8s_runpod_kubelet.WsClient.Loop
use k8s_runpod_kubelet.VirtualKubelet.State.{Kubelet, with_link, notify_backend}

-- One round of the loop of initializeProviders. `client` is what runpod.NewClient returns.
unfoldable pub init_provider : Config → Provider → Manager → String → Result Manager
init_provider cfg client m name =
    if name == "runpod"
    then (if not (cfg.providers.runpod.api_key == "") || is_provider_enabled cfg "runpod"
        then wrap "failed to register RunPod provider: " (register_provider m client)
        else ok m)
    else ok m

unfoldable pub init_loop : Config → Provider → List String → Manager → Result Manager
unfolding init_provider
init_loop cfg client [] m = ok m
init_loop cfg client (name ∷ names) m =
    init_provider cfg client m name >>= init_loop cfg client names

-- initializeProviders
unfoldable pub initialize_providers : Config → Provider → Manager → Result Manager
unfolding init_loop
initialize_providers cfg client m = init_loop cfg client cfg.providers.enabled_providers m

-- The client configuration of NewProvider.
abbrev pub client_config : Config → ClientConfig
client_config cfg = record {
  url = get_web_socket_url cfg;
  api_token = cfg.backend_api_key;
  kubelet_id = cfg.backend_api_key;
  reconnect_interval = ws.reconnect_interval;
  max_reconnect_delay = ws.max_reconnect_delay;
  heartbeat_interval = ws.ping_interval;
  pong_timeout = ws.pong_timeout;
  write_timeout = ws.write_timeout;
  read_timeout = ws.read_timeout;
}
  where
    ws : WebSocketConfig
    ws = cfg.web_socket

abbrev pub initial : Config → (node_name internal_ip : String) → Manager → Kubelet
initial cfg node_name internal_ip m = record {
  node_name = node_name;
  internal_ip = internal_ip;
  config = cfg;
  manager = m;
  ws_client = Loop.start (new_client (client_config cfg));
  pods = [];
  pod_status = [];
  notify_set = false;
  notified = [];
}

-- NewProvider; Start of the WebSocket client never fails
unfoldable pub new_provider : Config → (node_name internal_ip : String) → Provider → Result Kubelet
new_provider cfg node_name internal_ip client = do
  m ← wrap "failed to initialize providers: " (initialize_providers cfg client new_manager)
  ok (initial cfg node_name internal_ip m)

abbrev pub registration_of : Kubelet → Registration
registration_of k = record {
  id = k.ws_client.link.config.kubelet_id;
  type = "conduit-kubelet";
  cluster_name = k.config.cluster_name;
  node_name = k.node_name;
  namespace = k.config.namespace;
  capabilities = list_providers k.manager;
  metadata = record {
    version = "2.0.0";
    internal_ip = k.internal_ip;
    key_mode = key_mode k.config;
  };
}

unfoldable pub registered : Kubelet → Link × Option GoError → Kubelet
registered k (l, some x) = with_link k l
registered k (l, none) = notify_backend (with_link k l) (kubelet_ready k.node_name)

-- registerWithBackend, the callback of every connect
unfoldable pub register_with_backend : Kubelet → Kubelet
unfolding registered
register_with_backend k = registered k (send_registration k.ws_client.link (registration_of k))

-- Provider.Ping; the health of the providers is only logged
unfoldable pub ping : Kubelet → Option GoError
ping k =
    if k.ws_client.link.connected
    then none
    else some (plain "WebSocket client not connected to backend")

-- Cleanup, after NewProvider: there is a context to cancel and a client to stop
unfoldable pub cleanup : Kubelet → Kubelet × Option GoError
unfolding Loop.stop
cleanup k = (record k { ws_client = Loop.stop k.ws_client }, none)
