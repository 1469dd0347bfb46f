-- ===== src/WsClient/Config.antt =====
-- pkg/websocket/client.go: ClientConfig and the defaults. Durations are in nanoseconds.
use k8s_runpod_kubelet.Base.{ℕ, ◌*◌, String, ℤ, pos, is_positive, ◌==◌, if◌then◌else◌}

pub record ClientConfig : Type 0 where
  pub url : String
  pub api_token : String
  pub kubelet_id : String
  pub reconnect_interval : ℤ
  pub max_reconnect_delay : ℤ
  pub heartbeat_interval : ℤ
  pub pong_timeout : ℤ
  pub write_timeout : ℤ
  pub read_timeout : ℤ

abbrev pub seconds : ℕ → ℤ
seconds n = pos (n * 1000000000)

-- DefaultClientConfig
abbrev pub default_client_config : ClientConfig
default_client_config = record {
  url = "";
  api_token = "";
  kubelet_id = "";
  reconnect_interval = seconds 5;
  max_reconnect_delay = seconds 300;
  heartbeat_interval = seconds 30;
  pong_timeout = seconds 10;
  write_timeout = seconds 10;
  read_timeout = seconds 60;
}

positive_or : ℤ → ℤ → ℤ
positive_or d default = if is_positive d then d else default

-- The filling of unset fields in NewClient.
unfoldable pub fill_defaults : ClientConfig → ClientConfig
unfolding positive_or
fill_defaults c = record {
  url = c.url;
  api_token = c.api_token;
  kubelet_id = if c.kubelet_id == "" then c.api_token else c.kubelet_id;
  reconnect_interval = positive_or c.reconnect_interval defaults.reconnect_interval;
  max_reconnect_delay = positive_or c.max_reconnect_delay defaults.max_reconnect_delay;
  heartbeat_interval = positive_or c.heartbeat_interval defaults.heartbeat_interval;
  pong_timeout = positive_or c.pong_timeout defaults.pong_timeout;
  write_timeout = positive_or c.write_timeout defaults.write_timeout;
  read_timeout = positive_or c.read_timeout defaults.read_timeout;
}
  where
    defaults : ClientConfig
    defaults = default_client_config
