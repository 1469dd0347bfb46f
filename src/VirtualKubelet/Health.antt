-- ===== src/VirtualKubelet/Health.antt =====
-- pkg/virtual_kubelet/health.go: the HealthServer. The probes look at the state `S` of their owner.
-- A handler answers the status code with what it encodes into the body; the encoding itself is
-- encoding/json, and the delivery net/http.
use k8s_runpod_kubelet.Base.{
  ℕ, Bool, true, false, String, Option, none, some, Dict, [], ◌==◌, not, is_some, if◌then◌else◌,
}
use k8s_runpod_kubelet.Config.Settings.{Config}
use k8s_runpod_kubelet.VirtualKubelet.State.{Kubelet}
use k8s_runpod_kubelet.VirtualKubelet.Setup.{ping}

-- The logger is left out; of the http.Server, only the address is the program's.
pub record HealthServer {ℓ} (S : Type ℓ) : Type ℓ where
  pub address : String
  pub readiness_func : Option (S → Bool)
  pub liveness_func : Option (S → Bool)

pub record WebSocketStatus {ℓ} (Time : Type ℓ) : Type ℓ where
  pub connected : Bool
  pub last_ping : Time
  pub connected_at : Time

-- Uptime is in nanoseconds.
pub record HealthStatus {ℓ} (Time : Type ℓ) : Type ℓ where
  pub status : String
  pub timestamp : Time
  pub uptime : ℕ
  pub version : String
  pub providers : Dict Bool
  pub web_socket : WebSocketStatus Time
  pub details : Dict String

-- The values that the handlers encode.
pub data Body {ℓ} (Time : Type ℓ) : Type ℓ where
  probe : (status : String) (timestamp : Time) → Body Time
  health : (status : String) (healthy : Bool) (timestamp : Time) → Body Time
  detailed : HealthStatus Time → Body Time

-- `http_error` is a call of http.Error.
pub data Answer {ℓ} (Time : Type ℓ) : Type ℓ where
  http_error : (text : String) (code : ℕ) → Answer Time
  written : (code : ℕ) → Body Time → Answer Time

abbrev pub status_ok : ℕ
status_ok = 200

abbrev pub status_service_unavailable : ℕ
status_service_unavailable = 503

module _ {ℓ} {S : Type ℓ} where
  -- NewHealthServer
  unfoldable pub new_health_server : String → Option (S → Bool) → HealthServer S
  new_health_server address readiness_func = record {
    address = address;
    readiness_func = readiness_func;
    liveness_func = some (λ s. true);
  }

  -- SetLivenessFunc
  unfoldable pub set_liveness_func : HealthServer S → Option (S → Bool) → HealthServer S
  set_liveness_func hs fn = record hs { liveness_func = fn }

  -- f != nil && !f()
  abbrev pub fails : Option (S → Bool) → S → Bool
  fails none s = false
  fails (some f) s = not (f s)

  module _ {κ} {Time : Type κ} (hs : HealthServer S) (s : S) (now : Time) where
    -- handleLiveness
    unfoldable pub handle_liveness : Answer Time
    handle_liveness =
        if fails hs.liveness_func s
        then http_error "Service not alive" status_service_unavailable
        else written status_ok (probe "alive" now)

    -- handleReadiness
    unfoldable pub handle_readiness : Answer Time
    handle_readiness =
        if fails hs.readiness_func s
        then http_error "Service not ready" status_service_unavailable
        else written status_ok (probe "ready" now)

    -- handleHealth
    unfoldable pub handle_health : Answer Time
    handle_health =
        let alive : Bool × String =
          if fails hs.liveness_func s then (false, "not_alive") else (true, "healthy") in
        let checked : Bool × String =
          if fails hs.readiness_func s
          then (false, if alive.1 == "healthy" then "not_ready" else alive.1)
          else alive in
        let (healthy, status) = checked in
        let code = if not healthy then status_service_unavailable else status_ok in
        written code (health status healthy now)

    -- handleStatus, with the zero value of time.Time and the version of the binary
    unfoldable pub handle_status : Time → String → Answer Time
    handle_status zero version = written status_ok (
        detailed (record {
          status = "running";
          timestamp = now;
          uptime = 0;
          version = version;
          providers = [];
          web_socket = record { connected = false; last_ping = zero; connected_at = zero };
          details = [];
        }))

    -- The routes that NewHealthServer registers; another path has no handler.
    unfoldable pub serve : Time → String → (path : String) → Option (Answer Time)
    unfolding handle_liveness handle_readiness handle_health handle_status
    serve zero version path =
        if path == "/healthz"
        then some handle_liveness
        else if path == "/readyz"
        then some handle_readiness
        else if path == "/health"
        then some handle_health
        else if path == "/status"
        then some (handle_status zero version)
        else none

  -- UpdateWebSocketStatus and UpdateProviderStatus, which do nothing
  unfoldable pub update_web_socket_status {κ} :
      {Time : Type κ} → HealthServer S → (connected : Bool) (connected_at : Time) → HealthServer S
  update_web_socket_status hs connected connected_at = hs

  unfoldable pub update_provider_status : HealthServer S → Dict Bool → HealthServer S
  update_provider_status hs providers = hs

-- The server that main makes: it is ready if Ping gives no error.
unfoldable pub main_health_server : Config → HealthServer Kubelet
unfolding new_health_server ping
main_health_server cfg =
    new_health_server cfg.health_server_address (some (λ k. not (is_some (ping k))))
