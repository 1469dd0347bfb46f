-- ===== src/Cmd/Servers.antt =====
-- cmd/virtual_kubelet/main.go: what setupInformers and createAPIServer pass to the libraries.
use Prim.Native.String.{◌++◌}
use k8s_runpod_kubelet.Base.{
  ℕ, suc, ◌/◌, zero, String, Option, none, some, ℤ, pos, negsuc, decimal, wrap_int64, ◌<◌, ◌^◌, ◌≡◌,
  arith,
}
use k8s_runpod_kubelet.Config.Settings.{Config}
use k8s_runpod_kubelet.Config.Sources.{times_second}

-- The resync period of a factory, and the selector spec.nodeName of the pods it lists.
pub record InformerOptions : Type 0 where
  pub resync : ℤ
  pub node_selector : Option String

-- A negative number, or 0.
negated : ℕ → ℤ
negated zero = pos 0
negated (suc n) = negsuc n

-- int(d.Seconds()), which cuts off towards 0
unfoldable pub whole_seconds : ℤ → ℤ
unfolding negated
whole_seconds (pos n) = pos (n / 1000000000)
whole_seconds (negsuc n) = negated (suc n / 1000000000)

-- setupInformers: the factory for the pods of the node, and that for other resources
unfoldable pub setup_informers :
    (node_name : String) (reconcile_interval : ℤ) → InformerOptions × InformerOptions
unfolding times_second
setup_informers node_name reconcile_interval = (
  record { resync = times_second reconcile_interval; node_selector = some node_name },
  record { resync = times_second reconcile_interval; node_selector = none },
)

-- The call of setupInformers in main.
unfoldable pub main_informers : Config → InformerOptions × InformerOptions
unfolding setup_informers whole_seconds
main_informers cfg = setup_informers cfg.node_name (whole_seconds cfg.reconcile_interval)

-- `%d` of an int
unfoldable pub decimal_int : ℤ → String
decimal_int (pos n) = decimal n
decimal_int (negsuc n) = "-" ++ decimal (suc n)

-- The address of the server that createAPIServer makes.
unfoldable pub api_server_address : (internal_ip : String) (listen_port : ℤ) → String
unfolding decimal_int
api_server_address internal_ip listen_port = internal_ip ++ (":" ++ decimal_int listen_port)

-- The seconds of the flag come back: a factory resyncs after the time that the flag asks for.
whole_seconds-times_second : (n : ℕ) → n < 2 ^ 32 → whole_seconds (times_second (pos n)) ≡ pos n
unfolding whole_seconds times_second wrap_int64
whole_seconds-times_second n h = ground arith
