-- ===== src/Providers/Manager.antt =====
-- pkg/providers/interface.go, the Provider interface, and pkg/providers/manager.go.
use Prim.Native.String.{◌++◌}
use k8s_runpod_kubelet.Base.{
  Bool, true, false, String, List, [], ◌∷◌, Option, none, some, Dict, lookup, insert, keys, Result,
  ok, err, GoError, plain, ◌>>=◌,
}
use k8s_runpod_kubelet.Protocol.Messages.{
  DeployParams, DeployResult, StatusParams, StatusResult, TerminateParams,
}
use k8s_runpod_kubelet.Providers.World.{World}

-- An error that is nil is `none`.
pub record Provider : Type 0 where
  pub get_name : String
  pub deploy : World → DeployParams → Result DeployResult
  pub get_status : World → StatusParams → Result StatusResult
  pub terminate : World → TerminateParams → Option GoError
  pub ping : World → Option GoError

pub record Manager : Type 0 where
  pub providers : Dict Provider

unfoldable pub new_manager : Manager
new_manager = record { providers = [] }

abbrev pub add_provider : Manager → Provider → Option Provider → Result Manager
add_provider m p (some _) = err (plain ("provider " ++ (p.get_name ++ " is already registered")))
add_provider m p none = ok (record { providers = insert p.get_name p m.providers })

-- RegisterProvider
unfoldable pub register_provider : Manager → Provider → Result Manager
register_provider m p = add_provider m p (lookup p.get_name m.providers)

abbrev pub found_provider : String → Option Provider → Result Provider
found_provider name none = err (plain ("provider " ++ (name ++ " not found")))
found_provider name (some p) = ok p

-- GetProvider
unfoldable pub get_provider : Manager → String → Result Provider
get_provider m name = found_provider name (lookup name m.providers)

-- ListProviders
unfoldable pub list_providers : Manager → List String
list_providers m = keys m.providers

-- Manager.Deploy
unfoldable pub deploy : World → Manager → String → DeployParams → Result DeployResult
deploy w m name params = do provider ← get_provider m name; provider.deploy w params

-- Manager.GetStatus
unfoldable pub get_status : World → Manager → String → StatusParams → Result StatusResult
get_status w m name params = do provider ← get_provider m name; provider.get_status w params

abbrev terminate_by : World → TerminateParams → Result Provider → Option GoError
terminate_by w params (ok provider) = provider.terminate w params
terminate_by w params (err e) = some e

-- Manager.Terminate
unfoldable pub terminate : World → Manager → String → TerminateParams → Option GoError
terminate w m name params = terminate_by w params (get_provider m name)

unfoldable pub ping_each : World → Dict Provider → Dict (Option GoError)
ping_each w [] = []
ping_each w ((name, p) ∷ rest) = (name, p.ping w) ∷ ping_each w rest

-- PingAll. Each goroutine writes the entry of its own provider, so their order does not matter.
unfoldable pub ping_all : World → Manager → Dict (Option GoError)
unfolding ping_each
ping_all w m = ping_each w m.providers

abbrev pub is_nil : Option GoError → Bool
is_nil none = true
is_nil (some e) = false

unfoldable pub health_of : Dict (Option GoError) → Dict Bool
health_of [] = []
health_of ((name, e) ∷ rest) = (name, is_nil e) ∷ health_of rest

-- HealthCheck
unfoldable pub health_check : World → Manager → Dict Bool
unfolding health_of
health_check w m = health_of (ping_all w m)
