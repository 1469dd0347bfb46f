-- ===== src/Cmd/Main.antt =====
-- cmd/virtual_kubelet/main.go: main and what it sets up. What the libraries answer is a parameter.
use Prim.Native.String.{◌++◌}
use k8s_runpod_kubelet.Base.{
  Bool, String, [], Option, none, some, ◌==◌, if◌then◌else◌, Result, ok, err, GoError, plain, wrap,
  error_text,
}
use k8s_runpod_kubelet.Config.Settings.{validate}
use k8s_runpod_kubelet.Config.Sources.{Flags, effective_configuration}
use k8s_runpod_kubelet.Providers.Manager.{Provider}
use k8s_runpod_kubelet.VirtualKubelet.State.{Kubelet}
use k8s_runpod_kubelet.VirtualKubelet.Setup.{new_provider}
use k8s_runpod_kubelet.Cmd.Progress.{
  prints_version, creates_provider, cleans_up, starts_informers, starts_health_server,
  stops_health_server, starts_api_server, starts_controllers, waits, cancels, Exit, Progress, acts,
  defers, exits, returns,
}

pub data Level : Type 0 where
  level_debug level_info level_warn level_error : Level

-- the level of initializeLogger
unfoldable pub initialize_logger : String → Level
initialize_logger level =
    if level == "debug"
    then level_debug
    else if level == "info"
    then level_info
    else if level == "warn"
    then level_warn
    else if level == "error"
    then level_error
    else level_info

-- homeDir
unfoldable pub home_dir : (String → String) → String
home_dir getenv = if getenv "HOME" == "" then getenv "USERPROFILE" else getenv "HOME"

-- What createKubernetesClient calls: rest.InClusterConfig, clientcmd.BuildConfigFromFlags with no
-- master URL, kubernetes.NewForConfig, and filepath.Join of a directory with .kube and config.
pub record KubernetesPackage {ℓ κ} (Rest : Type ℓ) (Clientset : Type κ) : Type (ℓ ⊔ κ) where
  pub in_cluster_config : Result Rest
  pub build_config_from_flags : String → Result Rest
  pub new_for_config : Rest → Result Clientset
  pub join : String → String

module _ {ℓ κ} {Rest : Type ℓ} {Clientset : Type κ} (lib : KubernetesPackage Rest Clientset) where
  -- the kubeconfig behind a failed InClusterConfig
  abbrev pub default_kubeconfig : (home : String) → String
  default_kubeconfig home = if home == "" then "" else lib.join home

  abbrev pub build_config : String → Result Rest
  build_config path = wrap "failed to build kubeconfig: " (lib.build_config_from_flags path)

  abbrev pub in_cluster_or_home : (String → String) → Result Rest → Result Rest
  in_cluster_or_home getenv (ok config) = ok config
  in_cluster_or_home getenv (err e) = build_config (default_kubeconfig (home_dir getenv))

  abbrev pub client_for : Result Rest → Result Clientset
  client_for (err e) = err e
  client_for (ok config) = wrap "failed to create kubernetes client: " (lib.new_for_config config)

  -- createKubernetesClient
  unfoldable pub create_kubernetes_client :
      (String → String) → (kubeconfig : String) → Result Clientset
  unfolding home_dir
  create_kubernetes_client getenv kubeconfig = client_for (
      if kubeconfig == ""
      then in_cluster_or_home getenv lib.in_cluster_config
      else build_config kubeconfig)

-- Which channel the select of startControllers takes, with podController.Err() or ctx.Err().
pub data Readiness : Type 0 where
  ready : Readiness
  exited : Option GoError → Readiness
  cancelled : GoError → Readiness

-- How fmt.Errorf writes an error for the verb w.
abbrev pub wrapped_text : Option GoError → String
wrapped_text none = "%!w(<nil>)"
wrapped_text (some e) = error_text e

-- startControllers
unfoldable pub start_controllers : Readiness → Option GoError
start_controllers ready = none
start_controllers (exited e) =
    some (plain ("pod controller exited before becoming ready: " ++ wrapped_text e))
start_controllers (cancelled e) = some e

-- The command line: the two flags that main alone reads, and the others.
pub record CommandLine : Type 0 where
  pub show_version : Bool
  pub kubeconfig : String
  pub flags : Flags

-- The errors of createKubernetesClient and createControllers, and the select of startControllers.
pub record Outside : Type 0 where
  pub kubernetes_client : Option GoError
  pub controllers : Option GoError
  pub readiness : Readiness

abbrev pub serve : Progress → Progress
serve p = acts starts_controllers (
    acts starts_api_server
      (defers stops_health_server (acts starts_health_server (acts starts_informers p))))

-- `waits` is the wait for the end of the context.
abbrev pub after_start : Progress → Option GoError → Exit
after_start p (some e) = exits p
after_start p none = returns (acts waits p)

abbrev pub after_controllers : Progress → Readiness → Option GoError → Exit
after_controllers p r (some e) = exits p
after_controllers p r none = after_start (serve p) (start_controllers r)

abbrev pub after_provider : Progress → Outside → Result Kubelet → Exit
after_provider p o (err e) = exits p
after_provider p o (ok k) =
    after_controllers (defers cleans_up (acts creates_provider p)) o.readiness o.controllers

abbrev pub after_client : Progress → Outside → Result Kubelet → Option GoError → Exit
after_client p o provider (some e) = exits p
after_client p o provider none = after_provider p o provider

abbrev pub after_validate : Progress → Outside → Result Kubelet → Option GoError → Exit
after_validate p o provider (some e) = exits p
after_validate p o provider none = after_client p o provider o.kubernetes_client

-- main. `client` is what runpod.NewClient returns.
unfoldable pub main : (String → String) → CommandLine → Outside → Provider → Exit
unfolding start_controllers
main getenv line o client =
    let cfg = effective_configuration getenv line.flags in
    let begin : Progress = record { done = []; deferred = [] } in
    if line.show_version
    then returns (acts prints_version begin)
    else after_validate (defers cancels begin) o
        (new_provider cfg cfg.node_name cfg.internal_ip client) (validate cfg)
