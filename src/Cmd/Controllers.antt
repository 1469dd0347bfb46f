-- ===== src/Cmd/Controllers.antt =====
-- cmd/virtual_kubelet/main.go: createControllers and createAPIServer, and what main passes to them.
-- The controllers of the library node are made by its functions, which are parameters; the event
-- recorder is known by its component.
use Prim.Native.String.{◌++◌}
use k8s_runpod_kubelet.Base.{
  String, List, [], ◌∷◌, none, some, ℤ, to_int32, ◌≡◌, refl, sym, ap, Result, ok, err, wrap, ◌>>=◌,
}
use k8s_runpod_kubelet.Kubernetes.{Pod}
use k8s_runpod_kubelet.Providers.Manager.{Provider}
use k8s_runpod_kubelet.Config.Settings.{Config}
use k8s_runpod_kubelet.VirtualKubelet.State.{Kubelet, get_pods}
use k8s_runpod_kubelet.VirtualKubelet.Setup.{new_provider}
use k8s_runpod_kubelet.VirtualKubelet.Preservation.{new_provider_made}
use k8s_runpod_kubelet.VirtualKubelet.Node.{Node, no_schedule, virtual_node}
use k8s_runpod_kubelet.Cmd.Servers.{
  InformerOptions, main_informers, api_server_address, decimal_int,
}

-- The factory of the informer of the pods, and that of the three other informers.
pub record PodControllerConfig : Type 0 where
  pub pods : InformerOptions
  pub others : InformerOptions
  pub provider : Kubelet
  pub event_source : String

-- node.NewPodController and node.NewNodeController
pub record NodePackage {ℓ} (Time PodController NodeController : Type ℓ) : Type ℓ where
  pub new_pod_controller : PodControllerConfig → Result PodController
  pub new_node_controller : Kubelet → Node Time → Result NodeController

module _ {ℓ} {Time PodController NodeController : Type ℓ}
    (lib : NodePackage Time PodController NodeController) where
  -- createControllers. The port is the one that NewProvider was given.
  unfoldable pub create_controllers :
      Kubelet
      → (daemon_endpoint_port : ℤ) → Time
      → InformerOptions × InformerOptions
      → String
      → Result (PodController × NodeController)
  unfolding virtual_node
  create_controllers k port now (pods, others) node_name = do
    pod_controller ← wrap "failed to create pod controller: " (
        lib.new_pod_controller
          (record { pods = pods; others = others; provider = k; event_source = node_name }))
    node_controller ←
        wrap "failed to create node controller: "
          (lib.new_node_controller k (virtual_node k port now node_name))
    ok (pod_controller, node_controller)

  -- The call of createControllers in main.
  unfoldable pub main_controllers :
      Config → Kubelet → Time → Result (PodController × NodeController)
  unfolding create_controllers main_informers
  main_controllers cfg k now =
      create_controllers k cfg.listen_port now (main_informers cfg) cfg.node_name

-- The server that createAPIServer makes, by what its two handlers answer.
pub record ApiServer : Type 0 where
  pub address : String
  pub get_pods : Kubelet → List Pod
  pub get_pods_from_kubernetes : Kubelet → List Pod

-- createAPIServer; its handlers ask the provider when they are called, and GetPods does not fail
unfoldable pub create_api_server : (internal_ip : String) (listen_port : ℤ) → ApiServer
unfolding api_server_address
create_api_server internal_ip listen_port = record {
  address = api_server_address internal_ip listen_port;
  get_pods = get_pods;
  get_pods_from_kubernetes = get_pods;
}

abbrev paired {ℓ} : {A B : Type ℓ} → A → B → Result (A × B)
paired a b = ok (a, b)

-- Both calls of a function that succeeds have succeeded.
both_ok {ℓ} :
    {A B : Type ℓ} (first second : String) (r : Result A) (t : Result B) (a : A) (b : B)
    → (do x ← wrap first r; y ← wrap second t; paired x y) ≡ ok (a, b)
    → (r ≡ ok a) × (t ≡ ok b)
both_ok first second (ok x) (ok y) a b h = (cc, cc)
both_ok first second (ok x) (err e) a b h = cc
both_ok first second (err e) t a b h = cc

module _ {ℓ} {Time PodController NodeController : Type ℓ}
    (lib : NodePackage Time PodController NodeController) (cfg : Config) (k : Kubelet)
    (now : Time) where
  -- The two controllers are made from these, and belong together: the pods that the one sees are
  -- those that are bound to the node that the other registers; the node keeps away the pods that do
  -- not opt in, and publishes this address.
  pub record Serve (pod_controller : PodController) (node_controller : NodeController)
      : Type ℓ where
    pub made_from : PodControllerConfig
    pub node : Node Time
    pub first : lib.new_pod_controller made_from ≡ ok pod_controller
    pub second : lib.new_node_controller k node ≡ ok node_controller
    pub same_provider : made_from.provider ≡ k
    pub bound : made_from.pods.node_selector ≡ some node.name
    pub named : node.name ≡ cfg.node_name
    pub all_others : made_from.others.node_selector ≡ none
    pub tainted :
        node.taints
        ≡ record { key = "virtual-kubelet.io/provider"; value = "conduit"; effect = no_schedule }
          ∷ []
    pub published : node.status.internal_ips ≡ cfg.internal_ip ∷ []
    pub listens :
        (create_api_server cfg.internal_ip cfg.listen_port).address
        ≡ cfg.internal_ip ++ (":" ++ decimal_int cfg.listen_port)
    pub port : node.status.kubelet_port ≡ to_int32 cfg.listen_port

  -- If createControllers succeeds in main, for the provider that main has made.
  pub main_controllers-Serve :
      (client : Provider) (pod_controller : PodController) (node_controller : NodeController)
      → new_provider cfg cfg.node_name cfg.internal_ip client ≡ ok k
      → main_controllers lib cfg k now ≡ ok (pod_controller, node_controller)
      → Serve pod_controller node_controller
  unfolding main_controllers create_controllers main_informers virtual_node create_api_server
  main_controllers-Serve client pod_controller node_controller made h =
      let (m, q) = new_provider_made cfg cfg.node_name cfg.internal_ip client k made in
      let (first, second) = both_ok _ _ _ _ pod_controller node_controller h in
      record {
        made_from = record {
          pods = (main_informers cfg).0;
          others = (main_informers cfg).1;
          provider = k;
          event_source = cfg.node_name;
        };
        node = virtual_node k cfg.listen_port now cfg.node_name;
        first = first;
        second = second;
        same_provider = refl;
        bound = refl;
        named = refl;
        all_others = refl;
        tainted = refl;
        published = ap (λ (t : Kubelet). t.internal_ip ∷ []) (sym q);
        listens = refl;
        port = refl;
      }
