-- ===== src/VirtualKubelet/System.antt =====
-- The kubelet as a whole: the calls of the controllers, the rounds of processCommands, the
-- registrations and the events of the connection, in any order.
use k8s_runpod_kubelet.Base.{ℕ, List, [], ◌∷◌}
use k8s_runpod_kubelet.Kubernetes.{Pod}
use k8s_runpod_kubelet.Providers.World.{World}
use k8s_runpod_kubelet.WsClient.Loop.{Event}
use k8s_runpod_kubelet.WsClient.Loop
use k8s_runpod_kubelet.VirtualKubelet.State.{
  Kubelet, create_pod, update_pod, delete_pod, notify_pods,
}
use k8s_runpod_kubelet.VirtualKubelet.Commands.{process_next}
use k8s_runpod_kubelet.VirtualKubelet.Setup.{register_with_backend}

pub data Op : Type 0 where
  creates : (now : ℕ) (pod : Pod) → Op
  updates deletes : (pod : Pod) → Op
  processes : (w : World) → Op
  sets_callback registers : Op
  network : Event → Op

unfoldable pub apply : Kubelet → Op → Kubelet
apply k (creates now pod) = create_pod now k pod
apply k (updates pod) = update_pod k pod
apply k (deletes pod) = delete_pod k pod
apply k (processes w) = process_next w k
apply k sets_callback = notify_pods k
apply k registers = register_with_backend k
apply k (network e) = record k { ws_client = Loop.step k.ws_client e }

unfoldable pub run : Kubelet → List Op → Kubelet
run k [] = k
run k (op ∷ ops) = run (apply k op) ops
