-- ===== src/VirtualKubelet/Preservation.antt =====
-- Every operation keeps the invariant of the pod bookkeeping.
use mathlib.Core.Path.{subst}
use k8s_runpod_kubelet.Base.{
  String, List, [], ◌∷◌, Option, none, some, lookup, ap, ◌≡◌, refl, bind-eq-ok, wrap, ok, GoError,
}
use k8s_runpod_kubelet.Protocol.Messages.{Envelope}
use k8s_runpod_kubelet.Providers.World.{World}
use k8s_runpod_kubelet.Providers.Manager.{Provider, Manager, new_manager}
use k8s_runpod_kubelet.Config.Settings.{Config}
use k8s_runpod_kubelet.WsClient.Link.{Link, send_registration, take_command}
use k8s_runpod_kubelet.VirtualKubelet.State.{Kubelet, notify_pods}
use k8s_runpod_kubelet.VirtualKubelet.Commands.{process_taken, process_next}
use k8s_runpod_kubelet.VirtualKubelet.Setup.{
  new_provider, initial, initialize_providers, registered, register_with_backend,
}
use k8s_runpod_kubelet.VirtualKubelet.System.{
  Op, creates, updates, deletes, processes, sets_callback, registers, network, apply, run,
}
use k8s_runpod_kubelet.VirtualKubelet.Invariant.{Inv, Inv-maps}
use k8s_runpod_kubelet.VirtualKubelet.Bookkeeping.{
  notify_backend-Inv, create_pod-Inv, update_pod-Inv, delete_pod-Inv, process_command-Inv,
}

process_taken-Inv :
    (w : World) (k : Kubelet) (t : Link × Option Envelope) → Inv k → Inv (process_taken w k t)
unfolding process_taken
process_taken-Inv w k (l, none) v = v
process_taken-Inv w k (l, some e) v = process_command-Inv w _ e (Inv-maps refl refl v)

registered-Inv : (k : Kubelet) (t : Link × Option GoError) → Inv k → Inv (registered k t)
unfolding registered
registered-Inv k (l, some x) v = Inv-maps refl refl v
registered-Inv k (l, none) v = notify_backend-Inv _ _ (Inv-maps refl refl v)

pub apply-Inv : (k : Kubelet) (op : Op) → Inv k → Inv (apply k op)
unfolding apply process_next notify_pods register_with_backend
apply-Inv k (creates now pod) v = create_pod-Inv now k pod v
apply-Inv k (updates pod) v = update_pod-Inv k pod v
apply-Inv k (deletes pod) v = delete_pod-Inv k pod v
apply-Inv k (processes w) v = process_taken-Inv w k (take_command k.ws_client.link) v
apply-Inv k sets_callback v = Inv-maps refl refl v
apply-Inv k registers v = registered-Inv k (send_registration k.ws_client.link _) v
apply-Inv k (network e) v = Inv-maps refl refl v

pub run-Inv : (k : Kubelet) (ops : List Op) → Inv k → Inv (run k ops)
unfolding run
run-Inv k [] v = v
run-Inv k (op ∷ ops) v = run-Inv (apply k op) ops (apply-Inv k op v)

empty-Inv : (k : Kubelet) → k.pods ≡ [] → k.pod_status ≡ [] → Inv k
unfolding lookup
empty-Inv k p q = record {
  tracked = λ key h. cc (ap (lookup key) q, h);
  keyed = λ key pod h. cc (ap (lookup key) p);
  unreported = λ key info h. cc (ap (lookup key) q);
}

-- A new kubelet is an initial state, with some manager.
pub new_provider_made :
    (cfg : Config) (node ip : String) (client : Provider) (k : Kubelet)
    → new_provider cfg node ip client ≡ ok k
    → (m : Manager) × (initial cfg node ip m ≡ k)
unfolding new_provider
new_provider_made cfg node ip client k h =
    let (m, _, e) =
      bind-eq-ok
        (wrap "failed to initialize providers: " (initialize_providers cfg client new_manager)) _
        h in
    (m, cc)

pub new_provider-Inv :
    (cfg : Config) (node ip : String) (client : Provider) (k : Kubelet)
    → new_provider cfg node ip client ≡ ok k
    → Inv k
new_provider-Inv cfg node ip client k h =
    let (m, made) = new_provider_made cfg node ip client k h in
    subst Inv made (empty-Inv (initial cfg node ip m) refl refl)

-- From a new kubelet on, whatever the controllers, the platform, the providers and the network do:
-- every instance belongs to a pod of the cache, every pod stands under its own namespace and name,
-- and no instance has a status result.
pub run-new_provider-Inv :
    (cfg : Config) (node ip : String) (client : Provider) (k : Kubelet) (ops : List Op)
    → new_provider cfg node ip client ≡ ok k
    → Inv (run k ops)
run-new_provider-Inv cfg node ip client k ops h =
    run-Inv k ops (new_provider-Inv cfg node ip client k h)
