-- ===== src/VirtualKubelet/Typed.antt =====
-- pkg/virtual_kubelet/kubelet.go: the frames of the kubelet, however its goroutines interleave.
use mathlib.Core.Path.{subst}
use k8s_runpod_kubelet.Base.{
  String, List, [], ◌∷◌, All, ◌≡◌, refl, sym, inl, inr, ok, ◌==◌, Bool-cases,
}
use k8s_runpod_kubelet.Providers.Manager.{Provider}
use k8s_runpod_kubelet.Config.Settings.{Config}
use k8s_runpod_kubelet.WsClient.Config.{fill_defaults}
use k8s_runpod_kubelet.WsClient.Link.{new_client}
use k8s_runpod_kubelet.WsClient.Loop.{Loop, start}
use k8s_runpod_kubelet.WsClient.Typed.{
  IsTyped, TypedLink, SendsNothing, send_response-TypedLink, send_event-TypedLink,
  send_registration-TypedLink, heartbeat_tick-TypedLink, step-TypedLink,
}
use k8s_runpod_kubelet.VirtualKubelet.State.{Kubelet, notify_backend, update_pod, notify_pods}
use k8s_runpod_kubelet.VirtualKubelet.Setup.{new_provider, initial, client_config}
use k8s_runpod_kubelet.VirtualKubelet.Replies.{handle_command-Has, book_response-Has}
use k8s_runpod_kubelet.VirtualKubelet.Preservation.{new_provider_made}
use k8s_runpod_kubelet.VirtualKubelet.Driven.{update_pod_status-client}
use k8s_runpod_kubelet.VirtualKubelet.Sections.{
  Section, stores, announces, reports_created, removes, replaces, handles, books, responds,
  sends_registration, asks_callback, beats, link_event, enter, enter_all,
}

-- An event of the client, as opposed to a section of the kubelet or a tick of heartbeatRoutine, is
-- not a send.
abbrev pub IsQuiet : Section → Type 0
IsQuiet (link_event e) = SendsNothing e
IsQuiet s = Unit

module _ (id : String) where
  abbrev TypedClient : Loop → Type 0
  TypedClient c = TypedLink id c.link

  enter-TypedClient :
      (k : Kubelet) (s : Section)
      → IsQuiet s
      → TypedClient k.ws_client
      → TypedClient (enter k s).ws_client
  unfolding enter notify_backend update_pod notify_pods
  enter-TypedClient k (stores now pod) h v = v
  enter-TypedClient k (announces e) h v = send_event-TypedLink id k.ws_client.link e v
  enter-TypedClient k (reports_created pod) h v =
      subst TypedClient (sym (update_pod_status-client k pod _ _ _)) v
  enter-TypedClient k (removes pod) h v = v
  enter-TypedClient k (replaces pod) h v = v
  enter-TypedClient k (handles w e) h v =
      subst TypedClient (sym (handle_command-Has k.ws_client w k e refl)) v
  enter-TypedClient k (books e r) h v =
      subst TypedClient (sym (book_response-Has k.ws_client k e r refl)) v
  enter-TypedClient k (responds r) h v = send_response-TypedLink id k.ws_client.link r v
  enter-TypedClient k sends_registration h v = send_registration-TypedLink id k.ws_client.link _ v
  enter-TypedClient k asks_callback h v = v
  enter-TypedClient k beats h v = heartbeat_tick-TypedLink id k.ws_client.link v
  enter-TypedClient k (link_event e) h v = step-TypedLink id k.ws_client e h v

  enter_all-TypedClient :
      (k : Kubelet) (ss : List Section)
      → All IsQuiet ss
      → TypedClient k.ws_client
      → TypedClient (enter_all k ss).ws_client
  unfolding enter_all
  enter_all-TypedClient k [] h v = v
  enter_all-TypedClient k (s ∷ ss) h v =
      enter_all-TypedClient (enter k s) ss h.1 (enter-TypedClient k s h.0 v)

initial_id : (cfg : Config) → (fill_defaults (client_config cfg)).kubelet_id ≡ cfg.backend_api_key
unfolding fill_defaults
initial_id cfg = elim (Bool-cases (cfg.backend_api_key == "")) [
  | inl e ↦ rw e refl
  | inr e ↦ rw e refl
]

initial-TypedClient :
    (cfg : Config) (node ip : String) (m : _)
    → TypedClient cfg.backend_api_key (initial cfg node ip m).ws_client
unfolding start new_client
initial-TypedClient cfg node ip m = record { stamped = initial_id cfg; queued = tt }

-- From a new kubelet on, however the atomic sections of its goroutines and the ticks of
-- heartbeatRoutine interleave and whatever the network does, if no other goroutine sends a frame:
-- every frame in the outbound queue has the envelope type that its payload wants (response, event,
-- kubelet_registration or heartbeat) and bears, as the id of the kubelet, the API key of the backend.
pub enter_all-IsTyped :
    (cfg : Config) (node ip : String) (client : Provider) (k : Kubelet) (ss : List Section)
    → new_provider cfg node ip client ≡ ok k
    → All IsQuiet ss
    → All (IsTyped cfg.backend_api_key) (enter_all k ss).ws_client.link.outbound
enter_all-IsTyped cfg node ip client k ss h quiet =
    let (m, made) = new_provider_made cfg node ip client k h in
    let v =
      subst (λ t. TypedClient cfg.backend_api_key t.ws_client) made
        (initial-TypedClient cfg node ip m) in
    (enter_all-TypedClient cfg.backend_api_key k ss quiet v).queued
