-- ===== src/VirtualKubelet/Registering.antt =====
-- pkg/virtual_kubelet/kubelet.go: what registerWithBackend puts into the queue of frames.
use k8s_runpod_kubelet.Base.{[], ◌∷◌, Option, none, some, ◌≡◌, refl, ap, ◌∙◌, GoError}
use k8s_runpod_kubelet.Protocol.Messages.{envelope_event, envelope_registration}
use k8s_runpod_kubelet.Protocol.Events.{Frame, new_envelope, registration, kubelet_ready}
use k8s_runpod_kubelet.Protocol.Events
use k8s_runpod_kubelet.WsClient.Config.{ClientConfig}
use k8s_runpod_kubelet.WsClient.Link.{
  Link, send_envelope, send_payload, send_event, send_registration,
}
use k8s_runpod_kubelet.WsClient.Sending.{
  emitted, then_sends, send_envelope_config, send_two-emitted,
}
use k8s_runpod_kubelet.VirtualKubelet.State.{Kubelet, with_link, notify_backend}
use k8s_runpod_kubelet.VirtualKubelet.Setup.{registration_of, registered, register_with_backend}

abbrev pub registration_frame : Kubelet → Frame
registration_frame k =
    new_envelope envelope_registration (registration (registration_of k))
      k.ws_client.link.config.kubelet_id

abbrev pub ready_frame : Kubelet → Frame
ready_frame k =
    new_envelope envelope_event (Events.Payload.event (kubelet_ready k.node_name))
      k.ws_client.link.config.kubelet_id

-- The two sends one after the other.
registered_frames :
    (k : Kubelet) (t : Link × Option GoError)
    → t.0.config ≡ k.ws_client.link.config
    → registered k t ≡ with_link k (then_sends (ready_frame k) t)
unfolding registered notify_backend send_event send_payload new_envelope
registered_frames k (l, some e) q = refl
registered_frames k (l, none) q =
    ap
      (λ (c : ClientConfig).
        with_link k
          (send_envelope l (
            new_envelope envelope_event (Events.Payload.event (kubelet_ready k.node_name))
              c.kubelet_id)).0)
      q

register_sends :
    (k : Kubelet)
    → register_with_backend k
      ≡ with_link k
          (then_sends (ready_frame k) (send_envelope k.ws_client.link (registration_frame k)))
unfolding register_with_backend send_registration send_payload
register_sends k =
    registered_frames k (send_envelope k.ws_client.link (registration_frame k))
      (send_envelope_config k.ws_client.link (registration_frame k))

-- registerWithBackend, the callback of every connect: if the client is connected, it puts the
-- registration and then the event kubelet_ready behind the frames that are there, as many of the two
-- as the channel of 200 has room for, so never the event without the registration. If the client is
-- not connected, nothing is sent. Nothing else of the kubelet changes.
pub register_with_backend_lem :
    (k : Kubelet)
    → register_with_backend k
      ≡ with_link k (emitted k.ws_client.link (registration_frame k ∷ ready_frame k ∷ []))
register_with_backend_lem k =
    register_sends k
    ∙ ap (with_link k) (send_two-emitted k.ws_client.link (registration_frame k) (ready_frame k))
