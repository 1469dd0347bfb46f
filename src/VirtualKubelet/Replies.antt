-- ===== src/VirtualKubelet/Replies.antt =====
-- What a round of processCommands sends to the platform.
use k8s_runpod_kubelet.Base.{
  ◌<◌, true, String, [], ◌∷◌, ◌++◌, length, ltb, ◌≡◌, refl, ap, ◌∙◌, inl, inr, Bool-cases, arith,
}
use k8s_runpod_kubelet.Kubernetes.{Pod}
use k8s_runpod_kubelet.Protocol.Messages.{Envelope, Response, envelope_response}
use k8s_runpod_kubelet.Protocol.Events.{new_envelope, response}
use k8s_runpod_kubelet.Providers.World.{World}
use k8s_runpod_kubelet.Command.Handler.{handle_command}
use k8s_runpod_kubelet.WsClient.Link.{Link, send_envelope, send_payload, send_response}
use k8s_runpod_kubelet.WsClient.Loop.{Loop}
use k8s_runpod_kubelet.VirtualKubelet.State.{Kubelet, update_pod_status}
use k8s_runpod_kubelet.VirtualKubelet.Changes.{Survives, handle_command_kept, book_response_kept}
use k8s_runpod_kubelet.VirtualKubelet.Commands.{
  handler, report_cached, book_response, process_command,
}

-- The kubelet has this client.
abbrev pub Has : Loop → Kubelet → Type 0
Has c k = k.ws_client ≡ c

module _ (c : Loop) where
  report_cached-Has :
      (k : Kubelet) (key : String) (pod : Pod) (phase reason message : String)
      → Has c k
      → Has c (report_cached k key pod phase reason message)
  unfolding update_pod_status
  report_cached-Has k key pod phase reason message h = elim (Bool-cases k.notify_set) [
    | inl e ↦ rw e h
    | inr e ↦ rw e h
  ]

  survives-Has : Survives (Has c)
  survives-Has = record {
    writes = λ k key f kept h. h;
    reports =
        λ k key pod phase reason message here h. report_cached-Has k key pod phase reason message h;
  }

  pub handle_command-Has :
      (w : World) (k : Kubelet) (e : Envelope)
      → Has c k
      → Has c (handle_command w (handler k) e k).0
  handle_command-Has = handle_command_kept (Has c) survives-Has

  pub book_response-Has :
      (k : Kubelet) (e : Envelope) (r : Response) → Has c k → Has c (book_response k e r)
  book_response-Has = book_response_kept (Has c) survives-Has

send_response_queued :
    (l : Link) (r : Response)
    → l.connected ≡ true
    → length l.outbound < 200
    → (send_response l r).0 ≡ record l {
      outbound = l.outbound ++ new_envelope envelope_response (response r) l.config.kubelet_id ∷ [];
    }
unfolding send_response send_payload send_envelope
send_response_queued l r on room =
    let below : ltb (length l.outbound) 200 ≡ true = ground (arith, room) in rw (on, below) refl

-- While the client is connected and has room for a frame, a round of processCommands puts exactly
-- one frame into the queue, whatever the command is and does: the response to it, behind what is
-- there. Nothing else of the state that the client shares changes.
pub process_command-response :
    (w : World) (k : Kubelet) (e : Envelope)
    → k.ws_client.link.connected ≡ true
    → length k.ws_client.link.outbound < 200
    → let l = k.ws_client.link in
      (process_command w k e).ws_client.link ≡ record l {
        outbound =
            l.outbound
            ++ new_envelope envelope_response
                (response (handle_command w (handler k) e k).1)
                l.config.kubelet_id
              ∷ [];
      }
unfolding process_command
process_command-response w k e on room =
    let (k1, r) = handle_command w (handler k) e k in
    let kept : (book_response k1 e r).ws_client ≡ k.ws_client =
      book_response-Has k.ws_client k1 e r (handle_command-Has k.ws_client w k e refl) in
    ap (λ (c : Loop). (send_response c.link r).0) kept
    ∙ send_response_queued k.ws_client.link r on room
