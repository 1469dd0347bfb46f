-- ===== src/WsClient/Typed.antt =====
-- pkg/websocket/client.go: the envelope type of a frame in the queue, and its payload.
use mathlib.Core.Path.{subst}
use k8s_runpod_kubelet.Base.{
  String, All, List, [], ◌∷◌, ◌++◌, length, ltb, ◌≡◌, refl, sym, ap, arith, ◌∙◌, ◌==◌, if_both,
}
use k8s_runpod_kubelet.Protocol.Messages.{Response}
use k8s_runpod_kubelet.Protocol.Events.{
  Event, Registration, Payload, Frame, new_envelope, response, event, registration, heartbeat,
}
use k8s_runpod_kubelet.WsClient.Config.{ClientConfig}
use k8s_runpod_kubelet.WsClient.Link.{
  Link, ReadError, policy_violation, other_error, Transfer, sends, receives, takes_command,
  takes_outbound, transfer, send_envelope, send_payload, send_response, send_event,
  send_registration, send_heartbeat, heartbeat_tick, take_outbound, read_failed,
}
use k8s_runpod_kubelet.WsClient.Loop.{
  Loop, Phase, dialing, serving, stopped, backing_off, refused, dial_fails, dial_succeeds,
  timer_fires, loop_ends, cancel, connection_fails, meanwhile, react, step,
}
use k8s_runpod_kubelet.WsClient.Loop
use k8s_runpod_kubelet.WsClient.Reconnect.{react-meanwhile, react-connection_fails, transfer_kept}

All-append {ℓ κ} :
    {A : Type ℓ} (P : A → Type κ) (xs ys : List A) → All P xs → All P ys → All P (xs ++ ys)
All-append P [] ys v w = w
All-append P (x ∷ xs) ys (h, v) w = (h, All-append P xs ys v w)

-- The envelope type for each type of payload.
abbrev pub type_of : Payload → String
type_of (response r) = "response"
type_of (event e) = "event"
type_of (registration r) = "kubelet_registration"
type_of (heartbeat h) = "heartbeat"

-- The envelope of the frame has the type of its payload and the id of this kubelet.
abbrev pub IsTyped : String → Frame → Type 0
IsTyped id f = (f.type ≡ type_of f.payload) × (f.kubelet_id ≡ id)

-- The event is not a send.
abbrev pub SendsNothing : Loop.Event → Type 0
SendsNothing (meanwhile (sends f)) = ⊥
SendsNothing e = Unit

module _ (id : String) where
  -- The frames in the queue are typed, and new ones are stamped with this id.
  pub record TypedLink (l : Link) : Type 0 where
    pub stamped : l.config.kubelet_id ≡ id
    pub queued : All (IsTyped id) l.outbound

  same_queue :
      (l t : Link) → t.config ≡ l.config → t.outbound ≡ l.outbound → TypedLink l → TypedLink t
  same_queue l t p q v = record {
    stamped = ap (λ (c : ClientConfig). c.kubelet_id) p ∙ v.stamped;
    queued = subst (All (IsTyped id)) (sym q) v.queued;
  }

  send_envelope-TypedLink :
      (l : Link) (f : Frame) → IsTyped id f → TypedLink l → TypedLink (send_envelope l f).0
  unfolding send_envelope
  send_envelope-TypedLink l f t v =
      if_both (λ (r : Link × _). TypedLink r.0) l.connected _ _
        (if_both (λ (r : Link × _). TypedLink r.0) (ltb (length l.outbound) 200) _ _
          (record {
            stamped = v.stamped;
            queued = All-append (IsTyped id) l.outbound (f ∷ []) v.queued (t, tt);
          })
          v)
        v

  send_payload-TypedLink :
      (l : Link) (p : Payload) → TypedLink l → TypedLink (send_payload l (type_of p) p).0
  unfolding send_payload new_envelope
  send_payload-TypedLink l p v = send_envelope-TypedLink l _ (refl, v.stamped) v

  pub send_response-TypedLink :
      (l : Link) (r : Response) → TypedLink l → TypedLink (send_response l r).0
  unfolding send_response
  send_response-TypedLink l r v = send_payload-TypedLink l (response r) v

  pub send_event-TypedLink : (l : Link) (e : Event) → TypedLink l → TypedLink (send_event l e).0
  unfolding send_event
  send_event-TypedLink l e v = send_payload-TypedLink l (event e) v

  pub send_registration-TypedLink :
      (l : Link) (r : Registration) → TypedLink l → TypedLink (send_registration l r).0
  unfolding send_registration
  send_registration-TypedLink l r v = send_payload-TypedLink l (registration r) v

  pub heartbeat_tick-TypedLink : (l : Link) → TypedLink l → TypedLink (heartbeat_tick l)
  unfolding heartbeat_tick send_heartbeat
  heartbeat_tick-TypedLink l v =
      if_both TypedLink l.connected _ _ (send_payload-TypedLink l (heartbeat _) v) v

  taken_tail :
      (l : Link) (fs : List Frame)
      → l.outbound ≡ fs
      → All (IsTyped id) fs
      → All (IsTyped id) (take_outbound l).0.outbound
  unfolding take_outbound
  taken_tail l [] q v = rw q tt
  taken_tail l (f ∷ fs) q v = rw q v.1

  transfer-TypedLink :
      (l : Link) (op : Transfer)
      → SendsNothing (meanwhile op)
      → TypedLink l
      → TypedLink (transfer l op)
  unfolding transfer
  transfer-TypedLink l (sends f) h v = absurd h
  transfer-TypedLink l (receives e) h v = same_queue l _ (ground arith) (ground arith) v
  transfer-TypedLink l takes_command h v = same_queue l _ (ground arith) (ground arith) v
  transfer-TypedLink l takes_outbound h v = record {
    stamped =
        ap (λ (c : ClientConfig). c.kubelet_id) (transfer_kept l takes_outbound).0 ∙ v.stamped;
    queued = taken_tail l l.outbound refl v.queued;
  }

  read_failed-TypedLink : (l : Link) (x : ReadError) → TypedLink l → TypedLink (read_failed l x)
  unfolding read_failed
  read_failed-TypedLink l (policy_violation text) v = same_queue l _ refl refl v
  read_failed-TypedLink l other_error v = v

  react-TypedLink :
      (p : Phase) (e : Loop.Event) (s : Loop)
      → SendsNothing e
      → TypedLink s.link
      → TypedLink (react p e s).link
  unfolding react
  react-TypedLink p (meanwhile op) s h v =
      subst (λ (t : Loop). TypedLink t.link) (sym (react-meanwhile p op s))
        (transfer-TypedLink s.link op h v)
  react-TypedLink p (connection_fails x) s h v =
      subst (λ (t : Loop). TypedLink t.link) (sym (react-connection_fails p x s))
        (read_failed-TypedLink s.link x v)
  react-TypedLink dialing dial_succeeds s h v = same_queue s.link _ refl refl v
  react-TypedLink serving loop_ends s h v =
      if_both (λ (t : Loop). TypedLink t.link) (s.link.refused_reason == "") _ _
        (same_queue s.link _ refl refl v) (same_queue s.link _ refl refl v)
  react-TypedLink serving cancel s h v = same_queue s.link _ refl refl v
  react-TypedLink p e s h v = ground (arith, v)

  -- An event of the client keeps the frames in the queue typed.
  pub step-TypedLink :
      (s : Loop) (e : Loop.Event) → SendsNothing e → TypedLink s.link → TypedLink (step s e).link
  unfolding step
  step-TypedLink s e h v = react-TypedLink s.phase e s h v
