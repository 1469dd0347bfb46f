-- ===== src/WsClient/Sending.antt =====
-- pkg/websocket/client.go: what sendEnvelope leaves in the queue of frames.
use k8s_runpod_kubelet.Base.{
  true, false, List, [], ◌∷◌, ◌++◌, Option, none, some, length, fill, fill_nil, fill_room,
  fill_full, ltb, ◌≡◌, sym, ap, ◌∙◌, inl, inr, Bool-cases, if◌then◌else◌, arith, GoError, plain,
}
use k8s_runpod_kubelet.Protocol.Events.{Frame}
use k8s_runpod_kubelet.WsClient.Link.{Link, send_envelope}

-- The client with as many of the frames behind those that are there as the channel has room for.
abbrev pub with_frames : Link → List Frame → Link
with_frames l fs = record l { outbound = fill 200 l.outbound fs }

-- The second frame is sent if the first one was accepted.
abbrev pub then_sends : Frame → Link × Option GoError → Link
then_sends g (l, some e) = l
then_sends g (l, none) = (send_envelope l g).0

with_frames-nil : (l : Link) → with_frames l [] ≡ l
with_frames-nil l = ap (λ fs. record l { outbound = fs }) (fill_nil 200 l.outbound)

with_frames-room :
    (l : Link) (f : Frame) (fs : List Frame)
    → ltb (length l.outbound) 200 ≡ true
    → with_frames (record l { outbound = l.outbound ++ f ∷ [] }) fs ≡ with_frames l (f ∷ fs)
with_frames-room l f fs room =
    ap (λ gs. record l { outbound = gs }) (fill_room 200 l.outbound f fs room)

with_frames-full :
    (l : Link) (fs : List Frame) → ltb (length l.outbound) 200 ≡ false → with_frames l fs ≡ l
with_frames-full l fs full =
    ap (λ gs. record l { outbound = gs }) (fill_full 200 l.outbound fs full)

send_room :
    (l : Link) (f : Frame)
    → l.connected ≡ true
    → ltb (length l.outbound) 200 ≡ true
    → send_envelope l f ≡ (record l { outbound = l.outbound ++ f ∷ [] }, none)
unfolding send_envelope
send_room l f on room = simp (on, room)

send_full :
    (l : Link) (f : Frame)
    → l.connected ≡ true
    → ltb (length l.outbound) 200 ≡ false
    → send_envelope l f ≡ (l, some (plain "outbound channel full"))
unfolding send_envelope
send_full l f on full = simp (on, full)

send_one :
    (l : Link) (f : Frame) → l.connected ≡ true → (send_envelope l f).0 ≡ with_frames l (f ∷ [])
send_one l f on = elim (Bool-cases (ltb (length l.outbound) 200)) [
  | inl room ↦
      ap (λ t. t.0) (send_room l f on room)
      ∙ sym (with_frames-nil (record l { outbound = l.outbound ++ f ∷ [] }))
      ∙ with_frames-room l f [] room
  | inr full ↦ ap (λ t. t.0) (send_full l f on full) ∙ sym (with_frames-full l (f ∷ []) full)
]

send_two :
    (l : Link) (f g : Frame)
    → l.connected ≡ true
    → then_sends g (send_envelope l f) ≡ with_frames l (f ∷ g ∷ [])
send_two l f g on = elim (Bool-cases (ltb (length l.outbound) 200)) [
  | inl room ↦
      ap (then_sends g) (send_room l f on room)
      ∙ send_one (record l { outbound = l.outbound ++ f ∷ [] }) g on
      ∙ with_frames-room l f (g ∷ []) room
  | inr full ↦
      ap (then_sends g) (send_full l f on full) ∙ sym (with_frames-full l (f ∷ g ∷ []) full)
]

refused :
    (l : Link) (f : Frame)
    → l.connected ≡ false
    → send_envelope l f ≡ (l, some (plain "not connected"))
unfolding send_envelope
refused l f off =
    ap
      (λ b.
        if b
        then (if ltb (length l.outbound) 200
            then (record l { outbound = l.outbound ++ f ∷ [] }, none)
            else (l, some (plain "outbound channel full")))
        else (l, some (plain "not connected")))
      off

pub send_envelope_config : (l : Link) (f : Frame) → (send_envelope l f).0.config ≡ l.config
unfolding send_envelope
send_envelope_config l f = ground arith

-- The frames behind those that are there, where the client is connected.
abbrev pub emitted : Link → List Frame → Link
emitted l fs = if l.connected then with_frames l fs else l

pub send_envelope-emitted : (l : Link) (f : Frame) → (send_envelope l f).0 ≡ emitted l (f ∷ [])
send_envelope-emitted l f = elim (Bool-cases l.connected) [
  | inl on ↦ send_one l f on ∙ ap (λ b. if b then with_frames l (f ∷ []) else l) (sym on)
  | inr off ↦
      ap (λ t. t.0) (refused l f off) ∙ ap (λ b. if b then with_frames l (f ∷ []) else l) (sym off)
]

pub send_two-emitted :
    (l : Link) (f g : Frame) → then_sends g (send_envelope l f) ≡ emitted l (f ∷ g ∷ [])
send_two-emitted l f g = elim (Bool-cases l.connected) [
  | inl on ↦ send_two l f g on ∙ ap (λ b. if b then with_frames l (f ∷ g ∷ []) else l) (sym on)
  | inr off ↦
      ap (then_sends g) (refused l f off)
      ∙ ap (λ b. if b then with_frames l (f ∷ g ∷ []) else l) (sym off)
]

pub emitted-nil : (l : Link) → emitted l [] ≡ l
emitted-nil l = elim (Bool-cases l.connected) [
  | inl on ↦ ap (λ b. if b then with_frames l [] else l) on ∙ with_frames-nil l
  | inr off ↦ ap (λ b. if b then with_frames l [] else l) off
]
