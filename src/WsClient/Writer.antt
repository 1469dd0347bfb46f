-- ===== src/WsClient/Writer.antt =====
-- pkg/websocket/client.go: writeEnvelope, and the rounds of messageLoop that write. What WriteMessage
-- answers is a parameter; marshalling a frame does not fail, and an error of the ping is only logged.
use k8s_runpod_kubelet.Base.{
  true, List, [], ◌∷◌, ◌++◌, Option, none, some, ◌≡◌, refl, ap, ◌∙◌, ◌==◌, if◌then◌else◌, GoError,
  plain, wrapped,
}
use k8s_runpod_kubelet.Protocol.Messages.{envelope_heartbeat}
use k8s_runpod_kubelet.Protocol.Events.{Frame}
use k8s_runpod_kubelet.WsClient.Link.{Link, take_outbound}

-- What goes out on the connection.
pub data Sent : Type 0 where
  message : Frame → Sent
  ping : Sent

-- a heartbeat is followed by a ping
abbrev pub sent_for : Frame → List Sent
sent_for f = if f.type == envelope_heartbeat then message f ∷ ping ∷ [] else message f ∷ []

abbrev pub after_write : Frame → Option GoError → List Sent × Option GoError
after_write f none = (sent_for f, none)
after_write f (some s) = ([], some (wrapped "failed to write message: " s))

-- writeEnvelope, where WriteMessage fails with this error or succeeds
unfoldable pub write_envelope : Link → Option GoError → Frame → List Sent × Option GoError
write_envelope l written f =
    if l.has_conn then after_write f written else ([], some (plain "connection not available"))

abbrev pub wrote : Option GoError → Link × Option Frame → Link × (List Sent × Option GoError)
wrote written (l, none) = (l, ([], none))
wrote written (l, some f) = (l, write_envelope l written f)

-- The rounds of messageLoop that take a frame: it returns at the first error.
abbrev pub onward :
    Link × (List Sent × Option GoError)
    → Link × (List Sent × Option GoError)
    → Link × (List Sent × Option GoError)
onward (l, (out, some e)) rest = (l, (out, some e))
onward (l, (out, none)) (l', (out', e)) = (l', (out ++ out', e))

unfoldable pub write_rounds : List (Option GoError) → Link → Link × (List Sent × Option GoError)
unfolding write_envelope take_outbound
write_rounds [] l = (l, ([], none))
write_rounds (written ∷ more) l =
    let first = wrote written (take_outbound l) in
    let rest = write_rounds more first.0 in onward first rest

abbrev pub sent_for_all : List Frame → List Sent
sent_for_all [] = []
sent_for_all (f ∷ fs) = sent_for f ++ sent_for_all fs

-- Every one of the writes succeeds.
abbrev pub successes : List Frame → List (Option GoError)
successes [] = []
successes (f ∷ fs) = none ∷ successes fs

take_outbound-first :
    (l : Link) (f : Frame) (rest : List Frame)
    → l.outbound ≡ f ∷ rest
    → take_outbound l ≡ (record l { outbound = rest }, some f)
unfolding take_outbound
take_outbound-first l f rest q = rw q refl

write_envelope-online :
    (l : Link) (written : Option GoError) (f : Frame)
    → l.has_conn ≡ true
    → write_envelope l written f ≡ after_write f written
unfolding write_envelope
write_envelope-online l written f on = rw on refl

-- The round that takes the first frame of the queue.
write_rounds-first :
    (l : Link) (f : Frame) (rest : List Frame) (written : Option GoError)
    (more : List (Option GoError))
    → l.has_conn ≡ true
    → l.outbound ≡ f ∷ rest
    → let l' = record l { outbound = rest } in
      write_rounds (written ∷ more) l ≡ onward (l', after_write f written) (write_rounds more l')
unfolding write_rounds
write_rounds-first l f rest written more on q =
    let l' = record l { outbound = rest } in
    ap (λ t. onward (wrote written t) (write_rounds more (wrote written t).0))
      (take_outbound-first l f rest q)
    ∙ ap (λ r. onward (l', r) (write_rounds more l')) (write_envelope-online l' written f on)

-- With a connection, let the frames in the queue be some that are written, one whose write fails, and
-- the rest. Then the former go out in their order, each heartbeat with a ping behind it, and
-- messageLoop ends with the error of the write. The rest stays in the queue for the next connection,
-- but the frame whose write failed is in neither: it is lost.
pub write_rounds-failure :
    (written rest : List Frame) (f : Frame) (error : GoError) (more : List (Option GoError))
    (l : Link)
    → l.has_conn ≡ true
    → l.outbound ≡ written ++ f ∷ rest
    → write_rounds (successes written ++ some error ∷ more) l ≡ (
      record l { outbound = rest },
      (sent_for_all written, some (wrapped "failed to write message: " error)),
    )
write_rounds-failure [] rest f error more l on q = write_rounds-first l f rest _ more on q
write_rounds-failure (g ∷ gs) rest f error more l on q =
    let l' = record l { outbound = gs ++ f ∷ rest } in
    write_rounds-first l g (gs ++ f ∷ rest) none _ on q
    ∙ ap (onward (l', after_write g none)) (write_rounds-failure gs rest f error more l' on refl)
