-- ===== src/WsClient/Link.antt =====
-- pkg/websocket/client.go: the state that the goroutines of a Client share, and the operations on
-- it, each of them one step. A channel is the list of what it holds, the oldest first. What the
-- source does under the mutex or by one operation on a channel is atomic there too; sendEnvelope is
-- not: it tests the connection under the lock, releases it and then sends, so that a sender which
-- has passed the test may still put its frame into the channel after a disconnect or Stop. Here the
-- test and the send are one step, and such a late frame does not occur.
use k8s_runpod_kubelet.Base.{
  Bool, true, false, String, List, [], ◌∷◌, ◌++◌, Option, none, some, length, ltb, ◌==◌,
  if◌then◌else◌, GoError, plain,
}
use k8s_runpod_kubelet.Protocol.Messages.{
  Envelope, Response, envelope_command, envelope_response, envelope_event, envelope_heartbeat,
  envelope_registration,
}
use k8s_runpod_kubelet.Protocol.Events.{
  Event, Registration, Payload, Frame, new_envelope, new_heartbeat, response, event, registration,
  heartbeat,
}
use k8s_runpod_kubelet.WsClient.Config.{ClientConfig, fill_defaults}

-- `has_conn` tells that the field conn is not nil.
pub record Link : Type 0 where
  pub config : ClientConfig
  pub has_conn : Bool
  pub connected : Bool
  pub refused_reason : String
  pub commands : List Envelope
  pub outbound : List Frame

-- NewClient
unfoldable pub new_client : ClientConfig → Link
new_client c = record {
  config = fill_defaults c;
  has_conn = false;
  connected = false;
  refused_reason = "";
  commands = [];
  outbound = [];
}

-- IsConnected
unfoldable pub is_connected : Link → Bool
is_connected l = l.connected

-- KubeletID
unfoldable pub kubelet_id : Link → String
kubelet_id l = l.config.kubelet_id

-- sendEnvelope
unfoldable pub send_envelope : Link → Frame → Link × Option GoError
send_envelope l f =
    if l.connected
    then (if ltb (length l.outbound) 200
        then (record l { outbound = l.outbound ++ f ∷ [] }, none)
        else (l, some (plain "outbound channel full")))
    else (l, some (plain "not connected"))

unfoldable pub send_payload : Link → String → Payload → Link × Option GoError
unfolding send_envelope new_envelope
send_payload l type p = send_envelope l (new_envelope type p l.config.kubelet_id)

-- SendResponse
unfoldable pub send_response : Link → Response → Link × Option GoError
unfolding send_payload
send_response l r = send_payload l envelope_response (response r)

-- SendEvent
unfoldable pub send_event : Link → Event → Link × Option GoError
unfolding send_payload
send_event l e = send_payload l envelope_event (event e)

-- SendRegistration
unfoldable pub send_registration : Link → Registration → Link × Option GoError
unfolding send_payload
send_registration l r = send_payload l envelope_registration (registration r)

-- SendHeartbeat
unfoldable pub send_heartbeat : Link → Link × Option GoError
unfolding send_payload new_heartbeat
send_heartbeat l = send_payload l envelope_heartbeat (heartbeat (new_heartbeat l.config.kubelet_id))

-- a tick of heartbeatRoutine
unfoldable pub heartbeat_tick : Link → Link
unfolding send_heartbeat
heartbeat_tick l = if l.connected then (send_heartbeat l).0 else l

-- handleIncomingMessage
unfoldable pub handle_incoming_message : Link → Envelope → Link
handle_incoming_message l e =
    if e.type == envelope_command
    then (if ltb (length l.commands) 100 then record l { commands = l.commands ++ e ∷ [] } else l)
    else l

take_command_from : Link → List Envelope → Link × Option Envelope
take_command_from l [] = (l, none)
take_command_from l (e ∷ rest) = (record l { commands = rest }, some e)

-- a receive from Commands(), which gives nothing while the channel is empty
unfoldable pub take_command : Link → Link × Option Envelope
unfolding take_command_from
take_command l = take_command_from l l.commands

-- the assignments of connect after a successful dial
unfoldable pub connect : Link → Link
connect l = record l { has_conn = true; connected = true }

take_outbound_from : Link → List Frame → Link × Option Frame
take_outbound_from l [] = (l, none)
take_outbound_from l (f ∷ rest) = (record l { outbound = rest }, some f)

-- messageLoop's receive from outboundCh; writeEnvelope then writes the frame or ends the loop
unfoldable pub take_outbound : Link → Link × Option Frame
unfolding take_outbound_from
take_outbound l = take_outbound_from l l.outbound

-- why ReadMessage failed
pub data ReadError : Type 0 where
  policy_violation : (text : String) → ReadError
  other_error : ReadError

-- what messageReader does with an error before it returns
unfoldable pub read_failed : Link → ReadError → Link
read_failed l (policy_violation text) = record l { refused_reason = text }
read_failed l other_error = l

-- the deferred function of messageLoop
unfoldable pub end_message_loop : Link → Link
end_message_loop l = record l { has_conn = false; connected = false }

-- What the other goroutines do to the state: enqueue a frame, deliver an envelope, take a command,
-- and take a frame for writing.
pub data Transfer : Type 0 where
  sends : Frame → Transfer
  receives : Envelope → Transfer
  takes_command takes_outbound : Transfer

unfoldable pub transfer : Link → Transfer → Link
unfolding send_envelope handle_incoming_message take_command take_outbound
transfer l (sends f) = (send_envelope l f).0
transfer l (receives e) = handle_incoming_message l e
transfer l takes_command = (take_command l).0
transfer l takes_outbound = (take_outbound l).0
