-- ===== src/Tests/Client.antt =====
-- The WebSocket client: failed dials, a lost connection, frames in the queue.
use native.Mathlib.Omega.{arith}
use k8s_runpod_kubelet.Base.{
  [], ◌∷◌, ◌++◌, String, List, Option, none, some, ok, pos, true, plain, wrapped, false, Dict,
  lookup, insert, lookup-insert_self, lookup-insert_ne, ap, ◌≡◌, refl,
}
use k8s_runpod_kubelet.WsClient.Config.{default_client_config, fill_defaults}
use k8s_runpod_kubelet.WsClient.Link.{Link, new_client, other_error, sends, takes_outbound}
use k8s_runpod_kubelet.WsClient.Loop.{
  Loop, Event, start, run, step, stop, stopped, react, backing_off, dial_fails, dial_succeeds,
  timer_fires, meanwhile,
}
use k8s_runpod_kubelet.Protocol.Events.{Frame, new_envelope, new_heartbeat, heartbeat}
use k8s_runpod_kubelet.WsClient.Backoff.{failures, failures-backoff}
use k8s_runpod_kubelet.WsClient.Reconnect.{Inv, run-start-Inv, Closes, closed, closed_redials}
use k8s_runpod_kubelet.WsClient.Writer.{message, ping, write_rounds, write_rounds-failure}
use k8s_runpod_kubelet.WsClient.Waits.{Waits, run-start-Waits}
use k8s_runpod_kubelet.WsClient.Stopping.{run-stop}
use k8s_runpod_kubelet.WsClient.Connect.{Authorises, dial_round, dial_round-Authorises}
use k8s_runpod_kubelet.WsClient.Dial.{UrlPackage, IsUrlPackage}
use k8s_runpod_kubelet.WsClient.Queues.{all_accepted, all_taken, run-outbound}

abbrev frame : Frame
frame = new_envelope "heartbeat" (heartbeat (new_heartbeat "k1")) "k1"

-- A failed dial, a wait, a connection over which one of two frames is written.
abbrev events : List Event
events =
    dial_fails
    ∷ timer_fires
    ∷ dial_succeeds
    ∷ meanwhile (sends frame)
    ∷ meanwhile (sends frame)
    ∷ meanwhile takes_outbound
    ∷ []

-- After four failed dials the wait is 5 s * 2 ^ 3.
failures-backoff_example :
    (run (start (new_client default_client_config)) (failures 3)).phase
    ≡ backing_off (pos 40000000000)
unfolding new_client fill_defaults
failures-backoff_example =
    failures-backoff 5000000000 300000000000 3 (new_client default_client_config) refl refl
      (omega arith) (omega arith)

run-start-Inv_example :
    Inv default_client_config (run (start (new_client default_client_config)) events)
run-start-Inv_example = run-start-Inv default_client_config events

abbrev lost : Loop
lost = run (start (new_client default_client_config)) (dial_fails ∷ timer_fires ∷ [])

closed_redials_example : Closes lost other_error (closed lost other_error)
unfolding run step react start new_client
closed_redials_example = closed_redials lost other_error refl

abbrev begun : Loop
begun = start (new_client default_client_config)

run-outbound_example :
    begun.link.outbound ++ all_accepted begun events
    ≡ all_taken begun events ++ (run begun events).link.outbound
run-outbound_example = run-outbound begun events

run-stop_example :
    let stopping = stop (run begun events) in
    let t = run stopping events in
    (t.phase ≡ stopped)
    × (t.link.connected ≡ false)
    × (t.link.has_conn ≡ false)
    × (all_accepted stopping events ≡ [])
run-stop_example = run-stop default_client_config events events

-- The value of a key, the empty text where there is none.
abbrev value_or_empty : Option String → String
value_or_empty none = ""
value_or_empty (some s) = s

-- URLs that are their queries; every text is one with a token.
abbrev urls : UrlPackage (Dict String) (Dict String) (Dict String)
urls = record {
  parse = λ s. ok (("token", "secret") ∷ ("room", "1") ∷ []);
  query = λ u. u;
  with_raw_query = λ u raw. raw;
  string = λ u. "wss://example.org";
  redacted = λ u. "wss://example.org";
  get = λ v key. value_or_empty (lookup key v);
  set = λ v key value. insert key value v;
  encode = λ v. v;
}

urls-IsUrlPackage : IsUrlPackage urls
urls-IsUrlPackage = record {
  get-set_self = λ v key value. ap value_or_empty (lookup-insert_self key value v);
  get-set_ne = λ v key value other n. ap value_or_empty (lookup-insert_ne key other value v n);
  get-encode = λ u v key. refl;
}

abbrev parsed_url : Dict String
parsed_url = ("token", "secret") ∷ ("room", "1") ∷ []

-- A client that is about to dial, and a network that refuses.
abbrev idle : Loop
idle = start (new_client default_client_config)

dial_round-Authorises_example :
    Authorises urls
      (λ url authorization. some (plain "refused"))
      idle
      (ok parsed_url)
      (dial_round urls (λ url authorization. some (plain "refused")) idle)
unfolding start
dial_round-Authorises_example =
    dial_round-Authorises urls (λ url authorization. some (plain "refused")) urls-IsUrlPackage idle
      (ok parsed_url) refl refl

run-start-Waits_example : Waits 5000000000 300000000000 (run begun events).phase
unfolding new_client fill_defaults
run-start-Waits_example =
    run-start-Waits 5000000000 300000000000 default_client_config events refl refl (omega arith)
      (omega arith)

-- A connection with two heartbeats and an error to write.
abbrev loaded : Link
loaded = record (new_client default_client_config) {
  has_conn = true;
  outbound = frame ∷ frame ∷ frame ∷ [];
}

write_rounds-failure_example :
    write_rounds (none ∷ some (plain "broken pipe") ∷ none ∷ []) loaded ≡ (
      record loaded { outbound = frame ∷ [] },
      (message frame ∷ ping ∷ [], some (wrapped "failed to write message: " (plain "broken pipe"))),
    )
unfolding new_envelope
write_rounds-failure_example =
    write_rounds-failure (frame ∷ []) (frame ∷ []) frame (plain "broken pipe") (none ∷ []) loaded
      refl refl
