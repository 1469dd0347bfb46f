-- ===== src/WsClient/Loop.antt =====
-- pkg/websocket/client.go: connectionManager as a state machine. Its calls, the messages of the
-- connection and the timers are the events of the environment.
use k8s_runpod_kubelet.Base.{
  ◌*◌, ◌-◌, ◌^◌, suc, List, [], ◌∷◌, ℤ, pos, negsuc, ltb, leb, ◌==◌, if◌then◌else◌,
}
use k8s_runpod_kubelet.WsClient.Link.{
  Link, ReadError, Transfer, connect, read_failed, end_message_loop, transfer,
}

-- The product of an int64 duration and 2, which wraps around.
unfoldable pub double : ℤ → ℤ
double (pos n) = if ltb (n * 2) (2 ^ 63) then pos (n * 2) else negsuc (2 ^ 64 - 1 - n * 2)
double (negsuc n) =
    if leb (suc n * 2) (2 ^ 63) then negsuc (suc n * 2 - 1) else pos (2 ^ 64 - suc n * 2)

-- a < b
unfoldable pub less : ℤ → ℤ → ℤ → ℤ → ℤ
less (pos a) (pos b) x y = if ltb a b then x else y
less (pos a) (negsuc b) x y = y
less (negsuc a) (pos b) x y = x
less (negsuc a) (negsuc b) x y = if ltb b a then x else y

-- min
unfoldable pub min_duration : ℤ → ℤ → ℤ
unfolding less
min_duration a b = less a b a b

-- Where the loop is: about to dial; waiting after a failed dial; in messageLoop; waiting after a
-- refusal; returned.
pub data Phase : Type 0 where
  dialing serving stopped : Phase
  backing_off refused : (wait : ℤ) → Phase

-- `reconnect_delay` is the local variable; `link` is the state that other goroutines share.
pub record Loop : Type 0 where
  pub phase : Phase
  pub reconnect_delay : ℤ
  pub link : Link

unfoldable pub start : Link → Loop
start l = record { phase = dialing; reconnect_delay = l.config.reconnect_interval; link = l }

-- `connection_fails` is the end of a messageReader by an error: after a failed write messageLoop
-- returns first, so this can happen in any phase; `loop_ends` is the return of messageLoop, for either
-- reason; `cancel` is the moment at which the
-- loop sees the end of the context or the closed closeCh;
-- `meanwhile` is an operation of another goroutine.
pub data Event : Type 0 where
  dial_fails dial_succeeds timer_fires loop_ends cancel : Event
  connection_fails : ReadError → Event
  meanwhile : Transfer → Event

abbrev dialed : Loop → Loop
dialed s = record s {
  phase = serving;
  reconnect_delay = s.link.config.reconnect_interval;
  link = connect s.link;
}

-- The code behind messageLoop's return.
abbrev after_loop : Loop → Loop
after_loop s =
    let l = end_message_loop s.link in
    if s.link.refused_reason == ""
    then record s { phase = dialing; link = record l { refused_reason = "" } }
    else record s {
      phase = refused l.config.max_reconnect_delay;
      link = record l { refused_reason = "" };
    }

-- One event in one phase. An event that cannot occur in a phase changes nothing.
unfoldable pub react : Phase → Event → Loop → Loop
unfolding double min_duration connect read_failed end_message_loop transfer
react _ (meanwhile op) s = record s { link = transfer s.link op }
react _ (connection_fails x) s = record s { link = read_failed s.link x }
react dialing dial_fails s = record s { phase = backing_off s.reconnect_delay }
react dialing dial_succeeds s = dialed s
react dialing cancel s = record s { phase = stopped }
react (backing_off wait) timer_fires s = record s {
  phase = dialing;
  reconnect_delay = min_duration (double s.reconnect_delay) s.link.config.max_reconnect_delay;
}
react (backing_off wait) cancel s = record s { phase = stopped }
react serving loop_ends s = after_loop s
react serving cancel s = record s { phase = stopped; link = end_message_loop s.link }
react (refused wait) timer_fires s = record s { phase = dialing }
react (refused wait) cancel s = record s { phase = stopped }
react _ _ s = s

unfoldable pub step : Loop → Event → Loop
unfolding react
step s e = react s.phase e s

unfoldable pub run : Loop → List Event → Loop
run s [] = s
run s (e ∷ es) = run (step s e) es

-- Stop, which ends the context and closeCh and waits until the loop has returned
unfoldable pub stop : Loop → Loop
unfolding step
stop s = step s cancel
