-- ===== src/WsClient/Reconnect.antt =====
-- What the connection loop does when a connection ends.
use mathlib.Core.Path.{subst}
use k8s_runpod_kubelet.Base.{
  Bool, true, false, String, List, [], ◌∷◌, ◌≡◌, refl, inl, inr, arith, ◌==◌, sym, if◌then◌else◌,
  Bool-cases,
}
use k8s_runpod_kubelet.WsClient.Config.{ClientConfig, fill_defaults}
use k8s_runpod_kubelet.WsClient.Link.{
  Link, ReadError, policy_violation, other_error, Transfer, sends, receives, takes_command,
  takes_outbound, new_client, transfer, read_failed,
}
use k8s_runpod_kubelet.WsClient.Loop.{
  Loop, Phase, Event, dialing, serving, stopped, backing_off, refused, dial_succeeds, loop_ends,
  connection_fails, meanwhile, react, start, step, run,
}

abbrev pub is_serving : Phase → Bool
is_serving serving = true
is_serving _ = false

-- The client is connected exactly in messageLoop, and its configuration stays the same.
pub record Inv (c : ClientConfig) (s : Loop) : Type 0 where
  pub config : s.link.config ≡ fill_defaults c
  pub online : s.link.connected ≡ is_serving s.phase
  pub has_conn : s.link.has_conn ≡ is_serving s.phase

start-Inv : (c : ClientConfig) → Inv c (start (new_client c))
unfolding start new_client
start-Inv c = record { config = refl; online = refl; has_conn = refl }

-- A transfer leaves all of this alone.
pub transfer_kept :
    (l : Link) (op : Transfer)
    → ((transfer l op).config ≡ l.config)
      × ((transfer l op).connected ≡ l.connected)
      × ((transfer l op).has_conn ≡ l.has_conn)
unfolding transfer
transfer_kept l (sends f) = ground arith
transfer_kept l (receives e) = ground arith
transfer_kept l takes_command = ground arith
transfer_kept l takes_outbound = ground arith

pub react-meanwhile :
    (p : Phase) (op : Transfer) (s : Loop)
    → react p (meanwhile op) s ≡ record s { link = transfer s.link op }
unfolding react
react-meanwhile dialing op s = refl
react-meanwhile serving op s = refl
react-meanwhile stopped op s = refl
react-meanwhile (backing_off w) op s = refl
react-meanwhile (refused w) op s = refl

pub react-connection_fails :
    (p : Phase) (x : ReadError) (s : Loop)
    → react p (connection_fails x) s ≡ record s { link = read_failed s.link x }
unfolding react
react-connection_fails dialing x s = refl
react-connection_fails serving x s = refl
react-connection_fails stopped x s = refl
react-connection_fails (backing_off w) x s = refl
react-connection_fails (refused w) x s = refl

react-Inv :
    (c : ClientConfig) (p : Phase) (e : Event) (s : Loop)
    → s.phase ≡ p
    → Inv c s
    → Inv c (react p e s)
unfolding react
react-Inv c dialing (meanwhile op) s q v = ground (arith, transfer_kept s.link op)
react-Inv c p e s q v = ground arith

pub step-Inv : (c : ClientConfig) (s : Loop) (e : Event) → Inv c s → Inv c (step s e)
unfolding step
step-Inv c s e v = react-Inv c s.phase e s refl v

pub run-Inv : (c : ClientConfig) (s : Loop) (es : List Event) → Inv c s → Inv c (run s es)
unfolding run
run-Inv c s [] v = v
run-Inv c s (e ∷ es) v = run-Inv c (step s e) es (step-Inv c s e v)

-- In every state that the connection loop reaches from a new client, whatever the network and the
-- other goroutines do: the client counts as connected, and holds a connection, exactly while the
-- message loop runs; the configuration is that of the start, with its defaults filled in.
pub run-start-Inv : (c : ClientConfig) (es : List Event) → Inv c (run (start (new_client c)) es)
run-start-Inv c es = run-Inv c _ es (start-Inv c)

-- The reason of a refusal that messageLoop leaves behind when the reader ends by this error.
abbrev pub refusal : Link → ReadError → String
refusal l (policy_violation text) = text
refusal l other_error = l.refused_reason

abbrev pub closed : Loop → ReadError → Loop
closed s x = run s (dial_succeeds ∷ connection_fails x ∷ loop_ends ∷ [])

abbrev pub Closes : Loop → ReadError → Loop → Type 0
Closes s x t =
    (t.phase
      ≡ (if refusal s.link x == "" then dialing else refused s.link.config.max_reconnect_delay))
    × (t.reconnect_delay ≡ s.link.config.reconnect_interval)
    × (t.link ≡ record s.link { has_conn = false; connected = false; refused_reason = "" })

closed_from : (s : Loop) (x : ReadError) → Closes s x (closed (record s { phase = dialing }) x)
unfolding run step react
closed_from s (policy_violation text) = elim (Bool-cases (text == "")) [
  | inl e ↦ rw e (refl, refl, refl)
  | inr e ↦ rw e (refl, refl, refl)
]
closed_from s other_error = elim (Bool-cases (s.link.refused_reason == "")) [
  | inl e ↦ rw e (refl, refl, refl)
  | inr e ↦ rw e (refl, refl, refl)
]

-- Take any state in which the loop is about to dial. If it connects and the connection then ends by
-- a read error, the loop waits for the maximum delay if the platform closed it as a policy violation
-- with a text, or if the reader of an earlier connection left the text of one behind; else it dials
-- again at once, with no wait in between. In both cases the backoff is reset, the reason is cleared,
-- the client is offline, and the queues, which hold what was not yet sent and the commands, are kept.
pub closed_redials : (s : Loop) (x : ReadError) → s.phase ≡ dialing → Closes s x (closed s x)
closed_redials s x p =
    subst (λ t. Closes s x (closed t x)) (λ i. record s { phase = sym p i }) (closed_from s x)
