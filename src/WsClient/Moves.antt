-- ===== src/WsClient/Moves.antt =====
-- pkg/websocket/client.go: the diagram of connectionManager, from one place of its loop to the next.
use mathlib.Core.Path.{subst, subst₂}
use k8s_runpod_kubelet.Base.{List, [], ◌∷◌, ◌≡◌, ◌↔◌, refl, sym, ◌==◌, if_both}
use k8s_runpod_kubelet.WsClient.Config.{ClientConfig}
use k8s_runpod_kubelet.WsClient.Link.{policy_violation, takes_command, new_client}
use k8s_runpod_kubelet.WsClient.Loop.{
  Loop, Phase, Event, dialing, serving, stopped, backing_off, refused, dial_fails, dial_succeeds,
  timer_fires, loop_ends, cancel, connection_fails, meanwhile, react, start, step, run,
}
use k8s_runpod_kubelet.WsClient.Reconnect.{react-meanwhile, react-connection_fails}

-- A phase without the length of its wait.
pub data Place : Type 0 where
  at_dial at_wait at_loop at_refusal at_end : Place

unfoldable pub place : Phase → Place
place dialing = at_dial
place (backing_off wait) = at_wait
place serving = at_loop
place (refused wait) = at_refusal
place stopped = at_end

-- The edges of the diagram.
pub data Move : Place → Place → Type 0 where
  stays : (p : Place) → Move p p
  ends : (p : Place) → Move p at_end
  fails : Move at_dial at_wait
  connects : Move at_dial at_loop
  waited : Move at_wait at_dial
  loses : Move at_loop at_dial
  is_refused : Move at_loop at_refusal
  retries : Move at_refusal at_dial

kept : (p : Phase) (s : Loop) → s.phase ≡ p → Move (place p) (place s.phase)
kept p s q = subst (λ x. Move (place p) (place x)) (sym q) (stays (place p))

react-Move :
    (p : Phase) (e : Event) (s : Loop) → s.phase ≡ p → Move (place p) (place (react p e s).phase)
unfolding react place
react-Move p (meanwhile op) s q =
    subst (λ (t : Loop). Move (place p) (place t.phase)) (sym (react-meanwhile p op s)) (kept p s q)
react-Move p (connection_fails x) s q =
    subst (λ (t : Loop). Move (place p) (place t.phase)) (sym (react-connection_fails p x s))
      (kept p s q)
react-Move dialing dial_fails s q = fails
react-Move dialing dial_succeeds s q = connects
react-Move dialing cancel s q = ends at_dial
react-Move (backing_off w) timer_fires s q = waited
react-Move (backing_off w) cancel s q = ends at_wait
react-Move serving loop_ends s q =
    if_both (λ (t : Loop). Move at_loop (place t.phase)) (s.link.refused_reason == "") _ _ loses
      is_refused
react-Move serving cancel s q = ends at_loop
react-Move (refused w) timer_fires s q = retries
react-Move (refused w) cancel s q = ends at_refusal
react-Move dialing timer_fires s q = kept dialing s q
react-Move dialing loop_ends s q = kept dialing s q
react-Move (backing_off w) dial_fails s q = kept (backing_off w) s q
react-Move (backing_off w) dial_succeeds s q = kept (backing_off w) s q
react-Move (backing_off w) loop_ends s q = kept (backing_off w) s q
react-Move serving dial_fails s q = kept serving s q
react-Move serving dial_succeeds s q = kept serving s q
react-Move serving timer_fires s q = kept serving s q
react-Move (refused w) dial_fails s q = kept (refused w) s q
react-Move (refused w) dial_succeeds s q = kept (refused w) s q
react-Move (refused w) loop_ends s q = kept (refused w) s q
react-Move stopped dial_fails s q = kept stopped s q
react-Move stopped dial_succeeds s q = kept stopped s q
react-Move stopped timer_fires s q = kept stopped s q
react-Move stopped loop_ends s q = kept stopped s q
react-Move stopped cancel s q = kept stopped s q

-- The event that a new client needs to come to a place, and the one that leads on from there.
abbrev refusing : List Event
refusing = dial_succeeds ∷ connection_fails (policy_violation "plan limit") ∷ loop_ends ∷ []

module _ (c : ClientConfig) where
  -- After these events a new client is in the one place, and this event takes it to the other.
  abbrev pub Leads : Place → Place → Type 0
  Leads p q =
      (es : List Event) × (e : Event) × (place (run (start (new_client c)) es).phase ≡ p)
      × (place (step (run (start (new_client c)) es) e).phase ≡ q)

  Leads-stays : (p : Place) → Leads p p
  unfolding run step start new_client place
  Leads-stays at_dial = ([], meanwhile takes_command, refl, refl)
  Leads-stays at_wait = (dial_fails ∷ [], meanwhile takes_command, refl, refl)
  Leads-stays at_loop = (dial_succeeds ∷ [], meanwhile takes_command, refl, refl)
  Leads-stays at_refusal = (refusing, meanwhile takes_command, refl, refl)
  Leads-stays at_end = (cancel ∷ [], meanwhile takes_command, refl, refl)

  Leads-ends : (p : Place) → Leads p at_end
  unfolding run step start new_client place
  Leads-ends at_dial = ([], cancel, refl, refl)
  Leads-ends at_wait = (dial_fails ∷ [], cancel, refl, refl)
  Leads-ends at_loop = (dial_succeeds ∷ [], cancel, refl, refl)
  Leads-ends at_refusal = (refusing, cancel, refl, refl)
  Leads-ends at_end = (cancel ∷ [], cancel, refl, refl)

  Move-Leads : {p q : Place} → Move p q → Leads p q
  unfolding run step start new_client place
  Move-Leads (stays p) = Leads-stays p
  Move-Leads (ends p) = Leads-ends p
  Move-Leads fails = ([], dial_fails, refl, refl)
  Move-Leads connects = ([], dial_succeeds, refl, refl)
  Move-Leads waited = (dial_fails ∷ [], timer_fires, refl, refl)
  Move-Leads loses = (dial_succeeds ∷ [], loop_ends, refl, refl)
  Move-Leads is_refused =
      (dial_succeeds ∷ connection_fails (policy_violation "plan limit") ∷ [], loop_ends, refl, refl)
  Move-Leads retries = (refusing, timer_fires, refl, refl)

  Leads-Move : (p q : Place) → Leads p q → Move p q
  unfolding step
  Leads-Move p q (es, e, here, there) =
      let s = run (start (new_client c)) es in subst₂ Move here there (react-Move s.phase e s refl)

  -- The diagram of the connection loop is exact: a new client can come to a place and be taken by one
  -- event to another place exactly if the diagram has an edge between them. So it comes to a served
  -- connection from dialing only, to a refusal from a served connection only, from a wait of either
  -- kind to no other place than dialing and the end, and from the end nowhere.
  pub Move_iff : (p q : Place) → Move p q ↔ Leads p q
  Move_iff p q = (λ m. Move-Leads m, Leads-Move p q)
