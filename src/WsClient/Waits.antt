-- ===== src/WsClient/Waits.antt =====
-- How long the connection loop waits between two dials.
use mathlib.Core.Path.{subst}
use k8s_runpod_kubelet.Base.{
  ℕ, ◌≤◌, ◌<◌, ◌*◌, ◌^◌, List, [], ◌∷◌, ℤ, pos, negsuc, ◌≡◌, refl, sym, ap, ◌∙◌, arith, ◌==◌,
  if_both,
}
use k8s_runpod_kubelet.WsClient.Config.{ClientConfig, fill_defaults}
use k8s_runpod_kubelet.WsClient.Link.{
  Link, new_client, ReadError, read_failed, policy_violation, other_error,
}
use k8s_runpod_kubelet.WsClient.Loop.{
  Loop, Phase, Event, dialing, serving, backing_off, refused, dial_fails, dial_succeeds,
  timer_fires, loop_ends, cancel, connection_fails, meanwhile, double, min_duration, react, start,
  step, run,
}
use k8s_runpod_kubelet.WsClient.Backoff.{min_duration_pos, double_pos}
use k8s_runpod_kubelet.WsClient.Reconnect.{transfer_kept, react-meanwhile, react-connection_fails}

module _ (low high : ℕ) where
  -- A duration between the two.
  abbrev pub Within : ℤ → Type 0
  Within (pos d) = (low ≤ d) × (d ≤ high)
  Within (negsuc d) = ⊥

  -- The wait of a phase, where it is one.
  abbrev pub Waits : Phase → Type 0
  Waits (backing_off w) = Within w
  Waits (refused w) = w ≡ pos high
  Waits p = Unit

  -- The configuration's delays, and every wait, are as they should be.
  record Paced (s : Loop) : Type 0 where
    interval : s.link.config.reconnect_interval ≡ pos low
    max : s.link.config.max_reconnect_delay ≡ pos high
    delay : Within s.reconnect_delay
    wait : Waits s.phase

  -- A step that leaves the configuration alone.
  paced :
      (s t : Loop)
      → t.link.config ≡ s.link.config
      → Within t.reconnect_delay
      → Waits t.phase
      → Paced s
      → Paced t
  paced s t q d w v = record {
    interval = ap (λ (c : ClientConfig). c.reconnect_interval) q ∙ v.interval;
    max = ap (λ (c : ClientConfig). c.max_reconnect_delay) q ∙ v.max;
    delay = d;
    wait = w;
  }

  read_failed_config : (l : Link) (x : ReadError) → (read_failed l x).config ≡ l.config
  unfolding read_failed
  read_failed_config l (policy_violation text) = refl
  read_failed_config l other_error = refl

  module _ (ordered : low ≤ high) (fits : high < 2 ^ 62) where
    doubled : (d : ℤ) → Within d → Within (min_duration (double d) (pos high))
    doubled (pos d) (a, b) =
        rw (double_pos d (omega (arith, b, fits)))
          (rw (min_duration_pos (d * 2) high) (omega (arith, a, ordered), omega arith))
    doubled (negsuc d) h = absurd h

    react-Paced : (p : Phase) (e : Event) (s : Loop) → s.phase ≡ p → Paced s → Paced (react p e s)
    unfolding react
    react-Paced p (meanwhile op) s q v =
        subst Paced (sym (react-meanwhile p op s))
          (paced s _ (transfer_kept s.link op).0 v.delay v.wait v)
    react-Paced p (connection_fails x) s q v =
        subst Paced (sym (react-connection_fails p x s))
          (paced s _ (read_failed_config s.link x) v.delay v.wait v)
    react-Paced dialing dial_fails s q v = paced s _ refl v.delay v.delay v
    react-Paced dialing dial_succeeds s q v =
        paced s _ refl (subst Within (sym v.interval) (omega arith, ordered)) tt v
    react-Paced dialing cancel s q v = paced s _ refl v.delay tt v
    react-Paced (backing_off w) timer_fires s q v =
        paced s _ refl
          (subst (λ m. Within (min_duration (double s.reconnect_delay) m)) (sym v.max)
            (doubled s.reconnect_delay v.delay))
          tt v
    react-Paced (backing_off w) cancel s q v = paced s _ refl v.delay tt v
    react-Paced serving loop_ends s q v =
        if_both Paced (s.link.refused_reason == "") _ _ (paced s _ refl v.delay tt v)
          (paced s _ refl v.delay v.max v)
    react-Paced serving cancel s q v = paced s _ refl v.delay tt v
    react-Paced (refused w) timer_fires s q v = paced s _ refl v.delay tt v
    react-Paced (refused w) cancel s q v = paced s _ refl v.delay tt v
    react-Paced p e s q v = ground (arith, v)

    run-Paced : (s : Loop) (es : List Event) → Paced s → Paced (run s es)
    unfolding run step
    run-Paced s [] v = v
    run-Paced s (e ∷ es) v = run-Paced (react s.phase e s) es (react-Paced s.phase e s refl v)

-- Wherever the connection loop is, after any events: a wait between two dials lasts at least the
-- reconnect interval and at most the maximum delay, and after a refusal exactly the maximum delay,
-- if the interval is at most the maximum and the maximum is below 2 ^ 62 nanoseconds, so that no
-- doubling wraps around.
pub run-start-Waits :
    (low high : ℕ) (c : ClientConfig) (es : List Event)
    → (fill_defaults c).reconnect_interval ≡ pos low
    → (fill_defaults c).max_reconnect_delay ≡ pos high
    → low ≤ high
    → high < 2 ^ 62
    → Waits low high (run (start (new_client c)) es).phase
unfolding start new_client
run-start-Waits low high c es p q ordered fits =
    (run-Paced low high ordered fits (start (new_client c)) es (record {
      interval = p;
      max = q;
      delay = subst (Within low high) (sym p) (omega arith, ordered);
      wait = tt;
    })).wait
