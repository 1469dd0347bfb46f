-- ===== src/WsClient/Backoff.antt =====
-- How long the connection loop waits between two dials.
use mathlib.Core.Path.{ap₂}
use native.Mathlib.Decide.{dec_le}
use native.Mathlib.Nat.{mul_assoc, pow-succ', two-pow-succ}
use k8s_runpod_kubelet.Base.{
  ℕ, zero, suc, ◌*◌, ◌^◌, ◌<◌, min, List, [], ◌∷◌, ℤ, pos, ◌≡◌, refl, ap, sym, ◌∙◌, arith,
}
use k8s_runpod_kubelet.WsClient.Link.{Link}
use k8s_runpod_kubelet.WsClient.Loop.{
  Loop, Event, dialing, backing_off, dial_fails, timer_fires, double, min_duration, react, start,
  step, run,
}

-- k + 1 dials that fail, with the waits between them.
unfoldable pub failures : ℕ → List Event
failures zero = dial_fails ∷ []
failures (suc k) = dial_fails ∷ timer_fires ∷ failures k

-- The wait after the dial that fails when the variable has this value, and then k more.
unfoldable pub wait_after : (delay max : ℕ) → ℕ → ℕ
wait_after delay max zero = delay
wait_after delay max (suc k) = wait_after (min (delay * 2) max) max k

pub min_duration_pos : (a b : ℕ) → min_duration (pos a) (pos b) ≡ pos (min a b)
unfolding min_duration
min_duration_pos a b = ground arith

pub double_pos : (a : ℕ) → a < 2 ^ 62 → double (pos a) ≡ pos (a * 2)
unfolding double
double_pos a h = ground arith

pow-pos : (k : ℕ) → 0 < 2 ^ k
pow-pos zero = omega arith
pow-pos (suc k) = omega (arith, two-pow-succ k, pow-pos k)

min-scale : (x m p : ℕ) → 0 < p → min (min x m * p) m ≡ min (x * p) m
min-scale x m zero h = elim h [ ]
min-scale x m (suc q) h = elim (dec_le x m) [
  | yes a ↦ let e : min x m ≡ x = omega arith in rw e
  | no b ↦ let e : min x m ≡ m = omega arith in rw e (omega arith)
]

wait_after_closed : (d m k : ℕ) → wait_after d m (suc k) ≡ min (d * 2 ^ suc k) m
unfolding wait_after
wait_after_closed d m zero = refl
wait_after_closed d m (suc k) =
    wait_after_closed (min (d * 2) m) m k
    ∙ min-scale (d * 2) m (2 ^ suc k) (pow-pos (suc k))
    ∙ ap (λ t. min t m) (mul_assoc d 2 (2 ^ suc k) ∙ ap (◌*◌ d) (sym (pow-succ' 2 (suc k))))

-- A loop about to dial, with this delay.
abbrev at_dial : ℤ → Link → Loop
at_dial delay l = record { phase = dialing; reconnect_delay = delay; link = l }

run-failure :
    (d : ℤ) (k : ℕ) (l : Link)
    → run (at_dial d l) (failures (suc k))
      ≡ run (at_dial (min_duration (double d) l.config.max_reconnect_delay) l) (failures k)
unfolding run step react failures
run-failure d k l = refl

next_delay :
    (d m : ℕ) (l : Link)
    → l.config.max_reconnect_delay ≡ pos m
    → d < 2 ^ 62
    → min_duration (double (pos d)) l.config.max_reconnect_delay ≡ pos (min (d * 2) m)
next_delay d m l e h = ap₂ min_duration (double_pos d h) e ∙ min_duration_pos (d * 2) m

failures_phase :
    (d m k : ℕ) (l : Link)
    → l.config.max_reconnect_delay ≡ pos m
    → d < 2 ^ 62
    → m < 2 ^ 62
    → (run (at_dial (pos d) l) (failures k)).phase ≡ backing_off (pos (wait_after d m k))
unfolding run step react failures wait_after
failures_phase d m zero l e h g = refl
failures_phase d m (suc k) l e h g =
    ap (λ t. t.phase) (run-failure (pos d) k l)
    ∙ ap (λ t. (run (at_dial t l) (failures k)).phase) (next_delay d m l e h)
    ∙ failures_phase (min (d * 2) m) m k l e (omega arith) g

-- The wait after k + 1 dials that fail in a row.
abbrev pub backoff : (interval max k : ℕ) → ℕ
backoff interval max zero = interval
backoff interval max (suc k) = min (interval * 2 ^ suc k) max

-- From the start, after k + 1 failed dials in a row, with no other event than the timers between
-- them, the loop waits: the first time for the reconnect interval, then for the interval times 2 ^ k,
-- but at most the maximum wait. Both are taken to be under 2 ^ 62 ns, so that the doubling does not wrap.
pub failures-backoff :
    (r m k : ℕ) (l : Link)
    → l.config.reconnect_interval ≡ pos r
    → l.config.max_reconnect_delay ≡ pos m
    → r < 2 ^ 62
    → m < 2 ^ 62
    → (run (start l) (failures k)).phase ≡ backing_off (pos (backoff r m k))
unfolding start wait_after
failures-backoff r m zero l i e h g =
    ap (λ t. (run (at_dial t l) (failures 0)).phase) i ∙ failures_phase r m 0 l e h g
failures-backoff r m (suc k) l i e h g =
    ap (λ t. (run (at_dial t l) (failures (suc k))).phase) i
    ∙ failures_phase r m (suc k) l e h g
    ∙ ap (λ t. backing_off (pos t)) (wait_after_closed r m k)
