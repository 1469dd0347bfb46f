-- ===== src/Cmd/Progress.antt =====
-- cmd/virtual_kubelet/main.go: what main has done and deferred, and the two ways in which it ends.
use k8s_runpod_kubelet.Base.{ℕ, List, [], ◌∷◌, ◌++◌}

-- What main does, apart from logging and the handling of signals.
pub data Action : Type 0 where
  prints_version : Action
  creates_provider cleans_up : Action
  starts_informers : Action
  starts_health_server stops_health_server : Action
  starts_api_server : Action
  starts_controllers : Action
  waits : Action
  cancels : Action

-- The exit code and what the process did until then.
pub record Exit : Type 0 where
  pub code : ℕ
  pub actions : List Action

-- main between two of its statements: what it has done so far, in order, and what it has deferred,
-- the latest first.
pub record Progress : Type 0 where
  pub done : List Action
  pub deferred : List Action

abbrev pub acts : Action → Progress → Progress
acts a p = record p { done = p.done ++ a ∷ [] }

abbrev pub defers : Action → Progress → Progress
defers a p = record p { deferred = a ∷ p.deferred }

-- os.Exit(1), which runs no deferred function
abbrev pub exits : Progress → Exit
exits p = record { code = 1; actions = p.done }

-- the end of main, which runs the deferred functions
abbrev pub returns : Progress → Exit
returns p = record { code = 0; actions = p.done ++ p.deferred }
