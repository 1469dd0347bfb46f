-- ===== src/Cmd/Exits.antt =====
-- How the process ends, and what it leaves running.
use k8s_runpod_kubelet.Base.{
  Bool, true, false, ◌&&◌, ◌||◌, not, if◌then◌else◌, List, [], ◌∷◌, Option, none, some, ◌≡◌, ◌⊎◌,
  Result, ok, err, GoError,
}
use k8s_runpod_kubelet.VirtualKubelet.State.{Kubelet}
use k8s_runpod_kubelet.Cmd.Progress.{
  Action, creates_provider, cleans_up, starts_informers, starts_health_server, stops_health_server,
  starts_api_server, starts_controllers, waits, cancels, Exit, Progress, acts, defers,
}
use k8s_runpod_kubelet.Cmd.Main.{Outside, ready, exited, cancelled}

-- What starts something that goes on beside main.
abbrev is_start : Action → Bool
is_start creates_provider = true
is_start starts_informers = true
is_start starts_health_server = true
is_start starts_api_server = true
is_start starts_controllers = true
is_start a = false

-- Whether the second action ends what the first has started. The informers and the controllers run
-- until the context ends.
abbrev is_end_of : (start action : Action) → Bool
is_end_of creates_provider cleans_up = true
is_end_of starts_health_server stops_health_server = true
is_end_of starts_informers cancels = true
is_end_of starts_controllers cancels = true
is_end_of start action = false

abbrev is_ended : Action → List Action → Bool
is_ended start [] = false
is_ended start (a ∷ rest) = is_end_of start a || is_ended start rest

-- What the actions start and none of them ends, in the order of the starts.
abbrev pub left_running : List Action → List Action
left_running [] = []
left_running (a ∷ rest) =
    let left = left_running rest in if is_start a && not (is_ended a rest) then a ∷ left else left

-- The ways in which a run can end, with the exit code, what main has done until then, in order, what
-- it leaves running, and why.
module _ (o : Outside) (provider : Result Kubelet) (invalid : Option GoError) (r : Exit) where
  -- All succeeds, and the context ends.
  abbrev pub EndsWell : Type 0
  EndsWell =
      (r.code ≡ 0)
      × (r.actions
          ≡ creates_provider ∷ starts_informers ∷ starts_health_server ∷ starts_api_server
            ∷ starts_controllers ∷ waits ∷ stops_health_server ∷ cleans_up ∷ cancels ∷ [])
      × (left_running r.actions ≡ starts_api_server ∷ [])
      × (invalid ≡ none)
      × (o.kubernetes_client ≡ none)
      × ((k : Kubelet) × (provider ≡ ok k))
      × (o.controllers ≡ none)
      × (o.readiness ≡ ready)

  -- The configuration, the Kubernetes client or the provider fails.
  abbrev pub FailsEarly : Type 0
  FailsEarly =
      (r.code ≡ 1)
      × (r.actions ≡ [])
      × (((e : GoError) × (invalid ≡ some e))
          ⊎ ((e : GoError) × (o.kubernetes_client ≡ some e))
          ⊎ ((e : GoError) × (provider ≡ err e)))

  -- The controllers cannot be created.
  abbrev pub FailsToCreate : Type 0
  FailsToCreate =
      (r.code ≡ 1)
      × (r.actions ≡ creates_provider ∷ [])
      × (left_running r.actions ≡ creates_provider ∷ [])
      × ((k : Kubelet) × (provider ≡ ok k))
      × ((e : GoError) × (o.controllers ≡ some e))

  -- The controllers do not get ready.
  abbrev pub FailsToStart : Type 0
  FailsToStart =
      (r.code ≡ 1)
      × (r.actions
          ≡ creates_provider ∷ starts_informers ∷ starts_health_server ∷ starts_api_server
            ∷ starts_controllers ∷ [])
      × (left_running r.actions ≡ r.actions)
      × ((k : Kubelet) × (provider ≡ ok k))
      × (((e : Option GoError) × (o.readiness ≡ exited e))
          ⊎ ((e : GoError) × (o.readiness ≡ cancelled e)))

  abbrev pub Ending : Type 0
  Ending = EndsWell ⊎ (FailsEarly ⊎ (FailsToCreate ⊎ FailsToStart))

abbrev begun : Progress
begun = record { done = []; deferred = cancels ∷ [] }

abbrev with_provider : Progress
with_provider = defers cleans_up (acts creates_provider begun)
