-- ===== src/Runpod/Reports.antt =====
-- What GetStatus, Deploy and Terminate of the RunPod client report.
use Prim.Native.String.{◌++◌}
use k8s_runpod_kubelet.Base.{
  ℕ, Bool, true, false, String, Option, none, ◌≡◌, ◌≢◌, ◌↔◌, refl, ap, ◌⊎◌, inl, inr, arith, ◌==◌,
  eq_iff, Bool-cases, if_both, differ, eq_false, if◌then◌else◌, trim_space, ◌||◌,
}
use k8s_runpod_kubelet.Protocol.Json.{Json}
use k8s_runpod_kubelet.Protocol.Messages.{StatusParams, TerminateParams}
use k8s_runpod_kubelet.Providers.World.{Request, Reply, Body, failed, response}
use k8s_runpod_kubelet.Providers.Status.{
  get_standard_status, map_runpod_status, phase_for_status, phase_running, phase_succeeded,
  phase_failed,
}
use k8s_runpod_kubelet.Runpod.Responses.{DetailedStatus}
use k8s_runpod_kubelet.Runpod.Calls.{run}
use k8s_runpod_kubelet.Runpod.Rest.{make_rest_request, terminate_pod, terminated_reply}
use k8s_runpod_kubelet.Runpod.Client.{Client, get_api_key, map_call}
use k8s_runpod_kubelet.Runpod.Operations.{
  is_successful_completion, found_result, terminate, terminate_outcome,
}

-- Every RunPod status is its own standardized status.
pub standard_runpod : (s : String) → get_standard_status s "runpod" ≡ s
unfolding get_standard_status map_runpod_status
standard_runpod s = ground (
  arith,
  eq_iff s "STARTING",
  eq_iff s "RUNNING",
  eq_iff s "TERMINATING",
  eq_iff s "TERMINATED",
  eq_iff s "EXITED",
)

phase-running : (s : String) (b : Bool) → s ≡ "RUNNING" → phase_for_status s b ≡ phase_running
unfolding phase_for_status
phase-running s b e = ap (λ t. phase_for_status t b) e

abbrev is_over : String → Bool
is_over s = s == "TERMINATED" || s == "EXITED"

is_over_cases : (s : String) → is_over s ≡ true → (s ≡ "TERMINATED") ⊎ (s ≡ "EXITED")
is_over_cases s h = ground (arith, eq_iff s "TERMINATED", eq_iff s "EXITED")

phase_over :
    (s : String) (b : Bool)
    → is_over s ≡ true
    → phase_for_status s b ≡ (if b then phase_succeeded else phase_failed)
unfolding phase_for_status
phase_over s b h = elim (is_over_cases s h) [
  | inl e ↦ ap (λ t. phase_for_status t b) e
  | inr e ↦ ap (λ t. phase_for_status t b) e
]

not_over_phase :
    (s : String) (b : Bool) → is_over s ≡ false → phase_for_status s b ≢ phase_succeeded
unfolding phase_for_status
not_over_phase s b h = rw h (
    if_both P (s == "PENDING" || s == "STARTING") _ _ (differ _ _ refl) (
      if_both P (s == "RUNNING" || s == "TERMINATING") _ _ (differ _ _ refl)
        (if_both P (s == "FAILED") _ _ (differ _ _ refl) (differ _ _ refl))))
  where
    P : String → Type 0
    P p = p ≢ phase_succeeded

over_not_running : (s : String) → is_over s ≡ true → (s == "RUNNING") ≡ false
over_not_running s h = elim (is_over_cases s h) [
  | inl e ↦ ap (λ t. t == "RUNNING") e
  | inr e ↦ ap (λ t. t == "RUNNING") e
]

running_not_over : (s : String) → (s == "RUNNING") ≡ true → is_over s ≡ false
running_not_over s h = ap is_over ((eq_iff s "RUNNING").0 h)

-- The result for a pod that RunPod has is consistent: a running pod is in phase Running and not
-- terminated; a terminated pod is not running and is in phase Succeeded if it completed
-- successfully and else in phase Failed; phase Succeeded is given to terminated pods only. The status
-- is the one that RunPod desires.
pub found_result-consistent :
    (params : StatusParams) (s : DetailedStatus)
    → let r = found_result params s in
      (r.is_running ≡ true → (r.phase ≡ phase_running) × (r.is_terminated ≡ false))
      × (r.is_terminated ≡ true
          → (r.is_running ≡ false)
            × (r.phase
                ≡ (if is_successful_completion s.runtime then phase_succeeded else phase_failed)))
      × (r.phase ≡ phase_succeeded → r.is_terminated ≡ true)
      × (r.status ≡ s.desired_status)
unfolding found_result
found_result-consistent params s =
    let d = s.desired_status in
    rw (standard_runpod d) (
      λ h. (phase-running d _ ((eq_iff d "RUNNING").0 h), running_not_over d h),
      λ h. (over_not_running d h, phase_over d _ h),
      λ h. elim (Bool-cases (is_over d)) [ inl e ↦ e | inr e ↦ absurd (not_over_phase d _ e h) ],
      refl,
    )

terminate_run :
    (getenv : String → String) (parse : String → Option Json) (c : Client) (http : Request → Reply)
    (params : TerminateParams)
    → get_api_key getenv c params.api_key ≢ ""
    → trim_space params.provider_pod_id ≢ ""
    → run http (terminate getenv parse c params)
      ≡ terminate_outcome (
          terminated_reply (
            http (
              make_rest_request "DELETE"
                ("pods/" ++ params.provider_pod_id)
                none
                (get_api_key getenv c params.api_key))))
unfolding terminate terminate_pod run map_call
terminate_run getenv parse c http params k i = simp (
  eq_false (get_api_key getenv c params.api_key) "" k,
  eq_false (trim_space params.provider_pod_id) "" i,
)

-- A reply with one of the statuses that count as terminated.
abbrev Gone : Reply → Type 0
Gone r =
    (status : ℕ) × (body : Body) × (r ≡ response status body)
    × ((status ≡ 200) ⊎ (status ≡ 204) ⊎ (status ≡ 404))

reply-Gone : (r : Reply) → (terminate_outcome (terminated_reply r) ≡ none) ↔ Gone r
unfolding terminate_outcome terminated_reply
reply-Gone (failed s) = (λ h. cc, λ g. absurd (differs g))
  where
    differs : Gone (failed s) → ⊥
    differs (status, body, e, _) = cc
reply-Gone (response status body) = (λ h. (status, body, refl, ground arith), λ g. back g)
  where
    back :
        Gone (response status body)
        → terminate_outcome (terminated_reply (response status body)) ≡ none
    back (n, b, e, h) = ground arith

-- Terminate with a key and an id that is not blank succeeds exactly if RunPod answers the one request
-- that it makes, the DELETE of the pod, with status 200, 204 or 404.
pub terminate-succeeds :
    (getenv : String → String) (parse : String → Option Json) (c : Client) (http : Request → Reply)
    (params : TerminateParams)
    → get_api_key getenv c params.api_key ≢ ""
    → trim_space params.provider_pod_id ≢ ""
    → (run http (terminate getenv parse c params) ≡ none) ↔ (
        (status : ℕ) × (body : Body) × (http (
            make_rest_request "DELETE"
              ("pods/" ++ params.provider_pod_id)
              none
              (get_api_key getenv c params.api_key))
          ≡ response status body)
        × ((status ≡ 200) ⊎ (status ≡ 204) ⊎ (status ≡ 404)))
terminate-succeeds getenv parse c http params k i =
    rw (terminate_run getenv parse c http params k i) (reply-Gone _)
