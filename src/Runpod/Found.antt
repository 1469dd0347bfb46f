-- ===== src/Runpod/Found.antt =====
-- When GetStatus of the RunPod client gives a result.
use Prim.Native.String.{◌++◌}
use mathlib.Core.Path.{subst}
use k8s_runpod_kubelet.Base.{
  String, Option, none, some, ◌≡◌, ◌≢◌, ◌↔◌, refl, ap, sym, ◌∙◌, inl, inr, eqb, eq_false,
  Bool-cases, Result, ok, err, arith,
}
use k8s_runpod_kubelet.Protocol.Json.{Json}
use k8s_runpod_kubelet.Protocol.Messages.{StatusParams, StatusResult}
use k8s_runpod_kubelet.Providers.World.{Request, Reply, Body, failed, response, unreadable, text}
use k8s_runpod_kubelet.Runpod.Responses.{DetailedStatus, read_detailed_status}
use k8s_runpod_kubelet.Runpod.Calls.{run}
use k8s_runpod_kubelet.Runpod.Rest.{
  make_rest_request, get_detailed_pod_status, status_reply, status_from, some_status, unmarshal,
}
use k8s_runpod_kubelet.Runpod.Client.{Client, get_api_key, map_call}
use k8s_runpod_kubelet.Runpod.Operations.{
  get_status, status_outcome, found_result, not_found_result,
}

-- The reply tells of a pod with this status, or, as `none`, that there is no such pod.
abbrev pub Tells : (String → Option Json) → Reply → Option DetailedStatus → Type 0
Tells parse reply none = (body : Body) × (reply ≡ response 404 body)
Tells parse reply (some s) =
    (t : String) × (reply ≡ response 200 (text t))
    × (unmarshal parse read_detailed_status "failed to parse pod status: " t ≡ ok s)

some_status_ok :
    (r : Result DetailedStatus) (o : Option DetailedStatus)
    → some_status r ≡ ok o
    → (s : DetailedStatus) × (r ≡ ok s) × (o ≡ some s)
some_status_ok (err e) o h = cc h
some_status_ok (ok s) o h = (s, refl, cc h)

body-Tells :
    (parse : String → Option Json) (body : Body) (o : Option DetailedStatus)
    → status_from parse body ≡ ok o
    → Tells parse (response 200 body) o
unfolding status_from
body-Tells parse (unreadable s before) o h = cc h
body-Tells parse (text t) o h =
    let (s, r, q) = some_status_ok _ o h in
    subst (Tells parse (response 200 (text t))) (sym q) (t, refl, r)

reply-Tells :
    (parse : String → Option Json) (reply : Reply) (o : Option DetailedStatus)
    → status_reply parse reply ≡ ok o
    → Tells parse reply o
unfolding status_reply
reply-Tells parse (failed s) o h = cc h
reply-Tells parse (response n body) o h = elim (Bool-cases (eqb n 404)) [
  | inl e ↦
      let gone : ok none ≡ ok o = rw e at h in
      let nothing : none ≡ o = cc gone in
      let same : n ≡ 404 = ground (arith, e) in
      subst (Tells parse (response n body)) nothing (body, ap (λ k. response k body) same)
  | inr e ↦ elim (Bool-cases (eqb n 200)) [
    | inr f ↦ cc (rw (e, f) at h)
    | inl f ↦
        let same : n ≡ 200 = ground (arith, f) in
        subst (λ k. Tells parse (response k body) o) (sym same)
          (body-Tells parse body o (rw (e, f) at h))
  ]
]

Tells-reply :
    (parse : String → Option Json) (reply : Reply) (o : Option DetailedStatus)
    → Tells parse reply o
    → status_reply parse reply ≡ ok o
unfolding status_reply status_from
Tells-reply parse reply none (body, e) = ap (status_reply parse) e
Tells-reply parse reply (some s) (t, e, u) = ap (status_reply parse) e ∙ ap some_status u

-- The result for a pod with this status, or for one that RunPod does not have.
abbrev pub result_of : StatusParams → Option DetailedStatus → StatusResult
result_of params none = not_found_result params
result_of params (some s) = found_result params s

outcome_of :
    (params : StatusParams) (o : Option DetailedStatus)
    → status_outcome params (ok o) ≡ ok (result_of params o)
unfolding status_outcome
outcome_of params none = refl
outcome_of params (some s) = refl

outcome_ok :
    (params : StatusParams) (r : Result (Option DetailedStatus)) (x : StatusResult)
    → status_outcome params r ≡ ok x
    → (o : Option DetailedStatus) × (r ≡ ok o) × (x ≡ result_of params o)
unfolding status_outcome
outcome_ok params (err e) x h = cc h
outcome_ok params (ok o) x h =
    let same : ok x ≡ ok (result_of params o) = sym h ∙ outcome_of params o in (o, refl, cc same)

get_status_run :
    (getenv : String → String) (parse : String → Option Json) (c : Client) (http : Request → Reply)
    (params : StatusParams)
    → get_api_key getenv c params.api_key ≢ ""
    → run http (get_status getenv parse c params)
      ≡ status_outcome params (
          status_reply parse (
            http (
              make_rest_request "GET"
                ("pods/" ++ params.provider_pod_id)
                none
                (get_api_key getenv c params.api_key))))
unfolding get_status get_detailed_pod_status run map_call
get_status_run getenv parse c http params k =
    simp (eq_false (get_api_key getenv c params.api_key) "" k)

-- GetStatus with a key gives a result exactly if RunPod answers the one GET of the pod by status 404,
-- and then it is that the pod is not found, or by status 200 with a text that reads as the status of
-- a pod, and then it is the result for that status. All else is an error.
pub get_status-Tells :
    (getenv : String → String) (parse : String → Option Json) (c : Client) (http : Request → Reply)
    (params : StatusParams) (x : StatusResult)
    → get_api_key getenv c params.api_key ≢ ""
    → (run http (get_status getenv parse c params) ≡ ok x) ↔ (
        (o : Option DetailedStatus) × Tells parse
          (http (
            make_rest_request "GET"
              ("pods/" ++ params.provider_pod_id)
              none
              (get_api_key getenv c params.api_key)))
          o
        × (x ≡ result_of params o))
get_status-Tells getenv parse c http params x k =
    let run_eq = get_status_run getenv parse c http params k in
    (
      λ h.
          let (o, r, e) = outcome_ok params _ x (sym run_eq ∙ h) in (o, reply-Tells parse _ o r, e),
      λ (o, t, e).
          run_eq
          ∙ ap (status_outcome params) (Tells-reply parse _ o t)
          ∙ outcome_of params o
          ∙ ap ok (sym e),
    )
