-- ===== src/Runpod/Deploys.antt =====
-- What Deploy of the RunPod client gives.
use mathlib.Core.Path.{subst}
use k8s_runpod_kubelet.Base.{
  ℕ, ◌<◌, String, Option, some, ◌≡◌, ◌≢◌, refl, sym, ◌∙◌, inl, inr, leb, eq_false, text_cases,
  Bool-cases, Result, ok, err, arith,
}
use k8s_runpod_kubelet.Protocol.Json.{Json, obj, json_fields}
use k8s_runpod_kubelet.Protocol.Messages.{DeployParams, DeployResult}
use k8s_runpod_kubelet.Providers.World.{Request, Reply, failed, response, unreadable, text}
use k8s_runpod_kubelet.Runpod.Responses.{CreatePodResponse, read_create_response}
use k8s_runpod_kubelet.Runpod.Calls.{run}
use k8s_runpod_kubelet.Runpod.Rest.{
  make_rest_request, deploy_pod_rest, created_reply, created_from, check_created, unmarshal,
}
use k8s_runpod_kubelet.Runpod.Client.{
  Client, get_api_key, map_call, deploy, deploy_outcome, deploy_result, convert_deploy_params,
}

-- The reply is a pod that was created: a status below 400 and a text that reads as a response with an
-- id.
abbrev pub Creates : (String → Option Json) → Reply → CreatePodResponse → Type 0
Creates parse reply created =
    (status : ℕ) × (s : String) × (reply ≡ response status (text s))
    × (status < 400)
    × (unmarshal parse read_create_response "failed to parse response: " s ≡ ok created)
    × (created.id ≢ "")

checked :
    (s : String) (r : Result CreatePodResponse) (created : CreatePodResponse)
    → check_created s r ≡ ok created
    → (r ≡ ok created) × (created.id ≢ "")
unfolding check_created
checked s (err e) created h = cc h
checked s (ok r) created h = elim (text_cases r.id "") [
  | inl (p, e) ↦ cc (h, e)
  | inr (p, e) ↦
      let same : ok r ≡ ok created = rw e at h in
      let equal : r ≡ created = cc same in (same, subst (λ x. x.id ≢ "") equal p)
]

deploy_run :
    (getenv : String → String) (parse : String → Option Json) (c : Client) (http : Request → Reply)
    (params : DeployParams)
    → get_api_key getenv c params.api_key ≢ ""
    → run http (deploy getenv parse c params)
      ≡ deploy_outcome params (
          created_reply parse (
            http (
              make_rest_request "POST" "pods"
                (some (obj (json_fields (convert_deploy_params params))))
                (get_api_key getenv c params.api_key))))
unfolding deploy deploy_pod_rest run map_call
deploy_run getenv parse c http params k = simp (eq_false (get_api_key getenv c params.api_key) "" k)

created_by :
    (parse : String → Option Json) (reply : Reply) (created : CreatePodResponse)
    → created_reply parse reply ≡ ok created
    → Creates parse reply created
unfolding created_reply created_from
created_by parse (failed s) created h = cc h
created_by parse (response status (unreadable s before)) created h = cc h
created_by parse (response status (text s)) created h = elim (Bool-cases (leb 400 status)) [
  | inl e ↦ cc (rw e at h)
  | inr e ↦
      let c = checked s _ created (rw e at h) in (status, s, refl, ground (arith, e), c.0, c.1)
]

outcome_ok :
    (params : DeployParams) (r : Result CreatePodResponse) (d : DeployResult)
    → deploy_outcome params r ≡ ok d
    → (created : CreatePodResponse) × (r ≡ ok created) × (d ≡ deploy_result params created)
unfolding deploy_outcome
outcome_ok params (ok created) d h = (created, refl, cc h)
outcome_ok params (err e) d h = cc h

-- Deploy with a key gives a result only for a pod that RunPod created: the reply to the one POST that
-- it makes has a status below 400 and a text that reads as a pod with an id that is not empty, and
-- the result is the one of that pod.
pub deploy-Creates :
    (getenv : String → String) (parse : String → Option Json) (c : Client) (http : Request → Reply)
    (params : DeployParams) (d : DeployResult)
    → get_api_key getenv c params.api_key ≢ ""
    → run http (deploy getenv parse c params) ≡ ok d
    → (created : CreatePodResponse) × Creates parse
        (http (
          make_rest_request "POST" "pods"
            (some (obj (json_fields (convert_deploy_params params))))
            (get_api_key getenv c params.api_key)))
        created
      × (d ≡ deploy_result params created)
deploy-Creates getenv parse c http params d k h =
    let (created, r, e) =
      outcome_ok params _ d (sym (deploy_run getenv parse c http params k) ∙ h) in
    (created, created_by parse _ created r, e)
