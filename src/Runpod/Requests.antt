-- ===== src/Runpod/Requests.antt =====
-- The requests that the RunPod client makes: how many, and with which key.
use mathlib.Core.Path.{subst}
use k8s_runpod_kubelet.Base.{
  String, Option, ◌≡◌, ◌≢◌, refl, sym, ◌⊎◌, inl, inr, ◌==◌, text_cases, if◌then◌else◌, trim_space,
}
use k8s_runpod_kubelet.Protocol.Json.{Json, obj, json_fields}
use k8s_runpod_kubelet.Protocol.Messages.{DeployParams, StatusParams, TerminateParams}
use k8s_runpod_kubelet.Providers.World.{Request, Reply}
use k8s_runpod_kubelet.Runpod.Calls.{Call, done, request}
use k8s_runpod_kubelet.Runpod.Rest.{
  make_rest_request, deploy_pod_rest, get_detailed_pod_status, terminate_pod,
}
use k8s_runpod_kubelet.Runpod.Client.{
  Client, get_api_key, map_call, deploy, deploy_outcome, convert_deploy_params,
}
use k8s_runpod_kubelet.Runpod.Operations.{get_status, terminate, status_outcome, terminate_outcome}

-- Every request that a program can make, whatever the replies are, satisfies P.
unfoldable pub AllRequests : {A : Type 0} → (Request → Type 0) → Call A → Type 0
AllRequests P (done a) = Unit
AllRequests P (request r k) = P r × ((reply : Reply) → AllRequests P (k reply))

map_call-AllRequests :
    {A B : Type 0} (P : Request → Type 0) (f : A → B) (c : Call A)
    → AllRequests P c
    → AllRequests P (map_call f c)
unfolding AllRequests map_call
map_call-AllRequests P f (done a) h = tt
map_call-AllRequests P f (request r k) h =
    (h.0, λ reply. map_call-AllRequests P f (k reply) (h.1 reply))

-- The key that a call is to use: its own, else the client's, else the environment's.
unfoldable pub IsKeyFor : (String → String) → Client → String → String → Type 0
IsKeyFor getenv c own key =
    (key ≢ "")
    × (((own ≢ "") × (key ≡ own))
        ⊎ ((own ≡ "") × (c.api_key ≢ "") × (key ≡ c.api_key))
        ⊎ ((own ≡ "") × (c.api_key ≡ "") × (key ≡ getenv "RUNPOD_API_KEY")))

key_chosen :
    (getenv : String → String) (c : Client) (own : String)
    → let key = get_api_key getenv c own in
      ((own ≢ "") × (key ≡ own))
      ⊎ ((own ≡ "") × (c.api_key ≢ "") × (key ≡ c.api_key))
      ⊎ ((own ≡ "") × (c.api_key ≡ "") × (key ≡ getenv "RUNPOD_API_KEY"))
unfolding get_api_key
key_chosen getenv c own = elim (text_cases own "") [
  | inr (o, e) ↦ inl (o, simp e)
  | inl (o, e) ↦ elim (text_cases c.api_key "") [
    | inr (k, f) ↦ inr (inl (o, k, simp (e, f)))
    | inl (k, f) ↦ inr (inr (o, k, simp (e, f)))
  ]
]

abbrev Keyed : (String → String) → Client → String → Request → Type 0
Keyed getenv c own r = IsKeyFor getenv c own r.api_key

-- An operation refuses an empty key, so that the one that it goes on with is for it.
guarded_key :
    {A B : Type 0} (getenv : String → String) (c : Client) (own : String) (refusal : B) (f : A → B)
    (call : String → Call A)
    → ((key : String) → IsKeyFor getenv c own key → AllRequests (Keyed getenv c own) (call key))
    → AllRequests (Keyed getenv c own) (
        if get_api_key getenv c own == ""
        then done refusal
        else map_call f (call (get_api_key getenv c own)))
unfolding AllRequests IsKeyFor
guarded_key getenv c own refusal f call h = elim (text_cases (get_api_key getenv c own) "") [
  | inl (k, e) ↦ rw e tt
  | inr (k, e) ↦
      rw e (map_call-AllRequests (Keyed getenv c own) f _ (h _ (k, key_chosen getenv c own)))
]

terminate_pod-AllRequests :
    (P : Request → Type 0) (id key : String)
    → ((r : Request) → r.api_key ≡ key → P r)
    → AllRequests P (terminate_pod id key)
unfolding AllRequests terminate_pod make_rest_request
terminate_pod-AllRequests P id key h = elim (text_cases (trim_space id) "") [
  | inl (b, e) ↦ rw e tt
  | inr (b, e) ↦ rw e (h _ refl, λ reply. tt)
]

-- Every request that Deploy, GetStatus and Terminate make, whatever the replies to the earlier ones
-- are, bears a key that is not empty: the one of the command if it gives one, else the client's, and
-- the environment's only if neither is given.
pub requests_authorised :
    (getenv : String → String) (parse : String → Option Json) (c : Client)
    → ((p : DeployParams)
        → AllRequests (λ r. IsKeyFor getenv c p.api_key r.api_key) (deploy getenv parse c p))
      × ((p : StatusParams)
          → AllRequests (λ r. IsKeyFor getenv c p.api_key r.api_key) (get_status getenv parse c p))
      × ((p : TerminateParams)
          → AllRequests (λ r. IsKeyFor getenv c p.api_key r.api_key) (terminate getenv parse c p))
unfolding deploy get_status terminate deploy_pod_rest get_detailed_pod_status make_rest_request
    AllRequests
requests_authorised getenv parse c = (
  λ p.
      guarded_key getenv c p.api_key _ (deploy_outcome p)
        (deploy_pod_rest parse (obj (json_fields (convert_deploy_params p))))
        (λ key k. (k, λ reply. tt)),
  λ p.
      guarded_key getenv c p.api_key _ (status_outcome p)
        (get_detailed_pod_status parse p.provider_pod_id) (λ key k. (k, λ reply. tt)),
  λ p.
      guarded_key getenv c p.api_key _ terminate_outcome (terminate_pod p.provider_pod_id) (λ key k.
        terminate_pod-AllRequests (Keyed getenv c p.api_key) p.provider_pod_id key
          (λ r e. subst (IsKeyFor getenv c p.api_key) (sym e) k)),
)
