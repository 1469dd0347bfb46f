-- ===== src/Runpod/Unused.antt =====
-- pkg/providers/runpod/client.go: the functions that nothing calls. sort.Slice is a parameter, the
-- list of the elements by a test of which of two goes first.
use mathlib.Core.Path.{subst}
use k8s_runpod_kubelet.Base.{
  Bool, true, false, String, List, [], ◌∷◌, Option, none, some, ℤ, pos, negsuc, Float, ltb,
  is_positive, not, ◌&&◌, ◌==◌, if◌then◌else◌, Result, ok, err, GoError, ◌≡◌, Bool-cases, inl, inr,
}
use k8s_runpod_kubelet.Protocol.Json.{
  Json, Items, nil, cons, null, str, arr, obj, Fields, field, end, ◌>>=◌, member, struct_into,
  string_into, int_into, float_into, bool_into,
}
use k8s_runpod_kubelet.Providers.World.{Request, Reply}
use k8s_runpod_kubelet.Runpod.Calls.{Call, done, request, run}
use k8s_runpod_kubelet.Runpod.Responses.{CreatePodResponse, DetailedStatus}
use k8s_runpod_kubelet.Runpod.Rest.{
  make_rest_request, deploy_pod_rest, get_detailed_pod_status, terminate_pod,
}
use k8s_runpod_kubelet.Runpod.Client.{Client}
use k8s_runpod_kubelet.Runpod.Operations.{graph_ql_request, graph_ql_reply}

pub record GpuType : Type 0 where
  pub id : String
  pub display_name : String
  pub memory_in_gb : ℤ
  pub secure_cloud : Bool
  pub secure_price : Float
  pub community_cloud : Bool
  pub community_price : Float

gpu_fields : GpuType → Fields → Option GpuType
unfolding member string_into int_into bool_into float_into
gpu_fields g fs = do
  id ← member string_into "id" g.id fs
  display_name ← member string_into "displayName" g.display_name fs
  memory_in_gb ← member int_into "memoryInGb" g.memory_in_gb fs
  secure_cloud ← member bool_into "secureCloud" g.secure_cloud fs
  secure_price ← member float_into "securePrice" g.secure_price fs
  community_cloud ← member bool_into "communityCloud" g.community_cloud fs
  community_price ← member float_into "communityPrice" g.community_price fs
  some (record {
    id = id;
    display_name = display_name;
    memory_in_gb = memory_in_gb;
    secure_cloud = secure_cloud;
    secure_price = secure_price;
    community_cloud = community_cloud;
    community_price = community_price;
  })

abbrev no_gpu : GpuType
no_gpu = record {
  id = "";
  display_name = "";
  memory_in_gb = pos 0;
  secure_cloud = false;
  secure_price = pos 0;
  community_cloud = false;
  community_price = pos 0;
}

gpus_of : Items → Option (List GpuType)
unfolding gpu_fields
gpus_of nil = some []
gpus_of (cons j rest) =
    struct_into gpu_fields no_gpu j >>= (λ g. gpus_of rest >>= (λ gs. some (g ∷ gs)))

gpus_into : List GpuType → Json → Option (List GpuType)
unfolding gpus_of
gpus_into old null = some []
gpus_into old (arr items) = gpus_of items
gpus_into old _ = none

unfoldable pub read_gpus : Json → Option (List GpuType)
unfolding member gpus_into
read_gpus =
    struct_into
      (λ gs fs. member (struct_into (λ gs' hs. member gpus_into "gpuTypes" gs' hs)) "data" gs fs) []

-- a < b
unfoldable pub is_below : Float → Float → Bool
is_below (pos a) (pos b) = ltb a b
is_below (pos a) (negsuc b) = false
is_below (negsuc a) (pos b) = true
is_below (negsuc a) (negsuc b) = ltb b a

abbrev pub gpu_price : (cloud_type : String) → GpuType → Float
gpu_price cloud_type gpu =
    if cloud_type == "SECURE"
    then gpu.secure_price
    else if cloud_type == "COMMUNITY"
    then gpu.community_price
    else pos 0

abbrev pub cloud_check : (cloud_type : String) → GpuType → Bool
cloud_check cloud_type gpu =
    if cloud_type == "SECURE"
    then gpu.secure_cloud
    else if cloud_type == "COMMUNITY"
    then gpu.community_cloud
    else false

abbrev pub fits : (min_ram : ℤ) (max_price : Float) (cloud_type : String) → GpuType → Bool
fits min_ram max_price cloud_type gpu =
    cloud_check cloud_type gpu
    && is_positive (gpu_price cloud_type gpu)
    && is_below (gpu_price cloud_type gpu) max_price
    && not (is_below gpu.memory_in_gb min_ram)

-- the loop that filters
unfoldable pub filtered : (GpuType → Bool) → List GpuType → List GpuType
filtered test [] = []
filtered test (gpu ∷ gpus) = let rest = filtered test gpus in if test gpu then gpu ∷ rest else rest

abbrev pub sort_price : (cloud_type : String) → GpuType → Float
sort_price cloud_type gpu =
    if cloud_type == "COMMUNITY" then gpu.community_price else gpu.secure_price

abbrev pub cheaper : (cloud_type : String) → GpuType → GpuType → Bool
cheaper cloud_type a b = is_below (sort_price cloud_type a) (sort_price cloud_type b)

-- The query, with its white space, is a constant that is only sent.
abbrev pub gpu_query : (query : String) → Json
gpu_query query = obj (field "query" (str query) (field "variables" null end))

abbrev pub chosen :
    ((GpuType → GpuType → Bool) → List GpuType → List GpuType)
    → (min_ram : ℤ) (max_price : Float) (cloud_type : String) → Result (List GpuType)
    → Result (List GpuType)
chosen sort min_ram max_price cloud_type (err e) = err e
chosen sort min_ram max_price cloud_type (ok gpus) =
    ok (sort (cheaper cloud_type) (filtered (fits min_ram max_price cloud_type) gpus))

module _ (parse : String → Option Json) (c : Client) where
  -- getGPUTypes
  unfoldable pub get_gpu_types :
      ((GpuType → GpuType → Bool) → List GpuType → List GpuType)
      → (query : String) → (min_ram : ℤ) (max_price : Float) (cloud_type : String)
      → Call (Result (List GpuType))
  unfolding graph_ql_reply read_gpus filtered is_below
  get_gpu_types sort query min_ram max_price cloud_type =
      request (graph_ql_request c.api_key (gpu_query query)) (λ reply.
        done (chosen sort min_ram max_price cloud_type (graph_ql_reply read_gpus parse reply)))

  -- deployPodREST
  unfoldable pub deploy_with_own_key : Json → Call (Result CreatePodResponse)
  deploy_with_own_key params = deploy_pod_rest parse params c.api_key

  -- getDetailedPodStatus
  unfoldable pub get_status_with_own_key : String → Call (Result (Option DetailedStatus))
  get_status_with_own_key pod_id = get_detailed_pod_status parse pod_id c.api_key

-- terminatePod
unfoldable pub terminate_with_own_key : Client → String → Call (Option GoError)
terminate_with_own_key c pod_id = terminate_pod pod_id c.api_key

-- makeRESTRequest
unfoldable pub rest_request_with_own_key :
    Client → (method endpoint : String) → Option Json → Request
rest_request_with_own_key c method endpoint body = make_rest_request method endpoint body c.api_key

abbrev AllOf {ℓ} : (GpuType → Type ℓ) → List GpuType → Type ℓ
AllOf P [] = Unit
AllOf P (gpu ∷ gpus) = P gpu × AllOf P gpus

filtered-AllOf :
    (test : GpuType → Bool) (gpus : List GpuType)
    → AllOf (λ gpu. test gpu ≡ true) (filtered test gpus)
unfolding filtered
filtered-AllOf test [] = tt
filtered-AllOf test (gpu ∷ gpus) = elim (Bool-cases (test gpu)) [
  | inl e ↦ rw e (e, filtered-AllOf test gpus)
  | inr e ↦ rw e (filtered-AllOf test gpus)
]

-- Whatever RunPod answers, every GPU that getGPUTypes gives is on offer in the cloud of this type, for
-- a price below the maximum, and has the memory, if sort.Slice gives no elements but those of the
-- slice.
get_gpu_types-AllOf :
    (parse : String → Option Json) (c : Client)
    (sort : (GpuType → GpuType → Bool) → List GpuType → List GpuType) (query : String) (min_ram : ℤ)
    (max_price : Float) (cloud_type : String) (http : Request → Reply) (gpus : List GpuType)
    → ((P : GpuType → Type 0) (less : GpuType → GpuType → Bool) (xs : List GpuType)
        → AllOf P xs
        → AllOf P (sort less xs))
    → run http (get_gpu_types parse c sort query min_ram max_price cloud_type) ≡ ok gpus
    → AllOf (λ gpu. fits min_ram max_price cloud_type gpu ≡ true) gpus
unfolding run get_gpu_types
get_gpu_types-AllOf parse c sort query min_ram max_price cloud_type http gpus kept h =
    chosen_fit
      (graph_ql_reply read_gpus parse (http (graph_ql_request c.api_key (gpu_query query)))) h
  where
    chosen_fit :
        (r : Result (List GpuType))
        → chosen sort min_ram max_price cloud_type r ≡ ok gpus
        → AllOf (λ gpu. fits min_ram max_price cloud_type gpu ≡ true) gpus
    chosen_fit (err e) h = cc
    chosen_fit (ok xs) h =
        let same : sort (cheaper cloud_type) (filtered (fits min_ram max_price cloud_type) xs)
            ≡ gpus =
          cc in
        subst (AllOf _) same (kept _ _ _ (filtered-AllOf _ xs))
