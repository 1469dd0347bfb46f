-- ===== src/Runpod/Body.antt =====
-- What a deploy asks RunPod for.
use Prim.Native.String.{◌++◌}
use k8s_runpod_kubelet.Base.{
  Result, eq_false, Bool, true, false, String, Option, none, some, Dict, lookup, lookup-insert, ◌≡◌,
  ◌≢◌, refl, ◌∙◌, ◌==◌, not, is_positive, is_empty, List, ℤ, if◌then◌else◌,
}
use k8s_runpod_kubelet.Protocol.Json.{
  Json, obj, json_fields, str, arr, json_int, json_strings, json_dict,
}
use k8s_runpod_kubelet.Protocol.Messages.{DeployParams, DeployResult}
use k8s_runpod_kubelet.Providers.World.{Request, Reply}
use k8s_runpod_kubelet.Runpod.Calls.{done, request}
use k8s_runpod_kubelet.Runpod.Rest.{
  base_rest_url, make_rest_request, created_reply, deploy_pod_rest,
}
use k8s_runpod_kubelet.Runpod.Client.{
  Client, get_api_key, map_call, deploy, deploy_outcome, when_set, apply_container_spec,
  convert_deploy_params,
}

module _ (j k : String) (v : Json) (m : Dict Json) where
  -- A member of another name is passed over.
  lookup-when_set_ne : (b : Bool) → (k == j) ≡ false → lookup j (when_set b k v m) ≡ lookup j m
  lookup-when_set_ne true e = lookup-insert k j v m ∙ rw e refl
  lookup-when_set_ne false e = refl

  lookup-when_set_self :
      (b : Bool)
      → (k == j) ≡ true
      → lookup j m ≡ none
      → lookup j (when_set b k v m) ≡ (if b then some v else none)
  lookup-when_set_self true e h = lookup-insert k j v m ∙ rw e refl
  lookup-when_set_self false e h = h

-- A member that is sent if a test holds.
abbrev sent_if : Bool → Json → Option Json
sent_if b v = if b then some v else none

abbrev some_texts : List String → Option Json
some_texts ss = sent_if (not (is_empty ss)) (arr (json_strings ss))

abbrev some_text : String → Option Json
some_text s = sent_if (not (s == "")) (str s)

abbrev some_count : ℤ → Option Json
some_count n = sent_if (is_positive n) (json_int n)

-- The members that a create-pod request has where its parameters set them.
abbrev pub Members : DeployParams → Dict Json → Type 0
Members p m =
    (lookup "name" m ≡ some (str p.name))
    × (lookup "imageName" m ≡ some (str p.image))
    × (lookup "containerDiskInGb" m ≡ some (json_int p.container_disk_in_gb))
    × (lookup "volumeInGb" m ≡ some (json_int p.volume_in_gb))
    × (lookup "env" m ≡ some (json_dict p.env))
    × (lookup "gpuTypeIds" m ≡ some_texts p.gpu_type_ids)
    × (lookup "ports" m ≡ some_texts p.ports)
    × (lookup "dataCenterIds" m ≡ some_texts p.datacenter_ids)
    × (lookup "cloudType" m ≡ some_text p.cloud_type)
    × (lookup "templateId" m ≡ some_text p.template_id)
    × (lookup "containerRegistryAuthId" m ≡ some_text p.container_auth_id)
    × (lookup "minRAMPerGPU" m ≡ some_count p.min_ram_per_gpu)
    × (lookup "dockerEntrypoint" m ≡ some_texts p.command)
    × (lookup "dockerStartCmd" m ≡ some_texts p.args)
    × (lookup "gpuCount" m ≡ some_count p.gpu_count)

-- The key is none of these.
abbrev pub Unnamed : String → Type 0
Unnamed j =
    (("name" == j) ≡ false)
    × (("imageName" == j) ≡ false)
    × (("containerDiskInGb" == j) ≡ false)
    × (("volumeInGb" == j) ≡ false)
    × (("env" == j) ≡ false)
    × (("gpuTypeIds" == j) ≡ false)
    × (("ports" == j) ≡ false)
    × (("dataCenterIds" == j) ≡ false)
    × (("cloudType" == j) ≡ false)
    × (("templateId" == j) ≡ false)
    × (("containerRegistryAuthId" == j) ≡ false)
    × (("minRAMPerGPU" == j) ≡ false)
    × (("dockerEntrypoint" == j) ≡ false)
    × (("dockerStartCmd" == j) ≡ false)
    × (("gpuCount" == j) ≡ false)

convert_deploy_params-Members : (p : DeployParams) → Members p (convert_deploy_params p)
unfolding convert_deploy_params apply_container_spec lookup
convert_deploy_params-Members p = (
  simp (lookup-when_set_ne),
  simp (lookup-when_set_ne),
  simp (lookup-when_set_ne),
  simp (lookup-when_set_ne),
  simp (lookup-when_set_ne),
  simp (lookup-when_set_self, lookup-when_set_ne),
  simp (lookup-when_set_self, lookup-when_set_ne),
  simp (lookup-when_set_self, lookup-when_set_ne),
  simp (lookup-when_set_self, lookup-when_set_ne),
  simp (lookup-when_set_self, lookup-when_set_ne),
  simp (lookup-when_set_self, lookup-when_set_ne),
  simp (lookup-when_set_self, lookup-when_set_ne),
  simp (lookup-when_set_self, lookup-when_set_ne),
  simp (lookup-when_set_self, lookup-when_set_ne),
  simp (lookup-when_set_self, lookup-when_set_ne),
)

convert_deploy_params-Unnamed :
    (p : DeployParams) (j : String) → Unnamed j → lookup j (convert_deploy_params p) ≡ none
unfolding convert_deploy_params apply_container_spec lookup
convert_deploy_params-Unnamed p j (a, b, c, d, e, f, g, h, i, k, l, m, n, o, q) =
    simp (lookup-when_set_ne, a, b, c, d, e, f, g, h, i, k, l, m, n, o, q)

-- The request that creates the pod.
abbrev pub Asks : DeployParams → Request → Type 0
Asks p r =
    (r.method ≡ "POST")
    × (r.url ≡ base_rest_url ++ "pods")
    × ((m : Dict Json) × (r.body ≡ some (obj (json_fields m)))
        × Members p m
        × ((j : String) → Unnamed j → lookup j m ≡ none))

-- Deploy, with a key, makes exactly one request, whatever it is answered: a POST to the pods of the
-- service whose body is an object with the name, the image, the sizes of the disk and the volume
-- and the environment of the parameters, with each list, text and count that they set under its name
-- in RunPod's interface, and with nothing else: a list or a text that is empty, a count that is not
-- positive, the key and the maximal price are not sent.
pub deploy-Asks :
    (getenv : String → String) (parse : String → Option Json) (c : Client) (p : DeployParams)
    → get_api_key getenv c p.api_key ≢ ""
    → (r : Request) × (answer : Reply → Result DeployResult) × (deploy getenv parse c p
        ≡ request r (λ reply. done (answer reply)))
      × (r.api_key ≡ get_api_key getenv c p.api_key)
      × Asks p r
unfolding deploy map_call deploy_pod_rest make_rest_request
deploy-Asks getenv parse c p n =
    let m = convert_deploy_params p in
    let key = get_api_key getenv c p.api_key in
    (
      make_rest_request "POST" "pods" (some (obj (json_fields m))) key,
      λ reply. deploy_outcome p (created_reply parse reply),
      rw (eq_false key "" n) refl,
      refl,
      (refl, refl, (m, refl, convert_deploy_params-Members p, convert_deploy_params-Unnamed p)),
    )
