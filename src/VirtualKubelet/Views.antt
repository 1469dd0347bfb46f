-- ===== src/VirtualKubelet/Views.antt =====
-- How the operations on the pods, the rejections and the results of deploys change the views.
use mathlib.Core.Path.{ap₂}
use k8s_runpod_kubelet.Base.{
  ℕ, Bool, true, false, String, Option, none, some, is_some, Dict, lookup, insert, lookup-insert,
  lookup-delete, ◌≡◌, refl, sym, ap, ◌∙◌, inl, inr, ◌==◌, text_cases, Bool-cases, if◌then◌else◌,
}
use k8s_runpod_kubelet.Kubernetes.{Pod}
use k8s_runpod_kubelet.Protocol.Messages.{DeployParams, DeployResult, RejectParams, pod_key}
use k8s_runpod_kubelet.VirtualKubelet.State.{
  Kubelet, PodInstanceInfo, create_pod, update_pod, delete_pod, get_pod_key, new_instance,
  notify_backend,
}
use k8s_runpod_kubelet.VirtualKubelet.Commands.{
  update_entry, report_cached, report_deployed, report_rejected, deployed_instance,
  rejected_instance, handle_deployment_success, handle_reject,
}
use k8s_runpod_kubelet.VirtualKubelet.Bookkeeping.{update_pod_status_kept}
use k8s_runpod_kubelet.VirtualKubelet.Lifecycle.{create_pod_maps}
use k8s_runpod_kubelet.VirtualKubelet.View.{
  verdict, refuse, refresh, refused, appears, refreshed, vanishes, change, view_of, view,
}

-- A view depends on the two maps alone.
pub view-maps :
    (k t : Kubelet) (j : String)
    → t.pods ≡ k.pods
    → t.pod_status ≡ k.pod_status
    → view t j ≡ view k j
unfolding view
view-maps k t j p q = ap₂ (λ ps ss. view_of (is_some (lookup j ps)) (lookup j ss)) p q

abbrev map_option {ℓ κ} : {A : Type ℓ} {B : Type κ} → (A → B) → Option A → Option B
map_option f none = none
map_option f (some a) = some (f a)

module _ (key j : String) where
  updated_lookup :
      (f : PodInstanceInfo → PodInstanceInfo) (m : Dict PodInstanceInfo)
      (o : Option PodInstanceInfo)
      → lookup key m ≡ o
      → lookup j (update_entry key f o m)
        ≡ (if key == j then map_option f (lookup j m) else lookup j m)
  updated_lookup f m none e = elim (text_cases key j) [
    | inl (p, b) ↦ (let h : lookup j m ≡ none = ap (λ x. lookup x m) (sym p) ∙ e in rw b (rw h))
    | inr (n, b) ↦ rw b
  ]
  updated_lookup f m (some v) e = elim (text_cases key j) [
    | inl (p, b) ↦
        (let h : lookup j m ≡ some v = ap (λ x. lookup x m) (sym p) ∙ e in
          lookup-insert key j (f v) m ∙ rw b (rw h))
    | inr (n, b) ↦ lookup-insert key j (f v) m ∙ rw b
  ]

  -- A write over a pod that is there adds no key.
  cached_kept :
      (m : Dict Pod) (pod pod' : Pod)
      → lookup key m ≡ some pod
      → is_some (lookup j (insert key pod' m)) ≡ is_some (lookup j m)
  cached_kept m pod pod' e = elim (text_cases key j) [
    | inl (p, b) ↦
        (let h : lookup j m ≡ some pod = ap (λ x. lookup x m) (sym p) ∙ e in
          rw (lookup-insert key j pod' m) (rw b (rw h)))
    | inr (n, b) ↦ rw (lookup-insert key j pod' m) (rw b)
  ]

  view-report_cached :
      (k : Kubelet) (pod : Pod) (phase reason message : String)
      → lookup key k.pods ≡ some pod
      → view (report_cached k key pod phase reason message) j ≡ view k j
  unfolding view
  view-report_cached k pod phase reason message e =
      let (p, q, _) = update_pod_status_kept k pod phase reason message in
      ap₂ view_of (cached_kept _ pod _ (ap (lookup key) p ∙ e) ∙ ap (λ ps. is_some (lookup j ps)) p)
        (ap (lookup j) q)

  view-report_deployed :
      (k : Kubelet) (o : Option Pod)
      → lookup key k.pods ≡ o
      → view (report_deployed k key o) j ≡ view k j
  view-report_deployed k none e = refl
  view-report_deployed k (some pod) e = view-report_cached k pod _ _ _ e

  view-report_rejected :
      (k : Kubelet) (params : RejectParams) (o : Option Pod)
      → lookup key k.pods ≡ o
      → view (report_rejected k key params o).0 j ≡ view k j
  view-report_rejected k params none e = refl
  view-report_rejected k params (some pod) e = view-report_cached k pod _ _ _ e

view_of-deployed :
    (params : DeployParams) (r : DeployResult) (b : Bool) (o : Option PodInstanceInfo)
    → view_of b (map_option (deployed_instance params r) o) ≡ view_of b o
view_of-deployed params r false o = refl
view_of-deployed params r true none = refl
view_of-deployed params r true (some info) = refl

view_of-rejected :
    (p : RejectParams) (b : Bool) (o : Option PodInstanceInfo)
    → view_of b (map_option (rejected_instance p) o) ≡ refuse p.code p.message (view_of b o)
view_of-rejected p false o = refl
view_of-rejected p true none = refl
view_of-rejected p true (some info) = elim (Bool-cases (info.reject_code == "")) [
  | inl e ↦ rw e
  | inr e ↦ rw e
]

-- The result of a deploy changes no view.
pub view-handle_deployment_success :
    (k : Kubelet) (params : DeployParams) (r : DeployResult) (j : String)
    → view (handle_deployment_success k params r) j ≡ view k j
unfolding handle_deployment_success view
view-handle_deployment_success k params r j =
    let key = pod_key params.namespace params.pod_name in
    view-report_deployed key j _ (lookup key k.pods) refl
    ∙ ap (view_of (is_some (lookup j k.pods)))
        (updated_lookup key j (deployed_instance params r) k.pod_status _ refl)
    ∙ elim (Bool-cases (key == j)) [
      | inl e ↦ rw e (view_of-deployed params r (is_some (lookup j k.pods)) (lookup j k.pod_status))
      | inr e ↦ rw e
    ]

-- A rejection changes the view of the pod it names.
pub view-handle_reject :
    (p : RejectParams) (k : Kubelet) (j : String)
    → view (handle_reject p k).0 j
      ≡ change (refused (pod_key p.namespace p.pod_name) p.code p.message) (view k) j
unfolding handle_reject view change
view-handle_reject p k j =
    let key = pod_key p.namespace p.pod_name in
    view-report_rejected key j _ p (lookup key k.pods) refl
    ∙ ap (view_of (is_some (lookup j k.pods)))
        (updated_lookup key j (rejected_instance p) k.pod_status _ refl)
    ∙ elim (Bool-cases (key == j)) [
      | inl e ↦ rw e (view_of-rejected p (is_some (lookup j k.pods)) (lookup j k.pod_status))
      | inr e ↦ rw e
    ]

pub view-create_pod :
    (now : ℕ) (k : Kubelet) (pod : Pod) (j : String)
    → view (create_pod now k pod) j ≡ change (appears (get_pod_key pod)) (view k) j
unfolding view change
view-create_pod now k pod j =
    let key = get_pod_key pod in
    let (p, q) = create_pod_maps now k pod in
    ap₂ view_of (ap (λ m. is_some (lookup j m)) p ∙ ap is_some (lookup-insert key j pod k.pods))
      (ap (lookup j) q ∙ lookup-insert key j (new_instance now pod) k.pod_status)
    ∙ elim (Bool-cases (key == j)) [ inl e ↦ rw e | inr e ↦ rw e ]

refresh-verdict : (code message : String) → refresh (verdict code message) ≡ verdict code message
refresh-verdict code message = elim (Bool-cases (code == "")) [ inl e ↦ rw e | inr e ↦ rw e ]

view-refreshed :
    (o : Option Pod) (i : Option PodInstanceInfo)
    → (o ≡ none → i ≡ none)
    → view_of true i ≡ refresh (view_of (is_some o) i)
view-refreshed none none h = refl
view-refreshed none (some info) h = cc (h refl)
view-refreshed (some pod) none h = refl
view-refreshed (some pod) (some info) h = sym (refresh-verdict info.reject_code info.reject_message)

pub view-update_pod :
    (k : Kubelet) (pod : Pod) (j : String)
    → (lookup j k.pods ≡ none → lookup j k.pod_status ≡ none)
    → view (update_pod k pod) j ≡ change (refreshed (get_pod_key pod)) (view k) j
unfolding view change update_pod
view-update_pod k pod j tracked =
    let key = get_pod_key pod in
    ap (λ o. view_of (is_some o) (lookup j k.pod_status)) (lookup-insert key j pod k.pods)
    ∙ elim (Bool-cases (key == j)) [
      | inl e ↦ rw e (view-refreshed (lookup j k.pods) (lookup j k.pod_status) tracked)
      | inr e ↦ rw e
    ]

pub view-delete_pod :
    (k : Kubelet) (pod : Pod) (j : String)
    → view (delete_pod k pod) j ≡ change (vanishes (get_pod_key pod)) (view k) j
unfolding view change delete_pod notify_backend
view-delete_pod k pod j =
    let key = get_pod_key pod in
    ap₂ view_of (ap is_some (lookup-delete key j k.pods)) (lookup-delete key j k.pod_status)
    ∙ elim (Bool-cases (key == j)) [ inl e ↦ rw e | inr e ↦ rw e ]
