-- ===== src/Config/Precedence.antt =====
-- Which source a setting comes from.
use k8s_runpod_kubelet.Base.{
  String, [], ◌∷◌, ◌≡◌, refl, inl, inr, ◌==◌, if◌then◌else◌, Bool-cases, not,
}
use k8s_runpod_kubelet.Config.Settings.{default_config}
use k8s_runpod_kubelet.Config.Sources.{
  Flags, or_old, load_from_environment, load_configuration, override_configuration,
  effective_configuration, trimmed_parts, split_commas, or_old_list,
}

-- The flag if it is set, else the variable if it is set, else the default.
unfoldable pub first_set : (flag variable default : String) → String
first_set flag variable default =
    if not (flag == "") then flag else if not (variable == "") then variable else default

first_set_lem :
    (flag variable default : String)
    → or_old flag (or_old variable default) ≡ first_set flag variable default
unfolding first_set
first_set_lem flag variable default = elim (Bool-cases (flag == "")) [
  | inr e ↦ rw e refl
  | inl e ↦ elim (Bool-cases (variable == "")) [ inl f ↦ rw (e, f) refl | inr f ↦ rw (e, f) refl ]
]

-- Each of the settings that have both a flag and a variable comes from the flag if it is set, else
-- from the environment variable if it is set, else from the defaults; RunPod's key comes from its
-- variable, and the providers are the ones that the flag lists, trimmed and without blank ones, or
-- RunPod alone if it lists none.
pub effective_configuration_lem :
    (getenv : String → String) (f : Flags)
    → let c = effective_configuration getenv f in
      (c.backend_url ≡ first_set f.backend_url (getenv "BACKEND_URL") default_config.backend_url)
      × (c.backend_api_key ≡ first_set f.backend_api_key (getenv "BACKEND_API_KEY") "")
      × (c.cluster_name ≡ first_set f.cluster_name (getenv "CLUSTER_NAME") "default")
      × (c.node_name ≡ first_set f.node_name (getenv "NODE_NAME") "conduit-node")
      × (c.namespace ≡ first_set f.namespace (getenv "NAMESPACE") "kube-system")
      × (c.log_level ≡ first_set f.log_level (getenv "LOG_LEVEL") "info")
      × (c.providers.runpod.api_key ≡ first_set "" (getenv "RUNPOD_API_KEY") "")
      × (c.providers.enabled_providers
          ≡ or_old_list (trimmed_parts (split_commas f.enabled_providers)) ("runpod" ∷ []))
unfolding effective_configuration load_configuration load_from_environment override_configuration
effective_configuration_lem getenv f = (
  first_set_lem _ _ _,
  first_set_lem _ _ _,
  first_set_lem _ _ _,
  first_set_lem _ _ _,
  first_set_lem _ _ _,
  first_set_lem _ _ _,
  first_set_lem "" _ _,
  refl,
)
