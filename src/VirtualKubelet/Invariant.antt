-- ===== src/VirtualKubelet/Invariant.antt =====
-- What holds of the pod bookkeeping between two operations.
use k8s_runpod_kubelet.Base.{
  true, String, none, some, lookup, insert, delete, lookup-insert, lookup-delete, insert_cases,
  delete_cases, ◌≡◌, sym, ap, ◌∙◌, inl, inr, arith, text_cases, is_some,
}
use k8s_runpod_kubelet.Kubernetes.{Pod}
use k8s_runpod_kubelet.VirtualKubelet.State.{Kubelet, PodInstanceInfo, get_pod_key}

-- Every instance belongs to a pod of the cache, every pod stands under its own key, and no instance
-- has a status result.
pub record Inv (k : Kubelet) : Type 0 where
  pub tracked :
      (key : String) → is_some (lookup key k.pod_status) ≡ true → is_some (lookup key k.pods) ≡ true
  pub keyed : (key : String) (pod : Pod) → lookup key k.pods ≡ some pod → get_pod_key pod ≡ key
  pub unreported :
      (key : String) (info : PodInstanceInfo)
      → lookup key k.pod_status ≡ some info
      → info.status_result ≡ none

-- The invariant is about the two maps alone.
pub Inv-maps : {k t : Kubelet} → t.pods ≡ k.pods → t.pod_status ≡ k.pod_status → Inv k → Inv t
Inv-maps {k} {t} p q v = record {
  tracked = λ key. rw (p, q) (v.tracked key);
  keyed = λ key pod. rw p (v.keyed key pod);
  unreported = λ key info. rw q (v.unreported key info);
}

-- Writing a pod under its key.
pub insert_pod-Inv :
    (k : Kubelet) (key : String) (pod : Pod)
    → get_pod_key pod ≡ key
    → Inv k
    → Inv (record k { pods = insert key pod k.pods })
insert_pod-Inv k key pod e v = record {
  tracked = λ j h. rw lookup-insert (ground (arith, v.tracked j));
  keyed = λ j pod' h. elim (insert_cases key j pod pod' k.pods h) [
    | inl (p, q) ↦ ap get_pod_key (sym q) ∙ e ∙ p
    | inr q ↦ v.keyed j pod' q
  ];
  unreported = v.unreported;
}

-- Writing an instance with no status result, of a pod that the cache has.
pub insert_instance-Inv :
    (k : Kubelet) (key : String) (info : PodInstanceInfo)
    → is_some (lookup key k.pods) ≡ true
    → info.status_result ≡ none
    → Inv k
    → Inv (record k { pod_status = insert key info k.pod_status })
insert_instance-Inv k key info known e v = record {
  tracked = λ j h. elim (text_cases key j) [
    | inl (p, _) ↦ rw (← p) known
    | inr (n, b) ↦ v.tracked j (rw (lookup-insert key j info k.pod_status, b) at h)
  ];
  keyed = v.keyed;
  unreported = λ j info' h. elim (insert_cases key j info info' k.pod_status h) [
    | inl (p, q) ↦ ap (λ (t : PodInstanceInfo). t.status_result) (sym q) ∙ e
    | inr q ↦ v.unreported j info' q
  ];
}

-- Removing a pod together with its instance.
pub delete-Inv :
    (k : Kubelet) (key : String)
    → Inv k
    → Inv (record k { pods = delete key k.pods; pod_status = delete key k.pod_status })
delete-Inv k key v = record {
  tracked = λ j h. elim (text_cases key j) [
    | inl (p, b) ↦ cc (ap is_some (lookup-delete key j k.pod_status), b)
    | inr (n, b) ↦
        rw (lookup-delete key j k.pods, b)
          (v.tracked j (rw (lookup-delete key j k.pod_status, b) at h))
  ];
  keyed = λ j pod h. v.keyed j pod (delete_cases key j pod k.pods h);
  unreported = λ j info h. v.unreported j info (delete_cases key j info k.pod_status h);
}
