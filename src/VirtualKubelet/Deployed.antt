-- ===== src/VirtualKubelet/Deployed.antt =====
-- pkg/virtual_kubelet/kubelet.go: handleDeploymentSuccess, the result of a deploy, which may come
-- behind a rejection.
use k8s_runpod_kubelet.Base.{
  if◌then◌else◌, String, [], ◌∷◌, Option, none, some, lookup, lookup-insert_self, ◌≡◌, ◌≢◌, refl,
  ap, ◌∙◌, ◌==◌, trim_space,
}
use k8s_runpod_kubelet.Kubernetes.{Pod, pod_scheduled}
use k8s_runpod_kubelet.Providers.Status.{phase_pending}
use k8s_runpod_kubelet.Protocol.Messages.{DeployParams, DeployResult, pod_key}
use k8s_runpod_kubelet.VirtualKubelet.State.{Kubelet, PodInstanceInfo, set_status}
use k8s_runpod_kubelet.VirtualKubelet.Status.{done, get_pod_status}
use k8s_runpod_kubelet.VirtualKubelet.Commands.{
  handle_deployment_success, report_deployed, update_entry, deployed_instance,
}
use k8s_runpod_kubelet.VirtualKubelet.Rejection.{
  report_cached_maps, update_pod_status-notified, rejected_shown,
}

module _ (k : Kubelet) (params : DeployParams) (r : DeployResult) where
  deploy_key : String
  deploy_key = pod_key params.namespace params.pod_name

  booked : Kubelet
  booked = record k {
    pod_status =
        update_entry (pod_key params.namespace params.pod_name) (deployed_instance params r)
          (lookup (pod_key params.namespace params.pod_name) k.pod_status) k.pod_status;
  }

  report_deployed_status :
      (o : Option Pod) → (report_deployed booked deploy_key o).pod_status ≡ booked.pod_status
  report_deployed_status none = refl
  report_deployed_status (some pod) = (report_cached_maps booked deploy_key pod _ _ _).1

  pub deployed_entry :
      (info : PodInstanceInfo)
      → lookup (pod_key params.namespace params.pod_name) k.pod_status ≡ some info
      → lookup
          (pod_key params.namespace params.pod_name)
          (handle_deployment_success k params r).pod_status
        ≡ some (deployed_instance params r info)
  unfolding handle_deployment_success deploy_key booked
  deployed_entry info entry =
      let key = pod_key params.namespace params.pod_name in
      ap (lookup key) (report_deployed_status (lookup key k.pods))
      ∙ ap (λ e. lookup key (update_entry key (deployed_instance params r) e k.pod_status)) entry
      ∙ lookup-insert_self key (deployed_instance params r info) k.pod_status

  deployed_pod :
      (pod : Pod)
      → lookup (pod_key params.namespace params.pod_name) k.pods ≡ some pod
      → (pod' : Pod) × (lookup
            (pod_key params.namespace params.pod_name)
            (handle_deployment_success k params r).pods
          ≡ some pod')
  unfolding handle_deployment_success deploy_key booked
  deployed_pod pod cached =
      let key = pod_key params.namespace params.pod_name in
      (
        _,
        ap (λ o. lookup key (report_deployed booked key o).pods) cached
            ∙ (report_cached_maps booked key pod _ _ _).0,
      )

  deployed_notified :
      (pod : Pod)
      → lookup (pod_key params.namespace params.pod_name) k.pods ≡ some pod
      → (handle_deployment_success k params r).notified ≡ (
          if k.notify_set
          then set_status pod phase_pending "" "Instance deployed, waiting for startup" ∷ k.notified
          else k.notified)
  unfolding handle_deployment_success deploy_key booked
  deployed_notified pod cached =
      let key = pod_key params.namespace params.pod_name in
      ap (λ o. (report_deployed booked key o).notified) cached
      ∙ update_pod_status-notified booked pod _ _ _

  -- The result of a deploy that arrives for a pod in the cache which the platform has rejected with a
  -- code: it is written into the instance, which keeps the rejection, so that GetPodStatus goes on
  -- reporting the pod as Failed with the code and the message of the rejection, although the
  -- controllers, if their callback is set, are told that the pod is Pending.
  pub deployed_stays_rejected :
      (pod : Pod) (info : PodInstanceInfo)
      → lookup (pod_key params.namespace params.pod_name) k.pods ≡ some pod
      → lookup (pod_key params.namespace params.pod_name) k.pod_status ≡ some info
      → info.reject_code ≢ ""
      → let t = handle_deployment_success k params r in
        (lookup (pod_key params.namespace params.pod_name) t.pod_status
          ≡ some (record info {
            provider_pod_id = r.provider_pod_id;
            provider = if r.provider == "" then params.provider else r.provider;
            status = r.status;
            cost_per_hour = r.cost_per_hour;
            machine_id = r.machine_id;
            location = r.datacenter_id;
          }))
        × (get_pod_status t (trim_space params.namespace) (trim_space params.pod_name)
            ≡ done (record {
              phase = "Failed";
              reason = info.reject_code;
              message = info.reject_message;
              conditions = pod_scheduled ∷ [];
              container_statuses = [];
            }))
        × (t.notified ≡ (
            if k.notify_set
            then record pod {
              phase = "Pending";
              reason = "";
              message = "Instance deployed, waiting for startup";
            }
              ∷ k.notified
            else k.notified))
  unfolding get_pod_status pod_key
  deployed_stays_rejected pod info cached entry n =
      let (pod', p) = deployed_pod pod cached in
      (
        deployed_entry info entry,
        rejected_shown _ pod' _ (deployed_instance params r info) p (deployed_entry info entry) n,
        deployed_notified pod cached,
      )
