-- ===== src/VirtualKubelet/Changes.antt =====
-- pkg/virtual_kubelet/kubelet.go: what a command and its bookkeeping can change: an instance that is
-- there, by a write that leaves its status result alone, and a pod of the cache, by updatePodStatus.
-- Whatever survives these two survives them all.
use mathlib.Core.Path.{subst}
use k8s_runpod_kubelet.Base.{
  String, Option, none, some, lookup, ◌≡◌, refl, sym, inl, inr, Result, ok, err, ◌==◌, if_both,
}
use k8s_runpod_kubelet.Kubernetes.{Pod}
use k8s_runpod_kubelet.Protocol.Messages.{
  Envelope, Command, Response, ResponseData, DeployParams, DeployResult, RejectParams, pod_key,
  deployed, is_success, command_deploy,
}
use k8s_runpod_kubelet.Protocol.Decode.{read_command, decode_payload}
use k8s_runpod_kubelet.Providers.World.{World}
use k8s_runpod_kubelet.Command.Handler.{RejectFunc, handle_command}
use k8s_runpod_kubelet.Command.Effects.{handle_command-state}
use k8s_runpod_kubelet.VirtualKubelet.State.{Kubelet, PodInstanceInfo}
use k8s_runpod_kubelet.VirtualKubelet.Commands.{
  report_cached, update_entry, deployed_instance, rejected_instance, handle_deployment_success,
  handle_reject, handler, book_response, book_params, book_command, book_body, report_deployed,
  report_rejected,
}

-- The write of a function to the instance under a key, if it is there.
abbrev pub with_entry : Kubelet → String → (PodInstanceInfo → PodInstanceInfo) → Kubelet
with_entry k key f = record k {
  pod_status = update_entry key f (lookup key k.pod_status) k.pod_status;
}

-- What survives the two.
pub record Survives {ℓ} (P : Kubelet → Type ℓ) : Type ℓ where
  pub writes :
      (k : Kubelet) (key : String) (f : PodInstanceInfo → PodInstanceInfo)
      → ((info : PodInstanceInfo) → (f info).status_result ≡ info.status_result)
      → P k
      → P (with_entry k key f)
  pub reports :
      (k : Kubelet) (key : String) (pod : Pod) (phase reason message : String)
      → lookup key k.pods ≡ some pod
      → P k
      → P (report_cached k key pod phase reason message)

module _ {ℓ} (P : Kubelet → Type ℓ) (rules : Survives P) where
  report_deployed_kept :
      (k : Kubelet) (key : String) (o : Option Pod)
      → lookup key k.pods ≡ o
      → P k
      → P (report_deployed k key o)
  report_deployed_kept k key none here p = p
  report_deployed_kept k key (some pod) here p = rules.reports k key pod _ _ _ here p

  report_rejected_kept :
      (k : Kubelet) (key : String) (params : RejectParams) (o : Option Pod)
      → lookup key k.pods ≡ o
      → P k
      → P (report_rejected k key params o).0
  report_rejected_kept k key params none here p = p
  report_rejected_kept k key params (some pod) here p = rules.reports k key pod _ _ _ here p

  handle_deployment_success_kept :
      (k : Kubelet) (params : DeployParams) (r : DeployResult)
      → P k
      → P (handle_deployment_success k params r)
  unfolding handle_deployment_success
  handle_deployment_success_kept k params r p =
      let key = pod_key params.namespace params.pod_name in
      report_deployed_kept _ key (lookup key k.pods) refl
        (rules.writes k key (deployed_instance params r) (λ info. refl) p)

  handle_reject_kept : (params : RejectParams) (k : Kubelet) → P k → P (handle_reject params k).0
  unfolding handle_reject
  handle_reject_kept params k p =
      let key = pod_key params.namespace params.pod_name in
      report_rejected_kept _ key params (lookup key k.pods) refl
        (rules.writes k key (rejected_instance params) (λ info. refl) p)

  pub handle_command_kept :
      (w : World) (k : Kubelet) (e : Envelope) → P k → P (handle_command w (handler k) e k).0
  handle_command_kept w k e p = elim (handle_command-state w (handler k) e k) [
    | inl same ↦ subst P (sym same) p
    | inr (f, params, (_, _, _, _, set), after) ↦ subst P (sym after) (
        let callback : handle_reject ≡ f = cc in
        subst (λ (g : RejectFunc Kubelet). P (g params k).0) callback
          (handle_reject_kept params k p))
  ]

  book_params_kept :
      (k : Kubelet) (r : DeployResult) (o : Result DeployParams) → P k → P (book_params k r o)
  book_params_kept k r (ok params) p = handle_deployment_success_kept k params r p
  book_params_kept k r (err x) p = p

  book_command_kept :
      (k : Kubelet) (r : DeployResult) (c : Result Command) → P k → P (book_command k r c)
  book_command_kept k r (err x) p = p
  book_command_kept k r (ok cmd) p =
      if_both P (cmd.type == command_deploy) _ _ (book_params_kept k r _ p) p

  book_body_kept : (k : Kubelet) (e : Envelope) (d : ResponseData) → P k → P (book_body k e d)
  book_body_kept k e (deployed r) p = book_command_kept k r (decode_payload read_command e) p
  book_body_kept k e d p = p

  pub book_response_kept :
      (k : Kubelet) (e : Envelope) (r : Response) → P k → P (book_response k e r)
  unfolding book_response
  book_response_kept k e r p = if_both P (is_success r.status) _ _ (book_body_kept k e r.body p) p
