-- ===== src/Command/Answers.antt =====
-- Every command envelope is answered, once, by a well-formed response with its id.
use k8s_runpod_kubelet.Base.{
  false, String, Option, none, some, ◌≡◌, refl, ◌≢◌, ◌⊎◌, inl, inr, ◌==◌, eq_iff, text_cases, arith,
  if_both, Result, ok, err, GoError, plain, from_provider,
}
use k8s_runpod_kubelet.Protocol.Messages.{
  Envelope, Command, Response, ErrorDetails, RejectParams, TerminateParams, DeployParams,
  DeployResult, StatusParams, StatusResult, ResponseStatus, ResponseData, unset, empty, deployed,
  terminated, reported, new_success_response, new_error_response, command_deploy, command_terminate,
  command_status, command_ping, command_reject,
}
use k8s_runpod_kubelet.Protocol.Decode.{read_command, decode_payload}
use k8s_runpod_kubelet.Providers.World.{World}
use k8s_runpod_kubelet.Providers.Manager.{Manager}
use k8s_runpod_kubelet.Providers.Manager
use k8s_runpod_kubelet.Command.Handler.{
  Handler, RejectFunc, error_response, deploy_outcome, deploy_with, handle_deploy,
  terminate_outcome, terminate_with, handle_terminate, status_outcome, status_with, handle_status,
  handle_ping, reject_outcome, apply_reject, reject_with, handle_reject, handle, handle_with,
  handle_command,
}

-- A success has data and no error; an error has a code and no data.
abbrev pub IsWellFormed : String → Response → Type 0
IsWellFormed id r =
    (r.command_id ≡ id)
    × (((r.status ≡ ResponseStatus.success) × (r.error ≡ none) × (r.body ≢ unset))
        ⊎ ((d : ErrorDetails) × (r.status ≡ ResponseStatus.error)
            × (r.body ≡ unset)
            × (r.error ≡ some d)
            × (d.code ≢ "")))

new_error_response-IsWellFormed :
    (id code message detail : String)
    → code ≢ ""
    → IsWellFormed id (new_error_response id code message detail)
unfolding new_error_response
new_error_response-IsWellFormed id code message detail h = (
  refl,
  inr (record { code = code; message = message; provider_error = detail }, refl, refl, refl, h),
)

error_response-IsWellFormed :
    (id code : String) (e : GoError) → code ≢ "" → IsWellFormed id (error_response id code e)
unfolding error_response
error_response-IsWellFormed id code (plain s) h = new_error_response-IsWellFormed id code _ _ h
error_response-IsWellFormed id code (from_provider e) h =
    new_error_response-IsWellFormed id _ _ _
      (elim (text_cases e.code "") [ inl (_, b) ↦ rw b h | inr (n, b) ↦ rw b n ])

new_success_response-IsWellFormed :
    (id : String) (d : ResponseData) → d ≢ unset → IsWellFormed id (new_success_response id d)
unfolding new_success_response
new_success_response-IsWellFormed id unset h = absurd (h refl)
new_success_response-IsWellFormed id empty h = (refl, inl (refl, refl, h))
new_success_response-IsWellFormed id (deployed r) h = (refl, inl (refl, refl, h))
new_success_response-IsWellFormed id (terminated r) h = (refl, inl (refl, refl, h))
new_success_response-IsWellFormed id (reported r) h = (refl, inl (refl, refl, h))

-- A text is not empty if the test says so.
nonempty : (s : String) → (s == "") ≡ false → s ≢ ""
nonempty s h p = ground (arith, eq_iff s "")

deploy_with-IsWellFormed :
    (w : World) (m : Manager) (id : String) (r : Result DeployParams)
    → IsWellFormed id (deploy_with w m id r)
deploy_with-IsWellFormed w m id (err e) = new_error_response-IsWellFormed id _ _ _ (nonempty _ refl)
deploy_with-IsWellFormed w m id (ok p) = outcome (Manager.deploy w m p.provider p)
  where
    outcome : (r : Result DeployResult) → IsWellFormed id (deploy_outcome id p r)
    outcome (err e) = error_response-IsWellFormed id _ e (nonempty _ refl)
    outcome (ok r) = new_success_response-IsWellFormed id _ (λ e. cc)

terminate_with-IsWellFormed :
    (w : World) (m : Manager) (id : String) (r : Result TerminateParams)
    → IsWellFormed id (terminate_with w m id r)
terminate_with-IsWellFormed w m id (err e) =
    new_error_response-IsWellFormed id _ _ _ (nonempty _ refl)
terminate_with-IsWellFormed w m id (ok p) = outcome (Manager.terminate w m p.provider p)
  where
    outcome : (r : Option GoError) → IsWellFormed id (terminate_outcome id r)
    outcome (some e) = error_response-IsWellFormed id _ e (nonempty _ refl)
    outcome none = new_success_response-IsWellFormed id _ (λ e. cc)

status_with-IsWellFormed :
    (w : World) (m : Manager) (id : String) (r : Result StatusParams)
    → IsWellFormed id (status_with w m id r)
status_with-IsWellFormed w m id (err e) = new_error_response-IsWellFormed id _ _ _ (nonempty _ refl)
status_with-IsWellFormed w m id (ok p) = outcome (Manager.get_status w m p.provider p)
  where
    outcome : (r : Result StatusResult) → IsWellFormed id (status_outcome id p r)
    outcome (err e) = error_response-IsWellFormed id _ e (nonempty _ refl)
    outcome (ok r) = new_success_response-IsWellFormed id _ (λ e. cc)

module _ {ℓ} {S : Type ℓ} (w : World) (h : Handler S) (id : String) (s : S) where
  reject_outcome-IsWellFormed : (r : S × Option GoError) → IsWellFormed id (reject_outcome id r).1
  reject_outcome-IsWellFormed (t, some e) =
      new_error_response-IsWellFormed id _ _ _ (nonempty _ refl)
  reject_outcome-IsWellFormed (t, none) = new_success_response-IsWellFormed id _ (λ e. cc)

  apply_reject-IsWellFormed :
      (f : Option (RejectFunc S)) (p : RejectParams) → IsWellFormed id (apply_reject f id p s).1
  apply_reject-IsWellFormed none p = new_error_response-IsWellFormed id _ _ _ (nonempty _ refl)
  apply_reject-IsWellFormed (some f) p = reject_outcome-IsWellFormed (f p s)

  reject_with-IsWellFormed : (r : Result RejectParams) → IsWellFormed id (reject_with h id s r).1
  reject_with-IsWellFormed (err e) = new_error_response-IsWellFormed id _ _ _ (nonempty _ refl)
  reject_with-IsWellFormed (ok p) = apply_reject-IsWellFormed h.reject_func p

  handle-IsWellFormed : (cmd : Command) → IsWellFormed id (handle w h id cmd s).1
  unfolding handle handle_deploy handle_terminate handle_status handle_ping handle_reject
  handle-IsWellFormed cmd =
      if_both P (cmd.type == command_deploy) _ _ (deploy_with-IsWellFormed w h.manager id _) (
        if_both P (cmd.type == command_terminate) _ _ (terminate_with-IsWellFormed w h.manager id _)
          (if_both P (cmd.type == command_status) _ _ (status_with-IsWellFormed w h.manager id _) (
            if_both P (cmd.type == command_ping) _ _
              (new_success_response-IsWellFormed id _ (λ e. cc))
              (if_both P (cmd.type == command_reject) _ _ (reject_with-IsWellFormed _)
                (new_error_response-IsWellFormed id _ _ _ (nonempty _ refl))))))
    where
      P : S × Response → Type 0
      P r = IsWellFormed id r.1

  handle_with-IsWellFormed : (r : Result Command) → IsWellFormed id (handle_with w h id s r).1
  handle_with-IsWellFormed (err e) = new_error_response-IsWellFormed id _ _ _ (nonempty _ refl)
  handle_with-IsWellFormed (ok cmd) = handle-IsWellFormed cmd

-- Whatever the envelope holds and the providers answer, the response bears the id of the envelope;
-- it is either a success with data and no error, or an error with a code and no data.
pub handle_command-IsWellFormed {ℓ} :
    {S : Type ℓ} (w : World) (h : Handler S) (e : Envelope) (s : S)
    → IsWellFormed e.id (handle_command w h e s).1
unfolding handle_command
handle_command-IsWellFormed w h e s =
    handle_with-IsWellFormed w h e.id s (decode_payload read_command e)
