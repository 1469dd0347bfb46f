-- ===== src/Command/Routing.antt =====
-- Which commands reach a provider or the reject callback, and how a provider's failure is reported.
use Prim.Native.String.{◌++◌}
use mathlib.Core.Path.{subst}
use k8s_runpod_kubelet.Base.{
  String, ◌>>=◌, sym, ap, ◌∙◌, none, some, ◌≡◌, ◌⊎◌, inl, inr, ◌==◌, if◌then◌else◌, ok, err,
  GoError, plain, from_provider, ProviderError, provider_error_text, lookup,
}
use k8s_runpod_kubelet.Protocol.Messages.{
  Envelope, Command, TerminateParams, DeployParams, StatusParams, new_error_response,
  new_success_response, deployed, DeployResult, command_deploy, command_terminate, command_status,
}
use k8s_runpod_kubelet.Protocol.Decode.{
  read_command, read_deploy_params, read_terminate_params, read_status_params, decode_payload,
  decode_data,
}
use k8s_runpod_kubelet.Providers.World.{World}
use k8s_runpod_kubelet.Providers.Manager.{Provider, Manager, found_provider}
use k8s_runpod_kubelet.Providers.Manager
use k8s_runpod_kubelet.Command.Handler.{
  Handler, error_response, deployment_failed, termination_failed, status_failed, handle_deploy,
  handle_terminate, handle_status, handle, handle_command, dispatch, deploy_with, deploy_outcome,
}

-- The command acts through the provider of this name, and reports its plain errors by this code.
abbrev pub Addresses : Command → String → String → Type 0
Addresses cmd provider code =
    ((params : DeployParams) × (cmd.type ≡ command_deploy)
      × (decode_data read_deploy_params cmd ≡ ok params)
      × (params.provider ≡ provider)
      × (code ≡ deployment_failed))
    ⊎ ((params : TerminateParams) × (cmd.type ≡ command_terminate)
        × (decode_data read_terminate_params cmd ≡ ok params)
        × (params.provider ≡ provider)
        × (code ≡ termination_failed))
    ⊎ ((params : StatusParams) × (cmd.type ≡ command_status)
        × (decode_data read_status_params cmd ≡ ok params)
        × (params.provider ≡ provider)
        × (code ≡ status_failed))

-- The provider fails every call with this error, whatever the parameters are.
abbrev pub Fails : World → Provider → GoError → Type 0
Fails w p e =
    ((params : DeployParams) → p.deploy w params ≡ err e)
    × ((params : TerminateParams) → p.terminate w params ≡ some e)
    × ((params : StatusParams) → p.get_status w params ≡ err e)

module _ (w : World) (m : Manager) (id : String) (cmd : Command) (x : GoError) where
  handle_deploy_failed :
      (params : DeployParams)
      → decode_data read_deploy_params cmd ≡ ok params
      → Manager.deploy w m params.provider params ≡ err x
      → handle_deploy w m id cmd ≡ error_response id deployment_failed x
  unfolding handle_deploy
  handle_deploy_failed params p f = rw p (rw f)

  handle_terminate_failed :
      (params : TerminateParams)
      → decode_data read_terminate_params cmd ≡ ok params
      → Manager.terminate w m params.provider params ≡ some x
      → handle_terminate w m id cmd ≡ error_response id termination_failed x
  unfolding handle_terminate
  handle_terminate_failed params p f = rw p (rw f)

  handle_status_failed :
      (params : StatusParams)
      → decode_data read_status_params cmd ≡ ok params
      → Manager.get_status w m params.provider params ≡ err x
      → handle_status w m id cmd ≡ error_response id status_failed x
  unfolding handle_status
  handle_status_failed params p f = rw p (rw f)

-- Every call that goes through the provider of this name fails with this error.
abbrev FailsAt : World → Manager → String → GoError → Type 0
FailsAt w m name x =
    ((params : DeployParams) → Manager.deploy w m name params ≡ err x)
    × ((params : TerminateParams) → Manager.terminate w m name params ≡ some x)
    × ((params : StatusParams) → Manager.get_status w m name params ≡ err x)

unregistered_FailsAt :
    (w : World) (m : Manager) (name : String)
    → lookup name m.providers ≡ none
    → FailsAt w m name (plain ("provider " ++ (name ++ " not found")))
unfolding Manager.deploy Manager.terminate Manager.get_status Manager.get_provider
unregistered_FailsAt w m name missing =
    (λ params. rw missing, λ params. rw missing, λ params. rw missing)

registered_FailsAt :
    (w : World) (m : Manager) (name : String) (p : Provider) (x : GoError)
    → lookup name m.providers ≡ some p
    → Fails w p x
    → FailsAt w m name x
unfolding Manager.deploy Manager.terminate Manager.get_status Manager.get_provider
registered_FailsAt w m name p x found f = (
  λ params. rw found (f.0 params),
  λ params. rw found (f.1 params),
  λ params. rw found (f.2 params),
)

module _ {ℓ} {S : Type ℓ} (w : World) (h : Handler S) (e : Envelope) (s : S) (cmd : Command) where
  pub dispatched :
      decode_payload read_command e ≡ ok cmd
      → handle_command w h e s ≡ dispatch w h e.id cmd s cmd.type
  unfolding handle_command handle
  dispatched d = rw d

  failed_outcome :
      (provider code : String) (x : GoError)
      → Addresses cmd provider code
      → FailsAt w h.manager provider x
      → dispatch w h e.id cmd s cmd.type ≡ (s, error_response e.id code x)
  unfolding dispatch
  failed_outcome provider code x (inl (params, t, p, n, c)) f =
      ap (dispatch w h e.id cmd s) t
      ∙ ap (λ r. (s, r))
          (handle_deploy_failed w h.manager e.id cmd x params p
              (subst (λ name. Manager.deploy w h.manager name params ≡ err x) (sym n) (f.0 params))
            ∙ ap (λ c'. error_response e.id c' x) (sym c))
  failed_outcome provider code x (inr (inl (params, t, p, n, c))) f =
      ap (dispatch w h e.id cmd s) t
      ∙ ap (λ r. (s, r))
          (handle_terminate_failed w h.manager e.id cmd x params p (
              subst (λ name. Manager.terminate w h.manager name params ≡ some x) (sym n)
                (f.1 params))
            ∙ ap (λ c'. error_response e.id c' x) (sym c))
  failed_outcome provider code x (inr (inr (params, t, p, n, c))) f =
      ap (dispatch w h e.id cmd s) t
      ∙ ap (λ r. (s, r))
          (handle_status_failed w h.manager e.id cmd x params p (
              subst (λ name. Manager.get_status w h.manager name params ≡ err x) (sym n)
                (f.2 params))
            ∙ ap (λ c'. error_response e.id c' x) (sym c))

  -- A command whose parameters name a provider that is not registered changes nothing; the answer
  -- is an error with the code of the command and the name that was not found.
  unregistered_provider :
      (provider code : String)
      → decode_payload read_command e ≡ ok cmd
      → Addresses cmd provider code
      → lookup provider h.manager.providers ≡ none
      → handle_command w h e s
        ≡ (s, new_error_response e.id code ("provider " ++ (provider ++ " not found")) "")
  unfolding error_response
  unregistered_provider provider code d a missing =
      dispatched d
      ∙ failed_outcome provider code _ a (unregistered_FailsAt w h.manager provider missing)

  -- Where the provider that the parameters name fails with a provider error, the answer carries the
  -- error's own code, or the code of the command where it has none, its full text and its message.
  pub provider_error_surfaces :
      (provider code : String) (p : Provider) (x : ProviderError)
      → decode_payload read_command e ≡ ok cmd
      → Addresses cmd provider code
      → lookup provider h.manager.providers ≡ some p
      → Fails w p (from_provider x)
      → handle_command w h e s ≡ (
        s,
        new_error_response e.id
            (if x.code == "" then code else x.code)
            (provider_error_text x)
            x.message,
      )
  unfolding error_response
  provider_error_surfaces provider code p x d a found f =
      dispatched d
      ∙ failed_outcome provider code _ a
          (registered_FailsAt w h.manager provider p (from_provider x) found f)

-- The result of a deploy with the provider of the command filled in, if it names none.
abbrev pub named_result : DeployParams → DeployResult → DeployResult
named_result params r = record r {
  provider = if r.provider == "" then params.provider else r.provider;
}

module _ {ℓ} {S : Type ℓ} (w : World) (h : Handler S) (e : Envelope) (s : S) (cmd : Command) where
  -- A deploy command that its provider carries out.
  pub deploy_succeeds :
      (params : DeployParams) (p : Provider) (r : DeployResult)
      → decode_payload read_command e ≡ ok cmd
      → cmd.type ≡ command_deploy
      → decode_data read_deploy_params cmd ≡ ok params
      → lookup params.provider h.manager.providers ≡ some p
      → p.deploy w params ≡ ok r
      → handle_command w h e s ≡ (s, new_success_response e.id (deployed (named_result params r)))
  unfolding dispatch handle_deploy Manager.deploy Manager.get_provider
  deploy_succeeds params p r d t q found f =
      dispatched w h e s cmd d
      ∙ ap (dispatch w h e.id cmd s) t
      ∙ ap (λ x. (s, deploy_with w h.manager e.id x)) q
      ∙ ap (λ x. (s, deploy_outcome e.id params (x >>= (λ (p' : Provider). p'.deploy w params))))
          (ap (found_provider params.provider) found)
      ∙ ap (λ x. (s, deploy_outcome e.id params x)) f
