-- ===== src/VirtualKubelet/Refinement.antt =====
-- The kubelet refines the views of its pods: every operation changes them as the change it asks for
-- says, and GetPodStatus reports them.
use mathlib.Core.Path.{fun_ext}
use Prim.Native.String.{◌++◌}
use k8s_runpod_kubelet.Base.{
  String, List, [], ◌∷◌, Option, none, some, is_some, lookup, ◌≡◌, refl, sym, ap, ◌∙◌, inl, inr,
  Result, ok, err, GoError, ◌==◌, text_cases, eq_false, Option-cases, if_both, if◌then◌else◌,
}
use k8s_runpod_kubelet.Kubernetes.{Pod}
use k8s_runpod_kubelet.Protocol.Messages.{
  Envelope, Command, Response, ResponseData, deployed, DeployParams, DeployResult, RejectParams,
  command_deploy, command_reject, is_success,
}
use k8s_runpod_kubelet.Protocol.Decode.{
  read_command, read_reject_params, decode_payload, decode_data,
}
use k8s_runpod_kubelet.Providers.World.{World}
use k8s_runpod_kubelet.Providers.Manager.{Provider}
use k8s_runpod_kubelet.Config.Settings.{Config}
use k8s_runpod_kubelet.Command.Handler.{handle_command, dispatch}
use k8s_runpod_kubelet.Command.Handler
use k8s_runpod_kubelet.Command.Effects.{
  undecoded, not_reject, rejected_state, undecoded_state, dispatch-reject,
}
use k8s_runpod_kubelet.Command.Routing.{dispatched}
use k8s_runpod_kubelet.WsClient.Link.{Link, send_registration, take_command}
use k8s_runpod_kubelet.VirtualKubelet.State.{Kubelet, PodInstanceInfo, notify_pods, notify_backend}
use k8s_runpod_kubelet.VirtualKubelet.Status.{status_of, instance_status, get_pod_status}
use k8s_runpod_kubelet.VirtualKubelet.Commands.{
  handle_reject, handler, book_params, book_command, book_body, book_response, process_command,
  process_taken, process_next,
}
use k8s_runpod_kubelet.VirtualKubelet.Setup.{new_provider, registered, register_with_backend}
use k8s_runpod_kubelet.VirtualKubelet.System.{
  Op, creates, updates, deletes, processes, sets_callback, registers, network, apply, run,
}
use k8s_runpod_kubelet.VirtualKubelet.Invariant.{Inv}
use k8s_runpod_kubelet.VirtualKubelet.Preservation.{
  apply-Inv, run-Inv, new_provider_made, new_provider-Inv,
}
use k8s_runpod_kubelet.VirtualKubelet.Observed.{instance_status-unreported}
use k8s_runpod_kubelet.VirtualKubelet.View.{
  absent, pending, rejected, report, verdict, change, replay, refusal_of, change_of, first_change,
  change_by, changes, view_of, view,
}
use k8s_runpod_kubelet.VirtualKubelet.Views.{
  view-handle_deployment_success, view-handle_reject, view-create_pod, view-update_pod,
  view-delete_pod, view-maps,
}

-- The bookkeeping after a response changes no view.
module _ (k : Kubelet) (e : Envelope) (j : String) where
  view-book_params :
      (r : DeployResult) (p : Result DeployParams) → view (book_params k r p) j ≡ view k j
  view-book_params r (err x) = refl
  view-book_params r (ok p) = view-handle_deployment_success k p r j

  view-book_command :
      (r : DeployResult) (c : Result Command) → view (book_command k r c) j ≡ view k j
  view-book_command r (err x) = refl
  view-book_command r (ok cmd) =
      if_both (λ t. view t j ≡ view k j) (cmd.type == command_deploy) _ _ (view-book_params r _)
        refl

  view-book_body : (d : ResponseData) → view (book_body k e d) j ≡ view k j
  view-book_body (deployed r) = view-book_command r (decode_payload read_command e)
  view-book_body d = refl

  view-book_response : (r : Response) → view (book_response k e r) j ≡ view k j
  unfolding book_response
  view-book_response r =
      if_both (λ t. view t j ≡ view k j) (is_success r.status) _ _ (view-book_body r.body) refl

module _ (w : World) (k : Kubelet) (e : Envelope) (j : String) where
  handle_reject_state :
      (cmd : Command) (d : Result RejectParams)
      → decode_data read_reject_params cmd ≡ d
      → view (Handler.handle_reject (handler k) e.id cmd k).0 j ≡ change (refusal_of d) (view k) j
  unfolding change
  handle_reject_state cmd (err x) q = ap (λ t. view t j) (undecoded_state w (handler k) e k cmd x q)
  handle_reject_state cmd (ok p) q =
      ap (λ t. view t j) (rejected_state w (handler k) e k cmd handle_reject p q refl)
      ∙ view-handle_reject p k j

  view-dispatch :
      (cmd : Command)
      → view (dispatch w (handler k) e.id cmd k cmd.type).0 j
        ≡ change (change_of (ok cmd)) (view k) j
  unfolding change
  view-dispatch cmd = elim (text_cases cmd.type command_reject) [
    | inl (t, b) ↦ rw b (
        ap (λ s. view s.0 j)
          (ap (dispatch w (handler k) e.id cmd k) t ∙ dispatch-reject w (handler k) e k cmd)
        ∙ handle_reject_state cmd _ refl)
    | inr (n, b) ↦ rw b (ap (λ t. view t j) (not_reject w (handler k) e k cmd cmd.type n))
  ]

  view-handle_command :
      (c : Result Command)
      → decode_payload read_command e ≡ c
      → view (handle_command w (handler k) e k).0 j ≡ change (change_of c) (view k) j
  unfolding change
  view-handle_command (err x) q = ap (λ t. view t j) (undecoded w (handler k) e k x q)
  view-handle_command (ok cmd) q =
      ap (λ s. view s.0 j) (dispatched w (handler k) e k cmd q) ∙ view-dispatch cmd

  view-process_command :
      view (process_command w k e) j ≡ change (change_of (decode_payload read_command e)) (view k) j
  unfolding process_command
  view-process_command =
      let (k1, response) = handle_command w (handler k) e k in
      view-maps (book_response k1 e response) _ j refl refl
      ∙ view-book_response k1 e j response
      ∙ view-handle_command _ refl

view-process_next :
    (w : World) (k : Kubelet) (j : String) (es : List Envelope)
    → k.ws_client.link.commands ≡ es
    → view (process_next w k) j ≡ change (first_change es) (view k) j
unfolding process_next process_taken take_command change view
view-process_next w k j [] q = rw (q) refl
view-process_next w k j (e ∷ rest) q = rw q (view-process_command w _ e j)

view-registered :
    (k : Kubelet) (t : Link × Option GoError) (j : String) → view (registered k t) j ≡ view k j
unfolding registered notify_backend
view-registered k (l, some x) j = view-maps k _ j refl refl
view-registered k (l, none) j = view-maps k _ j refl refl

no_instance :
    (k : Kubelet) (j : String) → Inv k → lookup j k.pods ≡ none → lookup j k.pod_status ≡ none
no_instance k j v h = elim (Option-cases (lookup j k.pod_status)) [
  | inl p ↦ p
  | inr (info, p) ↦ cc (v.tracked j (ap is_some p), ap is_some h)
]

-- In a state that holds the invariant, an operation changes the views as the change it asks for.
view-apply :
    (k : Kubelet) (op : Op) (j : String)
    → Inv k
    → view (apply k op) j ≡ change (change_by k op) (view k) j
unfolding apply change_by change notify_pods register_with_backend
view-apply k (creates now pod) j v = view-create_pod now k pod j
view-apply k (updates pod) j v = view-update_pod k pod j (no_instance k j v)
view-apply k (deletes pod) j v = view-delete_pod k pod j
view-apply k (processes w) j v = view-process_next w k j _ refl
view-apply k sets_callback j v = view-maps k _ j refl refl
view-apply k registers j v = view-registered k (send_registration k.ws_client.link _) j
view-apply k (network e) j v = view-maps k _ j refl refl

view-run :
    (k : Kubelet) (ops : List Op) (j : String)
    → Inv k
    → view (run k ops) j ≡ replay (changes k ops) (view k) j
unfolding run changes replay
view-run k [] j v = refl
view-run k (op ∷ ops) j v =
    view-run (apply k op) ops j (apply-Inv k op v)
    ∙ ap (λ f. replay (changes (apply k op) ops) f j) (fun_ext (λ i. view-apply k op i v))

status_of-view :
    (o : Option Pod) (i : Option PodInstanceInfo)
    → ((info : PodInstanceInfo) → i ≡ some info → info.status_result ≡ none)
    → status_of o i ≡ report (view_of (is_some o) i)
unfolding status_of report instance_status
status_of-view none i u = refl
status_of-view (some pod) none u = refl
status_of-view (some pod) (some info) u = elim (instance_status-unreported pod info (u info refl)) [
  | inl (e, r) ↦ r ∙ ap (λ c. report (verdict c info.reject_message)) (sym e)
  | inr (n, r) ↦
      r
      ∙ sym (
          ap (λ b. report (if b then pending else rejected info.reject_code info.reject_message))
            (eq_false info.reject_code "" n))
]

-- GetPodStatus refines an abstract bookkeeping that knows of each key one of four things: no such
-- pod, a pod never created here, a pending pod, or a pod rejected with a code and a message. From a
-- new kubelet on, after any operations in any order, GetPodStatus reports what the abstract
-- bookkeeping, started with no pods, knows of the key after the changes that the operations ask
-- for: a creation makes its pod pending, an update makes an absent pod known, a deletion makes its
-- pod absent, and a round of processCommands that takes a reject command whose data decodes marks
-- the pod it names, if that pod was created, as rejected, or as pending where the code is empty.
-- Every other operation asks for no change, deploy commands and events of the connection included.
pub get_pod_status-replay :
    (cfg : Config) (node ip : String) (client : Provider) (k : Kubelet) (ops : List Op)
    (namespace name : String)
    → new_provider cfg node ip client ≡ ok k
    → get_pod_status (run k ops) namespace name
      ≡ report (replay (changes k ops) (λ _. absent) (namespace ++ ("/" ++ name)))
unfolding get_pod_status view lookup
get_pod_status-replay cfg node ip client k ops namespace name h =
    let v = new_provider-Inv cfg node ip client k h in
    let key = namespace ++ ("/" ++ name) in
    let now = run k ops in
    let (m, made) = new_provider_made cfg node ip client k h in
    let none_known : (j : String) → view k j ≡ absent = λ j. ap (λ t. view t j) (sym made) in
    status_of-view (lookup key now.pods) (lookup key now.pod_status)
      ((run-Inv k ops v).unreported key)
    ∙ ap report (view-run k ops key v)
    ∙ ap (λ f. report (replay (changes k ops) f key)) (fun_ext none_known)
