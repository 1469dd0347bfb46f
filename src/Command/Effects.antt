-- ===== src/Command/Effects.antt =====
-- Which commands change the state of the owner of the reject callback.
use mathlib.Core.Path.{subst}
use k8s_runpod_kubelet.Base.{
  String, sym, ap, if_both, Result-cases, Option-cases, ◌∙◌, Option, none, some, ◌≡◌, refl, ◌≢◌,
  ◌⊎◌, inl, inr, ◌==◌, eq_false, text_cases, ok, err, GoError,
}
use k8s_runpod_kubelet.Protocol.Messages.{
  Envelope, Command, Response, RejectParams, command_deploy, command_terminate, command_status,
  command_ping, command_reject,
}
use k8s_runpod_kubelet.Protocol.Decode.{
  read_command, read_reject_params, decode_payload, decode_data,
}
use k8s_runpod_kubelet.Providers.World.{World}
use k8s_runpod_kubelet.Command.Handler.{
  Handler, RejectFunc, handle_reject, apply_reject, handle_command, dispatch, reject_outcome,
}
use k8s_runpod_kubelet.Command.Routing.{dispatched}

-- The command is one that changes the state of the owner of the reject callback.
abbrev pub Rejects {ℓ} : {S : Type ℓ} → Handler S → Envelope → RejectFunc S → RejectParams → Type ℓ
Rejects h e f params =
    (cmd : Command) × (decode_payload read_command e ≡ ok cmd)
    × (cmd.type ≡ command_reject)
    × (decode_data read_reject_params cmd ≡ ok params)
    × (h.reject_func ≡ some f)

module _ {ℓ} {S : Type ℓ} (w : World) (h : Handler S) (e : Envelope) (s : S) where
  -- What can become of the state: nothing, or what the callback makes of it.
  abbrev pub Outcome : S × Response → Type ℓ
  Outcome r =
      (r.0 ≡ s)
      ⊎ ((f : RejectFunc S) × (params : RejectParams) × Rejects h e f params
          × (r.0 ≡ (f params s).0))

  pub not_reject :
      (cmd : Command) (kind : String) → kind ≢ command_reject → (dispatch w h e.id cmd s kind).0 ≡ s
  unfolding dispatch
  not_reject cmd kind n = rw (eq_false kind command_reject n) (
      if_both P (kind == command_deploy) _ _ refl (
        if_both P (kind == command_terminate) _ _ refl (
          if_both P (kind == command_status) _ _ refl
            (if_both P (kind == command_ping) _ _ refl refl))))
    where
      P : S × Response → Type ℓ
      P r = r.0 ≡ s

  outcome_state : (id : String) (r : S × Option GoError) → (reject_outcome id r).0 ≡ r.0
  outcome_state id (t, none) = refl
  outcome_state id (t, some x) = refl

  pub rejected_state :
      (cmd : Command) (f : RejectFunc S) (params : RejectParams)
      → decode_data read_reject_params cmd ≡ ok params
      → h.reject_func ≡ some f
      → (handle_reject h e.id cmd s).0 ≡ (f params s).0
  unfolding handle_reject
  rejected_state cmd f params p q = rw p (rw (q, apply_reject) (outcome_state e.id (f params s)))

  kept_state :
      (cmd : Command) (params : RejectParams)
      → decode_data read_reject_params cmd ≡ ok params
      → h.reject_func ≡ none
      → (handle_reject h e.id cmd s).0 ≡ s
  unfolding handle_reject
  kept_state cmd params p q = rw p (rw (q, apply_reject))

  pub undecoded_state :
      (cmd : Command) (x : GoError)
      → decode_data read_reject_params cmd ≡ err x
      → (handle_reject h e.id cmd s).0 ≡ s
  unfolding handle_reject
  undecoded_state cmd x p = rw p

  rejected :
      (cmd : Command)
      → decode_payload read_command e ≡ ok cmd
      → cmd.type ≡ command_reject
      → Outcome (handle_reject h e.id cmd s)
  rejected cmd d t = elim (Result-cases (decode_data read_reject_params cmd)) [
    | inr (x, p) ↦ inl (undecoded_state cmd x p)
    | inl (params, p) ↦ elim (Option-cases h.reject_func) [
      | inl q ↦ inl (kept_state cmd params p q)
      | inr (f, q) ↦ inr (f, params, (cmd, d, t, p, q), rejected_state cmd f params p q)
    ]
  ]

  pub dispatch-reject :
      (cmd : Command) → dispatch w h e.id cmd s command_reject ≡ handle_reject h e.id cmd s
  unfolding dispatch
  dispatch-reject cmd = refl

  pub undecoded :
      (x : GoError) → decode_payload read_command e ≡ err x → (handle_command w h e s).0 ≡ s
  unfolding handle_command
  undecoded x p = rw p

  -- Handling a command leaves the state as it was, unless it is a reject command whose data decodes
  -- and a callback is set: then the state is what the callback returns for these parameters.
  pub handle_command-state : Outcome (handle_command w h e s)
  handle_command-state = elim (Result-cases (decode_payload read_command e)) [
    | inr (x, p) ↦ inl (undecoded x p)
    | inl (cmd, p) ↦ elim (text_cases cmd.type command_reject) [
      | inr (n, _) ↦ inl (ap (λ r. r.0) (dispatched w h e s cmd p) ∙ not_reject cmd cmd.type n)
      | inl (t, _) ↦
          subst Outcome
            (sym (dispatched w h e s cmd p ∙ ap (dispatch w h e.id cmd s) t ∙ dispatch-reject cmd))
            (rejected cmd p t)
    ]
  ]
