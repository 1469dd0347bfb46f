-- ===== src/Tests/Sections.antt =====
-- Goroutines that interleave.
use mathlib.Core.List.Permᴰ.{swap}
use k8s_runpod_kubelet.Base.{
  true, arith, List, [], ◌∷◌, ◌++◌, All, Dict, some, none, ◌≡◌, ◌↔◌, refl, ok, err, plain, lookup,
  insert,
}
use k8s_runpod_kubelet.Protocol.Json.{null}
use k8s_runpod_kubelet.Protocol.Messages.{
  Envelope, Response, envelope_response, new_success_response, deployed,
}
use k8s_runpod_kubelet.Protocol.Decode.{decode_payload}
use k8s_runpod_kubelet.Protocol.Wire.{Stamped, parse_envelope}
use k8s_runpod_kubelet.Protocol.Payloads.{write_frame}
use k8s_runpod_kubelet.Protocol.Replies.{Received, read_response}
use k8s_runpod_kubelet.Providers.Manager.{
  Manager, Provider, new_manager, register_provider, ping_all, health_check,
}
use k8s_runpod_kubelet.Providers.Pings.{write_results, pinged, healthy, ping_all_any_order}
use k8s_runpod_kubelet.Config.Settings.{is_provider_enabled}
use k8s_runpod_kubelet.WsClient.Config.{default_client_config}
use k8s_runpod_kubelet.WsClient.Link.{Link, new_client}
use k8s_runpod_kubelet.WsClient.Loop.{Loop, dial_succeeds, start}
use k8s_runpod_kubelet.WsClient.Moves.{Move, at_wait, at_dial, Leads, Move_iff}
use k8s_runpod_kubelet.WsClient.Typed.{IsTyped}
use k8s_runpod_kubelet.VirtualKubelet.State.{Kubelet, get_pod, created_event}
use k8s_runpod_kubelet.VirtualKubelet.Status.{failed, get_pod_status}
use k8s_runpod_kubelet.VirtualKubelet.Commands.{process_next}
use k8s_runpod_kubelet.VirtualKubelet.Setup.{
  initial, new_provider, initialize_providers, init_loop, init_provider,
}
use k8s_runpod_kubelet.VirtualKubelet.System.{deletes, apply, run}
use k8s_runpod_kubelet.VirtualKubelet.Onboarding.{Onboards, dial_ops, run-dial_ops}
use k8s_runpod_kubelet.VirtualKubelet.Emissions.{Emits, apply-Emits}
use k8s_runpod_kubelet.VirtualKubelet.Invariant.{Inv}
use k8s_runpod_kubelet.VirtualKubelet.Sections.{
  Section, stores, announces, removes, handles, books, responds, beats, link_event, enter_all,
}
use k8s_runpod_kubelet.VirtualKubelet.Interleavings.{enter_all-new_provider-Inv}
use k8s_runpod_kubelet.VirtualKubelet.Removal.{enter_all-removes}
use k8s_runpod_kubelet.VirtualKubelet.Typed.{enter_all-IsTyped}
use k8s_runpod_kubelet.VirtualKubelet.Draining.{frame_of, received}
use k8s_runpod_kubelet.VirtualKubelet.Answered.{Answers, process_next-Answers}
use k8s_runpod_kubelet.Tests.Wire.{clock, noon, noon-IsWritable}
use k8s_runpod_kubelet.Scenarios.{
  world, working, failing, manager_of, data_of, envelope_of, deploy_result, pod, config,
}

abbrev fresh : Kubelet
fresh = initial config "node" "10.0.0.1" (manager_of working)

abbrev deploy_web : Envelope
deploy_web = envelope_of "c1" "deploy" (data_of "runpod")

abbrev done_web : Response
unfolding new_success_response
done_web = new_success_response "c1" (deployed deploy_result)

-- The pod is deleted between the deploy and its booking.
abbrev in_flight : List Section
in_flight =
    stores 0 pod
    ∷ handles world deploy_web
    ∷ announces (created_event pod)
    ∷ removes pod
    ∷ books deploy_web done_web
    ∷ responds done_web
    ∷ []

enter_all-new_provider-Inv_example : Inv (enter_all fresh in_flight)
unfolding new_provider initialize_providers init_loop init_provider register_provider new_manager
    insert lookup is_provider_enabled
enter_all-new_provider-Inv_example =
    enter_all-new_provider-Inv config "node" "10.0.0.1" working fresh in_flight refl

enter_all-removes_example :
    let t =
      enter_all
        (enter_all fresh (stores 0 pod ∷ handles world deploy_web ∷ []))
        (removes pod ∷ books deploy_web done_web ∷ responds done_web ∷ []) in
    (get_pod t "default" "web" ≡ err (plain "pod not found"))
    × (get_pod_status t "default" "web" ≡ failed (plain "pod not found"))
enter_all-removes_example =
    enter_all-removes (enter_all fresh (stores 0 pod ∷ handles world deploy_web ∷ [])) pod
      (books deploy_web done_web ∷ responds done_web ∷ []) (tt, (tt, tt))

-- A kubelet that is connected, with a command to process.
abbrev busy : Kubelet
busy = record fresh { ws_client = record client { link = link } }
  where
    client : Loop
    client = fresh.ws_client

    link : Link
    link = record (new_client default_client_config) {
      connected = true;
      commands = deploy_web ∷ [];
    }

abbrev beating : List Section
beating = link_event dial_succeeds ∷ beats ∷ announces (created_event pod) ∷ []

enter_all-IsTyped_example :
    All (IsTyped config.backend_api_key) (enter_all fresh beating).ws_client.link.outbound
unfolding new_provider initialize_providers init_loop init_provider register_provider new_manager
    insert lookup is_provider_enabled
enter_all-IsTyped_example =
    enter_all-IsTyped config "node" "10.0.0.1" working fresh beating refl (tt, (tt, (tt, tt)))

-- Two providers, whose goroutines end in the other order.
abbrev two : Manager
two = record { providers = ("runpod", working) ∷ ("vastai", failing) ∷ [] }

abbrev other_order : Dict Provider
other_order = ("vastai", failing) ∷ ("runpod", working) ∷ []

ping_all_any_order_example :
    (lookup "vastai" (write_results world other_order []) ≡ pinged world (some failing) none)
    × (lookup "vastai" (ping_all world two) ≡ pinged world (some failing) none)
    × (lookup "vastai" (health_check world two) ≡ healthy world (some failing))
unfolding lookup
ping_all_any_order_example =
    ping_all_any_order world two other_order "vastai" (refl, (refl, tt)) (swap refl refl)

Move_iff_example : Move at_wait at_dial ↔ Leads default_client_config at_wait at_dial
Move_iff_example = Move_iff default_client_config at_wait at_dial

-- A printer that forgets its value, with the parser that knows the one value there is.
process_next-Answers_example :
    let f = frame_of world (received busy []) deploy_web in
    let out = write_frame (λ p. null) clock noon "id-1" f in
    (s : Stamped _) × (x : Received) × ((process_next world busy).ws_client.link
      ≡ record busy.ws_client.link { commands = []; outbound = [] ++ f ∷ [] })
    × (parse_envelope clock (λ t. some out) "{}" ≡ ok s)
    × (s.envelope.type ≡ envelope_response)
    × (decode_payload read_response s.envelope ≡ ok x)
    × Answers "c1" x
unfolding new_client
process_next-Answers_example =
    let out =
      write_frame (λ p. null) clock noon "id-1" (frame_of world (received busy []) deploy_web) in
    process_next-Answers clock (λ p. null) noon "id-1" (λ t. some out) (λ j. "{}") world busy
      deploy_web [] refl refl (omega arith) noon-IsWritable refl

apply-Emits_example : Emits busy (deletes pod) (apply busy (deletes pod))
apply-Emits_example = apply-Emits busy (deletes pod)

run-dial_ops_example : Onboards fresh none (run fresh (dial_ops none))
unfolding start
run-dial_ops_example = run-dial_ops fresh none refl
