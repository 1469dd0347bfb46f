-- ===== src/Protocol/Payloads.antt =====
-- pkg/websocket/protocol.go: json.Marshal of the payloads that the kubelet sends, by the tags of their
-- structs, and the frame around them. How Kubernetes marshals a pod is a parameter.
use k8s_runpod_kubelet.Base.{String, [], ◌∷◌, Option, none, some, Dict}
use k8s_runpod_kubelet.Kubernetes.{Pod}
use k8s_runpod_kubelet.Protocol.Json.{
  Json, null, bool, num, str, arr, obj, end, json_int, json_strings, json_dict,
}
use k8s_runpod_kubelet.Protocol.Slots.{Slots, fields_of, text_slot, dict_slot}
use k8s_runpod_kubelet.Protocol.Messages.{
  Response, ResponseData, ResponseStatus, ErrorDetails, DeployResult, TerminateResult, StatusResult,
  success, error, unset, empty, deployed, terminated, reported,
}
use k8s_runpod_kubelet.Protocol.Events.{
  Event, PodCreatedEvent, PodDeletedEvent, pod_created, pod_deleted, kubelet_ready, Registration,
  RegistrationMetadata, Heartbeat, Payload, response, event, registration, heartbeat, Frame,
}
use k8s_runpod_kubelet.Protocol.Wire.{
  TimePackage, Stamped, write_timestamp, new_envelope_with_id, write_envelope,
}

abbrev pub error_slots : ErrorDetails → Slots
error_slots e =
    ("code", some (str e.code))
    ∷ ("message", some (str e.message))
    ∷ ("provider_error", text_slot e.provider_error)
    ∷ []

abbrev pub write_error : Option ErrorDetails → Json
write_error none = null
write_error (some e) = obj (fields_of (error_slots e))

-- A map that is nil and one that is empty are both dropped.
abbrev pub deploy_result_slots : DeployResult → Slots
deploy_result_slots r =
    ("provider_pod_id", some (str r.provider_pod_id))
    ∷ ("provider", some (str r.provider))
    ∷ ("status", some (str r.status))
    ∷ ("cost_per_hour", some (num r.cost_per_hour))
    ∷ ("gpu_type", text_slot r.gpu_type)
    ∷ ("machine_id", text_slot r.machine_id)
    ∷ ("datacenter_id", text_slot r.datacenter_id)
    ∷ ("ports", dict_slot (some r.ports))
    ∷ []

abbrev pub terminate_result_slots : TerminateResult → Slots
terminate_result_slots r = ("terminated", some (bool r.terminated)) ∷ []

abbrev pub status_result_slots : StatusResult → Slots
status_result_slots r =
    ("pod_name", some (str r.pod_name))
    ∷ ("provider_pod_id", some (str r.provider_pod_id))
    ∷ ("provider", some (str r.provider))
    ∷ ("status", some (str r.status))
    ∷ ("phase", some (str r.phase))
    ∷ ("is_running", some (bool r.is_running))
    ∷ ("is_terminated", some (bool r.is_terminated))
    ∷ ("exit_code", some (json_int r.exit_code))
    ∷ ("message", text_slot r.message)
    ∷ []

-- the value in the interface{} of Response.Data
unfoldable pub write_data : ResponseData → Json
write_data unset = null
write_data empty = obj end
write_data (deployed r) = obj (fields_of (deploy_result_slots r))
write_data (terminated r) = obj (fields_of (terminate_result_slots r))
write_data (reported r) = obj (fields_of (status_result_slots r))

abbrev pub status_text : ResponseStatus → String
status_text success = "success"
status_text error = "error"

abbrev pub response_slots : Response → Slots
response_slots r =
    ("command_id", some (str r.command_id))
    ∷ ("status", some (str (status_text r.status)))
    ∷ ("data", some (write_data r.body))
    ∷ ("error", some (write_error r.error))
    ∷ []

unfoldable pub write_response : Response → Json
write_response r = obj (fields_of (response_slots r))

-- An empty map stands for the nil map, which a pod without annotations has: `null`.
abbrev pub annotations_json : Dict String → Json
annotations_json [] = null
annotations_json (a ∷ m) = json_dict (some (a ∷ m))

abbrev pub deleted_slots : PodDeletedEvent → Slots
deleted_slots d =
    ("pod_name", some (str d.pod_name))
    ∷ ("namespace", some (str d.namespace))
    ∷ ("uid", some (str d.uid))
    ∷ ("provider_pod_id", text_slot d.provider_pod_id)
    ∷ ("reason", some (str d.reason))
    ∷ []

abbrev pub metadata_slots : RegistrationMetadata → Slots
metadata_slots m =
    ("version", some (str m.version))
    ∷ ("internal_ip", some (str m.internal_ip))
    ∷ ("key_mode", some (str m.key_mode))
    ∷ []

abbrev pub registration_slots : Registration → Slots
registration_slots r =
    ("id", some (str r.id))
    ∷ ("type", some (str r.type))
    ∷ ("cluster_name", some (str r.cluster_name))
    ∷ ("node_name", some (str r.node_name))
    ∷ ("namespace", some (str r.namespace))
    ∷ ("capabilities", some (arr (json_strings r.capabilities)))
    ∷ ("metadata", some (obj (fields_of (metadata_slots r.metadata))))
    ∷ []

abbrev pub event_pod_created : String
event_pod_created = "pod_created"

abbrev pub event_pod_deleted : String
event_pod_deleted = "pod_deleted"

abbrev pub event_kubelet_ready : String
event_kubelet_ready = "kubelet_ready"

-- EventType of an event
abbrev pub event_type : Event → String
event_type (pod_created d) = event_pod_created
event_type (pod_deleted d) = event_pod_deleted
event_type (kubelet_ready n) = event_kubelet_ready

module _ (write_pod : Pod → Json) where
  abbrev pub created_slots : PodCreatedEvent → Slots
  created_slots d =
      ("pod_name", some (str d.pod_name))
      ∷ ("namespace", some (str d.namespace))
      ∷ ("uid", some (str d.uid))
      ∷ ("pod_spec", some (write_pod d.pod_spec))
      ∷ ("annotations", some (annotations_json d.annotations))
      ∷ []

  unfoldable pub event_data : Event → Json
  event_data (pod_created d) = obj (fields_of (created_slots d))
  event_data (pod_deleted d) = obj (fields_of (deleted_slots d))
  event_data (kubelet_ready n) = obj (fields_of (("node_name", some (str n)) ∷ []))

  abbrev pub event_slots : Event → Slots
  event_slots e = ("type", some (str (event_type e))) ∷ ("data", some (event_data e)) ∷ []

  module _ {Time : Type 0} (clock : TimePackage Time) (now : Time) where
    -- The time of a heartbeat is that of NewHeartbeat, which the model takes as that of the frame.
    abbrev pub heartbeat_slots : Heartbeat → Slots
    heartbeat_slots h =
        ("timestamp", some (write_timestamp clock now now))
        ∷ ("kubelet_id", some (str h.kubelet_id))
        ∷ ("status", some (str h.status))
        ∷ []

    unfoldable pub write_payload : Payload → Json
    write_payload (response r) = write_response r
    write_payload (event e) = obj (fields_of (event_slots e))
    write_payload (registration r) = obj (fields_of (registration_slots r))
    write_payload (heartbeat h) = obj (fields_of (heartbeat_slots h))

    -- The envelope of a frame, with the id that uuid gives it.
    unfoldable pub envelope_of : (id : String) → Frame → Stamped Time
    envelope_of id f =
        new_envelope_with_id clock id f.type (write_payload f.payload) f.kubelet_id now

    -- What goes out for a frame, up to the printing of the value.
    unfoldable pub write_frame : (id : String) → Frame → Json
    write_frame id f = write_envelope clock now (envelope_of id f)
