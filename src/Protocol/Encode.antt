-- ===== src/Protocol/Encode.antt =====
-- pkg/websocket/protocol.go: json.Marshal of the commands' data, by the tags of the structs, and
-- NewCommand. Marshalling a value of these types does not fail.
use k8s_runpod_kubelet.Base.{String, [], ◌∷◌, Option, none, some}
use k8s_runpod_kubelet.Protocol.Json.{Json, null, str, obj}
use k8s_runpod_kubelet.Protocol.Slots.{
  Slots, fields_of, text_slot, int_slot, float_slot, texts_slot, dict_slot,
}
use k8s_runpod_kubelet.Protocol.Messages.{
  Command, DeployParams, TerminateParams, StatusParams, RejectParams,
}

abbrev pub deploy_slots : DeployParams → Slots
deploy_slots p =
    ("pod_name", some (str p.pod_name))
    ∷ ("namespace", some (str p.namespace))
    ∷ ("provider", some (str p.provider))
    ∷ ("api_key", text_slot p.api_key)
    ∷ ("image", some (str p.image))
    ∷ ("name", some (str p.name))
    ∷ ("env", dict_slot p.env)
    ∷ ("ports", texts_slot p.ports)
    ∷ ("container_disk_in_gb", int_slot p.container_disk_in_gb)
    ∷ ("volume_in_gb", int_slot p.volume_in_gb)
    ∷ ("gpu_type_ids", texts_slot p.gpu_type_ids)
    ∷ ("gpu_count", int_slot p.gpu_count)
    ∷ ("min_ram_per_gpu", int_slot p.min_ram_per_gpu)
    ∷ ("cloud_type", text_slot p.cloud_type)
    ∷ ("datacenter_ids", texts_slot p.datacenter_ids)
    ∷ ("template_id", text_slot p.template_id)
    ∷ ("container_auth_id", text_slot p.container_auth_id)
    ∷ ("max_price", float_slot p.max_price)
    ∷ ("command", texts_slot p.command)
    ∷ ("args", texts_slot p.args)
    ∷ []

unfoldable pub write_deploy_params : DeployParams → Json
unfolding fields_of
write_deploy_params p = obj (fields_of (deploy_slots p))

abbrev pub terminate_slots : TerminateParams → Slots
terminate_slots p =
    ("pod_name", some (str p.pod_name))
    ∷ ("namespace", some (str p.namespace))
    ∷ ("provider", some (str p.provider))
    ∷ ("provider_pod_id", some (str p.provider_pod_id))
    ∷ ("api_key", text_slot p.api_key)
    ∷ []

unfoldable pub write_terminate_params : TerminateParams → Json
unfolding fields_of
write_terminate_params p = obj (fields_of (terminate_slots p))

abbrev pub status_slots : StatusParams → Slots
status_slots p =
    ("pod_name", some (str p.pod_name))
    ∷ ("namespace", some (str p.namespace))
    ∷ ("provider", some (str p.provider))
    ∷ ("provider_pod_id", some (str p.provider_pod_id))
    ∷ ("api_key", text_slot p.api_key)
    ∷ []

unfoldable pub write_status_params : StatusParams → Json
unfolding fields_of
write_status_params p = obj (fields_of (status_slots p))

abbrev pub reject_slots : RejectParams → Slots
reject_slots p =
    ("pod_name", some (str p.pod_name))
    ∷ ("namespace", some (str p.namespace))
    ∷ ("code", some (str p.code))
    ∷ ("message", some (str p.message))
    ∷ ("upgrade_url", text_slot p.upgrade_url)
    ∷ []

unfoldable pub write_reject_params : RejectParams → Json
unfolding fields_of
write_reject_params p = obj (fields_of (reject_slots p))

-- NewCommand, of the marshalled data
unfoldable pub new_command : String → Json → Command
new_command type j = record { type = type; body = some j }

-- json.Marshal of a Command; a json.RawMessage that is nil is written as null
abbrev data_slot : Option Json → Option Json
data_slot none = some null
data_slot (some j) = some j

unfoldable pub write_command : Command → Json
unfolding fields_of
write_command c = obj (fields_of (("type", some (str c.type)) ∷ ("data", data_slot c.body) ∷ []))
