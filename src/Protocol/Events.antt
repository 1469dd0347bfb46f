-- ===== src/Protocol/Events.antt =====
-- pkg/websocket/protocol.go: what the kubelet sends. A frame is an outgoing Envelope; its fresh id
-- and its time stamp are left out, and its payload stands as the value that is marshalled.
use k8s_runpod_kubelet.Base.{String, List, Dict}
use k8s_runpod_kubelet.Kubernetes.{Pod}
use k8s_runpod_kubelet.Protocol.Messages.{Response}

pub record PodCreatedEvent : Type 0 where
  pub pod_name : String
  pub namespace : String
  pub uid : String
  pub pod_spec : Pod
  pub annotations : Dict String

pub record PodDeletedEvent : Type 0 where
  pub pod_name : String
  pub namespace : String
  pub uid : String
  pub provider_pod_id : String
  pub reason : String

-- The events that the program sends, each with the data of its type.
pub data Event : Type 0 where
  pod_created : PodCreatedEvent → Event
  pod_deleted : PodDeletedEvent → Event
  kubelet_ready : (node_name : String) → Event

pub record RegistrationMetadata : Type 0 where
  pub version : String
  pub internal_ip : String
  pub key_mode : String

pub record Registration : Type 0 where
  pub id : String
  pub type : String
  pub cluster_name : String
  pub node_name : String
  pub namespace : String
  pub capabilities : List String
  pub metadata : RegistrationMetadata

pub record Heartbeat : Type 0 where
  pub kubelet_id : String
  pub status : String

-- NewHeartbeat
unfoldable pub new_heartbeat : String → Heartbeat
new_heartbeat kubelet_id = record { kubelet_id = kubelet_id; status = "alive" }

pub data Payload : Type 0 where
  response : Response → Payload
  event : Event → Payload
  registration : Registration → Payload
  heartbeat : Heartbeat → Payload

pub record Frame : Type 0 where
  pub type : String
  pub payload : Payload
  pub kubelet_id : String

-- NewEnvelope
unfoldable pub new_envelope : String → Payload → String → Frame
new_envelope type payload kubelet_id = record {
  type = type;
  payload = payload;
  kubelet_id = kubelet_id;
}
