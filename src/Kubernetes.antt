-- ===== src/Kubernetes.antt =====
-- What the program reads and writes of the types of k8s.io/api/core/v1. `rest` holds the other
-- fields of a pod, which are only copied.
use k8s_runpod_kubelet.Base.{ℕ, Bool, String, List, Dict, ℤ}
use k8s_runpod_kubelet.Protocol.Json.{Json}

pub record Pod : Type 0 where
  pub api_version : String
  pub kind : String
  pub namespace : String
  pub name : String
  pub uid : String
  pub annotations : Dict String
  -- the names of Spec.Containers
  pub containers : List String
  -- Status.Phase, Status.Reason and Status.Message
  pub phase : String
  pub reason : String
  pub message : String
  pub rest : Json

pub data ContainerState : Type 0 where
  terminated : (exit_code : ℤ) (reason : String) → ContainerState
  running : (started_at : ℕ) → ContainerState
  waiting : (reason message : String) → ContainerState

pub record ContainerStatus : Type 0 where
  pub name : String
  pub ready : Bool
  pub started : Bool
  pub state : ContainerState

-- The condition types that are set; each is set to true.
pub data Condition : Type 0 where
  pod_scheduled pod_ready : Condition

pub record PodStatus : Type 0 where
  pub phase : String
  pub reason : String
  pub message : String
  pub conditions : List Condition
  pub container_statuses : List ContainerStatus
