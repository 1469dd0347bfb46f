-- ===== src/VirtualKubelet/Node.antt =====
-- pkg/virtual_kubelet/kubelet.go: the virtual node. A quantity is the text that the program hands
-- to resource.MustParse.
use k8s_runpod_kubelet.Base.{
  Bool, true, false, String, List, [], ◌∷◌, Option, none, some, ℤ, to_int32, Dict, lookup, insert,
  lookup-insert, ◌==◌, ◌≡◌, refl, if◌then◌else◌,
}
use k8s_runpod_kubelet.VirtualKubelet.State.{Kubelet}

pub data NodeConditionType : Type 0 where
  node_ready node_memory_pressure node_disk_pressure node_pid_pressure : NodeConditionType

-- `status` tells whether the condition holds.
pub record NodeCondition {ℓ} (Time : Type ℓ) : Type ℓ where
  pub type : NodeConditionType
  pub status : Bool
  pub last_heartbeat_time : Time
  pub last_transition_time : Time
  pub reason : String
  pub message : String

pub record NodeSystemInfo : Type 0 where
  pub machine_id : String
  pub system_uuid : String
  pub boot_id : String
  pub kernel_version : String
  pub os_image : String
  pub container_runtime_version : String
  pub kubelet_version : String
  pub kube_proxy_version : String
  pub operating_system : String
  pub architecture : String

-- The one address is of the type InternalIP; the phase is Running.
pub record NodeStatus {ℓ} (Time : Type ℓ) : Type ℓ where
  pub capacity : Dict String
  pub allocatable : Dict String
  pub phase : String
  pub conditions : List (NodeCondition Time)
  pub node_info : NodeSystemInfo
  pub kubelet_port : ℤ
  pub internal_ips : List String

pub data TaintEffect : Type 0 where
  no_schedule prefer_no_schedule no_execute : TaintEffect

pub record Taint : Type 0 where
  pub key : String
  pub value : String
  pub effect : TaintEffect

-- `labels` is `none` while the map is nil.
pub record Node {ℓ} (Time : Type ℓ) : Type ℓ where
  pub name : String
  pub labels : Option (Dict String)
  pub taints : List Taint
  pub status : NodeStatus Time

abbrev pub resources : Dict String
resources =
    ("cpu", "1000") ∷ ("memory", "1000Gi") ∷ ("nvidia.com/gpu", "1000") ∷ ("pods", "1000") ∷ []

abbrev pub node_info : NodeSystemInfo
node_info = record {
  machine_id = "proxy-kubelet";
  system_uuid = "proxy-kubelet";
  boot_id = "proxy-kubelet";
  kernel_version = "5.4.0";
  os_image = "Proxy Kubelet";
  container_runtime_version = "proxy://1.0.0";
  kubelet_version = "v1.32.0";
  kube_proxy_version = "v1.32.0";
  operating_system = "linux";
  architecture = "amd64";
}

abbrev pub node_taint_key : String
node_taint_key = "virtual-kubelet.io/provider"

abbrev pub node_taint_value : String
node_taint_value = "conduit"

abbrev pub node_label_key : String
node_label_key = "conduit.io/provider"

abbrev pub node_label_value : String
node_label_value = "true"

abbrev pub labels_of : Option (Dict String) → Dict String
labels_of none = []
labels_of (some m) = m

-- The writes of ConfigureNode to the labels.
abbrev pub node_labels : String → Dict String → Dict String
node_labels name m = insert node_label_key node_label_value (
    insert "kubernetes.io/os" "linux" (
      insert "kubernetes.io/hostname" name
        (insert "kubernetes.io/role" "agent" (insert "type" "virtual-kubelet" m))))

module _ {ℓ} {Time : Type ℓ} where
  -- One entry of the conditions.
  abbrev pub condition :
      Time → NodeConditionType → Bool → (reason message : String) → NodeCondition Time
  condition now type status reason message = record {
    type = type;
    status = status;
    last_heartbeat_time = now;
    last_transition_time = now;
    reason = reason;
    message = message;
  }

  -- GetNodeStatus. The port is the one that NewProvider is given; all calls of metav1.Now give the
  -- same time.
  unfoldable pub get_node_status : Kubelet → (daemon_endpoint_port : ℤ) → Time → NodeStatus Time
  get_node_status k daemon_endpoint_port now = record {
    capacity = resources;
    allocatable = resources;
    phase = "Running";
    conditions =
        condition now node_ready true "KubeletReady" "proxy kubelet is posting ready status"
        ∷ condition now node_memory_pressure false "KubeletHasSufficientMemory"
            "proxy kubelet has sufficient memory available"
        ∷ condition now node_disk_pressure false "KubeletHasNoDiskPressure"
            "proxy kubelet has no disk pressure"
        ∷ condition now node_pid_pressure false "KubeletHasSufficientPID"
            "proxy kubelet has sufficient PID available"
        ∷ [];
    node_info = node_info;
    kubelet_port = to_int32 daemon_endpoint_port;
    internal_ips = k.internal_ip ∷ [];
  }

  -- ConfigureNode
  unfoldable pub configure_node :
      Kubelet → (daemon_endpoint_port : ℤ) → Time → Node Time → Node Time
  unfolding get_node_status
  configure_node k daemon_endpoint_port now node = record node {
    status = record old {
      capacity = (get_node_status k daemon_endpoint_port now).capacity;
      allocatable = (get_node_status k daemon_endpoint_port now).allocatable;
    };
    labels = some (node_labels node.name (labels_of node.labels));
    taints = record { key = node_taint_key; value = node_taint_value; effect = no_schedule } ∷ [];
  }
    where
      old : NodeStatus Time
      old = node.status

  -- NotifyNodeStatus, which does nothing
  unfoldable pub notify_node_status : Kubelet → (Node Time → Kubelet) → Kubelet
  notify_node_status k notify_func = k

  -- The node that createControllers registers.
  unfoldable pub virtual_node : Kubelet → (daemon_endpoint_port : ℤ) → Time → String → Node Time
  unfolding configure_node get_node_status
  virtual_node k daemon_endpoint_port now node_name =
      configure_node k daemon_endpoint_port now (record {
        name = node_name;
        labels = none;
        taints = [];
        status = get_node_status k daemon_endpoint_port now;
      })

-- The labels that a configured node has, over those that it had.
abbrev pub Labelled : String → (old new : Dict String) → Type 0
Labelled name old new =
    (j : String)
    → lookup j new ≡ (
        if "conduit.io/provider" == j
        then some "true"
        else if "kubernetes.io/os" == j
        then some "linux"
        else if "kubernetes.io/hostname" == j
        then some name
        else if "kubernetes.io/role" == j
        then some "agent"
        else if "type" == j
        then some "virtual-kubelet"
        else lookup j old)

labelled : (name : String) (m : Dict String) → Labelled name m (node_labels name m)
labelled name m j = simp lookup-insert

-- A configured node can be used by pods that opt in alone: its only taint is NoSchedule, whatever
-- taints it had. It has the five labels of the program, and every other label that it had, also
-- where it had no labels; its capacity is what it allows to allocate, and is that of the node
-- status; its name, and the rest of its status, are as they were.
configure_node_lem {ℓ} :
    {Time : Type ℓ} (k : Kubelet) (port : ℤ) (now : Time) (node : Node Time)
    → let t = configure_node k port now node in
      (t.taints
        ≡ record { key = "virtual-kubelet.io/provider"; value = "conduit"; effect = no_schedule }
          ∷ [])
      × Labelled node.name (labels_of node.labels) (labels_of t.labels)
      × (t.name ≡ node.name)
      × (t.status ≡ record node.status { capacity = resources; allocatable = resources })
unfolding configure_node get_node_status
configure_node_lem k port now node = (refl, labelled node.name (labels_of node.labels), refl, refl)
