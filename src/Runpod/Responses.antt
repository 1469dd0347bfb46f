-- ===== src/Runpod/Responses.antt =====
-- pkg/providers/runpod/client.go: the types of the RunPod answers, and their decoding.
use k8s_runpod_kubelet.Base.{String, Option, none, some, ℤ, pos, Float, Dict}
use k8s_runpod_kubelet.Protocol.Json.{
  Json, Fields, ◌>>=◌, member, struct, struct_into, pointer_into, string_into, int_into, float_into,
  dict_into, int_dict_into,
}

pub record MachineInfo : Type 0 where
  pub gpu_type_id : String
  pub location : String
  pub data_center_id : String

pub record ContainerInfo : Type 0 where
  pub exit_code : ℤ
  pub message : String

pub record RuntimeInfo : Type 0 where
  pub container : ContainerInfo
  pub pod_completion_status : String

pub record DetailedStatus : Type 0 where
  pub id : String
  pub name : String
  pub desired_status : String
  pub current_status : String
  pub cost_per_hr : Float
  pub image : String
  pub env : Option (Dict String)
  pub machine_id : String
  pub port_mappings : Option (Dict ℤ)
  pub runtime : Option RuntimeInfo
  pub machine : Option MachineInfo
  pub last_error : String
  pub container_registry_auth_id : String
  pub template_id : String

pub record CreatePodResponse : Type 0 where
  pub id : String
  pub cost_per_hr : Float
  pub desired_status : String
  pub machine_id : String
  pub machine : Option MachineInfo

machine_fields : MachineInfo → Fields → Option MachineInfo
unfolding member string_into
machine_fields m fs = do
  gpu_type_id ← member string_into "gpuTypeId" m.gpu_type_id fs
  location ← member string_into "location" m.location fs
  data_center_id ← member string_into "dataCenterId" m.data_center_id fs
  some (record { gpu_type_id = gpu_type_id; location = location; data_center_id = data_center_id })

abbrev no_machine : MachineInfo
no_machine = record { gpu_type_id = ""; location = ""; data_center_id = "" }

container_fields : ContainerInfo → Fields → Option ContainerInfo
unfolding member string_into int_into
container_fields c fs = do
  exit_code ← member int_into "exitCode" c.exit_code fs
  message ← member string_into "message" c.message fs
  some (record { exit_code = exit_code; message = message })

runtime_fields : RuntimeInfo → Fields → Option RuntimeInfo
unfolding member string_into container_fields
runtime_fields r fs = do
  container ← member (struct_into container_fields) "container" r.container fs
  pod_completion_status ← member string_into "podCompletionStatus" r.pod_completion_status fs
  some (record { container = container; pod_completion_status = pod_completion_status })

abbrev no_runtime : RuntimeInfo
no_runtime = record {
  container = record { exit_code = pos 0; message = "" };
  pod_completion_status = "";
}

create_fields : Fields → Option CreatePodResponse
unfolding member string_into float_into machine_fields
create_fields fs = do
  id ← member string_into "id" "" fs
  cost_per_hr ← member float_into "costPerHr" (pos 0) fs
  desired_status ← member string_into "desiredStatus" "" fs
  machine_id ← member string_into "machineId" "" fs
  machine ← member (pointer_into no_machine machine_fields) "machine" none fs
  some (record {
    id = id;
    cost_per_hr = cost_per_hr;
    desired_status = desired_status;
    machine_id = machine_id;
    machine = machine;
  })

unfoldable pub read_create_response : Json → Option CreatePodResponse
unfolding create_fields
read_create_response =
    struct
      (record {
        id = "";
        cost_per_hr = pos 0;
        desired_status = "";
        machine_id = "";
        machine = none;
      })
      create_fields

status_fields : Fields → Option DetailedStatus
unfolding member string_into float_into machine_fields runtime_fields dict_into int_dict_into
status_fields fs = do
  id ← member string_into "id" "" fs
  name ← member string_into "name" "" fs
  desired_status ← member string_into "desiredStatus" "" fs
  current_status ← member string_into "currentStatus" "" fs
  cost_per_hr ← member float_into "costPerHr" (pos 0) fs
  image ← member string_into "image" "" fs
  env ← member dict_into "env" none fs
  machine_id ← member string_into "machineId" "" fs
  port_mappings ← member int_dict_into "portMappings" none fs
  runtime ← member (pointer_into no_runtime runtime_fields) "runtime" none fs
  machine ← member (pointer_into no_machine machine_fields) "machine" none fs
  last_error ← member string_into "lastError" "" fs
  container_registry_auth_id ← member string_into "containerRegistryAuthId" "" fs
  template_id ← member string_into "templateId" "" fs
  some (record {
    id = id;
    name = name;
    desired_status = desired_status;
    current_status = current_status;
    cost_per_hr = cost_per_hr;
    image = image;
    env = env;
    machine_id = machine_id;
    port_mappings = port_mappings;
    runtime = runtime;
    machine = machine;
    last_error = last_error;
    container_registry_auth_id = container_registry_auth_id;
    template_id = template_id;
  })

unfoldable pub read_detailed_status : Json → Option DetailedStatus
unfolding status_fields
read_detailed_status =
    struct
      (record {
        id = "";
        name = "";
        desired_status = "";
        current_status = "";
        cost_per_hr = pos 0;
        image = "";
        env = none;
        machine_id = "";
        port_mappings = none;
        runtime = none;
        machine = none;
        last_error = "";
        container_registry_auth_id = "";
        template_id = "";
      })
      status_fields
