-- ===== src/Providers/Status.antt =====
-- pkg/providers/interface.go: the standardized statuses and the pod phases.
use k8s_runpod_kubelet.Base.{Bool, String, ◌==◌, ◌||◌, if◌then◌else◌}

abbrev pub status_pending : String
status_pending = "PENDING"

abbrev pub status_starting : String
status_starting = "STARTING"

abbrev pub status_running : String
status_running = "RUNNING"

abbrev pub status_terminating : String
status_terminating = "TERMINATING"

abbrev pub status_terminated : String
status_terminated = "TERMINATED"

abbrev pub status_failed : String
status_failed = "FAILED"

abbrev pub status_exited : String
status_exited = "EXITED"

abbrev pub phase_pending : String
phase_pending = "Pending"

abbrev pub phase_running : String
phase_running = "Running"

abbrev pub phase_succeeded : String
phase_succeeded = "Succeeded"

abbrev pub phase_failed : String
phase_failed = "Failed"

abbrev pub phase_unknown : String
phase_unknown = "Unknown"

-- PhaseForStatus
unfoldable pub phase_for_status : String → Bool → String
phase_for_status s successful =
    if s == status_pending || s == status_starting
    then phase_pending
    else if s == status_running || s == status_terminating
    then phase_running
    else if s == status_terminated || s == status_exited
    then (if successful then phase_succeeded else phase_failed)
    else if s == status_failed
    then phase_failed
    else phase_unknown

-- mapRunPodStatus
unfoldable pub map_runpod_status : String → String
map_runpod_status s =
    if s == "STARTING"
    then status_starting
    else if s == "RUNNING"
    then status_running
    else if s == "TERMINATING"
    then status_terminating
    else if s == "TERMINATED"
    then status_terminated
    else if s == "EXITED"
    then status_exited
    else s

-- mapVastAIStatus
unfoldable pub map_vastai_status : String → String
map_vastai_status s =
    if s == "loading"
    then status_starting
    else if s == "running"
    then status_running
    else if s == "exited"
    then status_exited
    else s

-- GetStandardStatus
unfoldable pub get_standard_status : String → String → String
unfolding map_runpod_status map_vastai_status
get_standard_status provider_status provider =
    if provider == "runpod"
    then map_runpod_status provider_status
    else if provider == "vastai"
    then map_vastai_status provider_status
    else provider_status
