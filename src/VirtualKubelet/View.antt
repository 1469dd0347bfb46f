-- ===== src/VirtualKubelet/View.antt =====
-- The kubelet as the controllers see it: what is known of each pod, by its key, and how the calls of
-- the controllers and the commands of the platform change that.
use k8s_runpod_kubelet.Base.{
  Bool, true, false, String, List, [], ◌∷◌, Option, none, some, is_some, lookup, Result, ok, err,
  plain, ◌==◌, if◌then◌else◌,
}
use k8s_runpod_kubelet.Kubernetes.{PodStatus}
use k8s_runpod_kubelet.Protocol.Messages.{Envelope, Command, RejectParams, command_reject, pod_key}
use k8s_runpod_kubelet.Protocol.Decode.{
  read_command, read_reject_params, decode_payload, decode_data,
}
use k8s_runpod_kubelet.Providers.Status.{phase_failed}
use k8s_runpod_kubelet.VirtualKubelet.State.{Kubelet, PodInstanceInfo, get_pod_key}
use k8s_runpod_kubelet.VirtualKubelet.Status.{Outcome, done, failed, pending_status}
use k8s_runpod_kubelet.VirtualKubelet.System.{
  Op, creates, updates, deletes, processes, sets_callback, registers, network, apply,
}

-- A pod is not there; it is there but was never created here; it is pending; it was rejected.
pub data View : Type 0 where
  absent untracked pending : View
  rejected : (code message : String) → View

abbrev pub Views : Type 0
Views = String → View

-- What GetPodStatus is to report of a pod.
unfoldable pub report : View → Outcome PodStatus
report absent = failed (plain "pod not found")
report untracked = done pending_status
report pending = done pending_status
report (rejected code message) =
    done (record pending_status { phase = phase_failed; reason = code; message = message })

pub data Change : Type 0 where
  nothing : Change
  appears refreshed vanishes : (key : String) → Change
  refused : (key code message : String) → Change

-- A code that is empty counts as none.
abbrev pub verdict : (code message : String) → View
verdict code message = if code == "" then pending else rejected code message

abbrev pub refuse : (code message : String) → View → View
refuse code message absent = absent
refuse code message untracked = untracked
refuse code message pending = verdict code message
refuse code message (rejected c m) = verdict code message

abbrev pub refresh : View → View
refresh absent = untracked
refresh v = v

unfoldable pub change : Change → Views → Views
change nothing f j = f j
change (appears key) f j = if key == j then pending else f j
change (refreshed key) f j = if key == j then refresh (f j) else f j
change (vanishes key) f j = if key == j then absent else f j
change (refused key code message) f j = if key == j then refuse code message (f j) else f j

unfoldable pub replay : List Change → Views → Views
replay [] f = f
replay (c ∷ cs) f = replay cs (change c f)

-- The change that a command of the platform asks for: only a rejection asks for one.
abbrev pub refusal_of : Result RejectParams → Change
refusal_of (err x) = nothing
refusal_of (ok p) = refused (pod_key p.namespace p.pod_name) p.code p.message

abbrev pub change_of : Result Command → Change
change_of (err x) = nothing
change_of (ok cmd) =
    if cmd.type == command_reject then refusal_of (decode_data read_reject_params cmd) else nothing

abbrev pub first_change : List Envelope → Change
first_change [] = nothing
first_change (e ∷ rest) = change_of (decode_payload read_command e)

-- The change that an operation asks for.
unfoldable pub change_by : Kubelet → Op → Change
change_by k (creates now pod) = appears (get_pod_key pod)
change_by k (updates pod) = refreshed (get_pod_key pod)
change_by k (deletes pod) = vanishes (get_pod_key pod)
change_by k (processes w) = first_change k.ws_client.link.commands
change_by k sets_callback = nothing
change_by k registers = nothing
change_by k (network e) = nothing

unfoldable pub changes : Kubelet → List Op → List Change
changes k [] = []
changes k (op ∷ ops) = change_by k op ∷ changes (apply k op) ops

-- What the maps of the kubelet say of a pod.
abbrev pub view_of : Bool → Option PodInstanceInfo → View
view_of false i = absent
view_of true none = untracked
view_of true (some info) = verdict info.reject_code info.reject_message

unfoldable pub view : Kubelet → Views
view k key = view_of (is_some (lookup key k.pods)) (lookup key k.pod_status)
