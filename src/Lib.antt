-- ===== src/Lib.antt =====
-- k8s-runpod-kubelet: a virtual kubelet that a platform drives over a WebSocket, and that runs pods
-- on RunPod.
--
-- The program. The virtual-kubelet controllers call the Provider of pkg/virtual_kubelet/kubelet.go
-- (CreatePod, UpdatePod, DeletePod, GetPod, GetPodStatus), which keeps the pods and their instances
-- in two maps and tells the platform of them by events. The platform answers with commands. The
-- WebSocket client (pkg/websocket/client.go) queues them; processCommands takes them one by one, has
-- the command handler (pkg/command/handler.go) carry them out through the provider manager
-- (pkg/providers/manager.go) and the RunPod client (pkg/providers/runpod/client.go), books the result
-- in the maps and queues the response.
--
-- The files.
--   Base: Boolean tests, lists, maps as association lists (a write to a new key goes to the end,
--     so a map's order is that of its first writes), texts as Go's strings package treats them
--     (Unicode white space, and the case of ASCII letters), integers, and errors. A Go error is
--     its text, or a ProviderError. A float64 stands in millionths, exactly.
--   Protocol: pkg/websocket/protocol.go. Json is the syntax of JSON values and what encoding/json
--     makes of them at each field type, where a number such as 1.0 is not one for an int; Decode
--     is DecodePayload and DecodeData at each type; Messages and Events are the payloads; Slots
--     and Encode are json.Marshal of the commands, Payloads that of what the kubelet sends, and
--     Replies what is read of a response; Wire is ToJSON, ParseEnvelope and the time stamps, over
--     the packages time and encoding/json as parameters.
--   Providers: pkg/providers. World holds what is outside: the HTTP service as a function of the
--     request, the parsing of a text as JSON, and the environment. Status maps statuses to
--     phases; Manager is the registry of the providers, Pings the goroutines of PingAll.
--   Command: pkg/command/handler.go, over any type of state that the reject callback changes.
--   Kubernetes: the fields of the API types that are read or written.
--   WsClient: pkg/websocket/client.go. Link holds the state that the goroutines share and the
--     operations on it, each one step, Loop the connection loop as a state machine whose events come from
--     the network, the timers and the other goroutines, in any order; Moves is its diagram. Reader
--     and Inbox are messageReader from the text of a message on, Writer the writing of the frames,
--     Dial the two functions on URLs, over net/url as a parameter, and Connect the function connect
--     over them and over Dial of gorilla/websocket. Sending and Typed are about the queue of frames.
--   Config: pkg/config/config.go, and the flags of cmd/virtual_kubelet/main.go.
--   VirtualKubelet: pkg/virtual_kubelet/kubelet.go. State, Status, Commands and Setup are the
--     state and the operations, System a run of the kubelet as a list of operations in any order,
--     Sections the operations as sequences of atomic sections, which interleave with each other
--     and with the ticks of heartbeatRoutine; Node is the virtual node. View is an abstract
--     bookkeeping of the pods, which Refinement relates to the kubelet; Driven relates the kubelet
--     to the connection loop of its client. Rejection and Deployed are about handleReject and
--     handleDeploymentSuccess.
--     Health is pkg/virtual_kubelet/health.go, over the state that the probes look at.
--   Cmd: cmd/virtual_kubelet/main.go, with the errors of the libraries as parameters. Progress is
--     what main has done and what it has deferred, which its return runs and os.Exit does not; it
--     leaves out logging and the handling of signals, which end the context. Servers and Controllers
--     are what main passes to the informers, the controllers and the API server.
--   Runpod: pkg/providers/runpod/client.go. An operation is a program that makes requests, so
--     that the requests can be stated for all replies; `run` gives it the replies of a service.
--     Unused has the functions that nothing calls.
--   Scenarios, Tests: concrete inputs, and the properties applied to them.
--
-- Bounds. The channels hold 100 envelopes and 200 frames, as in the source. Durations are int64
-- nanoseconds and the doubling of a delay wraps around as there. The only fuel is that of `decimal`,
-- which prints a number n with n + 1 steps, more than it has digits.
--
-- Taken as atomic: in System, each operation of the Provider; in Sections, what the source does under
-- one lock, each operation on a channel and each call of a provider. The write to the cached pod that
-- follows a deploy result or a rejection outside the lock counts to the section before it. Both take
-- sendEnvelope (pkg/websocket/client.go) as one step, although it tests the connection under the
-- lock and sends behind it: there, a sender that has passed the test can still put its frame into
-- the channel after a disconnect or Stop, which does not occur here.
--
-- Not modelled: logging, the transport of messages (gorilla/websocket), how Kubernetes marshals a pod,
-- the delivery of the health server's answers (net/http), its Start and Stop, the informers, the
-- controllers and the kubelet API server, which are calls of libraries, and the texts of
-- encoding/json's errors beyond their beginning.
pub mod Base
pub mod Protocol
pub mod Providers
pub mod Command
pub mod Kubernetes
pub mod WsClient
pub mod Config
pub mod VirtualKubelet
pub mod Cmd
pub mod Runpod
pub mod Scenarios
pub mod Tests
