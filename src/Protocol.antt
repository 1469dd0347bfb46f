-- ===== src/Protocol.antt =====
-- pkg/websocket/protocol.go: the messages between the kubelet and the platform.
pub mod Json
pub mod Slots
pub mod Messages
pub mod Decode
pub mod Wire
pub mod Encode
pub mod RoundTrip
pub mod Frames
pub mod Events
pub mod Payloads
pub mod Replies
