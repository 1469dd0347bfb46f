-- ===== src/WsClient.antt =====
-- pkg/websocket/client.go: the connection to the platform.
pub mod Config
pub mod Link
pub mod Reader
pub mod Inbox
pub mod Stopping
pub mod Dial
pub mod Connect
pub mod Writer
pub mod Sending
pub mod Waits
pub mod Loop
pub mod Moves
pub mod Backoff
pub mod Reconnect
pub mod Queues
pub mod Typed
