-- ===== src/Cmd.antt =====
-- cmd/virtual_kubelet/main.go: the process.
pub mod Progress
pub mod Main
pub mod Servers
pub mod Controllers
pub mod Exits
