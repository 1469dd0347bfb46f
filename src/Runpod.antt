-- ===== src/Runpod.antt =====
-- pkg/providers/runpod: the client of the RunPod API.
pub mod Responses
pub mod Calls
pub mod Rest
pub mod Client
pub mod Operations
pub mod Reports
pub mod Ports
pub mod Body
pub mod Unused
pub mod Found
pub mod Deploys
pub mod Requests
