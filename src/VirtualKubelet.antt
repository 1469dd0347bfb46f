-- ===== src/VirtualKubelet.antt =====
-- pkg/virtual_kubelet: the provider that the virtual-kubelet controllers drive.
pub mod State
pub mod Status
pub mod Commands
pub mod Setup
pub mod Startup
pub mod Registering
pub mod Onboarding
pub mod System
pub mod Sections
pub mod View
pub mod Views
pub mod Refinement
pub mod Invariant
pub mod Changes
pub mod Bookkeeping
pub mod Preservation
pub mod Interleavings
pub mod Typed
pub mod Removal
pub mod Observed
pub mod Lifecycle
pub mod Rejection
pub mod Deployed
pub mod Processing
pub mod Replies
pub mod Draining
pub mod Emissions
pub mod Answered
pub mod Driven
pub mod Shutdown
pub mod Health
pub mod Probes
pub mod Node
