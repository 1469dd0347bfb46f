-- ===== src/Tests.antt =====
-- The properties applied to concrete inputs.
mod Commands
mod Client
mod Pods
mod Platform
mod Settings
mod Wire
mod Process
mod Sections
mod Replies
