-- ===== src/Command.antt =====
-- pkg/command: the commands of the platform and their answers.
pub mod Handler
pub mod Answers
pub mod Routing
pub mod Effects
