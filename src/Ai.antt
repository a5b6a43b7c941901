-- ===== src/Ai.antt =====
-- The parts of kernel01/kernel/ai: `Policy` is ai_workspace_policy.c, `Stub` and `Serial` are the two
-- providers, and the others have the names of their files.
pub mod Policy
pub mod Task
pub mod Transport
pub mod Session
pub mod Stub
pub mod Serial
pub mod Bridge
pub mod Assembly
mod Tests
