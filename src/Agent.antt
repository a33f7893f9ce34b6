-- ===== src/Agent.antt =====
-- The agent.
pub mod Lifecycle
pub mod Hooks
pub mod TurnCoordinator
pub mod Tools
pub mod Loop
