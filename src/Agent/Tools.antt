-- ===== src/Agent/Tools.antt =====
-- The tools of the agent.
pub mod Scope
pub mod ModulePermissions
pub mod Registry
pub mod Authorization
pub mod Actions
