-- ===== src/Agent/Loop.antt =====
-- src/agent/loop: one turn of the agent with its model.
pub mod Batch
pub mod Results
pub mod Errors
pub mod Turn
pub mod Tests
