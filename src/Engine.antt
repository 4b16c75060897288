-- ===== src/Engine.antt =====
-- internal/materia: what ties the parts together. The host, the sources and the vault answer by
-- the state of the world, which the lock, the executor and the purging of components change.
pub mod Backend
pub mod Assigned
pub mod Planning
pub mod Execution
pub mod Held
pub mod Missing
pub mod Planned
pub mod Settings
pub mod Configured
pub mod Setup
pub mod Executed
