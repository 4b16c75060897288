-- ===== src/Samples.antt =====
-- Small inputs on which the definitions run, each theorem at one of them, and tests.
pub mod Data
pub mod Plans
pub mod Planners
pub mod Updates
pub mod Executions
pub mod Units
pub mod Repositories
pub mod Locks
pub mod Engines
pub mod Hosts
pub mod Startup
pub mod Services
pub mod Fresh
pub mod Commands
pub mod Loaded
