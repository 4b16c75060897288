-- ===== src/Planner.antt =====
-- pkg/planner: from the installed and the assigned components to a plan. `Host` is what the planner
-- asks of the host, `Graph` pairs the components up (graph.go), and the other modules follow
-- planner.go: cleaning up and migrating (`Cleanup`), resources (`Resources`), service actions
-- (`ServiceActions`), triggers (`Triggers`), objects that must exist (`Ensure`), services
-- (`ServicePlan`), and one component and the whole plan (`Planning`).
pub mod Host
pub mod Graph
pub mod ServiceActions
pub mod Cleanup
pub mod Resources
pub mod Triggers
pub mod Ensure
pub mod ServicePlan
pub mod Planning
pub mod Convergence
pub mod Validity
pub mod Updates
pub mod Unchanged
pub mod Lifecycle
pub mod Migration
pub mod Sides
pub mod Pairing
