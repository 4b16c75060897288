-- ===== src/Executor.antt =====
-- pkg/executor: running the steps of a plan on the host. `Host` is what the executor calls,
-- `Services` the helpers on services, `Handlers` one function for each kind of step, `Table` the table
-- of handlers and `Run` is `Execute`; the modules below them have proofs.
pub mod Host
pub mod Services
pub mod Handlers
pub mod Table
pub mod Run
pub mod Coverage
pub mod Effects
pub mod Expects
pub mod Noted
pub mod Success
