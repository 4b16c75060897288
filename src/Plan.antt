-- ===== src/Plan.antt =====
-- pkg/plan: the plan as a map of changes by component, its steps (plan.go) and the validation of
-- the steps (validator.go). `Priority` has the table of default priorities, `Steps` the order of
-- the steps; the modules below prove what each guarantees.
pub mod Priority
pub mod Steps
pub mod Build
pub mod Validator
pub mod Order
pub mod Merge
pub mod Dumps
pub mod Installs
pub mod Checks
pub mod Coalesce
pub mod Phases
pub mod Contents
