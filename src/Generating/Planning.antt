-- ===== src/Generating/Planning.antt =====
-- From the generated files to the apply: internal/compiler/reconciler.go, snapshot.go,
-- transaction.go and saved_plan.go.
pub mod Types
pub mod Entities
pub mod Compute
pub mod Prepare
pub mod Saved
pub mod Apply
pub mod Loops
pub mod Computed
pub mod Edits
pub mod Contents
pub mod Prepared
pub mod Checked
pub mod Applied
pub mod Reconcile
pub mod Delivers
pub mod Guards
pub mod EntityDiff
pub mod Again
