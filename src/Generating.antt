-- ===== src/Generating.antt =====
-- internal/compiler: plans, the apply journal and its recovery, and drift.
pub mod Paths
pub mod Snapshot
pub mod Yaml
pub mod State
pub mod Transaction
pub mod Execute
pub mod Drift
pub mod Namespaces
pub mod Planning
mod Sample
mod Examples
mod RunExamples
mod PlanExamples
