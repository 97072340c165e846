-- ===== src/Reconcile.antt =====
-- src/reconcile: what to do with each file, and doing it.
pub mod Choose
pub mod AlternateName
pub mod Mutate
pub mod Context
pub mod Apply
pub mod Plain
pub mod TreeWalk
pub mod UnqueuedTasks
