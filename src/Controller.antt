-- ===== src/Controller.antt =====
-- internal/controller/dualdeploymentoperator_controller.go: the reconciler (Reconciler), its
-- conditions (Conditions), the delivery of one render (Delivery), the pruning of orphans (Prune),
-- the deletion of a custom resource (Deletion), a reconciliation (Reconcile) and runs of many
-- reconciliations (Runs).
pub mod Reconciler
pub mod Conditions
pub mod Delivery
pub mod Prune
pub mod Cleanup
pub mod Deletion
pub mod Render
pub mod Reconcile
pub mod Runs
