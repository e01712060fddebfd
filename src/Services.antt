-- ===== src/Services.antt =====
-- pkg/services/handler.go: the reconciler of the vCluster services of one host cluster.
pub mod Defs
pub mod Naming
pub mod Labels
pub mod Host
pub mod Provisioning
pub mod Resources
pub mod Agent
pub mod Reconcile
pub mod Writes
pub mod Permitted
