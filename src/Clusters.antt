-- ===== src/Clusters.antt =====
-- The reconciler of Rancher's management clusters,
-- internal/controller/clusters/cluster_controller.go.
pub mod Halves
pub mod Conditions
pub mod Access
pub mod Stale
pub mod Limits
pub mod Cleanup
pub mod Peers
pub mod Watch
pub mod Reconcile
pub mod Rbac
pub mod TargetApp
