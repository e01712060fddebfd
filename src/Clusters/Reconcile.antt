-- ===== src/Clusters/Reconcile.antt =====
-- `Reconcile` in internal/controller/clusters/cluster_controller.go: one management cluster.
pub mod Handlers
pub mod Outcomes
use vcluster_rancher_operato.Prelude.{
  String, Bool, true, false, not, Option, none, some, List, [], ◌∷◌, if◌then◌else◌,
}
use vcluster_rancher_operato.Maps.{keys}
use vcluster_rancher_operato.Errors.{Error, Result, ok, err, is_not_found, join}
use vcluster_rancher_operato.Config.{Config}
use vcluster_rancher_operato.Unstructured.{Unstructured, clusters_management_cattle}
use vcluster_rancher_operato.Client
use vcluster_rancher_operato.Client.{Api}
use vcluster_rancher_operato.Token.{KubeConfigs}
use vcluster_rancher_operato.Clusters.Access.{HostClusters}
use vcluster_rancher_operato.Clusters.Conditions.{is_cluster_ready}
use vcluster_rancher_operato.Clusters.Cleanup.{Http, sync_cleanup}
use vcluster_rancher_operato.Clusters.Limits.{sync_resource_limits}
use vcluster_rancher_operato.Clusters.Peers.{Peers, stop, sync_vcluster_install_handler}
use vcluster_rancher_operato.Clusters.Rbac.{sync_rancher_rbac}
use vcluster_rancher_operato.Clusters.Stale.{sync_stale_resources}

-- What controller-runtime is told: nothing, to come back, or an error. A panic is an outcome.
pub data Outcome : Type 0 where
  finished requeue panicked : Outcome
  failed : Error → Outcome

unfoldable pub outcome_of : List (Option Error) → Outcome
unfolding join
outcome_of errors = elim (join errors) [ none ↦ finished | some e ↦ requeue ]

module _ (A : Api) (K : KubeConfigs) (C : HostClusters K A.World) (X : Http A.World)
    (rancher_token : String) (config : Config) where
  open A use {World}

  abbrev pub State : Type 0
  State = Peers × World

  -- `SyncResourceLimits` is last; if it panics, what came before it stays done.
  pub limits_done : List (Option Error) → State → Option (Option Error × World) → Outcome × State
  unfolding outcome_of
  limits_done errors s none = (panicked, s)
  limits_done errors (p, w) (some (metrics_err, w')) = (outcome_of (metrics_err ∷ errors), (p, w'))

  pub sync_ready : Unstructured → List (Option Error) → State → Outcome × State
  unfolding limits_done sync_vcluster_install_handler sync_resource_limits
  sync_ready cluster errors (p, w) =
      let (install_err, p') =
        sync_vcluster_install_handler K C rancher_token config cluster.name p in
      limits_done (install_err ∷ errors) (p', w)
        (sync_resource_limits A K C rancher_token cluster w)

  -- The errors are joined for a log line only, so their order does not matter.
  pub sync_cluster : Unstructured → State → Outcome × State
  unfolding sync_ready is_cluster_ready sync_rancher_rbac sync_cleanup sync_stale_resources keys
  sync_cluster cluster (p, w) =
      let (stale_err, w1) = sync_stale_resources A K C rancher_token cluster (keys p.peers) w in
      let (cleanup_err, (cluster', w2)) = sync_cleanup A X rancher_token cluster w1 in
      let (rbac_err, w3) = sync_rancher_rbac A cluster' w2 in
      let errors = stale_err ∷ cleanup_err ∷ rbac_err ∷ [] in
      if not (is_cluster_ready cluster')
      then (outcome_of errors, (p, w3))
      else sync_ready cluster' errors (p, w3)

  unfoldable pub reconcile : String → State → Outcome × State
  unfolding sync_cluster stop is_not_found
  reconcile name (p, w) = elim (Client.get A clusters_management_cattle name "" w) [
    | ok cluster ↦ sync_cluster cluster (p, w)
    | err e ↦ if is_not_found e then (finished, (stop name p, w)) else (failed e, (p, w))
  ]
