-- ===== src/Clusters/Reconcile/Handlers.antt =====
-- The handlers that a reconciliation leaves running.
use vcluster_rancher_operato.Prelude.{
  [], ap, ◌∙◌, ℕ, String, ◌≡◌, refl, inl, inr, true, Option, none, some, List, ◌∷◌, if◌then◌else◌,
  Bool-cases,
}
use vcluster_rancher_operato.Maps.{keys}
use vcluster_rancher_operato.Errors.{Error, ok, is_not_found, Result-cases}
use vcluster_rancher_operato.Config.{Config}
use vcluster_rancher_operato.Unstructured.{Unstructured, clusters_management_cattle}
use vcluster_rancher_operato.Client
use vcluster_rancher_operato.Client.{Api}
use vcluster_rancher_operato.Token.{KubeConfigs}
use vcluster_rancher_operato.Clusters.Access.{HostClusters}
use vcluster_rancher_operato.Clusters.Conditions.{is_cluster_ready}
use vcluster_rancher_operato.Clusters.Cleanup.{Http, sync_cleanup}
use vcluster_rancher_operato.Clusters.Cleanup.Left.{cluster_left}
use vcluster_rancher_operato.Clusters.Limits.{sync_resource_limits}
use vcluster_rancher_operato.Clusters.Peers.{Running, Peers, sync_vcluster_install_handler}
use vcluster_rancher_operato.Clusters.Peers.Histories.{Reach, later, installs, stops, one_started}
use vcluster_rancher_operato.Clusters.Rbac.{sync_rancher_rbac}
use vcluster_rancher_operato.Clusters.Stale.{sync_stale_resources}
use vcluster_rancher_operato.Clusters.Reconcile.{
  finished, State, limits_done, sync_ready, sync_cluster, reconcile,
}
use vcluster_rancher_operato.Clusters.Reconcile.Outcomes.{after_stale, reconcile_finished_iff}

module _ (A : Api) (K : KubeConfigs) (C : HostClusters K A.World) (X : Http A.World)
    (rancher_token : String) (config : Config) where
  abbrev Here : Type 0
  Here = State A K C X rancher_token config

  limits_peers :
      (errors : List (Option Error)) (s : Here) (r : Option (Option Error × A.World))
      → (limits_done A K C X rancher_token config errors s r).1.0 ≡ s.0
  unfolding limits_done
  limits_peers errors s none = refl
  limits_peers errors s (some (e, w)) = refl

  ready_peers :
      (cluster : Unstructured) (errors : List (Option Error)) (s : Here)
      → (sync_ready A K C X rancher_token config cluster errors s).1.0
        ≡ (sync_vcluster_install_handler K C rancher_token config cluster.name s.0).1
  unfolding sync_ready
  ready_peers cluster errors (p, w) =
      let (e, p') = sync_vcluster_install_handler K C rancher_token config cluster.name p in
      limits_peers (e ∷ errors) (p', w) (sync_resource_limits A K C rancher_token cluster w)

  cluster_peers :
      (cluster : Unstructured) (s : Here)
      → (sync_cluster A K C X rancher_token config cluster s).1.0 ≡ (
          if is_cluster_ready cluster
          then (sync_vcluster_install_handler K C rancher_token config cluster.name s.0).1
          else s.0)
  unfolding sync_cluster
  cluster_peers cluster s =
      let w1 = (sync_stale_resources A K C rancher_token cluster (keys s.0.peers) s.1).1 in
      let (cleanup_err, (left, w2)) = sync_cleanup A X rancher_token cluster w1 in
      let (rbac_err, w3) = sync_rancher_rbac A left w2 in
      let stale_err = (sync_stale_resources A K C rancher_token cluster (keys s.0.peers) s.1).0 in
      let (named, same) = cluster_left A X rancher_token cluster w1 in
      elim (Bool-cases (is_cluster_ready cluster)) [
        | inl ready ↦
            rw (same, ready, sync_cluster)
              (ready_peers left (stale_err ∷ cleanup_err ∷ rbac_err ∷ []) (s.0, w3)
                ∙ ap (λ n. (sync_vcluster_install_handler K C rancher_token config n s.0).1) named)
        | inr unready ↦ rw (same, unready, sync_cluster) refl
      ]

  cluster-Reach :
      (cluster : Unstructured) (s : Here)
      → Reach K A.World rancher_token config s.0
      → Reach K A.World rancher_token config
          (sync_cluster A K C X rancher_token config cluster s).1.0
  cluster-Reach cluster s r = elim (Bool-cases (is_cluster_ready cluster)) [
    | inl ready ↦ rw (cluster_peers cluster s, ready) (later r (installs C cluster.name))
    | inr unready ↦ rw (cluster_peers cluster s, unready) r
  ]

  reconciled_peers :
      (name : String) (cluster : Unstructured) (s : Here)
      → Client.get A clusters_management_cattle name "" s.1 ≡ ok cluster
      → (reconcile A K C X rancher_token config name s).1.0 ≡ (
          if is_cluster_ready cluster
          then (sync_vcluster_install_handler K C rancher_token config cluster.name s.0).1
          else s.0)
  unfolding reconcile
  reconciled_peers name cluster s found = rw (found, reconcile) (cluster_peers cluster s)

  -- A reconciliation is at most one step of the history of the handlers.
  reconcile-Reach :
      (name : String) (s : Here)
      → Reach K A.World rancher_token config s.0
      → Reach K A.World rancher_token config (reconcile A K C X rancher_token config name s).1.0
  unfolding reconcile
  reconcile-Reach name (p, w) r =
      elim (Result-cases (Client.get A clusters_management_cattle name "" w)) [
        | inl (cluster, found) ↦ rw (found, reconcile) (cluster-Reach cluster (p, w) r)
        | inr (e, failure) ↦ elim (Bool-cases (is_not_found e)) [
          | inl gone ↦ rw (failure, reconcile, gone) (later r (stops name))
          | inr other ↦ rw (failure, reconcile, other) r
        ]
      ]

  -- After any history of the handlers, the reconciliation of a cluster that is found and ready,
  -- where it is finished, leaves a handler running for the cluster's name.
  pub ready_runs :
      (name : String) (cluster : Unstructured) (p : Peers) (w : A.World)
      → Reach K A.World rancher_token config p
      → Client.get A clusters_management_cattle name "" w ≡ ok cluster
      → is_cluster_ready cluster ≡ true
      → (reconcile A K C X rancher_token config name (p, w)).0 ≡ finished
      → (c : ℕ) × (h : Running) × ((reconcile A K C X rancher_token config name (p, w)).1.0.running
            c
          ≡ some h)
        × (h.reconciler.cluster_name ≡ cluster.name)
  ready_runs name cluster p w r found ready done =
      let fine =
        (reconcile_finished_iff A K C X rancher_token config name cluster (p, w) found).0 done in
      let named =
        (cluster_left A X rancher_token cluster
          (after_stale A K C X rancher_token config cluster (p, w)).1).0 in
      elim fine.3 [
        | inl unready ↦ cc
        | inr (_, installed) ↦
            rw (reconciled_peers name cluster (p, w) found, ready)
              (one_started K A.World rancher_token config C p cluster.name r
                (rw named at installed.0))
      ]
