-- ===== src/Clusters/Reconcile/Outcomes.antt =====
-- When a reconciliation is finished.
use vcluster_rancher_operato.Prelude.{
  String, ◌≡◌, ◌↔◌, refl, ◌⊎◌, inl, inr, true, false, Option, none, some, List, [], ◌∷◌, All, arith,
  Bool-cases, Option-cases,
}
use vcluster_rancher_operato.Maps.{keys}
use vcluster_rancher_operato.Errors.{Error, ok, join}
use vcluster_rancher_operato.Errors.Laws.{join-eq-none_iff}
use vcluster_rancher_operato.Config.{Config}
use vcluster_rancher_operato.Unstructured.{Unstructured, clusters_management_cattle}
use vcluster_rancher_operato.Client
use vcluster_rancher_operato.Client.{Api}
use vcluster_rancher_operato.Token.{KubeConfigs}
use vcluster_rancher_operato.Clusters.Access.{HostClusters}
use vcluster_rancher_operato.Clusters.Conditions.{is_cluster_ready}
use vcluster_rancher_operato.Clusters.Cleanup.{Http, sync_cleanup}
use vcluster_rancher_operato.Clusters.Cleanup.Left.{cluster_left}
use vcluster_rancher_operato.Clusters.Limits.{sync_resource_limits}
use vcluster_rancher_operato.Clusters.Peers.{sync_vcluster_install_handler}
use vcluster_rancher_operato.Clusters.Rbac.{sync_rancher_rbac}
use vcluster_rancher_operato.Clusters.Stale.{sync_stale_resources}
use vcluster_rancher_operato.Clusters.Reconcile.{
  finished, outcome_of, State, limits_done, sync_ready, sync_cluster, reconcile,
}

finished_iff :
    (errors : List (Option Error)) → (outcome_of errors ≡ finished) ↔ All (λ e. e ≡ none) errors
unfolding outcome_of
finished_iff errors = elim (Option-cases (join errors)) [
  | inl fine ↦ (λ h. (join-eq-none_iff errors).0 fine, λ h. rw (fine, outcome_of) refl)
  | inr (e, failed) ↦
      (λ h. cc (rw (failed, outcome_of) at h), λ h. cc ((join-eq-none_iff errors).1 h, failed))
]

module _ (A : Api) (K : KubeConfigs) (C : HostClusters K A.World) (X : Http A.World)
    (rancher_token : String) (config : Config) where
  module _ (cluster : Unstructured) (s : State A K C X rancher_token config) where
    abbrev pub after_stale : Option Error × A.World
    after_stale = sync_stale_resources A K C rancher_token cluster (keys s.0.peers) s.1

    abbrev pub after_cleanup : Option Error × (Unstructured × A.World)
    after_cleanup = sync_cleanup A X rancher_token cluster after_stale.1

    abbrev pub after_rbac : Option Error × A.World
    after_rbac = sync_rancher_rbac A after_cleanup.1.0 after_cleanup.1.1

    -- The handler of a ready cluster is installed, and its limits are written.
    abbrev pub ReadyDone : Unstructured → A.World → Type 0
    ReadyDone cluster' w =
        ((sync_vcluster_install_handler K C rancher_token config cluster'.name s.0).0 ≡ none)
        × (w' : A.World) × (sync_resource_limits A K C rancher_token cluster' w ≡ some (none, w'))

    abbrev pub Done : Type 0
    Done =
        (after_stale.0 ≡ none)
        × (after_cleanup.0 ≡ none)
        × (after_rbac.0 ≡ none)
        × ((is_cluster_ready cluster ≡ false)
            ⊎ ((is_cluster_ready cluster ≡ true) × ReadyDone after_cleanup.1.0 after_rbac.1))

    limits_finished :
        (errors : List (Option Error)) (here : State A K C X rancher_token config)
        (r : Option (Option Error × A.World))
        → ((limits_done A K C X rancher_token config errors here r).0 ≡ finished)
          ↔ (All (λ e. e ≡ none) errors × (w : A.World) × (r ≡ some (none, w)))
    unfolding limits_done
    limits_finished errors here none = ground arith
    limits_finished errors here (some (none, w)) = (
      λ h. (((finished_iff (none ∷ errors)).0 h).1, w, refl),
      λ h. (finished_iff (none ∷ errors)).1 (refl, h.0),
    )
    limits_finished errors here (some (some e, w)) =
        (λ h. cc (((finished_iff (some e ∷ errors)).0 h).0), λ h. cc (h.2))

    ready_done :
        (cluster' : Unstructured) (errors : List (Option Error)) (w : A.World)
        → ((sync_ready A K C X rancher_token config cluster' errors (s.0, w)).0 ≡ finished)
          ↔ (All (λ e. e ≡ none) errors × ReadyDone cluster' w)
    unfolding sync_ready
    ready_done cluster' errors w =
        let (e, p') = sync_vcluster_install_handler K C rancher_token config cluster'.name s.0 in
        let fin =
          limits_finished (e ∷ errors) (p', w)
            (sync_resource_limits A K C rancher_token cluster' w) in
        (
          λ h. let (all_fine, w', written) = fin.0 h in (all_fine.1, (all_fine.0, w', written)),
          λ h. fin.1 ((h.1.0, h.0), h.1.1, h.1.2),
        )

    cluster_done : ((sync_cluster A K C X rancher_token config cluster s).0 ≡ finished) ↔ Done
    unfolding sync_cluster
    cluster_done =
        let errors = after_stale.0 ∷ after_cleanup.0 ∷ after_rbac.0 ∷ [] in
        let ready_iff = ready_done after_cleanup.1.0 errors after_rbac.1 in
        let unready_iff = finished_iff errors in
        let same = (cluster_left A X rancher_token cluster after_stale.1).1 in
        elim (Bool-cases (is_cluster_ready cluster)) [
          | inl ready ↦ rw (same, ready, sync_cluster) (ground (arith, ready, ready_iff))
          | inr unready ↦ rw (same, unready, sync_cluster) (ground (arith, unready, unready_iff))
        ]

  -- The reconciliation of a cluster that is found is finished exactly when removing what is stale,
  -- the cleanup and the roles give no error and, if the cluster is ready, its handler is there and
  -- its limits are written without error.
  pub reconcile_finished_iff :
      (name : String) (cluster : Unstructured) (s : State A K C X rancher_token config)
      → Client.get A clusters_management_cattle name "" s.1 ≡ ok cluster
      → ((reconcile A K C X rancher_token config name s).0 ≡ finished) ↔ Done cluster s
  unfolding reconcile
  reconcile_finished_iff name cluster s found = rw (found, reconcile) (cluster_done cluster s)
