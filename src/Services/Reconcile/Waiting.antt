-- ===== src/Services/Reconcile/Waiting.antt =====
-- vClusters for which Rancher has not made its objects yet.
use vcluster_rancher_operato.Prelude.{
  eq_iff, ◌≡◌, ◌≢◌, true, false, Option, some, List, [], ◌∷◌, arith,
}
use vcluster_rancher_operato.Maps.{get}
use vcluster_rancher_operato.Errors.{
  Error, ok, err, wrap, Sentinel, sentinel, rancher_resources_pending,
  agent_install_job_in_progress, is_not_found,
}
use vcluster_rancher_operato.Constants.{annotation_skip_import, label_vcluster_service_uid}
use vcluster_rancher_operato.Unstructured.{
  Unstructured, clusters_management_cattle, cluster_provisioning_cattle,
}
use vcluster_rancher_operato.Client.{Api, get_first_with_label}
use vcluster_rancher_operato.Kube.{Service, Namespace}
use vcluster_rancher_operato.Queue.{
  Item, WorkQueue, is_waiting, retry_interval, process_next_work_item,
}
use vcluster_rancher_operato.Queue.Laws.{Observer, IsLawful, after}
use vcluster_rancher_operato.Queue.Retries.{process_next_work_item_lem}
use vcluster_rancher_operato.Services.Defs.{Handler}
use vcluster_rancher_operato.Services.Host.{HostApi}
use vcluster_rancher_operato.Services.Labels.{Orders}
use vcluster_rancher_operato.Services.Provisioning.{ensure_provisioning_cluster}
use vcluster_rancher_operato.Services.Resources.{get_rancher_resources}
use vcluster_rancher_operato.Services.Reconcile.{reconcile, deploy_vcluster_rancher_cluster}

-- The errors for which the work queue of a host cluster waits.
abbrev pub wait_errs : List (Option Sentinel)
wait_errs = some rancher_resources_pending ∷ some agent_install_job_in_progress ∷ []

abbrev pub pending_error : Error
pending_error =
    wrap "failed waiting for rancher to create resource(s) for vCluster"
      (sentinel rancher_resources_pending)

module _ (A : Api) (H : HostApi A.World) (o : Orders) (h : Handler) where
  -- The item's service is to be imported and has its provisioning cluster, and Rancher has made no
  -- management cluster for it.
  pub record Awaits (item : Item) (service : Service) (ns : Namespace) (cluster : Unstructured)
      (failure : Error) (w : A.World) : Type 0 where
    pub cached : H.get_by_key item.key w ≡ ok (some service)
    pub alive : service.deleting ≡ false
    pub has_ip : service.cluster_ip ≢ "None"
    pub imported : get service.annotations annotation_skip_import ≢ "true"
    pub in_namespace : H.get_namespace service.namespace w ≡ ok ns
    pub provisioned :
        get_first_with_label A cluster_provisioning_cattle label_vcluster_service_uid service.uid w
        ≡ ok cluster
    pub unmanaged :
        get_first_with_label A clusters_management_cattle label_vcluster_service_uid service.uid w
        ≡ err failure
    pub missing : is_not_found failure ≡ true

  module _ (item : Item) (service : Service) (ns : Namespace) (cluster : Unstructured)
      (failure : Error) (w : A.World) (awaits : Awaits item service ns cluster failure w) where
    provisioned_before : ensure_provisioning_cluster A h service ns w ≡ (ok cluster, w)
    unfolding ensure_provisioning_cluster
    provisioned_before = rw (awaits.provisioned, ensure_provisioning_cluster)

    rancher_pending :
        get_rancher_resources A H o h service cluster w
        ≡ (err (sentinel rancher_resources_pending), w)
    unfolding get_rancher_resources
    rancher_pending = rw (awaits.unmanaged, get_rancher_resources) (ground arith)

    deploy_pending : deploy_vcluster_rancher_cluster A H o h service w ≡ (some pending_error, w)
    unfolding deploy_vcluster_rancher_cluster
    deploy_pending = ground (
      arith,
      awaits,
      eq_iff service.cluster_ip "None",
      eq_iff (get service.annotations annotation_skip_import) "true",
      provisioned_before,
      rancher_pending,
    )

    reconcile_pending : reconcile A H o h item w ≡ (some pending_error, w)
    unfolding reconcile
    reconcile_pending = ground (arith, awaits, deploy_pending)

    -- A worker that takes the item of a service whose provisioning cluster exists and for which
    -- Rancher has made no management cluster changes nothing in the clusters. The item comes back
    -- after five seconds, and none of its failures stays counted.
    pub process_next_work_item_awaits :
        (W : WorkQueue) (view : Observer W) (q : W.Q)
        → IsLawful W view
        → (W.get q).0 ≡ some item
        → let (more, (q', w')) = process_next_work_item W (reconcile A H o h) wait_errs (q, w) in
          (w' ≡ w)
          × (view.num_requeues q' item ≡ 0)
          × (view.scheduled q' ≡ (item, after retry_interval) ∷ view.scheduled q)
    unfolding is_waiting
    process_next_work_item_awaits W view q laws got =
        let done =
          process_next_work_item_lem W view laws (reconcile A H o h) wait_errs item q w got in
        let outcome = rw reconcile_pending at done in (outcome.1, outcome.2, outcome.3)
