-- ===== src/Services/Reconcile.antt =====
-- `Reconcile` and `deployvClusterRancherCluster` in pkg/services/handler.go. The informer's cache
-- holds services only, so the type assertions on its objects succeed.
pub mod Safety
pub mod Success
pub mod Waiting
use vcluster_rancher_operato.Prelude.{
  String, ◌==◌, Bool, true, false, Option, none, some, List, [], ◌∷◌, if◌then◌else◌,
}
use vcluster_rancher_operato.Maps.{get}
use vcluster_rancher_operato.Errors.{Error, Result, ok, err, wrap}
use vcluster_rancher_operato.Constants.{annotation_skip_import}
use vcluster_rancher_operato.Unstructured.{Unstructured}
use vcluster_rancher_operato.Client.{Api}
use vcluster_rancher_operato.Kube.{Service, Namespace}
use vcluster_rancher_operato.Queue.{Item}
use vcluster_rancher_operato.Services.Defs.{Handler}
use vcluster_rancher_operato.Services.Labels.{Orders}
use vcluster_rancher_operato.Services.Host.{HostApi}
use vcluster_rancher_operato.Services.Provisioning.{
  cleanup_provisioning_cluster, ensure_provisioning_cluster,
}
use vcluster_rancher_operato.Services.Resources.{RancherResources, get_rancher_resources}
use vcluster_rancher_operato.Services.Agent.{ensure_agent_deployed}

module _ (A : Api) (H : HostApi A.World) (o : Orders) (h : Handler) where
  open A use {World}

  deploy_agent : Service → Result RancherResources × World → Option Error × World
  deploy_agent service (err e, w) =
      (some (wrap "failed waiting for rancher to create resource(s) for vCluster" e), w)
  deploy_agent service (ok resources, w) =
      ensure_agent_deployed H service resources.cluster_registration_token w

  await_rancher : Service → Result Unstructured × World → Option Error × World
  unfolding deploy_agent
  await_rancher service (err e, w) = (some e, w)
  await_rancher service (ok provisioning_cluster, w) =
      deploy_agent service (get_rancher_resources A H o h service provisioning_cluster w)

  deploy_in : Service → Result Namespace → World → Option Error × World
  unfolding await_rancher
  deploy_in service (err e) w = (some (wrap "failed to get vCluster's namespace [%s]" e), w)
  deploy_in service (ok ns) w = await_rancher service (ensure_provisioning_cluster A h service ns w)

  unfoldable pub deploy_vcluster_rancher_cluster : Service → World → Option Error × World
  unfolding deploy_in get
  deploy_vcluster_rancher_cluster service w =
      if service.cluster_ip == "None"
      then (none, w)
      else if get service.annotations annotation_skip_import == "true"
      then (none, w)
      else deploy_in service (H.get_namespace service.namespace w) w

  reconcile_found : Item → Result (Option Service) → World → Option Error × World
  unfolding deploy_vcluster_rancher_cluster
  reconcile_found item (err e) w = (some (wrap "error fetching object with key %s from store" e), w)
  reconcile_found item (ok none) w =
      if item.uid == "" then (none, w) else cleanup_provisioning_cluster A h item.uid w
  reconcile_found item (ok (some service)) w =
      if service.deleting
      then cleanup_provisioning_cluster A h service.uid w
      else deploy_vcluster_rancher_cluster service w

  unfoldable pub reconcile : Item → World → Option Error × World
  unfolding reconcile_found
  reconcile item w = reconcile_found item (H.get_by_key item.key w) w
