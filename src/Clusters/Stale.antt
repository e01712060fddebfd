-- ===== src/Clusters/Stale.antt =====
-- `SyncStaleResources` in internal/controller/clusters/cluster_controller.go: management clusters
-- whose service was deleted while the operator was offline.
pub mod Safety
use vcluster_rancher_operato.Prelude.{
  String, ◌==◌, Bool, true, false, not, ◌&&◌, ◌||◌, Option, none, some, List, [], ◌∷◌, any,
  contains, if◌then◌else◌,
}
use vcluster_rancher_operato.Maps.{get}
use vcluster_rancher_operato.Errors.{Error, Result, ok, err, wrap, is_not_found}
use vcluster_rancher_operato.Constants.{label_vcluster_service_uid, label_host_cluster_name}
use vcluster_rancher_operato.Unstructured.{Unstructured}
use vcluster_rancher_operato.Client.{Api}
use vcluster_rancher_operato.Kube.{Service}
use vcluster_rancher_operato.Token.{KubeConfigs, rest_config_from_token}
use vcluster_rancher_operato.Clusters.Access.{HostClusters, get_cluster_client}

-- The loop over the services.
abbrev pub has_service : String → List Service → Bool
has_service service_uid [] = false
has_service service_uid (svc ∷ services) =
    if svc.uid == service_uid then true else has_service service_uid services

module _ (A : Api) (K : KubeConfigs) (C : HostClusters K A.World) (rancher_token : String)
    (cluster : Unstructured) where
  open A use {World}

  abbrev pub stale_deleted : Option Error × World → Option Error × World
  stale_deleted (none, w) = (none, w)
  stale_deleted (some e, w) =
      if not (is_not_found e)
      then (some (wrap "failed to delete stale management cluster %s" e), w)
      else (none, w)

  pub check_services : Result (List Service) → World → Option Error × World
  unfolding is_not_found get
  check_services (err e) w = (some (wrap "failed to list services in host cluster %s" e), w)
  check_services (ok services) w =
      if has_service (get cluster.labels label_vcluster_service_uid) services
      then (none, w)
      else stale_deleted (A.delete cluster w)

  pub with_client : Result C.ClusterClient → World → Option Error × World
  unfolding check_services
  with_client (err e) w = (some (wrap "failed to get cluster client for host cluster %s" e), w)
  with_client (ok cluster_client) w = check_services (C.list_services cluster_client w) w

  pub with_rest_config : Result K.RestConfig → World → Option Error × World
  unfolding with_client get_cluster_client
  with_rest_config (err e) w = (some (wrap "failed to get rest config for host cluster %s" e), w)
  with_rest_config (ok rest_config) w = with_client (get_cluster_client K C rest_config) w

  -- `peers` are the clusters whose informer has been started.
  unfoldable pub sync_stale_resources : List String → World → Option Error × World
  unfolding with_rest_config rest_config_from_token get
  sync_stale_resources peers w =
      let service_uid = get cluster.labels label_vcluster_service_uid in
      let host_cluster_name = get cluster.labels label_host_cluster_name in
      if service_uid == "" || host_cluster_name == ""
      then (none, w)
      else if not (contains host_cluster_name peers)
      then (none, w)
      else with_rest_config (rest_config_from_token K host_cluster_name rancher_token) w
