-- ===== src/Clusters/Stale/Safety.antt =====
-- Which management clusters `SyncStaleResources` deletes.
use vcluster_rancher_operato.Prelude.{
  String, ◌==◌, eq_iff, ◌≡◌, ◌≢◌, refl, true, false, not, ◌||◌, Option, none, some, List, [], ◌∷◌,
  All, contains, arith, Bool-cases, inl, inr,
}
use vcluster_rancher_operato.Maps.{get}
use vcluster_rancher_operato.Errors.{Error, Result, ok, err, Result-cases}
use vcluster_rancher_operato.Constants.{label_vcluster_service_uid, label_host_cluster_name}
use vcluster_rancher_operato.Unstructured.{Unstructured}
use vcluster_rancher_operato.Client.{Api}
use vcluster_rancher_operato.Kube.{Service}
use vcluster_rancher_operato.Token.{KubeConfigs, rest_config_from_token}
use vcluster_rancher_operato.Services.Host.{HostApi}
use vcluster_rancher_operato.Services.Writes.{
  Write, delete_object, Writes, nothing, one_write, Writes-if,
}
use vcluster_rancher_operato.Clusters.Access.{HostClusters, get_cluster_client}
use vcluster_rancher_operato.Clusters.Stale.{
  has_service, stale_deleted, check_services, with_client, with_rest_config, sync_stale_resources,
}

gone_of_not_has :
    (service_uid : String) (services : List Service)
    → has_service service_uid services ≡ false
    → All (λ svc. svc.uid ≢ service_uid) services
gone_of_not_has service_uid [] h = tt
gone_of_not_has service_uid (svc ∷ services) h = (
  ground (arith, eq_iff svc.uid service_uid, h),
  gone_of_not_has service_uid services (ground (arith, h)),
)

module _ (A : Api) (K : KubeConfigs) (C : HostClusters K A.World) (rancher_token : String)
    (cluster : Unstructured) where
  -- The cluster names a service and its host cluster, the informer of the host cluster has been
  -- started, and none of the services that are listed there is the one named.
  pub record IsStale (peers : List String) (w : A.World) : Type 0 where
    pub names_service : get cluster.labels label_vcluster_service_uid ≢ ""
    pub names_host : get cluster.labels label_host_cluster_name ≢ ""
    pub started : contains (get cluster.labels label_host_cluster_name) peers ≡ true
    pub rest_config : K.RestConfig
    pub configured :
        rest_config_from_token K (get cluster.labels label_host_cluster_name) rancher_token
        ≡ ok rest_config
    pub cluster_client : C.ClusterClient
    pub connected : get_cluster_client K C rest_config ≡ ok cluster_client
    pub services : List Service
    pub listed : C.list_services cluster_client w ≡ ok services
    pub gone : All (λ svc. svc.uid ≢ get cluster.labels label_vcluster_service_uid) services

  abbrev pub IsStaleDelete : List String → A.World → Write → Type 0
  IsStaleDelete peers w x = (x ≡ delete_object cluster) × IsStale peers w

  module _ (H : HostApi A.World) (peers : List String) (w : A.World) where
    stale_deleted_world :
        (r : Option Error × A.World) → (stale_deleted A K C rancher_token cluster r).1 ≡ r.1
    stale_deleted_world (none, v) = refl
    stale_deleted_world (some e, v) = ground arith

    check_services-Writes :
        (r : Result (List Service))
        → ((services : List Service)
            → r ≡ ok services
            → All (λ svc. svc.uid ≢ get cluster.labels label_vcluster_service_uid) services
            → IsStale peers w)
        → Writes A H (IsStaleDelete peers w) w (check_services A K C rancher_token cluster r w).1
    unfolding check_services
    check_services-Writes (err e) stale = nothing
    check_services-Writes (ok services) stale =
        elim (Bool-cases (has_service (get cluster.labels label_vcluster_service_uid) services)) [
          | inl present ↦ rw present nothing
          | inr absent ↦ rw absent (
              rw (stale_deleted_world (A.delete cluster w)) (
                one_write (delete_object cluster) w
                  (refl, stale services refl (gone_of_not_has _ services absent))))
        ]

    with_rest_config-Writes :
        (r : Result K.RestConfig)
        → ((rest_config : K.RestConfig) (cluster_client : C.ClusterClient) (services : List Service)
            → r ≡ ok rest_config
            → get_cluster_client K C rest_config ≡ ok cluster_client
            → C.list_services cluster_client w ≡ ok services
            → All (λ svc. svc.uid ≢ get cluster.labels label_vcluster_service_uid) services
            → IsStale peers w)
        → Writes A H (IsStaleDelete peers w) w (with_rest_config A K C rancher_token cluster r w).1
    unfolding with_rest_config with_client
    with_rest_config-Writes (err e) stale = nothing
    with_rest_config-Writes (ok rest_config) stale =
        elim (Result-cases (get_cluster_client K C rest_config)) [
          | inr (e, failed) ↦ rw failed nothing
          | inl (cluster_client, connected) ↦ rw connected (
              check_services-Writes (C.list_services cluster_client w) (λ services listed gone.
                stale rest_config cluster_client services refl connected listed gone))
        ]

    -- Nothing is written but the deletion of the management cluster itself, and that only where it
    -- is stale: it names a service and a host cluster whose informer has been started, and the
    -- services could be listed there and do not include the one named.
    pub sync_stale_resources-Writes :
        Writes A H
          (IsStaleDelete peers w)
          w
          (sync_stale_resources A K C rancher_token cluster peers w).1
    unfolding sync_stale_resources
    sync_stale_resources-Writes =
        let service_uid = get cluster.labels label_vcluster_service_uid in
        let host_cluster_name = get cluster.labels label_host_cluster_name in
        Writes-if (service_uid == "" || host_cluster_name == "") _ _ (λ _. nothing)
          (λ labelled.
            Writes-if (not (contains host_cluster_name peers)) _ _ (λ _. nothing)
              (λ known.
                with_rest_config-Writes (rest_config_from_token K host_cluster_name rancher_token)
                  (λ rest_config cluster_client services configured connected listed gone. record {
                    names_service = ground (arith, eq_iff service_uid "");
                    names_host = ground (arith, eq_iff host_cluster_name "");
                    started = ground arith;
                    rest_config = rest_config;
                    configured = configured;
                    cluster_client = cluster_client;
                    connected = connected;
                    services = services;
                    listed = listed;
                    gone = gone;
                  })))
