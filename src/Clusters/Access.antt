-- ===== src/Clusters/Access.antt =====
-- The clients for a host cluster, `getClusterClient` in
-- internal/controller/clusters/cluster_controller.go. The constructors of client-go and
-- controller-runtime are parameters.
use vcluster_rancher_operato.Prelude.{String, Option, none, some, List}
use vcluster_rancher_operato.Errors.{Error, Result, ok, err}
use vcluster_rancher_operato.Maps.{StringMap}
use vcluster_rancher_operato.Kube.{Service}
use vcluster_rancher_operato.Token.{KubeConfigs}

pub record HostClusters (K : KubeConfigs) (World : Type 0) : Type 1 where
  pub ClusterClient : Type 0
  -- `kubernetes.NewForConfig`
  pub new_for_config : K.RestConfig → Result ClusterClient
  -- `cluster.New`; its client is not used here
  pub new_cluster : K.RestConfig → Option Error
  -- the services of all namespaces with the label "app=vcluster"
  pub list_services : ClusterClient → World → Result (List Service)
  -- `AddEventHandler` of an informer for those services
  pub add_event_handler : ClusterClient → Option Error
  -- by namespace and name: the hard limits in the status of a resource quota
  pub get_resource_quota : ClusterClient → String → String → World → Result StringMap

module _ (K : KubeConfigs) {World : Type 0} (C : HostClusters K World) where
  unfoldable pub get_cluster_client : K.RestConfig → Result C.ClusterClient
  get_cluster_client rest_config = elim (C.new_for_config rest_config) [
    | err e ↦ err e
    | ok cluster_client ↦ elim (C.new_cluster rest_config) [
      | some e ↦ err e
      | none ↦ ok cluster_client
    ]
  ]
