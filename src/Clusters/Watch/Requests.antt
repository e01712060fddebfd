-- ===== src/Clusters/Watch/Requests.antt =====
-- Which clusters are reconciled after a change of a binding.
use Prim.Native.String.{◌++◌ as ◌<>◌}
use vcluster_rancher_operato.Prelude.{
  String, eq_iff, ◌≡◌, ◌≢◌, refl, inl, true, List, [], ◌∷◌, map, In, In-map, arith,
}
use vcluster_rancher_operato.Strings.Laws.{Lacks}
use vcluster_rancher_operato.Maps.{get}
use vcluster_rancher_operato.Maps.Laws.{lookup_of_get}
use vcluster_rancher_operato.Errors.{ok}
use vcluster_rancher_operato.Constants.{label_host_cluster_name, label_project_uid}
use vcluster_rancher_operato.Unstructured.{
  Unstructured, get_nested_string, clusters_management_cattle, project_management_cattle,
}
use vcluster_rancher_operato.Unstructured.Loops.{for_each_item-fill}
use vcluster_rancher_operato.Client
use vcluster_rancher_operato.Client.{Api, equals, list_with_label}
use vcluster_rancher_operato.Client.Laws.{labelled, list_of_label}
use vcluster_rancher_operato.Client.Stores.{Stores}
use vcluster_rancher_operato.Clusters.Halves.{parse_halves-ok_iff}
use vcluster_rancher_operato.Clusters.Rbac.Bindings.{gives_project_access}
use vcluster_rancher_operato.Clusters.Watch.{
  requests_of, clusters_related_to_target_project, clusters_hosted_by_cluster_target,
}

requests_of-map : (items : List Unstructured) → requests_of items ≡ map (λ item. item.name) items
unfolding requests_of
requests_of-map items = for_each_item-fill (λ item. item.name) "" items

-- The test on the field that names the project.
in_project_of :
    (project binding : Unstructured)
    → gives_project_access project binding ≡ true
    → get_nested_string binding.content ("projectName" ∷ [])
      ≡ project.namespace <> (":" <> project.name)
in_project_of project binding h =
    (eq_iff (get_nested_string binding.content ("projectName" ∷ []))
        (project.namespace <> (":" <> project.name))).0
      (ground arith)

module _ (A : Api) (stores : Stores A) (w : A.World) where
  -- A stored cluster with the label is among those that are listed by it.
  requested :
      (cluster : Unstructured) (key value : String) (items : List Unstructured)
      → list_with_label A clusters_management_cattle key value w ≡ ok items
      → stores.IsStored cluster w
      → cluster.gvk ≡ clusters_management_cattle
      → get cluster.labels key ≡ value
      → value ≢ ""
      → In cluster.name (requests_of items)
  requested cluster key value items listed stored kind label named = rw (requests_of-map items) (
      In-map (λ item. item.name) cluster items
        (stores.listed_all clusters_management_cattle (labelled key value) w items cluster
          (list_of_label A clusters_management_cattle key value w items listed) stored
          (kind, inl refl, (lookup_of_get cluster.labels key value label named, tt))))

  -- A change of a binding that gives access to a project leads to a reconciliation of every stored
  -- management cluster that names this project by its UID, if the project can be read, neither its
  -- namespace nor its name holds ":", and the clusters can be listed.
  pub project_binding-In :
      (binding project cluster : Unstructured) (items : List Unstructured)
      → gives_project_access project binding ≡ true
      → Lacks b':' project.namespace
      → Lacks b':' project.name
      → Client.get A project_management_cattle project.name project.namespace w ≡ ok project
      → list_with_label A clusters_management_cattle label_project_uid project.uid w ≡ ok items
      → stores.IsStored cluster w
      → cluster.gvk ≡ clusters_management_cattle
      → get cluster.labels label_project_uid ≡ project.uid
      → project.uid ≢ ""
      → In cluster.name (clusters_related_to_target_project A binding w)
  unfolding clusters_related_to_target_project
  project_binding-In binding project cluster items access c n found listed stored kind label named =
      let halves =
        (parse_halves-ok_iff ":" (get_nested_string binding.content ("projectName" ∷ []))
            project.namespace project.name).1
          (in_project_of project binding access, c, n) in
      rw (halves) (
        rw found (
          rw listed
            (requested cluster label_project_uid project.uid items listed stored kind label named)))

  -- A change of a binding for a host cluster leads to a reconciliation of every stored management
  -- cluster that names this host cluster, if the clusters can be listed.
  pub cluster_binding-In :
      (binding cluster : Unstructured) (host : String) (items : List Unstructured)
      → get_nested_string binding.content ("clusterName" ∷ []) ≡ host
      → list_with_label A clusters_management_cattle label_host_cluster_name host w ≡ ok items
      → stores.IsStored cluster w
      → cluster.gvk ≡ clusters_management_cattle
      → get cluster.labels label_host_cluster_name ≡ host
      → host ≢ ""
      → In cluster.name (clusters_hosted_by_cluster_target A binding w)
  unfolding clusters_hosted_by_cluster_target
  cluster_binding-In binding cluster host items names listed stored kind label named = rw names (
      rw listed
        (requested cluster label_host_cluster_name host items listed stored kind label named))
