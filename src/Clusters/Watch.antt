-- ===== src/Clusters/Watch.antt =====
-- `SetupWithManager` in internal/controller/clusters/cluster_controller.go, and the functions that
-- map a watched binding to the management clusters to reconcile. A request is the name of a
-- cluster.
pub mod Requests
use vcluster_rancher_operato.Prelude.{
  ℕ, String, Bool, true, Option, none, List, [], ◌∷◌, length, replicate, set_at,
}
use vcluster_rancher_operato.Errors.{Error, Result, ok, err}
use vcluster_rancher_operato.Constants.{label_host_cluster_name, label_project_uid}
use vcluster_rancher_operato.Unstructured.{
  Gvk, Unstructured, Fields, to_unstructured, get_nested_string, for_each_item,
  clusters_management_cattle, project_management_cattle,
  project_role_template_binding_management_cattle, cluster_role_template_binding_management_cattle,
}
use vcluster_rancher_operato.Client
use vcluster_rancher_operato.Client.{Api, list_with_label}
use vcluster_rancher_operato.Clusters.Halves.{parse_halves}

-- The slice has an entry for each item, and the loop assigns them by their index.
abbrev assign_request : ℕ → Unstructured → List String → Option Error × List String
assign_request index item requests = (none, set_at index item.name requests)

unfoldable pub requests_of : List Unstructured → List String
unfolding for_each_item
requests_of items = (for_each_item assign_request items (replicate (length items) "")).1

module _ (A : Api) where
  open A use {World}

  abbrev requests_of_list : Result (List Unstructured) → List String
  unfolding requests_of
  requests_of_list (err e) = []
  requests_of_list (ok items) = requests_of items

  clusters_of_project : Result Unstructured → World → List String
  unfolding requests_of_list list_with_label
  clusters_of_project (err e) w = []
  clusters_of_project (ok project) w =
      requests_of_list
        (list_with_label A clusters_management_cattle label_project_uid project.uid w)

  clusters_of_halves : Result (String × String) → World → List String
  unfolding clusters_of_project
  clusters_of_halves (err e) w = []
  clusters_of_halves (ok (cluster_id, project_id)) w =
      clusters_of_project (Client.get A project_management_cattle project_id cluster_id w) w

  unfoldable pub clusters_related_to_target_project : Unstructured → World → List String
  unfolding clusters_of_halves parse_halves get_nested_string
  clusters_related_to_target_project prtb w =
      clusters_of_halves (parse_halves (get_nested_string prtb.content ("projectName" ∷ [])) b':') w

  unfoldable pub clusters_hosted_by_cluster_target : Unstructured → World → List String
  unfolding requests_of_list list_with_label get_nested_string
  clusters_hosted_by_cluster_target crtb w =
      let cluster_name = get_nested_string crtb.content ("clusterName" ∷ []) in
      requests_of_list
        (list_with_label A clusters_management_cattle label_host_cluster_name cluster_name w)

  -- A kind that is watched, as the fields of an empty object, and the function that maps an object
  -- of it to requests. Only updates that change the resource version are seen.
  pub record Watched : Type 0 where
    pub object : Fields
    pub map_func : Unstructured → World → List String
    pub resource_version_changed : Bool

  -- What the controller is built from: what is watched beside the clusters themselves.
  pub record Setup : Type 0 where
    pub watches : List Watched
    pub for_object : Fields
    pub named : String
    pub max_concurrent_reconciles : ℕ

  -- `ToAPIVersionAndKind` is the argument.
  unfoldable pub setup_with_manager : (Gvk → String × String) → Setup
  unfolding clusters_related_to_target_project clusters_hosted_by_cluster_target to_unstructured
  setup_with_manager to_api_version_and_kind = record {
    watches =
        record {
          object =
              to_unstructured to_api_version_and_kind
                project_role_template_binding_management_cattle;
          map_func = clusters_related_to_target_project;
          resource_version_changed = true;
        }
        ∷ record {
          object =
              to_unstructured to_api_version_and_kind
                cluster_role_template_binding_management_cattle;
          map_func = clusters_hosted_by_cluster_target;
          resource_version_changed = true;
        }
        ∷ [];
    for_object = to_unstructured to_api_version_and_kind clusters_management_cattle;
    named = "cluster";
    max_concurrent_reconciles = 10;
  }
