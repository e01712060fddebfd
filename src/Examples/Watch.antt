-- ===== src/Examples/Watch.antt =====
-- The requests after a change of a binding, and a second run for a service.
use vcluster_rancher_operato.Prelude.{
  String, ◌≡◌, ◌≢◌, refl, ap, inl, inr, true, false, List, [], ◌∷◌, In, ◌==◌, eq_iff, arith,
}
use vcluster_rancher_operato.Strings.{split}
use vcluster_rancher_operato.Strings.Laws.{lacks-Lacks}
use vcluster_rancher_operato.Maps.{get, lookup}
use vcluster_rancher_operato.Errors.{Result, ok}
use vcluster_rancher_operato.Constants.{
  label_host_cluster_name, label_project_uid, label_vcluster_service_uid,
}
use vcluster_rancher_operato.Unstructured.{
  Unstructured, field, str, end, find, get_nested_string, clusters_management_cattle,
  project_management_cattle, project_role_template_binding_management_cattle,
  cluster_role_template_binding_management_cattle, fleet_workspace_management_cattle,
  cluster_provisioning_cattle, no_object, for_each_item,
}
use vcluster_rancher_operato.Client
use vcluster_rancher_operato.Client.{list_with_label}
use vcluster_rancher_operato.Client.Memory.{
  Memory, memory_api, find_object, select_objects, create_in,
}
use vcluster_rancher_operato.Client.Memory.Stores.{memory_api-Stores, memory_api-IsStored}
use vcluster_rancher_operato.Services.Provisioning.{ensure_provisioning_cluster}
use vcluster_rancher_operato.Services.Provisioning.Once.{ensure_provisioning_cluster_twice}
use vcluster_rancher_operato.Clusters.Rbac.Bindings.{gives_project_access}
use vcluster_rancher_operato.Clusters.Watch.{
  clusters_related_to_target_project, clusters_hosted_by_cluster_target,
}
use vcluster_rancher_operato.Clusters.Watch.Requests.{project_binding-In, cluster_binding-In}
use vcluster_rancher_operato.Examples.Data.{
  handler, service, start, management_cluster, provisioning_cluster,
}

abbrev hosted : Unstructured
hosted = record management_cluster {
  labels = (label_host_cluster_name, "c-m-1") ∷ (label_project_uid, "p-uid") ∷ [];
}

abbrev project : Unstructured
project = record management_cluster {
  gvk = project_management_cattle;
  name = "p-1";
  namespace = "c-m-1";
  uid = "p-uid";
}

abbrev owner : Unstructured
owner = record management_cluster {
  gvk = project_role_template_binding_management_cattle;
  name = "b-1";
  content =
      field "projectName" (str "c-m-1:p-1") (field "roleTemplateName" (str "project-owner") end);
}

abbrev host_owner : Unstructured
host_owner = record owner {
  gvk = cluster_role_template_binding_management_cattle;
  content = field "clusterName" (str "c-m-1") end;
}

abbrev world : Memory
world = record start { objects = project ∷ hosted ∷ owner ∷ host_owner ∷ [] }

different : (a b : String) → (a == b) ≡ false → a ≢ b
different a b h e = ground (arith, eq_iff a b)

run : Unstructured → Memory → List String
unfolding clusters_related_to_target_project select_objects find_object split for_each_item find
run binding w = clusters_related_to_target_project memory_api binding w

run-owner : run owner world ≡ "c-m-2" ∷ []
unfolding run get_nested_string
run-owner = refl

access : gives_project_access project owner ≡ true
unfolding get_nested_string find
access = refl

found : Client.get memory_api project_management_cattle "p-1" "c-m-1" world ≡ ok project
unfolding find_object
found = refl

listed_by_project :
    list_with_label memory_api clusters_management_cattle label_project_uid "p-uid" world
    ≡ ok (hosted ∷ [])
unfolding list_with_label select_objects
listed_by_project = refl

listed_by_host :
    list_with_label memory_api clusters_management_cattle label_host_cluster_name "c-m-1" world
    ≡ ok (hosted ∷ [])
unfolding list_with_label select_objects
listed_by_host = refl

project_uid : get hosted.labels label_project_uid ≡ "p-uid"
unfolding get lookup
project_uid = refl

host_name : get hosted.labels label_host_cluster_name ≡ "c-m-1"
unfolding get lookup
host_name = refl

project_binding-In_example : In "c-m-2" (clusters_related_to_target_project memory_api owner world)
project_binding-In_example =
    project_binding-In memory_api memory_api-Stores world owner project hosted (hosted ∷ []) access
      (lacks-Lacks b':' "c-m-1" refl) (lacks-Lacks b':' "p-1" refl) found listed_by_project
      (memory_api-IsStored hosted world (inr (inl refl))) refl project_uid
      (different "p-uid" "" refl)

names_host : get_nested_string host_owner.content ("clusterName" ∷ []) ≡ "c-m-1"
unfolding get_nested_string find
names_host = refl

cluster_binding-In_example :
    In "c-m-2" (clusters_hosted_by_cluster_target memory_api host_owner world)
cluster_binding-In_example =
    cluster_binding-In memory_api memory_api-Stores world host_owner hosted "c-m-1" (hosted ∷ [])
      names_host listed_by_host (memory_api-IsStored hosted world (inr (inl refl))) refl host_name
      (different "c-m-1" "" refl)

first_run : Result Unstructured × Memory
unfolding ensure_provisioning_cluster select_objects create_in find_object
first_run = ensure_provisioning_cluster memory_api handler service (record { labels = [] }) start

abbrev made : Unstructured
made = record provisioning_cluster {
  labels =
      (label_vcluster_service_uid, "uid-1")
      ∷ (label_host_cluster_name, "c-m-1")
      ∷ (label_project_uid, "no-rancher-project-on-namespace")
      ∷ [];
  content = end;
}

abbrev workspace : Unstructured
workspace = record management_cluster {
  gvk = fleet_workspace_management_cattle;
  name = "fleet-default";
  uid = "uid-of-fleet-default";
  labels = ("platform.vcluster.com/auto-created", "true") ∷ [];
}

abbrev made_world : Memory
made_world = record start { objects = workspace ∷ made ∷ [] }

first_run-start : first_run ≡ (ok made, made_world)
unfolding first_run
first_run-start = refl

listed_by_uid :
    list_with_label memory_api cluster_provisioning_cattle label_vcluster_service_uid "uid-1"
      made_world
    ≡ ok (made ∷ [])
unfolding list_with_label select_objects
listed_by_uid = refl

is_real : made ≢ no_object
is_real e = different "c-m-1-team-vc" "" refl (ap (λ c. c.name) e)

ensure_provisioning_cluster_twice_example :
    (first : Unstructured) × (ensure_provisioning_cluster memory_api handler service
        (record { labels = [] })
        made_world
      ≡ (ok first, made_world))
unfolding first_run
ensure_provisioning_cluster_twice_example =
    ensure_provisioning_cluster_twice memory_api handler memory_api-Stores service
      (record { labels = [] }) start made_world made (made ∷ []) (different "uid-1" "" refl)
      first_run-start is_real listed_by_uid
