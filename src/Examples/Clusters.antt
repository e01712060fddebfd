-- ===== src/Examples/Clusters.antt =====
-- The owners of a vCluster's management cluster.
use Prim.Native.String.{◌++◌ as ◌<>◌}
use vcluster_rancher_operato.Prelude.{
  String, ◌≡◌, refl, ◌↔◌, Bool, ◌&&◌, ◌||◌, Option, none, List, [], ◌∷◌, any, map,
}
use vcluster_rancher_operato.Strings.Laws.{Lacks, lacks-Lacks}
use vcluster_rancher_operato.Maps.{get, lookup}
use vcluster_rancher_operato.Errors.{Error, ok}
use vcluster_rancher_operato.Constants.{
  label_vcluster_service_uid, label_host_cluster_name, label_project_uid, label_project_name,
}
use vcluster_rancher_operato.Unstructured.{
  Unstructured, Fields, end, field, str, project_management_cattle,
  project_role_template_binding_management_cattle, cluster_role_template_binding_management_cattle,
}
use vcluster_rancher_operato.Client
use vcluster_rancher_operato.Client.Memory.{
  Memory, memory_api, memory_api-Selects, find_object, select_objects, create_in, delete_in,
}
use vcluster_rancher_operato.Kube.{Service}
use vcluster_rancher_operato.Services.Host.Memory.{memory_host}
use vcluster_rancher_operato.Services.Writes.{Writes}
use vcluster_rancher_operato.Services.Resources.{target_app}
use vcluster_rancher_operato.Clusters.Halves.{parse_halves, parse_halves-ok_iff}
use vcluster_rancher_operato.Clusters.TargetApp.{parse_halves-target_app}
use vcluster_rancher_operato.Clusters.Rbac.{
  prtb_namespace, role_template_bindings, sync_rancher_rbac,
}
use vcluster_rancher_operato.Clusters.Rbac.Bindings.{
  gives_project_access, gives_cluster_access, of_host, any-role_template_bindings,
}
use vcluster_rancher_operato.Clusters.Rbac.Grants.{IsGranted}
use vcluster_rancher_operato.Clusters.Rbac.Safety.{sync_rancher_rbac-Writes}
use vcluster_rancher_operato.Examples.Data.{service, start, management_cluster}

abbrev cluster : Unstructured
cluster = record management_cluster {
  labels =
      (label_vcluster_service_uid, "uid-1")
      ∷ (label_host_cluster_name, "c-m-1")
      ∷ (label_project_uid, "p-uid")
      ∷ (label_project_name, "p-1")
      ∷ [];
}

abbrev project : Unstructured
project = record management_cluster {
  gvk = project_management_cattle;
  name = "p-1";
  namespace = "c-m-1";
  uid = "p-uid";
}

abbrev binding_fields : String → String → Fields
binding_fields user role =
    field "userName" (str user)
      (field "projectName" (str "c-m-1:p-1") (field "roleTemplateName" (str role) end))

abbrev project_binding : String → String → String → Unstructured
project_binding name user role = record management_cluster {
  gvk = project_role_template_binding_management_cattle;
  name = name;
  namespace = "p-1";
  labels = [];
  content = binding_fields user role;
}

-- A binding that was made for a user who has lost access.
abbrev stale : Unstructured
stale = record management_cluster {
  gvk = cluster_role_template_binding_management_cattle;
  name = "vcluster-u-old-co";
  namespace = "c-m-2";
  labels = (label_vcluster_service_uid, "uid-1") ∷ [];
  content = binding_fields "u-old" "cluster-owner";
}

abbrev world : Memory
world = record start {
  objects =
      cluster
      ∷ project
      ∷ project_binding "b-1" "u-1" "project-owner"
      ∷ project_binding "b-2" "u-2" "read-only"
      ∷ stale
      ∷ [];
}

run : Memory → Option Error × Memory
unfolding sync_rancher_rbac find_object select_objects create_in delete_in
run w = sync_rancher_rbac memory_api cluster w

-- The owner of the project is made owner, the reader is not, and the stale binding goes.
run-world :
    ((run world).0 ≡ none)
    × (map (λ (object : Unstructured). object.name) (run world).1.objects
        ≡ "c-m-2" ∷ "p-1" ∷ "b-1" ∷ "b-2" ∷ "vcluster-u-1-co" ∷ [])
unfolding run
run-world = (refl, refl)

sync_rancher_rbac-Writes_example :
    Writes memory_api memory_host
      (IsGranted memory_api cluster world)
      world
      (sync_rancher_rbac memory_api cluster world).1
sync_rancher_rbac-Writes_example =
    sync_rancher_rbac-Writes memory_api memory_host cluster memory_api-Selects world

bindings_found :
    role_template_bindings memory_api cluster "c-m-1" project world
    ≡ ok (project_binding "b-1" "u-1" "project-owner" ∷ [])
unfolding role_template_bindings select_objects
bindings_found = refl

any-role_template_bindings_example :
    (prtbs crtbs : List Unstructured) × (Client.list memory_api
        project_role_template_binding_management_cattle
        (prtb_namespace project)
        world
      ≡ ok prtbs)
    × (memory_api.list cluster_role_template_binding_management_cattle (of_host "c-m-1") world
        ≡ ok crtbs)
    × ((p : Unstructured → Bool)
        → any p (project_binding "b-1" "u-1" "project-owner" ∷ []) ≡ (
            any (λ b. p b && gives_project_access project b) prtbs
            || any (λ b. p b && gives_cluster_access b) crtbs))
any-role_template_bindings_example =
    any-role_template_bindings memory_api cluster project "c-m-1" world
      (project_binding "b-1" "u-1" "project-owner" ∷ []) bindings_found

parse_halves-ok_iff_example :
    (parse_halves "c-m-1:p-1" b':' ≡ ok ("c-m-1", "p-1"))
    ↔ (("c-m-1:p-1" ≡ "c-m-1" <> ":p-1") × Lacks b':' "c-m-1" × Lacks b':' "p-1")
parse_halves-ok_iff_example = parse_halves-ok_iff ":" "c-m-1:p-1" "c-m-1" "p-1"

abbrev released : Service
released = record service {
  annotations =
      ("meta.helm.sh/release-namespace", "team") ∷ ("meta.helm.sh/release-name", "vc") ∷ [];
}

parse_halves-target_app_example : parse_halves (target_app released) b'_' ≡ ok ("team", "vc")
unfolding get lookup
parse_halves-target_app_example =
    parse_halves-target_app released (lacks-Lacks b'_' "team" refl) (lacks-Lacks b'_' "vc" refl)
