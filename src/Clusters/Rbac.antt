-- ===== src/Clusters/Rbac.antt =====
-- `SyncRancherRBAC` in internal/controller/clusters/cluster_controller.go: the owners of the
-- management cluster of a vCluster are the users that role template bindings give access to its
-- project or its host cluster. Messages keep their format and leave out the values.
pub mod Bindings
pub mod Owners
pub mod Grants
pub mod Removal
pub mod Safety
use Prim.Native.String.{◌++◌ as ◌<>◌}
use vcluster_rancher_operato.Prelude.{
  ℕ, String, ◌==◌, Bool, true, false, not, ◌&&◌, ◌||◌, Option, none, some, List, [], ◌∷◌, ◌++◌,
  contains, length, if◌then◌else◌,
}
use vcluster_rancher_operato.Maps.{StringMap, get}
use vcluster_rancher_operato.Errors.{Error, Result, ok, err, plain, wrap, aggregate, is_not_found}
use vcluster_rancher_operato.Constants.{
  label_vcluster_service_uid, label_host_cluster_name, label_project_uid, label_project_name,
  label_parent_role_template_binding, label_child_role_template_binding,
  value_no_rancher_project_on_namespace,
}
use vcluster_rancher_operato.Unstructured.{
  Unstructured, Fields, end, field, str, get_nested_string, filter_items, for_each_item,
  project_management_cattle, project_role_template_binding_management_cattle,
  cluster_role_template_binding_management_cattle,
}
use vcluster_rancher_operato.Client
use vcluster_rancher_operato.Client.{
  Api, Requirement, equals, does_not_exist, create, list_with_options,
}

abbrev pub user_name : Unstructured → String
user_name item = get_nested_string item.content ("userName" ∷ [])

-- The namespace of the project's bindings.
unfoldable pub prtb_namespace : Unstructured → String
unfolding get_nested_string
prtb_namespace project =
    let backing_namespace =
      get_nested_string project.content ("status" ∷ "backingNamespace" ∷ []) in
    if not (backing_namespace == "") then backing_namespace else project.name

-- Of the project's bindings, first those of its owners and then those of its members.
unfoldable pub filter_prtbs : Unstructured → List Unstructured → List Unstructured
unfolding filter_items
filter_prtbs project items =
    let ours =
      filter_items items (project.namespace <> (":" <> project.name)) true ("projectName" ∷ []) in
    filter_items ours "project-owner" true ("roleTemplateName" ∷ [])
    ++ filter_items ours "project-member" true ("roleTemplateName" ∷ [])

-- The label that names the parent of a binding.
unfoldable pub parent_label : Unstructured → String
parent_label item =
    if item.gvk.kind == "ClusterRoleTemplateBinding"
    then label_child_role_template_binding
    else label_parent_role_template_binding

abbrev pub owner_binding_name : String → String
owner_binding_name user = "vcluster-" <> (user <> "-co")

-- The fields of a binding that makes a user owner.
abbrev pub owner_binding : Unstructured → String → Fields
owner_binding cluster user =
    field "userName" (str user)
      (field "clusterName" (str cluster.name) (field "roleTemplateName" (str "cluster-owner") end))

abbrev pub binding_labels : Unstructured → Unstructured → StringMap
binding_labels cluster item =
    (label_vcluster_service_uid, get cluster.labels label_vcluster_service_uid)
    ∷ (parent_label item, item.name)
    ∷ []

-- `clusterOwners[user] = struct{}{}`
abbrev pub add_owner : String → List String → List String
add_owner user owners = if contains user owners then owners else user ∷ owners

module _ (A : Api) (cluster : Unstructured) where
  open A use {World}

  -- The loop works on the set of owners and the world.
  abbrev Owners : Type 0
  Owners = List String × World

  abbrev binding_created : List String → Result Unstructured × World → Option Error × Owners
  binding_created owners (ok binding, w) = (none, (owners, w))
  binding_created owners (err e, w) = (
    some (
        wrap
          "failed to create cluster role template binding to add user [%s] as a cluster owner to the vCluster's rancher cluster [%s]"
          e),
    (owners, w),
  )

  create_binding : Unstructured → String → Owners → Option Error × Owners
  unfolding create parent_label get
  create_binding item user (owners, w) = binding_created owners (
      create A cluster_role_template_binding_management_cattle (owner_binding_name user)
        cluster.name false (binding_labels cluster item) [] (owner_binding cluster user) w)

  add_binding : Unstructured → String → Owners → Option Error × Owners
  unfolding create_binding is_not_found
  add_binding item user (owners, w) =
      elim (Client.get A cluster_role_template_binding_management_cattle (owner_binding_name user)
        cluster.name w) [
          | ok binding ↦ (none, (owners, w))
          | err e ↦
              if not (is_not_found e)
              then (some e, (owners, w))
              else create_binding item user (owners, w)
        ]

  -- The body of the first loop.
  unfoldable pub add_cluster_owner : ℕ → Unstructured → Owners → Option Error × Owners
  unfolding add_binding get_nested_string
  add_cluster_owner index item (owners, w) =
      let user = user_name item in
      if user == ""
      then (some (plain "user cannot be empty string"), (owners, w))
      else add_binding item user (add_owner user owners, w)

  abbrev binding_deleted : Option Error × World → Option Error × World
  binding_deleted (none, w) = (none, w)
  binding_deleted (some e, w) =
      if not (is_not_found e)
      then (some (wrap "failed to delete crtb mapped to deleted PRTB [%s/%s]" e), w)
      else (none, w)

  -- The body of the second loop.
  unfoldable pub remove_binding : List String → ℕ → Unstructured → World → Option Error × World
  unfolding get_nested_string is_not_found
  remove_binding owners index item w =
      let user = user_name item in
      if user == ""
      then (some (plain "user cannot be empty string"), w)
      else if contains user owners
      then (none, w)
      else binding_deleted (A.delete item w)

  abbrev aggregated : List Error × World → Option Error × World
  aggregated ([], w) = (none, w)
  aggregated (e ∷ es, w) = (some (aggregate (length (e ∷ es))), w)

  -- The loop over the bindings that carry the label of the service.
  pub remove_bindings : List String → Result (List Unstructured) → World → Option Error × World
  unfolding for_each_item remove_binding
  remove_bindings owners (err e) w = (
    some (
        wrap
          "failed to list ClusterRoleTemplateBindings that target vCluster's rancher cluster [%s]"
          e),
    w,
  )
  remove_bindings owners (ok crtbs) w = aggregated (for_each_item (remove_binding owners) crtbs w)

  unfoldable pub cleanup_bindings : List String → World → Option Error × World
  unfolding remove_bindings get
  cleanup_bindings owners w =
      let requirement =
        equals label_vcluster_service_uid (get cluster.labels label_vcluster_service_uid) in
      elim (A.new_requirement requirement) [
        | some e ↦ (
          some (
              wrap
                "failed to create requirement that filters for ClusterRoleTemplateBindings with loft.sh/vcluster-service-uid label"
                e),
          w,
        )
        | none ↦
            remove_bindings owners
              (list_with_options A cluster_role_template_binding_management_cattle
                (record { namespace = cluster.name; label_selector = requirement ∷ [] }) w)
              w
      ]

  after_owners : List Error × Owners → Option Error × World
  unfolding cleanup_bindings
  after_owners ([], (owners, w)) = cleanup_bindings owners w
  after_owners (e ∷ es, (owners, w)) = (
    some (
        wrap "failed to to create %d cluster role template bindings for vCluster's rancher cluster"
          (aggregate (length (e ∷ es)))),
    w,
  )

  -- What follows when the bindings have been found.
  unfoldable pub sync_owners : List Unstructured → World → Option Error × World
  unfolding after_owners for_each_item add_cluster_owner
  sync_owners bindings w = after_owners (for_each_item add_cluster_owner bindings ([], w))

  abbrev with_crtbs : List Unstructured → Result (List Unstructured) → Result (List Unstructured)
  with_crtbs prtbs (err e) =
      err (
        wrap "failed to list clusterRoleTemplateBindings that target vCluster's host cluster [%s]"
          e)
  with_crtbs prtbs (ok items) =
      ok (prtbs ++ filter_items items "cluster-owner" true ("roleTemplateName" ∷ []))

  abbrev pub add_crtbs : String → List Unstructured → World → Result (List Unstructured)
  add_crtbs host_cluster_name prtbs w =
      let requirement = does_not_exist label_vcluster_service_uid in
      elim (A.new_requirement requirement) [
        | some e ↦ err (
            wrap
              "failed to create requirement that filters for ClusterRoleTemplateBindings without loft.sh/vcluster-service-uid label"
              e)
        | none ↦ with_crtbs prtbs (
            list_with_options A cluster_role_template_binding_management_cattle
              (record { namespace = host_cluster_name; label_selector = requirement ∷ [] }) w)
      ]

  -- The bindings that make a user owner: those of the project, then those of the host cluster.
  unfoldable pub role_template_bindings : String → Unstructured → World → Result (List Unstructured)
  unfolding Client.list filter_prtbs filter_items prtb_namespace
  role_template_bindings host_cluster_name project w =
      elim (Client.list A project_role_template_binding_management_cattle (prtb_namespace project)
        w) [
          | err e ↦ err (
              wrap
                "failed to list projectRoleTemplateBindings that target vCluster's project [%s] in namespace [%s]"
                e)
          | ok items ↦ add_crtbs host_cluster_name (filter_prtbs project items) w
        ]

  in_project : String → String → Result Unstructured → World → Option Error × World
  unfolding role_template_bindings sync_owners
  in_project host_cluster_name project_uid (err e) w =
      (some (wrap "failed to get vCluster's project [%s/%s]" e), w)
  in_project host_cluster_name project_uid (ok project) w =
      if not (project.uid == project_uid)
      then (
        some (
            plain
              "vCluster was installed in project [%[1]s] with UID [%[2]s]. Current project [%[1]s] has mismatched UID [%[3]s]"),
        w,
      )
      else elim (role_template_bindings host_cluster_name project w) [
        | err e ↦ (some e, w)
        | ok bindings ↦ sync_owners bindings w
      ]

  -- The two tests on the labels only differ in their log lines.
  unfoldable pub sync_rancher_rbac : World → Option Error × World
  unfolding in_project get
  sync_rancher_rbac w =
      let project_uid = get cluster.labels label_project_uid in
      let project_name = get cluster.labels label_project_name in
      let host_cluster_name = get cluster.labels label_host_cluster_name in
      if project_uid == "" && project_name == "" && host_cluster_name == ""
      then (none, w)
      else if project_name == "" || project_uid == "" || host_cluster_name == ""
      then (none, w)
      else in_project host_cluster_name project_uid
          (Client.get A project_management_cattle project_name host_cluster_name w) w
