-- ===== src/Services/Provisioning.antt =====
-- The provisioning cluster of a vCluster in pkg/services/handler.go: `cleanupProvisioningCluster`,
-- `ensureFleetWorkspace` and `ensureProvisioningCluster`. Messages keep their format and leave out
-- the values; log lines are left out.
pub mod Cluster
pub mod Once
pub mod Created
pub mod Safety
pub mod Workspace
use vcluster_rancher_operato.Prelude.{
  String, ◌==◌, Bool, true, false, not, Option, none, some, List, [], ◌∷◌, if◌then◌else◌,
}
use vcluster_rancher_operato.Maps.{StringMap, lookup, insert, get}
use vcluster_rancher_operato.Errors.{
  Error, Result, ok, err, plain, wrap, is_not_found, is_already_exists,
}
use vcluster_rancher_operato.Constants.{
  label_vcluster_service_uid, label_host_cluster_name, label_project_uid, label_project_name,
  label_auto_created, value_no_rancher_project_on_namespace,
}
use vcluster_rancher_operato.Unstructured.{
  Unstructured, no_object, end, cluster_provisioning_cattle, project_management_cattle,
  fleet_workspace_management_cattle,
}
use vcluster_rancher_operato.Client
use vcluster_rancher_operato.Client.{Api, create, get_first_with_label}
use vcluster_rancher_operato.Kube.{Service, Namespace}
use vcluster_rancher_operato.Services.Defs.{Handler}
use vcluster_rancher_operato.Services.Naming.{
  get_provisioning_cluster_name, get_target_cluster_namespace,
}

-- `if err != nil { return fmt.Errorf("…: %w", err) }; return nil`
abbrev pub wrap_error : String → Option Error → Option Error
wrap_error message none = none
wrap_error message (some e) = some (wrap message e)

module _ (A : Api) (h : Handler) where
  open A use {World}

  abbrev cluster_deleted : Option Error × World → Option Error × World
  cluster_deleted (e, w) =
      (wrap_error "failed to delete provisioning cluster for vCluster instance %s" e, w)

  delete_if_hosted : Unstructured → World → Option Error × World
  unfolding get
  delete_if_hosted cluster w =
      if not (get cluster.labels label_host_cluster_name == h.cluster_name)
      then (none, w)
      else cluster_deleted (A.delete cluster w)

  unfoldable pub cleanup_provisioning_cluster : String → World → Option Error × World
  unfolding delete_if_hosted get_first_with_label is_not_found
  cleanup_provisioning_cluster uid w =
      elim (get_first_with_label A cluster_provisioning_cattle label_vcluster_service_uid uid w) [
        | ok cluster ↦ delete_if_hosted cluster w
        | err e ↦
            if is_not_found e
            then (none, w)
            else (some (wrap "error getting provisioning cluster for vCluster instance %s" e), w)
      ]

  workspace_created : Result Unstructured → Option Error
  unfolding is_already_exists
  workspace_created (ok workspace) = none
  workspace_created (err e) =
      if is_already_exists e then none else some (wrap "failed to create fleet workspace %q" e)

  create_workspace : String → World → Option Error × World
  unfolding workspace_created create
  create_workspace namespace w =
      let (r, w') =
        create A fleet_workspace_management_cattle namespace "" false
          ((label_auto_created, "true") ∷ []) [] end w in
      (workspace_created r, w')

  missing_workspace : String → Error → World → Option Error × World
  unfolding create_workspace is_not_found
  missing_workspace namespace e w =
      if not (is_not_found e)
      then (some (wrap "failed to check fleet workspace %q" e), w)
      else if not h.config.fleet_auto_create_workspace
      then (some (plain "fleet workspace %q does not exist"), w)
      else create_workspace namespace w

  unfoldable pub ensure_fleet_workspace : String → World → Option Error × World
  unfolding missing_workspace
  ensure_fleet_workspace namespace w =
      elim (Client.get A fleet_workspace_management_cattle namespace "" w) [
        | ok workspace ↦ (none, w)
        | err e ↦ missing_workspace namespace e w
      ]

  abbrev base_labels : Service → StringMap
  base_labels service =
      (label_vcluster_service_uid, service.uid) ∷ (label_host_cluster_name, h.cluster_name) ∷ []

  -- The labels of a new provisioning cluster.
  unfoldable pub new_cluster_labels : Service → Namespace → World → Result StringMap
  unfolding lookup insert
  new_cluster_labels service ns w = elim (lookup "field.cattle.io/projectId" ns.labels) [
    | none ↦
        ok (insert label_project_uid value_no_rancher_project_on_namespace (base_labels service))
    | some project_id ↦ elim (Client.get A project_management_cattle project_id h.cluster_name w) [
      | err e ↦ err (wrap "failed to get project for vCluster's namespace [%s]" e)
      | ok project ↦ ok (
          insert label_project_name project.name
            (insert label_project_uid project.uid (base_labels service)))
    ]
  ]

  -- A cluster that exists already is not read again: the empty object is returned.
  cluster_created : Result Unstructured → Result Unstructured
  unfolding is_already_exists
  cluster_created (ok cluster) = ok cluster
  cluster_created (err e) =
      if is_already_exists e
      then ok no_object
      else err (wrap "errors creating provisioning cluster for vCluster instance" e)

  create_named : Service → StringMap → String → World → Result Unstructured × World
  unfolding cluster_created create get_provisioning_cluster_name
  create_named service labels namespace w = elim (get_provisioning_cluster_name h service) [
    | err e ↦ (err (wrap "failed to generate provisioning cluster name" e), w)
    | ok (cluster_name, use_gen_name) ↦
        let (r, w') =
          create A cluster_provisioning_cattle cluster_name namespace use_gen_name labels [] end
            w in
        (cluster_created r, w')
  ]

  create_in_workspace : Service → StringMap → World → Result Unstructured × World
  unfolding ensure_fleet_workspace create_named get_target_cluster_namespace get
  create_in_workspace service labels w =
      let namespace = get_target_cluster_namespace h (get labels label_project_uid) in
      let (e, w') = ensure_fleet_workspace namespace w in
      elim e [ some failure ↦ (err failure, w') | none ↦ create_named service labels namespace w' ]

  create_provisioning_cluster : Service → Namespace → World → Result Unstructured × World
  unfolding new_cluster_labels create_in_workspace
  create_provisioning_cluster service ns w = elim (new_cluster_labels service ns w) [
    | err e ↦ (err e, w)
    | ok labels ↦ create_in_workspace service labels w
  ]

  unfoldable pub ensure_provisioning_cluster :
      Service → Namespace → World → Result Unstructured × World
  unfolding create_provisioning_cluster get_first_with_label is_not_found
  ensure_provisioning_cluster service ns w =
      elim (get_first_with_label A cluster_provisioning_cattle label_vcluster_service_uid
        service.uid w) [
          | ok cluster ↦ (ok cluster, w)
          | err e ↦
              if is_not_found e
              then create_provisioning_cluster service ns w
              else (err (wrap "error getting provisioning cluster for vCluster instance" e), w)
        ]
