-- ===== src/Services/Provisioning/Safety.antt =====
-- What is written about provisioning clusters and Fleet workspaces.
use vcluster_rancher_operato.Prelude.{
  String, ◌≡◌, refl, ◌⊎◌, inl, inr, Bool, true, false, [], ◌∷◌, ◌==◌, eq_iff, arith, not,
  Option-cases, if◌then◌else◌,
}
use vcluster_rancher_operato.Maps.{StringMap, get}
use vcluster_rancher_operato.Errors.{Error, Result-cases, is_not_found}
use vcluster_rancher_operato.Constants.{
  label_vcluster_service_uid, label_host_cluster_name, label_project_uid, label_auto_created,
}
use vcluster_rancher_operato.Unstructured.{
  Unstructured, cluster_provisioning_cattle, fleet_workspace_management_cattle, end,
}
use vcluster_rancher_operato.Client
use vcluster_rancher_operato.Client.{Api, create, object_to_create, get_first_with_label}
use vcluster_rancher_operato.Client.Laws.{Selects, get_first_with_label-Meets}
use vcluster_rancher_operato.Kube.{Service, Namespace}
use vcluster_rancher_operato.Services.Defs.{Handler}
use vcluster_rancher_operato.Services.Host.{HostApi}
use vcluster_rancher_operato.Services.Writes.{
  create_object, delete_object, Writes, nothing, one_write, Writes-trans, Writes-if,
}
use vcluster_rancher_operato.Services.Permitted.{Permitted}
use vcluster_rancher_operato.Services.Naming.Bounds.{Fits, get_provisioning_cluster_name-Fits}
use vcluster_rancher_operato.Services.Naming.{
  get_provisioning_cluster_name, get_target_cluster_namespace,
}
use vcluster_rancher_operato.Services.Provisioning.Cluster.{new_cluster_labels_lem}
use vcluster_rancher_operato.Services.Provisioning.{
  cleanup_provisioning_cluster, delete_if_hosted, create_workspace, missing_workspace,
  ensure_fleet_workspace, new_cluster_labels, create_named, create_in_workspace,
  create_provisioning_cluster, ensure_provisioning_cluster,
}

same_text : (s t : String) → not (s == t) ≡ false → s ≡ t
same_text s t h = ground (arith, eq_iff s t)

true_of_test : (b : Bool) → not b ≡ false → b ≡ true
true_of_test b h = ground arith

Fits-object :
    (name : String) (gen : Bool)
    → Fits name gen
    → ((((if gen then name else "") ≡ "") × Fits (if gen then "" else name) false)
        ⊎ (((if gen then "" else name) ≡ "") × Fits (if gen then name else "") true))
Fits-object name true fits = inr (refl, fits)
Fits-object name false fits = inl (refl, fits)

module _ (h : Handler) (A : Api) (H : HostApi A.World) where
  delete_if_hosted-Writes :
      (cluster : Unstructured) (w : A.World)
      → cluster.gvk ≡ cluster_provisioning_cattle
      → Writes A H (Permitted h) w (delete_if_hosted A h cluster w).1
  unfolding delete_if_hosted
  delete_if_hosted-Writes cluster w kind =
      let host = get cluster.labels label_host_cluster_name in
      Writes-if (not (host == h.cluster_name)) _ _ (λ _. nothing)
        (λ hosted. one_write (delete_object cluster) w (kind, same_text host h.cluster_name hosted))

  pub cleanup_provisioning_cluster-Writes :
      Selects A
      → (uid : String) (w : A.World)
      → Writes A H (Permitted h) w (cleanup_provisioning_cluster A h uid w).1
  unfolding cleanup_provisioning_cluster
  cleanup_provisioning_cluster-Writes selects uid w =
      let found =
        get_first_with_label A cluster_provisioning_cattle label_vcluster_service_uid uid w in
      elim (Result-cases found) [
        | inl (cluster, e) ↦
            rw (e, cleanup_provisioning_cluster)
              (delete_if_hosted-Writes cluster w
                (get_first_with_label-Meets A selects _ _ _ w cluster e).0)
        | inr (failure, e) ↦
            rw (e, cleanup_provisioning_cluster)
              (Writes-if (is_not_found failure) _ _ (λ _. nothing) (λ _. nothing))
      ]

  create_workspace-Writes :
      (namespace : String) (w : A.World)
      → h.config.fleet_auto_create_workspace ≡ true
      → Writes A H (Permitted h) w (create_workspace A h namespace w).1
  unfolding create_workspace
  create_workspace-Writes namespace w auto =
      one_write
        (create_object (
          object_to_create fleet_workspace_management_cattle namespace "" false
            ((label_auto_created, "true") ∷ []) [] end))
        w (inr (refl, auto))

  missing_workspace-Writes :
      (namespace : String) (e : Error) (w : A.World)
      → Writes A H (Permitted h) w (missing_workspace A h namespace e w).1
  unfolding missing_workspace
  missing_workspace-Writes namespace e w =
      Writes-if (not (is_not_found e)) _ _ (λ _. nothing)
        (λ _.
          Writes-if (not h.config.fleet_auto_create_workspace) _ _ (λ _. nothing)
            (λ auto. create_workspace-Writes namespace w (true_of_test _ auto)))

  ensure_fleet_workspace-Writes :
      (namespace : String) (w : A.World)
      → Writes A H (Permitted h) w (ensure_fleet_workspace A h namespace w).1
  unfolding ensure_fleet_workspace
  ensure_fleet_workspace-Writes namespace w =
      elim (Result-cases (Client.get A fleet_workspace_management_cattle namespace "" w)) [
        | inl (workspace, e) ↦ rw (e, ensure_fleet_workspace) nothing
        | inr (failure, e) ↦
            rw (e, ensure_fleet_workspace) (missing_workspace-Writes namespace failure w)
      ]

  -- A cluster of this host cluster by its labels, with a name that was generated for it.
  create_named-Writes :
      (service : Service) (labels : StringMap) (namespace : String) (w : A.World)
      → get labels label_host_cluster_name ≡ h.cluster_name
      → Writes A H (Permitted h) w (create_named A h service labels namespace w).1
  unfolding create_named
  create_named-Writes service labels namespace w hosted =
      elim (Result-cases (get_provisioning_cluster_name h service)) [
        | inl ((name, gen), e) ↦
            rw (e, create_named)
              (one_write
                (create_object
                  (object_to_create cluster_provisioning_cattle name namespace gen labels [] end))
                w
                (inl (
                  (refl, hosted),
                  Fits-object name gen (get_provisioning_cluster_name-Fits h service name gen e),
                )))
        | inr (failure, e) ↦ rw (e, create_named) nothing
      ]

  create_in_workspace-Writes :
      (service : Service) (labels : StringMap) (w : A.World)
      → get labels label_host_cluster_name ≡ h.cluster_name
      → Writes A H (Permitted h) w (create_in_workspace A h service labels w).1
  unfolding create_in_workspace
  create_in_workspace-Writes service labels w hosted =
      let namespace = get_target_cluster_namespace h (get labels label_project_uid) in
      let (e, w') = ensure_fleet_workspace A h namespace w in
      let first = ensure_fleet_workspace-Writes namespace w in
      elim (Option-cases e) [
        | inl fine ↦
            rw (fine, create_in_workspace)
              (Writes-trans first (create_named-Writes service labels namespace w' hosted))
        | inr (failure, failed) ↦ rw (failed, create_in_workspace) first
      ]

  create_provisioning_cluster-Writes :
      (service : Service) (ns : Namespace) (w : A.World)
      → Writes A H (Permitted h) w (create_provisioning_cluster A h service ns w).1
  unfolding create_provisioning_cluster
  create_provisioning_cluster-Writes service ns w =
      elim (Result-cases (new_cluster_labels A h service ns w)) [
        | inl (labels, e) ↦
            rw (e, create_provisioning_cluster)
              (create_in_workspace-Writes service labels w
                (new_cluster_labels_lem h A service ns w labels e).1)
        | inr (failure, e) ↦ rw (e, create_provisioning_cluster) nothing
      ]

  pub ensure_provisioning_cluster-Writes :
      (service : Service) (ns : Namespace) (w : A.World)
      → Writes A H (Permitted h) w (ensure_provisioning_cluster A h service ns w).1
  unfolding ensure_provisioning_cluster
  ensure_provisioning_cluster-Writes service ns w =
      let found =
        get_first_with_label A cluster_provisioning_cattle label_vcluster_service_uid service.uid
          w in
      elim (Result-cases found) [
        | inl (cluster, e) ↦ rw (e, ensure_provisioning_cluster) nothing
        | inr (failure, e) ↦
            rw (e, ensure_provisioning_cluster)
              (Writes-if (is_not_found failure) _ _
                (λ _. create_provisioning_cluster-Writes service ns w) (λ _. nothing))
      ]
