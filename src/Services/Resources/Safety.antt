-- ===== src/Services/Resources/Safety.antt =====
-- What is written about management clusters.
use vcluster_rancher_operato.Prelude.{
  ◌≡◌, refl, Bool, true, false, inl, inr, ◌==◌, if◌then◌else◌, eq_iff, arith,
}
use vcluster_rancher_operato.Maps.{get}
use vcluster_rancher_operato.Maps.Laws.{lookup-insert}
use vcluster_rancher_operato.Errors.{Result-cases}
use vcluster_rancher_operato.Constants.{
  label_vcluster_service_uid, annotation_uninstall_on_delete, label_target_app,
}
use vcluster_rancher_operato.Unstructured.{Unstructured, clusters_management_cattle}
use vcluster_rancher_operato.Client.{Api, get_first_with_label}
use vcluster_rancher_operato.Client.Laws.{Selects, get_first_with_label-Meets}
use vcluster_rancher_operato.Kube.{Service}
use vcluster_rancher_operato.Services.Defs.{Handler}
use vcluster_rancher_operato.Services.Host.{HostApi}
use vcluster_rancher_operato.Services.Labels.{Orders, HasMembers}
use vcluster_rancher_operato.Services.Labels.Protected.{lookup-sync_labels_protected}
use vcluster_rancher_operato.Services.Writes.{Writes, patch_object, nothing, one_write, Writes-if}
use vcluster_rancher_operato.Services.Permitted.{Permitted, KeepsLabels}
use vcluster_rancher_operato.Services.Resources.{
  target_app, mark_for_cleanup, is_provisioned, with_synced_labels, patch_management_cluster,
  get_rancher_resources,
}

abbrev SameBut : Unstructured → Unstructured → Type 0
SameBut changed orig =
    changed ≡ record orig { labels = changed.labels; finalizers = changed.finalizers }

SameBut-if :
    (b : Bool) (x y orig : Unstructured)
    → SameBut x orig
    → SameBut y orig
    → SameBut (if b then x else y) orig
SameBut-if true x y orig p q = p
SameBut-if false x y orig p q = q

module _ (h : Handler) (A : Api) (H : HostApi A.World) (o : Orders) (members : HasMembers o)
    (service : Service) where
  mark_for_cleanup-SameBut :
      (orig : Unstructured)
      → SameBut (mark_for_cleanup service (with_synced_labels A H o h service orig)) orig
  unfolding mark_for_cleanup
  mark_for_cleanup-SameBut orig =
      SameBut-if (get service.annotations annotation_uninstall_on_delete == "true") _ _ orig refl
        refl

  synced-KeepsLabels :
      (orig : Unstructured) → KeepsLabels (with_synced_labels A H o h service orig) orig
  synced-KeepsLabels orig k protected _ =
      lookup-sync_labels_protected o members h.config service.labels orig.labels k protected

  mark_for_cleanup-KeepsLabels :
      (orig : Unstructured)
      → KeepsLabels (mark_for_cleanup service (with_synced_labels A H o h service orig)) orig
  unfolding mark_for_cleanup
  mark_for_cleanup-KeepsLabels orig k protected other =
      let synced = with_synced_labels A H o h service orig in
      ground (
        arith,
        synced-KeepsLabels orig k protected other,
        eq_iff label_target_app k,
        lookup-insert label_target_app k (target_app service) synced.labels,
      )

  patch_management_cluster-Writes :
      (provisioning_cluster orig : Unstructured) (w : A.World)
      → orig.gvk ≡ clusters_management_cattle
      → Writes A H
          (Permitted h)
          w
          (patch_management_cluster A H o h service provisioning_cluster orig w).1
  unfolding patch_management_cluster
  patch_management_cluster-Writes provisioning_cluster orig w kind =
      let synced = with_synced_labels A H o h service orig in
      Writes-if (is_provisioned provisioning_cluster) _ _
        (λ _. one_write (patch_object synced orig) w (kind, refl, synced-KeepsLabels orig))
        (λ _.
          one_write (patch_object (mark_for_cleanup service synced) orig) w
            (kind, mark_for_cleanup-SameBut orig, mark_for_cleanup-KeepsLabels orig))

  pub get_rancher_resources-Writes :
      Selects A
      → (provisioning_cluster : Unstructured) (w : A.World)
      → Writes A H (Permitted h) w (get_rancher_resources A H o h service provisioning_cluster w).1
  unfolding get_rancher_resources
  get_rancher_resources-Writes selects provisioning_cluster w =
      let found =
        get_first_with_label A clusters_management_cattle label_vcluster_service_uid service.uid
          w in
      elim (Result-cases found) [
        | inl (orig, e) ↦
            rw (e, get_rancher_resources)
              (patch_management_cluster-Writes provisioning_cluster orig w
                (get_first_with_label-Meets A selects _ _ _ w orig e).0)
        | inr (failure, e) ↦ rw (e, get_rancher_resources) nothing
      ]
