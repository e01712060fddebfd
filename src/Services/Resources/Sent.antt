-- ===== src/Services/Resources/Sent.antt =====
-- What Rancher is sent for the management cluster.
use Prim.Native.String.{◌++◌ as ◌<>◌}
use vcluster_rancher_operato.Prelude.{
  ◌+◌, ◌-◌, String, ◌==◌, ◌≡◌, refl, Bool, false, not, ◌&&◌, ◌||◌, some, [], ◌∷◌, if◌then◌else◌,
  arith,
}
use vcluster_rancher_operato.Maps.{get, lookup}
use vcluster_rancher_operato.Maps.Laws.{lookup-insert}
use vcluster_rancher_operato.Errors.{ok}
use vcluster_rancher_operato.Constants.{label_target_app}
use vcluster_rancher_operato.Unstructured.{Unstructured, as_bool, get_nested}
use vcluster_rancher_operato.Client.{Api}
use vcluster_rancher_operato.Kube.{Service}
use vcluster_rancher_operato.Services.Defs.{Handler}
use vcluster_rancher_operato.Services.Labels.{Orders, HasMembers}
use vcluster_rancher_operato.Services.Labels.Laws.{source_label, is_synced, lookup-sync_labels}
use vcluster_rancher_operato.Services.Host.{HostApi}
use vcluster_rancher_operato.Services.Resources.{
  target_app, mark_for_cleanup, is_provisioned, with_synced_labels,
}
use vcluster_rancher_operato.Services.Resources.Finalizers.{count, count-mark_for_cleanup}

-- Rancher says in the status of the provisioning cluster that it is ready.
abbrev pub reports_ready : Unstructured → Bool
reports_ready cluster = get_nested as_bool false cluster.content ("status" ∷ "ready" ∷ [])

pub is_provisioned_lem : (cluster : Unstructured) → is_provisioned cluster ≡ reports_ready cluster
unfolding is_provisioned
is_provisioned_lem cluster = refl

-- The service asks for the uninstallation of its app when the cluster is deleted.
abbrev pub is_uninstalled : Service → Bool
is_uninstalled service = get service.annotations "loft.sh/uninstall-on-cluster-delete" == "true"

module _ (A : Api) (h : Handler) (service : Service) where
  -- The patch of the management cluster that was accepted. Its labels are those of the service
  -- where they are synced, and else the cluster's. Until the cluster is ready, its finalizers have
  -- the one for the cleanup once more, and a label names the app, where the service asks for the
  -- uninstallation; where it does not, they have that finalizer once less, if they had it.
  pub record IsPatched (provisioning_cluster orig changed : Unstructured) (w w' : A.World)
      : Type 0 where
    pub object : Unstructured
    pub patched : A.patch object orig w ≡ (ok changed, w')
    pub label :
        (k : String)
        → lookup k object.labels ≡ (
            if not (reports_ready provisioning_cluster)
              && is_uninstalled service
              && "loft.sh/target-app" == k
            then some (
                get service.annotations "meta.helm.sh/release-namespace"
                <> ("_" <> get service.annotations "meta.helm.sh/release-name"))
            else if is_synced h.config k
            then source_label service.labels k
            else lookup k orig.labels)
    pub finalizer :
        (f : String)
        → count f object.finalizers ≡ (
            if reports_ready provisioning_cluster || not ("loft.sh/vcluster-app-cleanup" == f)
            then count f orig.finalizers
            else if is_uninstalled service
            then count f orig.finalizers + 1
            else count f orig.finalizers - 1)

module _ (A : Api) (H : HostApi A.World) (o : Orders) (h : Handler) (service : Service) where
  -- The management cluster that the code sends.
  abbrev pub sent : Unstructured → Unstructured → Unstructured
  sent provisioning_cluster orig =
      if is_provisioned provisioning_cluster
      then with_synced_labels A H o h service orig
      else mark_for_cleanup service (with_synced_labels A H o h service orig)

  lookup-mark_for_cleanup :
      (cluster : Unstructured) (k : String)
      → lookup k (mark_for_cleanup service cluster).labels ≡ (
          if is_uninstalled service && label_target_app == k
          then some (
              get service.annotations "meta.helm.sh/release-namespace"
              <> ("_" <> get service.annotations "meta.helm.sh/release-name"))
          else lookup k cluster.labels)
  unfolding mark_for_cleanup target_app
  lookup-mark_for_cleanup cluster k =
      ground (arith, lookup-insert label_target_app k (target_app service) cluster.labels)

  sent-label :
      (members : HasMembers o) (provisioning_cluster orig : Unstructured) (k : String)
      → lookup k (sent provisioning_cluster orig).labels ≡ (
          if not (reports_ready provisioning_cluster)
            && is_uninstalled service
            && label_target_app == k
          then some (
              get service.annotations "meta.helm.sh/release-namespace"
              <> ("_" <> get service.annotations "meta.helm.sh/release-name"))
          else if is_synced h.config k
          then source_label service.labels k
          else lookup k orig.labels)
  sent-label members provisioning_cluster orig k = ground (
    arith,
    is_provisioned_lem provisioning_cluster,
    lookup-mark_for_cleanup (with_synced_labels A H o h service orig) k,
    lookup-sync_labels o members h.config service.labels orig.labels k,
  )

  sent-finalizer :
      (provisioning_cluster orig : Unstructured) (f : String)
      → count f (sent provisioning_cluster orig).finalizers ≡ (
          if reports_ready provisioning_cluster || not ("loft.sh/vcluster-app-cleanup" == f)
          then count f orig.finalizers
          else if is_uninstalled service
          then count f orig.finalizers + 1
          else count f orig.finalizers - 1)
  sent-finalizer provisioning_cluster orig f = ground (
    arith,
    is_provisioned_lem provisioning_cluster,
    count-mark_for_cleanup service (with_synced_labels A H o h service orig) f,
  )

  pub sent-IsPatched :
      (members : HasMembers o) (provisioning_cluster orig changed : Unstructured) (w : A.World)
      → (A.patch (sent provisioning_cluster orig) orig w).0 ≡ ok changed
      → IsPatched A h service provisioning_cluster orig changed w
          (A.patch (sent provisioning_cluster orig) orig w).1
  sent-IsPatched members provisioning_cluster orig changed w e = record {
    object = sent provisioning_cluster orig;
    patched = λ i. (e i, (A.patch (sent provisioning_cluster orig) orig w).1);
    label = λ k. sent-label members provisioning_cluster orig k;
    finalizer = λ f. sent-finalizer provisioning_cluster orig f;
  }
