-- ===== src/Services/Resources.antt =====
-- What Rancher has made for a vCluster, `getRancherResources` in pkg/services/handler.go.
pub mod Safety
pub mod Finalizers
pub mod Patched
pub mod Sent
pub mod Ready
use Prim.Native.String.{◌++◌ as ◌<>◌}
use vcluster_rancher_operato.Prelude.{
  String, ◌==◌, Bool, true, false, Option, none, some, List, [], ◌∷◌, ◌++◌, if◌then◌else◌,
}
use vcluster_rancher_operato.Maps.{StringMap, get, insert}
use vcluster_rancher_operato.Errors.{
  Error, Result, ok, err, wrap, sentinel, rancher_resources_pending, is_not_found, is_conflict,
}
use vcluster_rancher_operato.Constants.{
  label_vcluster_service_uid, label_target_app, annotation_uninstall_on_delete,
  finalizer_vcluster_app,
}
use vcluster_rancher_operato.Unstructured.{
  Unstructured, no_object, as_bool, get_nested, clusters_management_cattle,
  cluster_registration_token_management_cattle,
}
use vcluster_rancher_operato.Client
use vcluster_rancher_operato.Client.{Api, get_first_with_label}
use vcluster_rancher_operato.Kube.{Service}
use vcluster_rancher_operato.Services.Defs.{Handler}
use vcluster_rancher_operato.Services.Labels.{Orders, sync_labels}
use vcluster_rancher_operato.Services.Host.{HostApi}

-- `isReady`, the management cluster and the cluster registration token.
pub record RancherResources : Type 0 where
  pub is_ready : Bool
  pub management_cluster : Unstructured
  pub cluster_registration_token : Unstructured

-- `slices.Delete` at `slices.Index`: the first occurrence, if there is one.
unfoldable pub delete_first : String → List String → List String
delete_first finalizer [] = []
delete_first finalizer (f ∷ fs) = if f == finalizer then fs else f ∷ delete_first finalizer fs

-- `fmt.Sprintf("%s_%s", …)`
unfoldable pub target_app : Service → String
unfolding get
target_app service =
    get service.annotations "meta.helm.sh/release-namespace"
    <> ("_" <> get service.annotations "meta.helm.sh/release-name")

-- The finalizer and the target app.
unfoldable pub mark_for_cleanup : Service → Unstructured → Unstructured
unfolding get insert delete_first target_app
mark_for_cleanup service cluster =
    if get service.annotations annotation_uninstall_on_delete == "true"
    then record cluster {
      finalizers = cluster.finalizers ++ finalizer_vcluster_app ∷ [];
      labels = insert label_target_app (target_app service) cluster.labels;
    }
    else record cluster { finalizers = delete_first finalizer_vcluster_app cluster.finalizers }

-- `if kerrors.IsConflict(err) { return …, ErrRancherResourcesPending }; return …, fmt.Errorf(…)`
pending_if : Bool → String → Error → Error
pending_if waits message e = if waits then sentinel rancher_resources_pending else wrap message e

unfoldable pub is_provisioned : Unstructured → Bool
unfolding get_nested
is_provisioned provisioning_cluster =
    get_nested as_bool false provisioning_cluster.content ("status" ∷ "ready" ∷ [])

module _ (A : Api) (H : HostApi A.World) (o : Orders) (h : Handler) (service : Service) where
  open A use {World}

  ready_patched : Result Unstructured → Result RancherResources
  unfolding pending_if is_conflict
  ready_patched (ok cluster) = ok (record {
    is_ready = true;
    management_cluster = cluster;
    cluster_registration_token = no_object;
  })
  ready_patched (err e) =
      err (pending_if (is_conflict e) "failed to patch ready management cluster" e)

  -- The secret of the vCluster.
  await_secret : Unstructured → Unstructured → World → Result RancherResources
  unfolding pending_if is_not_found
  await_secret cluster token w = elim (H.get_secret service.namespace ("vc-" <> service.name) w) [
    | some e ↦ err (pending_if (is_not_found e) "failed to get vcluster secret" e)
    | none ↦ ok (record {
      is_ready = true;
      management_cluster = cluster;
      cluster_registration_token = token;
    })
  ]

  await_token : Unstructured → World → Result RancherResources
  unfolding await_secret
  await_token cluster w =
      elim (Client.get A cluster_registration_token_management_cattle "default-token" cluster.name
        w) [
          | err e ↦ err (
              pending_if (is_not_found e) "failed to get cluster registration token for vCluster" e)
          | ok token ↦ await_secret cluster token w
        ]

  pending_patched : Result Unstructured → World → Result RancherResources
  unfolding await_token
  pending_patched (err e) w =
      err (pending_if (is_conflict e) "failed to patch pending management cluster" e)
  pending_patched (ok cluster) w = await_token cluster w

  abbrev with_synced_labels : Unstructured → Unstructured
  with_synced_labels cluster = record cluster {
    labels = sync_labels o h.config service.labels cluster.labels;
  }

  patch_management_cluster : Unstructured → Unstructured → World → Result RancherResources × World
  unfolding ready_patched pending_patched is_provisioned mark_for_cleanup sync_labels
  patch_management_cluster provisioning_cluster orig w =
      if is_provisioned provisioning_cluster
      then (let (r, w') = A.patch (with_synced_labels orig) orig w in (ready_patched r, w'))
      else (let (r, w') = A.patch (mark_for_cleanup service (with_synced_labels orig)) orig w in
          (pending_patched r w', w'))

  unfoldable pub get_rancher_resources : Unstructured → World → Result RancherResources × World
  unfolding patch_management_cluster get_first_with_label
  get_rancher_resources provisioning_cluster w =
      elim (get_first_with_label A clusters_management_cattle label_vcluster_service_uid service.uid
        w) [
          | err e ↦ (
            err (pending_if (is_not_found e) "failed to get management cluster for vCluster" e),
            w,
          )
          | ok cluster ↦ patch_management_cluster provisioning_cluster cluster w
        ]
