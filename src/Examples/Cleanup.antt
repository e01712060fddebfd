-- ===== src/Examples/Cleanup.antt =====
-- The cleanup of a management cluster that is being deleted.
use Prim.Native.String.{◌++◌ as ◌<>◌}
use vcluster_rancher_operato.Prelude.{String, ◌≡◌, ◌≢◌, refl, true, none, [], ◌∷◌, eq_iff, arith}
use vcluster_rancher_operato.Strings.{split}
use vcluster_rancher_operato.Maps.{get, lookup}
use vcluster_rancher_operato.Errors.{ok, is_not_found}
use vcluster_rancher_operato.Constants.{
  label_target_app, label_host_cluster_name, finalizer_vcluster_app,
}
use vcluster_rancher_operato.Unstructured.{Unstructured}
use vcluster_rancher_operato.Client.Memory.{Memory, memory_api, patch_in}
use vcluster_rancher_operato.Services.Resources.{delete_first}
use vcluster_rancher_operato.Clusters.Halves.{parse_halves}
use vcluster_rancher_operato.Clusters.Cleanup.{Http, sync_cleanup}
use vcluster_rancher_operato.Clusters.Cleanup.Uninstall.{
  Uninstalled, Left, sync_cleanup-Uninstalled,
}
use vcluster_rancher_operato.Examples.Data.{start, management_cluster}

-- Rancher accepts every request.
abbrev pub accepting : Http Memory
accepting = record {
  path_escape = λ s. s;
  new_request = λ url. none;
  post = λ url token m. (ok (record { status_code = 200; body = ok "{}" }), m);
  code_of = λ body. ok "";
}

abbrev deleted : Unstructured
deleted = record management_cluster {
  labels = (label_target_app, "team_vc") ∷ (label_host_cluster_name, "c-m-1") ∷ [];
  finalizers = "other" ∷ finalizer_vcluster_app ∷ [];
  deleting = true;
}

abbrev with_deleted : Memory
with_deleted = record start { objects = deleted ∷ [] }

named : get deleted.labels label_target_app ≢ ""
unfolding get lookup
named = λ e. ground (arith, e, eq_iff "team_vc" "")

no_error : (sync_cleanup memory_api accepting "t" deleted with_deleted).0 ≡ none
unfolding sync_cleanup lookup split patch_in delete_first is_not_found
no_error = refl

sync_cleanup-Uninstalled_example :
    (app_namespace app_name : String) × (parse_halves (get deleted.labels label_target_app) b'_'
      ≡ ok (app_namespace, app_name))
    × (let (answer, w') =
          accepting.post
            (("https://rancher.cattle-system/k8s/clusters/"
                <> get deleted.labels label_host_cluster_name)
              <> ("/v1/catalog.cattle.io.apps/"
                  <> (app_namespace
                      <> ("/" <> (app_name <> ("?" <> accepting.path_escape "action=uninstall"))))))
            "t"
            with_deleted in
        Uninstalled memory_api accepting "t" deleted answer
        × Left memory_api accepting "t" deleted w'
            (sync_cleanup memory_api accepting "t" deleted with_deleted).1)
sync_cleanup-Uninstalled_example =
    sync_cleanup-Uninstalled memory_api accepting "t" deleted with_deleted refl named no_error
