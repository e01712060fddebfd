-- ===== src/Clusters/Cleanup.antt =====
-- `SyncCleanup` in internal/controller/clusters/cluster_controller.go: the app of a vCluster is
-- uninstalled when its management cluster is deleted. The HTTP client, net/url and the JSON decoder
-- are parameters.
pub mod Left
pub mod Uninstall
use Prim.Native.String.{◌++◌ as ◌<>◌}
use vcluster_rancher_operato.Prelude.{
  ℕ, String, ◌==◌, Bool, true, false, not, ◌&&◌, Option, none, some, List, contains, eqb,
  if◌then◌else◌,
}
use vcluster_rancher_operato.Maps.{get}
use vcluster_rancher_operato.Errors.{Error, Result, ok, err, plain, wrap, is_not_found}
use vcluster_rancher_operato.Constants.{
  label_target_app, label_host_cluster_name, finalizer_vcluster_app,
}
use vcluster_rancher_operato.Unstructured.{Unstructured}
use vcluster_rancher_operato.Client.{Api}
use vcluster_rancher_operato.Token.{get_cluster_endpoint}
use vcluster_rancher_operato.Services.Resources.{delete_first}
use vcluster_rancher_operato.Clusters.Halves.{parse_halves}

-- The status code, and the body or the error of reading it.
pub record Response : Type 0 where
  pub status_code : ℕ
  pub body : Result String

pub record Http (World : Type 0) : Type 0 where
  -- `url.PathEscape`
  pub path_escape : String → String
  -- `http.NewRequest`: the error by which a URL is refused
  pub new_request : String → Option Error
  -- a POST of "{}" to a URL with a bearer token
  pub post : String → String → World → Result Response × World
  -- `json.Unmarshal`: the field "code"
  pub code_of : String → Result String

module _ (A : Api) (X : Http A.World) (rancher_token : String) (cluster : Unstructured) where
  open A use {World}

  abbrev pub uninstall_url : String → String → String
  uninstall_url app_namespace app_name =
      get_cluster_endpoint (get cluster.labels label_host_cluster_name)
      <> ("/v1/catalog.cattle.io.apps/"
          <> (app_namespace <> ("/" <> (app_name <> ("?" <> X.path_escape "action=uninstall")))))

  -- `SetFinalizers` works on the map of the object, which the caller's value shares, so the
  -- cluster that is left is returned with the state. What the server answers to the patch is not
  -- seen there.
  abbrev pub Cleaned : Type 0
  Cleaned = Unstructured × World

  abbrev pub without_finalizer : Unstructured
  without_finalizer = record cluster {
    finalizers = delete_first finalizer_vcluster_app cluster.finalizers;
  }

  abbrev finalizer_patched : Result Unstructured × World → Option Error × Cleaned
  finalizer_patched (ok changed, w) = (none, (without_finalizer, w))
  finalizer_patched (err e, w) =
      if not (is_not_found e)
      then (some (plain "failed to remov"), (without_finalizer, w))
      else (none, (without_finalizer, w))

  -- The loop removes the first occurrence and ends.
  pub remove_finalizer : World → Option Error × Cleaned
  unfolding delete_first is_not_found
  remove_finalizer w =
      if not (contains finalizer_vcluster_app cluster.finalizers)
      then (none, (cluster, w))
      else finalizer_patched (A.patch without_finalizer cluster w)

  pub with_code : ℕ → Result String → World → Option Error × Cleaned
  unfolding remove_finalizer
  with_code status_code (err e) w =
      (some (wrap "could not unmarshal response from rancher app uninstall" e), (cluster, w))
  with_code status_code (ok code) w =
      if not (eqb status_code 200) && not (code == "NotFound")
      then (some (plain "app uninstall failed"), (cluster, w))
      else remove_finalizer w

  pub with_body : ℕ → Result String → World → Option Error × Cleaned
  unfolding with_code
  with_body status_code (err e) w =
      (some (wrap "could not read body for response to rancher app uninstall" e), (cluster, w))
  with_body status_code (ok body) w = with_code status_code (X.code_of body) w

  pub with_response : Result Response × World → Option Error × Cleaned
  unfolding with_body
  with_response (err e, w) = (some (plain "fai"), (cluster, w))
  with_response (ok response, w) = with_body response.status_code response.body w

  pub uninstall : Result (String × String) → World → Option Error × Cleaned
  unfolding with_response get get_cluster_endpoint
  uninstall (err e) w = (
    some (plain "failed to parse app namespace and name from management clusters %q annotation"),
    (cluster, w),
  )
  uninstall (ok (app_namespace, app_name)) w =
      elim (X.new_request (uninstall_url app_namespace app_name)) [
        | some e ↦
            (some (wrap "could not create request for vcluster app uninstal" e), (cluster, w))
        | none ↦ with_response (X.post (uninstall_url app_namespace app_name) rancher_token w)
      ]

  unfoldable pub sync_cleanup : World → Option Error × Cleaned
  unfolding uninstall parse_halves get
  sync_cleanup w =
      let app = get cluster.labels label_target_app in
      if not cluster.deleting
      then (none, (cluster, w))
      else if app == ""
      then (none, (cluster, w))
      else uninstall (parse_halves app b'_') w
