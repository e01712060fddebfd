-- ===== src/Clusters/Cleanup/Uninstall.antt =====
-- What a cleanup without error has done.
use Prim.Native.String.{◌++◌ as ◌<>◌}
use vcluster_rancher_operato.Prelude.{
  List, ◌∷◌, ◌++◌, ℕ, String, ◌==◌, eq_iff, ◌≡◌, ◌≢◌, refl, ◌⊎◌, true, false, not, ◌&&◌, none,
  contains, eqb, arith, Bool-cases, Option-cases, inl, inr,
}
use vcluster_rancher_operato.Maps.{get}
use vcluster_rancher_operato.Errors.{Error, Result, ok, err, is_not_found, Result-cases}
use vcluster_rancher_operato.Constants.{
  label_target_app, label_host_cluster_name, finalizer_vcluster_app,
}
use vcluster_rancher_operato.Unstructured.{Unstructured}
use vcluster_rancher_operato.Client.{Api}
use vcluster_rancher_operato.Token.{get_cluster_endpoint}
use vcluster_rancher_operato.Services.Resources.Finalizers.{delete_first-split}
use vcluster_rancher_operato.Clusters.Halves.{parse_halves}
use vcluster_rancher_operato.Clusters.Cleanup.{
  Response, Http, uninstall_url, finalizer_patched, without_finalizer, remove_finalizer, with_code,
  with_body, with_response, uninstall, sync_cleanup,
}

accepted_by :
    (n : ℕ) (code : String)
    → (not (eqb n 200) && not (code == "NotFound")) ≡ false
    → (n ≡ 200) ⊎ (code ≡ "NotFound")
accepted_by n code h = elim (Bool-cases (eqb n 200)) [
  | inl fine ↦ inl (ground arith)
  | inr other ↦ inr ((eq_iff code "NotFound").0 (ground arith))
]

module _ (A : Api) (X : Http A.World) (rancher_token : String) (cluster : Unstructured) where
  -- The answer of Rancher: the app is being uninstalled, or there was none.
  pub record Uninstalled (answer : Result Response) : Type 0 where
    pub response : Response
    pub answered : answer ≡ ok response
    pub body : String
    pub read : response.body ≡ ok body
    pub code : String
    pub decoded : X.code_of body ≡ ok code
    pub accepted : (response.status_code ≡ 200) ⊎ (code ≡ "NotFound")

  -- The patch is accepted, or the cluster is no longer there.
  abbrev IsTaken : Result Unstructured → Type 0
  IsTaken r =
      ((changed : Unstructured) × (r ≡ ok changed))
      ⊎ ((e : Error) × (r ≡ err e) × (is_not_found e ≡ true))

  -- The cluster and the world that are left: as they were where the cluster does not have the
  -- finalizer, else after a patch that takes its first occurrence away.
  abbrev pub Left : A.World → Unstructured × A.World → Type 0
  Left w after =
      ((contains "loft.sh/vcluster-app-cleanup" cluster.finalizers ≡ false)
        × (after ≡ (cluster, w)))
      ⊎ ((before others : List String) × (cluster.finalizers
            ≡ before ++ "loft.sh/vcluster-app-cleanup" ∷ others)
          × (contains "loft.sh/vcluster-app-cleanup" before ≡ false)
          × (let left = record cluster { finalizers = before ++ others } in
              IsTaken (A.patch left cluster w).0 × (after ≡ (left, (A.patch left cluster w).1))))

  finalizer_patched-IsTaken :
      (r : Result Unstructured × A.World)
      → (finalizer_patched A X rancher_token cluster r).0 ≡ none
      → IsTaken r.0
        × ((finalizer_patched A X rancher_token cluster r).1
            ≡ (without_finalizer A X rancher_token cluster, r.1))
  finalizer_patched-IsTaken (ok changed, w) h = (inl (changed, refl), refl)
  finalizer_patched-IsTaken (err e, w) h = elim (Bool-cases (is_not_found e)) [
    | inl gone ↦ (inr (e, refl, gone), rw gone refl)
    | inr other ↦ cc (rw other at h)
  ]

  remove_finalizer-Left :
      (w : A.World)
      → (remove_finalizer A X rancher_token cluster w).0 ≡ none
      → Left w (remove_finalizer A X rancher_token cluster w).1
  unfolding remove_finalizer
  remove_finalizer-Left w h =
      elim (Bool-cases (contains finalizer_vcluster_app cluster.finalizers)) [
        | inl present ↦
            let (before, others, split, first, deleted) =
              delete_first-split finalizer_vcluster_app cluster.finalizers present in
            let (taken, after) =
              finalizer_patched-IsTaken
                (A.patch (without_finalizer A X rancher_token cluster) cluster w)
                (rw present at h) in
            inr (
              before,
              others,
              split,
              first,
              (rw (← deleted) taken, rw present (rw (← deleted) after)),
            )
        | inr absent ↦ inl (absent, rw absent refl)
      ]

  with_code-ok :
      (status_code : ℕ) (r : Result String) (w : A.World)
      → (with_code A X rancher_token cluster status_code r w).0 ≡ none
      → (code : String) × (r ≡ ok code)
        × ((status_code ≡ 200) ⊎ (code ≡ "NotFound"))
        × Left w (with_code A X rancher_token cluster status_code r w).1
  unfolding with_code
  with_code-ok status_code (err e) w h = cc
  with_code-ok status_code (ok code) w h =
      elim (Bool-cases (not (eqb status_code 200) && not (code == "NotFound"))) [
        | inl refused ↦ cc (rw refused at h)
        | inr accepted ↦ (
          code,
          refl,
          accepted_by status_code code accepted,
          rw accepted (remove_finalizer-Left w (rw accepted at h)),
        )
      ]

  with_response-ok :
      (r : Result Response × A.World)
      → (with_response A X rancher_token cluster r).0 ≡ none
      → Uninstalled r.0 × Left r.1 (with_response A X rancher_token cluster r).1
  unfolding with_response with_body
  with_response-ok (err e, w) h = cc
  with_response-ok (ok response, w) h = elim (Result-cases response.body) [
    | inr (e, failed) ↦ cc (rw failed at h)
    | inl (body, read) ↦
        let (code, decoded, accepted, after) =
          with_code-ok response.status_code (X.code_of body) w (rw read at h) in
        (
          record {
            response = response;
            answered = refl;
            body = body;
            read = read;
            code = code;
            decoded = decoded;
            accepted = accepted;
          },
          rw read after,
        )
  ]

  uninstall-ok :
      (r : Result (String × String)) (w : A.World)
      → (uninstall A X rancher_token cluster r w).0 ≡ none
      → (app_namespace app_name : String) × (r ≡ ok (app_namespace, app_name))
        × (let (answer, w') =
              X.post
                (uninstall_url A X rancher_token cluster app_namespace app_name)
                rancher_token
                w in
            Uninstalled answer × Left w' (uninstall A X rancher_token cluster r w).1)
  unfolding uninstall
  uninstall-ok (err e) w h = cc
  uninstall-ok (ok (app_namespace, app_name)) w h =
      let url = uninstall_url A X rancher_token cluster app_namespace app_name in
      elim (Option-cases (X.new_request url)) [
        | inr (e, refused) ↦ cc (rw (refused, uninstall) at h)
        | inl accepted ↦ (
          app_namespace,
          app_name,
          refl,
          rw (accepted, uninstall)
              (with_response-ok (X.post url rancher_token w) (rw (accepted, uninstall) at h)),
        )
      ]

  pub cleanup_reached :
      (w : A.World)
      → cluster.deleting ≡ true
      → get cluster.labels label_target_app ≢ ""
      → sync_cleanup A X rancher_token cluster w
        ≡ uninstall A X rancher_token cluster
            (parse_halves (get cluster.labels label_target_app) b'_')
            w
  unfolding sync_cleanup
  cleanup_reached w deleting named = ground (arith, eq_iff (get cluster.labels label_target_app) "")

  -- Where the management cluster of a vCluster with a target app is being deleted and its cleanup
  -- gives no error, Rancher's API of the host cluster has been asked to uninstall the app with that
  -- namespace and name, and has accepted it or has found none. After that nothing is left to do
  -- where the cluster does not have the cleanup finalizer, and else a patch has been accepted, or
  -- has found no cluster, that takes the first occurrence away and keeps the other finalizers.
  pub sync_cleanup-Uninstalled :
      (w : A.World)
      → cluster.deleting ≡ true
      → get cluster.labels label_target_app ≢ ""
      → (sync_cleanup A X rancher_token cluster w).0 ≡ none
      → (app_namespace app_name : String) × (parse_halves (get cluster.labels label_target_app) b'_'
          ≡ ok (app_namespace, app_name))
        × (let (answer, w') =
              X.post
                (("https://rancher.cattle-system/k8s/clusters/"
                    <> get cluster.labels label_host_cluster_name)
                  <> ("/v1/catalog.cattle.io.apps/"
                      <> (app_namespace
                          <> ("/" <> (app_name <> ("?" <> X.path_escape "action=uninstall"))))))
                rancher_token
                w in
            Uninstalled answer × Left w' (sync_cleanup A X rancher_token cluster w).1)
  unfolding get_cluster_endpoint
  sync_cleanup-Uninstalled w deleting named h =
      let reached = cleanup_reached w deleting named in
      rw reached
        (uninstall-ok (parse_halves (get cluster.labels label_target_app) b'_') w (rw reached at h))
