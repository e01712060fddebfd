-- ===== src/Clusters/Cleanup/Left.antt =====
-- The cluster that a cleanup leaves.
use vcluster_rancher_operato.Prelude.{
  ℕ, String, ◌==◌, eq_iff, ◌≡◌, refl, ap, ◌⊎◌, inl, inr, not, ◌&&◌, contains, eqb, arith,
  Bool-cases, Option-cases,
}
use vcluster_rancher_operato.Maps.{get}
use vcluster_rancher_operato.Errors.{Result, ok, err, is_not_found, Result-cases}
use vcluster_rancher_operato.Constants.{label_target_app, finalizer_vcluster_app}
use vcluster_rancher_operato.Unstructured.{Unstructured}
use vcluster_rancher_operato.Client.{Api}
use vcluster_rancher_operato.Clusters.Halves.{parse_halves}
use vcluster_rancher_operato.Clusters.Conditions.{is_cluster_ready}
use vcluster_rancher_operato.Clusters.Cleanup.{
  Response, Http, uninstall_url, without_finalizer, finalizer_patched, remove_finalizer, with_code,
  with_body, with_response, uninstall, sync_cleanup,
}
use vcluster_rancher_operato.Clusters.Cleanup.Uninstall.{cleanup_reached}

module _ (A : Api) (X : Http A.World) (rancher_token : String) (cluster : Unstructured) where
  -- Only the finalizers may differ.
  abbrev pub IsLeft : Unstructured → Type 0
  IsLeft left = (left ≡ cluster) ⊎ (left ≡ without_finalizer A X rancher_token cluster)

  finalizer_patched-IsLeft :
      (r : Result Unstructured) (w : A.World)
      → IsLeft (finalizer_patched A X rancher_token cluster (r, w)).1.0
  finalizer_patched-IsLeft (ok changed) w = inr refl
  finalizer_patched-IsLeft (err e) w = elim (Bool-cases (is_not_found e)) [
    | inl gone ↦ rw gone (inr refl)
    | inr failed ↦ rw failed (inr refl)
  ]

  remove_finalizer-IsLeft :
      (w : A.World) → IsLeft (remove_finalizer A X rancher_token cluster w).1.0
  unfolding remove_finalizer
  remove_finalizer-IsLeft w =
      elim (Bool-cases (contains finalizer_vcluster_app cluster.finalizers)) [
        | inr absent ↦ rw (absent, remove_finalizer) (inl refl)
        | inl there ↦
            let (r, w') = A.patch (without_finalizer A X rancher_token cluster) cluster w in
            rw (there, remove_finalizer) (finalizer_patched-IsLeft r w')
      ]

  with_code-IsLeft :
      (status_code : ℕ) (code : Result String) (w : A.World)
      → IsLeft (with_code A X rancher_token cluster status_code code w).1.0
  unfolding with_code
  with_code-IsLeft status_code (err e) w = inl refl
  with_code-IsLeft status_code (ok code) w =
      elim (Bool-cases (not (eqb status_code 200) && not (code == "NotFound"))) [
        | inl failed ↦ rw (failed, with_code) (inl refl)
        | inr accepted ↦ rw (accepted, with_code) (remove_finalizer-IsLeft w)
      ]

  with_response-IsLeft :
      (r : Result Response) (w : A.World)
      → IsLeft (with_response A X rancher_token cluster (r, w)).1.0
  unfolding with_response with_body
  with_response-IsLeft (err e) w = inl refl
  with_response-IsLeft (ok response) w = elim (Result-cases response.body) [
    | inr (e, failed) ↦ rw (failed, with_response, with_body) (inl refl)
    | inl (body, read) ↦
        rw (read, with_response, with_body)
          (with_code-IsLeft response.status_code (X.code_of body) w)
  ]

  uninstall-IsLeft :
      (r : Result (String × String)) (w : A.World)
      → IsLeft (uninstall A X rancher_token cluster r w).1.0
  unfolding uninstall
  uninstall-IsLeft (err e) w = inl refl
  uninstall-IsLeft (ok (app_namespace, app_name)) w =
      let url = uninstall_url A X rancher_token cluster app_namespace app_name in
      let (answer, w') = X.post url rancher_token w in
      elim (Option-cases (X.new_request url)) [
        | inr (e, refused) ↦ rw (refused, uninstall) (inl refl)
        | inl accepted ↦ rw (accepted, uninstall) (with_response-IsLeft answer w')
      ]

  pub sync_cleanup-IsLeft : (w : A.World) → IsLeft (sync_cleanup A X rancher_token cluster w).1.0
  unfolding sync_cleanup
  sync_cleanup-IsLeft w =
      let app = get cluster.labels label_target_app in
      elim (Bool-cases cluster.deleting) [
        | inr kept ↦ rw (kept, sync_cleanup) (inl refl)
        | inl deleting ↦ elim (Bool-cases (app == "")) [
          | inl unnamed ↦ simp (deleting, unnamed, sync_cleanup) (inl refl)
          | inr named ↦
              rw
                (cleanup_reached A X rancher_token cluster w deleting
                  (ground (arith, named, eq_iff app "")))
                (uninstall-IsLeft (parse_halves app b'_') w)
        ]
      ]

  -- A cleanup changes neither the name nor whether the cluster is ready.
  pub cluster_left :
      (w : A.World)
      → (let left = (sync_cleanup A X rancher_token cluster w).1.0 in
          (left.name ≡ cluster.name) × (is_cluster_ready left ≡ is_cluster_ready cluster))
  unfolding is_cluster_ready
  cluster_left w = elim (sync_cleanup-IsLeft w) [
    | inl same ↦ (ap (λ c. c.name) same, ap is_cluster_ready same)
    | inr less ↦ (ap (λ c. c.name) less, ap is_cluster_ready less)
  ]
