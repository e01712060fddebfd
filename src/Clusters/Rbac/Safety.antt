-- ===== src/Clusters/Rbac/Safety.antt =====
-- What `SyncRancherRBAC` writes.
use vcluster_rancher_operato.Prelude.{
  String, ◌==◌, eq_iff, ◌≡◌, refl, not, ◌&&◌, ◌||◌, List, [], ◌∷◌, All, contains, Bool-cases,
  Option-cases, inl, inr,
}
use vcluster_rancher_operato.Maps.{get}
use vcluster_rancher_operato.Errors.{Error, Result, ok, err, Result-cases}
use vcluster_rancher_operato.Constants.{
  label_vcluster_service_uid, label_host_cluster_name, label_project_uid, label_project_name,
}
use vcluster_rancher_operato.Unstructured.{
  Unstructured, cluster_role_template_binding_management_cattle, project_management_cattle,
}
use vcluster_rancher_operato.Client
use vcluster_rancher_operato.Client.{
  Api, Requirement, create, object_to_create, equals, list_with_options,
}
use vcluster_rancher_operato.Client.Laws.{Selects, Meets}
use vcluster_rancher_operato.Services.Host.{HostApi}
use vcluster_rancher_operato.Services.Writes.{
  Write, Writes, nothing, then_write, Writes-trans, Writes-if,
}
use vcluster_rancher_operato.Clusters.Rbac.{
  cleanup_bindings, after_owners, sync_owners, role_template_bindings, in_project,
  sync_rancher_rbac,
}
use vcluster_rancher_operato.Clusters.Rbac.Grants.{Granting, Sources, IsGranted, add_owners-Writes}
use vcluster_rancher_operato.Clusters.Rbac.Removal.{IsOurs, remove_bindings-Writes}
use vcluster_rancher_operato.Clusters.Rbac.Owners.{is_bound, has_user, contains_owners}
use vcluster_rancher_operato.Clusters.Rbac.Bindings.{any-role_template_bindings}

Writes-weaken :
    {A : Api} {H : HostApi A.World} {P Q : Write → Type 0} {w v : A.World}
    → ((x : Write) → P x → Q x)
    → Writes A H P w v
    → Writes A H Q w v
Writes-weaken weaken nothing = nothing
Writes-weaken weaken (then_write x writes allowed e) =
    then_write x (Writes-weaken weaken writes) (weaken x allowed) e

module _ (A : Api) (H : HostApi A.World) (cluster : Unstructured) (selects : Selects A) where
  -- The selector of the bindings that are looked at for deletion.
  abbrev of_service : Requirement
  of_service = equals label_vcluster_service_uid (get cluster.labels label_vcluster_service_uid)

  listed-IsOurs :
      (bindings items : List Unstructured)
      → All
          (λ item.
            (item.gvk ≡ cluster_role_template_binding_management_cattle)
            × All (λ r. Meets item r) (of_service ∷ []))
          items
      → All (IsOurs A H cluster bindings) items
  unfolding get
  listed-IsOurs bindings [] h = tt
  listed-IsOurs bindings (item ∷ items) h = ((h.0.0, rw h.0.1.0), listed-IsOurs bindings items h.1)

  module _ (bindings : List Unstructured) where
    cleanup_bindings-Writes :
        (owners : List String) (w : A.World)
        → ((u : String) → contains u owners ≡ (not (u == "") && is_bound u bindings))
        → Granting A H cluster bindings w (cleanup_bindings A cluster owners w).1
    unfolding cleanup_bindings
    cleanup_bindings-Writes owners w collected =
        elim (Option-cases (A.new_requirement of_service)) [
          | inr (e, refused) ↦ rw (refused, cleanup_bindings) nothing
          | inl accepted ↦
              rw (accepted, cleanup_bindings)
                (remove_bindings-Writes A H cluster bindings owners collected _ w (λ crtbs listed.
                  listed-IsOurs bindings crtbs (
                    selects.listed cluster_role_template_binding_management_cattle
                      (record { namespace = cluster.name; label_selector = of_service ∷ [] }) w
                      crtbs listed)))
        ]

    after_owners-Writes :
        (r : List Error × (List String × A.World)) (w : A.World)
        → ((u : String) → contains u r.1.0 ≡ (not (u == "") && is_bound u bindings))
        → Granting A H cluster bindings w r.1.1
        → Granting A H cluster bindings w (after_owners A cluster r).1
    unfolding after_owners
    after_owners-Writes ([], (owners, v)) w collected writes =
        Writes-trans writes (cleanup_bindings-Writes owners v collected)
    after_owners-Writes (e ∷ es, (owners, v)) w collected writes = writes

    sync_owners-Writes :
        (w : A.World) → Granting A H cluster bindings w (sync_owners A cluster bindings w).1
    unfolding sync_owners
    sync_owners-Writes w =
        after_owners-Writes _ w (λ u. contains_owners A cluster u bindings w)
          (add_owners-Writes A H cluster bindings w)

  bound_or_failed :
      (project : Unstructured) (w : A.World)
      → Client.get A project_management_cattle
          (get cluster.labels label_project_name)
          (get cluster.labels label_host_cluster_name)
          w
        ≡ ok project
      → project.uid ≡ get cluster.labels label_project_uid
      → Writes A H
          (IsGranted A cluster w)
          w
          (in_project A cluster
            (get cluster.labels label_host_cluster_name)
            (get cluster.labels label_project_uid)
            (ok project)
            w).1
  unfolding in_project
  bound_or_failed project w found same_uid =
      let host_cluster_name = get cluster.labels label_host_cluster_name in
      rw ((eq_iff project.uid (get cluster.labels label_project_uid)).1 same_uid)
        (elim (Result-cases (role_template_bindings A cluster host_cluster_name project w)) [
          | inr (e, failed) ↦ rw failed nothing
          | inl (bindings, bound) ↦
              let (prtbs, crtbs, listed_prtbs, listed_crtbs, counts) =
                any-role_template_bindings A cluster project host_cluster_name w bindings bound in
              let sources : Sources A cluster w bindings = record {
                project = project;
                found = found;
                same_uid = same_uid;
                bound = bound;
                prtbs = prtbs;
                crtbs = crtbs;
                listed_prtbs = listed_prtbs;
                listed_crtbs = listed_crtbs;
                counted = λ user. counts (has_user user);
              } in
              rw bound (
                Writes-weaken (λ x granted. (bindings, sources, granted))
                  (sync_owners-Writes bindings w))
        ])

  in_project-Writes :
      (r : Result Unstructured) (w : A.World)
      → Client.get A project_management_cattle
          (get cluster.labels label_project_name)
          (get cluster.labels label_host_cluster_name)
          w
        ≡ r
      → Writes A H
          (IsGranted A cluster w)
          w
          (in_project A cluster
            (get cluster.labels label_host_cluster_name)
            (get cluster.labels label_project_uid)
            r
            w).1
  unfolding in_project
  in_project-Writes (err e) w found = nothing
  in_project-Writes (ok project) w found =
      elim (Bool-cases (project.uid == get cluster.labels label_project_uid)) [
        | inl same ↦
            bound_or_failed project w found
              ((eq_iff project.uid (get cluster.labels label_project_uid)).0 same)
        | inr differ ↦ rw differ nothing
      ]

  -- Whatever fails, if the server lists by kind and selector, a bound user is never removed and no
  -- other user is made owner: all writes create bindings of the role "cluster-owner" on this
  -- cluster for a user whom a role template binding gives access to its project or host cluster,
  -- or delete bindings of this vCluster whose user none gives access. The bindings are those that
  -- are listed at the start, for the project that the cluster's labels name by name and UID.
  pub sync_rancher_rbac-Writes :
      (w : A.World) → Writes A H (IsGranted A cluster w) w (sync_rancher_rbac A cluster w).1
  unfolding sync_rancher_rbac
  sync_rancher_rbac-Writes w =
      let project_uid = get cluster.labels label_project_uid in
      let project_name = get cluster.labels label_project_name in
      let host_cluster_name = get cluster.labels label_host_cluster_name in
      Writes-if (project_uid == "" && project_name == "" && host_cluster_name == "") _ _
        (λ _. nothing)
        (λ _.
          Writes-if (project_name == "" || project_uid == "" || host_cluster_name == "") _ _
            (λ _. nothing) (λ _. in_project-Writes _ w refl))
