-- ===== src/Clusters/Rbac/Removal.antt =====
-- Which bindings the second loop of `SyncRancherRBAC` deletes.
use vcluster_rancher_operato.Prelude.{
  ℕ, String, ◌==◌, eq_iff, ◌≡◌, refl, not, ◌&&◌, Option, none, some, List, [], ◌∷◌, All, contains,
  arith, Bool-cases, inl, inr,
}
use vcluster_rancher_operato.Maps.{get}
use vcluster_rancher_operato.Errors.{Error, Result, ok, err}
use vcluster_rancher_operato.Constants.{label_vcluster_service_uid}
use vcluster_rancher_operato.Unstructured.{
  Unstructured, for_each_item, cluster_role_template_binding_management_cattle,
}
use vcluster_rancher_operato.Unstructured.Loops.{for_each_item-invariant}
use vcluster_rancher_operato.Client.{Api}
use vcluster_rancher_operato.Services.Host.{HostApi}
use vcluster_rancher_operato.Services.Writes.{delete_object, nothing, one_write, Writes-trans}
use vcluster_rancher_operato.Clusters.Rbac.{
  user_name, binding_deleted, remove_binding, remove_bindings, aggregated,
}
use vcluster_rancher_operato.Clusters.Rbac.Grants.{Granting}
use vcluster_rancher_operato.Clusters.Rbac.Owners.{is_bound}

module _ (A : Api) (H : HostApi A.World) (cluster : Unstructured)
    (bindings : List Unstructured) where
  binding_deleted_world : (r : Option Error × A.World) → (binding_deleted A cluster r).1 ≡ r.1
  binding_deleted_world (none, w) = refl
  binding_deleted_world (some e, w) = ground arith

  -- A binding of the service, of the kind that is listed.
  abbrev pub IsOurs : Unstructured → Type 0
  IsOurs item =
      (item.gvk ≡ cluster_role_template_binding_management_cattle)
      × (get item.labels label_vcluster_service_uid ≡ get cluster.labels label_vcluster_service_uid)

  module _ (owners : List String)
      (collected : (u : String) → contains u owners ≡ (not (u == "") && is_bound u bindings)) where
    remove_binding-Writes :
        (index : ℕ) (item : Unstructured) (w : A.World)
        → IsOurs item
        → Granting A H cluster bindings w (remove_binding A cluster owners index item w).1
    unfolding remove_binding
    remove_binding-Writes index item w (kind, labelled) = elim (Bool-cases (user_name item == "")) [
      | inl empty ↦ rw empty nothing
      | inr named ↦ rw named (elim (Bool-cases (contains (user_name item) owners)) [
        | inl kept ↦ rw kept nothing
        | inr stale ↦ rw stale (
            rw (binding_deleted_world (A.delete item w)) (
              one_write (delete_object item) w (
                kind,
                ground (arith, eq_iff (user_name item) ""),
                ground (arith, collected (user_name item)),
                labelled,
              )))
      ])
    ]

    aggregated_world : (r : List Error × A.World) → (aggregated A cluster r).1 ≡ r.1
    aggregated_world ([], w) = refl
    aggregated_world (e ∷ es, w) = refl

    remove_each-Writes :
        (crtbs : List Unstructured) (w : A.World)
        → All IsOurs crtbs
        → Granting A H cluster bindings w
            (for_each_item (remove_binding A cluster owners) crtbs w).1
    remove_each-Writes crtbs w ours =
        (for_each_item-invariant (remove_binding A cluster owners)
          (λ items v. All IsOurs items × Granting A H cluster bindings w v)
          (λ index item items v (facts, writes).
            (facts.1, Writes-trans writes (remove_binding-Writes index item v facts.0)))
          crtbs w (ours, nothing)).1

    pub remove_bindings-Writes :
        (r : Result (List Unstructured)) (w : A.World)
        → ((crtbs : List Unstructured) → r ≡ ok crtbs → All IsOurs crtbs)
        → Granting A H cluster bindings w (remove_bindings A cluster owners r w).1
    unfolding remove_bindings
    remove_bindings-Writes (err e) w ours = nothing
    remove_bindings-Writes (ok crtbs) w ours =
        rw (aggregated_world (for_each_item (remove_binding A cluster owners) crtbs w))
          (remove_each-Writes crtbs w (ours crtbs refl))
