-- ===== src/Clusters/Rbac/Grants.antt =====
-- Which bindings `SyncRancherRBAC` creates and deletes.
use Prim.Native.String.{◌++◌ as ◌<>◌}
use vcluster_rancher_operato.Prelude.{
  ℕ, String, ◌==◌, eq_iff, ◌≡◌, ◌≢◌, refl, true, false, not, ◌&&◌, ◌||◌, any, List, [], ◌∷◌, All,
  arith, Bool-cases, inl, inr,
}
use vcluster_rancher_operato.Maps.{get}
use vcluster_rancher_operato.Errors.{Result, ok, err, is_not_found, Result-cases}
use vcluster_rancher_operato.Constants.{
  label_vcluster_service_uid, label_host_cluster_name, label_project_uid, label_project_name,
}
use vcluster_rancher_operato.Unstructured.{
  Unstructured, end, field, str, get_nested_string, for_each_item,
  cluster_role_template_binding_management_cattle, project_management_cattle,
  project_role_template_binding_management_cattle,
}
use vcluster_rancher_operato.Unstructured.Loops.{for_each_item-invariant}
use vcluster_rancher_operato.Client
use vcluster_rancher_operato.Client.{Api, create, object_to_create, equals, list_with_options}
use vcluster_rancher_operato.Services.Host.{HostApi}
use vcluster_rancher_operato.Services.Writes.{
  Write, create_object, delete_object, Writes, nothing, one_write, Writes-trans,
}
use vcluster_rancher_operato.Clusters.Rbac.{
  user_name, owner_binding_name, owner_binding, binding_labels, binding_created, create_binding,
  add_binding, add_cluster_owner, role_template_bindings, add_owner, prtb_namespace,
}
use vcluster_rancher_operato.Clusters.Rbac.Owners.{is_bound, has_user}
use vcluster_rancher_operato.Clusters.Rbac.Bindings.{
  of_host, gives_project_access, gives_cluster_access,
}

-- Created are bindings that make a bound user owner of the cluster, and deleted are bindings of
-- users that are not bound; all carry the UID of the vCluster's service.
abbrev pub Grants : Unstructured → List Unstructured → Write → Type 0
Grants cluster bindings (create_object object) =
    (user : String) × (user ≢ "")
    × (is_bound user bindings ≡ true)
    × (object.gvk ≡ cluster_role_template_binding_management_cattle)
    × (object.name ≡ "vcluster-" <> (user <> "-co"))
    × (object.namespace ≡ cluster.name)
    × (object.content
        ≡ field "userName" (str user) (
            field "clusterName" (str cluster.name)
              (field "roleTemplateName" (str "cluster-owner") end)))
    × (get object.labels label_vcluster_service_uid ≡ get cluster.labels label_vcluster_service_uid)
Grants cluster bindings (delete_object object) =
    (object.gvk ≡ cluster_role_template_binding_management_cattle)
    × (get_nested_string object.content ("userName" ∷ []) ≢ "")
    × (is_bound (get_nested_string object.content ("userName" ∷ [])) bindings ≡ false)
    × (get object.labels label_vcluster_service_uid ≡ get cluster.labels label_vcluster_service_uid)
Grants cluster bindings _ = true ≡ false

-- Where the bindings come from: they are those of the project that the cluster's labels name, if it
-- still has the UID that they give, and of the host cluster. A user is bound exactly when a listed
-- binding gives the user access to the project as its owner or member, or one that the operator did
-- not make to the host cluster as its owner.
module _ (A : Api) (cluster : Unstructured) (w : A.World) where
  pub record Sources (bindings : List Unstructured) : Type 0 where
    pub project : Unstructured
    pub found :
        Client.get A project_management_cattle
          (get cluster.labels label_project_name)
          (get cluster.labels label_host_cluster_name)
          w
        ≡ ok project
    pub same_uid : project.uid ≡ get cluster.labels label_project_uid
    pub bound :
        role_template_bindings A cluster (get cluster.labels label_host_cluster_name) project w
        ≡ ok bindings
    pub prtbs : List Unstructured
    pub crtbs : List Unstructured
    pub listed_prtbs :
        Client.list A project_role_template_binding_management_cattle (prtb_namespace project) w
        ≡ ok prtbs
    pub listed_crtbs :
        A.list cluster_role_template_binding_management_cattle
          (of_host (get cluster.labels label_host_cluster_name))
          w
        ≡ ok crtbs
    pub counted :
        (user : String)
        → is_bound user bindings ≡ (
            any (λ b. has_user user b && gives_project_access project b) prtbs
            || any (λ b. has_user user b && gives_cluster_access b) crtbs)

  abbrev pub IsGranted : Write → Type 0
  IsGranted x = (bindings : List Unstructured) × Sources bindings × Grants cluster bindings x

module _ (A : Api) (H : HostApi A.World) (cluster : Unstructured)
    (bindings : List Unstructured) where
  abbrev pub Granting : A.World → A.World → Type 0
  Granting = Writes A H (Grants cluster bindings)

  binding_created_world :
      (owners : List String) (r : Result Unstructured × A.World)
      → (binding_created A cluster owners r).1.1 ≡ r.1
  binding_created_world owners (ok binding, w) = refl
  binding_created_world owners (err e, w) = refl

  create_binding-Writes :
      (item : Unstructured) (user : String) (owners : List String) (w : A.World)
      → user ≢ ""
      → is_bound user bindings ≡ true
      → Granting w (create_binding A cluster item user (owners, w)).1.1
  unfolding create_binding create object_to_create get
  create_binding-Writes item user owners w named bound =
      let object =
        object_to_create cluster_role_template_binding_management_cattle (owner_binding_name user)
          cluster.name false (binding_labels cluster item) [] (owner_binding cluster user) in
      rw (binding_created_world owners (A.create object w))
        (one_write (create_object object) w (user, named, bound, refl, refl, refl, refl, refl))

  add_binding-Writes :
      (item : Unstructured) (user : String) (owners : List String) (w : A.World)
      → user ≢ ""
      → is_bound user bindings ≡ true
      → Granting w (add_binding A cluster item user (owners, w)).1.1
  unfolding add_binding
  add_binding-Writes item user owners w named bound =
      let found =
        Client.get A cluster_role_template_binding_management_cattle (owner_binding_name user)
          cluster.name w in
      elim (Result-cases found) [
        | inl (binding, present) ↦ rw (present, add_binding) nothing
        | inr (e, absent) ↦
            rw (absent, add_binding)
              (elim (Bool-cases (not (is_not_found e))) [
                | inl failed ↦ rw failed nothing
                | inr missing ↦ rw missing (create_binding-Writes item user owners w named bound)
              ])
      ]

  add_cluster_owner-Writes :
      (index : ℕ) (item : Unstructured) (owners : List String) (w : A.World)
      → is_bound (user_name item) bindings ≡ true
      → Granting w (add_cluster_owner A cluster index item (owners, w)).1.1
  unfolding add_cluster_owner
  add_cluster_owner-Writes index item owners w bound = elim (Bool-cases (user_name item == "")) [
    | inl empty ↦ rw empty nothing
    | inr named ↦ rw named (
        add_binding-Writes item (user_name item) (add_owner (user_name item) owners) w
          (ground (arith, eq_iff (user_name item) "")) bound)
  ]

  -- The users of some of the bindings are bound.
  users_bound :
      (items : List Unstructured)
      → ((u : String) → is_bound u items ≡ true → is_bound u bindings ≡ true)
      → All (λ item. is_bound (user_name item) bindings ≡ true) items
  users_bound [] h = tt
  users_bound (item ∷ items) h = (
    h (user_name item) (ground (arith, eq_iff (user_name item) (user_name item))),
    users_bound items (λ u bound. h u (ground (arith, bound))),
  )

  pub add_owners-Writes :
      (w : A.World) → Granting w (for_each_item (add_cluster_owner A cluster) bindings ([], w)).1.1
  add_owners-Writes w =
      (for_each_item-invariant (add_cluster_owner A cluster)
        (λ items s. All (λ item. is_bound (user_name item) bindings ≡ true) items × Granting w s.1)
        (λ index item items (owners, v) (bounds, writes).
          (bounds.1, Writes-trans writes (add_cluster_owner-Writes index item owners v bounds.0)))
        bindings ([], w) (users_bound bindings (λ u bound. bound), nothing)).1
