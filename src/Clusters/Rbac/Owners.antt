-- ===== src/Clusters/Rbac/Owners.antt =====
-- The set of owners that the first loop of `SyncRancherRBAC` collects.
use vcluster_rancher_operato.Prelude.{
  ℕ, String, ◌==◌, eq_iff, ◌≡◌, refl, ap, ◌∙◌, Bool, not, ◌&&◌, ◌||◌, List, [], ◌∷◌, any, contains,
  if◌then◌else◌, arith, Bool-cases, inl, inr,
}
use vcluster_rancher_operato.Errors.{Result, ok, err, is_not_found, Result-cases}
use vcluster_rancher_operato.Unstructured.{
  Unstructured, get_nested_string, for_each_item, cluster_role_template_binding_management_cattle,
}
use vcluster_rancher_operato.Unstructured.Loops.{for_each_item-invariant}
use vcluster_rancher_operato.Client
use vcluster_rancher_operato.Client.{Api}
use vcluster_rancher_operato.Clusters.Rbac.{
  user_name, add_owner, binding_created, create_binding, add_binding, add_cluster_owner,
  owner_binding_name,
}

abbrev pub has_user : String → Unstructured → Bool
has_user user binding = get_nested_string binding.content ("userName" ∷ []) == user

-- A binding gives access to the user.
abbrev pub is_bound : String → List Unstructured → Bool
is_bound user bindings = any (has_user user) bindings

-- The owners after one binding, and after all.
abbrev with_user : String → List String → List String
with_user user owners = if user == "" then owners else add_owner user owners

abbrev with_users : List Unstructured → List String → List String
with_users [] owners = owners
with_users (item ∷ items) owners = with_users items (with_user (user_name item) owners)

contains_same :
    (u v : String) (owners : List String) → u ≡ v → contains u owners ≡ contains v owners
contains_same u v owners e = rw e

contains-with_user :
    (u user : String) (owners : List String)
    → contains u (with_user user owners) ≡ (contains u owners || not (u == "") && user == u)
contains-with_user u user owners =
    ground (
      arith,
      eq_iff u user,
      eq_iff user u,
      eq_iff user "",
      eq_iff u "",
      contains_same u user owners,
    )

contains-with_users :
    (u : String) (items : List Unstructured) (owners : List String)
    → contains u (with_users items owners)
      ≡ (contains u owners || not (u == "") && is_bound u items)
contains-with_users u [] owners = ground arith
contains-with_users u (item ∷ items) owners = ground (
  arith,
  contains-with_users u items (with_user (user_name item) owners),
  contains-with_user u (user_name item) owners,
)

module _ (A : Api) (cluster : Unstructured) where
  binding_created_owners :
      (owners : List String) (r : Result Unstructured × A.World)
      → (binding_created A cluster owners r).1.0 ≡ owners
  binding_created_owners owners (ok binding, w) = refl
  binding_created_owners owners (err e, w) = refl

  add_binding_owners :
      (item : Unstructured) (user : String) (owners : List String) (w : A.World)
      → (add_binding A cluster item user (owners, w)).1.0 ≡ owners
  unfolding add_binding create_binding
  add_binding_owners item user owners w =
      let found =
        Client.get A cluster_role_template_binding_management_cattle (owner_binding_name user)
          cluster.name w in
      elim (Result-cases found) [
        | inl (binding, present) ↦ rw (present, add_binding)
        | inr (e, absent) ↦
            rw (absent, add_binding)
              (elim (Bool-cases (not (is_not_found e))) [
                | inl failed ↦ rw failed
                | inr missing ↦ rw missing (binding_created_owners owners _)
              ])
      ]

  add_cluster_owner_owners :
      (index : ℕ) (item : Unstructured) (owners : List String) (w : A.World)
      → (add_cluster_owner A cluster index item (owners, w)).1.0 ≡ with_user (user_name item) owners
  unfolding add_cluster_owner
  add_cluster_owner_owners index item owners w =
      ground (arith, add_binding_owners item (user_name item) (add_owner (user_name item) owners) w)

  -- After the loop the owners are the users of the bindings.
  pub contains_owners :
      (u : String) (bindings : List Unstructured) (w : A.World)
      → contains u (for_each_item (add_cluster_owner A cluster) bindings ([], w)).1.0
        ≡ (not (u == "") && is_bound u bindings)
  contains_owners u bindings w =
      let collected =
        for_each_item-invariant (add_cluster_owner A cluster)
          (λ items s. with_users items s.0 ≡ with_users bindings [])
          (λ index item items (owners, v) h.
            ap (with_users items) (add_cluster_owner_owners index item owners v) ∙ h)
          bindings ([], w) refl in
      ap (contains u) collected ∙ contains-with_users u bindings []
