-- ===== src/Clusters/Rbac/Bindings.antt =====
-- Which role template bindings make a user owner.
use Prim.Native.String.{◌++◌ as ◌<>◌}
use vcluster_rancher_operato.Prelude.{
  String, ◌==◌, ◌≡◌, refl, Bool, true, ◌&&◌, ◌||◌, List, [], ◌∷◌, ◌++◌, any, any-append, arith,
  Option-cases, inl, inr,
}
use vcluster_rancher_operato.Errors.{ok, Result-cases, ok-injective}
use vcluster_rancher_operato.Constants.{label_vcluster_service_uid}
use vcluster_rancher_operato.Unstructured.{
  Unstructured, get_nested_string, filter_items, project_role_template_binding_management_cattle,
  cluster_role_template_binding_management_cattle,
}
use vcluster_rancher_operato.Unstructured.Laws.{any-filter_items}
use vcluster_rancher_operato.Client
use vcluster_rancher_operato.Client.{Api, ListOptions, does_not_exist}
use vcluster_rancher_operato.Clusters.Rbac.{
  prtb_namespace, filter_prtbs, add_crtbs, role_template_bindings,
}

abbrev role_of : Unstructured → String
role_of binding = get_nested_string binding.content ("roleTemplateName" ∷ [])

-- A binding to the project, as an owner or as a member.
abbrev pub gives_project_access : Unstructured → Unstructured → Bool
gives_project_access project binding =
    get_nested_string binding.content ("projectName" ∷ [])
      == (project.namespace <> (":" <> project.name))
    && (role_of binding == "project-owner" || role_of binding == "project-member")

abbrev pub gives_cluster_access : Unstructured → Bool
gives_cluster_access binding = role_of binding == "cluster-owner"

-- The bindings of the host cluster that the operator did not make itself.
abbrev pub of_host : String → ListOptions
of_host host_cluster_name = record {
  namespace = host_cluster_name;
  label_selector = does_not_exist label_vcluster_service_uid ∷ [];
}

any_either :
    (p f g h : Unstructured → Bool) (items : List Unstructured)
    → (any (λ b. (p b && g b) && f b) items || any (λ b. (p b && h b) && f b) items)
      ≡ any (λ b. p b && (f b && (g b || h b))) items
any_either p f g h [] = refl
any_either p f g h (item ∷ items) = ground (arith, any_either p f g h items)

any-filter_prtbs :
    (p : Unstructured → Bool) (project : Unstructured) (items : List Unstructured)
    → any p (filter_prtbs project items) ≡ any (λ b. p b && gives_project_access project b) items
unfolding filter_prtbs
any-filter_prtbs p project items =
    let in_project : Unstructured → Bool = λ b.
      get_nested_string b.content ("projectName" ∷ [])
      == (project.namespace <> (":" <> project.name)) in
    rw (any-append, any-filter_items, any-filter_items, any-filter_items, any-filter_items)
      (any_either p in_project (λ b. role_of b == "project-owner")
        (λ b. role_of b == "project-member") items)

any_of_both :
    (project : Unstructured) (p : Unstructured → Bool) (prtbs crtbs : List Unstructured)
    → any p (
        filter_prtbs project prtbs
        ++ filter_items crtbs "cluster-owner" true ("roleTemplateName" ∷ []))
      ≡ (any (λ b. p b && gives_project_access project b) prtbs
          || any (λ b. p b && gives_cluster_access b) crtbs)
any_of_both project p prtbs crtbs = rw (any-append, any-filter_prtbs, any-filter_items) refl

module _ (A : Api) (cluster project : Unstructured) (host_cluster_name : String) (w : A.World) where
  -- Where the bindings can be listed, a user or anything else is among those that count exactly
  -- when it is that of a listed binding to this project as its owner or member, or of a listed
  -- binding to the host cluster as its owner that the operator did not make itself.
  pub any-role_template_bindings :
      (bindings : List Unstructured)
      → role_template_bindings A cluster host_cluster_name project w ≡ ok bindings
      → (prtbs crtbs : List Unstructured) × (Client.list A
            project_role_template_binding_management_cattle
            (prtb_namespace project)
            w
          ≡ ok prtbs)
        × (A.list cluster_role_template_binding_management_cattle (of_host host_cluster_name) w
            ≡ ok crtbs)
        × ((p : Unstructured → Bool)
            → any p bindings ≡ (
                any (λ b. p b && gives_project_access project b) prtbs
                || any (λ b. p b && gives_cluster_access b) crtbs))
  unfolding role_template_bindings
  any-role_template_bindings bindings e =
      let first =
        Client.list A project_role_template_binding_management_cattle (prtb_namespace project) w in
      let second =
        A.list cluster_role_template_binding_management_cattle (of_host host_cluster_name) w in
      elim (Result-cases first) [
        | inr (failure, failed) ↦ cc (rw (failed, role_template_bindings) at e)
        | inl (prtbs, listed) ↦
            let e' = rw (listed, role_template_bindings) at e in
            elim (Option-cases (A.new_requirement (does_not_exist label_vcluster_service_uid))) [
              | inr (failure, refused) ↦ cc (rw (refused, add_crtbs) at e')
              | inl accepted ↦
                  let e'' = rw (accepted, add_crtbs) at e' in
                  elim (Result-cases second) [
                    | inr (failure, failed) ↦ cc (rw failed at e'')
                    | inl (crtbs, listed_too) ↦ (
                      prtbs,
                      crtbs,
                      listed,
                      listed_too,
                      λ p.
                          rw (← ok-injective (rw listed_too at e''))
                            (any_of_both project p prtbs crtbs),
                    )
                  ]
            ]
      ]
