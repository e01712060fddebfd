-- ===== src/Services/Provisioning/Created.antt =====
-- Where the provisioning cluster comes from.
use vcluster_rancher_operato.Prelude.{
  String, ◌≡◌, refl, sym, ap, ◌∙◌, true, ◌⊎◌, inl, inr, none, [], Bool-cases, Option-cases,
}
use vcluster_rancher_operato.Maps.{StringMap, get}
use vcluster_rancher_operato.Errors.{
  Error, Result, ok, err, is_not_found, is_already_exists, Result-cases, ok-injective,
}
use vcluster_rancher_operato.Constants.{label_vcluster_service_uid, label_project_uid}
use vcluster_rancher_operato.Unstructured.{
  Unstructured, no_object, end, cluster_provisioning_cattle,
}
use vcluster_rancher_operato.Client.{Api, create, object_to_create, get_first_with_label}
use vcluster_rancher_operato.Kube.{Service, Namespace}
use vcluster_rancher_operato.Services.Defs.{Handler}
use vcluster_rancher_operato.Services.Naming.{
  get_provisioning_cluster_name, get_target_cluster_namespace,
}
use vcluster_rancher_operato.Services.Provisioning.{
  ensure_fleet_workspace, new_cluster_labels, cluster_created, create_named, create_in_workspace,
  create_provisioning_cluster, ensure_provisioning_cluster,
}

-- The answer of the server is the cluster, or it has one with that name already, which is not read.
abbrev IsAccepted : Result Unstructured → Unstructured → Type 0
IsAccepted answer cluster =
    (answer ≡ ok cluster)
    ⊎ ((e : Error) × (answer ≡ err e) × (is_already_exists e ≡ true) × (cluster ≡ no_object))

module _ (A : Api) (h : Handler) where
  -- The creation of a provisioning cluster with these labels, after its workspace has been looked
  -- at.
  pub record Creation (labels : StringMap) (w : A.World) (cluster : Unstructured) (w' : A.World)
      : Type 0 where
    pub object : Unstructured
    pub before : A.World
    pub answer : Result Unstructured
    pub ensured : ensure_fleet_workspace A h object.namespace w ≡ (none, before)
    pub created : A.create object before ≡ (answer, w')
    pub accepted : IsAccepted answer cluster
    pub kind : object.gvk ≡ cluster_provisioning_cattle
    pub same_labels : object.labels ≡ labels

  cluster_created-IsAccepted :
      (r : Result Unstructured) (cluster : Unstructured)
      → cluster_created A h r ≡ ok cluster
      → IsAccepted r cluster
  unfolding cluster_created
  cluster_created-IsAccepted (ok c) cluster e = inl e
  cluster_created-IsAccepted (err failure) cluster e =
      elim (Bool-cases (is_already_exists failure)) [
        | inl there ↦ inr (failure, refl, there, sym (ok-injective (rw there at e)))
        | inr other ↦ cc (rw other at e)
      ]

  create_named-Creation :
      (service : Service) (labels : StringMap) (namespace : String) (w v w' : A.World)
      (cluster : Unstructured)
      → ensure_fleet_workspace A h namespace w ≡ (none, v)
      → create_named A h service labels namespace v ≡ (ok cluster, w')
      → Creation labels w cluster w'
  unfolding create_named create object_to_create
  create_named-Creation service labels namespace w v w' cluster ensured e =
      elim (Result-cases (get_provisioning_cluster_name h service)) [
        | inr (failure, failed) ↦ cc (rw (failed, create_named) at (ap (λ r. r.0) e))
        | inl ((name, generated), named) ↦
            let object =
              object_to_create cluster_provisioning_cattle name namespace generated labels [] end in
            let e' = rw (named, create_named) at e in
            record {
              object = object;
              before = v;
              answer = (A.create object v).0;
              ensured = ensured;
              created = λ i. ((A.create object v).0, ap (λ r. r.1) e' i);
              accepted =
                  cluster_created-IsAccepted (A.create object v).0 cluster (ap (λ r. r.0) e');
              kind = refl;
              same_labels = refl;
            }
      ]

  create_in_workspace-Creation :
      (service : Service) (labels : StringMap) (w w' : A.World) (cluster : Unstructured)
      → create_in_workspace A h service labels w ≡ (ok cluster, w')
      → Creation labels w cluster w'
  unfolding create_in_workspace
  create_in_workspace-Creation service labels w w' cluster e =
      let namespace = get_target_cluster_namespace h (get labels label_project_uid) in
      let checked = ensure_fleet_workspace A h namespace w in
      elim (Option-cases checked.0) [
        | inr (failure, failed) ↦ cc (rw (failed, create_in_workspace) at (ap (λ r. r.0) e))
        | inl fine ↦
            create_named-Creation service labels namespace w checked.1 w' cluster
              (λ i. (fine i, checked.1)) (rw (fine, create_in_workspace) at e)
      ]

  create_provisioning_cluster-Creation :
      (service : Service) (ns : Namespace) (w w' : A.World) (cluster : Unstructured)
      → create_provisioning_cluster A h service ns w ≡ (ok cluster, w')
      → (labels : StringMap) × (new_cluster_labels A h service ns w ≡ ok labels)
        × Creation labels w cluster w'
  unfolding create_provisioning_cluster
  create_provisioning_cluster-Creation service ns w w' cluster e =
      elim (Result-cases (new_cluster_labels A h service ns w)) [
        | inr (failure, failed) ↦ cc (rw (failed, create_provisioning_cluster) at (ap (λ r. r.0) e))
        | inl (labels, made) ↦ (
          labels,
          made,
          create_in_workspace-Creation service labels w w' cluster
              (rw (made, create_provisioning_cluster) at e),
        )
      ]

  -- Where the cluster was found, the world is as it was; otherwise it has been created.
  pub ensure_provisioning_cluster-made :
      (service : Service) (ns : Namespace) (w w' : A.World) (cluster : Unstructured)
      → ensure_provisioning_cluster A h service ns w ≡ (ok cluster, w')
      → ((w' ≡ w)
          × (get_first_with_label A cluster_provisioning_cattle label_vcluster_service_uid
                service.uid w
              ≡ ok cluster))
        ⊎ ((labels : StringMap) × (new_cluster_labels A h service ns w ≡ ok labels)
            × Creation labels w cluster w')
  unfolding ensure_provisioning_cluster
  ensure_provisioning_cluster-made service ns w w' cluster e =
      elim (Result-cases (
        get_first_with_label A cluster_provisioning_cattle label_vcluster_service_uid service.uid
          w)) [
            | inl (c, found) ↦
                let e' = rw (found, ensure_provisioning_cluster) at e in
                inl (sym (ap (λ r. r.1) e'), found ∙ ap (λ r. r.0) e')
            | inr (failure, failed) ↦
                let e' = rw (failed, ensure_provisioning_cluster) at e in
                elim (Bool-cases (is_not_found failure)) [
                  | inl missing ↦ inr (
                      create_provisioning_cluster-Creation service ns w w' cluster
                        (rw missing at e'))
                  | inr other ↦ cc (rw other at (ap (λ r. r.0) e'))
                ]
          ]
