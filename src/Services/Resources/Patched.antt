-- ===== src/Services/Resources/Patched.antt =====
-- What has been sent and read when the resources of Rancher are there.
use Prim.Native.String.{◌++◌ as ◌<>◌}
use vcluster_rancher_operato.Prelude.{
  String, ◌≡◌, refl, sym, ◌∙◌, true, false, ◌⊎◌, inl, inr, none, List, [], ◌∷◌, Bool-cases,
  Option-cases,
}
use vcluster_rancher_operato.Errors.{Result, ok, err, Result-cases, ok-injective}
use vcluster_rancher_operato.Constants.{label_vcluster_service_uid}
use vcluster_rancher_operato.Unstructured.{
  Unstructured, get_nested_string, clusters_management_cattle,
  cluster_registration_token_management_cattle,
}
use vcluster_rancher_operato.Client
use vcluster_rancher_operato.Client.{Api, get_first_with_label}
use vcluster_rancher_operato.Client.Laws.{labelled, first_of_list}
use vcluster_rancher_operato.Kube.{Service}
use vcluster_rancher_operato.Services.Defs.{Handler}
use vcluster_rancher_operato.Services.Labels.{Orders, HasMembers}
use vcluster_rancher_operato.Services.Host.{HostApi}
use vcluster_rancher_operato.Services.Resources.{
  RancherResources, is_provisioned, ready_patched, await_secret, await_token, pending_patched,
  patch_management_cluster, get_rancher_resources,
}
use vcluster_rancher_operato.Services.Resources.Sent.{
  reports_ready, is_provisioned_lem, IsPatched, sent, sent-IsPatched,
}

module _ (A : Api) (H : HostApi A.World) (service : Service) where
  -- The registration token of the cluster, with its command, and the secret of the vCluster.
  abbrev HasToken : Unstructured → A.World → Unstructured → Type 0
  HasToken changed w token =
      (A.get cluster_registration_token_management_cattle "default-token" changed.name w ≡ ok token)
      × (H.get_secret service.namespace ("vc-" <> service.name) w ≡ none)

  -- The command that is to run in the vCluster: none for a cluster that is ready, and else that of
  -- the registration token.
  abbrev pub HasCommand : Unstructured → Unstructured → A.World → String → Type 0
  HasCommand provisioning_cluster changed w command =
      ((reports_ready provisioning_cluster ≡ true) × (command ≡ ""))
      ⊎ ((reports_ready provisioning_cluster ≡ false)
          × (token : Unstructured) × HasToken changed w token
          × (command ≡ get_nested_string token.content ("status" ∷ "insecureCommand" ∷ [])))

module _ (A : Api) (H : HostApi A.World) (o : Orders) (h : Handler) (service : Service) where
  abbrev pub token_command : RancherResources → String
  token_command resources =
      get_nested_string resources.cluster_registration_token.content
        ("status" ∷ "insecureCommand" ∷ [])

  ready_patched-ok :
      (r : Result Unstructured) (resources : RancherResources)
      → ready_patched A H o h service r ≡ ok resources
      → (changed : Unstructured) × (r ≡ ok changed) × (token_command resources ≡ "")
  unfolding ready_patched get_nested_string
  ready_patched-ok (ok changed) resources e = (changed, refl, rw (← ok-injective e) refl)
  ready_patched-ok (err failure) resources e = cc

  await_secret-ok :
      (changed token : Unstructured) (w : A.World) (resources : RancherResources)
      → await_secret A H o h service changed token w ≡ ok resources
      → (H.get_secret service.namespace ("vc-" <> service.name) w ≡ none)
        × (resources.cluster_registration_token ≡ token)
  unfolding await_secret
  await_secret-ok changed token w resources e =
      elim (Option-cases (H.get_secret service.namespace ("vc-" <> service.name) w)) [
        | inl there ↦ (there, rw (← ok-injective (rw (there, await_secret) at e)) refl)
        | inr (failure, failed) ↦ cc (rw (failed, await_secret) at e)
      ]

  await_token-ok :
      (changed : Unstructured) (w : A.World) (resources : RancherResources)
      → await_token A H o h service changed w ≡ ok resources
      → (token : Unstructured) × HasToken A H service changed w token
        × (resources.cluster_registration_token ≡ token)
  unfolding await_token
  await_token-ok changed w resources e =
      let found =
        Client.get A cluster_registration_token_management_cattle "default-token" changed.name w in
      elim (Result-cases found) [
        | inr (failure, failed) ↦ cc (rw (failed, await_token) at e)
        | inl (token, there) ↦
            let (secret, same) =
              await_secret-ok changed token w resources (rw (there, await_token) at e) in
            (token, (there, secret), same)
      ]

  pending_patched-ok :
      (r : Result Unstructured) (w : A.World) (resources : RancherResources)
      → pending_patched A H o h service r w ≡ ok resources
      → (changed token : Unstructured) × (r ≡ ok changed)
        × HasToken A H service changed w token
        × (resources.cluster_registration_token ≡ token)
  unfolding pending_patched
  pending_patched-ok (ok changed) w resources e =
      let (token, there, same) = await_token-ok changed w resources e in
      (changed, token, refl, there, same)
  pending_patched-ok (err failure) w resources e = cc

  abbrev HasResources : Unstructured → Unstructured → A.World → A.World → RancherResources → Type 0
  HasResources provisioning_cluster orig w w' resources =
      (changed : Unstructured) × IsPatched A h service provisioning_cluster orig changed w w'
      × HasCommand A H service provisioning_cluster changed w' (token_command resources)

  patch_management_cluster-ok :
      (members : HasMembers o) (provisioning_cluster orig : Unstructured) (w : A.World)
      (resources : RancherResources)
      → (patch_management_cluster A H o h service provisioning_cluster orig w).0 ≡ ok resources
      → HasResources provisioning_cluster orig w
          (A.patch (sent A H o h service provisioning_cluster orig) orig w).1
          resources
        × ((patch_management_cluster A H o h service provisioning_cluster orig w).1
            ≡ (A.patch (sent A H o h service provisioning_cluster orig) orig w).1)
  unfolding patch_management_cluster
  patch_management_cluster-ok members provisioning_cluster orig w resources e =
      let status = is_provisioned_lem provisioning_cluster in
      elim (Bool-cases (is_provisioned provisioning_cluster)) [
        | inl ready ↦
            let (changed, accepted, empty) =
              ready_patched-ok _ resources (rw (ready, patch_management_cluster) at e) in
            (
              (
                changed,
                sent-IsPatched A H o h service members provisioning_cluster orig changed w
                    (rw ready accepted),
                inl (sym status ∙ ready, empty),
              ),
              rw (ready, patch_management_cluster) refl,
            )
        | inr pending ↦
            let (changed, token, accepted, there, same) =
              pending_patched-ok _ _ resources (rw (pending, patch_management_cluster) at e) in
            (
              (
                changed,
                sent-IsPatched A H o h service members provisioning_cluster orig changed w
                    (rw pending accepted),
                inr (sym status ∙ pending, token, rw pending there, rw same refl),
              ),
              rw (pending, patch_management_cluster) refl,
            )
      ]

  -- The resources are there only after a patch of the first management cluster with the UID of the
  -- service, and with the command of its registration token unless it is ready.
  pub get_rancher_resources-HasResources :
      (members : HasMembers o) (provisioning_cluster : Unstructured) (w : A.World)
      (resources : RancherResources)
      → (get_rancher_resources A H o h service provisioning_cluster w).0 ≡ ok resources
      → (orig : Unstructured) × (others : List Unstructured) × (A.list clusters_management_cattle
            (labelled label_vcluster_service_uid service.uid)
            w
          ≡ ok (orig ∷ others))
        × HasResources provisioning_cluster orig w
            (get_rancher_resources A H o h service provisioning_cluster w).1
            resources
  unfolding get_rancher_resources
  get_rancher_resources-HasResources members provisioning_cluster w resources e =
      elim (Result-cases (
        get_first_with_label A clusters_management_cattle label_vcluster_service_uid service.uid
          w)) [
            | inr (failure, failed) ↦ cc (rw (failed, get_rancher_resources) at e)
            | inl (orig, found) ↦
                let (others, listed) =
                  first_of_list A clusters_management_cattle label_vcluster_service_uid service.uid
                    w orig found in
                let (has, same) =
                  patch_management_cluster-ok members provisioning_cluster orig w resources
                    (rw (found, get_rancher_resources) at e) in
                (orig, others, listed, rw (found, get_rancher_resources) (rw same has))
          ]
