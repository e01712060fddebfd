-- ===== src/Services/Provisioning/Once.antt =====
-- A second run finds the provisioning cluster that the first one has made.
use vcluster_rancher_operato.Prelude.{◌≡◌, ◌≢◌, refl, ◌∙◌, inl, inr, some, List, [], ◌∷◌, In}
use vcluster_rancher_operato.Maps.{StringMap, lookup}
use vcluster_rancher_operato.Maps.Laws.{lookup_of_get}
use vcluster_rancher_operato.Errors.{ok}
use vcluster_rancher_operato.Constants.{label_vcluster_service_uid}
use vcluster_rancher_operato.Unstructured.{Unstructured, no_object, cluster_provisioning_cattle}
use vcluster_rancher_operato.Client.{Api, list_with_label, get_first_with_label}
use vcluster_rancher_operato.Client.Laws.{labelled, list_of_label}
use vcluster_rancher_operato.Client.Stores.{Stores}
use vcluster_rancher_operato.Kube.{Service, Namespace}
use vcluster_rancher_operato.Services.Defs.{Handler}
use vcluster_rancher_operato.Services.Provisioning.{ensure_provisioning_cluster}
use vcluster_rancher_operato.Services.Provisioning.Created.{
  Creation, ensure_provisioning_cluster-made,
}
use vcluster_rancher_operato.Services.Provisioning.Cluster.{new_cluster_labels_lem}

module _ (A : Api) (h : Handler) where
  -- A cluster that is not the empty object is the server's answer.
  real_answer :
      (labels : StringMap) (w : A.World) (cluster : Unstructured) (w' : A.World)
      (creation : Creation A h labels w cluster w')
      → cluster ≢ no_object
      → A.create creation.object creation.before ≡ (ok cluster, w')
  real_answer labels w cluster w' creation real = elim creation.accepted [
    | inl answered ↦ creation.created ∙ (λ i. (answered i, w'))
    | inr (e, refused, there, empty) ↦ absurd (real empty)
  ]

  module _ (stores : Stores A) where
    listed_first :
        (service : Service) (labels : StringMap) (cluster : Unstructured) (w w' : A.World)
        (items : List Unstructured)
        → lookup label_vcluster_service_uid labels ≡ some service.uid
        → Creation A h labels w cluster w'
        → cluster ≢ no_object
        → list_with_label A cluster_provisioning_cattle label_vcluster_service_uid service.uid w'
          ≡ ok items
        → In cluster items
    listed_first service labels cluster w w' items uid creation real listed =
        let made = real_answer labels w cluster w' creation real in
        let (stored, kind', _, kept) =
          stores.created creation.object cluster creation.before w' made in
        let selector = labelled label_vcluster_service_uid service.uid in
        let label = kept label_vcluster_service_uid service.uid (rw creation.same_labels uid) in
        stores.listed_all cluster_provisioning_cattle selector w' items cluster
          (list_of_label A cluster_provisioning_cattle label_vcluster_service_uid service.uid w'
            items listed)
          stored (kind' ∙ creation.kind, inl refl, (label, tt))

    first_of_In :
        (service : Service) (cluster : Unstructured) (w' : A.World) (items : List Unstructured)
        → In cluster items
        → list_with_label A cluster_provisioning_cattle label_vcluster_service_uid service.uid w'
          ≡ ok items
        → (first : Unstructured) × (get_first_with_label A cluster_provisioning_cattle
              label_vcluster_service_uid service.uid w'
            ≡ ok first)
    unfolding get_first_with_label
    first_of_In service cluster w' [] there listed = elim there [ ]
    first_of_In service cluster w' (first ∷ items) there listed = (first, rw listed refl)

    found_again :
        (service : Service) (ns : Namespace) (w w' : A.World) (cluster : Unstructured)
        (items : List Unstructured)
        → service.uid ≢ ""
        → ensure_provisioning_cluster A h service ns w ≡ (ok cluster, w')
        → cluster ≢ no_object
        → list_with_label A cluster_provisioning_cattle label_vcluster_service_uid service.uid w'
          ≡ ok items
        → (first : Unstructured) × (get_first_with_label A cluster_provisioning_cattle
              label_vcluster_service_uid service.uid w'
            ≡ ok first)
    found_again service ns w w' cluster items named e real listed =
        elim (ensure_provisioning_cluster-made A h service ns w w' cluster e) [
          | inl (same, found) ↦ (cluster, rw same found)
          | inr (labels, made, creation) ↦
              let (uid, _, _) = new_cluster_labels_lem h A service ns w labels made in
              first_of_In service cluster w' items
                (listed_first service labels cluster w w' items
                  (lookup_of_get labels label_vcluster_service_uid service.uid uid named) creation
                  real listed)
                listed
        ]

    -- If the server keeps what is created and lists what it keeps, a second run for a service with
    -- a UID, after a first run has given its provisioning cluster, finds a cluster and writes
    -- nothing, provided that the clusters can be listed.
    pub ensure_provisioning_cluster_twice :
        (service : Service) (ns : Namespace) (w w' : A.World) (cluster : Unstructured)
        (items : List Unstructured)
        → service.uid ≢ ""
        → ensure_provisioning_cluster A h service ns w ≡ (ok cluster, w')
        → cluster ≢ no_object
        → list_with_label A cluster_provisioning_cattle label_vcluster_service_uid service.uid w'
          ≡ ok items
        → (first : Unstructured) × (ensure_provisioning_cluster A h service ns w' ≡ (ok first, w'))
    unfolding ensure_provisioning_cluster
    ensure_provisioning_cluster_twice service ns w w' cluster items named e real listed =
        let (first, found) = found_again service ns w w' cluster items named e real listed in
        (first, rw (found, ensure_provisioning_cluster) refl)
