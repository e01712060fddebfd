-- ===== src/Services/Provisioning/Cluster.antt =====
-- The labels of a new provisioning cluster.
use vcluster_rancher_operato.Prelude.{String, ◌≡◌, refl, inl, inr, Option, none, some, Option-cases}
use vcluster_rancher_operato.Maps.{StringMap, get, insert, lookup}
use vcluster_rancher_operato.Errors.{ok, Result-cases, ok-injective}
use vcluster_rancher_operato.Constants.{
  label_vcluster_service_uid, label_host_cluster_name, label_project_uid, label_project_name,
  value_no_rancher_project_on_namespace,
}
use vcluster_rancher_operato.Unstructured.{Unstructured, project_management_cattle}
use vcluster_rancher_operato.Client
use vcluster_rancher_operato.Client.{Api}
use vcluster_rancher_operato.Kube.{Service, Namespace}
use vcluster_rancher_operato.Services.Defs.{Handler}
use vcluster_rancher_operato.Services.Provisioning.{new_cluster_labels, base_labels}

-- The labels about the project: those of the project that the namespace names, or the mark that
-- there is none.
abbrev pub HasProjectLabels : Handler → (A : Api) → A.World → Option String → StringMap → Type 0
HasProjectLabels h A w none labels =
    (get labels label_project_uid ≡ value_no_rancher_project_on_namespace)
    × (get labels label_project_name ≡ "")
HasProjectLabels h A w (some project_id) labels =
    (project : Unstructured) × (Client.get A project_management_cattle project_id h.cluster_name w
      ≡ ok project)
    × (get labels label_project_uid ≡ project.uid)
    × (get labels label_project_name ≡ project.name)

module _ (h : Handler) (A : Api) where
  abbrev base_with_no_project : Service → StringMap
  base_with_no_project service =
      insert label_project_uid value_no_rancher_project_on_namespace (base_labels A h service)

  abbrev with_project : Service → Unstructured → StringMap
  with_project service project =
      insert label_project_name project.name
        (insert label_project_uid project.uid (base_labels A h service))

  -- A new provisioning cluster carries the UID of its service, the name of its host cluster, and
  -- the UID and the name of the project of its namespace, or the mark that the namespace has none.
  pub new_cluster_labels_lem :
      (service : Service) (ns : Namespace) (w : A.World) (labels : StringMap)
      → new_cluster_labels A h service ns w ≡ ok labels
      → (get labels label_vcluster_service_uid ≡ service.uid)
        × (get labels label_host_cluster_name ≡ h.cluster_name)
        × HasProjectLabels h A w (lookup "field.cattle.io/projectId" ns.labels) labels
  unfolding new_cluster_labels get
  new_cluster_labels_lem service ns w labels e =
      elim (Option-cases (lookup "field.cattle.io/projectId" ns.labels)) [
        | inl absent ↦
            let created : base_with_no_project service ≡ labels =
              ok-injective (rw (absent, new_cluster_labels) at e) in
            rw (← created) (rw absent (refl, refl, (refl, refl)))
        | inr (project_id, present) ↦
            let looked_up = rw (present, new_cluster_labels) at e in
            let found = Client.get A project_management_cattle project_id h.cluster_name w in
            elim (Result-cases found) [
              | inl (project, ours) ↦
                  let created : with_project service project ≡ labels =
                    ok-injective (rw ours at looked_up) in
                  rw (← created) (rw present (refl, refl, (project, ours, refl, refl)))
              | inr (failure, failed) ↦ cc (rw failed at looked_up)
            ]
      ]
