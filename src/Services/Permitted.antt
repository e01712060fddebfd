-- ===== src/Services/Permitted.antt =====
-- Which writes the handler of a host cluster may make.
use vcluster_rancher_operato.Prelude.{String, ◌≡◌, ◌≢◌, ◌⊎◌, ◌∷◌, true, false, []}
use vcluster_rancher_operato.Maps.{get, lookup}
use vcluster_rancher_operato.Constants.{label_host_cluster_name, label_target_app}
use vcluster_rancher_operato.Unstructured.{
  Unstructured, cluster_provisioning_cattle, fleet_workspace_management_cattle,
  clusters_management_cattle,
}
use vcluster_rancher_operato.Services.Defs.{Handler}
use vcluster_rancher_operato.Services.Naming.Bounds.{Fits}
use vcluster_rancher_operato.Services.Labels.Protected.{is_protected}
use vcluster_rancher_operato.Services.Writes.{
  Write, create_object, patch_object, delete_object, create_job, delete_job,
}

-- The name of an object fits, or it has none and is named by a prefix that fits.
abbrev pub HasFittingName : Unstructured → Type 0
HasFittingName object =
    ((object.generate_name ≡ "") × Fits object.name false)
    ⊎ ((object.name ≡ "") × Fits object.generate_name true)

abbrev pub IsHostedBy : Handler → Unstructured → Type 0
IsHostedBy h object =
    (object.gvk ≡ cluster_provisioning_cattle)
    × (get object.labels label_host_cluster_name ≡ h.cluster_name)

-- The labels that no configuration can touch are kept, but for that of the target app.
abbrev pub KeepsLabels : Unstructured → Unstructured → Type 0
KeepsLabels changed orig =
    (k : String)
    → is_protected k ≡ true
    → k ≢ label_target_app
    → lookup k changed.labels ≡ lookup k orig.labels

-- Created are provisioning clusters of this host cluster whose names fit, and workspaces if the
-- configuration says so. Patched are management clusters, in their labels and finalizers only,
-- with the protected labels kept. Deleted are provisioning clusters of this host cluster. Jobs are
-- created with the label of the install jobs.
abbrev pub Permitted : Handler → Write → Type 0
Permitted h (create_object object) =
    (IsHostedBy h object × HasFittingName object)
    ⊎ ((object.gvk ≡ fleet_workspace_management_cattle)
        × (h.config.fleet_auto_create_workspace ≡ true))
Permitted h (patch_object changed orig) =
    (orig.gvk ≡ clusters_management_cattle)
    × (changed ≡ record orig { labels = changed.labels; finalizers = changed.finalizers })
    × KeepsLabels changed orig
Permitted h (delete_object object) = IsHostedBy h object
Permitted h (create_job job) = job.labels ≡ ("vcluster.loft.sh/install-job", "true") ∷ []
Permitted h (delete_job namespace name) = Unit
