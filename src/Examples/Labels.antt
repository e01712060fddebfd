-- ===== src/Examples/Labels.antt =====
-- Labels and names.
use Prim.Native.String.{len}
use vcluster_rancher_operato.Prelude.{
  ◌≡◌, refl, ◌↔◌, ◌⊎◌, ◌<◌, true, false, some, none, [], ◌∷◌, if◌then◌else◌,
}
use vcluster_rancher_operato.Maps.{StringMap, get, lookup}
use vcluster_rancher_operato.Config.{Config}
use vcluster_rancher_operato.Kube.{Service}
use vcluster_rancher_operato.Errors.{ok, is_err}
use vcluster_rancher_operato.Constants.{
  label_auto_created, label_vcluster_service_uid, annotation_custom_name,
  annotation_custom_name_prefix,
}
use vcluster_rancher_operato.Services.Labels.{sync_labels}
use vcluster_rancher_operato.Services.Labels.Laws.{source_label, is_synced, lookup-sync_labels}
use vcluster_rancher_operato.Services.Labels.Protected.{
  lookup-sync_labels_protected, lookup-sync_labels_platform, lookup-sync_labels_helm_chart,
}
use vcluster_rancher_operato.Services.Naming.{get_provisioning_cluster_name}
use vcluster_rancher_operato.Services.Naming.Bounds.{
  Fits, generated_length, get_provisioning_cluster_name-Fits,
  get_provisioning_cluster_name-fails_iff,
}
use vcluster_rancher_operato.Examples.Data.{config, handler, service, orders, orders-HasMembers}

abbrev cluster_labels : StringMap
cluster_labels =
    ("org.company/old", "x") ∷ (label_vcluster_service_uid, "uid-1") ∷ ("environment", "dev") ∷ []

-- Every label is included.
abbrev sync_everything : Config
sync_everything = record config { service_sync_include_label_keys_with_prefix = "" ∷ [] }

abbrev chart_labels : StringMap
chart_labels = ("helm.sh/chart", "vcluster-0.2") ∷ []

synced : StringMap
unfolding sync_labels
synced = sync_labels orders config service.labels cluster_labels

-- What the service has is set, and what it has not is removed, also if it is included by its
-- prefix.
synced_labels :
    (lookup "org.company/tier" synced ≡ some "gold")
    × (lookup "org.company/old" synced ≡ none)
    × (lookup "environment" synced ≡ none)
    × (lookup "app" synced ≡ none)
    × (lookup label_vcluster_service_uid synced ≡ some "uid-1")
unfolding synced lookup
synced_labels = (refl, refl, refl, refl, refl)

lookup-sync_labels_example :
    lookup "org.company/old" (sync_labels orders config service.labels cluster_labels) ≡ (
      if is_synced config "org.company/old"
      then source_label service.labels "org.company/old"
      else lookup "org.company/old" cluster_labels)
lookup-sync_labels_example =
    lookup-sync_labels orders orders-HasMembers config service.labels cluster_labels
      "org.company/old"

lookup-sync_labels_protected_example :
    lookup label_vcluster_service_uid
      (sync_labels orders sync_everything service.labels cluster_labels)
    ≡ lookup label_vcluster_service_uid cluster_labels
lookup-sync_labels_protected_example =
    lookup-sync_labels_protected orders orders-HasMembers sync_everything service.labels
      cluster_labels label_vcluster_service_uid refl

lookup-sync_labels_platform_example :
    lookup "platform.vcluster.com/auto-created" (
      sync_labels orders sync_everything service.labels
        ((label_auto_created, "true") ∷ cluster_labels))
    ≡ source_label service.labels "platform.vcluster.com/auto-created"
lookup-sync_labels_platform_example =
    lookup-sync_labels_platform orders orders-HasMembers sync_everything service.labels
      ((label_auto_created, "true") ∷ cluster_labels) refl refl refl

lookup-sync_labels_helm_chart_example :
    lookup "helm.sh/chart" (sync_labels orders sync_everything chart_labels cluster_labels)
    ≡ source_label chart_labels "helm.sh/chart"
lookup-sync_labels_helm_chart_example =
    lookup-sync_labels_helm_chart orders orders-HasMembers sync_everything chart_labels
      cluster_labels refl refl refl

-- A custom prefix that gets its hyphen.
abbrev prefixed : Service
prefixed = record service { annotations = (annotation_custom_name_prefix, "team") ∷ [] }

prefixed_name : get_provisioning_cluster_name handler prefixed ≡ ok ("team-", true)
unfolding get_provisioning_cluster_name
prefixed_name = refl

-- The default name.
plain_name : get_provisioning_cluster_name handler service ≡ ok ("c-m-1-team-vc", false)
unfolding get_provisioning_cluster_name
plain_name = refl

get_provisioning_cluster_name-Fits_example : Fits "team-" true
get_provisioning_cluster_name-Fits_example =
    get_provisioning_cluster_name-Fits handler prefixed "team-" true prefixed_name

get_provisioning_cluster_name-fails_iff_example :
    (is_err (get_provisioning_cluster_name handler prefixed) ≡ true) ↔ (
      (63 < len (get prefixed.annotations annotation_custom_name))
      ⊎ ((get prefixed.annotations annotation_custom_name ≡ "")
          × (63 < generated_length (get prefixed.annotations annotation_custom_name_prefix))))
get_provisioning_cluster_name-fails_iff_example =
    get_provisioning_cluster_name-fails_iff handler prefixed
