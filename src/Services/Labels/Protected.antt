-- ===== src/Services/Labels/Protected.antt =====
-- The protected labels, and one that the documentation counts among them.
use vcluster_rancher_operato.Prelude.{
  String, ◌==◌, starts_with, eq_iff, ◌≡◌, refl, Bool, true, false, ◌||◌, List, [], ◌∷◌, contains,
  arith, Bool-cases, inl, inr,
}
use vcluster_rancher_operato.Maps.{StringMap, lookup}
use vcluster_rancher_operato.Config.{Config}
use vcluster_rancher_operato.Services.Labels.{Orders, HasMembers, has_some_prefix, sync_labels}
use vcluster_rancher_operato.Services.Labels.Laws.{source_label, is_synced, lookup-sync_labels}

-- A label of the operator under "loft.sh/", a label of a vCluster, or one that Helm or a chart sets.
abbrev pub is_protected : String → Bool
is_protected k =
    starts_with k "loft.sh/"
    || starts_with k "vcluster.loft.sh/"
    || starts_with k "app.kubernetes.io/"
    || k == "helm"
    || k == "app"
    || k == "heritage"
    || k == "release"

is_synced_of_protected :
    (config : Config) (k : String) → is_protected k ≡ true → is_synced config k ≡ false
is_synced_of_protected config k h = ground arith

matches_all :
    (k : String) (prefixes : List String)
    → starts_with k "" ≡ true
    → contains "" prefixes ≡ true
    → has_some_prefix prefixes k ≡ true
matches_all k [] always h = cc
matches_all k (p ∷ ps) always h = elim (Bool-cases ("" == p)) [
  | inl same ↦ rw (← (eq_iff "" p).0 same, always)
  | inr differ ↦ ground (arith, matches_all k ps always)
]

module _ (o : Orders) (members : HasMembers o) (config : Config) where
  -- No configuration makes the operator change a label with the prefix "loft.sh/",
  -- "vcluster.loft.sh/" or "app.kubernetes.io/", or the label "helm", "app", "heritage" or
  -- "release".
  pub lookup-sync_labels_protected :
      (from to : StringMap) (k : String)
      → is_protected k ≡ true
      → lookup k (sync_labels o config from to) ≡ lookup k to
  lookup-sync_labels_protected from to k h =
      ground (arith, lookup-sync_labels o members config from to k, is_synced_of_protected config k)

  -- A configuration that includes every label, and excludes this one neither by its key nor by a
  -- prefix, syncs "platform.vcluster.com/auto-created", a label with one of the operator's own
  -- prefixes: the cluster gets the value of the service, and none where the service has none.
  pub lookup-sync_labels_platform :
      (from to : StringMap)
      → contains "" config.service_sync_include_label_keys_with_prefix ≡ true
      → contains "platform.vcluster.com/auto-created" config.service_sync_exclude_label_keys ≡ false
      → has_some_prefix config.service_sync_exclude_label_keys_with_prefix
          "platform.vcluster.com/auto-created"
        ≡ false
      → lookup "platform.vcluster.com/auto-created" (sync_labels o config from to)
        ≡ source_label from "platform.vcluster.com/auto-created"
  lookup-sync_labels_platform from to every key_kept prefix_kept = ground (
    arith,
    lookup-sync_labels o members config from to "platform.vcluster.com/auto-created",
    matches_all "platform.vcluster.com/auto-created"
        config.service_sync_include_label_keys_with_prefix refl every,
  )

  -- A configuration that includes every label, and excludes this one neither by its key nor by a
  -- prefix, syncs the label "helm.sh/chart" of the service.
  pub lookup-sync_labels_helm_chart :
      (from to : StringMap)
      → contains "" config.service_sync_include_label_keys_with_prefix ≡ true
      → contains "helm.sh/chart" config.service_sync_exclude_label_keys ≡ false
      → has_some_prefix config.service_sync_exclude_label_keys_with_prefix "helm.sh/chart" ≡ false
      → lookup "helm.sh/chart" (sync_labels o config from to) ≡ source_label from "helm.sh/chart"
  lookup-sync_labels_helm_chart from to every key_kept prefix_kept = ground (
    arith,
    lookup-sync_labels o members config from to "helm.sh/chart",
    matches_all "helm.sh/chart" config.service_sync_include_label_keys_with_prefix refl every,
  )
