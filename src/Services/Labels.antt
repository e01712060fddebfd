-- ===== src/Services/Labels.antt =====
-- The synchronisation of labels, `syncLabels` in pkg/services/handler.go.
pub mod Laws
pub mod Protected
use vcluster_rancher_operato.Prelude.{
  String, ◌==◌, ◌≡◌, starts_with, Bool, List, [], ◌∷◌, ◌++◌, any, if◌then◌else◌,
}
use vcluster_rancher_operato.Maps.{StringMap, get, insert, delete, keys}
use vcluster_rancher_operato.Config.{Config}

abbrev pub label_key_prefixes_to_prevent_from_syncing : List String
label_key_prefixes_to_prevent_from_syncing =
    "loft.sh/" ∷ "vcluster.loft.sh/" ∷ "app.kubernetes.io/" ∷ []

abbrev pub label_keys_to_prevent_from_syncing : List String
label_keys_to_prevent_from_syncing = "helm" ∷ "app" ∷ "heritage" ∷ "release" ∷ []

-- What the code leaves open: `sorted` is the list of a `sets.String` made of the given texts, and
-- `range` the order in which Go walks the keys of a map, which differs from run to run.
pub record Orders : Type 0 where
  pub sorted : List String → List String
  pub range : List String → List String

-- The members are those of the set or map, whatever their order.
pub record HasMembers (o : Orders) : Type 0 where
  pub any-sorted : (p : String → Bool) (ks : List String) → any p (o.sorted ks) ≡ any p ks
  pub any-range : (p : String → Bool) (ks : List String) → any p (o.range ks) ≡ any p ks

-- `slices.ContainsFunc(prefixes, func(s string) bool { return strings.HasPrefix(k, s) })`
abbrev pub has_some_prefix : List String → String → Bool
has_some_prefix prefixes k = any (λ s. starts_with k s) prefixes

-- The loop that adds the keys with an included prefix to the set.
add_matching : List String → List String → List String → List String
add_matching prefixes [] set = set
add_matching prefixes (k ∷ ks) set =
    add_matching prefixes ks (if has_some_prefix prefixes k then k ∷ set else set)

-- `delete(keysToSync, k)`
remove : String → List String → List String
remove k [] = []
remove k (j ∷ set) = let rest = remove k set in if j == k then rest else j ∷ rest

-- The loop that deletes the excluded keys.
remove_all : List String → List String → List String
unfolding remove
remove_all [] set = set
remove_all (k ∷ ks) set = remove_all ks (remove k set)

-- One round of the last loop.
sync_key : List String → StringMap → String → StringMap → StringMap
sync_key key_prefixes_to_exclude from k to =
    if has_some_prefix key_prefixes_to_exclude k
    then to
    else if get from k == ""
    then delete k to
    else insert k (get from k) to

-- The last loop, over the keys in the order of the map.
sync_loop : List String → StringMap → List String → StringMap → StringMap
unfolding sync_key
sync_loop key_prefixes_to_exclude from [] to = to
sync_loop key_prefixes_to_exclude from (k ∷ ks) to =
    sync_loop key_prefixes_to_exclude from ks (sync_key key_prefixes_to_exclude from k to)

module _ (o : Orders) (config : Config) where
  keys_to_sync : StringMap → StringMap → List String
  unfolding add_matching remove_all keys
  keys_to_sync from to =
      remove_all
        (o.sorted (label_keys_to_prevent_from_syncing ++ config.service_sync_exclude_label_keys))
        (add_matching config.service_sync_include_label_keys_with_prefix
          (o.sorted (keys from ++ keys to)) config.service_sync_include_label_keys)

  -- The new labels of `to`.
  unfoldable pub sync_labels : StringMap → StringMap → StringMap
  unfolding keys_to_sync sync_loop get insert delete
  sync_labels from to =
      sync_loop
        (o.sorted (
          label_key_prefixes_to_prevent_from_syncing
          ++ config.service_sync_exclude_label_keys_with_prefix))
        from (o.range (keys_to_sync from to)) to
