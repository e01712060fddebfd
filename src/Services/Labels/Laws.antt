-- ===== src/Services/Labels/Laws.antt =====
-- What a synchronisation leaves in the labels.
use vcluster_rancher_operato.Prelude.{
  String, ◌==◌, eq_iff, starts_with, ◌≡◌, refl, sym, ◌∙◌, Bool, false, not, ◌&&◌, ◌||◌, Option,
  none, some, List, [], ◌∷◌, ◌++◌, contains, if◌then◌else◌, arith, any-append, Bool-cases, inl, inr,
}
use vcluster_rancher_operato.Maps.{StringMap, lookup, get, keys}
use vcluster_rancher_operato.Maps.Laws.{lookup-insert, lookup-delete, lookup_absent}
use vcluster_rancher_operato.Config.{Config}
use vcluster_rancher_operato.Services.Labels.{
  Orders, HasMembers, has_some_prefix, label_keys_to_prevent_from_syncing,
  label_key_prefixes_to_prevent_from_syncing, add_matching, remove, remove_all, sync_key, sync_loop,
  keys_to_sync, sync_labels,
}

-- The label of the service, none if it is missing or empty.
abbrev pub source_label : StringMap → String → Option String
source_label from k = if get from k == "" then none else some (get from k)

contains-add_matching :
    (prefixes ks set : List String) (k : String)
    → contains k (add_matching prefixes ks set)
      ≡ (contains k set || contains k ks && has_some_prefix prefixes k)
unfolding add_matching
contains-add_matching prefixes [] set k = ground arith
contains-add_matching prefixes (j ∷ ks) set k = elim (Bool-cases (k == j)) [
  | inl same ↦
      let e : k ≡ j = (eq_iff k j).0 same in
      rw (contains-add_matching prefixes ks) (rw (← e) (ground (arith, eq_iff k k)))
  | inr differ ↦ rw (contains-add_matching prefixes ks) (ground arith)
]

contains-remove :
    (j : String) (set : List String) (k : String)
    → contains k (remove j set) ≡ (contains k set && not (k == j))
unfolding remove
contains-remove j [] k = refl
contains-remove j (i ∷ set) k =
    ground (arith, eq_iff i j, eq_iff k j, eq_iff k i, contains-remove j set k)

contains-remove_all :
    (ks set : List String) (k : String)
    → contains k (remove_all ks set) ≡ (contains k set && not (contains k ks))
unfolding remove_all
contains-remove_all [] set k = ground arith
contains-remove_all (j ∷ ks) set k =
    ground (arith, contains-remove_all ks (remove j set) k, contains-remove j set k)

lookup-sync_key :
    (excluded : List String) (from : StringMap) (j : String) (to : StringMap) (k : String)
    → lookup k (sync_key excluded from j to)
      ≡ (if k == j && not (has_some_prefix excluded k) then source_label from k else lookup k to)
unfolding sync_key
lookup-sync_key excluded from j to k = elim (Bool-cases (k == j)) [
  | inl same ↦
      let e : k ≡ j = (eq_iff k j).0 same in
      rw (← e) (ground (arith, eq_iff k k, lookup-delete k k to, lookup-insert k k (get from k) to))
  | inr differ ↦
      ground
        (arith, eq_iff k j, eq_iff j k, lookup-delete j k to, lookup-insert j k (get from j) to)
]

lookup-sync_loop :
    (excluded : List String) (from : StringMap) (ks : List String) (to : StringMap) (k : String)
    → lookup k (sync_loop excluded from ks to) ≡ (
        if contains k ks && not (has_some_prefix excluded k)
        then source_label from k
        else lookup k to)
unfolding sync_loop
lookup-sync_loop excluded from [] to k = refl
lookup-sync_loop excluded from (j ∷ ks) to k = ground (
  arith,
  lookup-sync_loop excluded from ks (sync_key excluded from j to) k,
  lookup-sync_key excluded from j to k,
)

-- A key is synced if it or a prefix of it is included, and neither it nor a prefix of it is
-- excluded, by the configuration or always.
abbrev pub is_synced : Config → String → Bool
is_synced config k =
    (contains k config.service_sync_include_label_keys
      || has_some_prefix config.service_sync_include_label_keys_with_prefix k)
    && not
        (contains k (label_keys_to_prevent_from_syncing ++ config.service_sync_exclude_label_keys))
    && not (
        has_some_prefix
          (label_key_prefixes_to_prevent_from_syncing
            ++ config.service_sync_exclude_label_keys_with_prefix)
          k)

or_false : (a b : Bool) → (a || b) ≡ false → (a ≡ false) × (b ≡ false)
or_false a b h = ground arith

-- A key of neither map has no label to sync, and none to remove.
absent_key :
    (from to : StringMap) (k : String)
    → contains k (keys from ++ keys to) ≡ false
    → (source_label from k ≡ none) × (lookup k to ≡ none)
unfolding get
absent_key from to k h =
    let (in_from, in_to) =
      or_false _ _ (sym (any-append (λ j. k == j) (keys from) (keys to)) ∙ h) in
    (rw (lookup_absent k from in_from), lookup_absent k to in_to)

module _ (o : Orders) (members : HasMembers o) (config : Config) where
  contains-keys_to_sync :
      (from to : StringMap) (k : String)
      → contains k (keys_to_sync o config from to) ≡ (
          (contains k config.service_sync_include_label_keys
            || contains k (keys from ++ keys to)
              && has_some_prefix config.service_sync_include_label_keys_with_prefix k)
          && not (
              contains k
                (label_keys_to_prevent_from_syncing ++ config.service_sync_exclude_label_keys)))
  unfolding keys_to_sync
  contains-keys_to_sync from to k =
      let prefixes = config.service_sync_include_label_keys_with_prefix in
      let included = config.service_sync_include_label_keys in
      let excluded = label_keys_to_prevent_from_syncing ++ config.service_sync_exclude_label_keys in
      let all_keys = keys from ++ keys to in
      ground (
        arith,
        contains-remove_all (o.sorted excluded) (add_matching prefixes (o.sorted all_keys) included)
            k,
        contains-add_matching prefixes (o.sorted all_keys) included k,
        members.any-sorted (λ j. k == j) excluded,
        members.any-sorted (λ j. k == j) all_keys,
      )

  -- Whatever the order in which the sets and maps are walked, a synced key ends with the label of
  -- the service, or without one where the service has none or an empty one; any other key is left
  -- as it was.
  pub lookup-sync_labels :
      (from to : StringMap) (k : String)
      → lookup k (sync_labels o config from to)
        ≡ (if is_synced config k then source_label from k else lookup k to)
  unfolding sync_labels
  lookup-sync_labels from to k =
      let excluded =
        label_key_prefixes_to_prevent_from_syncing
        ++ config.service_sync_exclude_label_keys_with_prefix in
      let ks = keys_to_sync o config from to in
      ground (
        arith,
        lookup-sync_loop (o.sorted excluded) from (o.range ks) to k,
        members.any-range (λ j. k == j) ks,
        contains-keys_to_sync from to k,
        members.any-sorted (λ s. starts_with k s) excluded,
        absent_key from to k,
      )
