-- ===== src/Config.antt =====
-- pkg/config/config.go: the configuration, read from environment variables.
pub mod Laws
use vcluster_rancher_operato.Prelude.{String, ◌==◌, Bool, List, [], ◌∷◌, ◌++◌, if◌then◌else◌}
use vcluster_rancher_operato.Strings.{split, has_suffix, trim_suffix}
use vcluster_rancher_operato.Maps.{StringMap, insert}
use vcluster_rancher_operato.Constants.{
  env_fleet_default_workspace, env_fleet_project_uid_workspace_mapping,
  env_fleet_auto_create_workspace, env_sync_include_label_keys, env_sync_exclude_label_keys,
}

pub record Config : Type 0 where
  pub fleet_default_workspace : String
  pub fleet_project_uid_to_workspace_mappings : StringMap
  pub fleet_auto_create_workspace : Bool
  pub service_sync_include_label_keys : List String
  pub service_sync_exclude_label_keys : List String
  pub service_sync_include_label_keys_with_prefix : List String
  pub service_sync_exclude_label_keys_with_prefix : List String

-- One round of the loop over the mappings, from the parts of an entry.
abbrev add_mapping : List String → StringMap → StringMap
add_mapping (uid ∷ workspace ∷ []) m = insert uid workspace m
add_mapping _ m = m

-- The loop over the mappings. The map is made at its first entry; until then it is nil.
unfoldable pub load_mappings : List String → StringMap → StringMap
load_mappings [] m = m
load_mappings (v ∷ vs) m = load_mappings vs (add_mapping (split b':' v) m)

-- Label keys, and prefixes of label keys.
pub record KeySelection : Type 0 where
  pub label_keys : List String
  pub label_keys_with_prefix : List String

-- The loop over the keys of one environment variable.
unfoldable pub load_label_keys : List String → KeySelection → KeySelection
unfolding has_suffix trim_suffix
load_label_keys [] s = s
load_label_keys (v ∷ vs) s = load_label_keys vs (
    if has_suffix v b'*'
    then record s { label_keys_with_prefix = s.label_keys_with_prefix ++ trim_suffix v b'*' ∷ [] }
    else record s { label_keys = s.label_keys ++ v ∷ [] })

abbrev pub no_keys : KeySelection
no_keys = record { label_keys = []; label_keys_with_prefix = [] }

-- `os.Getenv` is the argument: it gives the empty text for a variable that is not set.
unfoldable pub load_config_from_env : (String → String) → Config
unfolding load_mappings load_label_keys split
load_config_from_env getenv =
    let include = load_label_keys (split b',' (getenv env_sync_include_label_keys)) no_keys in
    let exclude = load_label_keys (split b',' (getenv env_sync_exclude_label_keys)) no_keys in
    record {
      fleet_default_workspace = getenv env_fleet_default_workspace;
      fleet_project_uid_to_workspace_mappings =
          load_mappings (split b',' (getenv env_fleet_project_uid_workspace_mapping)) [];
      fleet_auto_create_workspace = getenv env_fleet_auto_create_workspace == "true";
      service_sync_include_label_keys = include.label_keys;
      service_sync_exclude_label_keys = exclude.label_keys;
      service_sync_include_label_keys_with_prefix = include.label_keys_with_prefix;
      service_sync_exclude_label_keys_with_prefix = exclude.label_keys_with_prefix;
    }
