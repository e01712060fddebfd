-- ===== src/Config/Laws.antt =====
-- Reading back the environment that the chart (chart/templates/manager.yaml) writes from its
-- values.
use Prim.Native.String.{◌++◌ as ◌<>◌}
use mathlib.Core.List.{append-nil, append_assoc}
use vcluster_rancher_operato.Prelude.{
  String, ◌==◌, ◌≡◌, refl, ap, ◌∙◌, Bool, true, false, List, [], ◌∷◌, ◌++◌, map, All, if◌then◌else◌,
}
use vcluster_rancher_operato.Strings.{split, join, has_suffix}
use vcluster_rancher_operato.Strings.Laws.{
  Lacks, Lacks-append, split-join, split-append, split_of_Lacks, has_suffix-append,
  trim_suffix-append_self,
}
use vcluster_rancher_operato.Maps.{StringMap, insert}
use vcluster_rancher_operato.Constants.{
  env_fleet_default_workspace, env_fleet_project_uid_workspace_mapping,
  env_fleet_auto_create_workspace, env_sync_include_label_keys, env_sync_exclude_label_keys,
}
use vcluster_rancher_operato.Config.{
  Config, KeySelection, no_keys, load_mappings, load_label_keys, load_config_from_env,
}

-- A label key of the chart's values, or `prefix*`.
pub data KeyPattern : Type 0 where
  exact with_prefix : String → KeyPattern

-- The values of the chart that reach the operator.
pub record Values : Type 0 where
  pub default_workspace : String
  pub auto_create : Bool
  pub mappings : List (String × String)
  pub include : List KeyPattern
  pub exclude : List KeyPattern

abbrev pub show_pattern : KeyPattern → String
show_pattern (exact k) = k
show_pattern (with_prefix p) = p <> "*"

-- `printf "%s:%s"`
abbrev pub show_mapping : String × String → String
show_mapping (uid, workspace) = uid <> (":" <> workspace)

-- The environment that the chart writes.
abbrev pub environment : Values → String → String
environment v name =
    if name == env_fleet_default_workspace
    then v.default_workspace
    else if name == env_fleet_auto_create_workspace
    then (if v.auto_create then "true" else "false")
    else if name == env_fleet_project_uid_workspace_mapping
    then join "," (map show_mapping v.mappings)
    else if name == env_sync_include_label_keys
    then join "," (map show_pattern v.include)
    else if name == env_sync_exclude_label_keys
    then join "," (map show_pattern v.exclude)
    else ""

abbrev pub IsPattern : KeyPattern → Type 0
IsPattern (exact k) = Lacks b',' k × (has_suffix k b'*' ≡ false)
IsPattern (with_prefix p) = Lacks b',' p

abbrev pub IsMapping : String × String → Type 0
IsMapping (uid, workspace) =
    (Lacks b',' uid × Lacks b':' uid) × (Lacks b',' workspace × Lacks b':' workspace)

-- No text holds a character by which the values are separated.
pub record IsRenderable (v : Values) : Type 0 where
  pub mappings : All IsMapping v.mappings
  pub include : All IsPattern v.include
  pub exclude : All IsPattern v.exclude

abbrev pub insert_all : List (String × String) → StringMap → StringMap
insert_all [] m = m
insert_all ((uid, workspace) ∷ ps) m = insert_all ps (insert uid workspace m)

abbrev pub exact_keys : List KeyPattern → List String
exact_keys [] = []
exact_keys (exact k ∷ ps) = k ∷ exact_keys ps
exact_keys (with_prefix p ∷ ps) = exact_keys ps

abbrev pub prefixes : List KeyPattern → List String
prefixes [] = []
prefixes (exact k ∷ ps) = prefixes ps
prefixes (with_prefix p ∷ ps) = p ∷ prefixes ps

-- An empty list of patterns is read as the one empty key.
abbrev pub selection : List KeyPattern → KeySelection
selection [] = record { label_keys = "" ∷ []; label_keys_with_prefix = [] }
selection (p ∷ ps) = record {
  label_keys = exact_keys (p ∷ ps);
  label_keys_with_prefix = prefixes (p ∷ ps);
}

abbrev pub config_of : Values → Config
config_of v = record {
  fleet_default_workspace = v.default_workspace;
  fleet_project_uid_to_workspace_mappings = insert_all v.mappings [];
  fleet_auto_create_workspace = v.auto_create;
  service_sync_include_label_keys = (selection v.include).label_keys;
  service_sync_exclude_label_keys = (selection v.exclude).label_keys;
  service_sync_include_label_keys_with_prefix = (selection v.include).label_keys_with_prefix;
  service_sync_exclude_label_keys_with_prefix = (selection v.exclude).label_keys_with_prefix;
}

split-show_mapping :
    (uid workspace : String)
    → Lacks b':' uid
    → Lacks b':' workspace
    → split b':' (show_mapping (uid, workspace)) ≡ uid ∷ workspace ∷ []
split-show_mapping uid workspace h k =
    split-append ":" uid workspace h ∙ ap (λ r. uid ∷ r) (split_of_Lacks b':' workspace k)

load_mappings-show :
    (ps : List (String × String)) (m : StringMap)
    → All IsMapping ps
    → load_mappings (map show_mapping ps) m ≡ insert_all ps m
unfolding load_mappings
load_mappings-show [] m h = refl
load_mappings-show ((uid, workspace) ∷ ps) m ((h, k), hs) =
    rw (split-show_mapping uid workspace h.1 k.1, load_mappings) (load_mappings-show ps _ hs)

Lacks-show_mappings :
    (ps : List (String × String)) → All IsMapping ps → All (Lacks b',') (map show_mapping ps)
Lacks-show_mappings [] h = tt
Lacks-show_mappings ((uid, workspace) ∷ ps) ((h, k), hs) = (
  Lacks-append b',' uid (":" <> workspace) h.0 (Lacks-append b',' ":" workspace (refl, tt) k.0),
  Lacks-show_mappings ps hs,
)

Lacks-show_patterns :
    (ps : List KeyPattern) → All IsPattern ps → All (Lacks b',') (map show_pattern ps)
Lacks-show_patterns [] h = tt
Lacks-show_patterns (exact k ∷ ps) (h, hs) = (h.0, Lacks-show_patterns ps hs)
Lacks-show_patterns (with_prefix p ∷ ps) (h, hs) =
    (Lacks-append b',' p "*" h (refl, tt), Lacks-show_patterns ps hs)

load_label_keys-show :
    (ps : List KeyPattern) (s : KeySelection)
    → All IsPattern ps
    → load_label_keys (map show_pattern ps) s ≡ record {
      label_keys = s.label_keys ++ exact_keys ps;
      label_keys_with_prefix = s.label_keys_with_prefix ++ prefixes ps;
    }
unfolding load_label_keys
load_label_keys-show [] s h = simp append-nil
load_label_keys-show (exact k ∷ ps) s (h, hs) =
    rw (h.1, load_label_keys) (load_label_keys-show ps _ hs ∙ simp append_assoc)
load_label_keys-show (with_prefix p ∷ ps) s (h, hs) =
    rw (has_suffix-append p "*", trim_suffix-append_self p "*", load_label_keys)
      (load_label_keys-show ps _ hs ∙ simp append_assoc)

load_selection :
    (ps : List KeyPattern)
    → All IsPattern ps
    → load_label_keys (split b',' (join "," (map show_pattern ps))) no_keys ≡ selection ps
unfolding load_label_keys split join
load_selection [] h = refl
load_selection (p ∷ ps) h =
    rw (split-join "," (show_pattern p) (map show_pattern ps) (Lacks-show_patterns (p ∷ ps) h))
      (load_label_keys-show (p ∷ ps) no_keys h)

load_mappings_of_join :
    (ps : List (String × String))
    → All IsMapping ps
    → load_mappings (split b',' (join "," (map show_mapping ps))) [] ≡ insert_all ps []
unfolding load_mappings split join
load_mappings_of_join [] h = refl
load_mappings_of_join (p ∷ ps) h =
    rw (split-join "," (show_mapping p) (map show_mapping ps) (Lacks-show_mappings (p ∷ ps) h))
      (load_mappings-show (p ∷ ps) [] h)

auto_create-show : (b : Bool) → ((if b then "true" else "false") == "true") ≡ b
auto_create-show true = refl
auto_create-show false = refl

-- Reading the environment that the chart writes gives back the chart's values, if no text of them
-- holds a separating character and no exact key ends in "*": the mappings entered in their order,
-- the exact keys, the prefixes without their "*", the default workspace and the flag. An empty list
-- of keys is read as the one empty key.
pub load_config_from_env-environment :
    (v : Values) → IsRenderable v → load_config_from_env (environment v) ≡ config_of v
unfolding load_config_from_env
load_config_from_env-environment v h = rw (
  load_selection v.include h.include,
  load_selection v.exclude h.exclude,
  load_mappings_of_join v.mappings h.mappings,
  auto_create-show v.auto_create,
)
