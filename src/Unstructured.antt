-- ===== src/Unstructured.antt =====
-- Objects of the API server without a Go type, pkg/unstructured/client.go (`GetNested`,
-- `FilterItems`, `ForEachItem`) and pkg/unstructured/gvk/gvk.go. The metadata that the operator
-- reads or sets by the methods of `unstructured.Unstructured` are fields of a record; `content`
-- holds the other fields of the object.
pub mod Laws
pub mod Loops
use vcluster_rancher_operato.Prelude.{
  ℕ, suc, String, ◌==◌, Bool, true, false, not, ◌&&◌, ◌||◌, Option, none, some, List, [], ◌∷◌, ◌++◌,
  if◌then◌else◌,
}
use vcluster_rancher_operato.Maps.{StringMap}
use vcluster_rancher_operato.Errors.{Error}

-- `schema.GroupVersionKind`
pub record Gvk : Type 0 where
  pub group : String
  pub version : String
  pub kind : String

abbrev management : String → Gvk
management kind = record { group = "management.cattle.io"; version = "v3"; kind = kind }

abbrev pub clusters_management_cattle : Gvk
clusters_management_cattle = management "Cluster"

abbrev pub project_management_cattle : Gvk
project_management_cattle = management "Project"

abbrev pub token_management_cattle : Gvk
token_management_cattle = management "Token"

abbrev pub user_management_cattle : Gvk
user_management_cattle = management "User"

abbrev pub project_role_template_binding_management_cattle : Gvk
project_role_template_binding_management_cattle = management "ProjectRoleTemplateBinding"

abbrev pub cluster_role_template_binding_management_cattle : Gvk
cluster_role_template_binding_management_cattle = management "ClusterRoleTemplateBinding"

abbrev pub cluster_registration_token_management_cattle : Gvk
cluster_registration_token_management_cattle = management "ClusterRegistrationToken"

abbrev pub cluster_provisioning_cattle : Gvk
cluster_provisioning_cattle = record {
  group = "provisioning.cattle.io";
  version = "v1";
  kind = "Cluster";
}

abbrev pub fleet_workspace_management_cattle : Gvk
fleet_workspace_management_cattle = management "FleetWorkspace"

-- A value of `map[string]any` as it is decoded from JSON. Numbers are never read. `quantity` is a
-- `resource.Quantity` that the operator puts among the fields.
mutual
  pub data Value : Type 0 where
    null : Value
    bool : Bool → Value
    num : ℕ → Value
    str : String → Value
    quantity : String → Value
    list : Values → Value
    obj : Fields → Value

  pub data Values : Type 0 where
    nil : Values
    cons : Value → Values → Values

  pub data Fields : Type 0 where
    end : Fields
    field : String → Value → Fields → Fields

pub record Unstructured : Type 0 where
  pub gvk : Gvk
  pub name : String
  pub generate_name : String
  pub namespace : String
  pub uid : String
  pub labels : StringMap
  pub finalizers : List String
  -- whether `metadata.deletionTimestamp` is set
  pub deleting : Bool
  pub content : Fields

-- `unstructured.Unstructured{}`
abbrev pub no_object : Unstructured
no_object = record {
  gvk = record { group = ""; version = ""; kind = "" };
  name = "";
  generate_name = "";
  namespace = "";
  uid = "";
  labels = [];
  finalizers = [];
  deleting = false;
  content = end;
}

-- The fields of a new object; `ToAPIVersionAndKind` is the argument.
unfoldable pub to_unstructured : (Gvk → String × String) → Gvk → Fields
to_unstructured to_api_version_and_kind gvk =
    let (api_version, kind) = to_api_version_and_kind gvk in
    field "kind" (str kind) (field "apiVersion" (str api_version) end)

-- `obj[key]`
unfoldable pub find : String → Fields → Option Value
find key end = none
find key (field k v fs) = if k == key then some v else find key fs

-- The type assertions that `GetNested` is used with.
abbrev pub as_string : Value → Option String
as_string (str s) = some s
as_string _ = none

abbrev pub as_bool : Value → Option Bool
as_bool (bool b) = some b
as_bool _ = none

abbrev pub as_list : Value → Option Values
as_list (list vs) = some vs
as_list _ = none

abbrev pub as_object : Value → Option Fields
as_object (obj fs) = some fs
as_object _ = none

module _ {T : Type 0} (as_type : Value → Option T) (zero_value : T) where
  abbrev assert_type : Option Value → Option T
  assert_type none = none
  assert_type (some v) = as_type v

  -- The case `map[string]interface{}` of the type switch.
  abbrev pub next_level : (Fields → T) → Option Value → T
  next_level go (some (obj fs)) = go fs
  next_level go _ = zero_value

  -- The case `T` comes first, whatever keys are left. With no key left the result is the zero
  -- value, which is what the test `len(keys) > 1` gives.
  unfoldable pub get_nested : Fields → List String → T
  unfolding find
  get_nested fs [] = zero_value
  get_nested fs (key ∷ keys) = elim (assert_type (find key fs)) [
    | some v ↦ v
    | none ↦ next_level (λ deeper. get_nested deeper keys) (find key fs)
  ]

-- `GetNested[string]`, the one that most calls use.
unfoldable pub get_nested_string : Fields → List String → String
unfolding get_nested
get_nested_string = get_nested as_string ""

unfoldable pub filter_items : List Unstructured → String → Bool → List String → List Unstructured
unfolding get_nested_string
filter_items [] filter must_equal keys = []
filter_items (item ∷ items) filter must_equal keys =
    let matching = filter_items items filter must_equal keys in
    let value = get_nested_string item.content keys in
    if must_equal && not (value == filter) || not must_equal && value == filter
    then matching
    else item ∷ matching

module _ {S : Type 0} (do_func : ℕ → Unstructured → S → Option Error × S) where
  abbrev add_error : Option Error → List Error → List Error
  add_error none errors = errors
  add_error (some e) errors = e ∷ errors

  -- The loop of `ForEachItem` from an index on: every item is visited, whatever fails.
  for_each_from : ℕ → List Unstructured → S → List Error × S
  for_each_from index [] s = ([], s)
  for_each_from index (item ∷ items) s =
      let (e, s') = do_func index item s in
      let (errors, s'') = for_each_from (suc index) items s' in (add_error e errors, s'')

  unfoldable pub for_each_item : List Unstructured → S → List Error × S
  unfolding for_each_from
  for_each_item items s = for_each_from 0 items s
