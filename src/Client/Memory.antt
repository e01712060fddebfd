-- ===== src/Client/Memory.antt =====
-- An API server in memory, to run the handlers on. A generated name ends in "-x7k2p" instead of
-- five random characters behind the prefix, and the UID of an object is made of its name.
pub mod Stores
use Prim.Native.String.{◌++◌ as ◌<>◌}
use vcluster_rancher_operato.Prelude.{
  String, ◌==◌, eq_iff, ◌≡◌, Bool, true, false, ◌&&◌, Option, none, some, List, [], ◌∷◌, ◌++◌, any,
  All, if◌then◌else◌, arith, Bool-cases, Option-cases, inl, inr, ap,
}
use vcluster_rancher_operato.Maps.{Map, lookup}
use vcluster_rancher_operato.Errors.{
  Error, Result, ok, err, api, not_found, already_exists, ok-injective,
}
use vcluster_rancher_operato.Unstructured.{Gvk, Unstructured}
use vcluster_rancher_operato.Client.{Api, Requirement, equals, does_not_exist, ListOptions}
use vcluster_rancher_operato.Client.Laws.{Meets, Selects}
use vcluster_rancher_operato.Kube.{Service, Namespace, Job, InstallJob}

pub record Memory : Type 0 where
  pub objects : List Unstructured
  pub services : Map Service
  pub namespaces : Map Namespace
  pub secrets : List String
  pub pods : List String
  pub jobs : List Job
  pub created_jobs : List InstallJob

abbrev same_gvk : Gvk → Gvk → Bool
same_gvk a b = a.group == b.group && a.version == b.version && a.kind == b.kind

abbrev same_key : Gvk → String → String → Unstructured → Bool
same_key gvk name namespace object =
    same_gvk object.gvk gvk && object.name == name && object.namespace == namespace

abbrev has_label : Option String → String → Bool
has_label none value = false
has_label (some v) value = v == value

abbrev lacks_label : Option String → Bool
lacks_label none = true
lacks_label (some v) = false

abbrev meets : Unstructured → Requirement → Bool
meets object (equals key value) = has_label (lookup key object.labels) value
meets object (does_not_exist key) = lacks_label (lookup key object.labels)

abbrev meets_all : Unstructured → List Requirement → Bool
meets_all object [] = true
meets_all object (r ∷ rs) = meets object r && meets_all object rs

abbrev in_namespace : String → Unstructured → Bool
in_namespace namespace object = if namespace == "" then true else object.namespace == namespace

unfoldable pub find_object : Gvk → String → String → List Unstructured → Result Unstructured
find_object gvk name namespace [] = err (api not_found)
find_object gvk name namespace (object ∷ objects) =
    if same_key gvk name namespace object then ok object else find_object gvk name namespace objects

unfoldable pub select_objects : Gvk → ListOptions → List Unstructured → List Unstructured
unfolding lookup
select_objects gvk options [] = []
select_objects gvk options (object ∷ objects) =
    let rest = select_objects gvk options objects in
    if same_gvk object.gvk gvk
      && in_namespace options.namespace object
      && meets_all object options.label_selector
    then object ∷ rest
    else rest

unfoldable pub remove_object : Unstructured → List Unstructured → List Unstructured
remove_object object [] = []
remove_object object (other ∷ objects) =
    let rest = remove_object object objects in
    if same_key object.gvk object.name object.namespace other then rest else other ∷ rest

abbrev is_stored : Unstructured → List Unstructured → Bool
is_stored object = any (same_key object.gvk object.name object.namespace)

-- The object as it is stored when it is created.
abbrev stored : Unstructured → Unstructured
stored object =
    let name =
      if object.generate_name == "" then object.name else object.generate_name <> "x7k2p" in
    record object { name = name; uid = "uid-of-" <> name }

unfoldable pub create_in : Unstructured → Memory → Result Unstructured × Memory
create_in object m =
    let created = stored object in
    if is_stored created m.objects
    then (err (api already_exists), m)
    else (ok created, record m { objects = m.objects ++ created ∷ [] })

unfoldable pub patch_in : Unstructured → Unstructured → Memory → Result Unstructured × Memory
unfolding remove_object
patch_in changed orig m =
    if is_stored orig m.objects
    then (ok changed, record m { objects = remove_object orig m.objects ++ changed ∷ [] })
    else (err (api not_found), m)

unfoldable pub delete_in : Unstructured → Memory → Option Error × Memory
unfolding remove_object
delete_in object m =
    if is_stored object m.objects
    then (none, record m { objects = remove_object object m.objects })
    else (some (api not_found), m)

abbrev pub memory_api : Api
memory_api = record {
  World = Memory;
  get = λ gvk name namespace m. find_object gvk name namespace m.objects;
  list = λ gvk options m. ok (select_objects gvk options m.objects);
  create = create_in;
  patch = patch_in;
  delete = delete_in;
  new_requirement = λ r. none;
}

meets-Meets : (object : Unstructured) (r : Requirement) → meets object r ≡ true → Meets object r
meets-Meets object (equals key value) h = elim (Option-cases (lookup key object.labels)) [
  | inl absent ↦ cc (rw absent at h)
  | inr (v, present) ↦ rw present (ap some ((eq_iff v value).0 (rw present at h)))
]
meets-Meets object (does_not_exist key) h = ground arith

All-Meets :
    (object : Unstructured) (rs : List Requirement)
    → meets_all object rs ≡ true
    → All (λ r. Meets object r) rs
All-Meets object [] h = tt
All-Meets object (r ∷ rs) h =
    (meets-Meets object r (ground arith), All-Meets object rs (ground arith))

gvk_of_same : (a b : Gvk) → same_gvk a b ≡ true → a ≡ b
gvk_of_same a b h =
    ground (arith, eq_iff a.group b.group, eq_iff a.version b.version, eq_iff a.kind b.kind)

all_three : (a b c : Bool) → (a && b && c) ≡ true → (a ≡ true) × (b ≡ true) × (c ≡ true)
all_three a b c h = ground arith

select_objects-Meets :
    (gvk : Gvk) (options : ListOptions) (objects : List Unstructured)
    → All
        (λ item. (item.gvk ≡ gvk) × All (λ r. Meets item r) options.label_selector)
        (select_objects gvk options objects)
unfolding select_objects
select_objects-Meets gvk options [] = tt
select_objects-Meets gvk options (object ∷ objects) =
    let test =
      same_gvk object.gvk gvk
      && in_namespace options.namespace object
      && meets_all object options.label_selector in
    elim (Bool-cases test) [
      | inl chosen ↦
          let (same, _, fits) = all_three _ _ _ chosen in
          rw (chosen, select_objects)
            (
              (gvk_of_same object.gvk gvk same, All-Meets object options.label_selector fits),
              select_objects-Meets gvk options objects,
            )
      | inr other ↦ rw (other, select_objects) (select_objects-Meets gvk options objects)
    ]

-- The server in memory lists by kind and selector.
pub memory_api-Selects : Selects memory_api
memory_api-Selects = record {
  listed =
      λ gvk options m items e. rw (← ok-injective e) (select_objects-Meets gvk options m.objects);
}
