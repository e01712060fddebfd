-- ===== src/Client.antt =====
-- pkg/unstructured/client.go: the methods of `Client`. The controller-runtime client that it embeds
-- is the parameter `Api`, on a state `World` that stands for the API server. A read does not change
-- the world; a write gives a new one, whether it succeeds or not.
pub mod Laws
pub mod Stores
pub mod Memory
use vcluster_rancher_operato.Prelude.{
  String, ◌==◌, Bool, Option, none, some, List, [], ◌∷◌, if◌then◌else◌,
}
use vcluster_rancher_operato.Maps.{StringMap}
use vcluster_rancher_operato.Errors.{Error, Result, ok, err, api, not_found}
use vcluster_rancher_operato.Unstructured.{Gvk, Unstructured, Fields}

-- A requirement of a label selector.
pub data Requirement : Type 0 where
  equals : String → String → Requirement
  does_not_exist : String → Requirement

-- `client.ListOptions`; no namespace is the empty text, and no selector the empty list.
pub record ListOptions : Type 0 where
  pub namespace : String
  pub label_selector : List Requirement

pub record Api : Type 1 where
  pub World : Type 0
  -- by kind, name and namespace
  pub get : Gvk → String → String → World → Result Unstructured
  pub list : Gvk → ListOptions → World → Result (List Unstructured)
  -- the object comes back as the server stored it
  pub create : Unstructured → World → Result Unstructured × World
  -- the changed object, and the one from which it was changed
  pub patch : Unstructured → Unstructured → World → Result Unstructured × World
  pub delete : Unstructured → World → Option Error × World
  -- `labels.NewRequirement`: the error by which a requirement is refused
  pub new_requirement : Requirement → Option Error

-- The object that `Create` sends.
unfoldable pub object_to_create :
    Gvk → String → String → Bool → StringMap → List String → Fields → Unstructured
object_to_create gvk name namespace gen_name labels finalizers object = record {
  gvk = gvk;
  name = if gen_name then "" else name;
  generate_name = if gen_name then name else "";
  namespace = namespace;
  uid = "";
  labels = labels;
  finalizers = finalizers;
  deleting = Bool.false;
  content = object;
}

module _ (A : Api) where
  open A use {World}

  -- The embedded client is asked for the object by its key.
  abbrev pub get : Gvk → String → String → World → Result Unstructured
  get gvk name namespace w = A.get gvk name namespace w

  unfoldable pub create :
      Gvk
      → String
      → String
      → Bool
      → StringMap
      → List String
      → Fields
      → World
      → Result Unstructured × World
  unfolding object_to_create
  create gvk name namespace gen_name labels finalizers object w =
      A.create (object_to_create gvk name namespace gen_name labels finalizers object) w

  abbrev pub list_with_options : Gvk → ListOptions → World → Result (List Unstructured)
  list_with_options gvk options w = A.list gvk options w

  unfoldable pub list : Gvk → String → World → Result (List Unstructured)
  list gvk namespace w =
      if namespace == ""
      then list_with_options gvk (record { namespace = ""; label_selector = [] }) w
      else list_with_options gvk (record { namespace = namespace; label_selector = [] }) w

  unfoldable pub list_with_label : Gvk → String → String → World → Result (List Unstructured)
  list_with_label gvk key value w = elim (A.new_requirement (equals key value)) [
    | some e ↦ err e
    | none ↦
        list_with_options gvk (record { namespace = ""; label_selector = equals key value ∷ [] }) w
  ]

  abbrev pub first_item : Result (List Unstructured) → Result Unstructured
  first_item (err e) = err e
  first_item (ok []) = err (api not_found)
  first_item (ok (item ∷ items)) = ok item

  unfoldable pub get_first_with_label : Gvk → String → String → World → Result Unstructured
  unfolding list_with_label
  get_first_with_label gvk key value w = first_item (list_with_label gvk key value w)
