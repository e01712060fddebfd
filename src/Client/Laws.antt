-- ===== src/Client/Laws.antt =====
-- What the operator relies on of the API server, and what follows for its client.
use vcluster_rancher_operato.Prelude.{String, ◌≡◌, none, some, List, [], ◌∷◌, All, arith}
use vcluster_rancher_operato.Maps.{lookup, get}
use vcluster_rancher_operato.Errors.{ok}
use vcluster_rancher_operato.Unstructured.{Gvk, Unstructured}
use vcluster_rancher_operato.Client.{
  Api, Requirement, equals, does_not_exist, ListOptions, list_with_label, get_first_with_label,
}

abbrev pub Meets : Unstructured → Requirement → Type 0
Meets item (equals key value) = lookup key item.labels ≡ some value
Meets item (does_not_exist key) = lookup key item.labels ≡ none

-- A listed object is of the kind asked for, and meets the selector.
pub record Selects (A : Api) : Type 0 where
  pub listed :
      (gvk : Gvk) (options : ListOptions) (w : A.World) (items : List Unstructured)
      → A.list gvk options w ≡ ok items
      → All (λ item. (item.gvk ≡ gvk) × All (λ r. Meets item r) options.label_selector) items

abbrev pub labelled : String → String → ListOptions
labelled key value = record { namespace = ""; label_selector = equals key value ∷ [] }

pub first_of_list :
    (A : Api) (gvk : Gvk) (key value : String) (w : A.World) (item : Unstructured)
    → get_first_with_label A gvk key value w ≡ ok item
    → (items : List Unstructured) × (A.list gvk (labelled key value) w ≡ ok (item ∷ items))
unfolding get_first_with_label
first_of_list A gvk key value w item e = ground arith

pub list_of_label :
    (A : Api) (gvk : Gvk) (key value : String) (w : A.World) (items : List Unstructured)
    → list_with_label A gvk key value w ≡ ok items
    → A.list gvk (labelled key value) w ≡ ok items
unfolding list_with_label
list_of_label A gvk key value w items e = ground arith

module _ (A : Api) (selects : Selects A) where
  -- The object that is found by a label is of the kind asked for and carries the label.
  pub get_first_with_label-Meets :
      (gvk : Gvk) (key value : String) (w : A.World) (item : Unstructured)
      → get_first_with_label A gvk key value w ≡ ok item
      → (item.gvk ≡ gvk) × (get item.labels key ≡ value)
  unfolding get_first_with_label get
  get_first_with_label-Meets gvk key value w item e =
      let (items, listed) = first_of_list A gvk key value w item e in
      let facts = selects.listed gvk (labelled key value) w (item ∷ items) listed in
      (facts.0.0, rw facts.0.1.0)
