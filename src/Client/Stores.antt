-- ===== src/Client/Stores.antt =====
-- What is relied on of an API server that keeps what is created and lists all that it keeps.
use vcluster_rancher_operato.Prelude.{String, ◌≡◌, ◌⊎◌, List, All, In, some}
use vcluster_rancher_operato.Maps.{lookup}
use vcluster_rancher_operato.Errors.{ok}
use vcluster_rancher_operato.Unstructured.{Gvk, Unstructured}
use vcluster_rancher_operato.Client.{Api, ListOptions}
use vcluster_rancher_operato.Client.Laws.{Meets}

-- The object is of the kind, in the namespace if one is given, and meets the selector.
abbrev pub IsSelected : Gvk → ListOptions → Unstructured → Type 0
IsSelected gvk options object =
    (object.gvk ≡ gvk)
    × ((options.namespace ≡ "") ⊎ (object.namespace ≡ options.namespace))
    × All (λ r. Meets object r) options.label_selector

-- The stored object has the labels of the object that was sent, and perhaps others.
abbrev pub KeepsAll : Unstructured → Unstructured → Type 0
KeepsAll sent stored =
    (k v : String) → lookup k sent.labels ≡ some v → lookup k stored.labels ≡ some v

pub record Stores (A : Api) : Type 1 where
  pub IsStored : Unstructured → A.World → Type 0
  pub listed_all :
      (gvk : Gvk) (options : ListOptions) (w : A.World) (items : List Unstructured)
      (object : Unstructured)
      → A.list gvk options w ≡ ok items
      → IsStored object w
      → IsSelected gvk options object
      → In object items
  pub created :
      (object stored : Unstructured) (w w' : A.World)
      → A.create object w ≡ (ok stored, w')
      → IsStored stored w'
        × (stored.gvk ≡ object.gvk)
        × (stored.namespace ≡ object.namespace)
        × KeepsAll object stored
