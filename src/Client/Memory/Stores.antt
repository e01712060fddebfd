-- ===== src/Client/Memory/Stores.antt =====
-- The server in memory keeps what is created and lists all that it keeps.
use vcluster_rancher_operato.Prelude.{
  eq_iff, eq_refl, ◌≡◌, refl, ap, inl, inr, true, ◌&&◌, List, [], ◌∷◌, All, In, In-append_last,
  arith, Bool-cases,
}
use vcluster_rancher_operato.Errors.{ok, ok-injective}
use vcluster_rancher_operato.Unstructured.{Gvk, Unstructured}
use vcluster_rancher_operato.Client.{Requirement, equals, does_not_exist, ListOptions}
use vcluster_rancher_operato.Client.Laws.{Meets}
use vcluster_rancher_operato.Client.Stores.{IsSelected, KeepsAll, Stores}
use vcluster_rancher_operato.Client.Memory.{
  Memory, memory_api, same_gvk, in_namespace, meets, meets_all, is_stored, stored, select_objects,
  create_in,
}

meets_of_Meets : (object : Unstructured) (r : Requirement) → Meets object r → meets object r ≡ true
meets_of_Meets object (equals key value) h = rw h (eq_refl value)
meets_of_Meets object (does_not_exist key) h = rw h refl

meets_all_of_All :
    (object : Unstructured) (rs : List Requirement)
    → All (λ r. Meets object r) rs
    → meets_all object rs ≡ true
meets_all_of_All object [] h = refl
meets_all_of_All object (r ∷ rs) h =
    ground (arith, meets_of_Meets object r h.0, meets_all_of_All object rs h.1)

same_gvk_refl : (gvk : Gvk) → same_gvk gvk gvk ≡ true
same_gvk_refl gvk = ground (arith, eq_refl gvk.group, eq_refl gvk.version, eq_refl gvk.kind)

selected_test :
    (gvk : Gvk) (options : ListOptions) (object : Unstructured)
    → IsSelected gvk options object
    → (same_gvk object.gvk gvk
        && in_namespace options.namespace object
        && meets_all object options.label_selector)
      ≡ true
selected_test gvk options object (kind, place, fits) = ground (
  arith,
  ap (λ g. same_gvk g gvk) kind,
  same_gvk_refl gvk,
  place,
  eq_iff options.namespace "",
  eq_iff object.namespace options.namespace,
  meets_all_of_All object options.label_selector fits,
)

In-select_objects :
    (gvk : Gvk) (options : ListOptions) (objects : List Unstructured) (object : Unstructured)
    → In object objects
    → IsSelected gvk options object
    → In object (select_objects gvk options objects)
unfolding select_objects
In-select_objects gvk options [] object there h = elim there [ ]
In-select_objects gvk options (x ∷ objects) object (inl e) h =
    rw (← e) (rw (selected_test gvk options object h, select_objects) (inl refl))
In-select_objects gvk options (x ∷ objects) object (inr there) h =
    let found = In-select_objects gvk options objects object there h in
    elim (Bool-cases (
      same_gvk x.gvk gvk
      && in_namespace options.namespace x
      && meets_all x options.label_selector)) [
        | inl chosen ↦ rw (chosen, select_objects) (inr found)
        | inr other ↦ rw (other, select_objects) found
      ]

abbrev IsKept : Unstructured → Memory → Type 0
IsKept object m = In object m.objects

created-IsKept :
    (object c : Unstructured) (m m' : Memory)
    → create_in object m ≡ (ok c, m')
    → IsKept c m' × (c.gvk ≡ object.gvk) × (c.namespace ≡ object.namespace) × KeepsAll object c
unfolding create_in
created-IsKept object c m m' e = elim (Bool-cases (is_stored (stored object) m.objects)) [
  | inl taken ↦ cc (rw (taken, create_in) at e)
  | inr free ↦
      let e' = rw (free, create_in) at e in
      let made : stored object ≡ c = ok-injective (ap (λ r. r.0) e') in
      let after = ap (λ r. r.1) e' in
      rw (← made) (rw (← after) (In-append_last (stored object) m.objects, refl, refl, λ k v e. e))
]

pub memory_api-Stores : Stores memory_api
memory_api-Stores = record {
  IsStored = IsKept;
  listed_all = λ gvk options m items object e kept h.
      rw (← ok-injective e) (In-select_objects gvk options m.objects object kept h);
  created = created-IsKept;
}

pub memory_api-IsStored :
    (object : Unstructured) (m : Memory) → In object m.objects → memory_api-Stores.IsStored object m
unfolding memory_api-Stores
memory_api-IsStored object m there = there
