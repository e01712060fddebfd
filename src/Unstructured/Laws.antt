-- ===== src/Unstructured/Laws.antt =====
-- Reading nested fields, and filtering by them.
use vcluster_rancher_operato.Prelude.{
  String, ◌==◌, ◌≡◌, refl, Bool, not, ◌&&◌, Option, none, some, List, [], ◌∷◌, any, arith,
  if◌then◌else◌,
}
use vcluster_rancher_operato.Unstructured.{
  Value, obj, Fields, as_object, end, find, get_nested, get_nested_string, filter_items,
  Unstructured, next_level,
}

-- The value at the end of a path of keys, where every key before the last leads to an object.
abbrev pub walk : Fields → List String → Option Value
walk fs [] = none
walk fs (key ∷ []) = find key fs
walk fs (key ∷ next ∷ keys) = elim (find key fs) [
  | some (obj deeper) ↦ walk deeper (next ∷ keys)
  | _ ↦ none
]

abbrev pub or_else {ℓ} : {A : Type ℓ} → Option A → A → A
or_else none d = d
or_else (some a) d = a

get_nested_last :
    {T : Type 0} (as_type : Value → Option T) (zero_value : T) (fs : Fields) (key : String)
    (v : Value)
    → find key fs ≡ some v
    → get_nested as_type zero_value fs (key ∷ []) ≡ or_else (as_type v) zero_value
unfolding get_nested
get_nested_last as_type zero_value fs key v e = ground arith

get_nested_step :
    {T : Type 0} (as_type : Value → Option T) (zero_value : T) (fs : Fields) (key next : String)
    (keys : List String) (v : Value) (found : Option Value)
    → ((deeper : Fields) → as_type (obj deeper) ≡ none)
    → find key fs ≡ found
    → ((deeper : Fields)
        → walk deeper (next ∷ keys) ≡ some v
        → get_nested as_type zero_value deeper (next ∷ keys) ≡ or_else (as_type v) zero_value)
    → walk fs (key ∷ next ∷ keys) ≡ some v
    → get_nested as_type zero_value fs (key ∷ next ∷ keys) ≡ or_else (as_type v) zero_value
unfolding get_nested
get_nested_step as_type zero_value fs key next keys v (some (obj deeper)) no_objects there ih e =
    rw (there, get_nested)
      (rw (no_objects deeper) (rw (there, next_level) (ih deeper (rw (there, walk) at e))))
get_nested_step as_type zero_value fs key next keys v found no_objects there ih e = ground arith

-- Where a path of keys leads to a value, `GetNested` at a type other than the objects gives that
-- value if it is of the type, and the zero value if not.
pub get_nested-walk :
    {T : Type 0} (as_type : Value → Option T) (zero_value : T) (fs : Fields) (keys : List String)
    (v : Value)
    → ((deeper : Fields) → as_type (obj deeper) ≡ none)
    → walk fs keys ≡ some v
    → get_nested as_type zero_value fs keys ≡ or_else (as_type v) zero_value
unfolding get_nested
get_nested-walk as_type zero_value fs (key ∷ []) v no_objects e =
    get_nested_last as_type zero_value fs key v e
get_nested-walk as_type zero_value fs (key ∷ next ∷ keys) v no_objects e =
    get_nested_step as_type zero_value fs key next keys v (find key fs) no_objects refl
      (λ deeper rest. get_nested-walk as_type zero_value deeper (next ∷ keys) v no_objects rest) e
get_nested-walk as_type zero_value fs [] v no_objects e = cc

-- At the type of objects it does not descend: where the value of the first key is an object, that
-- object is the result, whatever keys follow.
pub get_nested_object :
    (fs inner : Fields) (key : String) (keys : List String)
    → find key fs ≡ some (obj inner)
    → get_nested as_object end fs (key ∷ keys) ≡ inner
unfolding get_nested
get_nested_object fs inner key keys e = rw (e, get_nested)

-- Of the items with some property, the filter keeps those whose field has the value, or has not.
pub any-filter_items :
    (p : Unstructured → Bool) (items : List Unstructured) (filter : String) (must_equal : Bool)
    (keys : List String)
    → any p (filter_items items filter must_equal keys)
      ≡ any
          (λ item.
            p item
            && (if must_equal
                then get_nested_string item.content keys == filter
                else not (get_nested_string item.content keys == filter)))
          items
unfolding filter_items
any-filter_items p [] filter must_equal keys = refl
any-filter_items p (item ∷ items) filter must_equal keys =
    ground (arith, any-filter_items p items filter must_equal keys)
