-- ===== src/Clusters/Conditions.antt =====
-- `isClusterReady` in internal/controller/clusters/cluster_controller.go.
use vcluster_rancher_operato.Prelude.{
  String, ◌==◌, eq_iff, ◌≡◌, refl, sym, ◌∙◌, ◌⊎◌, inl, inr, ◌↔◌, Bool, true, false, ◌&&◌, Option,
  some, [], ◌∷◌, if◌then◌else◌, arith, Bool-cases,
}
use vcluster_rancher_operato.Unstructured.{
  Unstructured, Value, str, list, obj, Values, nil, cons, Fields, find, as_list, get_nested,
  next_level,
}

-- `condition[key] == text`: the entry has to be a text.
abbrev is_text : String → Option Value → Bool
is_text text (some (str s)) = s == text
is_text text _ = false

-- An entry that is no object is passed over.
abbrev is_ready_condition : Value → Bool
is_ready_condition (obj condition) =
    is_text "Ready" (find "type" condition) && is_text "True" (find "status" condition)
is_ready_condition _ = false

unfoldable pub has_ready_condition : Values → Bool
unfolding find
has_ready_condition nil = false
has_ready_condition (cons c conditions) =
    if is_ready_condition c then true else has_ready_condition conditions

unfoldable pub is_cluster_ready : Unstructured → Bool
unfolding has_ready_condition get_nested
is_cluster_ready cluster =
    has_ready_condition (get_nested as_list nil cluster.content ("status" ∷ "conditions" ∷ []))

-- The value is one of the list.
abbrev pub Among : Value → Values → Type 0
Among v nil = true ≡ false
Among v (cons x xs) = (v ≡ x) ⊎ Among v xs

abbrev pub IsReadyCondition : Fields → Type 0
IsReadyCondition condition =
    (find "type" condition ≡ some (str "Ready")) × (find "status" condition ≡ some (str "True"))

text_of_test : (text : String) (o : Option Value) → is_text text o ≡ true → o ≡ some (str text)
text_of_test text (some (str s)) h = ground (arith, eq_iff s text)
text_of_test text o h = ground arith

ready_of_test :
    (v : Value)
    → is_ready_condition v ≡ true
    → (condition : Fields) × (v ≡ obj condition) × IsReadyCondition condition
ready_of_test (obj condition) h = (
  condition,
  refl,
  (
    text_of_test "Ready" (find "type" condition) (ground arith),
    text_of_test "True" (find "status" condition) (ground arith),
  ),
)
ready_of_test v h = cc

find_ready :
    (conditions : Values)
    → has_ready_condition conditions ≡ true
    → (condition : Fields) × Among (obj condition) conditions × IsReadyCondition condition
unfolding has_ready_condition
find_ready nil h = cc
find_ready (cons c conditions) h = elim (Bool-cases (is_ready_condition c)) [
  | inl ready ↦ let (condition, e, h') = ready_of_test c ready in (condition, inl (sym e), h')
  | inr other ↦
      let (condition, there, h') = find_ready conditions (rw (other, has_ready_condition) at h) in
      (condition, inr there, h')
]

test_of_ready :
    (condition : Fields) → IsReadyCondition condition → is_ready_condition (obj condition) ≡ true
test_of_ready condition h = rw (h.0, h.1) refl

ready_of_found :
    (conditions : Values) (condition : Fields)
    → Among (obj condition) conditions
    → IsReadyCondition condition
    → has_ready_condition conditions ≡ true
unfolding has_ready_condition
ready_of_found nil condition there h = cc
ready_of_found (cons c conditions) condition (inl e) h =
    rw (← e) (rw (test_of_ready condition h) refl)
ready_of_found (cons c conditions) condition (inr there) h =
    ground (arith, ready_of_found conditions condition there h)

-- The conditions under a status, none where there is no list of them.
abbrev listed : Option Value → Values
listed (some (list conditions)) = conditions
listed _ = nil

conditions_of_status :
    (o : Option Value) (status : Fields)
    → find "conditions" status ≡ o
    → get_nested as_list nil status ("conditions" ∷ []) ≡ listed o
unfolding get_nested
conditions_of_status o status e = ground arith

nested_conditions :
    (fs status : Fields)
    → find "status" fs ≡ some (obj status)
    → get_nested as_list nil fs ("status" ∷ "conditions" ∷ [])
      ≡ get_nested as_list nil status ("conditions" ∷ [])
unfolding get_nested
nested_conditions fs status e = rw (e, get_nested) (rw (e, next_level) refl)

in_listed :
    (o : Option Value) (v : Value)
    → Among v (listed o)
    → (conditions : Values) × (o ≡ some (list conditions)) × Among v conditions
in_listed (some (list conditions)) v h = (conditions, refl, h)
in_listed o v h = cc

-- A cluster with a status is ready exactly when its conditions are a list and one of them is an
-- object with the type "Ready" and the status "True".
pub is_cluster_ready_iff :
    (cluster : Unstructured) (status : Fields)
    → find "status" cluster.content ≡ some (obj status)
    → (is_cluster_ready cluster ≡ true) ↔ (
        (conditions : Values) × (condition : Fields) × (find "conditions" status
          ≡ some (list conditions))
        × Among (obj condition) conditions
        × IsReadyCondition condition)
unfolding is_cluster_ready
is_cluster_ready_iff cluster status e =
    let found = find "conditions" status in
    let here =
      nested_conditions cluster.content status e ∙ conditions_of_status found status refl in
    (
      λ h.
          let (condition, there, ready) = find_ready (listed found) (rw here at h) in
          let (conditions, e', there') = in_listed found (obj condition) there in
          (conditions, condition, e', there', ready),
      λ (conditions, condition, e', there, ready).
          rw here (rw e' (ready_of_found conditions condition there ready)),
    )
