-- ===== src/Clusters/Limits/Values.antt =====
-- What the maps of the status hold after the assignments.
use Prim.Native.String.{◌++◌ as ◌<>◌}
use vcluster_rancher_operato.Prelude.{
  String, ◌==◌, eq_iff, ◌≡◌, refl, ap, ◌∙◌, Option, none, some, if◌then◌else◌, Option-cases, inl,
  inr, arith,
}
use vcluster_rancher_operato.Maps.{StringMap, lookup}
use vcluster_rancher_operato.Unstructured.{Value, str, quantity, Fields, end, field, find}
use vcluster_rancher_operato.Clusters.Limits.{
  put, Limits, set_limit, set_request, set_pods, and_then, limit_resource, limit_all,
}

-- The entry of a map, which may be nil.
abbrev pub entry : String → Option Fields → Option Value
entry key none = none
entry key (some fs) = find key fs

some-injective : {A : Type 0} {a b : A} → some a ≡ some b → a ≡ b
some-injective e = cc

-- An entry after an assignment to a key, if there is a value to assign.
abbrev pub assigned : String → Option Value → String → Option Value → Option Value
assigned at none key old = old
assigned at (some v) key old = if at == key then some v else old

abbrev pub as_text : Option String → Option Value
as_text none = none
as_text (some s) = some (str s)

abbrev pub as_quantity : Option String → Option Value
as_quantity none = none
as_quantity (some s) = some (quantity s)

find-put :
    (at key : String) (v : Value) (fs : Fields)
    → find key (put at v fs) ≡ (if at == key then some v else find key fs)
unfolding put find
find-put at key v end = refl
find-put at key v (field first old rest) =
    ground (arith, find-put at key v rest, eq_iff first at, eq_iff first key, eq_iff at key)

-- What a step leaves in the three maps, at one key.
abbrev Leaves : String → Option Value → Option Value → Option Value → Limits → Type 0
Leaves key capacity allocatable requested m =
    (entry key m.capacity ≡ capacity)
    × (entry key m.allocatable ≡ allocatable)
    × (entry key m.requested ≡ requested)

abbrev limits : Option Fields → Option Fields → Option Fields → Limits
limits c a r = record { capacity = c; allocatable = a; requested = r }

some_limit-Leaves :
    (limit resource key : String) (c a r : Option Fields) (m : Limits)
    → set_limit (some limit) resource (limits c a r) ≡ some m
    → Leaves key
        (assigned resource (some (str limit)) key (entry key c))
        (assigned resource (some (str limit)) key (entry key a))
        (entry key r)
        m
unfolding set_limit
some_limit-Leaves limit resource key none a r m e = cc
some_limit-Leaves limit resource key (some c) none r m e = cc
some_limit-Leaves limit resource key (some c) (some a) r m e =
    rw (← (some-injective e))
      (find-put resource key (str limit) c, find-put resource key (str limit) a, refl)

set_limit-Leaves :
    (o : Option String) (resource key : String) (l m : Limits)
    → set_limit o resource l ≡ some m
    → Leaves key
        (assigned resource (as_text o) key (entry key l.capacity))
        (assigned resource (as_text o) key (entry key l.allocatable))
        (entry key l.requested)
        m
unfolding set_limit
set_limit-Leaves none resource key l m e = rw (← (some-injective e)) (refl, refl, refl)
set_limit-Leaves (some limit) resource key l m e =
    some_limit-Leaves limit resource key l.capacity l.allocatable l.requested m e

set_request-Leaves :
    (o : Option String) (resource key : String) (l m : Limits)
    → set_request o resource l ≡ some m
    → Leaves key
        (entry key l.capacity)
        (entry key l.allocatable)
        (assigned resource (as_text o) key (entry key l.requested))
        m
unfolding set_request
set_request-Leaves none resource key l m e = rw (← (some-injective e)) (refl, refl, refl)
set_request-Leaves (some request) resource key l m e = elim (Option-cases l.requested) [
  | inl absent ↦ cc (rw (absent, set_request) at e)
  | inr (requested, there) ↦
      let e' = some-injective (rw (there, set_request) at e) in
      rw (there, ← e') (refl, refl, find-put resource key (str request) requested)
]

set_pods-Leaves :
    (o : Option String) (key : String) (l m : Limits)
    → set_pods o l ≡ some m
    → Leaves key
        (entry key l.capacity)
        (assigned "pods" (as_quantity o) key (entry key l.allocatable))
        (entry key l.requested)
        m
unfolding set_pods
set_pods-Leaves none key l m e = rw (← (some-injective e)) (refl, refl, refl)
set_pods-Leaves (some pods) key l m e = elim (Option-cases l.allocatable) [
  | inl absent ↦ cc (rw (absent, set_pods) at e)
  | inr (allocatable, there) ↦
      let e' = some-injective (rw (there, set_pods) at e) in
      rw (there, ← e') (refl, find-put "pods" key (quantity pods) allocatable, refl)
]

and_then-some :
    (o : Option Limits) (f : Limits → Option Limits) (m : Limits)
    → and_then o f ≡ some m
    → (l : Limits) × (o ≡ some l) × (f l ≡ some m)
and_then-some none f m e = cc
and_then-some (some l) f m e = (l, refl, e)

-- The entries after one round of the loop, and after all.
abbrev pub limited : StringMap → String → Option Value → Option Value
limited hard key old =
    assigned "memory" (as_text (lookup "limits.memory" hard)) key
      (assigned "cpu" (as_text (lookup "limits.cpu" hard)) key old)

abbrev pub requested_of : StringMap → String → Option Value → Option Value
requested_of hard key old =
    assigned "memory" (as_text (lookup "requests.memory" hard)) key
      (assigned "cpu" (as_text (lookup "requests.cpu" hard)) key old)

limit_resource-Leaves :
    (hard : StringMap) (resource key : String) (l m : Limits)
    → limit_resource hard resource l ≡ some m
    → Leaves key
        (assigned resource
          (as_text (lookup ("limits." <> resource) hard))
          key
          (entry key l.capacity))
        (assigned resource
          (as_text (lookup ("limits." <> resource) hard))
          key
          (entry key l.allocatable))
        (assigned resource
          (as_text (lookup ("requests." <> resource) hard))
          key
          (entry key l.requested))
        m
unfolding limit_resource
limit_resource-Leaves hard resource key l m e =
    let limit = lookup ("limits." <> resource) hard in
    let request = lookup ("requests." <> resource) hard in
    let (k, first, second) =
      and_then-some (set_limit limit resource l) (set_request request resource) m e in
    let (c, a, r) = set_limit-Leaves limit resource key l k first in
    let (c', a', r') = set_request-Leaves request resource key k m second in
    (c' ∙ c, a' ∙ a, r' ∙ ap (assigned resource (as_text request) key) r)

-- Where the limits of a quota are written without a panic, the capacity and the allocatable
-- resources show at "cpu" and "memory" the limits that the quota has, the requested ones its
-- requests, and the allocatable ones at "pods" its count of pods; every other entry, and those for
-- which the quota has nothing, is as it was.
pub limit_all-Leaves :
    (hard : StringMap) (l m : Limits) (key : String)
    → limit_all hard l ≡ some m
    → (entry key m.capacity ≡ limited hard key (entry key l.capacity))
      × (entry key m.allocatable
          ≡ assigned "pods"
              (as_quantity (lookup "count/pods" hard))
              key
              (limited hard key (entry key l.allocatable)))
      × (entry key m.requested ≡ requested_of hard key (entry key l.requested))
unfolding limit_all
limit_all-Leaves hard l m key e =
    let pods = lookup "count/pods" hard in
    let after_cpu : Limits → Option Limits =
      λ k. and_then (limit_resource hard "memory" k) (set_pods pods) in
    let (k, first, rest) = and_then-some (limit_resource hard "cpu" l) after_cpu m e in
    let (n, second, third) =
      and_then-some (limit_resource hard "memory" k) (set_pods pods) m rest in
    let (c, a, r) = limit_resource-Leaves hard "cpu" key l k first in
    let (c', a', r') = limit_resource-Leaves hard "memory" key k n second in
    let (c'', a'', r'') = set_pods-Leaves pods key n m third in
    let limits_memory = as_text (lookup "limits.memory" hard) in
    let requests_memory = as_text (lookup "requests.memory" hard) in
    (
      c'' ∙ c' ∙ ap (assigned "memory" limits_memory key) c,
      a''
          ∙ ap (assigned "pods" (as_quantity pods) key)
              (a' ∙ ap (assigned "memory" limits_memory key) a),
      r'' ∙ r' ∙ ap (assigned "memory" requests_memory key) r,
    )
