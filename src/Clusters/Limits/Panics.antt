-- ===== src/Clusters/Limits/Panics.antt =====
-- When the assignments to the maps of the status panic.
use Prim.Native.String.{◌++◌ as ◌<>◌}
use vcluster_rancher_operato.Prelude.{
  String, ◌≡◌, refl, sym, ap, ◌∙◌, Bool, true, false, ◌&&◌, ◌||◌, Option, none, some,
}
use vcluster_rancher_operato.Maps.{StringMap, lookup}
use vcluster_rancher_operato.Unstructured.{Fields}
use vcluster_rancher_operato.Clusters.Limits.{
  Limits, set_limit, set_request, set_pods, and_then, limit_resource, limit_all,
}

abbrev pub is_nil {ℓ} : {A : Type ℓ} → Option A → Bool
is_nil none = true
is_nil (some a) = false

abbrev pub is_set {ℓ} : {A : Type ℓ} → Option A → Bool
is_set none = false
is_set (some a) = true

-- The same maps are nil.
abbrev Alike : Limits → Limits → Type 0
Alike l m =
    (is_nil l.capacity ≡ is_nil m.capacity)
    × (is_nil l.allocatable ≡ is_nil m.allocatable)
    × (is_nil l.requested ≡ is_nil m.requested)

-- An operation panics if the test says so, and else leaves the same maps nil.
abbrev Panics : Bool → Limits → Option Limits → Type 0
Panics b l none = b ≡ true
Panics b l (some m) = (b ≡ false) × Alike l m

abbrev limits : Option Fields → Option Fields → Option Fields → Limits
limits c a r = record { capacity = c; allocatable = a; requested = r }

some_limit-Panics :
    (limit resource : String) (c a r : Option Fields)
    → Panics (is_nil c || is_nil a) (limits c a r) (set_limit (some limit) resource (limits c a r))
unfolding set_limit
some_limit-Panics limit resource none a r = refl
some_limit-Panics limit resource (some c) none r = refl
some_limit-Panics limit resource (some c) (some a) r = (refl, (refl, refl, refl))

set_limit-Panics :
    (o : Option String) (resource : String) (l : Limits)
    → Panics (is_set o && (is_nil l.capacity || is_nil l.allocatable)) l (set_limit o resource l)
unfolding set_limit
set_limit-Panics none resource l = (refl, (refl, refl, refl))
set_limit-Panics (some limit) resource l =
    some_limit-Panics limit resource l.capacity l.allocatable l.requested

some_request-Panics :
    (request resource : String) (c a r : Option Fields)
    → Panics (is_nil r) (limits c a r) (set_request (some request) resource (limits c a r))
unfolding set_request
some_request-Panics request resource c a none = refl
some_request-Panics request resource c a (some r) = (refl, (refl, refl, refl))

set_request-Panics :
    (o : Option String) (resource : String) (l : Limits)
    → Panics (is_set o && is_nil l.requested) l (set_request o resource l)
unfolding set_request
set_request-Panics none resource l = (refl, (refl, refl, refl))
set_request-Panics (some request) resource l =
    some_request-Panics request resource l.capacity l.allocatable l.requested

some_pods-Panics :
    (pods : String) (c a r : Option Fields)
    → Panics (is_nil a) (limits c a r) (set_pods (some pods) (limits c a r))
unfolding set_pods
some_pods-Panics pods c none r = refl
some_pods-Panics pods c (some a) r = (refl, (refl, refl, refl))

set_pods-Panics :
    (o : Option String) (l : Limits) → Panics (is_set o && is_nil l.allocatable) l (set_pods o l)
unfolding set_pods
set_pods-Panics none l = (refl, (refl, refl, refl))
set_pods-Panics (some pods) l = some_pods-Panics pods l.capacity l.allocatable l.requested

-- The test in front of the same maps.
Alike-Panics :
    (b c : Bool) (l m : Limits) (o : Option Limits)
    → Alike l m
    → b ≡ c
    → Panics b m o
    → Panics c l o
Alike-Panics b c l m none alike same h = sym same ∙ h
Alike-Panics b c l m (some n) alike same h =
    (sym same ∙ h.0, (alike.0 ∙ h.1.0, alike.1 ∙ h.1.1, alike.2 ∙ h.1.2))

and_then-Panics :
    (b c : Bool) (l : Limits) (o : Option Limits) (f : Limits → Option Limits)
    → Panics b l o
    → ((m : Limits) → Alike l m → Panics c l (f m))
    → Panics (b || c) l (and_then o f)
and_then-Panics b c l none f h k = rw h
and_then-Panics b c l (some m) f h k = rw h.0 (k m h.1)

-- The test of one round of the loop.
abbrev pub resource_panics : StringMap → String → Limits → Bool
resource_panics hard resource l =
    is_set (lookup ("limits." <> resource) hard) && (is_nil l.capacity || is_nil l.allocatable)
    || is_set (lookup ("requests." <> resource) hard) && is_nil l.requested

limit_resource-Panics :
    (hard : StringMap) (resource : String) (l : Limits)
    → Panics (resource_panics hard resource l) l (limit_resource hard resource l)
unfolding limit_resource
limit_resource-Panics hard resource l =
    let request = lookup ("requests." <> resource) hard in
    and_then-Panics _ _ l _ (set_request request resource)
      (set_limit-Panics (lookup ("limits." <> resource) hard) resource l)
      (λ m alike.
        Alike-Panics (is_set request && is_nil m.requested) _ l m _ alike
          (ap (λ b. is_set request && b) (sym alike.2)) (set_request-Panics request resource m))

is_nil-Panics : (b : Bool) (l : Limits) (o : Option Limits) → Panics b l o → is_nil o ≡ b
is_nil-Panics b l none h = sym h
is_nil-Panics b l (some m) h = sym h.0

resource_panics-Alike :
    (hard : StringMap) (resource : String) (l m : Limits)
    → Alike l m
    → resource_panics hard resource m ≡ resource_panics hard resource l
resource_panics-Alike hard resource l m alike = rw (alike.0, alike.1, alike.2)

-- Writing the limits of a quota panics exactly when it has a limit of the CPU or the memory and the
-- status has no map "capacity" or no map "allocatable", or it has a request of one of them and the
-- status has no map "requested", or it counts pods and the status has no map "allocatable".
pub is_nil-limit_all :
    (hard : StringMap) (l : Limits)
    → is_nil (limit_all hard l) ≡ (
        resource_panics hard "cpu" l
        || (resource_panics hard "memory" l
            || is_set (lookup "count/pods" hard) && is_nil l.allocatable))
unfolding limit_all
is_nil-limit_all hard l =
    let pods = lookup "count/pods" hard in
    is_nil-Panics _ l (limit_all hard l) (
      and_then-Panics _ _ l _ _ (limit_resource-Panics hard "cpu" l) (λ m like_m.
        and_then-Panics _ _ l _ (set_pods pods)
          (Alike-Panics _ _ l m _ like_m (resource_panics-Alike hard "memory" l m like_m)
            (limit_resource-Panics hard "memory" m))
          (λ n like_n.
            Alike-Panics (is_set pods && is_nil n.allocatable) _ l n _ like_n
              (ap (λ b. is_set pods && b) (sym like_n.1)) (set_pods-Panics pods n))))
