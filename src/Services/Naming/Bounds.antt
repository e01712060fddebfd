-- ===== src/Services/Naming/Bounds.antt =====
-- The length of generated names, and when no name is given.
use Prim.Native.String.{len, ◌++◌ as ◌<>◌}
use text.Mathlib.TextPositions.{len-append}
use vcluster_rancher_operato.Prelude.{
  ℕ, ◌+◌, ◌≤◌, ◌<◌, String, eq_iff, ◌≡◌, ◌↔◌, ◌⊎◌, inl, inr, Bool, true, false, ltb, if◌then◌else◌,
  arith, Bool-cases,
}
use vcluster_rancher_operato.Strings.{has_suffix, take_bytes}
use vcluster_rancher_operato.Strings.Laws.{len-take_bytes, has_suffix-append}
use vcluster_rancher_operato.Maps.{get}
use vcluster_rancher_operato.Errors.{ok, is_err}
use vcluster_rancher_operato.Constants.{annotation_custom_name, annotation_custom_name_prefix}
use vcluster_rancher_operato.Kube.{Service}
use vcluster_rancher_operato.Services.Defs.{Handler}
use vcluster_rancher_operato.Services.Naming.{
  prefix_limit, with_hyphen, get_provisioning_cluster_name,
}

abbrev pub default_name : Handler → Service → String
default_name h service = h.cluster_name <> ("-" <> (service.namespace <> ("-" <> service.name)))

-- A name that the API server completes by five characters leaves room for them and ends in a
-- hyphen; any other fits as it is.
abbrev pub Fits : String → Bool → Type 0
Fits name true = (len name + 5 ≤ 63) × (has_suffix name b'-' ≡ true)
Fits name false = len name ≤ 63

with_hyphen-Fits :
    (s : String)
    → len s ≤ prefix_limit s
    → (len (with_hyphen s) + 5 ≤ 63) × (has_suffix (with_hyphen s) b'-' ≡ true)
with_hyphen-Fits s h = elim (Bool-cases (has_suffix s b'-')) [
  | inl ends ↦ rw ends (ground arith, ends)
  | inr open_ended ↦ rw open_ended (rw len-append (ground arith), has_suffix-append s "-")
]

default_prefix-le :
    (name : String) → len (if ltb 57 (len name) then take_bytes 57 name else name) ≤ 57
default_prefix-le name = ground (arith, len-take_bytes 57 name)

-- Every name that is chosen fits into 63 bytes: as it is, or with the five characters that are
-- generated behind a prefix, and a prefix ends in a hyphen.
pub get_provisioning_cluster_name-Fits :
    (h : Handler) (service : Service) (name : String) (generated : Bool)
    → get_provisioning_cluster_name h service ≡ ok (name, generated)
    → Fits name generated
unfolding get_provisioning_cluster_name
get_provisioning_cluster_name-Fits h service name generated e = ground (
  arith,
  with_hyphen-Fits (get service.annotations annotation_custom_name_prefix),
  with_hyphen-Fits (take_bytes 57 (default_name h service)),
  len-take_bytes 57 (default_name h service),
)

len_empty : (s : String) → s ≡ "" → len s ≡ 0
len_empty s e = rw e

-- The bytes of a name that the API server makes of a prefix: the prefix, a hyphen where it does not
-- end in one, and five characters.
abbrev pub generated_length : String → ℕ
generated_length prefix = len prefix + (if has_suffix prefix b'-' then 0 else 1) + 5

-- It fails exactly when a custom name has more than 63 bytes, or there is no custom name and the
-- custom prefix, with its final hyphen and the five characters that are generated behind it, would
-- have more than 63 bytes.
pub get_provisioning_cluster_name-fails_iff :
    (h : Handler) (service : Service)
    → (is_err (get_provisioning_cluster_name h service) ≡ true) ↔ (
        (63 < len (get service.annotations annotation_custom_name))
        ⊎ ((get service.annotations annotation_custom_name ≡ "")
            × (63 < generated_length (get service.annotations annotation_custom_name_prefix))))
unfolding get_provisioning_cluster_name
get_provisioning_cluster_name-fails_iff h service =
    let custom_name = get service.annotations annotation_custom_name in
    let custom_prefix = get service.annotations annotation_custom_name_prefix in
    ground (
      arith,
      eq_iff custom_name "",
      len_empty custom_name,
      eq_iff custom_prefix "",
      len_empty custom_prefix,
    )
