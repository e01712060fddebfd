-- ===== src/Services/Naming.antt =====
-- The name of a provisioning cluster, `getProvisioningClusterName` in pkg/services/handler.go, and
-- its Fleet workspace, `getTargetClusterNamespace`.
pub mod Bounds
use Prim.Native.String.{len, ◌++◌ as ◌<>◌}
use vcluster_rancher_operato.Prelude.{
  ℕ, String, ◌==◌, Bool, true, false, not, ◌&&◌, ltb, leb, if◌then◌else◌,
}
use vcluster_rancher_operato.Strings.{has_suffix, take_bytes}
use vcluster_rancher_operato.Maps.{get}
use vcluster_rancher_operato.Errors.{Result, ok, err, plain}
use vcluster_rancher_operato.Constants.{annotation_custom_name, annotation_custom_name_prefix}
use vcluster_rancher_operato.Kube.{Service}
use vcluster_rancher_operato.Services.Defs.{Handler}

-- The longest prefix that is allowed.
abbrev pub prefix_limit : String → ℕ
prefix_limit prefix = if has_suffix prefix b'-' then 58 else 57

abbrev with_hyphen : String → String
with_hyphen s = if has_suffix s b'-' then s else s <> "-"

-- A missing annotation reads as the empty text, so `ok && v != ""` is `v != ""`. Messages keep
-- their format and leave out the values.
unfoldable pub get_provisioning_cluster_name : Handler → Service → Result (String × Bool)
unfolding get has_suffix take_bytes
get_provisioning_cluster_name h service =
    let custom_name = get service.annotations annotation_custom_name in
    let custom_prefix = get service.annotations annotation_custom_name_prefix in
    let name = h.cluster_name <> ("-" <> (service.namespace <> ("-" <> service.name))) in
    if not (custom_name == "")
    then (if ltb 63 (len custom_name)
        then err (plain "custom name %q exceeds 63 character limit")
        else ok (custom_name, false))
    else if not (custom_prefix == "")
    then (if ltb (prefix_limit custom_prefix) (len custom_prefix)
        then err (plain "custom name prefix %q exceeds %d character limit")
        else ok (with_hyphen custom_prefix, true))
    else if leb (len name) 63
    then ok (name, false)
    else ok (with_hyphen (if ltb 57 (len name) then take_bytes 57 name else name), true)

unfoldable pub get_target_cluster_namespace : Handler → String → String
unfolding get
get_target_cluster_namespace h project_uid =
    let workspace = get h.config.fleet_project_uid_to_workspace_mappings project_uid in
    if not (project_uid == "") && not (workspace == "")
    then workspace
    else h.config.fleet_default_workspace
