-- ===== src/Examples/Rancher.antt =====
-- The operator's token, and the management clusters that are left over.
use vcluster_rancher_operato.Prelude.{
  true, false, String, ◌≡◌, refl, none, some, Option, List, [], ◌∷◌, map,
}
use vcluster_rancher_operato.Maps.{StringMap, lookup}
use vcluster_rancher_operato.Errors.{Error, Result, ok}
use vcluster_rancher_operato.Constants.{
  label_rancher_system_token, label_vcluster_rancher_user, label_vcluster_service_uid,
  label_host_cluster_name,
}
use vcluster_rancher_operato.Unstructured.{
  find, Unstructured, Fields, field, str, obj, end, token_management_cattle, user_management_cattle,
}
use vcluster_rancher_operato.Client.Memory.{
  Memory, memory_api, select_objects, create_in, delete_in, remove_object,
}
use vcluster_rancher_operato.Token.{KubeConfigs, get_token}
use vcluster_rancher_operato.Services.Host.Memory.{memory_host}
use vcluster_rancher_operato.Services.Writes.{Writes}
use vcluster_rancher_operato.Clusters.Access.{HostClusters}
use vcluster_rancher_operato.Clusters.Limits.{Limits, limit_all, limits_of, sync_resource_limits}
use vcluster_rancher_operato.Clusters.Limits.Panics.{is_nil, is_nil-limit_all}
use vcluster_rancher_operato.Clusters.Limits.Values.{entry, limit_all-Leaves}
use vcluster_rancher_operato.Clusters.Stale.{sync_stale_resources}
use vcluster_rancher_operato.Clusters.Stale.Safety.{IsStaleDelete, sync_stale_resources-Writes}
use vcluster_rancher_operato.Examples.Data.{start, management_cluster}

abbrev user : Unstructured
user = record management_cluster {
  gvk = user_management_cattle;
  name = "u-operator";
  labels = (label_vcluster_rancher_user, "true") ∷ [];
}

abbrev old_token : Unstructured
old_token = record management_cluster {
  gvk = token_management_cattle;
  name = "token-old";
  labels = (label_rancher_system_token, "true") ∷ [];
}

abbrev pub with_token : Memory
with_token = record start { objects = user ∷ old_token ∷ [] }

abbrev generate : Memory → Result String
generate w = ok "secret"

run_token : Memory → Result String × Memory
unfolding get_token select_objects create_in delete_in
run_token w = get_token memory_api generate w

-- The old token is replaced.
run_token-with_token :
    ((run_token with_token).0 ≡ ok "token-vcluster-rancher-operator:secret")
    × (map (λ (object : Unstructured). object.name) (run_token with_token).1.objects
        ≡ "u-operator" ∷ "token-vcluster-rancher-operator" ∷ [])
unfolding run_token
run_token-with_token = (refl, refl)

-- Configurations and clients that are only the texts they are made from.
abbrev pub plain_configs : KubeConfigs
plain_configs = record {
  RestConfig = String;
  execute = λ text d. ok d.host;
  rest_config_from_kube_config = ok;
  set_insecure = λ c. c;
}

abbrev pub plain_clusters : HostClusters plain_configs Memory
plain_clusters = record {
  ClusterClient = String;
  new_for_config = ok;
  new_cluster = λ c. none;
  list_services = λ c m. ok (map (λ entry. entry.1) m.services);
  add_event_handler = λ c. none;
  get_resource_quota = λ c namespace name m. ok (("limits.cpu", "2") ∷ []);
}

abbrev left_over : Unstructured
left_over = record management_cluster {
  labels = (label_vcluster_service_uid, "uid-gone") ∷ (label_host_cluster_name, "c-m-1") ∷ [];
}

abbrev with_left_over : Memory
with_left_over = record start { objects = left_over ∷ [] }

run_stale : List String → Memory → Option Error × Memory
unfolding sync_stale_resources delete_in remove_object
run_stale peers w =
    sync_stale_resources memory_api plain_configs plain_clusters "t" left_over peers w

-- It is deleted once the informer of its host cluster has been started.
run_stale-with_left_over :
    ((run_stale ("c-m-1" ∷ []) with_left_over).1.objects ≡ [])
    × ((run_stale [] with_left_over).1.objects ≡ left_over ∷ [])
unfolding run_stale
run_stale-with_left_over = (refl, refl)

sync_stale_resources-Writes_example :
    Writes memory_api memory_host
      (IsStaleDelete memory_api plain_configs plain_clusters "t" left_over
        ("c-m-1" ∷ [])
        with_left_over)
      with_left_over
      (sync_stale_resources memory_api plain_configs plain_clusters "t" left_over
        ("c-m-1" ∷ [])
        with_left_over).1
sync_stale_resources-Writes_example =
    sync_stale_resources-Writes memory_api plain_configs plain_clusters "t" left_over memory_host
      ("c-m-1" ∷ []) with_left_over

-- A quota on the CPU for a cluster whose status has no maps yet.
abbrev quota : StringMap
quota = ("limits.cpu", "2") ∷ ("requests.cpu", "1") ∷ []

abbrev full_status : Fields
full_status =
    field "capacity" (obj end) (field "allocatable" (obj end) (field "requested" (obj end) end))

limits_full : is_nil (limit_all quota (limits_of full_status)) ≡ false
unfolding limit_all find
limits_full = refl

is_nil-limit_all_example : is_nil (limit_all quota (limits_of end)) ≡ true
unfolding lookup find
is_nil-limit_all_example = is_nil-limit_all quota (limits_of end)

abbrev written : Limits
written = record {
  capacity = some (field "cpu" (str "2") end);
  allocatable = some (field "cpu" (str "2") end);
  requested = some (field "cpu" (str "1") end);
}

limits_written : limit_all quota (limits_of full_status) ≡ some written
unfolding limit_all find
limits_written = refl

limit_all-Leaves_example :
    (entry "cpu" written.capacity ≡ some (str "2"))
    × (entry "cpu" written.allocatable ≡ some (str "2"))
    × (entry "cpu" written.requested ≡ some (str "1"))
unfolding find lookup
limit_all-Leaves_example =
    limit_all-Leaves quota (limits_of full_status) written "cpu" limits_written

with_host : Unstructured
with_host = record left_over {
  labels = (label_vcluster_service_uid, "uid-1") ∷ (label_host_cluster_name, "c-m-1") ∷ [];
}

-- The same through the whole operation.
limits_panic :
    sync_resource_limits memory_api plain_configs plain_clusters "t" with_host start ≡ none
unfolding with_host sync_resource_limits find
limits_panic = refl
