-- ===== src/Clusters/Limits.antt =====
-- `SyncResourceLimits` in internal/controller/clusters/cluster_controller.go: the status of a
-- vCluster's management cluster shows the limits of its resource quota. A map that is nil is `none`
-- here; an assignment to it panics in Go, and the outcome `none` of an operation is that panic.
pub mod Panics
pub mod Values
use Prim.Native.String.{◌++◌ as ◌<>◌}
use vcluster_rancher_operato.Prelude.{
  String, ◌==◌, Bool, ◌||◌, Option, none, some, List, [], ◌∷◌, if◌then◌else◌,
}
use vcluster_rancher_operato.Maps.{StringMap, get, lookup}
use vcluster_rancher_operato.Errors.{Error, Result, ok, err, wrap, is_not_found}
use vcluster_rancher_operato.Constants.{label_vcluster_service_uid, label_host_cluster_name}
use vcluster_rancher_operato.Unstructured.{
  Unstructured, Value, null, str, quantity, obj, Fields, end, field, find, as_object, get_nested,
}
use vcluster_rancher_operato.Client.{Api}
use vcluster_rancher_operato.Kube.{Service}
use vcluster_rancher_operato.Token.{KubeConfigs, rest_config_from_token}
use vcluster_rancher_operato.Clusters.Access.{HostClusters, get_cluster_client}

-- `m[key] = value`
unfoldable pub put : String → Value → Fields → Fields
put key value end = field key value end
put key value (field first old rest) =
    let others = put key value rest in
    if first == key then field key value rest else field first old others

-- The three maps of the status.
pub record Limits : Type 0 where
  pub capacity : Option Fields
  pub allocatable : Option Fields
  pub requested : Option Fields

unfoldable pub set_limit : Option String → String → Limits → Option Limits
unfolding put
set_limit none resource l = some l
set_limit (some limit) resource l = elim l.capacity [
  | none ↦ none
  | some capacity ↦ elim l.allocatable [
    | none ↦ none
    | some allocatable ↦ some (record l {
      capacity = some (put resource (str limit) capacity);
      allocatable = some (put resource (str limit) allocatable);
    })
  ]
]

unfoldable pub set_request : Option String → String → Limits → Option Limits
unfolding put
set_request none resource l = some l
set_request (some request) resource l = elim l.requested [
  | none ↦ none
  | some requested ↦ some (record l { requested = some (put resource (str request) requested) })
]

-- The number of pods is put there as a quantity, not as a text.
unfoldable pub set_pods : Option String → Limits → Option Limits
unfolding put
set_pods none l = some l
set_pods (some pods) l = elim l.allocatable [
  | none ↦ none
  | some allocatable ↦
      some (record l { allocatable = some (put "pods" (quantity pods) allocatable) })
]

abbrev pub and_then : Option Limits → (Limits → Option Limits) → Option Limits
and_then none f = none
and_then (some l) f = f l

-- One round of the loop over the resources.
unfoldable pub limit_resource : StringMap → String → Limits → Option Limits
unfolding set_limit set_request lookup
limit_resource hard resource l =
    and_then (set_limit (lookup ("limits." <> resource) hard) resource l)
      (set_request (lookup ("requests." <> resource) hard) resource)

unfoldable pub limit_all : StringMap → Limits → Option Limits
unfolding limit_resource set_pods lookup
limit_all hard l =
    and_then (limit_resource hard "cpu" l)
      (λ m. and_then (limit_resource hard "memory" m) (set_pods (lookup "count/pods" hard)))

-- A nil map is written to the object as null.
abbrev map_value : Option Fields → Value
map_value none = null
map_value (some fs) = obj fs

abbrev object_of : Option Value → Option Fields
object_of none = none
object_of (some v) = as_object v

abbrev pub limits_of : Fields → Limits
limits_of status = record {
  capacity = object_of (find "capacity" status);
  allocatable = object_of (find "allocatable" status);
  requested = object_of (find "requested" status);
}

abbrev with_limits : Fields → Limits → Fields
with_limits status l =
    put "requested" (map_value l.requested)
      (put "allocatable" (map_value l.allocatable) (put "capacity" (map_value l.capacity) status))

abbrev pub status_of : Unstructured → Fields
status_of cluster = get_nested as_object end cluster.content ("status" ∷ [])

-- The first service with the UID.
unfoldable pub find_service : String → List Service → Option Service
find_service uid [] = none
find_service uid (svc ∷ services) = if svc.uid == uid then some svc else find_service uid services

module _ (A : Api) (K : KubeConfigs) (C : HostClusters K A.World) (rancher_token : String)
    (cluster : Unstructured) where
  open A use {World}

  -- `none` is a panic.
  abbrev pub Outcome : Type 0
  Outcome = Option (Option Error × World)

  abbrev limits_patched : Result Unstructured × World → Option Error × World
  limits_patched (ok changed, w) = (none, w)
  limits_patched (err e, w) =
      (some (wrap "failed to update management cluster status with resource metrics" e), w)

  abbrev patch_limits : Option Limits → World → Outcome
  patch_limits none w = none
  patch_limits (some l) w = some (
      limits_patched (
        A.patch
          (record cluster {
            content = put "status" (obj (with_limits (status_of cluster) l)) cluster.content;
          })
          cluster w))

  pub with_quota : Result StringMap → World → Outcome
  unfolding limit_all put find get_nested is_not_found
  with_quota (err e) w =
      if is_not_found e
      then some (none, w)
      else some (some (wrap "failed to get resource quota" e), w)
  with_quota (ok hard) w = patch_limits (limit_all hard (limits_of (status_of cluster))) w

  with_service : C.ClusterClient → Option Service → World → Outcome
  unfolding with_quota
  with_service cluster_client none w = some (none, w)
  with_service cluster_client (some svc) w =
      with_quota (C.get_resource_quota cluster_client svc.namespace ("vc-" <> svc.name) w) w

  with_services : C.ClusterClient → Result (List Service) → World → Outcome
  unfolding with_service find_service get
  with_services cluster_client (err e) w =
      some (some (wrap "failed to list vCluster services" e), w)
  with_services cluster_client (ok services) w =
      with_service cluster_client
        (find_service (get cluster.labels label_vcluster_service_uid) services) w

  with_host_client : Result C.ClusterClient → World → Outcome
  unfolding with_services
  with_host_client (err e) w = some (some (wrap "failed to get host cluster client" e), w)
  with_host_client (ok cluster_client) w =
      with_services cluster_client (C.list_services cluster_client w) w

  with_host_config : Result K.RestConfig → World → Outcome
  unfolding with_host_client get_cluster_client
  with_host_config (err e) w = some (some (wrap "failed to get rest config for host cluster" e), w)
  with_host_config (ok rest_config) w = with_host_client (get_cluster_client K C rest_config) w

  unfoldable pub sync_resource_limits : World → Outcome
  unfolding with_host_config rest_config_from_token get
  sync_resource_limits w =
      let host_cluster_name = get cluster.labels label_host_cluster_name in
      let vcluster_service_uid = get cluster.labels label_vcluster_service_uid in
      if host_cluster_name == "" || vcluster_service_uid == ""
      then some (none, w)
      else with_host_config (rest_config_from_token K host_cluster_name rancher_token) w
