-- ===== src/Examples/Services.antt =====
-- The reconciler of services.
use vcluster_rancher_operato.Prelude.{
  ℕ, String, ◌≡◌, refl, ◌↔◌, ◌==◌, true, false, Option, none, some, List, [], ◌∷◌, map, arith,
  eq_iff, ◌≢◌,
}
use vcluster_rancher_operato.Maps.{StringMap, get, lookup, insert}
use vcluster_rancher_operato.Errors.{Error, api, not_found, is_err, is_not_found}
use vcluster_rancher_operato.Constants.{
  label_vcluster_service_uid, label_host_cluster_name, label_project_uid,
  value_no_rancher_project_on_namespace, finalizer_vcluster_app,
}
use vcluster_rancher_operato.Unstructured.{
  Unstructured, no_object, fleet_workspace_management_cattle,
}
use vcluster_rancher_operato.Client
use vcluster_rancher_operato.Client.{get_first_with_label}
use vcluster_rancher_operato.Client.Memory.{
  Memory, memory_api, remove_object, memory_api-Selects, find_object, select_objects, create_in,
  patch_in, delete_in,
}
use vcluster_rancher_operato.Kube.{Job}
use vcluster_rancher_operato.Queue.{process_next_work_item}
use vcluster_rancher_operato.Queue.Laws.{
  Recorded, recorded_queue, recorded_observer, recorded_queue-IsLawful, after,
}
use vcluster_rancher_operato.Services.Writes.{Writes}
use vcluster_rancher_operato.Services.Permitted.{Permitted}
use vcluster_rancher_operato.Services.Host.Memory.{memory_host, remove_job}
use vcluster_rancher_operato.Services.Provisioning.{
  ensure_provisioning_cluster, ensure_fleet_workspace, new_cluster_labels,
}
use vcluster_rancher_operato.Services.Provisioning.Cluster.{
  HasProjectLabels, new_cluster_labels_lem,
}
use vcluster_rancher_operato.Services.Provisioning.Workspace.{ensure_fleet_workspace_manual}
use vcluster_rancher_operato.Services.Resources.{
  RancherResources, get_rancher_resources, mark_for_cleanup, is_provisioned,
}
use vcluster_rancher_operato.Services.Resources.Finalizers.{count, count-mark_for_cleanup}
use vcluster_rancher_operato.Services.Resources.Ready.{job_without_command, ready_without_agent}
use vcluster_rancher_operato.Services.Agent.{ensure_agent_deployed, check_jobs}
use vcluster_rancher_operato.Services.Agent.Jobs.{
  conclude, delete_failed, first_settled, before_settled, check_jobs_lem,
}
use vcluster_rancher_operato.Services.Defs.{Handler}
use vcluster_rancher_operato.Services.Labels.{sync_labels}
use vcluster_rancher_operato.Services.Reconcile.{reconcile}
use vcluster_rancher_operato.Services.Reconcile.Waiting.{
  pending_error, wait_errs, Awaits, process_next_work_item_awaits,
}
use vcluster_rancher_operato.Services.Reconcile.Safety.{reconcile-Writes}
use vcluster_rancher_operato.Examples.Data.{
  config, handler, service, item, start, provisioning_cluster, management_cluster, provisioned,
  ready, orders, orders-HasMembers,
}

abbrev one_item : Recorded
one_item = record { pending = item ∷ []; log = []; failures = λ i. 0; holding = 0 }

ne_of_test : (a b : String) → (a == b) ≡ false → a ≢ b
ne_of_test a b h e = ground (arith, eq_iff a b)

run : Memory → Option Error × Memory
unfolding reconcile find_object select_objects create_in patch_in delete_in remove_job
run w = reconcile memory_api memory_host orders handler item w

abbrev names : Memory → List String
names w = map (λ (object : Unstructured). object.name) w.objects

-- A first run makes the workspace and the provisioning cluster, and waits.
run-start :
    ((run start).0 ≡ some pending_error)
    × (names (run start).1 ≡ "fleet-default" ∷ "c-m-1-team-vc" ∷ [])
unfolding run ensure_provisioning_cluster get_rancher_resources
run-start = (refl, refl)

-- With all of Rancher's objects there, the labels are synced and a job is made.
run-ready :
    ((run ready).0 ≡ none)
    × (map (λ (object : Unstructured). get object.labels "org.company/tier") (run ready).1.objects
        ≡ "" ∷ "gold" ∷ [])
unfolding run ensure_provisioning_cluster get_rancher_resources ensure_agent_deployed
run-ready = (refl, refl)

reconcile-Writes_example :
    Writes memory_api memory_host
      (Permitted handler)
      start
      (reconcile memory_api memory_host orders handler item start).1
reconcile-Writes_example =
    reconcile-Writes memory_api memory_host orders handler memory_api-Selects orders-HasMembers item
      start

-- The UID and the labels of a service with its provisioning cluster only.
awaits :
    Awaits memory_api memory_host orders handler item service
      (record { labels = [] })
      provisioning_cluster
      (api not_found)
      provisioned
unfolding lookup get get_first_with_label select_objects is_not_found
awaits = record {
  cached = refl;
  alive = refl;
  has_ip = λ e. ne_of_test _ _ refl e;
  imported = λ e. ne_of_test _ _ refl e;
  in_namespace = refl;
  provisioned = refl;
  unmanaged = refl;
  missing = refl;
}

process_next_work_item_awaits_example :
    let (more, (q', w')) =
      process_next_work_item recorded_queue
        (reconcile memory_api memory_host orders handler)
        wait_errs
        (one_item, provisioned) in
    (w' ≡ provisioned)
    × (recorded_observer.num_requeues q' item ≡ 0)
    × (recorded_observer.scheduled q' ≡ (item, after 5) ∷ [])
process_next_work_item_awaits_example =
    process_next_work_item_awaits memory_api memory_host orders handler item service
      (record { labels = [] }) provisioning_cluster (api not_found) provisioned awaits
      recorded_queue recorded_observer one_item recorded_queue-IsLawful refl

abbrev job : String → ℕ → ℕ → Job
job name failed active = record { name = name; failed = failed; active = active; succeeded = 0 }

abbrev jobs : List Job
jobs = job "a" 1 0 ∷ job "b" 0 0 ∷ job "c" 0 1 ∷ job "d" 1 0 ∷ []

check_jobs_lem_example :
    check_jobs memory_host service provisioning_cluster jobs (record start { jobs = jobs })
    ≡ conclude memory_host service provisioning_cluster
        (first_settled jobs)
        (delete_failed memory_host service (before_settled jobs) (record start { jobs = jobs }))
check_jobs_lem_example =
    check_jobs_lem memory_host service provisioning_cluster jobs (record start { jobs = jobs })

abbrev new_labels : StringMap
new_labels =
    (label_vcluster_service_uid, "uid-1")
    ∷ (label_host_cluster_name, "c-m-1")
    ∷ (label_project_uid, value_no_rancher_project_on_namespace)
    ∷ []

new_cluster_labels_lem_example :
    (get new_labels label_vcluster_service_uid ≡ "uid-1")
    × (get new_labels label_host_cluster_name ≡ "c-m-1")
    × HasProjectLabels handler memory_api start none new_labels
unfolding new_cluster_labels lookup insert
new_cluster_labels_lem_example =
    new_cluster_labels_lem handler memory_api service (record { labels = [] }) start new_labels refl

count-mark_for_cleanup_example :
    let marked = record management_cluster { finalizers = finalizer_vcluster_app ∷ [] } in
    count finalizer_vcluster_app (mark_for_cleanup service marked).finalizers ≡ 2
unfolding get
count-mark_for_cleanup_example =
    count-mark_for_cleanup service
      (record management_cluster { finalizers = finalizer_vcluster_app ∷ [] })
      finalizer_vcluster_app

abbrev manual : Handler
manual = record handler { config = record config { fleet_auto_create_workspace = false } }

ensure_fleet_workspace_manual_example :
    let (e, w') = ensure_fleet_workspace memory_api manual "fleet-default" start in
    (w' ≡ start)
    × ((e ≡ none) ↔ (
        is_err (Client.get memory_api fleet_workspace_management_cattle "fleet-default" "" start)
        ≡ false))
ensure_fleet_workspace_manual_example =
    ensure_fleet_workspace_manual memory_api manual "fleet-default" start refl

-- What a run on the provisioned cluster finds, and leaves.
abbrev found : Unstructured → RancherResources
found cluster = record {
  is_ready = true;
  management_cluster = cluster;
  cluster_registration_token = no_object;
}

synced : Unstructured
unfolding sync_labels
synced = record management_cluster {
  labels = sync_labels orders config service.labels management_cluster.labels;
}

after_sync : Memory
after_sync = record start { objects = provisioning_cluster ∷ synced ∷ [] }

ready_without_agent_example :
    (ensure_agent_deployed memory_host service no_object after_sync).1
    ≡ (memory_host.create_job (job_without_command service) after_sync).1
unfolding get_rancher_resources is_provisioned after_sync synced remove_object patch_in
    select_objects
ready_without_agent_example =
    ready_without_agent memory_api memory_host orders handler service provisioning_cluster ready
      after_sync (found synced) refl refl refl refl
