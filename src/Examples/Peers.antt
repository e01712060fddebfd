-- ===== src/Examples/Peers.antt =====
-- The handlers of host clusters, and whole reconciliations.
use vcluster_rancher_operato.Prelude.{
  ℕ, String, ◌≡◌, ◌≢◌, none, ◌⊎◌, ◌↔◌, refl, true, some, [], ◌∷◌,
}
use vcluster_rancher_operato.Strings.{split}
use vcluster_rancher_operato.Maps.{keys}
use vcluster_rancher_operato.Errors.{ok}
use vcluster_rancher_operato.Unstructured.{
  Unstructured, Fields, field, obj, list, str, end, nil, cons, find, Values,
  clusters_management_cattle, get_nested,
}
use vcluster_rancher_operato.Client
use vcluster_rancher_operato.Client.Memory.{Memory, memory_api, find_object, select_objects}
use vcluster_rancher_operato.Queue.{new_queued_handler}
use vcluster_rancher_operato.Services.Reconcile.Waiting.{wait_errs}
use vcluster_rancher_operato.Clusters.Conditions.{
  Among, IsReadyCondition, is_cluster_ready, has_ready_condition, is_cluster_ready_iff,
}
use vcluster_rancher_operato.Clusters.Peers.{
  Running, Peers, no_peers, start, sync_vcluster_install_handler, stop,
}
use vcluster_rancher_operato.Clusters.Peers.Histories.{Reach, begin, later, installs}
use vcluster_rancher_operato.Clusters.Peers.Hosted.{HasHandler, peers_refine}
use vcluster_rancher_operato.Clusters.Reconcile.{Outcome, finished, reconcile}
use vcluster_rancher_operato.Clusters.Reconcile.Outcomes.{Done, reconcile_finished_iff}
use vcluster_rancher_operato.Clusters.Reconcile.Handlers.{ready_runs}
use vcluster_rancher_operato.Examples.Data.{config, handler, management_cluster}
use vcluster_rancher_operato.Examples.Data.{start as empty_cluster}
use vcluster_rancher_operato.Examples.Rancher.{plain_configs, plain_clusters}
use vcluster_rancher_operato.Examples.Cleanup.{accepting}

abbrev ready_condition : Fields
ready_condition = field "type" (str "Ready") (field "status" (str "True") end)

abbrev status : Fields
status = field "conditions" (list (cons (str "odd") (cons (obj ready_condition) nil))) end

-- A host cluster.
abbrev host : Unstructured
host = record management_cluster {
  name = "c-m-1";
  labels = [];
  content = field "status" (obj status) end;
}

abbrev with_host : Memory
with_host = record empty_cluster { objects = host ∷ [] }

has_status : find "status" host.content ≡ some (obj status)
unfolding find
has_status = refl

host_ready : is_cluster_ready host ≡ true
unfolding is_cluster_ready get_nested has_ready_condition find
host_ready = refl

is_cluster_ready_iff_example : (is_cluster_ready host ≡ true) ↔ (
    (conditions : Values) × (condition : Fields) × (find "conditions" status
      ≡ some (list conditions))
    × Among (obj condition) conditions
    × IsReadyCondition condition)
is_cluster_ready_iff_example = is_cluster_ready_iff host status has_status

abbrev installed : Peers
installed =
    (sync_vcluster_install_handler plain_configs plain_clusters "t" config "c-m-1" no_peers).1

installed-Reach : Reach plain_configs Memory "t" config installed
installed-Reach = later begin (installs plain_clusters "c-m-1")

abbrev queued : Running
queued = new_queued_handler handler 5 wait_errs

running : installed.running 0 ≡ some queued
unfolding sync_vcluster_install_handler start keys
running = refl

abbrev first_context : ℕ
first_context = 0

abbrev host_name : String
host_name = "c-m-1"

abbrev other_name : String
other_name = "c-m-2"

peers_refine_example :
    (let (e, q) =
        sync_vcluster_install_handler plain_configs plain_clusters "t" config other_name
          installed in
      (e ≡ none
        → HasHandler q host_name ↔ (HasHandler installed host_name ⊎ (host_name ≡ other_name)))
      × (e ≢ none → q ≡ installed))
    × (HasHandler (stop other_name installed) host_name
        ↔ (HasHandler installed host_name × (host_name ≢ other_name)))
peers_refine_example =
    peers_refine plain_configs Memory "t" config plain_clusters installed other_name host_name
      installed-Reach

run : String → Peers → Memory → Outcome × (Peers × Memory)
unfolding reconcile
run name p w = reconcile memory_api plain_configs plain_clusters accepting "t" config name (p, w)

found : Client.get memory_api clusters_management_cattle "c-m-1" "" with_host ≡ ok host
unfolding find_object
found = refl

reconcile_finished_iff_example :
    ((reconcile memory_api plain_configs plain_clusters accepting "t" config "c-m-1"
        (no_peers, with_host)).0
      ≡ finished)
    ↔ Done memory_api plain_configs plain_clusters accepting "t" config host (no_peers, with_host)
reconcile_finished_iff_example =
    reconcile_finished_iff memory_api plain_configs plain_clusters accepting "t" config "c-m-1" host
      (no_peers, with_host) found

run_finished :
    (reconcile memory_api plain_configs plain_clusters accepting "t" config "c-m-1"
      (no_peers, with_host)).0
    ≡ finished
unfolding reconcile find_object select_objects get_nested find split
run_finished = refl

ready_runs_example :
    (c : ℕ) × (h : Running) × ((reconcile memory_api plain_configs plain_clusters accepting "t"
          config "c-m-1"
          (no_peers, with_host)).1.0.running
        c
      ≡ some h)
    × (h.reconciler.cluster_name ≡ "c-m-1")
ready_runs_example =
    ready_runs memory_api plain_configs plain_clusters accepting "t" config "c-m-1" host no_peers
      with_host begin found host_ready run_finished
