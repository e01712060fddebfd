-- ===== src/Clusters/Peers.antt =====
-- The handlers of the host clusters in internal/controller/clusters/cluster_controller.go:
-- `SyncvClusterInstallHandler` starts one, and `Reconcile` stops it when its cluster is gone. A
-- context with its cancel function is a number; the handler that runs under it ends when it is
-- cancelled.
pub mod Invariant
pub mod Histories
pub mod Hosted
use vcluster_rancher_operato.Prelude.{
  ℕ, suc, String, Bool, Option, none, some, List, [], contains, eqb, if◌then◌else◌,
}
use vcluster_rancher_operato.Maps.{Map, lookup, insert, delete, keys}
use vcluster_rancher_operato.Errors.{Error, Result, ok, err}
use vcluster_rancher_operato.Config.{Config}
use vcluster_rancher_operato.Queue.{QueuedHandler, new_queued_handler}
use vcluster_rancher_operato.Services.Defs.{Handler}
use vcluster_rancher_operato.Services.Reconcile.Waiting.{wait_errs}
use vcluster_rancher_operato.Token.{KubeConfigs, rest_config_from_token}
use vcluster_rancher_operato.Clusters.Access.{HostClusters, get_cluster_client}

-- The reconciler of a host cluster behind its queue.
abbrev pub Running : Type 0
Running = QueuedHandler Handler

-- The peers, and what runs under each context. A nil map of peers is an empty one.
pub record Peers : Type 0 where
  pub peers : Map ℕ
  pub running : ℕ → Option Running
  pub next_context : ℕ

abbrev pub no_peers : Peers
no_peers = record { peers = []; running = λ c. none; next_context = 0 }

-- `context.WithCancel`, the entry in the map, and the goroutines of the informer and the queue.
unfoldable pub start : Running → Peers → Peers
unfolding insert
start h p = record {
  peers = insert h.reconciler.cluster_name p.next_context p.peers;
  running = λ c. if eqb c p.next_context then some h else p.running c;
  next_context = suc p.next_context;
}

-- `cancel()`
abbrev pub cancel : ℕ → (ℕ → Option Running) → ℕ → Option Running
cancel context running c = if eqb c context then none else running c

-- What `Reconcile` does when the cluster is not found.
unfoldable pub stop : String → Peers → Peers
unfolding lookup delete
stop name p = elim (lookup name p.peers) [
  | none ↦ p
  | some context ↦ record p { peers = delete name p.peers; running = cancel context p.running }
]

module _ (K : KubeConfigs) {World : Type 0} (C : HostClusters K World) (rancher_token : String)
    (config : Config) where
  abbrev pub new_handler : String → Running
  new_handler cluster_name =
      new_queued_handler (record { cluster_name = cluster_name; config = config }) 5 wait_errs

  install : String → Result C.ClusterClient → Peers → Option Error × Peers
  unfolding start
  install cluster_name (err e) p = (some e, p)
  install cluster_name (ok cluster_client) p = elim (C.add_event_handler cluster_client) [
    | some e ↦ (some e, p)
    | none ↦ (none, start (new_handler cluster_name) p)
  ]

  with_config : String → Result K.RestConfig → Peers → Option Error × Peers
  unfolding install get_cluster_client
  with_config cluster_name (err e) p = (some e, p)
  with_config cluster_name (ok rest_config) p =
      install cluster_name (get_cluster_client K C rest_config) p

  -- The lock is held throughout.
  unfoldable pub sync_vcluster_install_handler : String → Peers → Option Error × Peers
  unfolding with_config rest_config_from_token keys
  sync_vcluster_install_handler cluster_name p =
      if contains cluster_name (keys p.peers)
      then (none, p)
      else with_config cluster_name (rest_config_from_token K cluster_name rancher_token) p
