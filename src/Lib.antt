-- ===== src/Lib.antt =====
-- The vCluster Rancher operator: it imports the vClusters that run on the host clusters of a Rancher
-- server into Rancher. For each vCluster service of a host cluster it makes a provisioning cluster
-- with the UID of the service as a label, waits until Rancher has made a management cluster and a
-- registration token for it, copies labels from the service to the management cluster, and starts a
-- job in the host cluster that deploys the Rancher agent in the vCluster.
--
-- Parts of the program and the files that model them:
--   pkg/services/handler.go, the reconciler of one host cluster
--     Services/Defs            Handler
--     Services/Reconcile       Reconcile, deployvClusterRancherCluster
--     Services/Provisioning    cleanupProvisioningCluster, ensureProvisioningCluster,
--                              ensureFleetWorkspace
--     Services/Naming          getProvisioningClusterName, getTargetClusterNamespace
--     Services/Resources       getRancherResources
--     Services/Labels          syncLabels
--     Services/Agent           ensureAgentDeployed
--     Services/Host            the calls of client-go and of the informer's cache (parameters)
--     Services/Writes, Services/Permitted
--                              sequences of write calls, and which are permitted to a host cluster
--   internal/controller/clusters/cluster_controller.go
--     Clusters/Reconcile       Reconcile
--     Clusters/Peers           SyncvClusterInstallHandler, and the stop of a handler
--     Clusters/Watch           SetupWithManager, clustersRelatedToTargetProject,
--                              clustersHostedByClusterTarget
--     Clusters/Conditions      isClusterReady
--     Clusters/Rbac            SyncRancherRBAC
--     Clusters/Stale           SyncStaleResources
--     Clusters/Cleanup         SyncCleanup
--     Clusters/Limits          SyncResourceLimits; the panic of an assignment to a nil map is an outcome
--     Clusters/Access          getClusterClient
--     Clusters/Halves          parseHalves
--   pkg/token, pkg/rancher     Token: GetToken, RestConfigFromToken, the template's text,
--                              GetClusterEndpoint
--   pkg/queue/queue.go         Queue: the event handlers, the worker, handleErr; Queue/Workers: Start
--   cmd/main.go                Command: flags, TLS options and what the manager is made
--                              with; Command/Run: main
--   pkg/config/config.go       Config: LoadConfigFromEnv
--   pkg/unstructured/client.go Client: the methods of Client; Unstructured: GetNested, FilterItems,
--                              ForEachItem
--   pkg/unstructured/gvk/gvk.go
--                              Unstructured
--   pkg/constants              Constants
--   Kube holds the fields of Kubernetes objects that the code reads, Errors the errors of Go and of
--   apimachinery, Strings and Maps what is used of Go's strings and maps, and Prelude what all share.
--   Files below a component prove laws about it. Examples runs the operator on clusters in memory
--   (Client/Memory, Services/Host/Memory) and applies the theorems to concrete data.
--
-- How they interact: the informer's events enqueue items (key and UID of a service), a worker takes
-- one, the handler reconciles it against the host cluster and Rancher's API server, and the error it
-- returns decides when the item comes back. The cluster controller starts and stops these handlers,
-- one per host cluster: its peers say under which context the handler of a cluster runs, and the
-- world of goroutines is the function from contexts to running handlers. Where goroutines share
-- state under a lock (the peers, the work queue), a relation gives the steps that each holds the
-- lock for, and they interleave in any order. Handlers pass the state of the clusters explicitly: a
-- function that writes returns the state after its writes, also where it fails. Calls of
-- controller-runtime (Client.Api), client-go (Services.Host.HostApi) and its work queue
-- (Queue.WorkQueue) are parameters, and so are clientcmd and the template engine (Token.KubeConfigs),
-- the constructors of clients (Clusters.Access.HostClusters) and the HTTP client
-- (Clusters.Cleanup.Http), and certwatcher and the manager (Command.Runtime). Client.Laws.Selects,
-- Client.Stores.Stores, Services.Labels.HasMembers, Queue.Laws.IsLawful, Queue.Drain.IsDraining,
-- Queue.Workers.Exclusive.IsStingy and Command.Run.Parts.Registers state what is relied on of them,
-- and the models in memory meet these. The
-- order in which Go walks a map is the parameter Services.Labels.Orders.
--
-- Bounds and fuel: lengths are in bytes, as Go's len gives them. Loops are structural recursion on
-- the lists they walk. Only the worker's endless loop (Queue.run_worker) runs on fuel, one unit for
-- each item; on a queue that is shut down and that no other worker calls, the number of dirty items
-- (client-go's word for what waits in the list or was added again while it was held) and one more
-- is enough.
--
-- Not modelled: log lines and the values inside error messages; the parts of the install job that do
-- not depend on the vCluster; the informers of client-go, whose events are what the queue is given;
-- two reconciliations of the cluster controller that interleave between their calls of the API
-- server (their steps on the peers do); how the flag package reads the command line, the logger and
-- the scheme; tests and manifests.
pub mod Prelude
pub mod Strings
pub mod Maps
pub mod Errors
pub mod Constants
pub mod Config
pub mod Kube
pub mod Unstructured
pub mod Client
pub mod Queue
pub mod Clusters
pub mod Command
pub mod Services
pub mod Token
pub mod Examples
