-- ===== src/Services/Reconcile/Safety.antt =====
-- What a reconciliation of a service writes.
use vcluster_rancher_operato.Prelude.{◌==◌, Option, none, some}
use vcluster_rancher_operato.Maps.{get}
use vcluster_rancher_operato.Errors.{Result, ok, err}
use vcluster_rancher_operato.Constants.{annotation_skip_import}
use vcluster_rancher_operato.Unstructured.{Unstructured}
use vcluster_rancher_operato.Client.{Api}
use vcluster_rancher_operato.Client.Laws.{Selects}
use vcluster_rancher_operato.Kube.{Service, Namespace}
use vcluster_rancher_operato.Queue.{Item}
use vcluster_rancher_operato.Services.Defs.{Handler}
use vcluster_rancher_operato.Services.Host.{HostApi}
use vcluster_rancher_operato.Services.Labels.{Orders, HasMembers}
use vcluster_rancher_operato.Services.Writes.{Writes, nothing, Writes-trans, Writes-if}
use vcluster_rancher_operato.Services.Permitted.{Permitted}
use vcluster_rancher_operato.Services.Provisioning.Safety.{
  cleanup_provisioning_cluster-Writes, ensure_provisioning_cluster-Writes,
}
use vcluster_rancher_operato.Services.Resources.{RancherResources}
use vcluster_rancher_operato.Services.Resources.Safety.{get_rancher_resources-Writes}
use vcluster_rancher_operato.Services.Agent.Safety.{ensure_agent_deployed-Writes}
use vcluster_rancher_operato.Services.Reconcile.{
  deploy_agent, await_rancher, deploy_in, deploy_vcluster_rancher_cluster, reconcile_found,
  reconcile,
}

module _ (A : Api) (H : HostApi A.World) (o : Orders) (h : Handler) (selects : Selects A)
    (members : HasMembers o) where
  deploy_agent-Writes :
      (service : Service) (r : Result RancherResources) (w v : A.World)
      → Writes A H (Permitted h) w v
      → Writes A H (Permitted h) w (deploy_agent A H o h service (r, v)).1
  unfolding deploy_agent
  deploy_agent-Writes service (err e) w v first = first
  deploy_agent-Writes service (ok resources) w v first =
      Writes-trans first
        (ensure_agent_deployed-Writes h A H service resources.cluster_registration_token v)

  await_rancher-Writes :
      (service : Service) (r : Result Unstructured) (w v : A.World)
      → Writes A H (Permitted h) w v
      → Writes A H (Permitted h) w (await_rancher A H o h service (r, v)).1
  unfolding await_rancher
  await_rancher-Writes service (err e) w v first = first
  await_rancher-Writes service (ok cluster) w v first =
      deploy_agent-Writes service _ w _ (
        Writes-trans first (get_rancher_resources-Writes h A H o members service selects cluster v))

  deploy_in-Writes :
      (service : Service) (ns : Result Namespace) (w : A.World)
      → Writes A H (Permitted h) w (deploy_in A H o h service ns w).1
  unfolding deploy_in
  deploy_in-Writes service (err e) w = nothing
  deploy_in-Writes service (ok ns) w =
      await_rancher-Writes service _ w _ (ensure_provisioning_cluster-Writes h A H service ns w)

  deploy-Writes :
      (service : Service) (w : A.World)
      → Writes A H (Permitted h) w (deploy_vcluster_rancher_cluster A H o h service w).1
  unfolding deploy_vcluster_rancher_cluster
  deploy-Writes service w =
      Writes-if (service.cluster_ip == "None") _ _ (λ _. nothing)
        (λ _.
          Writes-if (get service.annotations annotation_skip_import == "true") _ _ (λ _. nothing)
            (λ _. deploy_in-Writes service _ w))

  reconcile_found-Writes :
      (item : Item) (found : Result (Option Service)) (w : A.World)
      → Writes A H (Permitted h) w (reconcile_found A H o h item found w).1
  unfolding reconcile_found
  reconcile_found-Writes item (err e) w = nothing
  reconcile_found-Writes item (ok none) w =
      Writes-if (item.uid == "") _ _ (λ _. nothing)
        (λ _. cleanup_provisioning_cluster-Writes h A H selects item.uid w)
  reconcile_found-Writes item (ok (some service)) w =
      Writes-if service.deleting _ _
        (λ _. cleanup_provisioning_cluster-Writes h A H selects service.uid w)
        (λ _. deploy-Writes service w)

  -- Whatever the item and whatever fails, if the server lists by kind and selector, all that a
  -- reconciliation writes is permitted: it creates provisioning clusters of its own host cluster,
  -- with names that fit, and workspaces only if it may; it deletes provisioning clusters of its own
  -- host cluster only; it changes management clusters in their labels and finalizers only, and no
  -- protected label of them but the target app.
  pub reconcile-Writes :
      (item : Item) (w : A.World) → Writes A H (Permitted h) w (reconcile A H o h item w).1
  unfolding reconcile
  reconcile-Writes item w = reconcile_found-Writes item (H.get_by_key item.key w) w
