-- ===== src/Services/Reconcile/Success.antt =====
-- What a reconciliation without an error has done.
use vcluster_rancher_operato.Prelude.{
  String, eq_iff, ◌≡◌, ◌≢◌, refl, ◌⊎◌, false, none, some, List, ◌∷◌, inl, inr, arith,
}
use vcluster_rancher_operato.Maps.{StringMap, get, lookup}
use vcluster_rancher_operato.Errors.{Result, ok, err, Result-cases}
use vcluster_rancher_operato.Constants.{annotation_skip_import, label_vcluster_service_uid}
use vcluster_rancher_operato.Unstructured.{
  Unstructured, clusters_management_cattle, cluster_provisioning_cattle,
}
use vcluster_rancher_operato.Client.{Api}
use vcluster_rancher_operato.Client.Laws.{labelled, first_of_list}
use vcluster_rancher_operato.Kube.{Service, Namespace}
use vcluster_rancher_operato.Queue.{Item}
use vcluster_rancher_operato.Services.Defs.{Handler}
use vcluster_rancher_operato.Services.Host.{HostApi}
use vcluster_rancher_operato.Services.Labels.{Orders, HasMembers}
use vcluster_rancher_operato.Services.Provisioning.{ensure_provisioning_cluster}
use vcluster_rancher_operato.Services.Provisioning.Cluster.{
  HasProjectLabels, new_cluster_labels_lem,
}
use vcluster_rancher_operato.Services.Provisioning.Created.{
  Creation, ensure_provisioning_cluster-made,
}
use vcluster_rancher_operato.Services.Resources.{RancherResources, get_rancher_resources}
use vcluster_rancher_operato.Services.Resources.Patched.{
  HasCommand, token_command, get_rancher_resources-HasResources,
}
use vcluster_rancher_operato.Services.Resources.Sent.{IsPatched}
use vcluster_rancher_operato.Services.Agent.Finished.{HasAgent, ensure_agent_deployed-HasAgent}
use vcluster_rancher_operato.Services.Reconcile.{
  deploy_agent, await_rancher, deploy_in, deploy_vcluster_rancher_cluster, reconcile,
}

module _ (A : Api) (h : Handler) (service : Service) where
  -- The provisioning cluster is the first that is listed with the UID of the service, or else one
  -- has been created for the service and this host cluster, with the project of the namespace.
  abbrev pub IsThere : Namespace → Unstructured → A.World → A.World → Type 0
  IsThere ns cluster w w1 =
      ((others : List Unstructured) × (A.list cluster_provisioning_cattle
            (labelled "loft.sh/vcluster-service-uid" service.uid) w
          ≡ ok (cluster ∷ others))
        × (w1 ≡ w))
      ⊎ ((labels : StringMap) × Creation A h labels w cluster w1
          × (get labels "loft.sh/vcluster-service-uid" ≡ service.uid)
          × (get labels "loft.sh/vcluster-host-cluster" ≡ h.cluster_name)
          × HasProjectLabels h A w (lookup "field.cattle.io/projectId" ns.labels) labels)

  ensure_provisioning_cluster-IsThere :
      (ns : Namespace) (cluster : Unstructured) (w w1 : A.World)
      → ensure_provisioning_cluster A h service ns w ≡ (ok cluster, w1)
      → IsThere ns cluster w w1
  ensure_provisioning_cluster-IsThere ns cluster w w1 e =
      elim (ensure_provisioning_cluster-made A h service ns w w1 cluster e) [
        | inl (same, found) ↦
            let (others, listed) =
              first_of_list A cluster_provisioning_cattle label_vcluster_service_uid service.uid w
                cluster found in
            inl (others, listed, same)
        | inr (labels, made, creation) ↦
            let (uid, host, project) = new_cluster_labels_lem h A service ns w labels made in
            inr (labels, creation, uid, host, project)
      ]

module _ (A : Api) (H : HostApi A.World) (o : Orders) (h : Handler) (service : Service) where
  -- All that has happened from the world before to the world after: the provisioning cluster is
  -- there, the first management cluster that is listed with the UID of the service has been
  -- patched, and then the agent is there or the job with the command of Rancher's token has been
  -- created.
  pub record Imported (before after : A.World) : Type 0 where
    pub ns : Namespace
    pub provisioning_cluster : Unstructured
    pub provisioned : A.World
    pub orig : Unstructured
    pub others : List Unstructured
    pub changed : Unstructured
    pub patched : A.World
    pub command : String
    pub has_namespace : H.get_namespace service.namespace before ≡ ok ns
    pub is_there : IsThere A h service ns provisioning_cluster before provisioned
    pub is_listed :
        A.list clusters_management_cattle
          (labelled "loft.sh/vcluster-service-uid" service.uid)
          provisioned
        ≡ ok (orig ∷ others)
    pub is_patched : IsPatched A h service provisioning_cluster orig changed provisioned patched
    pub has_command : HasCommand A H service provisioning_cluster changed patched command
    pub has_agent : HasAgent H service command patched after

  deploy_agent-ok :
      (r : Result RancherResources) (w : A.World)
      → (deploy_agent A H o h service (r, w)).0 ≡ none
      → (resources : RancherResources) × (r ≡ ok resources)
        × HasAgent H service
            (token_command A H o h service resources)
            w
            (deploy_agent A H o h service (r, w)).1
  unfolding deploy_agent
  deploy_agent-ok (err failure) w e = cc
  deploy_agent-ok (ok resources) w e = (
    resources,
    refl,
    ensure_agent_deployed-HasAgent H service resources.cluster_registration_token w e,
  )

  await_rancher-Imported :
      (members : HasMembers o) (ns : Namespace) (w : A.World) (r : Result Unstructured × A.World)
      → H.get_namespace service.namespace w ≡ ok ns
      → ensure_provisioning_cluster A h service ns w ≡ r
      → (await_rancher A H o h service r).0 ≡ none
      → Imported w (await_rancher A H o h service r).1
  unfolding await_rancher
  await_rancher-Imported members ns w (err failure, w1) there made e = cc
  await_rancher-Imported members ns w (ok provisioning_cluster, w1) there made e =
      let (r, w2) = get_rancher_resources A H o h service provisioning_cluster w1 in
      let (resources, given, agent) = deploy_agent-ok r w2 e in
      let (orig, others, listed, (changed, patched, command)) =
        get_rancher_resources-HasResources A H o h service members provisioning_cluster w1 resources
          given in
      record {
        ns = ns;
        provisioning_cluster = provisioning_cluster;
        provisioned = w1;
        orig = orig;
        others = others;
        changed = changed;
        patched = w2;
        command = token_command A H o h service resources;
        has_namespace = there;
        is_there =
            ensure_provisioning_cluster-IsThere A h service ns provisioning_cluster w w1 made;
        is_listed = listed;
        is_patched = patched;
        has_command = command;
        has_agent = agent;
      }

  deploy_in-Imported :
      (members : HasMembers o) (w : A.World)
      → (deploy_in A H o h service (H.get_namespace service.namespace w) w).0 ≡ none
      → Imported w (deploy_in A H o h service (H.get_namespace service.namespace w) w).1
  unfolding deploy_in
  deploy_in-Imported members w e = elim (Result-cases (H.get_namespace service.namespace w)) [
    | inr (failure, failed) ↦ cc (rw (failed, deploy_in) at e)
    | inl (ns, there) ↦
        rw (there, deploy_in)
          (await_rancher-Imported members ns w (ensure_provisioning_cluster A h service ns w) there
            refl (rw (there, deploy_in) at e))
  ]

  deploy_reached :
      (w : A.World)
      → service.cluster_ip ≢ "None"
      → get service.annotations annotation_skip_import ≢ "true"
      → deploy_vcluster_rancher_cluster A H o h service w
        ≡ deploy_in A H o h service (H.get_namespace service.namespace w) w
  unfolding deploy_vcluster_rancher_cluster
  deploy_reached w has_ip imported = ground (
    arith,
    eq_iff service.cluster_ip "None",
    eq_iff (get service.annotations annotation_skip_import) "true",
  )

  -- A reconciliation without an error, of a service in the cache that is to be imported and is not
  -- being deleted, has gone all the way. The first provisioning cluster listed with the UID of the
  -- service is there, or one with that UID, the name of this host cluster and the project of the
  -- namespace has been sent to the server, which took it or had one with its name. Then a patch of
  -- the first management cluster listed with that UID has been accepted, with the service's labels
  -- where they are synced, whatever the order in which sets and maps are walked, and, unless the
  -- provisioning cluster is ready, with the finalizer and the label for its cleanup where the
  -- service asks for it. After that an agent's pod is there; or the failed jobs before one that has
  -- succeeded have been deleted; or all failed jobs have been deleted and a job has been created
  -- that runs the command of the registration token of that management cluster, or no command if
  -- the provisioning cluster is ready.
  pub reconcile-Imported :
      (members : HasMembers o) (item : Item) (w : A.World)
      → H.get_by_key item.key w ≡ ok (some service)
      → service.deleting ≡ false
      → service.cluster_ip ≢ "None"
      → get service.annotations annotation_skip_import ≢ "true"
      → (reconcile A H o h item w).0 ≡ none
      → Imported w (reconcile A H o h item w).1
  unfolding reconcile
  reconcile-Imported members item w cached alive has_ip imported e =
      let reached = deploy_reached w has_ip imported in
      let found : reconcile A H o h item w ≡ deploy_vcluster_rancher_cluster A H o h service w =
        ground (arith, cached, alive) in
      rw found (rw reached (deploy_in-Imported members w (rw reached at (rw found at e))))
