-- ===== src/Services/Resources/Ready.antt =====
-- The way of a cluster that is already provisioned.
use Prim.Native.String.{◌++◌ as ◌<>◌}
use vcluster_rancher_operato.Prelude.{◌≡◌, refl, ap, true, inl, inr, [], ◌∷◌, arith}
use vcluster_rancher_operato.Errors.{Result, ok, err, Result-cases}
use vcluster_rancher_operato.Constants.{label_vcluster_service_uid}
use vcluster_rancher_operato.Unstructured.{Unstructured, no_object, clusters_management_cattle}
use vcluster_rancher_operato.Client.{Api, get_first_with_label}
use vcluster_rancher_operato.Kube.{Service, InstallJob}
use vcluster_rancher_operato.Services.Defs.{Handler}
use vcluster_rancher_operato.Services.Host.{HostApi}
use vcluster_rancher_operato.Services.Labels.{Orders}
use vcluster_rancher_operato.Services.Agent.{install_job, ensure_agent_deployed}
use vcluster_rancher_operato.Services.Resources.{
  RancherResources, is_provisioned, ready_patched, patch_management_cluster, get_rancher_resources,
}

-- The job of the service, with nothing behind the final `&&` of its script.
abbrev pub job_without_command : Service → InstallJob
job_without_command service = record {
  generate_name = "rancher-agent-install-";
  namespace = service.namespace;
  labels = ("vcluster.loft.sh/install-job", "true") ∷ [];
  image = "alpine/k8s:1.30.9";
  script =
      "cat /etc/config/config | sed 's/localhost:8443/"
      <> (service.cluster_ip <> (":443/g' > /tmp/vcluster-kc.yaml && " <> ""));
  service_account_name = "vc-" <> service.name;
  secret_name = "vc-" <> service.name;
}

install_job-no_object :
    (service : Service) → install_job service no_object ≡ job_without_command service
unfolding install_job
install_job-no_object service = refl

module _ (A : Api) (H : HostApi A.World) (o : Orders) (h : Handler) (service : Service) where
  ready_patched-token :
      (r : Result Unstructured) (resources : RancherResources)
      → ready_patched A H o h service r ≡ ok resources
      → resources.cluster_registration_token ≡ no_object
  unfolding ready_patched
  ready_patched-token (ok cluster) resources e = ground arith
  ready_patched-token (err failure) resources e = cc

  -- No registration token is read for a cluster that is already provisioned.
  get_rancher_resources-token :
      (provisioning_cluster : Unstructured) (w w' : A.World) (resources : RancherResources)
      → is_provisioned provisioning_cluster ≡ true
      → get_rancher_resources A H o h service provisioning_cluster w ≡ (ok resources, w')
      → resources.cluster_registration_token ≡ no_object
  unfolding get_rancher_resources patch_management_cluster
  get_rancher_resources-token provisioning_cluster w w' resources ready e =
      let found =
        get_first_with_label A clusters_management_cattle label_vcluster_service_uid service.uid
          w in
      elim (Result-cases found) [
        | inl (orig, ours) ↦
            let patched = rw (ours, get_rancher_resources) at (ap (λ p. p.0) e) in
            ready_patched-token _ resources (rw (ready, patch_management_cluster) at patched)
        | inr (failure, failed) ↦ cc (rw (failed, get_rancher_resources) at (ap (λ p. p.0) e))
      ]

  agent_job :
      (w : A.World)
      → H.list_pods service.namespace "app=cattle-cluster-agent" w ≡ ok []
      → H.list_jobs service.namespace "vcluster.loft.sh/install-job=true" w ≡ ok []
      → (ensure_agent_deployed H service no_object w).1
        ≡ (H.create_job (job_without_command service) w).1
  unfolding ensure_agent_deployed
  agent_job w no_pods no_jobs = ground (arith, install_job-no_object service)

  -- Where a cluster is provisioned, and there is neither an agent pod nor an install job, a job is
  -- created whose script runs no command of Rancher: it ends in `&&`.
  pub ready_without_agent :
      (provisioning_cluster : Unstructured) (w w' : A.World) (resources : RancherResources)
      → is_provisioned provisioning_cluster ≡ true
      → get_rancher_resources A H o h service provisioning_cluster w ≡ (ok resources, w')
      → H.list_pods service.namespace "app=cattle-cluster-agent" w' ≡ ok []
      → H.list_jobs service.namespace "vcluster.loft.sh/install-job=true" w' ≡ ok []
      → (ensure_agent_deployed H service resources.cluster_registration_token w').1
        ≡ (H.create_job (job_without_command service) w').1
  unfolding ensure_agent_deployed
  ready_without_agent provisioning_cluster w w' resources ready e no_pods no_jobs =
      rw (get_rancher_resources-token provisioning_cluster w w' resources ready e)
        (agent_job w' no_pods no_jobs)
