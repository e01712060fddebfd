-- ===== src/Services/Agent.antt =====
-- The job that deploys the Rancher agent, `ensureAgentDeployed` in pkg/services/handler.go.
pub mod Safety
pub mod Finished
pub mod Jobs
use Prim.Native.String.{◌++◌ as ◌<>◌}
use vcluster_rancher_operato.Prelude.{
  String, Bool, true, false, Option, none, some, List, [], ◌∷◌, ltb, if◌then◌else◌,
}
use vcluster_rancher_operato.Strings.{replace_first}
use vcluster_rancher_operato.Errors.{
  Error, Result, ok, err, wrap, sentinel, agent_install_job_in_progress,
}
use vcluster_rancher_operato.Unstructured.{Unstructured, get_nested_string}
use vcluster_rancher_operato.Kube.{Service, Job, InstallJob}
use vcluster_rancher_operato.Services.Host.{HostApi}
use vcluster_rancher_operato.Services.Provisioning.{wrap_error}

-- `fmt.Sprintf` of the shell script; Rancher's command is pointed at the kubeconfig.
unfoldable pub install_script : String → String → String
unfolding replace_first
install_script cluster_ip command =
    "cat /etc/config/config | sed 's/localhost:8443/"
    <> (cluster_ip
        <> (":443/g' > /tmp/vcluster-kc.yaml && "
            <> replace_first "kubectl " "kubectl --kubeconfig /tmp/vcluster-kc.yaml " command))

unfoldable pub install_job : Service → Unstructured → InstallJob
unfolding install_script get_nested_string
install_job service cluster_registration_token = record {
  generate_name = "rancher-agent-install-";
  namespace = service.namespace;
  labels = ("vcluster.loft.sh/install-job", "true") ∷ [];
  image = "alpine/k8s:1.30.9";
  script =
      install_script service.cluster_ip
        (get_nested_string cluster_registration_token.content ("status" ∷ "insecureCommand" ∷ []));
  service_account_name = "vc-" <> service.name;
  secret_name = "vc-" <> service.name;
}

module _ {World : Type 0} (H : HostApi World) (service : Service) (token : Unstructured) where
  abbrev job_created : Option Error × World → Option Error × World
  job_created (e, w) =
      (wrap_error "failed to create job for deploying rancher agent in vCluster" e, w)

  abbrev job_deleted : (World → Option Error × World) → Option Error × World → Option Error × World
  job_deleted rest (none, w) = rest w
  job_deleted rest (some e, w) =
      (some (wrap "failed to delete failed rancher cluster agent install job" e), w)

  -- The loop over the jobs, and the creation of a new one behind it.
  pub check_jobs : List Job → World → Option Error × World
  unfolding install_job
  check_jobs [] w = job_created (H.create_job (install_job service token) w)
  check_jobs (j ∷ jobs) w =
      let rest = check_jobs jobs in
      if ltb 0 j.failed
      then job_deleted rest (H.delete_job service.namespace j.name w)
      else if ltb 0 j.active
      then (some (sentinel agent_install_job_in_progress), w)
      else if ltb 0 j.succeeded
      then (none, w)
      else rest w

  find_jobs : World → Option Error × World
  unfolding check_jobs
  find_jobs w = elim (H.list_jobs service.namespace "vcluster.loft.sh/install-job=true" w) [
    | err e ↦ (some (wrap "failed listing rancher cluster agent install jobs" e), w)
    | ok jobs ↦ check_jobs jobs w
  ]

  check_pods : Result (List String) → World → Option Error × World
  unfolding find_jobs
  check_pods (err e) w = (some (wrap "failed listing rancher cluster agent pods" e), w)
  check_pods (ok (pod ∷ pods)) w = (none, w)
  check_pods (ok []) w = find_jobs w

  -- `isReady` only chooses a log line.
  unfoldable pub ensure_agent_deployed : World → Option Error × World
  unfolding check_pods
  ensure_agent_deployed w =
      check_pods (H.list_pods service.namespace "app=cattle-cluster-agent" w) w
