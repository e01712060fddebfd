-- ===== src/Services/Agent/Jobs.antt =====
-- When a job is created, and which jobs are deleted.
use Prim.Native.String.{◌++◌ as ◌<>◌}
use vcluster_rancher_operato.Prelude.{
  String, ◌≡◌, refl, Bool, true, false, not, ◌&&◌, ◌||◌, Option, none, some, List, [], ◌∷◌, inl,
  inr, ltb, arith, Bool-cases, if◌then◌else◌,
}
use vcluster_rancher_operato.Strings.{replace_first}
use vcluster_rancher_operato.Errors.{Error, wrap, sentinel, agent_install_job_in_progress}
use vcluster_rancher_operato.Unstructured.{Unstructured, get_nested_string}
use vcluster_rancher_operato.Kube.{Service, Job, InstallJob}
use vcluster_rancher_operato.Services.Host.{HostApi}
use vcluster_rancher_operato.Services.Agent.{install_job, job_created, job_deleted, check_jobs}

-- The job that runs Rancher's command in the vCluster of the service.
abbrev pub job_with_command : Service → String → InstallJob
job_with_command service command = record {
  generate_name = "rancher-agent-install-";
  namespace = service.namespace;
  labels = ("vcluster.loft.sh/install-job", "true") ∷ [];
  image = "alpine/k8s:1.30.9";
  script =
      "cat /etc/config/config | sed 's/localhost:8443/"
      <> (service.cluster_ip
          <> (":443/g' > /tmp/vcluster-kc.yaml && "
              <> replace_first "kubectl " "kubectl --kubeconfig /tmp/vcluster-kc.yaml " command));
  service_account_name = "vc-" <> service.name;
  secret_name = "vc-" <> service.name;
}

abbrev pub command_of : Unstructured → String
command_of token = get_nested_string token.content ("status" ∷ "insecureCommand" ∷ [])

install_job_lem :
    (service : Service) (token : Unstructured)
    → install_job service token ≡ job_with_command service (command_of token)
unfolding install_job
install_job_lem service token = refl

-- A job that did not fail, and is active or has succeeded.
abbrev pub is_settled : Job → Bool
is_settled j = not (ltb 0 j.failed) && (ltb 0 j.active || ltb 0 j.succeeded)

abbrev pub has_failed : Job → Bool
has_failed j = ltb 0 j.failed

abbrev pub first_settled : List Job → Option Job
first_settled [] = none
first_settled (j ∷ jobs) = if is_settled j then some j else first_settled jobs

abbrev pub before_settled : List Job → List Job
before_settled [] = []
before_settled (j ∷ jobs) = if is_settled j then [] else j ∷ before_settled jobs

-- An error of a call of the API server ends the step with its message around it.
module _ {World : Type 0} where
  abbrev pub unless_undeleted :
      (World → Option Error × World) → Option Error × World → Option Error × World
  unless_undeleted rest (none, w) = rest w
  unless_undeleted rest (some e, w) =
      (some (wrap "failed to delete failed rancher cluster agent install job" e), w)

  abbrev pub unless_uncreated : Option Error × World → Option Error × World
  unless_uncreated (none, w) = (none, w)
  unless_uncreated (some e, w) =
      (some (wrap "failed to create job for deploying rancher agent in vCluster" e), w)

module _ {World : Type 0} (H : HostApi World) (service : Service) where
  -- The failed jobs deleted, in their order, up to the first deletion that fails.
  abbrev pub delete_failed : List Job → World → Option Error × World
  delete_failed [] w = (none, w)
  delete_failed (j ∷ jobs) w =
      let rest = delete_failed jobs in
      elim (has_failed j) [
        | true ↦ unless_undeleted rest (H.delete_job service.namespace j.name w)
        | false ↦ rest w
      ]

module _ {World : Type 0} (H : HostApi World) (service : Service) (token : Unstructured) where
  -- What follows when the jobs have been deleted: a settled job decides, or a job is created.
  abbrev pub conclude : Option Job → Option Error × World → Option Error × World
  conclude settled (some e, w) = (some e, w)
  conclude none (none, w) =
      unless_uncreated (H.create_job (job_with_command service (command_of token)) w)
  conclude (some j) (none, w) =
      (if ltb 0 j.active then some (sentinel agent_install_job_in_progress) else none, w)

  job_created_lem : (r : Option Error × World) → job_created H service token r ≡ unless_uncreated r
  job_created_lem (none, w) = refl
  job_created_lem (some e, w) = refl

  job_deleted-conclude :
      (settled : Option Job) (f g : World → Option Error × World) (r : Option Error × World)
      → ((v : World) → f v ≡ conclude settled (g v))
      → job_deleted H service token f r ≡ conclude settled (unless_undeleted g r)
  job_deleted-conclude settled f g (none, v) h = h v
  job_deleted-conclude settled f g (some e, v) h = refl

  -- The failed jobs in front of the first job that is active or has succeeded without a failure
  -- are deleted, and no others. If a deletion fails, that is the end, with its error. Else that
  -- first job decides: active, the install is in progress; succeeded, it is done; and only if there
  -- is none a job is created that runs the command of the token, and its error is returned.
  pub check_jobs_lem :
      (jobs : List Job) (w : World)
      → check_jobs H service token jobs w
        ≡ conclude (first_settled jobs) (delete_failed H service (before_settled jobs) w)
  unfolding check_jobs
  check_jobs_lem [] w =
      rw (← install_job_lem service token)
        (job_created_lem (H.create_job (install_job service token) w))
  check_jobs_lem (j ∷ jobs) w = elim (Bool-cases (has_failed j)) [
    | inl failed ↦
        rw (failed, check_jobs, first_settled, before_settled)
          (rw (failed, delete_failed)
            (job_deleted-conclude (first_settled jobs) (check_jobs H service token jobs)
              (delete_failed H service (before_settled jobs))
              (H.delete_job service.namespace j.name w) (λ v. check_jobs_lem jobs v)))
    | inr running ↦ ground (arith, check_jobs_lem jobs w)
  ]
