-- ===== src/Services/Agent/Finished.antt =====
-- What the step of the agent has done when it gives no error.
use vcluster_rancher_operato.Prelude.{
  ◌≡◌, refl, ◌⊎◌, inl, inr, false, Option, none, some, List, [], ◌∷◌, ltb, arith, String,
}
use vcluster_rancher_operato.Errors.{Error, ok, Result-cases}
use vcluster_rancher_operato.Unstructured.{Unstructured}
use vcluster_rancher_operato.Kube.{Service, Job}
use vcluster_rancher_operato.Services.Host.{HostApi}
use vcluster_rancher_operato.Services.Agent.{find_jobs, check_pods, ensure_agent_deployed}
use vcluster_rancher_operato.Services.Agent.Jobs.{
  job_with_command, command_of, first_settled, before_settled, delete_failed, unless_uncreated,
  conclude, check_jobs_lem,
}

module _ {World : Type 0} (H : HostApi World) (service : Service) where
  -- The settled job is no longer active, so that it has succeeded; without one, the job with the
  -- command has been created.
  abbrev IsInstalled : Option Job → String → World → World → Type 0
  IsInstalled (some j) command v w' = (ltb 0 j.active ≡ false) × (w' ≡ v)
  IsInstalled none command v w' = H.create_job (job_with_command service command) v ≡ (none, w')

  -- An agent's pod is there, or the jobs are listed, the failed ones before a settled one have been
  -- deleted, and then the agent is installed.
  abbrev pub HasAgent : String → World → World → Type 0
  HasAgent command w w' =
      ((pod : String) × (pods : List String) × (H.list_pods service.namespace
            "app=cattle-cluster-agent" w
          ≡ ok (pod ∷ pods))
        × (w' ≡ w))
      ⊎ ((jobs : List Job) × (v : World) × (H.list_pods service.namespace "app=cattle-cluster-agent"
              w
            ≡ ok [])
          × (H.list_jobs service.namespace "vcluster.loft.sh/install-job=true" w ≡ ok jobs)
          × (delete_failed H service (before_settled jobs) w ≡ (none, v))
          × IsInstalled (first_settled jobs) command v w')

  module _ (token : Unstructured) where
    created-none :
        (r : Option Error × World)
        → (unless_uncreated r).0 ≡ none
        → r ≡ (none, (unless_uncreated r).1)
    created-none (none, w) h = refl
    created-none (some e, w) h = cc

    conclude-none :
        (settled : Option Job) (r : Option Error × World)
        → (conclude H service token settled r).0 ≡ none
        → (r ≡ (none, r.1))
          × IsInstalled settled (command_of token) r.1 (conclude H service token settled r).1
    conclude-none none (some e, w) h = cc
    conclude-none (some j) (some e, w) h = cc
    conclude-none none (none, w) h =
        (refl, created-none (H.create_job (job_with_command service (command_of token)) w) h)
    conclude-none (some j) (none, w) h = (refl, (ground (arith, h), refl))

    find_jobs-HasAgent :
        (w : World)
        → H.list_pods service.namespace "app=cattle-cluster-agent" w ≡ ok []
        → (find_jobs H service token w).0 ≡ none
        → HasAgent (command_of token) w (find_jobs H service token w).1
    unfolding find_jobs
    find_jobs-HasAgent w no_pods h =
        elim (Result-cases (H.list_jobs service.namespace "vcluster.loft.sh/install-job=true" w)) [
          | inr (failure, failed) ↦ cc (rw (failed, find_jobs) at h)
          | inl (jobs, listed) ↦
              let deleted = delete_failed H service (before_settled jobs) w in
              let concluded = check_jobs_lem H service token jobs w in
              let (fine, installed) =
                conclude-none (first_settled jobs) deleted
                  (rw concluded at (rw (listed, find_jobs) at h)) in
              inr (
                jobs,
                deleted.1,
                no_pods,
                listed,
                fine,
                rw (listed, find_jobs) (rw concluded installed),
              )
        ]

    check_pods-HasAgent :
        (pods : List String) (w : World)
        → H.list_pods service.namespace "app=cattle-cluster-agent" w ≡ ok pods
        → (check_pods H service token (ok pods) w).0 ≡ none
        → HasAgent (command_of token) w (check_pods H service token (ok pods) w).1
    unfolding check_pods
    check_pods-HasAgent (pod ∷ pods) w listed h = inl (pod, pods, listed, refl)
    check_pods-HasAgent [] w listed h = find_jobs-HasAgent w listed h

    -- Without an error the agent is there, or a job has installed it or has been created to do so.
    pub ensure_agent_deployed-HasAgent :
        (w : World)
        → (ensure_agent_deployed H service token w).0 ≡ none
        → HasAgent (command_of token) w (ensure_agent_deployed H service token w).1
    unfolding ensure_agent_deployed check_pods
    ensure_agent_deployed-HasAgent w h =
        elim (Result-cases (H.list_pods service.namespace "app=cattle-cluster-agent" w)) [
          | inr (failure, failed) ↦ cc (rw (failed, ensure_agent_deployed) at h)
          | inl (pods, listed) ↦
              let reached : ensure_agent_deployed H service token w
                  ≡ check_pods H service token (ok pods) w =
                rw (listed, ensure_agent_deployed) refl in
              rw reached (check_pods-HasAgent pods w listed (rw reached at h))
        ]
