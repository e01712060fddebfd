-- ===== src/Services/Agent/Safety.antt =====
-- What is written about jobs.
use vcluster_rancher_operato.Prelude.{
  String, refl, Option, none, some, List, [], ◌∷◌, inl, inr, ltb,
}
use vcluster_rancher_operato.Errors.{Error, Result, ok, err, Result-cases}
use vcluster_rancher_operato.Unstructured.{Unstructured}
use vcluster_rancher_operato.Client.{Api}
use vcluster_rancher_operato.Kube.{Service, Job}
use vcluster_rancher_operato.Services.Defs.{Handler}
use vcluster_rancher_operato.Services.Host.{HostApi}
use vcluster_rancher_operato.Services.Writes.{
  Writes, create_job, delete_job, nothing, one_write, Writes-trans, Writes-if,
}
use vcluster_rancher_operato.Services.Permitted.{Permitted}
use vcluster_rancher_operato.Services.Agent.{
  install_job, job_deleted, check_jobs, find_jobs, check_pods, ensure_agent_deployed,
}

module _ (h : Handler) (A : Api) (H : HostApi A.World) (service : Service)
    (token : Unstructured) where
  job_deleted-Writes :
      (rest : A.World → Option Error × A.World) (w v : A.World) (e : Option Error)
      → Writes A H (Permitted h) w v
      → ((u : A.World) → Writes A H (Permitted h) u (rest u).1)
      → Writes A H (Permitted h) w (job_deleted H service token rest (e, v)).1
  job_deleted-Writes rest w v none first later = Writes-trans first (later v)
  job_deleted-Writes rest w v (some e) first later = first

  check_jobs-Writes :
      (jobs : List Job) (w : A.World)
      → Writes A H (Permitted h) w (check_jobs H service token jobs w).1
  unfolding check_jobs install_job
  check_jobs-Writes [] w = one_write (create_job (install_job service token)) w refl
  check_jobs-Writes (j ∷ jobs) w =
      Writes-if (ltb 0 j.failed) _ _
        (λ _.
          job_deleted-Writes (check_jobs H service token jobs) w _ _
            (one_write (delete_job service.namespace j.name) w tt) (check_jobs-Writes jobs))
        (λ _.
          Writes-if (ltb 0 j.active) _ _ (λ _. nothing)
            (λ _. Writes-if (ltb 0 j.succeeded) _ _ (λ _. nothing) (λ _. check_jobs-Writes jobs w)))

  find_jobs-Writes : (w : A.World) → Writes A H (Permitted h) w (find_jobs H service token w).1
  unfolding find_jobs
  find_jobs-Writes w =
      elim (Result-cases (H.list_jobs service.namespace "vcluster.loft.sh/install-job=true" w)) [
        | inl (jobs, e) ↦ rw (e, find_jobs) (check_jobs-Writes jobs w)
        | inr (failure, e) ↦ rw (e, find_jobs) nothing
      ]

  check_pods-Writes :
      (pods : Result (List String)) (w : A.World)
      → Writes A H (Permitted h) w (check_pods H service token pods w).1
  unfolding check_pods
  check_pods-Writes (err e) w = nothing
  check_pods-Writes (ok (pod ∷ pods)) w = nothing
  check_pods-Writes (ok []) w = find_jobs-Writes w

  pub ensure_agent_deployed-Writes :
      (w : A.World) → Writes A H (Permitted h) w (ensure_agent_deployed H service token w).1
  unfolding ensure_agent_deployed
  ensure_agent_deployed-Writes w = check_pods-Writes _ w
