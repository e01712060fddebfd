-- ===== src/Services/Host/Memory.antt =====
-- A host cluster in memory: its jobs are the install jobs of one namespace, and its pods the
-- agents.
use vcluster_rancher_operato.Prelude.{
  String, ◌==◌, Option, none, some, List, [], ◌∷◌, ◌++◌, contains, if◌then◌else◌,
}
use vcluster_rancher_operato.Maps.{lookup}
use vcluster_rancher_operato.Errors.{Result, ok, err, api, not_found}
use vcluster_rancher_operato.Kube.{Job}
use vcluster_rancher_operato.Client.Memory.{Memory}
use vcluster_rancher_operato.Services.Host.{HostApi}

abbrev found {ℓ} : {A : Type ℓ} → Option A → Result A
found none = err (api not_found)
found (some a) = ok a

unfoldable pub remove_job : String → List Job → List Job
remove_job name [] = []
remove_job name (j ∷ jobs) =
    let rest = remove_job name jobs in if j.name == name then rest else j ∷ rest

abbrev pub memory_host : HostApi Memory
memory_host = record {
  get_by_key = λ key m. ok (lookup key m.services);
  get_namespace = λ name m. found (lookup name m.namespaces);
  get_secret = λ namespace name m. if contains name m.secrets then none else some (api not_found);
  list_pods = λ namespace selector m. ok m.pods;
  list_jobs = λ namespace selector m. ok m.jobs;
  delete_job = λ namespace name m. (none, record m { jobs = remove_job name m.jobs });
  create_job = λ job m. (none, record m { created_jobs = m.created_jobs ++ job ∷ [] });
}
