-- ===== src/Services/Host.antt =====
-- What a handler asks of the host cluster of its vClusters: the calls of client-go's clientset, and
-- the lookup in the informer's cache, over the state that they share with the API server.
pub mod Memory
use vcluster_rancher_operato.Prelude.{ℕ, String, Option, List}
use vcluster_rancher_operato.Errors.{Error, Result}
use vcluster_rancher_operato.Kube.{Service, Namespace, Job, InstallJob}

pub record HostApi (World : Type 0) : Type 0 where
  -- `Indexer.GetByKey`; none if no object has the key
  pub get_by_key : String → World → Result (Option Service)
  pub get_namespace : String → World → Result Namespace
  -- by namespace and name; only the error is used
  pub get_secret : String → String → World → Option Error
  -- by namespace and label selector: the names of the pods
  pub list_pods : String → String → World → Result (List String)
  -- by namespace and label selector
  pub list_jobs : String → String → World → Result (List Job)
  -- by namespace and name
  pub delete_job : String → String → World → Option Error × World
  pub create_job : InstallJob → World → Option Error × World
