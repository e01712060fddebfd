-- ===== src/Kube.antt =====
-- The fields of Kubernetes objects of the host cluster that the operator reads or writes.
use vcluster_rancher_operato.Prelude.{ℕ, String, Bool}
use vcluster_rancher_operato.Maps.{StringMap}

-- `corev1.Service`
pub record Service : Type 0 where
  pub name : String
  pub namespace : String
  pub uid : String
  pub labels : StringMap
  pub annotations : StringMap
  pub cluster_ip : String
  -- whether `DeletionTimestamp` is set
  pub deleting : Bool

-- `corev1.Namespace`
pub record Namespace : Type 0 where
  pub labels : StringMap

-- `batchv1.Job` in a list of jobs: its name and the counts of its status
pub record Job : Type 0 where
  pub name : String
  pub failed : ℕ
  pub active : ℕ
  pub succeeded : ℕ

-- The fields of the job that installs the Rancher agent which depend on the vCluster.
pub record InstallJob : Type 0 where
  pub generate_name : String
  pub namespace : String
  pub labels : StringMap
  pub image : String
  pub script : String
  pub service_account_name : String
  pub secret_name : String
