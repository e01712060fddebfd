-- ===== src/Examples/Data.antt =====
-- A vCluster "vc" in the namespace "team" of the host cluster "c-m-1".
use vcluster_rancher_operato.Prelude.{true, false, [], ◌∷◌, refl}
use vcluster_rancher_operato.Config.{Config}
use vcluster_rancher_operato.Unstructured.{
  Unstructured, end, cluster_provisioning_cattle, clusters_management_cattle, field, obj, bool,
}
use vcluster_rancher_operato.Constants.{label_vcluster_service_uid, label_host_cluster_name}
use vcluster_rancher_operato.Client.Memory.{Memory}
use vcluster_rancher_operato.Kube.{Service}
use vcluster_rancher_operato.Queue.{Item}
use vcluster_rancher_operato.Services.Defs.{Handler}
use vcluster_rancher_operato.Services.Labels.{Orders, HasMembers}

abbrev pub config : Config
config = record {
  fleet_default_workspace = "fleet-default";
  fleet_project_uid_to_workspace_mappings = ("p-uid", "team-a") ∷ [];
  fleet_auto_create_workspace = true;
  service_sync_include_label_keys = "environment" ∷ [];
  service_sync_exclude_label_keys = "org.company/internal" ∷ [];
  service_sync_include_label_keys_with_prefix = "org.company/" ∷ [];
  service_sync_exclude_label_keys_with_prefix = [];
}

abbrev pub handler : Handler
handler = record { cluster_name = "c-m-1"; config = config }

abbrev pub service : Service
service = record {
  name = "vc";
  namespace = "team";
  uid = "uid-1";
  labels = ("org.company/tier", "gold") ∷ ("app", "vcluster") ∷ [];
  annotations = ("loft.sh/uninstall-on-cluster-delete", "true") ∷ [];
  cluster_ip = "10.0.0.1";
  deleting = false;
}

abbrev pub item : Item
item = record { key = "team/vc"; uid = "uid-1" }

abbrev pub start : Memory
start = record {
  objects = [];
  services = ("team/vc", service) ∷ [];
  namespaces = ("team", record { labels = [] }) ∷ [];
  secrets = "vc-vc" ∷ [];
  pods = [];
  jobs = [];
  created_jobs = [];
}

-- The provisioning cluster of the vCluster, and its management cluster.
abbrev pub provisioning_cluster : Unstructured
provisioning_cluster = record {
  gvk = cluster_provisioning_cattle;
  name = "c-m-1-team-vc";
  generate_name = "";
  namespace = "fleet-default";
  uid = "uid-of-c-m-1-team-vc";
  labels = (label_vcluster_service_uid, "uid-1") ∷ (label_host_cluster_name, "c-m-1") ∷ [];
  finalizers = [];
  deleting = false;
  content = field "status" (obj (field "ready" (bool true) end)) end;
}

abbrev pub management_cluster : Unstructured
management_cluster = record provisioning_cluster {
  gvk = clusters_management_cattle;
  name = "c-m-2";
  namespace = "";
  uid = "uid-of-c-m-2";
  content = end;
}

abbrev pub provisioned : Memory
provisioned = record start { objects = provisioning_cluster ∷ [] }

abbrev pub ready : Memory
ready = record start { objects = provisioning_cluster ∷ management_cluster ∷ [] }

abbrev pub orders : Orders
orders = record { sorted = λ ks. ks; range = λ ks. ks }

pub orders-HasMembers : HasMembers orders
orders-HasMembers = record { any-sorted = λ p ks. refl; any-range = λ p ks. refl }
