-- ===== src/Command.antt =====
-- cmd/main.go: flags, TLS and the set-up of the manager. What flag.Parse leaves in the variables is
-- the argument `Flags`, and certwatcher and controller-runtime are the parameter `Runtime`.
pub mod Http2
pub mod Run
use vcluster_rancher_operato.Prelude.{
  String, Bool, true, false, not, Option, none, some, List, [], ◌∷◌, ◌++◌, if◌then◌else◌,
}
use vcluster_rancher_operato.Errors.{Error, Result, ok, err}
use vcluster_rancher_operato.Config.{Config}
use vcluster_rancher_operato.Unstructured.{Gvk}
use vcluster_rancher_operato.Client.{Api}
use vcluster_rancher_operato.Clusters.Watch.{Setup}

-- The variables of the flags.
pub record Flags : Type 0 where
  pub metrics_addr : String
  pub metrics_cert_path : String
  pub metrics_cert_name : String
  pub metrics_cert_key : String
  pub webhook_cert_path : String
  pub webhook_cert_name : String
  pub webhook_cert_key : String
  pub enable_leader_election : Bool
  pub probe_addr : String
  pub secure_metrics : Bool
  pub enable_http2 : Bool

abbrev pub default_flags : Flags
default_flags = record {
  metrics_addr = "0";
  metrics_cert_path = "";
  metrics_cert_name = "tls.crt";
  metrics_cert_key = "tls.key";
  webhook_cert_path = "";
  webhook_cert_name = "tls.crt";
  webhook_cert_key = "tls.key";
  enable_leader_election = false;
  probe_addr = ":8081";
  secure_metrics = true;
  enable_http2 = false;
}

-- The fields of `tls.Config` that are set; a certificate comes from a watcher.
pub record TlsConfig (CertWatcher : Type 0) : Type 0 where
  pub next_protos : List String
  pub get_certificate : Option CertWatcher

-- The closures.
pub data TlsOpt (CertWatcher : Type 0) : Type 0 where
  disable_http2 : TlsOpt CertWatcher
  certificate_of : CertWatcher → TlsOpt CertWatcher

unfoldable pub apply_opt :
    {CertWatcher : Type 0} → TlsOpt CertWatcher → TlsConfig CertWatcher → TlsConfig CertWatcher
apply_opt disable_http2 c = record c { next_protos = "http/1.1" ∷ [] }
apply_opt (certificate_of watcher) c = record c { get_certificate = some watcher }

-- A slice that is appended to is full each time, so that no two of them share an array.
unfoldable pub tls_opts : {CertWatcher : Type 0} → Flags → List (TlsOpt CertWatcher)
tls_opts flags = if not flags.enable_http2 then disable_http2 ∷ [] else []

-- With the certificate of a server, if it has a watcher.
unfoldable pub server_tls_opts :
    {CertWatcher : Type 0} → Flags → Option CertWatcher → List (TlsOpt CertWatcher)
unfolding tls_opts
server_tls_opts flags none = tls_opts flags
server_tls_opts flags (some watcher) = tls_opts flags ++ certificate_of watcher ∷ []

-- What the manager is made with.
pub record ManagerOptions (CertWatcher : Type 0) : Type 0 where
  pub metrics_bind_address : String
  pub metrics_secure_serving : Bool
  pub metrics_authenticated : Bool
  pub metrics_tls_opts : List (TlsOpt CertWatcher)
  pub webhook_tls_opts : List (TlsOpt CertWatcher)
  pub health_probe_bind_address : String
  pub leader_election : Bool
  pub leader_election_id : String

unfoldable pub manager_options :
    {CertWatcher : Type 0}
    → Flags
    → Option CertWatcher
    → Option CertWatcher
    → ManagerOptions CertWatcher
unfolding server_tls_opts
manager_options flags webhook_cert_watcher metrics_cert_watcher = record {
  metrics_bind_address = flags.metrics_addr;
  metrics_secure_serving = flags.secure_metrics;
  metrics_authenticated = flags.secure_metrics;
  metrics_tls_opts = server_tls_opts flags metrics_cert_watcher;
  webhook_tls_opts = server_tls_opts flags webhook_cert_watcher;
  health_probe_bind_address = flags.probe_addr;
  leader_election = flags.enable_leader_election;
  leader_election_id = "a1f80ab4.loft.sh";
}

-- The fields of `ClusterReconciler` that are set.
pub record ClusterReconciler : Type 0 where
  pub config : Config
  pub rancher_token : String

pub record Runtime (A : Api) (RestConfig : Type 0) : Type 1 where
  pub CertWatcher : Type 0
  pub LocalConfig : Type 0
  pub Manager : Type 0
  -- `filepath.Join`
  pub join : String → String → String
  -- `certwatcher.New`
  pub new_cert_watcher : String → String → A.World → Result CertWatcher × A.World
  -- `ctrl.GetConfigOrDie`, `none` where it exits
  pub get_config_or_die : A.World → Option LocalConfig
  -- the error of `cluster.New`
  pub new_cluster : LocalConfig → A.World → Option Error
  pub new_manager : RestConfig → ManagerOptions CertWatcher → A.World → Result Manager × A.World
  -- `GroupVersionKind.ToAPIVersionAndKind`
  pub to_api_version_and_kind : Gvk → String × String
  -- the builder's `Complete`
  pub complete : Setup A → ClusterReconciler → Manager → A.World → Option Error × A.World
  pub add : Manager → CertWatcher → A.World → Option Error × A.World
  pub add_healthz_check : Manager → String → A.World → Option Error × A.World
  pub add_readyz_check : Manager → String → A.World → Option Error × A.World
  -- `Start`, until it returns
  pub start : Manager → A.World → Option Error × A.World
