-- ===== src/Command/Run.antt =====
-- `main` in cmd/main.go, step by step. A step that gives `none` has called os.Exit(1).
pub mod Parts
pub mod Served
pub mod Steps
use vcluster_rancher_operato.Prelude.{String, ◌==◌, Option, none, some, if◌then◌else◌}
use vcluster_rancher_operato.Errors.{Error, Result, ok, err}
use vcluster_rancher_operato.Config.{Config, load_config_from_env}
use vcluster_rancher_operato.Client.{Api}
use vcluster_rancher_operato.Clusters.Watch.{setup_with_manager}
use vcluster_rancher_operato.Token.{KubeConfigs, get_token, rest_config_from_token}
use vcluster_rancher_operato.Command.{
  Flags, ManagerOptions, manager_options, ClusterReconciler, Runtime,
}

-- A step that may exit, and the next one.
unfoldable pub next :
    {T U World : Type 0}
    → (World → Option T × World)
    → (T → World → Option U × World)
    → World
    → Option U × World
next step rest w = elim (step w).0 [ none ↦ (none, (step w).1) | some t ↦ rest t (step w).1 ]

abbrev pub or_exit : {T World : Type 0} → Result T × World → Option T × World
or_exit (ok t, w) = (some t, w)
or_exit (err e, w) = (none, w)

-- The result of a step that has none.
pub data Proceed : Type 0 where
  proceed : Proceed

abbrev pub exit_on : {World : Type 0} → Option Error × World → Option Proceed × World
exit_on (none, w) = (some proceed, w)
exit_on (some e, w) = (none, w)

module _ (A : Api) (K : KubeConfigs) (R : Runtime A K.RestConfig)
    (generate : A.World → Result String) (getenv : String → String) (flags : Flags) where
  open A use {World}
  open R use {CertWatcher, LocalConfig, Manager}

  abbrev pub watching : Option CertWatcher × World → Option (Option CertWatcher) × World
  watching (none, w) = (none, w)
  watching (some watcher, w) = (some (some watcher), w)

  pub cert_watcher : String → String → String → World → Option (Option CertWatcher) × World
  cert_watcher path name key w =
      if path == ""
      then (some none, w)
      else watching (or_exit (R.new_cert_watcher (R.join path name) (R.join path key) w))

  -- The client of the local cluster is the API server `A`.
  pub local_cluster : World → Option Proceed × World
  local_cluster w = elim (R.get_config_or_die w) [
    | none ↦ (none, w)
    | some local_config ↦ exit_on (R.new_cluster local_config w, w)
  ]

  pub token_of_rancher : World → Option String × World
  unfolding get_token
  token_of_rancher w = or_exit (get_token A generate w)

  pub made_manager : ManagerOptions CertWatcher → String → World → Option Manager × World
  unfolding rest_config_from_token
  made_manager options rancher_token w = elim (rest_config_from_token K "local" rancher_token) [
    | err e ↦ (none, w)
    | ok rest_config ↦ or_exit (R.new_manager rest_config options w)
  ]

  pub set_up : String → Manager → World → Option Proceed × World
  unfolding load_config_from_env setup_with_manager
  set_up rancher_token manager w =
      let reconciler : ClusterReconciler = record {
        config = load_config_from_env getenv;
        rancher_token = rancher_token;
      } in
      exit_on (R.complete (setup_with_manager A R.to_api_version_and_kind) reconciler manager w)

  pub add_watcher : Manager → Option CertWatcher → World → Option Proceed × World
  add_watcher manager none w = (some proceed, w)
  add_watcher manager (some watcher) w = exit_on (R.add manager watcher w)

  pub start_manager : Manager → World → Option Proceed × World
  start_manager manager w = exit_on (R.start manager w)

  pub add_readyz_check : Manager → World → Option Proceed × World
  add_readyz_check manager w = exit_on (R.add_readyz_check manager "readyz" w)

  pub add_healthz_check : Manager → World → Option Proceed × World
  add_healthz_check manager w = exit_on (R.add_healthz_check manager "healthz" w)

  -- From the checks to the end.
  pub check_and_start : Manager → World → Option Proceed × World
  unfolding next add_healthz_check add_readyz_check start_manager
  check_and_start manager =
      next (add_healthz_check manager)
        (λ _. next (add_readyz_check manager) (λ _. start_manager manager))

  pub serve : Manager → Option CertWatcher → Option CertWatcher → World → Option Proceed × World
  unfolding next add_watcher check_and_start
  serve manager webhook_cert_watcher metrics_cert_watcher =
      next (add_watcher manager metrics_cert_watcher)
        (λ _. next (add_watcher manager webhook_cert_watcher) (λ _. check_and_start manager))

  pub with_manager :
      Option CertWatcher → Option CertWatcher → String → Manager → World → Option Proceed × World
  unfolding next set_up serve
  with_manager webhook_cert_watcher metrics_cert_watcher rancher_token manager =
      next (set_up rancher_token manager)
        (λ _. serve manager webhook_cert_watcher metrics_cert_watcher)

  pub with_token : Option CertWatcher → Option CertWatcher → String → World → Option Proceed × World
  unfolding next made_manager with_manager manager_options
  with_token webhook_cert_watcher metrics_cert_watcher rancher_token =
      next
        (made_manager (manager_options flags webhook_cert_watcher metrics_cert_watcher)
          rancher_token)
        (with_manager webhook_cert_watcher metrics_cert_watcher rancher_token)

  pub run_manager : Option CertWatcher → Option CertWatcher → World → Option Proceed × World
  unfolding next local_cluster token_of_rancher with_token
  run_manager webhook_cert_watcher metrics_cert_watcher =
      next local_cluster
        (λ _. next token_of_rancher (with_token webhook_cert_watcher metrics_cert_watcher))

  -- `some` where it returns, and the process ends without error.
  unfoldable pub main : World → Option Proceed × World
  unfolding next cert_watcher run_manager
  main =
      next (cert_watcher flags.webhook_cert_path flags.webhook_cert_name flags.webhook_cert_key)
        (λ webhook_cert_watcher.
          next (cert_watcher flags.metrics_cert_path flags.metrics_cert_name flags.metrics_cert_key)
            (λ metrics_cert_watcher. run_manager webhook_cert_watcher metrics_cert_watcher))
