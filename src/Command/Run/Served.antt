-- ===== src/Command/Run/Served.antt =====
-- The whole of `main`, from the manager that it starts.
use vcluster_rancher_operato.Prelude.{
  String, ◌==◌, eq_iff, ◌≡◌, ◌≢◌, ◌↔◌, ap, ◌∙◌, Option, none, some, List, [], ◌∷◌, ◌++◌, arith,
  Bool-cases, inl, inr,
}
use vcluster_rancher_operato.Errors.{Result, ok, Result-cases}
use vcluster_rancher_operato.Config.{load_config_from_env}
use vcluster_rancher_operato.Client.{Api}
use vcluster_rancher_operato.Token.{KubeConfigs, get_token, rest_config_from_token}
use vcluster_rancher_operato.Clusters.Watch.{Setup, setup_with_manager}
use vcluster_rancher_operato.Command.{Flags, manager_options, ClusterReconciler, Runtime}
use vcluster_rancher_operato.Command.Run.{
  next, or_exit, Proceed, proceed, cert_watcher, local_cluster, token_of_rancher, made_manager,
  set_up, watching, serve, run_manager, main, with_manager, with_token,
}
use vcluster_rancher_operato.Command.Run.Steps.{next-some, or_exit-some}
use vcluster_rancher_operato.Command.Run.Parts.{
  Part, controller, healthz, readyz, watchers, watched, Registers, parts-exit_on, Served,
  serve-Served,
}

module _ (A : Api) (K : KubeConfigs) (R : Runtime A K.RestConfig)
    (generate : A.World → Result String) (getenv : String → String) (flags : Flags)
    (registers : Registers R) where
  open registers use {parts}

  abbrev pub reconciler : String → ClusterReconciler
  reconciler rancher_token = record {
    config = load_config_from_env getenv;
    rancher_token = rancher_token;
  }

  abbrev pub watches : Setup A
  watches = setup_with_manager A R.to_api_version_and_kind

  -- The parts of the manager, the last first.
  abbrev pub all_parts :
      Option R.CertWatcher → Option R.CertWatcher → String → List (Part R.CertWatcher)
  all_parts webhook metrics rancher_token =
      readyz "readyz" ∷ healthz "healthz" ∷ watchers webhook
      ++ (watchers metrics ++ controller (watched watches) (reconciler rancher_token) ∷ [])

  with_manager-Served :
      (webhook metrics : Option R.CertWatcher) (rancher_token : String) (m : R.Manager)
      (w : A.World)
      → parts m w ≡ []
      → (with_manager A K R generate getenv flags webhook metrics rancher_token m w).0
        ≡ some proceed
      → Served A K R generate getenv flags registers m (all_parts webhook metrics rancher_token)
  unfolding with_manager set_up
  with_manager-Served webhook metrics rancher_token m w fresh e =
      let sets_up = set_up A K R generate getenv flags rancher_token m in
      let serves : Proceed → A.World → Option Proceed × A.World =
        λ _. serve A K R generate getenv flags m webhook metrics in
      let (u, ready, e1) = next-some sets_up serves w proceed e in
      let r = reconciler rancher_token in
      let added =
        parts-exit_on A K R generate getenv flags registers m (R.complete watches r m w) u
          (controller (watched watches) r ∷ parts m w) ready (registers.setup-parts watches r m w)
        ∙ ap (λ ps. controller (watched watches) r ∷ ps) fresh in
      rw added at
        (serve-Served A K R generate getenv flags registers m webhook metrics (sets_up w).1 e1)

  with_token-Served :
      (webhook metrics : Option R.CertWatcher) (rancher_token : String) (w : A.World)
      → (with_token A K R generate getenv flags webhook metrics rancher_token w).0 ≡ some proceed
      → (m : R.Manager) × Served A K R generate getenv flags registers m
          (all_parts webhook metrics rancher_token)
  unfolding with_token made_manager
  with_token-Served webhook metrics rancher_token w e =
      let options = manager_options flags webhook metrics in
      let makes = made_manager A K R generate getenv flags options rancher_token in
      let (m, made, e1) =
        next-some makes (with_manager A K R generate getenv flags webhook metrics rancher_token) w
          proceed e in
      elim (Result-cases (rest_config_from_token K "local" rancher_token)) [
        | inr (failure, failed) ↦ cc (rw (failed, made_manager) at made)
        | inl (rest_config, good) ↦
            let (new, same) =
              or_exit-some (R.new_manager rest_config options w) m
                (rw (good, made_manager) at made) in
            let same' : (makes w).1 ≡ (R.new_manager rest_config options w).1 =
              rw (good, made_manager) same in
            let fresh = ap (parts m) same' ∙ registers.new-parts rest_config options m w new in
            (m, with_manager-Served webhook metrics rancher_token m (makes w).1 fresh e1)
      ]

  watching-some :
      (r : Option R.CertWatcher × A.World) (c : Option R.CertWatcher)
      → (watching A K R generate getenv flags r).0 ≡ some c
      → c ≢ none
  watching-some (none, w) c e f = cc
  watching-some (some x, w) c e f = cc

  -- A watcher is there exactly when there is a path for it.
  cert_watcher-some :
      (path name key : String) (w : A.World) (c : Option R.CertWatcher)
      → (cert_watcher A K R generate getenv flags path name key w).0 ≡ some c
      → (c ≡ none) ↔ (path ≡ "")
  unfolding cert_watcher
  cert_watcher-some path name key w c e = elim (Bool-cases (path == "")) [
    | inl empty ↦
        let e' = rw (empty, cert_watcher) at e in ((λ _. (eq_iff path "").0 empty), λ _. cc)
    | inr given ↦
        let there =
          watching-some (or_exit (R.new_cert_watcher (R.join path name) (R.join path key) w)) c
            (rw (given, cert_watcher) at e) in
        ((λ f. absurd (there f)), λ f. ground (arith, given, f, eq_iff path ""))
  ]

  run_manager-Served :
      (webhook metrics : Option R.CertWatcher) (w : A.World)
      → (run_manager A K R generate getenv flags webhook metrics w).0 ≡ some proceed
      → (rancher_token : String) × (m : R.Manager) × (v : A.World) × ((get_token A generate v).0
          ≡ ok rancher_token)
        × Served A K R generate getenv flags registers m (all_parts webhook metrics rancher_token)
  unfolding run_manager token_of_rancher
  run_manager-Served webhook metrics w e =
      let gets = token_of_rancher A K R generate getenv flags in
      let goes_on = with_token A K R generate getenv flags webhook metrics in
      let local = local_cluster A K R generate getenv flags in
      let (_, reached, e1) = next-some local (λ _. next gets goes_on) w proceed e in
      let v = (local w).1 in
      let (rancher_token, got, e2) = next-some gets goes_on v proceed e1 in
      let (m, served) = with_token-Served webhook metrics rancher_token (gets v).1 e2 in
      (rancher_token, m, v, (or_exit-some (get_token A generate v) rancher_token got).0, served)

  -- If a manager keeps what it is given and the program ends without error, a manager has been
  -- started that had nothing else than: the cluster controller with its watches, the configuration
  -- of the environment and the token that GetToken has given, a certificate watcher for each of
  -- the two paths that is given, and the two checks.
  pub main-Served :
      (w : A.World)
      → (main A K R generate getenv flags w).0 ≡ some proceed
      → (webhook metrics : Option R.CertWatcher) × (rancher_token : String) × (m : R.Manager)
        × (v : A.World) × ((webhook ≡ none) ↔ (flags.webhook_cert_path ≡ ""))
        × ((metrics ≡ none) ↔ (flags.metrics_cert_path ≡ ""))
        × ((get_token A generate v).0 ≡ ok rancher_token)
        × Served A K R generate getenv flags registers m (all_parts webhook metrics rancher_token)
  unfolding main
  main-Served w e =
      let for_webhook =
        cert_watcher A K R generate getenv flags flags.webhook_cert_path flags.webhook_cert_name
          flags.webhook_cert_key in
      let for_metrics =
        cert_watcher A K R generate getenv flags flags.metrics_cert_path flags.metrics_cert_name
          flags.metrics_cert_key in
      let runs = run_manager A K R generate getenv flags in
      let (webhook, made, e1) =
        next-some for_webhook (λ webhook. next for_metrics (λ metrics. runs webhook metrics)) w
          proceed e in
      let w1 = (for_webhook w).1 in
      let (metrics, made', e2) =
        next-some for_metrics (λ metrics. runs webhook metrics) w1 proceed e1 in
      let (rancher_token, m, v, got, served) =
        run_manager-Served webhook metrics (for_metrics w1).1 e2 in
      (
        webhook,
        metrics,
        rancher_token,
        m,
        v,
        cert_watcher-some flags.webhook_cert_path flags.webhook_cert_name flags.webhook_cert_key w
            webhook made,
        cert_watcher-some flags.metrics_cert_path flags.metrics_cert_name flags.metrics_cert_key w1
            metrics made',
        got,
        served,
      )
