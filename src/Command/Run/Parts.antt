-- ===== src/Command/Run/Parts.antt =====
-- What the manager has been given when it is started.
use vcluster_rancher_operato.Prelude.{
  String, ◌≡◌, refl, ap, ◌∙◌, Option, none, some, List, [], ◌∷◌, ◌++◌, map,
}
use vcluster_rancher_operato.Errors.{Error, Result, ok}
use vcluster_rancher_operato.Unstructured.{Fields}
use vcluster_rancher_operato.Client.{Api}
use vcluster_rancher_operato.Token.{KubeConfigs}
use vcluster_rancher_operato.Clusters.Watch.{Setup}
use vcluster_rancher_operato.Command.{Flags, ManagerOptions, ClusterReconciler, Runtime}
use vcluster_rancher_operato.Command.Run.{
  next, exit_on, Proceed, proceed, add_watcher, serve, add_readyz_check, start_manager,
  check_and_start, add_healthz_check,
}
use vcluster_rancher_operato.Command.Run.Steps.{next-some, exit_on-some}

-- The objects whose kinds are watched, for the clusters themselves first.
abbrev pub watched : {A : Api} → Setup A → List Fields
watched setup = setup.for_object ∷ map (λ w. w.object) setup.watches

-- What a manager has been given; of the controller, what it watches and the reconciler.
pub data Part (CertWatcher : Type 0) : Type 0 where
  controller : List Fields → ClusterReconciler → Part CertWatcher
  watcher : CertWatcher → Part CertWatcher
  healthz readyz : String → Part CertWatcher

abbrev pub watchers : {CertWatcher : Type 0} → Option CertWatcher → List (Part CertWatcher)
watchers none = []
watchers (some w) = watcher w ∷ []

-- A new manager has no parts, and each call without error adds one.
pub record Registers {A : Api} {RestConfig : Type 0} (R : Runtime A RestConfig) : Type 0 where
  pub parts : R.Manager → A.World → List (Part R.CertWatcher)
  pub new-parts :
      (rest_config : RestConfig) (options : ManagerOptions R.CertWatcher) (m : R.Manager)
      (w : A.World)
      → (R.new_manager rest_config options w).0 ≡ ok m
      → parts m (R.new_manager rest_config options w).1 ≡ []
  pub setup-parts :
      (setup : Setup A) (r : ClusterReconciler) (m : R.Manager) (w : A.World)
      → (R.complete setup r m w).0 ≡ none
      → parts m (R.complete setup r m w).1 ≡ controller (watched setup) r ∷ parts m w
  pub add-parts :
      (m : R.Manager) (c : R.CertWatcher) (w : A.World)
      → (R.add m c w).0 ≡ none
      → parts m (R.add m c w).1 ≡ watcher c ∷ parts m w
  pub healthz-parts :
      (m : R.Manager) (name : String) (w : A.World)
      → (R.add_healthz_check m name w).0 ≡ none
      → parts m (R.add_healthz_check m name w).1 ≡ healthz name ∷ parts m w
  pub readyz-parts :
      (m : R.Manager) (name : String) (w : A.World)
      → (R.add_readyz_check m name w).0 ≡ none
      → parts m (R.add_readyz_check m name w).1 ≡ readyz name ∷ parts m w

module _ (A : Api) (K : KubeConfigs) (R : Runtime A K.RestConfig)
    (generate : A.World → Result String) (getenv : String → String) (flags : Flags)
    (registers : Registers R) where
  open registers use {parts}

  -- The parts after a step that has not exited.
  pub parts-exit_on :
      (m : R.Manager) (r : Option Error × A.World) (u : Proceed) (ps : List (Part R.CertWatcher))
      → (exit_on r).0 ≡ some u
      → (r.0 ≡ none → parts m r.1 ≡ ps)
      → parts m (exit_on r).1 ≡ ps
  parts-exit_on m r u ps e after =
      let (fine, same) = exit_on-some r u e in ap (parts m) same ∙ after fine

  parts-add_watcher :
      (m : R.Manager) (c : Option R.CertWatcher) (w : A.World) (u : Proceed)
      → (add_watcher A K R generate getenv flags m c w).0 ≡ some u
      → parts m (add_watcher A K R generate getenv flags m c w).1 ≡ watchers c ++ parts m w
  unfolding add_watcher
  parts-add_watcher m none w u e = refl
  parts-add_watcher m (some c) w u e =
      parts-exit_on m (R.add m c w) u (watcher c ∷ parts m w) e (registers.add-parts m c w)

  module _ (m : R.Manager) where
    -- The manager is started, and returns without error, when it has these parts.
    abbrev pub Served : List (Part R.CertWatcher) → Type 0
    Served ps = (w : A.World) × (parts m w ≡ ps) × ((R.start m w).0 ≡ none)

    check_and_start-Served :
        (w : A.World)
        → (check_and_start A K R generate getenv flags m w).0 ≡ some proceed
        → Served (readyz "readyz" ∷ healthz "healthz" ∷ parts m w)
    unfolding check_and_start add_healthz_check add_readyz_check start_manager
    check_and_start-Served w e =
        let starts : Proceed → A.World → Option Proceed × A.World =
          λ _. start_manager A K R generate getenv flags m in
        let checks = add_readyz_check A K R generate getenv flags m in
        let (u, healthy, e1) =
          next-some (add_healthz_check A K R generate getenv flags m) (λ _. next checks starts) w
            proceed e in
        let w1 = (add_healthz_check A K R generate getenv flags m w).1 in
        let (v, is_ready, e2) = next-some checks starts w1 proceed e1 in
        let p1 =
          parts-exit_on m (R.add_healthz_check m "healthz" w) u (healthz "healthz" ∷ parts m w)
            healthy (registers.healthz-parts m "healthz" w) in
        let p2 =
          parts-exit_on m (R.add_readyz_check m "readyz" w1) v (readyz "readyz" ∷ parts m w1)
            is_ready (registers.readyz-parts m "readyz" w1) in
        let w2 = (add_readyz_check A K R generate getenv flags m w1).1 in
        (w2, p2 ∙ ap (λ ps. readyz "readyz" ∷ ps) p1, (exit_on-some (R.start m w2) proceed e2).0)

    pub serve-Served :
        (webhook metrics : Option R.CertWatcher) (w : A.World)
        → (serve A K R generate getenv flags m webhook metrics w).0 ≡ some proceed
        → Served (
            readyz "readyz" ∷ healthz "healthz" ∷ watchers webhook
            ++ (watchers metrics ++ parts m w))
    unfolding serve
    serve-Served webhook metrics w e =
        let checks : Proceed → A.World → Option Proceed × A.World =
          λ _. check_and_start A K R generate getenv flags m in
        let adds = add_watcher A K R generate getenv flags m in
        let (u, first, e1) =
          next-some (adds metrics) (λ _. next (adds webhook) checks) w proceed e in
        let w1 = (adds metrics w).1 in
        let (v, second, e2) = next-some (adds webhook) checks w1 proceed e1 in
        let all =
          parts-add_watcher m webhook w1 v second
          ∙ ap (λ ps. watchers webhook ++ ps) (parts-add_watcher m metrics w u first) in
        rw (← all) (check_and_start-Served (adds webhook w1).1 e2)
