-- ===== src/Clusters/Peers/Hosted.antt =====
-- The host clusters for which a handler runs, as a set: what a history of the peers is about.
use vcluster_rancher_operato.Prelude.{
  ℕ, String, ◌≡◌, ◌≢◌, ◌↔◌, refl, sym, ap, ◌∙◌, ◌⊎◌, inl, inr, none, some, contains, ◌≤◌, eqb,
  arith, Bool-cases, Option-cases,
}
use vcluster_rancher_operato.Maps.{keys}
use vcluster_rancher_operato.Errors.{Result, ok, err}
use vcluster_rancher_operato.Config.{Config}
use vcluster_rancher_operato.Token.{KubeConfigs, rest_config_from_token}
use vcluster_rancher_operato.Clusters.Access.{HostClusters, get_cluster_client}
use vcluster_rancher_operato.Clusters.Peers.{
  Running, Peers, new_handler, start, stop, install, with_config, sync_vcluster_install_handler,
}
use vcluster_rancher_operato.Clusters.Peers.Histories.{Reach, Reach-Inv, stop_runs_iff, one_started}

-- A handler runs for the host cluster.
abbrev pub HasHandler : Peers → String → Type 0
HasHandler p name =
    (c : ℕ) × (h : Running) × (p.running c ≡ some h) × (h.reconciler.cluster_name ≡ name)

module _ (K : KubeConfigs) (World : Type 0) (rancher_token : String) (config : Config)
    (C : HostClusters K World) where
  install_kept :
      (name : String) (r : Result C.ClusterClient) (p : Peers)
      → (install K C rancher_token config name r p).0 ≢ none
      → (install K C rancher_token config name r p).1 ≡ p
  unfolding install
  install_kept name (err e) p failed = refl
  install_kept name (ok cluster_client) p failed =
      elim (Option-cases (C.add_event_handler cluster_client)) [
        | inr (e, refused) ↦ rw (refused, install) refl
        | inl added ↦ absurd (failed (rw (added, install) refl))
      ]

  with_config_kept :
      (name : String) (r : Result K.RestConfig) (p : Peers)
      → (with_config K C rancher_token config name r p).0 ≢ none
      → (with_config K C rancher_token config name r p).1 ≡ p
  unfolding with_config
  with_config_kept name (err e) p failed = refl
  with_config_kept name (ok rest_config) p failed =
      install_kept name (get_cluster_client K C rest_config) p failed

  installation_kept :
      (name : String) (p : Peers)
      → (sync_vcluster_install_handler K C rancher_token config name p).0 ≢ none
      → (sync_vcluster_install_handler K C rancher_token config name p).1 ≡ p
  unfolding sync_vcluster_install_handler
  installation_kept name p failed = elim (Bool-cases (contains name (keys p.peers))) [
    | inl known ↦ rw (known, sync_vcluster_install_handler) refl
    | inr unknown ↦
        rw (unknown, sync_vcluster_install_handler)
          (with_config_kept name (rest_config_from_token K name rancher_token) p
            (λ e. failed (rw (unknown, sync_vcluster_install_handler) e)))
  ]

  -- What runs after an installation: what ran before, and handlers of this cluster.
  IsGrown : String → Peers → Peers → Type 0
  IsGrown name p q =
      (c : ℕ) (h : Running)
      → ((p.running c ≡ some h → q.running c ≡ some h)
          × (q.running c ≡ some h → (p.running c ≡ some h) ⊎ (h.reconciler.cluster_name ≡ name)))

  install-IsGrown :
      (name : String) (r : Result C.ClusterClient) (p : Peers)
      → ((c : ℕ) → p.next_context ≤ c → p.running c ≡ none)
      → IsGrown name p (install K C rancher_token config name r p).1
  unfolding install start IsGrown
  install-IsGrown name (err e) p fresh c h = (λ x. x, inl)
  install-IsGrown name (ok cluster_client) p fresh c h =
      elim (Option-cases (C.add_event_handler cluster_client)) [
        | inr (e, refused) ↦ rw (refused, install) (λ x. x, inl)
        | inl added ↦
            rw (added, install)
              (
                λ x. ground (arith, x, fresh c),
                λ x. elim (Bool-cases (eqb c p.next_context)) [
                  | inl same ↦
                      let e : new_handler K C rancher_token config name ≡ h = cc (rw same at x) in
                      inr (ap (λ k. k.reconciler.cluster_name) (sym e))
                  | inr other ↦ inl (rw other at x)
                ],
              )
      ]

  with_config-IsGrown :
      (name : String) (r : Result K.RestConfig) (p : Peers)
      → ((c : ℕ) → p.next_context ≤ c → p.running c ≡ none)
      → IsGrown name p (with_config K C rancher_token config name r p).1
  unfolding with_config IsGrown
  with_config-IsGrown name (err e) p fresh c h = (λ x. x, inl)
  with_config-IsGrown name (ok rest_config) p fresh c h =
      install-IsGrown name (get_cluster_client K C rest_config) p fresh c h

  installation-IsGrown :
      (name : String) (p : Peers)
      → ((c : ℕ) → p.next_context ≤ c → p.running c ≡ none)
      → IsGrown name p (sync_vcluster_install_handler K C rancher_token config name p).1
  unfolding sync_vcluster_install_handler IsGrown
  installation-IsGrown name p fresh c h = elim (Bool-cases (contains name (keys p.peers))) [
    | inl known ↦ rw (known, sync_vcluster_install_handler) (λ x. x, inl)
    | inr unknown ↦
        rw (unknown, sync_vcluster_install_handler)
          (with_config-IsGrown name (rest_config_from_token K name rancher_token) p fresh c h)
  ]

  -- After any history, the host clusters with a handler are a set that the operations change as
  -- they should: an installation without error adds its cluster, one with an error changes nothing
  -- at all, and a stop takes its cluster away.
  pub peers_refine :
      (p : Peers) (name other : String)
      → Reach K World rancher_token config p
      → (let (e, q) = sync_vcluster_install_handler K C rancher_token config name p in
          (e ≡ none → HasHandler q other ↔ (HasHandler p other ⊎ (other ≡ name)))
          × (e ≢ none → q ≡ p))
        × (HasHandler (stop name p) other ↔ (HasHandler p other × (other ≢ name)))
  unfolding IsGrown
  peers_refine p name other r =
      let grown = installation-IsGrown name p (Reach-Inv K World rancher_token config r).fresh in
      (
        (
          λ fine. (
            λ (c, h, runs, named). elim ((grown c h).1 runs) [
              | inl before ↦ inl (c, h, before, named)
              | inr ours ↦ inr (sym named ∙ ours)
            ],
            λ either. elim either [
              | inl (c, h, runs, named) ↦ (c, h, (grown c h).0 runs, named)
              | inr same ↦
                  let (c, h, runs, named) =
                    one_started K World rancher_token config C p name r fine in
                  (c, h, runs, named ∙ sym same)
            ],
          ),
          installation_kept name p,
        ),
        (
          λ (c, h, runs, named).
              let (before, differs) =
                (stop_runs_iff K World rancher_token config p name c h r).0 runs in
              ((c, h, before, named), λ e. differs (named ∙ e)),
          λ ((c, h, runs, named), differs). (
            c,
            h,
            (stop_runs_iff K World rancher_token config p name c h r).1
                (runs, λ e. differs (sym named ∙ e)),
            named,
          ),
        ),
      )
