-- ===== src/Clusters/Peers/Histories.antt =====
-- The peers after any history of installations and stops, in any order: each holds the lock, so
-- concurrent reconciliations interleave at these steps only.
use vcluster_rancher_operato.Prelude.{
  ◌↔◌, ℕ, String, eq_iff, ◌≡◌, ◌≢◌, none, some, contains, arith, Bool-cases, Option-cases, inl, inr,
}
use vcluster_rancher_operato.Maps.{lookup, keys}
use vcluster_rancher_operato.Maps.Laws.{lookup-insert, lookup-delete, lookup_absent, lookup_present}
use vcluster_rancher_operato.Errors.{Result, ok, err}
use vcluster_rancher_operato.Config.{Config}
use vcluster_rancher_operato.Token.{KubeConfigs, rest_config_from_token}
use vcluster_rancher_operato.Clusters.Access.{HostClusters, get_cluster_client}
use vcluster_rancher_operato.Clusters.Peers.{
  Running, Peers, no_peers, new_handler, start, stop, install, with_config,
  sync_vcluster_install_handler,
}
use vcluster_rancher_operato.Clusters.Peers.Invariant.{Inv, no_peers-Inv, start-Inv, stop-Inv}

module _ (K : KubeConfigs) (World : Type 0) (rancher_token : String) (config : Config) where
  module _ (C : HostClusters K World) where
    install-Inv :
        (name : String) (r : Result C.ClusterClient) (p : Peers)
        → lookup name p.peers ≡ none
        → Inv p
        → Inv (install K C rancher_token config name r p).1
    unfolding install
    install-Inv name (err e) p absent inv = inv
    install-Inv name (ok cluster_client) p absent inv =
        elim (Option-cases (C.add_event_handler cluster_client)) [
          | inr (e, failed) ↦ rw (failed, install) inv
          | inl added ↦
              rw (added, install)
                (start-Inv p inv (new_handler K C rancher_token config name) absent)
        ]

    with_config-Inv :
        (name : String) (r : Result K.RestConfig) (p : Peers)
        → lookup name p.peers ≡ none
        → Inv p
        → Inv (with_config K C rancher_token config name r p).1
    unfolding with_config
    with_config-Inv name (err e) p absent inv = inv
    with_config-Inv name (ok rest_config) p absent inv =
        install-Inv name (get_cluster_client K C rest_config) p absent inv

    peer_installed :
        (name : String) (r : Result C.ClusterClient) (p : Peers)
        → (install K C rancher_token config name r p).0 ≡ none
        → (c : ℕ) × (lookup name (install K C rancher_token config name r p).1.peers ≡ some c)
    unfolding install start
    peer_installed name (err e) p fine = cc
    peer_installed name (ok cluster_client) p fine =
        elim (Option-cases (C.add_event_handler cluster_client)) [
          | inr (e, failed) ↦ cc (rw (failed, install) at fine)
          | inl added ↦ (
            p.next_context,
            rw (added, install)
                (ground (arith, lookup-insert name name p.next_context p.peers, eq_iff name name)),
          )
        ]

    peer_configured :
        (name : String) (r : Result K.RestConfig) (p : Peers)
        → (with_config K C rancher_token config name r p).0 ≡ none
        → (c : ℕ) × (lookup name (with_config K C rancher_token config name r p).1.peers ≡ some c)
    unfolding with_config
    peer_configured name (err e) p fine = cc
    peer_configured name (ok rest_config) p fine =
        peer_installed name (get_cluster_client K C rest_config) p fine

    peer_after :
        (name : String) (p : Peers)
        → (sync_vcluster_install_handler K C rancher_token config name p).0 ≡ none
        → (c : ℕ) × (lookup name
              (sync_vcluster_install_handler K C rancher_token config name p).1.peers
            ≡ some c)
    unfolding sync_vcluster_install_handler
    peer_after name p fine = elim (Bool-cases (contains name (keys p.peers))) [
      | inl known ↦ rw (known, sync_vcluster_install_handler) (lookup_present name p.peers known)
      | inr unknown ↦
          rw (unknown, sync_vcluster_install_handler)
            (peer_configured name (rest_config_from_token K name rancher_token) p
              (rw (unknown, sync_vcluster_install_handler) at fine))
    ]

    pub sync_vcluster_install_handler-Inv :
        (name : String) (p : Peers)
        → Inv p
        → Inv (sync_vcluster_install_handler K C rancher_token config name p).1
    unfolding sync_vcluster_install_handler
    sync_vcluster_install_handler-Inv name p inv =
        elim (Bool-cases (contains name (keys p.peers))) [
          | inl known ↦ rw (known, sync_vcluster_install_handler) inv
          | inr unknown ↦
              rw (unknown, sync_vcluster_install_handler)
                (with_config-Inv name (rest_config_from_token K name rancher_token) p
                  (lookup_absent name p.peers unknown) inv)
        ]

  -- The clients of a host cluster can be made at one time and not at another.
  pub data Step (p : Peers) : Peers → Type 1 where
    installs :
        (C : HostClusters K World) (name : String)
        → Step p (sync_vcluster_install_handler K C rancher_token config name p).1
    stops : (name : String) → Step p (stop name p)

  pub data Reach : Peers → Type 1 where
    begin : Reach no_peers
    later : {p q : Peers} → Reach p → Step p q → Reach q

  Step-Inv : {p q : Peers} → Step p q → Inv p → Inv q
  Step-Inv {p} (installs C name) inv = sync_vcluster_install_handler-Inv C name p inv
  Step-Inv {p} (stops name) inv = stop-Inv p inv name

  pub Reach-Inv : {p : Peers} → Reach p → Inv p
  Reach-Inv begin = no_peers-Inv
  Reach-Inv (later r st) = Step-Inv st (Reach-Inv r)

  lookup-stop : (name : String) (p : Peers) → lookup name (stop name p).peers ≡ none
  unfolding stop
  lookup-stop name p = elim (Option-cases (lookup name p.peers)) [
    | inl absent ↦ rw (absent, stop) absent
    | inr (c, present) ↦
        rw (present, stop) (ground (arith, lookup-delete name name p.peers, eq_iff name name))
  ]

  -- After any history, stopping the handler of a host cluster leaves none running for it.
  pub none_left :
      (p : Peers) (name : String) (c : ℕ) (h : Running)
      → Reach p
      → (stop name p).running c ≡ some h
      → h.reconciler.cluster_name ≢ name
  none_left p name c h r runs e =
      let peer = (stop-Inv p (Reach-Inv r) name).runs_as_peer c h runs in
      ground (arith, peer, e, lookup-stop name p)

  stop_spares :
      (p : Peers) (name : String) (c : ℕ) (h : Running)
      → Reach p
      → p.running c ≡ some h
      → h.reconciler.cluster_name ≢ name
      → (stop name p).running c ≡ some h
  unfolding stop
  stop_spares p name c h r here other = elim (Option-cases (lookup name p.peers)) [
    | inl absent ↦ rw (absent, stop) here
    | inr (context, present) ↦
        let (k, runs, named) = (Reach-Inv r).peer_runs name context present in
        rw (present, stop) (ground (arith, runs, named, here, other))
  ]

  stop_subset :
      (p : Peers) (name : String) (c : ℕ) (h : Running)
      → (stop name p).running c ≡ some h
      → p.running c ≡ some h
  unfolding stop
  stop_subset p name c h e = elim (Option-cases (lookup name p.peers)) [
    | inl absent ↦ rw (absent, stop) at e
    | inr (context, present) ↦ let runs = rw (present, stop) at e in ground (arith, runs)
  ]

  -- Stopping the handler of a host cluster stops all of its handlers and no other.
  pub stop_runs_iff :
      (p : Peers) (name : String) (c : ℕ) (h : Running)
      → Reach p
      → ((stop name p).running c ≡ some h)
        ↔ ((p.running c ≡ some h) × (h.reconciler.cluster_name ≢ name))
  stop_runs_iff p name c h r = (
    λ runs. (stop_subset p name c h runs, none_left p name c h r runs),
    λ both. stop_spares p name c h r both.0 both.1,
  )

  -- An installation without error leaves a handler running for the host cluster.
  pub one_started :
      (C : HostClusters K World) (p : Peers) (name : String)
      → Reach p
      → (sync_vcluster_install_handler K C rancher_token config name p).0 ≡ none
      → (c : ℕ) × (h : Running) × ((sync_vcluster_install_handler K C rancher_token config name
              p).1.running
            c
          ≡ some h)
        × (h.reconciler.cluster_name ≡ name)
  one_started C p name r fine =
      let (c, peer) = peer_after C name p fine in
      let (h, runs, named) = (Reach-Inv (later r (installs C name))).peer_runs name c peer in
      (c, h, runs, named)
