-- ===== src/Clusters/Peers/Invariant.antt =====
-- What starting and stopping handlers keeps.
use vcluster_rancher_operato.Prelude.{
  ℕ, ◌≤◌, String, ◌==◌, eq_iff, ◌≡◌, refl, none, some, arith, Bool-cases, Option-cases, inl, inr,
  sym, ◌∙◌,
}
use vcluster_rancher_operato.Maps.{lookup, delete}
use vcluster_rancher_operato.Maps.Laws.{lookup-insert, lookup-delete}
use vcluster_rancher_operato.Clusters.Peers.{Running, Peers, no_peers, start, cancel, stop}

-- Each peer's context runs a handler for that cluster, each running handler is the peer of its
-- cluster, and contexts that are still to be made run nothing.
pub record Inv (p : Peers) : Type 0 where
  pub peer_runs :
      (name : String) (c : ℕ)
      → lookup name p.peers ≡ some c
      → (h : Running) × (p.running c ≡ some h) × (h.reconciler.cluster_name ≡ name)
  pub runs_as_peer :
      (c : ℕ) (h : Running)
      → p.running c ≡ some h
      → lookup h.reconciler.cluster_name p.peers ≡ some c
  pub fresh : (c : ℕ) → p.next_context ≤ c → p.running c ≡ none

pub no_peers-Inv : Inv no_peers
unfolding lookup
no_peers-Inv = record {
  peer_runs = λ name c e. cc;
  runs_as_peer = λ c h e. cc;
  fresh = λ c h. refl;
}

module _ (p : Peers) (inv : Inv p) where
  open inv use {peer_runs, runs_as_peer, fresh}

  start-peer_runs :
      (h : Running) (name : String) (c : ℕ)
      → lookup name (start h p).peers ≡ some c
      → (k : Running) × ((start h p).running c ≡ some k) × (k.reconciler.cluster_name ≡ name)
  unfolding start
  start-peer_runs h name c e =
      let written = lookup-insert h.reconciler.cluster_name name p.next_context p.peers in
      elim (Bool-cases (h.reconciler.cluster_name == name)) [
        | inl same ↦
            (h, ground (arith, written), ground (arith, eq_iff h.reconciler.cluster_name name))
        | inr other ↦
            let (k, runs, named) = peer_runs name c (ground (arith, written)) in
            (k, ground (arith, runs, fresh c), named)
      ]

  start-runs_as_peer :
      (h : Running) (c : ℕ) (k : Running)
      → lookup h.reconciler.cluster_name p.peers ≡ none
      → (start h p).running c ≡ some k
      → lookup k.reconciler.cluster_name (start h p).peers ≡ some c
  unfolding start
  start-runs_as_peer h c k absent e = ground (
    arith,
    lookup-insert h.reconciler.cluster_name k.reconciler.cluster_name p.next_context p.peers,
    runs_as_peer c k,
    eq_iff h.reconciler.cluster_name k.reconciler.cluster_name,
  )

  -- A handler is started for a cluster that has none.
  pub start-Inv : (h : Running) → lookup h.reconciler.cluster_name p.peers ≡ none → Inv (start h p)
  unfolding start
  start-Inv h absent = record {
    peer_runs = start-peer_runs h;
    runs_as_peer = λ c k. start-runs_as_peer h c k absent;
    fresh = λ c after. ground (arith, fresh c);
  }

  stopped-peer_runs :
      (name : String) (context : ℕ)
      → lookup name p.peers ≡ some context
      → (other : String) (c : ℕ) → lookup other (delete name p.peers) ≡ some c
      → (k : Running) × (cancel context p.running c ≡ some k) × (k.reconciler.cluster_name ≡ other)
  stopped-peer_runs name context present other c e =
      let left = lookup-delete name other p.peers in
      elim (Bool-cases (name == other)) [
        | inl same ↦ cc (rw same at (sym left ∙ e))
        | inr differ ↦
            let (k, runs, named) = peer_runs other c (ground (arith, left)) in
            let (h, here, cancelled) = peer_runs name context present in
            (k, ground (arith, runs, named, here, cancelled, eq_iff name other), named)
      ]

  stopped-Inv :
      (name : String) (context : ℕ)
      → lookup name p.peers ≡ some context
      → Inv (record p { peers = delete name p.peers; running = cancel context p.running })
  stopped-Inv name context present = record {
    peer_runs = stopped-peer_runs name context present;
    runs_as_peer = λ c h e. ground (
      arith,
      lookup-delete name h.reconciler.cluster_name p.peers,
      runs_as_peer c h,
      eq_iff name h.reconciler.cluster_name,
    );
    fresh = λ c after. ground (arith, fresh c);
  }

  pub stop-Inv : (name : String) → Inv (stop name p)
  unfolding stop
  stop-Inv name = elim (Option-cases (lookup name p.peers)) [
    | inl absent ↦ rw (absent, stop) inv
    | inr (context, present) ↦ rw (present, stop) (stopped-Inv name context present)
  ]
