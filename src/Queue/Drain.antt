-- ===== src/Queue/Drain.antt =====
-- The loop of a worker on a queue that is shut down.
use vcluster_rancher_operato.Prelude.{
  ℕ, zero, suc, ◌<◌, ◌≡◌, refl, inl, inr, Option, none, some, List, arith, ◌∙◌, Bool-cases,
  Option-cases,
}
use vcluster_rancher_operato.Errors.{Error, Sentinel}
use vcluster_rancher_operato.Queue.{
  Item, WorkQueue, retry_interval, is_waiting, handle_err, process_next_work_item, run_worker,
}

-- How client-go's queue drains once it is shut down, in calls that follow each other. `waiting` is
-- the length of its list, and `size` counts the items that are dirty: those of the list, and those
-- that were added again while they were held, which `done` puts into the list. `get` takes one from
-- the list and cleans it, and gives none when the list is empty, whatever is held; no other call of
-- a worker makes an item dirty, since a queue that is shut down ignores what is added.
pub record IsDraining (W : WorkQueue) (IsShut : W.Q → Type 0) (size waiting : W.Q → ℕ)
    : Type 0 where
  pub get-shut : (q : W.Q) → IsShut q → IsShut (W.get q).1
  pub done-shut : (i : Item) (q : W.Q) → IsShut q → IsShut (W.done i q)
  pub after-shut : (i : Item) (d : ℕ) (q : W.Q) → IsShut q → IsShut (W.add_after i d q)
  pub limited-shut : (i : Item) (q : W.Q) → IsShut q → IsShut (W.add_rate_limited i q)
  pub forget-shut : (i : Item) (q : W.Q) → IsShut q → IsShut (W.forget i q)
  pub get-some : (q : W.Q) (i : Item) → (W.get q).0 ≡ some i → suc (size (W.get q).1) ≡ size q
  pub get-none : (q : W.Q) → (W.get q).0 ≡ none → waiting (W.get q).1 ≡ 0
  pub done-size : (i : Item) (q : W.Q) → IsShut q → size (W.done i q) ≡ size q
  pub after-size : (i : Item) (d : ℕ) (q : W.Q) → IsShut q → size (W.add_after i d q) ≡ size q
  pub limited-size : (i : Item) (q : W.Q) → IsShut q → size (W.add_rate_limited i q) ≡ size q
  pub forget-size : (i : Item) (q : W.Q) → IsShut q → size (W.forget i q) ≡ size q

module _ (W : WorkQueue) (IsShut : W.Q → Type 0) (size waiting : W.Q → ℕ)
    (laws : IsDraining W IsShut size waiting) {S : Type 0} (reconcile : Item → S → Option Error × S)
    (wait_errs : List (Option Sentinel)) where
  handle_err-IsShut :
      (e : Option Error) (i : Item) (q : W.Q)
      → IsShut q
      → IsShut (handle_err W wait_errs e i q) × (size (handle_err W wait_errs e i q) ≡ size q)
  unfolding handle_err
  handle_err-IsShut none i q shut = (laws.forget-shut i q shut, laws.forget-size i q shut)
  handle_err-IsShut (some e) i q shut =
      let forgotten = laws.forget-shut i q shut in
      elim (Bool-cases (is_waiting wait_errs e)) [
        | inl waits ↦ rw waits (
          laws.after-shut i retry_interval (W.forget i q) forgotten,
          laws.after-size i retry_interval (W.forget i q) forgotten ∙ laws.forget-size i q shut,
        )
        | inr other ↦ rw other (laws.limited-shut i q shut, laws.limited-size i q shut)
      ]

  -- On a queue that has been shut down, and that no other worker calls, the loop of a worker
  -- returns, whatever the reconciliations return, within as many rounds as there are dirty items
  -- and one more, and then the list of the queue is empty.
  pub run_worker_drains :
      (fuel : ℕ) (q : W.Q) (s : S)
      → IsShut q
      → size q < fuel
      → (q' : W.Q) × (s' : S) × (run_worker W reconcile wait_errs fuel (q, s) ≡ some (q', s'))
        × (waiting q' ≡ 0)
  unfolding run_worker process_next_work_item
  run_worker_drains zero q s shut enough = ground arith
  run_worker_drains (suc fuel) q s shut enough = elim (Option-cases (W.get q).0) [
    | inl empty ↦
        ((W.get q).1, s, rw (empty, run_worker, process_next_work_item) refl, laws.get-none q empty)
    | inr (item, got) ↦
        let (e, s') = reconcile item s in
        let handled = handle_err W wait_errs e item (W.get q).1 in
        let (still_shut, same) = handle_err-IsShut e item (W.get q).1 (laws.get-shut q shut) in
        let (q', s'', ran, drained) =
          run_worker_drains fuel (W.done item handled) s' (laws.done-shut item handled still_shut) (
            ground (
              arith,
              enough,
              laws.get-some q item got,
              laws.done-size item handled still_shut,
              same,
            )) in
        (q', s'', rw (got, run_worker, process_next_work_item) ran, drained)
  ]
