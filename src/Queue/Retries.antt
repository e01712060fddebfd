-- ===== src/Queue/Retries.antt =====
-- How often and when an item comes back.
use vcluster_rancher_operato.Prelude.{
  ℕ, suc, ◌≡◌, true, Option, none, some, List, [], ◌∷◌, ◌++◌, if◌then◌else◌, All, length, replicate,
  replicate-append-cons, arith,
}
use vcluster_rancher_operato.Errors.{Error, Sentinel}
use vcluster_rancher_operato.Queue.{
  Item, WorkQueue, is_waiting, retry_interval, handle_err, process_next_work_item,
}
use vcluster_rancher_operato.Queue.Laws.{Delay, after, backoff, Observer, IsLawful}

-- The failures that are counted for the item after its error has been handled.
abbrev pub requeues_after : List (Option Sentinel) → Option Error → ℕ → ℕ
requeues_after wait_errs none n = 0
requeues_after wait_errs (some e) n = if is_waiting wait_errs e then 0 else suc n

-- What is scheduled for it.
abbrev pub rescheduled : List (Option Sentinel) → Option Error → Item → ℕ → List (Item × Delay)
rescheduled wait_errs none item n = []
rescheduled wait_errs (some e) item n =
    (item, if is_waiting wait_errs e then after retry_interval else backoff n) ∷ []

module _ (W : WorkQueue) (o : Observer W) (laws : IsLawful W o) where
  handle_err_lem :
      (wait_errs : List (Option Sentinel)) (e : Option Error) (item : Item) (q : W.Q)
      → let n = o.num_requeues q item in
        let q' = handle_err W wait_errs e item q in
        (o.num_requeues q' item ≡ requeues_after wait_errs e n)
        × (o.scheduled q' ≡ rescheduled wait_errs e item n ++ o.scheduled q)
        × (o.held q' ≡ o.held q)
  unfolding handle_err
  handle_err_lem wait_errs none item q =
      (laws.requeues-forget item q, laws.scheduled-forget item q, laws.held-forget item q)
  handle_err_lem wait_errs (some e) item q = ground (
    arith,
    laws.requeues-forget item q,
    laws.scheduled-forget item q,
    laws.held-forget item q,
    laws.requeues-after item retry_interval (W.forget item q),
    laws.scheduled-after item retry_interval (W.forget item q),
    laws.held-after item retry_interval (W.forget item q),
    laws.requeues-limited item q,
    laws.scheduled-limited item q,
    laws.held-limited item q,
  )

  -- An item that is taken from the queue is reconciled once and released. It is then forgotten if
  -- that succeeded, comes back after five seconds with no failure counted if it waits for Rancher,
  -- and otherwise comes back after the delay that belongs to its failures, which are one more. No
  -- item stays held.
  pub process_next_work_item_lem :
      {S : Type 0} (reconcile : Item → S → Option Error × S) (wait_errs : List (Option Sentinel))
      (item : Item) (q : W.Q) (s : S)
      → (W.get q).0 ≡ some item
      → let (e, s') = reconcile item s in
        let (more, (q', s'')) = process_next_work_item W reconcile wait_errs (q, s) in
        let n = o.num_requeues q item in
        (more ≡ true)
        × (s'' ≡ s')
        × (o.num_requeues q' item ≡ requeues_after wait_errs e n)
        × (o.scheduled q' ≡ rescheduled wait_errs e item n ++ o.scheduled q)
        × (o.held q' ≡ o.held q)
  unfolding process_next_work_item
  process_next_work_item_lem reconcile wait_errs item q s got =
      let e = (reconcile item s).0 in
      let taken = (W.get q).1 in
      let handled = handle_err W wait_errs e item taken in
      ground (
        arith,
        handle_err_lem wait_errs e item taken,
        laws.requeues-done item handled,
        laws.scheduled-done item handled,
        laws.held-done item handled,
        laws.held-get q,
        laws.scheduled-get q,
        laws.requeues-get q item,
      )

  -- Its error handled so often, the item is scheduled each time.
  abbrev pub handle_errs : List (Option Sentinel) → List Error → Item → W.Q → W.Q
  handle_errs wait_errs [] item q = q
  handle_errs wait_errs (e ∷ es) item q =
      handle_errs wait_errs es item (handle_err W wait_errs (some e) item q)

  -- However often an item has waited, each time it came back after five seconds, and the first
  -- failure after that is retried as the first of all.
  pub waits_do_not_back_off :
      (wait_errs : List (Option Sentinel)) (e : Error) (es : List Error) (item : Item) (q : W.Q)
      → All (λ x. is_waiting wait_errs x ≡ true) (e ∷ es)
      → let q' = handle_errs wait_errs (e ∷ es) item q in
        (o.num_requeues q' item ≡ 0)
        × (o.scheduled q'
            ≡ replicate (length (e ∷ es)) (item, after retry_interval) ++ o.scheduled q)
  waits_do_not_back_off wait_errs e [] item q (w, ws) =
      ground (arith, handle_err_lem wait_errs (some e) item q)
  waits_do_not_back_off wait_errs e (f ∷ es) item q (w, ws) =
      let q' = handle_err W wait_errs (some e) item q in
      let wait : Item × Delay = (item, after retry_interval) in
      ground (
        arith,
        handle_err_lem wait_errs (some e) item q,
        waits_do_not_back_off wait_errs f es item q' ws,
        replicate-append-cons (length es) wait (o.scheduled q),
      )
