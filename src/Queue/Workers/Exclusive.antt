-- ===== src/Queue/Workers/Exclusive.antt =====
-- Which workers hold which items.
use vcluster_rancher_operato.Prelude.{
  ℕ, ◌<◌, ◌≡◌, ◌≢◌, refl, Bool, true, false, not, ◌&&◌, ◌||◌, Option, none, some, List, arith,
  Bool-cases, inl, inr, eq_iff, eq_refl,
}
use vcluster_rancher_operato.Errors.{Error, Sentinel}
use vcluster_rancher_operato.Queue.{Item, WorkQueue, handle_err, workers_of, retry_interval}
use vcluster_rancher_operato.Queue.Laws.{same_item}
use vcluster_rancher_operato.Queue.Workers.{
  Worker, ready, resting, ended, busy, Pool, set_worker, start_workers, new_pool, take, finish,
  Step, takes, quits, finishes, resumes, ends, adds, waits, cancels, stops, Reach, begin, later,
}

-- The documented exclusion of client-go's work queue: an item that was got and is not yet done is
-- not got again, and only `get` and `done` change which items these are.
pub record IsStingy (W : WorkQueue) (is_held : W.Q → Item → Bool) : Type 0 where
  pub get-fresh : (q : W.Q) (i : Item) → (W.get q).0 ≡ some i → is_held q i ≡ false
  pub get-held :
      (q : W.Q) (i j : Item)
      → (W.get q).0 ≡ some i
      → is_held (W.get q).1 j ≡ (same_item i j || is_held q j)
  pub get-none : (q : W.Q) (j : Item) → (W.get q).0 ≡ none → is_held (W.get q).1 j ≡ is_held q j
  pub done-held :
      (i j : Item) (q : W.Q) → is_held (W.done i q) j ≡ (not (same_item i j) && is_held q j)
  pub add-held : (i j : Item) (q : W.Q) → is_held (W.add i q) j ≡ is_held q j
  pub after-held : (i j : Item) (d : ℕ) (q : W.Q) → is_held (W.add_after i d q) j ≡ is_held q j
  pub limited-held : (i j : Item) (q : W.Q) → is_held (W.add_rate_limited i q) j ≡ is_held q j
  pub forget-held : (i j : Item) (q : W.Q) → is_held (W.forget i q) j ≡ is_held q j
  pub shut_down-held : (j : Item) (q : W.Q) → is_held (W.shut_down q) j ≡ is_held q j
  pub pass-held : (j : Item) (q : W.Q) → is_held (W.pass q) j ≡ is_held q j

module _ (W : WorkQueue) (is_held : W.Q → Item → Bool) (laws : IsStingy W is_held)
    (wait_errs : List (Option Sentinel)) where
  -- The items of the workers are held, and no two workers have the same.
  record Inv (n : ℕ) (p : Pool W) : Type 0 where
    pub busy_held : (i : ℕ) (item : Item) → p.workers i ≡ busy item → is_held p.queue item ≡ true
    pub apart : (i j : ℕ) (item : Item) → p.workers i ≡ busy item → p.workers j ≡ busy item → i ≡ j
    pub launched : (i : ℕ) → p.workers i ≢ ended → i < workers_of n

  held-handle_err :
      (e : Option Error) (i j : Item) (q : W.Q)
      → is_held (handle_err W wait_errs e i q) j ≡ is_held q j
  unfolding handle_err
  held-handle_err none i j q = laws.forget-held i j q
  held-handle_err (some e) i j q = ground (
    arith,
    laws.forget-held i j q,
    laws.after-held i j retry_interval (W.forget i q),
    laws.limited-held i j q,
  )

  same_item_refl : (i : Item) → same_item i i ≡ true
  same_item_refl i = ground (arith, eq_refl i.key, eq_refl i.uid)

  queue-Inv :
      (n : ℕ) (p : Pool W) (q : W.Q) (b : Bool)
      → Inv n p
      → ((j : Item) → is_held q j ≡ is_held p.queue j)
      → Inv n (record p { queue = q; stopped = b })
  queue-Inv n p q b inv same = record {
    busy_held = λ k item e. ground (arith, inv.busy_held k item, same item);
    apart = inv.apart;
    launched = inv.launched;
  }

  -- A step that leaves the held items and makes no worker busy.
  idle-Inv :
      (n : ℕ) (p : Pool W) (q : W.Q) (i : ℕ) (x : Worker) (b : Bool)
      → Inv n p
      → ((j : Item) → is_held q j ≡ is_held p.queue j)
      → ((item : Item) → x ≢ busy item)
      → p.workers i ≢ ended
      → Inv n (record { queue = q; workers = set_worker i x p.workers; stopped = b })
  idle-Inv n p q i x b inv same idle live = record {
    busy_held = λ k item e. ground (arith, inv.busy_held k item, same item, idle item);
    apart = λ k l item e f. ground (arith, inv.apart k l item, idle item);
    launched = λ k e. ground (arith, inv.launched k, inv.launched i live);
  }

  same_of_test : (i j : Item) → same_item i j ≡ true → i ≡ j
  same_of_test i j h =
      let same_key : i.key ≡ j.key = ground (arith, eq_iff i.key j.key) in
      let same_uid : i.uid ≡ j.uid = ground (arith, eq_iff i.uid j.uid) in
      λ t. record { key = same_key t; uid = same_uid t }

  take-Inv :
      (n : ℕ) (p : Pool W) (i : ℕ) (item : Item)
      → Inv n p
      → p.workers i ≡ ready
      → (W.get p.queue).0 ≡ some item
      → Inv n (take W wait_errs i item p)
  take-Inv n p i item inv is_ready got =
      let fresh = laws.get-fresh p.queue item got in
      record {
        busy_held = λ k x e.
            ground
              (arith, inv.busy_held k x, laws.get-held p.queue item x got, same_item_refl item);
        apart = λ k l x e f.
            ground (arith, inv.apart k l x, fresh, inv.busy_held k x, inv.busy_held l x);
        launched = λ k e. ground (arith, inv.launched k, inv.launched i, is_ready);
      }

  finish-Inv :
      (n : ℕ) (p : Pool W) (i : ℕ) (item : Item) (e : Option Error)
      → Inv n p
      → p.workers i ≡ busy item
      → Inv n (finish W wait_errs i item e p)
  unfolding finish
  finish-Inv n p i item e inv is_busy =
      let handled = handle_err W wait_errs e item p.queue in
      record {
        busy_held = λ k x b. elim (Bool-cases (same_item item x)) [
          | inl same ↦
              let e' = same_of_test item x same in ground (arith, inv.apart k i x, b, is_busy, e')
          | inr other ↦ ground (
            arith,
            inv.busy_held k x,
            laws.done-held item x handled,
            held-handle_err e item x p.queue,
          )
        ];
        apart = λ k l x b c. ground (arith, inv.apart k l x);
        launched = λ k b. ground (arith, inv.launched k, inv.launched i, is_busy);
      }

  Step-Inv : (n : ℕ) (p p' : Pool W) → Step W wait_errs p p' → Inv n p → Inv n p'
  Step-Inv n p p' (takes i item is_ready got) inv = take-Inv n p i item inv is_ready got
  Step-Inv n p p' (quits i is_ready none_left) inv =
      idle-Inv n p (W.get p.queue).1 i resting p.stopped inv
        (λ j. laws.get-none p.queue j none_left) (λ x. cc) (λ e. cc (is_ready, e))
  Step-Inv n p p' (finishes i item e is_busy) inv = finish-Inv n p i item e inv is_busy
  Step-Inv n p p' (resumes i is_resting live) inv =
      idle-Inv n p p.queue i ready p.stopped inv (λ j. refl) (λ x. cc) (λ e. cc (is_resting, e))
  Step-Inv n p p' (ends i is_resting stopped) inv =
      idle-Inv n p p.queue i ended p.stopped inv (λ j. refl) (λ x. cc) (λ e. cc (is_resting, e))
  Step-Inv n p p' (adds item) inv =
      queue-Inv n p (W.add item p.queue) p.stopped inv (λ j. laws.add-held item j p.queue)
  Step-Inv n p p' waits inv =
      queue-Inv n p (W.pass p.queue) p.stopped inv (λ j. laws.pass-held j p.queue)
  Step-Inv n p p' cancels inv = queue-Inv n p p.queue true inv (λ j. refl)
  Step-Inv n p p' (stops stopped) inv =
      queue-Inv n p (W.shut_down p.queue) p.stopped inv (λ j. laws.shut_down-held j p.queue)

  new_pool-Inv : (n : ℕ) (q : W.Q) → Inv n (new_pool W n q)
  unfolding new_pool start_workers
  new_pool-Inv n q = record {
    busy_held = λ i item e. ground arith;
    apart = λ i j item e f. ground arith;
    launched = λ i e. ground arith;
  }

  Reach-Inv : (n : ℕ) (q : W.Q) (p : Pool W) → Reach W wait_errs n q p → Inv n p
  Reach-Inv n q p begin = new_pool-Inv n q
  Reach-Inv n q p' (later {p = p} r st) = Step-Inv n p p' st (Reach-Inv n q p r)

  -- If the queue gives no item again before it is done, then however the workers of a handler
  -- interleave with each other, with the events of the informer, with delayed items and with the
  -- end of the context: a worker that reconciles is one of those that the handler was made for, no
  -- other worker reconciles the same item at that time, and the queue counts the item as held
  -- until the worker is done with it.
  pub workers_exclude :
      (n : ℕ) (q : W.Q) (p : Pool W) (i : ℕ) (item : Item)
      → Reach W wait_errs n q p
      → p.workers i ≡ busy item
      → (i < workers_of n)
        × (is_held p.queue item ≡ true)
        × ((j : ℕ) → p.workers j ≡ busy item → j ≡ i)
  workers_exclude n q p i item r e =
      let inv = Reach-Inv n q p r in
      (inv.launched i (λ x. cc (e, x)), inv.busy_held i item e, λ j f. inv.apart j i item f e)
