-- ===== src/Queue/Workers.antt =====
-- `Start` in pkg/queue/queue.go: the workers as goroutines that share the queue. Each call of the
-- queue is atomic, under the lock of client-go's work queue, and a reconciliation is what happens
-- between two calls, so the workers interleave at the calls. What a reconciliation returns is any
-- result.
pub mod Exclusive
use vcluster_rancher_operato.Prelude.{
  ℕ, Bool, true, false, Option, none, some, List, ◌≡◌, ltb, eqb, if◌then◌else◌,
}
use vcluster_rancher_operato.Errors.{Error, Sentinel}
use vcluster_rancher_operato.Queue.{Item, WorkQueue, handle_err, workers_of}

-- A worker is before a round of `wait.UntilWithContext` (the first, or a second after `runWorker`
-- has returned), is about to call `Get`, reconciles an item, or has ended.
pub data Worker : Type 0 where
  resting ready ended : Worker
  busy : Item → Worker

-- `stopped`: the context is done.
pub record Pool (W : WorkQueue) : Type 0 where
  pub queue : W.Q
  pub workers : ℕ → Worker
  pub stopped : Bool

abbrev pub set_worker : ℕ → Worker → (ℕ → Worker) → ℕ → Worker
set_worker i x workers j = if eqb j i then x else workers j

-- The workers that `Start` launches for a handler of so many.
unfoldable pub start_workers : ℕ → ℕ → Worker
unfolding workers_of
start_workers n i = if ltb i (workers_of n) then resting else ended

module _ (W : WorkQueue) where
  open W use {Q, get, done, add, shut_down, pass}

  unfoldable pub new_pool : ℕ → Q → Pool W
  unfolding start_workers
  new_pool n q = record { queue = q; workers = start_workers n; stopped = false }

  module _ (wait_errs : List (Option Sentinel)) where
    -- `processNextWorkItem` to its `Get`
    abbrev pub take : ℕ → Item → Pool W → Pool W
    take i item p = record p {
      queue = (get p.queue).1;
      workers = set_worker i (busy item) p.workers;
    }

    -- The queue is shut down and empty: `runWorker` returns.
    abbrev pub quit : ℕ → Pool W → Pool W
    quit i p = record p { queue = (get p.queue).1; workers = set_worker i resting p.workers }

    -- `handleErr`, the deferred `Done`, and the next round of `runWorker`
    unfoldable pub finish : ℕ → Item → Option Error → Pool W → Pool W
    unfolding handle_err
    finish i item e p = record p {
      queue = done item (handle_err W wait_errs e item p.queue);
      workers = set_worker i ready p.workers;
    }

    -- The context is done.
    abbrev pub end_context : Pool W → Pool W
    end_context p = record p { stopped = true }

    -- The deferred `ShutDown`, when `Start` returns after the end of the context.
    abbrev pub stop_workers : Pool W → Pool W
    stop_workers p = record p { queue = shut_down p.queue }

    pub data Step (p : Pool W) : Pool W → Type 0 where
      takes :
          (i : ℕ) (item : Item)
          → p.workers i ≡ ready
          → (get p.queue).0 ≡ some item
          → Step p (take i item p)
      quits : (i : ℕ) → p.workers i ≡ ready → (get p.queue).0 ≡ none → Step p (quit i p)
      finishes :
          (i : ℕ) (item : Item) (e : Option Error)
          → p.workers i ≡ busy item
          → Step p (finish i item e p)
      -- `wait.UntilWithContext` looks at the context before each round.
      resumes :
          (i : ℕ)
          → p.workers i ≡ resting
          → p.stopped ≡ false
          → Step p (record p { workers = set_worker i ready p.workers })
      ends :
          (i : ℕ)
          → p.workers i ≡ resting
          → p.stopped ≡ true
          → Step p (record p { workers = set_worker i ended p.workers })
      -- an event handler of the informer
      adds : (item : Item) → Step p (record p { queue = add item p.queue })
      waits : Step p (record p { queue = pass p.queue })
      cancels : Step p (end_context p)
      stops : p.stopped ≡ true → Step p (stop_workers p)

    pub data Reach (n : ℕ) (q : Q) : Pool W → Type 0 where
      begin : Reach n q (new_pool n q)
      later : {p p' : Pool W} → Reach n q p → Step p p' → Reach n q p'
