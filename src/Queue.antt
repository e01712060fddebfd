-- ===== src/Queue.antt =====
-- pkg/queue/queue.go: a work queue with workers in front of a reconciler. The work queue of
-- client-go is the parameter `WorkQueue`, and the reconciler is a function on its own state.
pub mod Laws
pub mod Retries
pub mod Events
pub mod Drain
pub mod Workers
use vcluster_rancher_operato.Prelude.{
  ℕ, zero, suc, String, ◌==◌, Bool, true, false, ◌&&◌, ◌||◌, Option, none, some, List, [], ◌∷◌, ltb,
  if◌then◌else◌,
}
use vcluster_rancher_operato.Errors.{Error, Sentinel, Result, ok, err, errors_is}
use vcluster_rancher_operato.Kube.{Service}

pub record Item : Type 0 where
  pub key : String
  pub uid : String

-- The methods of `workqueue.TypedRateLimitingInterface[Item]` that are called. `get` gives no item
-- when the queue has been shut down. `pass` is no method: time passes, and what was delayed is due.
pub record WorkQueue : Type 1 where
  pub Q : Type 0
  pub get : Q → Option Item × Q
  pub done : Item → Q → Q
  pub add : Item → Q → Q
  pub add_after : Item → ℕ → Q → Q
  pub add_rate_limited : Item → Q → Q
  pub forget : Item → Q → Q
  pub shut_down : Q → Q
  pub pass : Q → Q

-- At least one worker. A Go `int` below 1 is 0 here.
unfoldable pub workers_of : ℕ → ℕ
workers_of zero = 1
workers_of (suc n) = suc n

-- The fields of `Handler` beside the work queue, and `NewHandler`.
pub record QueuedHandler (Reconciler : Type 0) : Type 0 where
  pub reconciler : Reconciler
  pub workers : ℕ
  pub wait_errs : List (Option Sentinel)

abbrev pub new_queued_handler :
    {Reconciler : Type 0} → Reconciler → ℕ → List (Option Sentinel) → QueuedHandler Reconciler
new_queued_handler reconciler workers wait_errs = record {
  reconciler = reconciler;
  workers = workers_of workers;
  wait_errs = wait_errs;
}

-- What an informer hands to its event handlers.
pub data Object : Type 0 where
  service : Service → Object
  -- `cache.DeletedFinalStateUnknown`, with its object if that is a service
  tombstone : Option Service → Object
  other_object : Object

abbrev uid_of : Object → String
uid_of (service s) = s.uid
uid_of _ = ""

-- The loop over `waitErrs`; nil entries match nothing.
unfoldable pub is_waiting : List (Option Sentinel) → Error → Bool
unfolding errors_is
is_waiting [] e = false
is_waiting (none ∷ wait_errs) e = is_waiting wait_errs e
is_waiting (some wait_err ∷ wait_errs) e = errors_is e wait_err || is_waiting wait_errs e

-- `5 * time.Second`, in seconds
abbrev pub retry_interval : ℕ
retry_interval = 5

module _ (W : WorkQueue) where
  open W use {Q, get, done, add, add_after, add_rate_limited, forget}

  enqueue : Result String → String → Q → Q
  enqueue (ok key) uid q = add (record { key = key; uid = uid }) q
  enqueue (err _) uid q = q

  -- `cache.MetaNamespaceKeyFunc` is the argument `key_func`.
  module _ (key_func : Object → Result String) where
    unfoldable pub on_add : Object → Q → Q
    unfolding enqueue
    on_add obj q = enqueue (key_func obj) (uid_of obj) q

    unfoldable pub on_update : Object → Object → Q → Q
    unfolding enqueue
    on_update _ new_obj q = enqueue (key_func new_obj) (uid_of new_obj) q

    unfoldable pub on_delete : Object → Q → Q
    unfolding enqueue
    on_delete (service s) q = enqueue (key_func (service s)) s.uid q
    on_delete (tombstone (some s)) q = enqueue (key_func (service s)) s.uid q
    on_delete (tombstone none) q = q
    on_delete other_object q = q

  unfoldable pub handle_err : List (Option Sentinel) → Option Error → Item → Q → Q
  unfolding is_waiting
  handle_err wait_errs none item q = forget item q
  handle_err wait_errs (some e) item q =
      if is_waiting wait_errs e
      then add_after item retry_interval (forget item q)
      else add_rate_limited item q

  -- The state of the reconciler goes along with that of the queue.
  module _ {S : Type 0} (reconcile : Item → S → Option Error × S)
      (wait_errs : List (Option Sentinel)) where
    -- The deferred `Done` is the last call.
    process_item : Item → Q × S → Q × S
    unfolding handle_err
    process_item item (q, s) =
        let (e, s') = reconcile item s in (done item (handle_err wait_errs e item q), s')

    process_got : Option Item → Q × S → Bool × (Q × S)
    process_got none st = (false, st)
    process_got (some item) st = (true, process_item item st)

    unfoldable pub process_next_work_item : Q × S → Bool × (Q × S)
    unfolding process_got process_item
    process_next_work_item (q, s) = let (got, q') = get q in process_got got (q', s)

    continue_worker : (Q × S → Option (Q × S)) → Bool × (Q × S) → Option (Q × S)
    continue_worker again (true, st) = again st
    continue_worker again (false, st) = some st

    -- `runWorker`, for at most `fuel` items; `none` means that the fuel ran out.
    unfoldable pub run_worker : ℕ → Q × S → Option (Q × S)
    unfolding process_next_work_item continue_worker
    run_worker zero st = none
    run_worker (suc fuel) st = continue_worker (run_worker fuel) (process_next_work_item st)
