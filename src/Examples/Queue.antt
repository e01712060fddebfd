-- ===== src/Examples/Queue.antt =====
-- The work queue.
use Prim.Native.String.{◌++◌ as ◌<>◌}
use vcluster_rancher_operato.Prelude.{
  ℕ, suc, String, ◌≡◌, refl, true, Option, none, some, List, [], ◌∷◌, ◌==◌, if◌then◌else◌,
}
use vcluster_rancher_operato.Errors.{
  Error, Result, ok, err, plain, sentinel, rancher_resources_pending,
}
use vcluster_rancher_operato.Queue.{
  Item, Object, service, tombstone, other_object, is_waiting, process_next_work_item, run_worker,
  on_add, on_update, on_delete,
}
use vcluster_rancher_operato.Queue.Laws.{
  Recorded, recorded_queue, recorded_observer, recorded_queue-IsLawful, Delay, after, backoff,
}
use vcluster_rancher_operato.Queue.Retries.{
  process_next_work_item_lem, handle_errs, waits_do_not_back_off,
}
use vcluster_rancher_operato.Queue.Events.{item_of, events_agree}
use vcluster_rancher_operato.Services.Reconcile.Waiting.{wait_errs}
use vcluster_rancher_operato.Examples.Data.{service as vc}

abbrev first : Item
first = record { key = "team/a"; uid = "a" }

abbrev second : Item
second = record { key = "team/b"; uid = "b" }

abbrev waiting : Recorded
waiting = record { pending = first ∷ second ∷ []; log = []; failures = λ i. 2; holding = 0 }

-- A key is made for services only.
abbrev key_func : Object → Result String
key_func (service s) = ok (s.namespace <> ("/" <> s.name))
key_func _ = err (plain "object has no meta")

abbrev pending : Error
pending = sentinel rancher_resources_pending

-- The first item fails for the third time, and the second waits.
abbrev wait_or_fail : Item → ℕ → Option Error × ℕ
wait_or_fail i n = (some (if i.key == "team/a" then plain "failed" else pending), suc n)

run : Option (Recorded × ℕ)
unfolding run_worker
run = run_worker recorded_queue wait_or_fail wait_errs 3 (waiting, 0)

abbrev summary : Option (Recorded × ℕ) → Option (List (Item × Delay) × ℕ × ℕ)
summary none = none
summary (some (r, n)) = some (r.log, n, r.holding)

-- Both are taken, and then the queue is empty.
run_log : summary run ≡ some ((second, after 5) ∷ (first, backoff 2) ∷ [], 2, 0)
unfolding run
run_log = refl

process_next_work_item_lem_example :
    let (more, (q', n)) =
      process_next_work_item recorded_queue wait_or_fail wait_errs (waiting, 0) in
    (more ≡ true)
    × (n ≡ 1)
    × (recorded_observer.num_requeues q' first ≡ 3)
    × (recorded_observer.scheduled q' ≡ (first, backoff 2) ∷ [])
    × (recorded_observer.held q' ≡ 0)
unfolding is_waiting
process_next_work_item_lem_example =
    process_next_work_item_lem recorded_queue recorded_observer recorded_queue-IsLawful wait_or_fail
      wait_errs first waiting 0 refl

waits_do_not_back_off_example :
    let q' =
      handle_errs recorded_queue recorded_observer recorded_queue-IsLawful wait_errs
        (pending ∷ pending ∷ [])
        first
        waiting in
    (recorded_observer.num_requeues q' first ≡ 0)
    × (recorded_observer.scheduled q' ≡ (first, after 5) ∷ (first, after 5) ∷ [])
unfolding is_waiting
waits_do_not_back_off_example =
    waits_do_not_back_off recorded_queue recorded_observer recorded_queue-IsLawful wait_errs pending
      (pending ∷ []) first waiting (refl, (refl, tt))

events_agree_example :
    let q' = recorded_queue.add (item_of "team/vc" vc) waiting in
    (on_add recorded_queue key_func (service vc) waiting ≡ q')
    × (on_update recorded_queue key_func other_object (service vc) waiting ≡ q')
    × (on_delete recorded_queue key_func (service vc) waiting ≡ q')
    × (on_delete recorded_queue key_func (tombstone (some vc)) waiting ≡ q')
    × (on_delete recorded_queue key_func (tombstone none) waiting ≡ waiting)
    × (on_delete recorded_queue key_func other_object waiting ≡ waiting)
events_agree_example = events_agree recorded_queue key_func vc other_object "team/vc" waiting refl
