-- ===== src/Examples/Workers.antt =====
-- Workers that share a queue.
use vcluster_rancher_operato.Prelude.{
  ℕ, ◌<◌, ◌≡◌, refl, Bool, true, false, not, ◌&&◌, ◌||◌, Option, none, some, List, [], ◌∷◌, ◌++◌,
  if◌then◌else◌, Bool-cases, inl, inr,
}
use vcluster_rancher_operato.Queue.{Item, WorkQueue, workers_of}
use vcluster_rancher_operato.Queue.Laws.{same_item}
use vcluster_rancher_operato.Queue.Workers.{
  Worker, busy, Pool, set_worker, take, new_pool, takes, resumes, Reach, begin, later,
}
use vcluster_rancher_operato.Queue.Workers.Exclusive.{IsStingy, workers_exclude}

-- A queue for several workers: what waits, and what is held.
record Shared : Type 0 where
  pending : List Item
  held : Item → Bool

abbrev get_shared : List Item → Shared → Option Item × Shared
get_shared [] q = (none, q)
get_shared (i ∷ is) q =
    if q.held i
    then (none, q)
    else (some i, record { pending = is; held = λ j. same_item i j || q.held j })

abbrev shared_queue : WorkQueue
shared_queue = record {
  Q = Shared;
  get = λ q. get_shared q.pending q;
  done = λ i q. record q { held = λ j. not (same_item i j) && q.held j };
  add = λ i q. record q { pending = q.pending ++ i ∷ [] };
  add_after = λ i d q. q;
  add_rate_limited = λ i q. q;
  forget = λ i q. q;
  shut_down = λ q. q;
  pass = λ q. q;
}

abbrev shared_held : Shared → Item → Bool
shared_held q = q.held

get_shared_lem :
    (is : List Item) (q : Shared) (i j : Item)
    → (get_shared is q).0 ≡ some i
    → (q.held i ≡ false) × ((get_shared is q).1.held j ≡ (same_item i j || q.held j))
get_shared_lem [] q i j e = cc
get_shared_lem (k ∷ is) q i j e = elim (Bool-cases (q.held k)) [
  | inl taken ↦ cc (rw taken at e)
  | inr fresh ↦ let same : k ≡ i = cc (rw fresh at e) in rw (← same) (fresh, rw fresh refl)
]

get_shared-none :
    (is : List Item) (q : Shared) (j : Item)
    → (get_shared is q).0 ≡ none
    → (get_shared is q).1.held j ≡ q.held j
get_shared-none [] q j e = refl
get_shared-none (k ∷ is) q j e = elim (Bool-cases (q.held k)) [
  | inl taken ↦ rw taken refl
  | inr fresh ↦ cc (rw fresh at e)
]

shared_queue-IsStingy : IsStingy shared_queue shared_held
shared_queue-IsStingy = record {
  get-fresh = λ q i e. (get_shared_lem q.pending q i i e).0;
  get-held = λ q i j e. (get_shared_lem q.pending q i j e).1;
  get-none = λ q j e. get_shared-none q.pending q j e;
  done-held = λ i j q. refl;
  add-held = λ i j q. refl;
  after-held = λ i j d q. refl;
  limited-held = λ i j q. refl;
  forget-held = λ i j q. refl;
  shut_down-held = λ j q. refl;
  pass-held = λ j q. refl;
}

abbrev one : Item
one = record { key = "team/a"; uid = "a" }

abbrev one_waits : Shared
one_waits = record { pending = one ∷ []; held = λ i. false }

abbrev first_pool : Pool shared_queue
first_pool = new_pool shared_queue 5 one_waits

is_resting : first_pool.workers 0 ≡ Worker.resting
unfolding new_pool
is_resting = refl

abbrev second_pool : Pool shared_queue
second_pool = record first_pool { workers = set_worker 0 Worker.ready first_pool.workers }

abbrev third_pool : Pool shared_queue
third_pool = take shared_queue [] 0 one second_pool

third_pool-Reach : Reach shared_queue [] 5 one_waits third_pool
unfolding new_pool
third_pool-Reach = later (later begin (resumes 0 is_resting refl)) (takes 0 one refl refl)

workers_exclude_example :
    (0 < workers_of 5)
    × (shared_held third_pool.queue one ≡ true)
    × ((j : ℕ) → third_pool.workers j ≡ busy one → j ≡ 0)
workers_exclude_example =
    workers_exclude shared_queue shared_held shared_queue-IsStingy [] 5 one_waits third_pool 0 one
      third_pool-Reach refl
