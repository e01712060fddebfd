-- ===== src/Queue/Laws.antt =====
-- What the operator relies on of client-go's work queue, in terms of what can be observed of it,
-- and a queue that keeps a record of its calls.
use vcluster_rancher_operato.Prelude.{
  ℕ, suc, ◌-◌, ◌≡◌, refl, ◌==◌, Bool, ◌&&◌, Option, none, some, List, [], ◌∷◌, ◌++◌, if◌then◌else◌,
  arith, eq_refl,
}
use vcluster_rancher_operato.Queue.{Item, WorkQueue}

-- When an item comes back: at once, after some seconds, or after the exponential delay that belongs
-- to the number of its earlier failures.
pub data Delay : Type 0 where
  at_once : Delay
  after : ℕ → Delay
  backoff : ℕ → Delay

-- What is observed: the failures of each item (`NumRequeues`), what has been scheduled so far, the
-- last first, and the number of items that workers hold.
pub record Observer (W : WorkQueue) : Type 0 where
  pub num_requeues : W.Q → Item → ℕ
  pub scheduled : W.Q → List (Item × Delay)
  pub held : W.Q → ℕ

-- A worker that got an item holds it.
abbrev pub held_with : Option Item → ℕ → ℕ
held_with none n = n
held_with (some i) n = suc n

-- The documented effect of each call on the item that it is about.
pub record IsLawful (W : WorkQueue) (o : Observer W) : Type 0 where
  pub requeues-forget : (i : Item) (q : W.Q) → o.num_requeues (W.forget i q) i ≡ 0
  pub requeues-done : (i : Item) (q : W.Q) → o.num_requeues (W.done i q) i ≡ o.num_requeues q i
  pub requeues-after :
      (i : Item) (d : ℕ) (q : W.Q) → o.num_requeues (W.add_after i d q) i ≡ o.num_requeues q i
  pub requeues-limited :
      (i : Item) (q : W.Q) → o.num_requeues (W.add_rate_limited i q) i ≡ suc (o.num_requeues q i)
  pub scheduled-forget : (i : Item) (q : W.Q) → o.scheduled (W.forget i q) ≡ o.scheduled q
  pub scheduled-done : (i : Item) (q : W.Q) → o.scheduled (W.done i q) ≡ o.scheduled q
  pub scheduled-add : (i : Item) (q : W.Q) → o.scheduled (W.add i q) ≡ (i, at_once) ∷ o.scheduled q
  pub scheduled-after :
      (i : Item) (d : ℕ) (q : W.Q) → o.scheduled (W.add_after i d q) ≡ (i, after d) ∷ o.scheduled q
  pub scheduled-limited :
      (i : Item) (q : W.Q)
      → o.scheduled (W.add_rate_limited i q) ≡ (i, backoff (o.num_requeues q i)) ∷ o.scheduled q
  pub held-forget : (i : Item) (q : W.Q) → o.held (W.forget i q) ≡ o.held q
  pub held-after : (i : Item) (d : ℕ) (q : W.Q) → o.held (W.add_after i d q) ≡ o.held q
  pub held-limited : (i : Item) (q : W.Q) → o.held (W.add_rate_limited i q) ≡ o.held q
  pub held-done : (i : Item) (q : W.Q) → o.held (W.done i q) ≡ o.held q - 1
  pub held-get : (q : W.Q) → o.held (W.get q).1 ≡ held_with (W.get q).0 (o.held q)
  pub scheduled-get : (q : W.Q) → o.scheduled (W.get q).1 ≡ o.scheduled q
  pub requeues-get : (q : W.Q) (i : Item) → o.num_requeues (W.get q).1 i ≡ o.num_requeues q i

-- A queue of one worker without clock: what waits, what has been scheduled, and the failures.
pub record Recorded : Type 0 where
  pub pending : List Item
  pub log : List (Item × Delay)
  pub failures : Item → ℕ
  pub holding : ℕ

abbrev pub same_item : Item → Item → Bool
same_item i j = i.key == j.key && i.uid == j.uid

abbrev set_failures : Item → ℕ → (Item → ℕ) → Item → ℕ
set_failures i n f j = if same_item i j then n else f j

abbrev get_recorded : List Item → Recorded → Option Item × Recorded
get_recorded [] r = (none, r)
get_recorded (i ∷ is) r = (some i, record r { pending = is; holding = suc r.holding })

abbrev pub recorded_queue : WorkQueue
recorded_queue = record {
  Q = Recorded;
  get = λ r. get_recorded r.pending r;
  done = λ i r. record r { holding = r.holding - 1 };
  add = λ i r. record r { pending = r.pending ++ i ∷ []; log = (i, at_once) ∷ r.log };
  add_after = λ i d r. record r { log = (i, after d) ∷ r.log };
  add_rate_limited = λ i r. record r {
    log = (i, backoff (r.failures i)) ∷ r.log;
    failures = set_failures i (suc (r.failures i)) r.failures;
  };
  forget = λ i r. record r { failures = set_failures i 0 r.failures };
  shut_down = λ r. r;
  pass = λ r. r;
}

abbrev pub recorded_observer : Observer recorded_queue
recorded_observer = record {
  num_requeues = λ r i. r.failures i;
  scheduled = λ r. r.log;
  held = λ r. r.holding;
}

failures-set_failures : (i : Item) (n : ℕ) (f : Item → ℕ) → set_failures i n f i ≡ n
failures-set_failures i n f = ground (arith, eq_refl i.key, eq_refl i.uid)

get_recorded_keeps :
    (is : List Item) (r : Recorded)
    → ((get_recorded is r).1.holding ≡ held_with (get_recorded is r).0 r.holding)
      × ((get_recorded is r).1.log ≡ r.log)
      × ((i : Item) → (get_recorded is r).1.failures i ≡ r.failures i)
get_recorded_keeps [] r = (refl, refl, λ i. refl)
get_recorded_keeps (j ∷ is) r = (refl, refl, λ i. refl)

-- The recorded queue meets the assumptions.
pub recorded_queue-IsLawful : IsLawful recorded_queue recorded_observer
recorded_queue-IsLawful = record {
  requeues-forget = λ i r. failures-set_failures i 0 r.failures;
  requeues-done = λ i r. refl;
  requeues-after = λ i d r. refl;
  requeues-limited = λ i r. failures-set_failures i (suc (r.failures i)) r.failures;
  scheduled-forget = λ i r. refl;
  scheduled-done = λ i r. refl;
  scheduled-add = λ i r. refl;
  scheduled-after = λ i d r. refl;
  scheduled-limited = λ i r. refl;
  held-forget = λ i r. refl;
  held-after = λ i d r. refl;
  held-limited = λ i r. refl;
  held-done = λ i r. refl;
  held-get = λ r. (get_recorded_keeps r.pending r).0;
  scheduled-get = λ r. (get_recorded_keeps r.pending r).1;
  requeues-get = λ r i. (get_recorded_keeps r.pending r).2 i;
}
