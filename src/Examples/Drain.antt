-- ===== src/Examples/Drain.antt =====
-- A worker on a queue in memory with client-go's list, its dirty items and those that are held.
use vcluster_rancher_operato.Prelude.{
  ℕ, suc, ◌+◌, ◌≡◌, refl, Bool, true, ◌||◌, Option, none, some, List, [], ◌∷◌, ◌++◌, any, length,
  if◌then◌else◌, arith, Bool-cases, inl, inr,
}
use vcluster_rancher_operato.Errors.{Error, plain}
use vcluster_rancher_operato.Queue.{Item, WorkQueue, run_worker}
use vcluster_rancher_operato.Queue.Laws.{same_item}
use vcluster_rancher_operato.Queue.Drain.{IsDraining, run_worker_drains}

-- `again` are the held items that were added again.
record Marked : Type 0 where
  items : List Item
  again : List Item
  held : List Item
  delayed : List Item
  is_shut : Bool

abbrev has_item : Item → List Item → Bool
has_item i is = any (same_item i) is

abbrev without_item : Item → List Item → List Item
without_item i [] = []
without_item i (j ∷ js) = if same_item i j then js else j ∷ without_item i js

abbrev add_item : Item → Marked → Marked
add_item i q =
    if q.is_shut || has_item i q.items || has_item i q.again
    then q
    else if has_item i q.held
    then record q { again = i ∷ q.again }
    else record q { items = q.items ++ i ∷ [] }

abbrev add_items : List Item → Marked → Marked
add_items [] q = q
add_items (i ∷ is) q = add_items is (add_item i q)

abbrev get_item : List Item → Marked → Option Item × Marked
get_item [] q = (none, q)
get_item (i ∷ is) q = (some i, record q { items = is; held = i ∷ q.held })

abbrev delay_item : Item → Marked → Marked
delay_item i q = if q.is_shut then q else record q { delayed = i ∷ q.delayed }

abbrev done_item : Item → Marked → Marked
done_item i q =
    let released = record q { held = without_item i q.held } in
    if has_item i q.again
    then record released { items = q.items ++ i ∷ []; again = without_item i q.again }
    else released

abbrev marked_queue : WorkQueue
marked_queue = record {
  Q = Marked;
  get = λ q. get_item q.items q;
  done = λ i q. done_item i q;
  add = λ i q. add_item i q;
  add_after = λ i d q. delay_item i q;
  add_rate_limited = λ i q. delay_item i q;
  forget = λ i q. q;
  shut_down = λ q. record q { is_shut = true };
  pass = λ q. add_items q.delayed (record q { delayed = [] });
}

abbrev IsClosed : Marked → Type 0
IsClosed q = q.is_shut ≡ true

abbrev listed : Marked → ℕ
listed q = length q.items

abbrev dirty : Marked → ℕ
dirty q = length q.items + length q.again

get_item-IsClosed : (is : List Item) (q : Marked) → IsClosed q → IsClosed (get_item is q).1
get_item-IsClosed [] q h = h
get_item-IsClosed (i ∷ is) q h = h

get_item_counts :
    (is : List Item) (q : Marked) (i : Item)
    → (get_item is q).0 ≡ some i
    → suc (dirty (get_item is q).1) ≡ length is + length q.again
get_item_counts [] q i e = cc
get_item_counts (k ∷ is) q i e = omega arith

get_item-none :
    (is : List Item) (q : Marked)
    → q.items ≡ is
    → (get_item is q).0 ≡ none
    → listed (get_item is q).1 ≡ 0
get_item-none [] q same e = rw same refl
get_item-none (k ∷ is) q same e = cc

length_last : (is : List Item) (i : Item) → length (is ++ i ∷ []) ≡ suc (length is)
length_last [] i = refl
length_last (j ∷ js) i = ground (arith, length_last js i)

length-without_item :
    (i : Item) (is : List Item)
    → has_item i is ≡ true
    → suc (length (without_item i is)) ≡ length is
length-without_item i [] h = cc
length-without_item i (j ∷ js) h = ground (arith, length-without_item i js)

done_item-IsClosed : (i : Item) (q : Marked) → IsClosed (done_item i q) ≡ IsClosed q
done_item-IsClosed i q = elim (Bool-cases (has_item i q.again)) [
  | inl again ↦ rw again refl
  | inr clean ↦ rw clean refl
]

done_item_counts : (i : Item) (q : Marked) → dirty (done_item i q) ≡ dirty q
done_item_counts i q = elim (Bool-cases (has_item i q.again)) [
  | inl again ↦
      rw again (ground (arith, length_last q.items i, length-without_item i q.again again))
  | inr clean ↦ rw clean refl
]

delay_item_ignored : (i : Item) (q : Marked) → IsClosed q → delay_item i q ≡ q
delay_item_ignored i q h = rw h refl

marked_queue-IsDraining : IsDraining marked_queue IsClosed dirty listed
marked_queue-IsDraining = record {
  get-shut = λ q h. get_item-IsClosed q.items q h;
  done-shut = λ i q h. rw done_item-IsClosed h;
  after-shut = λ i d q h. rw (delay_item_ignored i q h) h;
  limited-shut = λ i q h. rw (delay_item_ignored i q h) h;
  forget-shut = λ i q h. h;
  get-some = λ q i e. get_item_counts q.items q i e;
  get-none = λ q e. get_item-none q.items q refl e;
  done-size = λ i q h. done_item_counts i q;
  after-size = λ i d q h. rw (delay_item_ignored i q h) refl;
  limited-size = λ i q h. rw (delay_item_ignored i q h) refl;
  forget-size = λ i q h. refl;
}

abbrev first : Item
first = record { key = "team/a"; uid = "a" }

abbrev second : Item
second = record { key = "team/b"; uid = "b" }

-- One item waits, and another is held by another worker and was added again.
abbrev closing : Marked
closing = record {
  items = first ∷ [];
  again = second ∷ [];
  held = second ∷ [];
  delayed = [];
  is_shut = true;
}

-- Where the list is empty, an item that was added again is got after it is done.
got_after_done :
    let empty = record closing { items = [] } in
    ((marked_queue.get empty).0 ≡ none)
    × ((marked_queue.get (marked_queue.done second empty)).0 ≡ some second)
got_after_done = (refl, refl)

abbrev fails : Item → ℕ → Option Error × ℕ
fails i n = (some (plain "failed"), suc n)

run_worker_drains_example :
    (q' : Marked) × (n : ℕ) × (run_worker marked_queue fails [] 3 (closing, 0) ≡ some (q', n))
    × (listed q' ≡ 0)
run_worker_drains_example =
    run_worker_drains marked_queue IsClosed dirty listed marked_queue-IsDraining fails [] 3 closing
      0 refl (omega arith)
