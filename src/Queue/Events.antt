-- ===== src/Queue/Events.antt =====
-- What the event handlers enqueue.
use vcluster_rancher_operato.Prelude.{String, ◌≡◌, refl, some, none}
use vcluster_rancher_operato.Errors.{Result, ok}
use vcluster_rancher_operato.Kube.{Service}
use vcluster_rancher_operato.Queue.{
  Item, WorkQueue, Object, service, tombstone, other_object, on_add, on_update, on_delete,
}

abbrev pub item_of : String → Service → Item
item_of key s = record { key = key; uid = s.uid }

module _ (W : WorkQueue) (key_func : Object → Result String) where
  -- Every event on a service with a key enqueues the one item of its key and UID: when it is added,
  -- updated or deleted, and when its deletion was missed and only a tombstone is left. A tombstone
  -- without a service, and a deleted object of another kind, enqueue nothing.
  pub events_agree :
      (s : Service) (old : Object) (key : String) (q : W.Q)
      → key_func (service s) ≡ ok key
      → let q' = W.add (item_of key s) q in
        (on_add W key_func (service s) q ≡ q')
        × (on_update W key_func old (service s) q ≡ q')
        × (on_delete W key_func (service s) q ≡ q')
        × (on_delete W key_func (tombstone (some s)) q ≡ q')
        × (on_delete W key_func (tombstone none) q ≡ q)
        × (on_delete W key_func other_object q ≡ q)
  unfolding on_add on_update on_delete
  events_agree s old key q e = (rw e, rw e, rw e, rw e, refl, refl)
