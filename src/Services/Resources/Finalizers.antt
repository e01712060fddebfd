-- ===== src/Services/Resources/Finalizers.antt =====
-- The cleanup finalizer of a management cluster.
use vcluster_rancher_operato.Prelude.{
  true, false, refl, ap, contains, Bool-cases, inl, inr, ℕ, suc, ◌+◌, ◌-◌, String, ◌==◌, eq_iff,
  ◌≡◌, List, [], ◌∷◌, ◌++◌, if◌then◌else◌, arith,
}
use vcluster_rancher_operato.Maps.{get}
use vcluster_rancher_operato.Constants.{annotation_uninstall_on_delete, finalizer_vcluster_app}
use vcluster_rancher_operato.Unstructured.{Unstructured}
use vcluster_rancher_operato.Kube.{Service}
use vcluster_rancher_operato.Services.Resources.{delete_first, mark_for_cleanup}

abbrev pub count : String → List String → ℕ
count f [] = 0
count f (g ∷ gs) = if g == f then suc (count f gs) else count f gs

count-append : (f : String) (gs hs : List String) → count f (gs ++ hs) ≡ count f gs + count f hs
count-append f [] hs = omega arith
count-append f (g ∷ gs) hs = ground (arith, count-append f gs hs)

count-delete_first :
    (f g : String) (gs : List String)
    → count f (delete_first g gs) ≡ (if g == f then count f gs - 1 else count f gs)
unfolding delete_first
count-delete_first f g [] = ground arith
count-delete_first f g (x ∷ gs) =
    ground (arith, eq_iff x g, eq_iff x f, eq_iff g f, count-delete_first f g gs)

-- What the removal of the first occurrence leaves.
pub delete_first-split :
    (f : String) (fs : List String)
    → contains f fs ≡ true
    → (before others : List String) × (fs ≡ before ++ f ∷ others)
      × (contains f before ≡ false)
      × (delete_first f fs ≡ before ++ others)
unfolding delete_first
delete_first-split f [] h = cc
delete_first-split f (g ∷ fs) h = elim (Bool-cases (g == f)) [
  | inl same ↦
      let e = (eq_iff g f).0 same in
      ([], fs, ap (λ x. x ∷ fs) e, refl, rw (same, delete_first) refl)
  | inr differ ↦
      let (before, others, split, first, deleted) =
        delete_first-split f fs (ground (arith, eq_iff g f, eq_iff f g)) in
      (
        g ∷ before,
        others,
        ap (λ xs. g ∷ xs) split,
        ground (arith, eq_iff g f, eq_iff f g),
        rw (differ, delete_first) (ap (λ xs. g ∷ xs) deleted),
      )
]

-- With the annotation "true" a reconciliation of a pending cluster adds the cleanup finalizer once
-- more, also where it is present; without it, it removes one occurrence. Other finalizers keep their number.
pub count-mark_for_cleanup :
    (service : Service) (cluster : Unstructured) (f : String)
    → let before = count f cluster.finalizers in
      count f (mark_for_cleanup service cluster).finalizers ≡ (
        if finalizer_vcluster_app == f
        then (if get service.annotations annotation_uninstall_on_delete == "true"
            then before + 1
            else before - 1)
        else before)
unfolding mark_for_cleanup
count-mark_for_cleanup service cluster f = ground (
  arith,
  count-append f cluster.finalizers (finalizer_vcluster_app ∷ []),
  count-delete_first f finalizer_vcluster_app cluster.finalizers,
)
