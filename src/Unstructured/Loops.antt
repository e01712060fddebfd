-- ===== src/Unstructured/Loops.antt =====
-- Reasoning on `ForEachItem`.
use mathlib.Core.List.{append_assoc}
use vcluster_rancher_operato.Prelude.{
  ℕ, suc, ◌≡◌, refl, ◌∙◌, Option, none, List, [], ◌∷◌, ◌++◌, map, length, replicate, set_at,
  set_at-append, length-append, arith,
}
use vcluster_rancher_operato.Errors.{Error}
use vcluster_rancher_operato.Unstructured.{Unstructured, for_each_from, for_each_item}

module _ {S : Type 0} (do_func : ℕ → Unstructured → S → Option Error × S)
    (R : List Unstructured → S → Type 0)
    (step : (index : ℕ) (item : Unstructured) (items : List Unstructured) (s : S)
      → R (item ∷ items) s
      → R items (do_func index item s).1) where
  for_each_from-invariant :
      (index : ℕ) (items : List Unstructured) (s : S)
      → R items s
      → R [] (for_each_from do_func index items s).1
  unfolding for_each_from
  for_each_from-invariant index [] s h = h
  for_each_from-invariant index (item ∷ items) s h =
      for_each_from-invariant (suc index) items (do_func index item s).1 (step index item items s h)

  -- What holds of the items that are left and the state, and is kept by each visit, holds at the
  -- end.
  pub for_each_item-invariant :
      (items : List Unstructured) (s : S) → R items s → R [] (for_each_item do_func items s).1
  unfolding for_each_item
  for_each_item-invariant items s h = for_each_from-invariant 0 items s h

module _ {B : Type 0} (f : Unstructured → B) (blank : B) where
  -- The loop that fills a slice of as many entries as there are items.
  abbrev pub fill : ℕ → Unstructured → List B → Option Error × List B
  fill index item bs = (none, set_at index (f item) bs)

  for_each_from-fill :
      (index : ℕ) (items : List Unstructured) (done : List B)
      → index ≡ length done
      → (for_each_from fill index items (done ++ replicate (length items) blank)).1
        ≡ done ++ map f items
  unfolding for_each_from
  for_each_from-fill index [] done e = refl
  for_each_from-fill index (item ∷ items) done e =
      rw (e, set_at-append done (f item) blank (replicate (length items) blank))
        (for_each_from-fill (suc (length done)) items (done ++ f item ∷ [])
            (omega (arith, length-append done (f item ∷ [])))
          ∙ simp append_assoc)

  -- It leaves the images of the items, in their order.
  pub for_each_item-fill :
      (items : List Unstructured)
      → (for_each_item fill items (replicate (length items) blank)).1 ≡ map f items
  unfolding for_each_item
  for_each_item-fill items = for_each_from-fill 0 items [] refl
