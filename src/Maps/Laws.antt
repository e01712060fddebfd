-- ===== src/Maps/Laws.antt =====
-- What a map holds after a write.
use vcluster_rancher_operato.Prelude.{
  ◌≢◌, Option-cases, true, Bool-cases, inl, inr, String, ◌==◌, ◌≡◌, refl, false, none, some, [],
  ◌∷◌, if◌then◌else◌, arith, eq_iff, contains,
}
use vcluster_rancher_operato.Maps.{Map, StringMap, get, lookup, insert, delete, keys}

module _ {ℓ} {V : Type ℓ} where
  pub lookup-insert :
      (written read : String) (value : V) (m : Map V)
      → lookup read (insert written value m)
        ≡ (if written == read then some value else lookup read m)
  unfolding lookup insert
  lookup-insert written read value [] = refl
  lookup-insert written read value ((first, old) ∷ rest) = ground (
    arith,
    lookup-insert written read value rest,
    eq_iff first written,
    eq_iff first read,
    eq_iff written read,
  )

  pub lookup-delete :
      (k j : String) (m : Map V) → lookup j (delete k m) ≡ (if k == j then none else lookup j m)
  unfolding lookup delete
  lookup-delete k j [] = ground arith
  lookup-delete k j ((i, w) ∷ m) =
      ground (arith, eq_iff k j, eq_iff i k, eq_iff i j, lookup-delete k j m)

  pub lookup_absent : (k : String) (m : Map V) → contains k (keys m) ≡ false → lookup k m ≡ none
  unfolding lookup keys
  lookup_absent k [] h = refl
  lookup_absent k ((j, v) ∷ m) h = ground (arith, eq_iff j k, eq_iff k j, lookup_absent k m)

  pub lookup_present :
      (k : String) (m : Map V) → contains k (keys m) ≡ true → (v : V) × (lookup k m ≡ some v)
  unfolding lookup keys
  lookup_present k [] h = cc
  lookup_present k ((j, v) ∷ m) h = elim (Bool-cases (j == k)) [
    | inl same ↦ (v, rw same refl)
    | inr differ ↦
        let (w, there) = lookup_present k m (ground (arith, eq_iff j k, eq_iff k j)) in
        (w, rw differ there)
  ]

pub lookup_of_get : (m : StringMap) (k v : String) → get m k ≡ v → v ≢ "" → lookup k m ≡ some v
unfolding get
lookup_of_get m k v e named = elim (Option-cases (lookup k m)) [
  | inl absent ↦ absurd (named (ground (arith, e, absent)))
  | inr (u, present) ↦ ground (arith, e, present)
]
