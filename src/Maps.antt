-- ===== src/Maps.antt =====
-- Go's `map[string]V` as an association list. A map with a nil pointer and an empty map read
-- alike, and both are `[]` here; where the code writes to a map that may be nil, the model keeps
-- an `Option`.
pub mod Laws
use vcluster_rancher_operato.Prelude.{
  String, ◌==◌, Bool, true, false, Option, none, some, List, [], ◌∷◌, map, if◌then◌else◌,
}

abbrev pub Map {ℓ} : Type ℓ → Type ℓ
Map V = List (String × V)

-- `map[string]string`
abbrev pub StringMap : Type 0
StringMap = Map String

module _ {ℓ} {V : Type ℓ} where
  -- `value, ok := m[key]`
  unfoldable pub lookup : String → Map V → Option V
  lookup key [] = none
  lookup key ((first, value) ∷ rest) = if first == key then some value else lookup key rest

  -- `m[key] = value`
  unfoldable pub insert : String → V → Map V → Map V
  insert key value [] = (key, value) ∷ []
  insert key value ((first, old) ∷ rest) =
      let others = insert key value rest in
      if first == key then (key, value) ∷ rest else (first, old) ∷ others

  -- `delete(m, k)`
  unfoldable pub delete : String → Map V → Map V
  delete k [] = []
  delete k ((j, w) ∷ m) = let rest = delete k m in if j == k then rest else (j, w) ∷ rest

  -- the keys of the map
  unfoldable pub keys : Map V → List String
  keys [] = []
  keys ((k, v) ∷ m) = k ∷ keys m

-- The zero value of a missing entry.
abbrev pub or_empty : Option String → String
or_empty none = ""
or_empty (some v) = v

-- `m[k]` of a `map[string]string`: a missing key reads as the empty text.
unfoldable pub get : StringMap → String → String
unfolding lookup
get m k = or_empty (lookup k m)
