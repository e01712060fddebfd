-- ===== src/Strings.antt =====
-- The functions of Go's package `strings` that the operator calls. A Go string is a text of
-- characters; `len` counts the bytes of its UTF-8 form, as Go does.
pub mod Laws
use Prim.Native.String.{len, ◌++◌ as ◌<>◌}
use Prim.Native.Char.{len_utf8}
use vcluster_rancher_operato.Prelude.{
  ℕ, ◌-◌, Char, code, String, Bool, true, false, Option, none, some, List, [], ◌∷◌, eqb, leb,
  if◌then◌else◌,
}

-- `strings.HasSuffix` at a text of one character, given by its code.
unfoldable pub has_suffix : String → ℕ → Bool
has_suffix String.[] c = false
has_suffix (String.◌∷◌ d String.[]) c = eqb (code d) c
has_suffix (String.◌∷◌ d (String.◌∷◌ e s)) c = has_suffix (String.◌∷◌ e s) c

-- `strings.TrimSuffix` at a text of one character
unfoldable pub trim_suffix : String → ℕ → String
trim_suffix String.[] c = ""
trim_suffix (String.◌∷◌ d String.[]) c = if eqb (code d) c then "" else String.◌∷◌ d ""
trim_suffix (String.◌∷◌ d (String.◌∷◌ e s)) c = String.◌∷◌ d (trim_suffix (String.◌∷◌ e s) c)

-- A character in front of the first part.
abbrev pub push_front : Char → List String → List String
push_front c [] = String.◌∷◌ c "" ∷ []
push_front c (part ∷ parts) = String.◌∷◌ c part ∷ parts

-- `strings.Split` at a separator of one character
unfoldable pub split : ℕ → String → List String
split sep String.[] = "" ∷ []
split sep (String.◌∷◌ c s) =
    let parts = split sep s in if eqb (code c) sep then "" ∷ parts else push_front c parts

-- `strings.Join`
unfoldable pub join : String → List String → String
join sep [] = ""
join sep (part ∷ []) = part
join sep (part ∷ next ∷ parts) = part <> (sep <> join sep (next ∷ parts))

-- `s[:n]`: the first `n` bytes. A character that the cut would divide is left out.
unfoldable pub take_bytes : ℕ → String → String
take_bytes n String.[] = ""
take_bytes n (String.◌∷◌ c s) =
    let rest = take_bytes (n - len_utf8 c) s in if leb (len_utf8 c) n then String.◌∷◌ c rest else ""

-- `strings.CutPrefix`: what is behind a prefix.
unfoldable pub cut_prefix : String → String → Option String
cut_prefix String.[] s = some s
cut_prefix (String.◌∷◌ c old) String.[] = none
cut_prefix (String.◌∷◌ c old) (String.◌∷◌ d s) =
    if eqb (code c) (code d) then cut_prefix old s else none

-- `strings.Replace(s, old, new, 1)` at a text `old` that is not empty: the first occurrence.
unfoldable pub replace_first : String → String → String → String
unfolding cut_prefix
replace_first old new String.[] = ""
replace_first old new (String.◌∷◌ c s) = elim (cut_prefix old (String.◌∷◌ c s)) [
  | some rest ↦ new <> rest
  | none ↦ String.◌∷◌ c (replace_first old new s)
]
