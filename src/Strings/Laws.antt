-- ===== src/Strings/Laws.antt =====
-- Laws of splitting, joining and cutting texts.
use Prim.Native.String.{len, ◌++◌ as ◌<>◌}
use Prim.Native.String.len
use Prim.Native.Char.{len_utf8}
use text.Mathlib.TextLemmas.{nil-append, cons-append, append_cancel_right}
use text.Mathlib.TextEquality.{Char-path}
use vcluster_rancher_operato.Prelude.{
  ℕ, ◌+◌, ◌-◌, ◌≤◌, Char, code, String, ◌≡◌, refl, ap, sym, ◌∙◌, ◌≢◌, Bool, true, false, not, ◌&&◌,
  List, [], ◌∷◌, eqb, leb, arith, All, inl, inr, Bool-cases,
}
use vcluster_rancher_operato.Strings.{has_suffix, trim_suffix, split, join, take_bytes}

-- No character of the text has the code `sep`.
abbrev pub Lacks : ℕ → String → Type 0
Lacks sep String.[] = Unit
Lacks sep (String.◌∷◌ c s) = (eqb (code c) sep ≡ false) × Lacks sep s

-- The test of the same.
abbrev pub lacks : ℕ → String → Bool
lacks sep String.[] = true
lacks sep (String.◌∷◌ c s) = not (eqb (code c) sep) && lacks sep s

pub lacks-Lacks : (sep : ℕ) (s : String) → lacks sep s ≡ true → Lacks sep s
lacks-Lacks sep String.[] h = tt
lacks-Lacks sep (String.◌∷◌ c s) h = (ground arith, lacks-Lacks sep s (ground arith))

pub len-take_bytes : (n : ℕ) (s : String) → len (take_bytes n s) ≤ n
unfolding take_bytes
len-take_bytes n String.[] = omega arith
len-take_bytes n (String.◌∷◌ c s) = elim (Bool-cases (leb (len_utf8 c) n)) [
  | inl fits ↦
      let below : len_utf8 c ≤ n = ground arith in
      rw fits (rw len.cons (omega (arith, len-take_bytes (n - len_utf8 c) s)))
  | inr over ↦ rw over (omega arith)
]

pub take_bytes_all : (n : ℕ) (s : String) → len s ≤ n → take_bytes n s ≡ s
unfolding take_bytes
take_bytes_all n String.[] h = refl
take_bytes_all n (String.◌∷◌ c s) h =
    let whole : len_utf8 c + len s ≤ n = rw len.cons at h in
    ground (arith, take_bytes_all (n - len_utf8 c) s (omega arith))

pub has_suffix-append : (s : String) (c : Char) → has_suffix (s <> String.◌∷◌ c "") (code c) ≡ true
unfolding has_suffix
has_suffix-append String.[] c = rw nil-append (ground arith)
has_suffix-append (String.◌∷◌ d String.[]) c = rw cons-append (rw nil-append (ground arith))
has_suffix-append (String.◌∷◌ d (String.◌∷◌ e s)) c =
    let behind : has_suffix (String.◌∷◌ e (s <> String.◌∷◌ c "")) (code c) ≡ true =
      rw cons-append at (has_suffix-append (String.◌∷◌ e s) c) in
    rw (cons-append, cons-append) behind

-- A text that ends in the character is what `TrimSuffix` leaves, with the character behind it.
pub trim_suffix-append :
    (s : String) (c : Char)
    → has_suffix s (code c) ≡ true
    → trim_suffix s (code c) <> String.◌∷◌ c "" ≡ s
unfolding has_suffix trim_suffix
trim_suffix-append String.[] c h = cc
trim_suffix-append (String.◌∷◌ d String.[]) c h =
    let same : d ≡ c = Char-path d c (ground arith) in
    rw h (rw nil-append (ap (λ x. String.◌∷◌ x "") (sym same)))
trim_suffix-append (String.◌∷◌ d (String.◌∷◌ e s)) c h =
    rw cons-append (ap (λ r. String.◌∷◌ d r) (trim_suffix-append (String.◌∷◌ e s) c h))

pub split-ne-nil : (sep : ℕ) (s : String) → split sep s ≢ []
unfolding split
split-ne-nil sep String.[] h = cc
split-ne-nil sep (String.◌∷◌ c s) h = ground arith

pub split_of_Lacks : (sep : ℕ) (s : String) → Lacks sep s → split sep s ≡ s ∷ []
unfolding split
split_of_Lacks sep String.[] h = refl
split_of_Lacks sep (String.◌∷◌ c s) h = rw (h.0, split_of_Lacks sep s h.1)

-- A separator behind a part that lacks it ends that part.
pub split-append :
    (sep : Char) (s t : String)
    → Lacks (code sep) s
    → split (code sep) (s <> (String.◌∷◌ sep "" <> t)) ≡ s ∷ split (code sep) t
unfolding split
split-append sep String.[] t h = rw nil-append (rw (cons-append, nil-append) (ground arith))
split-append sep (String.◌∷◌ c s) t h = rw cons-append (rw (h.0, split-append sep s t h.1))

-- What a split gives holds no separator.
pub split-Lacks : (sep : ℕ) (s : String) → All (Lacks sep) (split sep s)
unfolding split
split-Lacks sep String.[] = (tt, tt)
split-Lacks sep (String.◌∷◌ c s) = ground (arith, split-Lacks sep s)

-- Splitting undoes joining, if no part holds the separator.
pub split-join :
    (sep : Char) (part : String) (parts : List String)
    → All (Lacks (code sep)) (part ∷ parts)
    → split (code sep) (join (String.◌∷◌ sep "") (part ∷ parts)) ≡ part ∷ parts
unfolding join
split-join sep part [] h = split_of_Lacks (code sep) part h.0
split-join sep part (next ∷ parts) h =
    split-append sep part _ h.0 ∙ ap (λ r. part ∷ r) (split-join sep next parts h.1)

pub Lacks-append : (sep : ℕ) (s t : String) → Lacks sep s → Lacks sep t → Lacks sep (s <> t)
Lacks-append sep String.[] t h k = rw nil-append k
Lacks-append sep (String.◌∷◌ c s) t h k = rw cons-append (h.0, Lacks-append sep s t h.1 k)

-- `TrimSuffix` takes away a character that was put behind a text.
pub trim_suffix-append_self :
    (s : String) (c : Char) → trim_suffix (s <> String.◌∷◌ c "") (code c) ≡ s
trim_suffix-append_self s c =
    append_cancel_right (trim_suffix (s <> String.◌∷◌ c "") (code c)) s (String.◌∷◌ c "")
      (trim_suffix-append (s <> String.◌∷◌ c "") c (has_suffix-append s c))
