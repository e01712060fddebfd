-- ===== src/Clusters/Halves.antt =====
-- `parseHalves` in internal/controller/clusters/cluster_controller.go, at separators of one
-- character, and the target app that it reads back.
use Prim.Native.String.{◌++◌ as ◌<>◌}
use text.Mathlib.TextLemmas.{nil-append, cons-append}
use text.Mathlib.TextEquality.{Char-path}
use vcluster_rancher_operato.Prelude.{
  ℕ, Char, code, String, ◌≡◌, refl, ap, sym, ◌∙◌, ◌≢◌, ◌↔◌, List, [], ◌∷◌, eqb, arith, Bool-cases,
  inl, inr,
}
use vcluster_rancher_operato.Strings.{split, join, push_front}
use vcluster_rancher_operato.Strings.Laws.{
  Lacks, split-ne-nil, split-Lacks, split_of_Lacks, split-append,
}
use vcluster_rancher_operato.Errors.{Result, ok, err, plain}

abbrev halves : List String → Result (String × String)
halves (first ∷ second ∷ []) = ok (first, second)
halves _ =
    err (plain "invalid project name [%s], expect to have the format <cluster-id:project-id>")

unfoldable pub parse_halves : String → ℕ → Result (String × String)
unfolding split
parse_halves name separator = halves (split separator name)

join-push_front :
    (sep : String) (c : Char) (parts : List String)
    → parts ≢ []
    → join sep (push_front c parts) ≡ String.◌∷◌ c (join sep parts)
unfolding join
join-push_front sep c [] h = absurd (h refl)
join-push_front sep c (x ∷ []) h = refl
join-push_front sep c (x ∷ y ∷ parts) h = rw cons-append

join_empty_first :
    (sep : String) (parts : List String)
    → parts ≢ []
    → join sep ("" ∷ parts) ≡ sep <> join sep parts
unfolding join
join_empty_first sep [] h = absurd (h refl)
join_empty_first sep (x ∷ parts) h = nil-append (sep <> join sep (x ∷ parts))

-- Joining the parts of a split gives the text back.
join-split : (sep : Char) (s : String) → join (String.◌∷◌ sep "") (split (code sep) s) ≡ s
unfolding split join
join-split sep String.[] = refl
join-split sep (String.◌∷◌ c s) = elim (Bool-cases (eqb (code c) (code sep))) [
  | inl ends ↦
      let same : c ≡ sep = Char-path c sep (ground arith) in
      rw ends (
        join_empty_first (String.◌∷◌ sep "") (split (code sep) s) (split-ne-nil (code sep) s)
        ∙ rw (join-split sep s)
            (rw cons-append (rw nil-append (ap (λ d. String.◌∷◌ d s) (sym same)))))
  | inr inside ↦ rw inside (
      join-push_front (String.◌∷◌ sep "") c (split (code sep) s) (split-ne-nil (code sep) s)
      ∙ ap (λ r. String.◌∷◌ c r) (join-split sep s))
]

halves-ok : (parts : List String) (a b : String) → halves parts ≡ ok (a, b) → parts ≡ a ∷ b ∷ []
halves-ok [] a b e = cc
halves-ok (x ∷ []) a b e = cc
halves-ok (x ∷ y ∷ []) a b e = ground arith
halves-ok (x ∷ y ∷ z ∷ parts) a b e = cc

-- A text is parsed as two halves exactly when it consists of them with the separator in between,
-- and neither holds the separator.
pub parse_halves-ok_iff :
    (sep : Char) (name a b : String)
    → (parse_halves name (code sep) ≡ ok (a, b))
      ↔ ((name ≡ a <> (String.◌∷◌ sep "" <> b)) × Lacks (code sep) a × Lacks (code sep) b)
unfolding parse_halves join
parse_halves-ok_iff sep name a b = (
  λ e.
      let parts = halves-ok (split (code sep) name) a b e in
      let lacking = rw parts at (split-Lacks (code sep) name) in
      (sym (rw parts at (join-split sep name)), lacking.0, lacking.1.0),
  λ e. rw e.0 (rw (split-append sep a b e.1) (rw (split_of_Lacks (code sep) b e.2) refl)),
)
