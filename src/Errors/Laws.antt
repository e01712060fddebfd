-- ===== src/Errors/Laws.antt =====
-- Joined errors.
use vcluster_rancher_operato.Prelude.{◌≡◌, refl, Option, none, some, List, [], ◌∷◌, All, arith, ◌↔◌}
use vcluster_rancher_operato.Errors.{Error, join}

-- A join is nil exactly when all its errors are.
pub join-eq-none_iff : (es : List (Option Error)) → (join es ≡ none) ↔ All (λ e. e ≡ none) es
unfolding join
join-eq-none_iff [] = (λ _. tt, λ _. refl)
join-eq-none_iff (none ∷ es) =
    (λ h. (refl, (join-eq-none_iff es).0 h), λ h. (join-eq-none_iff es).1 h.1)
join-eq-none_iff (some e ∷ es) = ground arith
