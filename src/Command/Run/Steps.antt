-- ===== src/Command/Run/Steps.antt =====
-- What a step that goes on has proceed.
use vcluster_rancher_operato.Prelude.{◌≡◌, refl, Option, none, some, arith, Option-cases, inl, inr}
use vcluster_rancher_operato.Errors.{Error, Result, ok, err}
use vcluster_rancher_operato.Command.Run.{next, or_exit, exit_on, Proceed}

pub next-some :
    {T U World : Type 0} (step : World → Option T × World) (rest : T → World → Option U × World)
    (w : World) (u : U)
    → (next step rest w).0 ≡ some u
    → (t : T) × ((step w).0 ≡ some t) × ((rest t (step w).1).0 ≡ some u)
unfolding next
next-some step rest w u e = elim (Option-cases (step w).0) [
  | inl exits ↦ cc (rw (exits, next) at e)
  | inr (t, goes_on) ↦ (t, goes_on, rw (goes_on, next) at e)
]

pub exit_on-some :
    {World : Type 0} (r : Option Error × World) (u : Proceed)
    → (exit_on r).0 ≡ some u
    → (r.0 ≡ none) × ((exit_on r).1 ≡ r.1)
exit_on-some (none, w) u e = (refl, refl)
exit_on-some (some failure, w) u e = cc

pub or_exit-some :
    {T World : Type 0} (r : Result T × World) (t : T)
    → (or_exit r).0 ≡ some t
    → (r.0 ≡ ok t) × ((or_exit r).1 ≡ r.1)
or_exit-some (ok s, w) t e = (ground (arith, e), refl)
or_exit-some (err failure, w) t e = cc
