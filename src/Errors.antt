-- ===== src/Errors.antt =====
-- Go's errors as values: what `fmt.Errorf`, `errors.New`, `errors.Join` and the API machinery make,
-- and the tests `errors.Is` and `kerrors.IsNotFound` on their chains.
pub mod Laws
use vcluster_rancher_operato.Prelude.{
  ℕ, String, ◌≡◌, refl, ◌⊎◌, inl, inr, Bool, true, false, ◌||◌, Option, none, some, List, [], ◌∷◌,
}

-- The error values of package `services` that callers tell apart by identity.
pub data Sentinel : Type 0 where
  rancher_resources_pending agent_install_job_in_progress : Sentinel

-- The reason in the status of an error of the API server.
pub data Reason : Type 0 where
  not_found already_exists conflict : Reason
  other : String → Reason

pub data Error : Type 0 where
  api : Reason → Error
  sentinel : Sentinel → Error
  -- `errors.New`, `fmt.Errorf` without `%w`, and errors of other packages
  plain : String → Error
  -- `fmt.Errorf` with `%w`; the text is the format in front of it
  wrap : String → Error → Error
  -- `errors.Join` of two errors
  joined : Error → Error → Error
  -- gomega's `AggregateError`, which does not unwrap; the number of its errors
  aggregate : ℕ → Error

pub data Result {ℓ} (A : Type ℓ) : Type ℓ where
  ok : A → Result A
  err : Error → Result A

-- Whether a call failed.
abbrev pub is_err {ℓ} : {A : Type ℓ} → Result A → Bool
is_err (ok a) = false
is_err (err e) = true

abbrev first_reason : Option Reason → Option Reason → Option Reason
first_reason none later = later
first_reason (some r) later = some r

-- The reason of the first API error in the chain, which `kerrors.ReasonForError` finds.
unfoldable pub reason : Error → Option Reason
reason (api r) = some r
reason (wrap _ e) = reason e
reason (joined a b) = first_reason (reason a) (reason b)
reason _ = none

abbrev is_not_found_reason : Option Reason → Bool
is_not_found_reason (some not_found) = true
is_not_found_reason _ = false

abbrev is_already_exists_reason : Option Reason → Bool
is_already_exists_reason (some already_exists) = true
is_already_exists_reason _ = false

abbrev is_conflict_reason : Option Reason → Bool
is_conflict_reason (some conflict) = true
is_conflict_reason _ = false

-- `kerrors.IsNotFound`
unfoldable pub is_not_found : Error → Bool
unfolding reason
is_not_found e = is_not_found_reason (reason e)

-- `kerrors.IsAlreadyExists`
unfoldable pub is_already_exists : Error → Bool
unfolding reason
is_already_exists e = is_already_exists_reason (reason e)

-- `kerrors.IsConflict`
unfoldable pub is_conflict : Error → Bool
unfolding reason
is_conflict e = is_conflict_reason (reason e)

abbrev same : Sentinel → Sentinel → Bool
same rancher_resources_pending rancher_resources_pending = true
same agent_install_job_in_progress agent_install_job_in_progress = true
same _ _ = false

-- `errors.Is(err, target)` at one of the sentinels
unfoldable pub errors_is : Error → Sentinel → Bool
errors_is (sentinel s) t = same s t
errors_is (wrap _ e) t = errors_is e t
errors_is (joined a b) t = errors_is a t || errors_is b t
errors_is _ t = false

-- `errors.Join`: nil errors are left out, and nothing but nil gives nil.
unfoldable pub join : List (Option Error) → Option Error
join [] = none
join (none ∷ es) = join es
join (some e ∷ es) = let rest = join es in elim rest [ none ↦ some e | some r ↦ some (joined e r) ]

pub Result-cases {ℓ} :
    {A : Type ℓ} (r : Result A) → ((a : A) × (r ≡ ok a)) ⊎ ((e : Error) × (r ≡ err e))
Result-cases (ok a) = inl (a, refl)
Result-cases (err e) = inr (e, refl)

pub ok-injective {ℓ} : {A : Type ℓ} {a b : A} → ok a ≡ ok b → a ≡ b
ok-injective e = cc
