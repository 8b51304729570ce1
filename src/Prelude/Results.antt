-- ===== src/Prelude/Results.antt =====
-- errors.py: exceptions as values. Messages are not modelled, the machine-readable codes are.
use Prim.Native.String.{String}
use mathlib.Core.Path.{◌≡◌, refl, sym, ap, ◌∙◌}
use mathlib.Core.Logic.{◌⊎◌, inl, inr}
use mathlib.Core.Bool.{Bool, true, false}

-- The exceptions that the modelled code raises: `WorkflowError` with the code it carries,
-- `ValueError`, `LookupError`, `TimeoutError`, `LocalConfigError`, the parse errors of prompts and `ProposalError`.
pub data Error : Type 0 where
  workflow : String → Error
  plain_workflow value_error lookup_error timeout_error local_config_error parse_error
        proposal_error :
      Error

pub data Result {ℓ} (A : Type ℓ) : Type ℓ where
  ok : A → Result A
  err : Error → Result A

infixl 5 ◌>>=◌ ◌>>◌
abbrev pub ◌>>=◌ {ℓ κ} : {A : Type ℓ} {B : Type κ} → Result A → (A → Result B) → Result B
ok a >>= f = f a
err e >>= f = err e

abbrev pub ◌>>◌ {ℓ κ} : {A : Type ℓ} {B : Type κ} → Result A → Result B → Result B
m >> k = m >>= λ _. k

-- `if not test: raise e`
abbrev pub guard : Bool → Error → Result (Unit {0})
guard true e = ok tt
guard false e = err e

abbrev pub raised {ℓ} : {A : Type ℓ} → Result A → Bool
raised (ok a) = false
raised (err e) = true

pub Result-cases {ℓ} :
    {A : Type ℓ} (r : Result A) → ((a : A) × (r ≡ ok a)) ⊎ ((e : Error) × (r ≡ err e))
Result-cases (ok a) = inl (a, refl)
Result-cases (err e) = inr (e, refl)

pub guard_ok : (test : Bool) (e : Error) {u : Unit {0}} → guard test e ≡ ok u → test ≡ true
guard_ok true e h = refl
guard_ok false e h = cc

module _ {A B : Type 0} where
  -- What a chain that comes to a result went through.
  pub bind_ok :
      (first : Result A) (next : A → Result B) {last : B}
      → first >>= next ≡ ok last
      → (between : A) × (first ≡ ok between) × (next between ≡ ok last)
  bind_ok first next {last} ended = elim (Result-cases first) [
    | inr (e, failed) ↦ let bad = sym (ap (λ r. r >>= next) failed) ∙ ended in cc
    | inl (between, came) ↦ (between, came, sym (ap (λ r. r >>= next) came) ∙ ended)
  ]
