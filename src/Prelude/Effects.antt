-- ===== src/Prelude/Effects.antt =====
-- Code that may raise and changes a state: the state it leaves is kept when it raises.
use mathlib.Core.Path.{◌≡◌, refl, sym, ap, ◌∙◌}
use mathlib.Core.Logic.{◌⊎◌, inl, inr}
use issuekit.Prelude.Results.{Error, Result, ok, err}

abbrev pub Effect : Type 0 → Type 0 → Type 0
Effect S A = S → Result A × S

module _ {S A : Type 0} where
  abbrev pub return : A → Effect S A
  return a s = (ok a, s)

  abbrev pub fail : Error → Effect S A
  fail e s = (err e, s)

  -- Code that only raises.
  abbrev pub lift : Result A → Effect S A
  lift r s = (r, s)

  abbrev pub continue : {B : Type 0} → Result A × S → (A → Effect S B) → Result B × S
  continue (ok a, s) f = f a s
  continue (err e, s) f = (err e, s)

  abbrev pub then_do : {B : Type 0} → Effect S A → (A → Effect S B) → Effect S B
  then_do m f s = continue (m s) f

pub pair-cases :
    {S A : Type 0} (t : Result A × S)
    → ((a : A) × (s : S) × (t ≡ (ok a, s))) ⊎ ((e : Error) × (s : S) × (t ≡ (err e, s)))
pair-cases (ok a, s) = inl (a, s, refl)
pair-cases (err e, s) = inr (e, s, refl)

-- What a chain that ends well went through.
pub then_do-ok :
    {S A B : Type 0} (m : Effect S A) (f : A → Effect S B) (s : S) {b : B} {s' : S}
    → then_do m f s ≡ (ok b, s')
    → (a : A) × (between : S) × (m s ≡ (ok a, between)) × (f a between ≡ (ok b, s'))
then_do-ok {S = S} {B = B} m f s {b} {s'} h = elim (pair-cases (m s)) [
  | inl (a, between, e) ↦ (a, between, e, sym (ap (λ t. continue t f) e) ∙ h)
  | inr (x, between, e) ↦
      let failed : ◌≡◌ {A = Result B × S} (err x, between) (ok b, s') =
        sym (ap (λ t. continue t f) e) ∙ h in
      cc
]

-- A chain goes on after its first part, or ends with its error.
pub then_do-split :
    {S A B : Type 0} (m : Effect S A) (f : A → Effect S B) (s : S)
    → ((a : A) × (between : S) × (m s ≡ (ok a, between)) × (then_do m f s ≡ f a between))
      ⊎ ((e : Error) × (between : S) × (m s ≡ (err e, between))
          × (then_do m f s ≡ (err e, between)))
then_do-split m f s = elim (pair-cases (m s)) [
  | inl (a, between, e) ↦ inl (a, between, e, ap (λ t. continue t f) e)
  | inr (x, between, e) ↦ inr (x, between, e, ap (λ t. continue t f) e)
]
