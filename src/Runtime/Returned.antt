-- ===== src/Runtime/Returned.antt =====
-- Chains of operations of src/pollard/runtime.py that returned.
use pollard.Common.{◌≡◌, refl, ap, sym}
use pollard.Errors.{Result, ok, err}
use pollard.Runtime.{Outcome, returned, raised, Run, Step, or_raise, after}

pub returned_injective : {A : Type 0} (v w : A) → returned v ≡ returned w → v ≡ w
returned_injective v w e = cc

module _ {S : Type 0} where
  pub same_return :
      {A : Type 0} (r r' : Run S) (v w : A)
      → ◌≡◌ {A = Run S × Outcome A} (r, returned v) (r', returned w)
      → (r' ≡ r) × (v ≡ w)
  same_return r r' v w e = (
    sym (ap (λ (p : Run S × Outcome _). p.0) e),
    returned_injective v w (ap (λ (p : Run S × Outcome _). p.1) e),
  )

  pub first_run :
      {A : Type 0} (r r' : Run S) (v w : A)
      → ◌≡◌ {A = Run S × Outcome A} (r, returned v) (r', returned w)
      → r' ≡ r
  first_run r r' v w e = sym (ap (λ (p : Run S × Outcome _). p.0) e)

  -- A chain that returned: its first operation did, and so did the rest at its value.
  pub after-returned :
      {A B : Type 0} (f : A → Step S B) (x : Run S × Outcome A) (r' : Run S) (b : B)
      → after f x ≡ (r', returned b)
      → (r₁ : Run S) × (a : A) × (x ≡ (r₁, returned a)) × (f a r₁ ≡ (r', returned b))
  unfolding after
  after-returned f (r, returned a) r' b e = (r, a, refl, e)
  after-returned f (r, raised x causes) r' b e = absurd (cc (ap (λ (p : Run S × Outcome _). p.1) e))

  -- The same, where the first is a plain computation.
  pub or_raise-returned :
      {A B : Type 0} (f : A → Step S B) (x : Result A) (r r' : Run S) (b : B)
      → after f (or_raise x r) ≡ (r', returned b)
      → (a : A) × (x ≡ ok a) × (f a r ≡ (r', returned b))
  unfolding after
  or_raise-returned f (ok a) r r' b e = (a, refl, e)
  or_raise-returned f (err x) r r' b e = absurd (cc (ap (λ (p : Run S × Outcome _). p.1) e))
