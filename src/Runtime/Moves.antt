-- ===== src/Runtime/Moves.antt =====
-- What every operation of src/pollard/runtime.py keeps, whether it returns or raises.
use pollard.Errors.{Result, ok, err}
use pollard.Runtime.{Outcome, returned, raised, Run, Step, or_raise, attempt, after, ◌>>=◌}

-- A relation between the run before and after, which operations in a row compose.
pub record Relation (S : Type 0) : Type 1 where
  pub rel : Run S → Run S → Type 0
  pub same : (r : Run S) → rel r r
  pub next : (r₁ r₂ r₃ : Run S) → rel r₁ r₂ → rel r₂ r₃ → rel r₁ r₃

module _ {S : Type 0} (R : Relation S) where
  -- The operation moves the run along the relation, from every run.
  abbrev pub Moves : {A : Type 0} → Step S A → Type 0
  Moves m = (r : Run S) → R.rel r (m r).0

  pub after-rel :
      {A B : Type 0} (f : A → Step S B) (r : Run S) (x : Run S × Outcome A)
      → R.rel r x.0
      → ((a : A) (r' : Run S) → R.rel r' (f a r').0)
      → R.rel r (after f x).0
  unfolding after
  after-rel f r (r', returned a) h hf = R.next r r' (f a r').0 h (hf a r')
  after-rel f r (r', raised e causes) h hf = h

  pub Moves-bind :
      {A B : Type 0} (m : Step S A) (f : A → Step S B)
      → Moves m
      → ((a : A) → Moves (f a))
      → Moves (m >>= f)
  Moves-bind m f hm hf r = after-rel f r (m r) (hm r) hf

  pub Moves-attempt : {A : Type 0} (m : Step S A) → Moves m → Moves (attempt m)
  Moves-attempt m hm r = hm r

  pub Moves-or_raise : {A : Type 0} (x : Result A) → Moves (or_raise x)
  Moves-or_raise (ok a) r = R.same r
  Moves-or_raise (err e) r = R.same r
