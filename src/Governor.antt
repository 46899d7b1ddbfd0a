-- ===== src/Governor.antt =====
-- src/pollard/governor.py: budgets, and whether the estimates of a call fit them. Limits and charges are
-- exact integers in the smallest unit of a meter; a limit that is a Boolean is not representable.
pub mod Checks
pub mod Charges
use pollard.Common.{
  ℕ, String, Bool, true, false, not, ◌&&◌, List, [], ◌∷◌, Option, none, some, ◌==◌, string_eq,
  get_or, if◌then◌else◌,
}
use pollard.Common.Int.{ℤ, pos, ◌+ℤ◌, ◌-ℤ◌, ltb_ℤ}
use pollard.Common.Dict.{Dict, lookup, contains, insert}
use pollard.Common.Sort.{sorted}
use pollard.Errors.{Result, ok, err, value_error, ◌>>=◌}
use pollard.Json.Text.{str_before}

-- `extra` is the empty dictionary where the source has none.
pub record Budget : Type 0 where
  pub usd : Option ℤ
  pub tokens : Option ℤ
  pub depth : Option ℤ
  pub seconds : Option ℤ
  pub steps : Option ℤ
  pub extra : Dict String ℤ

pub data BudgetCheck : Type 0 where
  allowed : BudgetCheck
  exceeded : (meter : String) (requested remaining : ℤ) → BudgetCheck

-- `_add_limit`
unfoldable pub add_limit : Dict String ℤ → String → Option ℤ → Result (Dict String ℤ)
add_limit limits name none = ok limits
add_limit limits name (some value) =
    if ltb_ℤ value (pos 0) then err value_error else ok (insert name value limits)

unfoldable pub add_limits : Dict String ℤ → Dict String ℤ → Result (Dict String ℤ)
unfolding add_limit
add_limits limits [] = ok limits
add_limits limits ((name, value) ∷ extra) = do
  limits' ← add_limit limits name (some value)
  add_limits limits' extra

-- `Budget.limits`
unfoldable pub limits_of : Budget → Result (Dict String ℤ)
unfolding add_limits add_limit
limits_of b = do
  l₁ ← add_limit [] "usd" b.usd
  l₂ ← add_limit l₁ "tokens" b.tokens
  l₃ ← add_limit l₂ "depth" b.depth
  l₄ ← add_limit l₃ "seconds" b.seconds
  l₅ ← add_limit l₄ "steps" b.steps
  add_limits l₅ b.extra

-- `d.get(meter, Decimal("0"))`
abbrev pub amount_of : String → Dict String ℤ → ℤ
amount_of meter amounts = get_or (pos 0) (lookup meter amounts)

abbrev pub exhausted_limit : Option ℤ → String → ℤ → BudgetCheck → BudgetCheck
exhausted_limit none meter already rest = rest
exhausted_limit (some limit) meter already rest = exceeded meter (pos 0) (limit -ℤ already)

-- The loop over the exhausted meters, which are sorted: the first that has a limit refuses the call.
unfoldable pub check_exhausted : Dict String ℤ → Dict String ℤ → List String → BudgetCheck
check_exhausted limits spent [] = allowed
check_exhausted limits spent (meter ∷ meters) =
    exhausted_limit (lookup meter limits) meter (amount_of meter spent)
      (check_exhausted limits spent meters)

abbrev pub estimate_limit : Option ℤ → String → ℤ → ℤ → BudgetCheck → BudgetCheck
estimate_limit none meter already requested rest = rest
estimate_limit (some limit) meter already requested rest =
    let remaining = limit -ℤ already in
    if ltb_ℤ (remaining -ℤ requested) (pos 0) then exceeded meter requested remaining else rest

-- The loop over the estimates: the first that does not fit what remains refuses the call.
unfoldable pub check_estimates : Dict String ℤ → Dict String ℤ → Dict String ℤ → BudgetCheck
check_estimates limits spent [] = allowed
check_estimates limits spent ((meter, requested) ∷ estimates) =
    estimate_limit (lookup meter limits) meter (amount_of meter spent) requested
      (check_estimates limits spent estimates)

abbrev pub or_else : BudgetCheck → BudgetCheck → BudgetCheck
or_else allowed next = next
or_else (exceeded meter requested remaining) next = exceeded meter requested remaining

abbrev pub check_limits : Dict String ℤ → Dict String ℤ → Dict String ℤ → List String → BudgetCheck
check_limits limits spent estimates exhausted =
    or_else (check_exhausted limits spent (sorted str_before exhausted))
      (check_estimates limits spent estimates)

unfoldable pub check_budget :
    Option Budget → Dict String ℤ → Dict String ℤ → List String → Result BudgetCheck
check_budget none spent estimates exhausted = ok allowed
check_budget (some budget) spent estimates exhausted = do
  limits ← limits_of budget
  ok (check_limits limits spent estimates exhausted)

-- The meters whose limit is passed.
unfoldable pub over_limit : Dict String ℤ → Dict String ℤ → List String
over_limit spent [] = []
over_limit spent ((meter, limit) ∷ limits) =
    let rest = over_limit spent limits in
    if ltb_ℤ limit (amount_of meter spent) then meter ∷ rest else rest

unfoldable pub exhausted_after_settle : Option Budget → Dict String ℤ → Result (List String)
unfolding over_limit
exhausted_after_settle none spent = ok []
exhausted_after_settle (some budget) spent = do
  limits ← limits_of budget
  ok (over_limit spent limits)
