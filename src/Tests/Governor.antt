-- ===== src/Tests/Governor.antt =====
-- Examples of budgets: ten dollars, of which seven or twelve are spent.
use pollard.Common.{String, ◌≡◌, ◌↔◌, refl, [], ◌∷◌, none, some, All, string_eq}
use pollard.Common.Int.{ℤ, pos, ◌-ℤ◌}
use pollard.Common.Dict.{Dict}
use pollard.Errors.{ok, err, value_error}
use pollard.Common.Int.{negsuc}
use pollard.Governor.{
  Budget, allowed, exceeded, check_budget, check_exhausted, check_estimates, limits_of, add_limits,
  add_limit, exhausted_after_settle, over_limit,
}
use pollard.Governor.Checks.{
  NoLimit, EstimateFits, NotPassed, check_budget_exact, check-exhausted_after_settle,
}

abbrev ten : Budget
ten = record {
  usd = some (pos 10);
  tokens = none;
  depth = none;
  seconds = none;
  steps = some (pos 3);
  extra = [];
}

abbrev limits : Dict String ℤ
limits = ("usd", pos 10) ∷ ("steps", pos 3) ∷ []

abbrev seven : Dict String ℤ
seven = ("usd", pos 7) ∷ []

abbrev two : Dict String ℤ
two = ("usd", pos 2) ∷ ("tokens", pos 900) ∷ []

ten_limits : limits_of ten ≡ ok limits
unfolding limits_of add_limits add_limit
ten_limits = refl

negative_refused : limits_of (record ten { usd = some (negsuc 0) }) ≡ err value_error
unfolding limits_of add_limits add_limit
negative_refused = refl

check_budget_exact_example :
    (check_budget (some ten) seven two ("tokens" ∷ []) ≡ ok allowed)
    ↔ All (NoLimit limits) ("tokens" ∷ []) × All (EstimateFits limits seven) two
check_budget_exact_example = check_budget_exact ten limits seven two ("tokens" ∷ []) ten_limits

two_pass : check_budget (some ten) seven two [] ≡ ok allowed
unfolding check_budget limits_of add_limits add_limit check_exhausted check_estimates
    exhausted_after_settle over_limit ◌-ℤ◌
two_pass = refl

check-exhausted_after_settle_example : All (NotPassed seven) limits
unfolding exhausted_after_settle over_limit limits_of add_limits add_limit
check-exhausted_after_settle_example =
    check-exhausted_after_settle ten limits seven two [] ten_limits refl two_pass

-- Twelve are over the limit: the next call is refused.
twelve_refused :
    (exhausted_after_settle (some ten) (("usd", pos 12) ∷ []) ≡ ok ("usd" ∷ []))
    × (check_budget (some ten) (("usd", pos 12) ∷ []) [] ("usd" ∷ [])
        ≡ ok (exceeded "usd" (pos 0) (negsuc 1)))
unfolding check_budget limits_of add_limits add_limit check_exhausted check_estimates
    exhausted_after_settle over_limit ◌-ℤ◌
twelve_refused = (refl, refl)
