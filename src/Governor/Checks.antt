-- ===== src/Governor/Checks.antt =====
-- `check_budget` and `exhausted_after_settle` of src/pollard/governor.py.
use pollard.Common.{
  String, ◌≡◌, ◌↔◌, refl, ap, true, false, List, [], ◌∷◌, Option, none, some, string_eq, eq_refl,
  arith, All, All-mono, Bool-cases, Option-cases, inl, inr,
}
use pollard.Common.Int.{ℤ, pos, ◌+ℤ◌, ◌-ℤ◌, ◌≤ℤ◌, ltb_ℤ, int_laws, le-of_ltb_ℤ, ltb_ℤ-of_le}
use pollard.Common.Dict.{Dict, lookup, contains}
use pollard.Common.Sort
use pollard.Common.Sort.{sorted}
use pollard.Errors.{ok, ok_injective}
use pollard.Json.Text.{str_before}
use pollard.Governor.{
  Budget, BudgetCheck, allowed, exceeded, amount_of, check_exhausted, check_estimates, check_limits,
  check_budget, limits_of, over_limit, exhausted_after_settle, or_else,
}

-- The estimate fits: the meter has no limit, or what is spent and the estimate are within it.
abbrev pub WithinOption : Option ℤ → ℤ → Type 0
WithinOption none amount = Unit
WithinOption (some limit) amount = amount ≤ℤ limit

abbrev pub EstimateFits : Dict String ℤ → Dict String ℤ → String × ℤ → Type 0
EstimateFits limits spent (meter, requested) =
    WithinOption (lookup meter limits) (amount_of meter spent +ℤ requested)

abbrev pub NoLimit : Dict String ℤ → String → Type 0
NoLimit limits meter = lookup meter limits ≡ none

module _ (limits spent : Dict String ℤ) where
  exhausted-allowed :
      (meters : List String)
      → check_exhausted limits spent meters ≡ allowed
      → All (NoLimit limits) meters
  unfolding check_exhausted
  exhausted-allowed [] e = tt
  exhausted-allowed (meter ∷ meters) e = elim (Option-cases (lookup meter limits)) [
    | inl free ↦ (free, exhausted-allowed meters (rw free at e))
    | inr (limit, q) ↦ absurd (cc (rw q at e))
  ]

  allowed-exhausted :
      (meters : List String)
      → All (NoLimit limits) meters
      → check_exhausted limits spent meters ≡ allowed
  unfolding check_exhausted
  allowed-exhausted [] h = refl
  allowed-exhausted (meter ∷ meters) h = rw (h.0) (allowed-exhausted meters h.1)

  estimates-allowed :
      (estimates : Dict String ℤ)
      → check_estimates limits spent estimates ≡ allowed
      → All (EstimateFits limits spent) estimates
  unfolding check_estimates
  estimates-allowed [] e = tt
  estimates-allowed ((meter, requested) ∷ estimates) e = elim (Option-cases (lookup meter limits)) [
    | inl free ↦ (rw free tt, estimates-allowed estimates (rw free at e))
    | inr (limit, q) ↦
        elim (Bool-cases (ltb_ℤ (limit -ℤ amount_of meter spent -ℤ requested) (pos 0))) [
          | inl over ↦ absurd (cc (rw over at (rw q at e)))
          | inr fits ↦ (
            rw q (
                omega (
                  int_laws,
                  le-of_ltb_ℤ (limit -ℤ amount_of meter spent -ℤ requested) (pos 0) fits,
                )),
            estimates-allowed estimates (rw fits at (rw q at e)),
          )
        ]
  ]

  allowed-estimates :
      (estimates : Dict String ℤ)
      → All (EstimateFits limits spent) estimates
      → check_estimates limits spent estimates ≡ allowed
  unfolding check_estimates
  allowed-estimates [] h = refl
  allowed-estimates ((meter, requested) ∷ estimates) h = elim (Option-cases (lookup meter limits)) [
    | inl free ↦ rw free (allowed-estimates estimates h.1)
    | inr (limit, q) ↦
        let within : amount_of meter spent +ℤ requested ≤ℤ limit = rw q at (h.0) in
        let fits : ltb_ℤ (limit -ℤ amount_of meter spent -ℤ requested) (pos 0) ≡ false =
          ltb_ℤ-of_le (limit -ℤ amount_of meter spent -ℤ requested) (pos 0)
            (omega (int_laws, within)) in
        rw q (rw fits (allowed-estimates estimates h.1))
  ]

  or_else-allowed : (a b : BudgetCheck) → (or_else a b ≡ allowed) ↔ (a ≡ allowed) × (b ≡ allowed)
  or_else-allowed allowed b = (λ e. (refl, e), λ p. p.1)
  or_else-allowed (exceeded m r k) b = (λ e. absurd (cc), λ p. absurd (cc (p.0)))

  limits-allowed :
      (estimates : Dict String ℤ) (exhausted : List String)
      → (check_limits limits spent estimates exhausted ≡ allowed)
        ↔ All (NoLimit limits) exhausted × All (EstimateFits limits spent) estimates
  limits-allowed estimates exhausted =
      let both =
        or_else-allowed (check_exhausted limits spent (sorted str_before exhausted))
          (check_estimates limits spent estimates) in
      (
        λ e. (
          Sort.All-of_sorted str_before (NoLimit limits) exhausted
              (exhausted-allowed (sorted str_before exhausted) (both.0 e).0),
          estimates-allowed estimates (both.0 e).1,
        ),
        λ p. both.1 (
          allowed-exhausted (sorted str_before exhausted)
              (Sort.All-sorted str_before (NoLimit limits) exhausted p.0),
          allowed-estimates estimates p.1,
        ),
      )

-- With limits that are well formed, a call passes exactly when no exhausted meter has a limit and
-- every estimate, together with what is spent, is within the limit of its meter.
pub check_budget_exact :
    (budget : Budget) (limits spent estimates : Dict String ℤ) (exhausted : List String)
    → limits_of budget ≡ ok limits
    → (check_budget (some budget) spent estimates exhausted ≡ ok allowed)
      ↔ All (NoLimit limits) exhausted × All (EstimateFits limits spent) estimates
unfolding check_budget
check_budget_exact budget limits spent estimates exhausted e =
    let exact = limits-allowed limits spent estimates exhausted in
    rw e (λ q. exact.0 (ok_injective _ _ q), λ p. ap ok (exact.1 p))

-- A limit that is not passed.
abbrev pub NotPassed : Dict String ℤ → String × ℤ → Type 0
NotPassed spent (meter, limit) = amount_of meter spent ≤ℤ limit

-- The meters over their limits are none, if none of them has a limit.
none_over :
    (whole spent : Dict String ℤ) (limits : Dict String ℤ)
    → All (λ (m : String × ℤ). contains m.0 whole ≡ true) limits
    → All (NoLimit whole) (over_limit spent limits)
    → All (NotPassed spent) limits
unfolding over_limit
none_over whole spent [] known free = tt
none_over whole spent ((meter, limit) ∷ limits) known free =
    elim (Bool-cases (ltb_ℤ limit (amount_of meter spent))) [
      | inl over ↦ absurd (ground (arith, (rw over at free).0, known.0))
      | inr within ↦ (
        omega (int_laws, le-of_ltb_ℤ limit (amount_of meter spent) within),
        none_over whole spent limits known.1 (rw within at free),
      )
    ]

contains-skip :
    (k m : String) (v : ℤ) (d : Dict String ℤ)
    → contains m d ≡ true
    → contains m ((k, v) ∷ d) ≡ true
contains-skip k m v d h = ground arith

contains-All : (d : Dict String ℤ) → All (λ (m : String × ℤ). contains m.0 d ≡ true) d
contains-All [] = tt
contains-All ((k, v) ∷ d) = (
  ground (arith, eq_refl k),
  All-mono (λ (m : String × ℤ). contains m.0 d ≡ true)
      (λ (m : String × ℤ). contains m.0 ((k, v) ∷ d) ≡ true) (λ m h. contains-skip k m.0 v d h) d
      (contains-All d),
)

-- After a settlement that passed a limit, every call is refused: a call that passes with the meters
-- that the settlement exhausted shows that no limit is passed.
pub check-exhausted_after_settle :
    (budget : Budget) (limits spent estimates : Dict String ℤ) (exhausted : List String)
    → limits_of budget ≡ ok limits
    → exhausted_after_settle (some budget) spent ≡ ok exhausted
    → check_budget (some budget) spent estimates exhausted ≡ ok allowed
    → All (NotPassed spent) limits
unfolding exhausted_after_settle
check-exhausted_after_settle budget limits spent estimates exhausted e over pass =
    let same : over_limit spent limits ≡ exhausted = ok_injective _ _ (rw e at over) in
    none_over limits spent limits (contains-All limits)
      (rw same (((check_budget_exact budget limits spent estimates exhausted e).0 pass).0))
