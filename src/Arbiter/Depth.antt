-- ===== src/Arbiter/Depth.antt =====
-- Reservations of src/pollard/stores/_transactional.py for budgets that only limit the depth.
use pollard.Common.{ℕ, String, ◌≡◌, refl, List, [], ◌∷◌, none, string_eq, eq_refl, All}
use pollard.Common.Int.{ℤ}
use pollard.Common.Dict.{Dict, lookup, insert, lookup-insert}
use pollard.Errors.{ok, err, integrity_error, details_missing}
use pollard.Hashing.{Sha256}
use pollard.Arbiter.{
  Reservation, Kv, BudgetReservation, granted, limit_rows, budget_rows, check_rows,
}
use pollard.Arbiter.Request.{request_digest}
use pollard.Arbiter.Operations.{settle, reserve, reserve_new, new_reservation, purge, check_windows}

-- No limit but one of the depth.
abbrev pub LimitsDepth : Dict String ℤ → Type 0
LimitsDepth [] = Unit
LimitsDepth ((meter, limit) ∷ limits) = (meter ≡ "depth") × LimitsDepth limits

abbrev pub LimitsOnlyDepth : BudgetReservation → Type 0
LimitsOnlyDepth request = LimitsDepth request.limits

no_limit_rows :
    (request : BudgetReservation) (limits : Dict String ℤ)
    → LimitsDepth limits
    → limit_rows request limits ≡ []
no_limit_rows request [] h = refl
no_limit_rows request ((meter, limit) ∷ limits) h = rw (h.0) (no_limit_rows request limits h.1)

no_rows :
    (budgets : List BudgetReservation) → All LimitsOnlyDepth budgets → budget_rows budgets ≡ []
unfolding budget_rows
no_rows [] h = refl
no_rows (b ∷ budgets) h = rw (no_limit_rows b b.limits h.0) (rw (no_rows budgets h.1) refl)

module _ ⦃h : Sha256⦄ where
  abbrev pub empty_reservation : List BudgetReservation → ℕ → ℕ → Reservation
  empty_reservation budgets lease now =
      new_reservation (request_digest budgets [] lease) [] lease now

  abbrev pub with_empty : String → List BudgetReservation → ℕ → ℕ → Kv → Kv
  with_empty id budgets lease now kv = record (purge now kv) {
    reservations = insert id (empty_reservation budgets lease now) kv.reservations;
  }

  -- A new reservation for budgets that limit nothing but the depth, without windows, is granted, and
  -- then no settlement of it succeeds: each one raises that its details are missing.
  pub settle-reserve_depth :
      (id : String) (budgets : List BudgetReservation) (lease now later : ℕ)
      (charges : Dict String ℤ) (kv : Kv)
      → lookup id kv.reservations ≡ none
      → All LimitsOnlyDepth budgets
      → (kv' : Kv) × (reserve id budgets [] lease now kv ≡ ok (granted, kv'))
        × (settle id charges later kv' ≡ err (integrity_error details_missing))
  unfolding reserve reserve_new check_rows check_windows settle
  settle-reserve_depth id budgets lease now later charges kv fresh only = (
    with_empty id budgets lease now kv,
    rw fresh (rw (no_rows budgets only) refl),
    rw (lookup-insert id id (empty_reservation budgets lease now) kv.reservations)
        (rw (eq_refl id) refl),
  )
