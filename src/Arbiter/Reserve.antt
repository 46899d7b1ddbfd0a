-- ===== src/Arbiter/Reserve.antt =====
-- `_reserve_once` of src/pollard/stores/_transactional.py: granted reservations and the budget limits.
use pollard.Common.{
  ℕ, ◌<◌, String, ◌≡◌, refl, ap, sym, List, none, some, string_eq, pair_eq, arith, All, All-every,
  All-mono2,
}
use pollard.Common.Int.{ℤ, ◌+ℤ◌, ◌≤ℤ◌, int_eq, int_laws}
use pollard.Common.Dict.{Dict, lookup, insert}
use pollard.Common.Sort.{sorted}
use pollard.Common.Sort
use pollard.Errors.{ok, ok_injective}
use pollard.Hashing.{Sha256}
use pollard.Arbiter.{
  BudgetReservation, WindowReservation, Detail, Reservation, ReservationCheck, granted, refused, Kv,
  Row, row_key, row_amount, row_before, active_amount, active_reservations, budget_rows, check_rows,
  sum_details,
}
use pollard.Arbiter.Request.{request_digest, ledger_before}
use pollard.Arbiter.Operations.{
  reserve, reserve_new, reserve_rows, reserve_windows, check_windows, purge, new_reservation,
  details_of,
}
use pollard.Arbiter.Amounts.{DistinctRows, held_by, sum_details-rows, active_amount-new}
use pollard.Arbiter.Rows.{Accounts, Fits, check_granted, distinct-sorted}

reserve_windows-granted :
    (c : ReservationCheck) (id : String) (r : Reservation) (kv kv' : Kv)
    → reserve_windows c id r kv ≡ (granted, kv')
    → (c ≡ granted) × (kv' ≡ record kv { reservations = insert id r kv.reservations })
reserve_windows-granted (refused x) id r kv kv' e = absurd (ground arith)
reserve_windows-granted granted id r kv kv' e =
    (refl, ap (λ (p : ReservationCheck × Kv). p.1) (sym e))

reserve_rows-granted :
    (c : ReservationCheck) (id : String) (r : Reservation) (windows : List WindowReservation)
    (now : ℕ) (live : List Reservation) (kv kv' : Kv)
    → reserve_rows c id r windows now live kv ≡ (granted, kv')
    → (c ≡ granted)
      × (check_windows now live (purge now kv).events (sorted ledger_before windows) ≡ granted)
      × (kv' ≡ record (purge now kv) { reservations = insert id r kv.reservations })
reserve_rows-granted (refused x) id r windows now live kv kv' e = absurd (ground arith)
reserve_rows-granted granted id r windows now live kv kv' e =
    let (w, s) =
      reserve_windows-granted
        (check_windows now live (purge now kv).events (sorted ledger_before windows)) id r
        (purge now kv) kv' e in
    (refl, w, s)

module _ (id : String) (digest : String) (budgets : List BudgetReservation)
    (windows : List WindowReservation) (lease now : ℕ) (kv : Kv) where
  abbrev the_rows : List Row
  the_rows = budget_rows budgets

  abbrev the_check : ReservationCheck × Dict (String × String) ℤ
  the_check = check_rows (active_reservations now kv) (sorted row_before the_rows) kv.budgets

  abbrev the_reservation : Reservation
  the_reservation = new_reservation digest (details_of the_rows windows) lease now

  reserve_new-granted :
      (kv' : Kv)
      → reserve_new id digest budgets windows lease now kv ≡ (granted, kv')
      → (the_check.0 ≡ granted)
        × (check_windows now
              (active_reservations now kv)
              (purge now kv).events
              (sorted ledger_before windows)
            ≡ granted)
        × (kv' ≡ record (purge now kv) {
          budgets = the_check.1;
          reservations = insert id the_reservation kv.reservations;
        })
  unfolding reserve_new
  reserve_new-granted kv' e =
      reserve_rows-granted the_check.0 id the_reservation windows now (active_reservations now kv)
        (record kv { budgets = the_check.1 }) kv' e

-- What is stored as settled for the row's scope and meter accounts for what was settled before or
-- claimed, and together with what live reservations hold it is within the row's limit.
abbrev pub WithinLimit : ℕ → Kv → Kv → Row → Type 0
WithinLimit now before kv row =
    (s : ℤ) × (lookup (row_key row) kv.budgets ≡ some s)
    × Accounts before.budgets row s
    × (s +ℤ active_amount (held_by row) (active_reservations now kv) ≤ℤ row.limit)

module _ ⦃h : Sha256⦄ (id : String) (budgets : List BudgetReservation)
    (windows : List WindowReservation) (lease now : ℕ) (kv kv' : Kv)
    (fresh : lookup id kv.reservations ≡ none) (held : 0 < lease)
    (granted_now : reserve id budgets windows lease now kv ≡ ok (granted, kv')) where
  abbrev check : ReservationCheck × Dict (String × String) ℤ
  check = the_check id (request_digest budgets windows lease) budgets windows lease now kv

  abbrev pub added : Reservation
  added = the_reservation id (request_digest budgets windows lease) budgets windows lease now kv

  pub granted_parts :
      (check.0 ≡ granted)
      × (check_windows now
            (active_reservations now kv)
            (purge now kv).events
            (sorted ledger_before windows)
          ≡ granted)
      × (kv' ≡ record (purge now kv) {
        budgets = check.1;
        reservations = insert id added kv.reservations;
      })
  unfolding reserve
  granted_parts =
      reserve_new-granted id (request_digest budgets windows lease) budgets windows lease now kv kv'
        (ok_injective _ _ (rw fresh at granted_now))

  -- What live reservations hold afterwards, by any measure of details.
  pub held_after :
      (f : Detail → ℤ)
      → active_amount f (active_reservations now kv')
        ≡ active_amount f (active_reservations now kv)
          +ℤ sum_details f (details_of (budget_rows budgets) windows)
  unfolding active_reservations
  held_after f =
      rw (granted_parts.2) (active_amount-new f kv id added now fresh (ground (arith, held)))

  row_within :
      (row : Row)
      → Fits (active_reservations now kv) kv.budgets check.1 row
      → sum_details (held_by row) (details_of (budget_rows budgets) windows) ≡ row_amount row
      → WithinLimit now kv kv' row
  row_within row (s, stored, accounts, fits) own = (
    s,
    rw (granted_parts.2) stored,
    accounts,
    rw (held_after (held_by row)) (rw own (omega (int_laws, fits))),
  )

  -- A granted reservation with a new id, over distinct scopes and meters and with a lease that is not
  -- empty: for every requested budget limit, the stored settled amount afterwards is what was settled
  -- before, or the caller's baseline if that is more, and together with what all live reservations
  -- hold, the new one included, it is within the limit.
  pub reserve-WithinLimit :
      DistinctRows (budget_rows budgets) → All (WithinLimit now kv kv') (budget_rows budgets)
  reserve-WithinLimit d =
      All-mono2 (budget_rows budgets)
        (Sort.All-of_sorted row_before (Fits (active_reservations now kv) kv.budgets check.1)
          (budget_rows budgets)
          (check_granted (active_reservations now kv) kv.budgets
            (sorted row_before (budget_rows budgets)) kv.budgets
            (distinct-sorted (budget_rows budgets) d)
            (All-every
              (λ (row : Row). lookup (row_key row) kv.budgets ≡ lookup (row_key row) kv.budgets)
              (λ row. refl) (sorted row_before (budget_rows budgets)))
            granted_parts.0))
        (sum_details-rows (budget_rows budgets) windows d) row_within
