-- ===== src/Arbiter/Honest.antt =====
-- Reservations of src/pollard/stores/_transactional.py whose baselines are no more than what is stored.
use pollard.Common.{
  ℕ, String, ◌≡◌, refl, ap, ◌∙◌, false, List, [], ◌∷◌, ◌==◌, eq-path, string_eq, pair_eq, get_or,
  arith, All, All-mono, Bool-cases, inl, inr, ◌⊎◌,
}
use pollard.Common.Int.{pos, ◌≤ℤ◌, ltb_ℤ, int_eq, int_laws}
use pollard.Common.Sort.{sorted}
use pollard.Common.Sort
use pollard.Arbiter.{
  WindowReservation, BudgetReservation, Reservation, ReservationCheck, granted, refused, Kv, Row,
  row_key, row_amount, row_before, settled_amount, check_rows, sum_details, budget_amount,
  budget_rows, active_reservations,
}
use pollard.Arbiter.Request.{ledger_before}
use pollard.Arbiter.Operations.{
  details_of, reserve_rows, reserve_windows, reserve_new, new_reservation, check_windows, purge,
}
pub use pollard.Arbiter.Rows.{settled_of, row_baseline}
use pollard.Arbiter.Rows.{
  Budgets, after_row, row_remaining, lookup-store_settled, check_pass, check_stop,
}

abbrev pub BaselineSettled : Budgets → Row → Type 0
BaselineSettled budgets row = row_baseline row ≤ℤ settled_of budgets (row_key row)

settled_amount-stored :
    (budgets : Budgets) (row : Row)
    → BaselineSettled budgets row
    → settled_amount budgets row ≡ settled_of budgets (row_key row)
unfolding settled_amount
settled_amount-stored budgets row h = ground arith

after_row-settled_of :
    (budgets : Budgets) (row : Row) (key : String × String)
    → BaselineSettled budgets row
    → settled_of (after_row budgets row) key ≡ settled_of budgets key
after_row-settled_of budgets row key h =
    ap (get_or (pos 0))
      (lookup-store_settled (row_key row) key (settled_amount budgets row) budgets)
    ∙ elim (Bool-cases (row_key row == key)) [
      | inl own ↦ rw own (
          settled_amount-stored budgets row h
          ∙ ap (settled_of budgets) (eq-path {A = String × String} (row_key row) key own))
      | inr other ↦ rw other refl
    ]

module _ (live : List Reservation) where
  check_rows-settled_of :
      (rows : List Row) (budgets : Budgets) (key : String × String)
      → All (BaselineSettled budgets) rows
      → settled_of (check_rows live rows budgets).1 key ≡ settled_of budgets key
  check_rows-settled_of [] budgets key h = (unfold check_rows in refl)
  check_rows-settled_of (r ∷ rows) budgets key h =
      let same : (k : String × String) → settled_of (after_row budgets r) k ≡ settled_of budgets k =
        λ k. after_row-settled_of budgets r k h.0 in
      elim (Bool-cases (ltb_ℤ (row_remaining live budgets r) (row_amount r))) [
        | inl stops ↦ rw (check_stop live r rows budgets stops) (same key)
        | inr passes ↦ rw (check_pass live r rows budgets passes) (
            check_rows-settled_of rows (after_row budgets r) key (
              All-mono (BaselineSettled budgets) (BaselineSettled (after_row budgets r))
                (λ x b. rw (same (row_key x)) b) rows h.1)
            ∙ same key)
      ]

-- A key that no row has gets nothing from the details.
abbrev pub OtherKey : String × String → Row → Type 0
OtherKey key row = (row_key row == key) ≡ false

pub sum_details-other :
    (scope meter : String) (rows : List Row) (windows : List WindowReservation)
    → All (OtherKey (scope, meter)) rows
    → sum_details (budget_amount scope meter) (details_of rows windows) ≡ pos 0
sum_details-other scope meter [] [] h = refl
sum_details-other scope meter [] (w ∷ windows) h =
    rw (sum_details-other scope meter [] windows tt) (omega int_laws)
sum_details-other scope meter (r ∷ rows) windows h =
    rw (h.0) (rw (sum_details-other scope meter rows windows h.1) (omega int_laws))

-- Either some row has the key, or none has.
pub find_row :
    (P : Row → Type 0) (key : String × String) (rows : List Row)
    → All P rows
    → ((row : Row) × (row_key row ≡ key) × P row) ⊎ All (OtherKey key) rows
find_row P key [] h = inr tt
find_row P key (r ∷ rows) h = elim (Bool-cases (row_key r == key)) [
  | inl own ↦ inl (r, eq-path {A = String × String} (row_key r) key own, h.0)
  | inr other ↦ elim (find_row P key rows h.1) [
    | inl found ↦ inl found
    | inr rest ↦ inr (other, rest)
  ]
]

-- What a new request leaves behind: the budgets of its loop, and the reservations as they were
-- unless it is granted.
reserve_rows-outcome :
    (c : ReservationCheck) (id : String) (r : Reservation) (windows : List WindowReservation)
    (now : ℕ) (live : List Reservation) (kv : Kv)
    → let (answer, kv') = reserve_rows c id r windows now live kv in
      (kv'.budgets ≡ kv.budgets) × ((kv'.reservations ≡ kv.reservations) ⊎ (answer ≡ granted))
reserve_rows-outcome (refused x) id r windows now live kv = (refl, inl refl)
reserve_rows-outcome granted id r windows now live kv =
    windows_outcome (check_windows now live (purge now kv).events (sorted ledger_before windows))
  where
    windows_outcome :
        (c : ReservationCheck)
        → let (answer, kv') = reserve_windows c id r (purge now kv) in
          (kv'.budgets ≡ kv.budgets) × ((kv'.reservations ≡ kv.reservations) ⊎ (answer ≡ granted))
    windows_outcome (refused x) = (refl, inl refl)
    windows_outcome granted = (refl, inr refl)

pub reserve_new-outcome :
    (id digest : String) (budgets : List BudgetReservation) (windows : List WindowReservation)
    (lease now : ℕ) (kv : Kv)
    → All (BaselineSettled kv.budgets) (budget_rows budgets)
    → let (answer, kv') = reserve_new id digest budgets windows lease now kv in
      ((key : String × String) → settled_of kv'.budgets key ≡ settled_of kv.budgets key)
      × ((kv'.reservations ≡ kv.reservations) ⊎ (answer ≡ granted))
unfolding reserve_new
reserve_new-outcome id digest budgets windows lease now kv h =
    let rows = sorted row_before (budget_rows budgets) in
    let live = active_reservations now kv in
    let check = check_rows live rows kv.budgets in
    let (kept, rest) =
      reserve_rows-outcome check.0 id
        (new_reservation digest (details_of (budget_rows budgets) windows) lease now) windows now
        live (record kv { budgets = check.1 }) in
    (
      λ key.
          ap (λ b. settled_of b key) kept
          ∙ check_rows-settled_of live rows kv.budgets key
              (Sort.All-sorted row_before (BaselineSettled kv.budgets) (budget_rows budgets) h),
      rest,
    )
