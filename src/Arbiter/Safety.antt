-- ===== src/Arbiter/Safety.antt =====
-- Workers that share the arbiter of src/pollard/stores/_transactional.py: reservations, and the passing of
-- time.
use mathlib.Core.Path.{subst}
use pollard.Common.{
  ℕ, ◌≤◌, ◌<◌, String, ◌≡◌, ap, ◌∙◌, ◌&&◌, List, [], ◌∷◌, none, some, ◌==◌, string_eq, pair_eq,
  arith, All, All-mono2, Bool-cases, inl, inr, Option-cases, ◌⊎◌,
}
use pollard.Common.Int.{ℤ, pos, ◌+ℤ◌, ◌≤ℤ◌, int_laws}
use pollard.Common.Dict.{Dict, lookup, insert}
use pollard.Errors.{ok, ok_injective}
use pollard.Hashing.{Sha256}
use pollard.Arbiter.{
  WindowReservation, BudgetReservation, Detail, budget, window, Reservation, ReservationCheck,
  granted, Kv, Row, row_key, row_amount, sum_details, budget_amount, budget_rows, active_amount,
  active_reservations,
}
use pollard.Arbiter.Operations.{reserve, retry_check, reserve_new, details_of}
use pollard.Arbiter.Request.{request_digest}
use pollard.Arbiter.Amounts.{DistinctRows}
use pollard.Arbiter.Reserve.{WithinLimit, reserve-WithinLimit, granted_parts, held_after}
use pollard.Arbiter.Honest.{
  settled_of, BaselineSettled, reserve_new-outcome, find_row, sum_details-other,
}
use pollard.Arbiter.Settle.{held_now, live_amount, live_amount-cons}

abbrev pub detail_amount : Detail → ℤ
detail_amount (budget s m a) = a
detail_amount (window s m a w) = a

abbrev pub NonNegative : String × Reservation → Type 0
NonNegative (id, r) = All (λ d. pos 0 ≤ℤ detail_amount d) r.details

pub sum_nonneg :
    (scope meter : String) (ds : List Detail)
    → All (λ d. pos 0 ≤ℤ detail_amount d) ds
    → pos 0 ≤ℤ sum_details (budget_amount scope meter) ds
sum_nonneg scope meter [] h = omega arith
sum_nonneg scope meter (budget s m a ∷ ds) h = elim (Bool-cases ((s == scope) && (m == meter))) [
  | inl own ↦ rw own (omega (int_laws, h.0, sum_nonneg scope meter ds h.1))
  | inr other ↦ rw other (omega (int_laws, sum_nonneg scope meter ds h.1))
]
sum_nonneg scope meter (window s m a w ∷ ds) h = omega (int_laws, sum_nonneg scope meter ds h.1)

-- As time passes reservations only stop holding.
held-le :
    (scope meter : String) (now now' : ℕ) (id : String) (r : Reservation)
    → now ≤ now'
    → NonNegative (id, r)
    → held_now (budget_amount scope meter) now' r ≤ℤ held_now (budget_amount scope meter) now r
held-le scope meter now now' id r le nn = ground (arith, sum_nonneg scope meter r.details nn)

live-le :
    (scope meter : String) (now now' : ℕ) (d : Dict String Reservation)
    → now ≤ now'
    → All NonNegative d
    → live_amount (budget_amount scope meter) now' d
      ≤ℤ live_amount (budget_amount scope meter) now d
live-le scope meter now now' [] le nn = (unfold active_amount in omega arith)
live-le scope meter now now' ((id, r) ∷ d) le nn =
    let f = budget_amount scope meter in
    rw (live_amount-cons f now' id r d, live_amount-cons f now id r d)
      (omega (
        int_laws,
        held-le scope meter now now' id r le nn.0,
        live-le scope meter now now' d le nn.1,
      ))

pub All-insert :
    (id : String) (r : Reservation) (d : Dict String Reservation)
    → All NonNegative d
    → All (λ x. pos 0 ≤ℤ detail_amount x) r.details
    → All NonNegative (insert id r d)
All-insert id r [] nn h = (h, tt)
All-insert id r ((j, x) ∷ d) nn h = elim (Bool-cases (j == id)) [
  | inl here ↦ rw here (h, nn.1)
  | inr there ↦ rw there (nn.0, All-insert id r d nn.1 h)
]

pub lookup-NonNegative :
    (id : String) (r : Reservation) (d : Dict String Reservation)
    → All NonNegative d
    → lookup id d ≡ some r
    → All (λ x. pos 0 ≤ℤ detail_amount x) r.details
lookup-NonNegative id r [] nn e = absurd (cc)
lookup-NonNegative id r ((j, x) ∷ d) nn e = elim (Bool-cases (j == id)) [
  | inl here ↦
      let same : x ≡ r = ground arith in
      subst (λ (y : Reservation). All (λ z. pos 0 ≤ℤ detail_amount z) y.details) same nn.0
  | inr there ↦ lookup-NonNegative id r d nn.1 (rw there at e)
]

-- `cap` gives the limit of every scope and meter.
module _ (cap : String × String → ℤ) where
  -- What has settled and what live reservations hold is within the limit, for every scope and meter.
  abbrev pub committed : ℕ → Kv → String → String → ℤ
  committed now kv scope meter =
      settled_of kv.budgets (scope, meter)
      +ℤ active_amount (budget_amount scope meter) (active_reservations now kv)

  pub record IsSafe (now : ℕ) (kv : Kv) : Type 0 where
    pub within : (scope meter : String) → committed now kv scope meter ≤ℤ cap (scope, meter)
    pub positive : All NonNegative kv.reservations

  -- A request that agrees on the limits, claims no more settled than is stored, estimates no
  -- negative amount, and names no scope and meter twice.
  pub record Honest (kv : Kv) (budgets : List BudgetReservation) (windows : List WindowReservation)
      : Type 0 where
    pub distinct : DistinctRows (budget_rows budgets)
    pub agreed : All (λ row. row.limit ≡ cap (row_key row)) (budget_rows budgets)
    pub baselines : All (BaselineSettled kv.budgets) (budget_rows budgets)
    pub amounts : All (λ row. pos 0 ≤ℤ row_amount row) (budget_rows budgets)
    pub window_amounts : All (λ (w : WindowReservation). pos 0 ≤ℤ w.amount) windows

  pub tick-IsSafe : (now now' : ℕ) (kv : Kv) → now ≤ now' → IsSafe now kv → IsSafe now' kv
  unfolding active_reservations
  tick-IsSafe now now' kv le safe = record {
    within = λ scope meter. omega (
      int_laws,
      safe.within scope meter,
      live-le scope meter now now' kv.reservations le safe.positive,
    );
    positive = safe.positive;
  }

  new_details :
      (rows : List Row) (windows : List WindowReservation)
      → All (λ row. pos 0 ≤ℤ row_amount row) rows
      → All (λ (w : WindowReservation). pos 0 ≤ℤ w.amount) windows
      → All (λ d. pos 0 ≤ℤ detail_amount d) (details_of rows windows)
  new_details [] [] hr hw = tt
  new_details [] (w ∷ windows) hr hw = (hw.0, new_details [] windows tt hw.1)
  new_details (r ∷ rows) windows hr hw = (hr.0, new_details rows windows hr.1 hw)

  pub retry_same :
      (r : Reservation) (digest : String) (now : ℕ) (kv kv' : Kv) (answer : ReservationCheck)
      → retry_check r digest now kv ≡ ok (answer, kv')
      → kv' ≡ kv
  unfolding retry_check
  retry_same r digest now kv kv' answer e = ground arith

  row_committed :
      (now : ℕ) (before kv : Kv) (row : Row)
      → WithinLimit now before kv row
      → row.limit ≡ cap (row_key row)
      → committed now kv row.request.scope_id row.meter ≤ℤ cap (row_key row)
  row_committed now before kv row (s, stored, accounts, le) agreed = rw stored (rw (← agreed) le)

  -- The same reservations and settled amounts are as safe.
  same-IsSafe :
      (now : ℕ) (kv kv' : Kv)
      → ((key : String × String) → settled_of kv'.budgets key ≡ settled_of kv.budgets key)
      → kv'.reservations ≡ kv.reservations
      → IsSafe now kv
      → IsSafe now kv'
  unfolding active_reservations
  same-IsSafe now kv kv' same kept safe = record {
    within = λ scope meter. rw (same (scope, meter)) (rw kept (safe.within scope meter));
    positive = rw kept safe.positive;
  }

  module _ ⦃h : Sha256⦄ (id : String) (budgets : List BudgetReservation)
      (windows : List WindowReservation) (lease now : ℕ) (kv kv' : Kv)
      (honest : Honest kv budgets windows) (lasting : 0 < lease) (safe : IsSafe now kv) where
    abbrev Outcome : ReservationCheck × Kv → Type 0
    Outcome q =
        ((key : String × String) → settled_of q.1.budgets key ≡ settled_of kv.budgets key)
        × ((q.1.reservations ≡ kv.reservations) ⊎ (q.0 ≡ granted))

    Outcome-at :
        {p : ReservationCheck × Kv} {answer : ReservationCheck}
        → p ≡ (answer, kv')
        → Outcome p
        → Outcome (answer, kv')
    Outcome-at e o = subst Outcome e o

    granted_within :
        lookup id kv.reservations ≡ none
        → reserve id budgets windows lease now kv ≡ ok (granted, kv')
        → ((key : String × String) → settled_of kv'.budgets key ≡ settled_of kv.budgets key)
        → (scope meter : String) → committed now kv' scope meter ≤ℤ cap (scope, meter)
    granted_within fresh done same scope meter =
        elim (find_row (λ row. WithinLimit now kv kv' row × (row.limit ≡ cap (row_key row)))
          (scope, meter) (budget_rows budgets)
          (All-mono2 (budget_rows budgets)
            (reserve-WithinLimit id budgets windows lease now kv kv' fresh lasting done
              honest.distinct)
            honest.agreed (λ row w a. (w, a)))) [
              | inl (row, key, w) ↦
                  subst (λ (k : String × String). committed now kv' k.0 k.1 ≤ℤ cap k) key
                    (row_committed now kv kv' row w.0 w.1)
              | inr others ↦ rw (same (scope, meter)) (
                  rw
                    (held_after id budgets windows lease now kv kv' fresh lasting done
                      (budget_amount scope meter))
                    (rw (sum_details-other scope meter (budget_rows budgets) windows others)
                      (omega (int_laws, safe.within scope meter))))
            ]

    reserve_new-IsSafe :
        (answer : ReservationCheck)
        → lookup id kv.reservations ≡ none
        → reserve id budgets windows lease now kv ≡ ok (answer, kv')
        → IsSafe now kv'
    unfolding reserve
    reserve_new-IsSafe answer fresh done =
        let p : reserve_new id (request_digest budgets windows lease) budgets windows lease now kv
            ≡ (answer, kv') =
          ok_injective _ _ (rw fresh at done) in
        let (same, rest) = Outcome-at p (
          reserve_new-outcome id (request_digest budgets windows lease) budgets windows lease now kv
            honest.baselines) in
        elim rest [
          | inl kept ↦ same-IsSafe now kv kv' same kept safe
          | inr yes_granted ↦
              let done' : reserve id budgets windows lease now kv ≡ ok (granted, kv') =
                done ∙ ap (λ (a : ReservationCheck). ok (a, kv')) yes_granted in
              record {
                within = granted_within fresh done' same;
                positive =
                    rw ((granted_parts id budgets windows lease now kv kv' fresh lasting done').2) (
                      All-insert id _ kv.reservations safe.positive (
                        new_details (budget_rows budgets) windows honest.amounts
                          honest.window_amounts));
              }
        ]

    pub reserve-IsSafe :
        (answer : ReservationCheck)
        → reserve id budgets windows lease now kv ≡ ok (answer, kv')
        → IsSafe now kv'
    unfolding reserve
    reserve-IsSafe answer done = elim (Option-cases (lookup id kv.reservations)) [
      | inl fresh ↦ reserve_new-IsSafe answer fresh done
      | inr (r, found) ↦
          let same : kv' ≡ kv =
            retry_same r (request_digest budgets windows lease) now kv kv' answer
              (rw found at done) in
          rw same safe
    ]
