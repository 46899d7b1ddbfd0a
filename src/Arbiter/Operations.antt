-- ===== src/Arbiter/Operations.antt =====
-- The four transactions of the arbiter in src/pollard/stores/_transactional.py. One that raises is rolled
-- back, so it returns no state.
use pollard.Common.{
  ℕ, suc, ◌+◌, String, Bool, true, false, not, ◌&&◌, List, [], ◌∷◌, ◌++◌, Option, none, some, ◌==◌,
  string_eq, nat_eq, pair_eq, leb, ltb, get_or, if◌then◌else◌, keep_if, map,
}
use pollard.Common.Int.{ℤ, pos, ◌+ℤ◌, ◌-ℤ◌, ltb_ℤ, int_eq}
use pollard.Common.Dict.{Dict, lookup, insert}
use pollard.Common.Sort.{sorted}
use pollard.Errors.{
  Result, ok, err, integrity_error, retry_changed_request, already_settled, already_released,
  expired_before_retry, unknown_reservation, different_charges, details_missing, budget_missing,
  ◌>>=◌, ◌>>◌,
}
use pollard.Hashing.{Sha256}
use pollard.Arbiter.{
  BudgetReservation, WindowReservation, ReservationCheck, granted, refused, Detail, budget, window,
  State, active, settled, released, Reservation, WindowEvent, Kv, Row, row_amount, row_before,
  budget_rows, check_rows, active_amount, active_reservations, window_amount, is_live,
}
use pollard.Arbiter.Request.{request_digest, charges_digest, ledger_before}

-- The events whose window has not passed; the others are deleted.
abbrev pub is_recent : ℕ → (String × ℕ) × WindowEvent → Bool
is_recent now (key, event) = not (leb (event.settled_at + event.window_seconds) now)

-- What has settled for a window request: the amounts of its events inside the window.
unfoldable pub window_settled : ℕ → WindowReservation → Dict (String × ℕ) WindowEvent → ℤ
window_settled now request [] = pos 0
window_settled now request ((key, event) ∷ events) =
    (if event.scope_id == request.ledger_key
        && event.meter == request.meter
        && ltb now (event.settled_at + request.window_seconds)
      then event.amount
      else pos 0)
    +ℤ window_settled now request events

-- The loop over the sorted windows, up to the first whose amount is more than what remains.
unfoldable pub check_windows :
    ℕ → List Reservation → Dict (String × ℕ) WindowEvent → List WindowReservation → ReservationCheck
check_windows now live events [] = granted
check_windows now live events (request ∷ requests) =
    let settled = window_settled now request events in
    let reserved = active_amount (window_amount request.ledger_key request.meter) live in
    let remaining = request.limit -ℤ settled -ℤ reserved in
    let rest = check_windows now live events requests in
    if ltb_ℤ remaining request.amount
    then refused (record {
      is_window = true;
      meter = request.meter;
      requested = request.amount;
      remaining = remaining;
      window_seconds = some request.window_seconds;
    })
    else rest

abbrev pub budget_detail : Row → Detail
budget_detail row = budget row.request.scope_id row.meter (row_amount row)

abbrev pub window_detail : WindowReservation → Detail
window_detail request =
    window request.ledger_key request.meter request.amount request.window_seconds

abbrev pub details_of : List Row → List WindowReservation → List Detail
details_of rows windows = map budget_detail rows ++ map window_detail windows

-- The new reservation is stored, once both loops have let it pass.
abbrev pub new_reservation : String → List Detail → ℕ → ℕ → Reservation
new_reservation digest details lease_seconds now = record {
  request_digest = digest;
  state = active;
  charges_digest = none;
  expires_at = now + lease_seconds;
  created_at = now;
  completed_at = none;
  details = details;
}

abbrev pub reserve_windows : ReservationCheck → String → Reservation → Kv → ReservationCheck × Kv
reserve_windows (refused r) id reservation kv = (refused r, kv)
reserve_windows granted id reservation kv =
    (granted, record kv { reservations = insert id reservation kv.reservations })

abbrev pub purge : ℕ → Kv → Kv
purge now kv = record kv { events = keep_if (is_recent now) kv.events }

abbrev pub reserve_rows :
    ReservationCheck
    → String
    → Reservation
    → List WindowReservation
    → ℕ
    → List Reservation
    → Kv
    → ReservationCheck × Kv
reserve_rows (refused r) id reservation windows now live kv = (refused r, kv)
reserve_rows granted id reservation windows now live kv =
    let kv' = purge now kv in
    reserve_windows (check_windows now live kv'.events (sorted ledger_before windows)) id
      reservation kv'

-- The part of `_reserve_once` for a reservation id that is new.
unfoldable pub reserve_new :
    String
    → String
    → List BudgetReservation
    → List WindowReservation
    → ℕ
    → ℕ
    → Kv
    → ReservationCheck × Kv
reserve_new id digest budgets windows lease_seconds now kv =
    let rows = budget_rows budgets in
    let live = active_reservations now kv in
    let (check, budgets') = check_rows live (sorted row_before rows) kv.budgets in
    reserve_rows check id (new_reservation digest (details_of rows windows) lease_seconds now)
      windows now live (record kv { budgets = budgets' })

abbrev pub retry_state : State → ℕ → ℕ → Kv → Result (ReservationCheck × Kv)
retry_state settled expires_at now kv = err (integrity_error already_settled)
retry_state released expires_at now kv = err (integrity_error already_released)
retry_state active expires_at now kv =
    if leb expires_at now then err (integrity_error expired_before_retry) else ok (granted, kv)

-- A reservation under an id that is taken must be the same request, still held.
unfoldable pub retry_check : Reservation → String → ℕ → Kv → Result (ReservationCheck × Kv)
retry_check current digest now kv =
    if not (current.request_digest == digest)
    then err (integrity_error retry_changed_request)
    else retry_state current.state current.expires_at now kv

-- `charges.get(meter, 0)`
abbrev pub charge_of : String → Dict String ℤ → ℤ
charge_of meter charges = get_or (pos 0) (lookup meter charges)

abbrev pub budget_state : Option ℤ → Result ℤ
budget_state none = err (integrity_error budget_missing)
budget_state (some stored) = ok stored

-- The loop over the details: budgets grow by the actual charge, windows get an event.
unfoldable pub settle_details : String → Dict String ℤ → ℕ → ℕ → List Detail → Kv → Result Kv
settle_details id charges now index [] kv = ok kv
settle_details id charges now index (budget scope meter amount ∷ details) kv = do
  stored ← budget_state (lookup (scope, meter) kv.budgets)
  settle_details id charges now (suc index) details
      (record kv { budgets = insert (scope, meter) (stored +ℤ charge_of meter charges) kv.budgets })
settle_details id charges now index (window scope meter amount seconds ∷ details) kv =
    let event : WindowEvent = record {
      scope_id = scope;
      meter = meter;
      amount = charge_of meter charges;
      settled_at = now;
      window_seconds = seconds;
    } in
    settle_details id charges now (suc index) details (
      if charge_of meter charges == pos 0
      then kv
      else record kv { events = insert (id, index) event kv.events })

abbrev pub close : State → Option String → ℕ → Reservation → Reservation
close state digest now r = record r {
  state = state;
  charges_digest = digest;
  completed_at = some now;
}

abbrev pub details_check : List Detail → Result (Unit {0})
details_check [] = err (integrity_error details_missing)
details_check (d ∷ ds) = ok tt

abbrev pub settle_active : String → Dict String ℤ → String → ℕ → Reservation → Kv → Result Kv
settle_active id charges digest now current kv = do
  details_check current.details
  kv' ← settle_details id charges now 0 current.details kv
  ok (record kv' {
    reservations = insert id (close settled (some digest) now current) kv'.reservations;
  })

abbrev pub optional_is : Option String → String → Bool
optional_is none s = false
optional_is (some t) s = t == s

abbrev pub settle_at : State → String → Dict String ℤ → String → ℕ → Reservation → Kv → Result Kv
settle_at active id charges digest now current kv = settle_active id charges digest now current kv
settle_at settled id charges digest now current kv =
    if optional_is current.charges_digest digest
    then ok kv
    else err (integrity_error different_charges)
settle_at released id charges digest now current kv = err (integrity_error already_released)

abbrev pub release_at : State → String → ℕ → Reservation → Kv → Result Kv
release_at active id now current kv = ok (record kv {
  reservations = insert id (close released current.charges_digest now current) kv.reservations;
})
release_at settled id now current kv = err (integrity_error already_settled)
release_at released id now current kv = ok kv

abbrev pub reserve_at :
    Option Reservation
    → String
    → String
    → List BudgetReservation
    → List WindowReservation
    → ℕ
    → ℕ
    → Kv
    → Result (ReservationCheck × Kv)
reserve_at (some current) id digest budgets windows lease_seconds now kv =
    retry_check current digest now kv
reserve_at none id digest budgets windows lease_seconds now kv =
    ok (reserve_new id digest budgets windows lease_seconds now kv)

abbrev pub settle_found : Option Reservation → String → Dict String ℤ → String → ℕ → Kv → Result Kv
settle_found none id charges digest now kv = err (integrity_error unknown_reservation)
settle_found (some current) id charges digest now kv =
    settle_at current.state id charges digest now current kv

abbrev pub release_found : Option Reservation → String → ℕ → Kv → Result Kv
release_found none id now kv = ok kv
release_found (some current) id now kv = release_at current.state id now current kv

abbrev pub renew_found : Option Reservation → String → ℕ → ℕ → Kv → Bool × Kv
renew_found none id lease_seconds now kv = (false, kv)
renew_found (some current) id lease_seconds now kv =
    if not (is_live now current) then (false, kv) else (
      true,
      record kv {
        reservations =
            insert id (record current { expires_at = now + lease_seconds }) kv.reservations;
      },
    )

module _ ⦃h : Sha256⦄ where
  -- `_reserve_once`
  unfoldable pub reserve :
      String
      → List BudgetReservation
      → List WindowReservation
      → ℕ
      → ℕ
      → Kv
      → Result (ReservationCheck × Kv)
  reserve id budgets windows lease_seconds now kv =
      reserve_at (lookup id kv.reservations) id (request_digest budgets windows lease_seconds)
        budgets windows lease_seconds now kv

  -- `_settle_once`
  unfoldable pub settle : String → Dict String ℤ → ℕ → Kv → Result Kv
  settle id charges now kv =
      settle_found (lookup id kv.reservations) id charges (charges_digest charges) now kv

-- `_release_once`: an unknown reservation is nothing to release.
unfoldable pub release : String → ℕ → Kv → Result Kv
release id now kv = release_found (lookup id kv.reservations) id now kv

-- `_pollard_renew`: only a reservation that is still held is renewed.
unfoldable pub renew : String → ℕ → ℕ → Kv → Bool × Kv
renew id lease_seconds now kv = renew_found (lookup id kv.reservations) id lease_seconds now kv
