-- ===== src/Arbiter.antt =====
-- src/pollard/arbiter.py and the exact arbiter of src/pollard/stores/_transactional.py: budgets and
-- windows that several workers share are reserved before a call and settled after it.
--
-- A transaction works on the documents of its buckets; a document is held as the value that its
-- JSON text encodes, and a compound key as the pair that it encodes. Amounts are exact integers in
-- the smallest unit of a meter, times are natural numbers of one clock.
pub mod Request
pub mod Operations
pub mod Amounts
pub mod Rows
pub mod Reserve
pub mod Windows
pub mod Settle
pub mod Honest
pub mod Safety
pub mod Close
pub mod Charged
pub mod Runs
pub mod Delivery
pub mod Settleable
pub mod Depth
pub mod Arrives
use pollard.Common.{
  ℕ, zero, suc, ◌+◌, String, Bool, true, false, not, ◌&&◌, ◌||◌, List, [], ◌∷◌, ◌++◌, Option, none,
  some, ◌==◌, string_eq, nat_eq, pair_eq, leb, ltb, get_or, if◌then◌else◌, keep_if, map,
}
use pollard.Common.Int.{ℤ, pos, ◌+ℤ◌, ◌-ℤ◌, ltb_ℤ, int_eq}
use pollard.Common.Dict.{Dict, lookup, contains, insert, values}
use pollard.Common.Sort.{sorted}
use pollard.Errors.{
  Error, Result, ok, err, integrity_error, retry_changed_request, already_settled, already_released,
  expired_before_retry, unknown_reservation, different_charges, details_missing, budget_missing,
  ◌>>=◌,
}
use pollard.Json.Text.{str_before}
use pollard.Store.{pair_before}

pub record BudgetReservation : Type 0 where
  pub scope_id : String
  pub limits : Dict String ℤ
  pub baseline : Dict String ℤ
  pub estimates : Dict String ℤ

pub record WindowReservation : Type 0 where
  pub ledger_key : String
  pub meter : String
  pub limit : ℤ
  pub amount : ℤ
  pub window_seconds : ℕ

-- `ok=False`, with the reason
pub record Refusal : Type 0 where
  pub is_window : Bool
  pub meter : String
  pub requested : ℤ
  pub remaining : ℤ
  pub window_seconds : Option ℕ

pub data ReservationCheck : Type 0 where
  granted : ReservationCheck
  refused : Refusal → ReservationCheck

-- The `details` of a reservation.
pub data Detail : Type 0 where
  budget : String → String → ℤ → Detail
  window : String → String → ℤ → ℕ → Detail

pub data State : Type 0 where
  active settled released : State

-- The stored document also holds the texts of the request and of the charges, which are only written:
-- the digests stand for them.
pub record Reservation : Type 0 where
  pub request_digest : String
  pub state : State
  pub charges_digest : Option String
  pub expires_at : ℕ
  pub created_at : ℕ
  pub completed_at : Option ℕ
  pub details : List Detail

pub record WindowEvent : Type 0 where
  pub scope_id : String
  pub meter : String
  pub amount : ℤ
  pub settled_at : ℕ
  pub window_seconds : ℕ

-- The buckets that the arbiter writes.
pub record Kv : Type 0 where
  pub budgets : Dict (String × String) ℤ
  pub reservations : Dict String Reservation
  pub events : Dict (String × ℕ) WindowEvent

abbrev pub empty : Kv
empty = record { budgets = []; reservations = []; events = [] }

abbrev pub is_active : State → Bool
is_active active = true
is_active _ = false

-- `state == "active" and expires_at > now`
abbrev pub is_live : ℕ → Reservation → Bool
is_live now r = is_active r.state && ltb now r.expires_at

-- The amount that a detail holds of a budget, and of a window.
abbrev pub budget_amount : String → String → Detail → ℤ
budget_amount scope meter (budget s m a) = if (s == scope) && (m == meter) then a else pos 0
budget_amount scope meter (window s m a w) = pos 0

abbrev pub window_amount : String → String → Detail → ℤ
window_amount scope meter (budget s m a) = pos 0
window_amount scope meter (window s m a w) = if (s == scope) && (m == meter) then a else pos 0

abbrev pub sum_details : (Detail → ℤ) → List Detail → ℤ
sum_details f [] = pos 0
sum_details f (d ∷ ds) = f d +ℤ sum_details f ds

-- `_active_amount`, for one of the two kinds of details.
unfoldable pub active_amount : (Detail → ℤ) → List Reservation → ℤ
active_amount f [] = pos 0
active_amount f (r ∷ rs) = sum_details f r.details +ℤ active_amount f rs

unfoldable pub active_reservations : ℕ → Kv → List Reservation
active_reservations now kv = keep_if (is_live now) (values kv.reservations)

-- One row `(request, meter, limit)` of `budget_rows`.
pub record Row : Type 0 where
  pub request : BudgetReservation
  pub meter : String
  pub limit : ℤ

abbrev pub row_key : Row → String × String
row_key row = (row.request.scope_id, row.meter)

abbrev pub row_amount : Row → ℤ
row_amount row = get_or (pos 0) (lookup row.meter row.request.estimates)

abbrev pub limit_rows : BudgetReservation → Dict String ℤ → List Row
limit_rows request [] = []
limit_rows request ((meter, limit) ∷ limits) =
    if meter == "depth"
    then limit_rows request limits
    else record { request = request; meter = meter; limit = limit } ∷ limit_rows request limits

unfoldable pub budget_rows : List BudgetReservation → List Row
budget_rows [] = []
budget_rows (request ∷ requests) = limit_rows request request.limits ++ budget_rows requests

abbrev pub row_before : Row → Row → Bool
row_before a b = pair_before (row_key a) (row_key b)

-- The settled amount of a row: what is stored, or the caller's baseline if that is more.
unfoldable pub settled_amount : Dict (String × String) ℤ → Row → ℤ
settled_amount budgets row =
    let stored = get_or (pos 0) (lookup (row_key row) budgets) in
    let baseline = get_or (pos 0) (lookup row.meter row.request.baseline) in
    if ltb_ℤ stored baseline then baseline else stored

-- `if stored is None or Decimal(stored) != settled: tx.put(...)`
abbrev pub store_settled :
    Option ℤ → String × String → ℤ → Dict (String × String) ℤ → Dict (String × String) ℤ
store_settled none key amount budgets = insert key amount budgets
store_settled (some stored) key amount budgets =
    if stored == amount then budgets else insert key amount budgets

-- The loop over the sorted rows: it writes the settled amounts, and stops at the first row whose
-- amount is more than what remains.
unfoldable pub check_rows :
    List Reservation
    → List Row
    → Dict (String × String) ℤ
    → ReservationCheck × Dict (String × String) ℤ
unfolding settled_amount
check_rows live [] budgets = (granted, budgets)
check_rows live (row ∷ rows) budgets =
    let settled = settled_amount budgets row in
    let budgets' = store_settled (lookup (row_key row) budgets) (row_key row) settled budgets in
    let reserved = active_amount (budget_amount row.request.scope_id row.meter) live in
    let amount = row_amount row in
    let remaining = row.limit -ℤ settled -ℤ reserved in
    let rest = check_rows live rows budgets' in
    if ltb_ℤ remaining amount
    then (
      refused (record {
        is_window = false;
        meter = row.meter;
        requested = amount;
        remaining = remaining;
        window_seconds = none;
      }),
      budgets',
    )
    else rest
