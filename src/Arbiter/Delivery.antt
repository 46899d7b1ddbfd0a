-- ===== src/Arbiter/Delivery.antt =====
-- The transactions over a connection that may fail: `_pollard_reserve`, `_pollard_settle`,
-- `_pollard_release` and `_pollard_renew` of src/pollard/stores/_transactional.py try a second time after
-- a reconnect, and say that the outcome is uncertain when that fails too.
use pollard.Common.{
  ℕ, ◌+◌, ◌≤◌, ◌<◌, String, ◌≡◌, refl, ap, ◌∙◌, Bool, List, Option, none, some, string_eq, arith,
  eq_refl,
}
use pollard.Common.Int.{ℤ}
use pollard.Common.Dict.{Dict, lookup, insert, lookup-insert}
use pollard.Errors.{Error, Result, ok, err}
use pollard.Hashing.{Sha256}
use pollard.Arbiter.{
  BudgetReservation, WindowReservation, active, settled, Reservation, ReservationCheck, granted, Kv,
}
use pollard.Arbiter.Request.{request_digest, charges_digest}
use pollard.Arbiter.Operations.{reserve, settle, release, renew, retry_check, close}
use pollard.Arbiter.Reserve.{granted_parts, added}
use pollard.Arbiter.Settle.{settle_effect}

-- What happens to one attempt: it is answered, it never arrives, or it is carried out and the answer
-- is lost.
pub data Attempt : Type 0 where
  answered lost_request lost_answer : Attempt

-- A transaction with its result; one that raises writes nothing.
abbrev pub Transaction : Type 0 → Type 0
Transaction A = Kv → Result (A × Kv)

abbrev commit : {A : Type 0} → Result (A × Kv) → Kv → Option (Result A) × Kv
commit (ok (a, kv')) kv = (some (ok a), kv')
commit (err e) kv = (some (err e), kv)

-- `none` is a connection error.
abbrev pub attempt : {A : Type 0} → Attempt → Transaction A → Kv → Option (Result A) × Kv
attempt answered t kv = commit (t kv) kv
attempt lost_request t kv = (none, kv)
attempt lost_answer t kv = (none, (commit (t kv) kv).1)

abbrev second_try :
    {A : Type 0} → Option (Result A) × Kv → Attempt → Transaction A → Option (Result A) × Kv
second_try (some r, kv) second t = (some r, kv)
second_try (none, kv) second t = attempt second t kv

-- The first try, and after a connection error the second one. `none` is `ReservationUncertain` or
-- `SettlementUncertain`.
unfoldable pub retrying :
    {A : Type 0} → Attempt → Attempt → Transaction A → Transaction A → Kv → Option (Result A) × Kv
retrying first second t u kv = second_try (attempt first t kv) second u

-- What the caller sees, and the state: the error for an uncertain outcome, or the answer.
abbrev pub delivered : {A : Type 0} → Error → Option (Result A) × Kv → Result A × Kv
delivered uncertain (none, kv) = (err uncertain, kv)
delivered uncertain (some r, kv) = (r, kv)

abbrev pub no_value : Result Kv → Result (Unit {0} × Kv)
no_value (ok kv) = ok (tt, kv)
no_value (err e) = err e

module _ ⦃h : Sha256⦄ where
  -- The two tries read the clock at `now` and at `later`.
  unfoldable pub pollard_reserve :
      Attempt
      → Attempt
      → String
      → List BudgetReservation
      → List WindowReservation
      → ℕ
      → ℕ
      → ℕ
      → Kv
      → Option (Result ReservationCheck) × Kv
  unfolding retrying
  pollard_reserve first second id budgets windows lease now later =
      retrying first second (reserve id budgets windows lease now)
        (reserve id budgets windows lease later)

  unfoldable pub pollard_settle :
      Attempt → Attempt → String → Dict String ℤ → ℕ → ℕ → Kv → Option (Result (Unit {0})) × Kv
  unfolding retrying
  pollard_settle first second id charges now later =
      retrying first second (λ kv. no_value (settle id charges now kv))
        (λ kv. no_value (settle id charges later kv))

unfoldable pub pollard_release :
    Attempt → Attempt → String → ℕ → ℕ → Kv → Option (Result (Unit {0})) × Kv
unfolding retrying
pollard_release first second id now later =
    retrying first second (λ kv. no_value (release id now kv))
      (λ kv. no_value (release id later kv))

unfoldable pub pollard_renew :
    Attempt → Attempt → String → ℕ → ℕ → ℕ → Kv → Option (Result Bool) × Kv
unfolding retrying
pollard_renew first second id lease now later =
    retrying first second (λ kv. ok (renew id lease now kv)) (λ kv. ok (renew id lease later kv))

lookup-inserted :
    (id : String) (r : Reservation) (d : Dict String Reservation)
    → lookup id (insert id r d) ≡ some r
lookup-inserted id r d = rw (lookup-insert id id r d) (rw (eq_refl id) refl)

module _ ⦃h : Sha256⦄ where
  -- A granted request again, while its lease lasts: it is granted again, and nothing is written.
  reserve_again :
      (id : String) (budgets : List BudgetReservation) (windows : List WindowReservation)
      (lease now later : ℕ) (kv kv' : Kv)
      → lookup id kv.reservations ≡ none
      → later < now + lease
      → now ≤ later
      → reserve id budgets windows lease now kv ≡ ok (granted, kv')
      → reserve id budgets windows lease later kv' ≡ ok (granted, kv')
  unfolding reserve retry_check
  reserve_again id budgets windows lease now later kv kv' fresh lasts le done =
      let lasting : 0 < lease = omega arith in
      let (_, _, written) = granted_parts id budgets windows lease now kv kv' fresh lasting done in
      let one = added id budgets windows lease now kv kv' fresh lasting done in
      let found : lookup id kv'.reservations ≡ some one =
        ap (λ (k : Kv). lookup id k.reservations) written
        ∙ lookup-inserted id one kv.reservations in
      rw found (rw (eq_refl (request_digest budgets windows lease)) (ground (arith, lasts)))

  -- A reservation of a new id that is granted, whose first answer is lost and which is tried again before
  -- its lease ends, is still made exactly once.
  pub reserve_lost_answer :
      (id : String) (budgets : List BudgetReservation) (windows : List WindowReservation)
      (lease now later : ℕ) (kv kv' : Kv)
      → lookup id kv.reservations ≡ none
      → later < now + lease
      → now ≤ later
      → reserve id budgets windows lease now kv ≡ ok (granted, kv')
      → pollard_reserve lost_answer answered id budgets windows lease now later kv
        ≡ (some (ok granted), kv')
  unfolding pollard_reserve retrying
  reserve_lost_answer id budgets windows lease now later kv kv' fresh lasts le done =
      rw done
        (rw (reserve_again id budgets windows lease now later kv kv' fresh lasts le done) refl)

  -- The same charges again: nothing is written.
  pub settle_again :
      (id : String) (charges : Dict String ℤ) (now later : ℕ) (r : Reservation) (kv kv' : Kv)
      → lookup id kv.reservations ≡ some r
      → r.state ≡ active
      → settle id charges now kv ≡ ok kv'
      → settle id charges later kv' ≡ ok kv'
  unfolding settle
  settle_again id charges now later r kv kv' found open_state done =
      let (written, _) = settle_effect id charges now r kv kv' found open_state done in
      let one = close settled (some (charges_digest charges)) now r in
      let kept : lookup id kv'.reservations ≡ some one =
        ap (lookup id) written ∙ lookup-inserted id one kv.reservations in
      rw kept (rw (eq_refl (charges_digest charges)) refl)

  -- Charges whose first answer is lost are still booked exactly once.
  pub settle_lost_answer :
      (id : String) (charges : Dict String ℤ) (now later : ℕ) (r : Reservation) (kv kv' : Kv)
      → lookup id kv.reservations ≡ some r
      → r.state ≡ active
      → settle id charges now kv ≡ ok kv'
      → pollard_settle lost_answer answered id charges now later kv ≡ (some (ok tt), kv')
  unfolding pollard_settle retrying
  settle_lost_answer id charges now later r kv kv' found open_state done =
      rw done (rw (settle_again id charges now later r kv kv' found open_state done) refl)
