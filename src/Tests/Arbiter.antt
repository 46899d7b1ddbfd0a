-- ===== src/Tests/Arbiter.antt =====
-- Examples of the arbiter: a team with 10 dollars, and an account with 20 an hour.
use pollard.Common.{pair_eq, String, ◌≡◌, refl, List, [], ◌∷◌, some, All, arith, string_eq}
use pollard.Common.Int.{ℤ, pos, ◌+ℤ◌, ◌-ℤ◌, ◌≤ℤ◌, int_laws}
use pollard.Common.Dict.{Dict, lookup, insert}
use pollard.Errors.{ok}
use pollard.Arbiter.{
  BudgetReservation, WindowReservation, settled, Reservation, granted, Kv, empty, budget_rows,
  settled_amount, check_rows, active_amount, active_reservations, budget_amount, sum_details,
}
use pollard.Arbiter.Request.{request_digest, charges_digest}
use pollard.Arbiter.Operations.{
  reserve, settle, close, details_of, new_reservation, window_settled, reserve_new, check_windows,
  settle_details,
}
use pollard.Arbiter.Reserve.{WithinLimit, reserve-WithinLimit}
use pollard.Arbiter.Windows.{WithinWindow, reserve-WithinWindow}
use pollard.Arbiter.Settle.{charge_for, add_amount, settle_effect}
use pollard.Arbiter.Runs.{Run, start, then_step, tick, reserves, settles, charged, run_within}
use pollard.Arbiter.Delivery.{
  answered, lost_answer, pollard_reserve, pollard_settle, reserve_lost_answer, settle_lost_answer,
}
use pollard.Tests.{checksum_sha}

abbrev budgets : List BudgetReservation
budgets =
    record {
      scope_id = "team";
      limits = ("usd", pos 10) ∷ ("depth", pos 3) ∷ [];
      baseline = [];
      estimates = ("usd", pos 4) ∷ [];
    }
    ∷ []

abbrev hour : WindowReservation
hour = record {
  ledger_key = "account";
  meter = "usd";
  limit = pos 20;
  amount = pos 4;
  window_seconds = 3600;
}

abbrev held : Reservation
held =
    new_reservation (request_digest budgets (hour ∷ []) 60)
      (details_of (budget_rows budgets) (hour ∷ [])) 60 5

abbrev reserved : Kv
reserved = record {
  budgets = (("team", "usd"), pos 0) ∷ [];
  reservations = ("r", held) ∷ [];
  events = [];
}

reserve_granted : reserve "r" budgets (hour ∷ []) 60 5 empty ≡ ok (granted, reserved)
unfolding ◌-ℤ◌ ◌+ℤ◌ reserve reserve_new budget_rows settled_amount active_amount active_reservations
    check_windows window_settled check_rows
reserve_granted = refl

reserve-WithinLimit_example : All (WithinLimit 5 empty reserved) (budget_rows budgets)
unfolding budget_rows
reserve-WithinLimit_example =
    reserve-WithinLimit "r" budgets (hour ∷ []) 60 5 empty reserved refl (omega arith)
      reserve_granted (tt, tt)

reserve-WithinWindow_example : All (WithinWindow 5 empty reserved) (hour ∷ [])
reserve-WithinWindow_example =
    reserve-WithinWindow "r" budgets (hour ∷ []) 60 5 empty reserved refl (omega arith)
      reserve_granted (tt, tt) (tt, tt)

abbrev charges : Dict String ℤ
charges = ("usd", pos 3) ∷ []

abbrev spent : Kv
spent = record {
  budgets = (("team", "usd"), pos 3) ∷ [];
  reservations = ("r", close settled (some (charges_digest charges)) 9 held) ∷ [];
  events =
      (
        ("r", 1),
        record {
          scope_id = "account";
          meter = "usd";
          amount = pos 3;
          settled_at = 9;
          window_seconds = 3600;
        },
      )
      ∷ [];
}

settle_done : settle "r" charges 9 reserved ≡ ok spent
unfolding ◌+ℤ◌ settle settle_details budget_rows
settle_done = refl

settle_effect_example :
    (spent.reservations
      ≡ insert "r" (close settled (some (charges_digest charges)) 9 held) reserved.reservations)
    × ((scope meter : String)
        → lookup (scope, meter) spent.budgets
          ≡ add_amount
              (sum_details (charge_for scope meter charges) held.details)
              (lookup (scope, meter) reserved.budgets))
settle_effect_example = settle_effect "r" charges 9 held reserved spent refl refl settle_done

abbrev cap : String × String → ℤ
cap key = pos 10

worked : Run cap 0 empty 9 spent
unfolding budget_rows settled_amount active_amount active_reservations check_windows window_settled
    check_rows
worked =
    then_step
      (then_step
        (then_step (then_step start (tick 0 5 empty (omega arith))) (
          reserves "r" budgets (hour ∷ []) 60 5 granted empty reserved
            (record {
              distinct = (tt, tt);
              agreed = (refl, tt);
              baselines = (omega int_laws, tt);
              amounts = (omega int_laws, tt);
              window_amounts = (omega int_laws, tt);
            })
            (omega arith) reserve_granted))
        (tick 5 9 reserved (omega arith)))
      (settles "r" charges 9 held reserved spent refl refl (omega int_laws, (omega int_laws, tt))
        settle_done)

run_within_example :
    charged cap "team" "usd" worked
      +ℤ active_amount (budget_amount "team" "usd") (active_reservations 9 spent)
    ≤ℤ pos 10
run_within_example = run_within cap 0 9 spent "team" "usd" (λ s m. omega int_laws) worked

reserve_lost_answer_example :
    pollard_reserve lost_answer answered "r" budgets (hour ∷ []) 60 5 7 empty
    ≡ (some (ok granted), reserved)
reserve_lost_answer_example =
    reserve_lost_answer "r" budgets (hour ∷ []) 60 5 7 empty reserved refl (omega arith)
      (omega arith) reserve_granted

settle_lost_answer_example :
    pollard_settle lost_answer answered "r" charges 9 11 reserved ≡ (some (ok tt), spent)
settle_lost_answer_example =
    settle_lost_answer "r" charges 9 11 held reserved spent refl refl settle_done
