-- ===== src/Runtime/Precheck.antt =====
-- The checks before a call in src/pollard/runtime.py: the estimates, the budgets of the scopes, and the
-- reservation.
use pollard.Common.{
  suc, String, Bool, true, false, not, ◌&&◌, List, [], ◌∷◌, Option, none, some, is_some, string_eq,
  if◌then◌else◌,
}
use pollard.Common.Int.{ℤ, pos}
use pollard.Common.Dict.{Dict, insert}
use pollard.Errors.{Result, ok, err, type_error, reservation_uncertain}
use pollard.Json.{Fields}
use pollard.Hashing.{Sha256}
use pollard.Tree.{Node, NodeKind, kind_text}
use pollard.Store.{MemoryStore, member}
use pollard.Arbiter.{Kv, BudgetReservation, WindowReservation, ReservationCheck, granted, refused}
use pollard.Arbiter.Delivery.{delivered, pollard_reserve}
use pollard.Governor.{allowed, exceeded, check_budget, limits_of}
use pollard.Governor.Charges.{Amounts, spent_decimal}
use pollard.Replay.{is_replay}
use pollard.Scopes.{bind_configuration}
use pollard.Runtime.{
  Run, Outcome, error, thrown, returned, raised, BudgetScope, Step, return, raise, or_raise, ◌>>=◌,
  ◌>>◌,
}
use pollard.Runtime.Refuse.{arbiter_refused, budget_refused, meter_refused, refuse}
use pollard.Runtime.Cursor.{validate_agent_cursor, depth}
use pollard.Runtime.Config.{
  Estimate, no_estimate, estimate, refusal, fails, Window, Meter, Config, Moment, Reservation,
}

abbrev pub is_empty : {A : Type 0} → List A → Bool
is_empty [] = true
is_empty (x ∷ xs) = false

module _ ⦃a : Amounts⦄ where
  -- The requests for the budgets of the scopes, whose baselines are what was spent.
  unfoldable pub budget_requests :
      MemoryStore → Dict String ℤ → List BudgetScope → Result (List BudgetReservation)
  budget_requests s estimates [] = ok []
  budget_requests s estimates (scope ∷ scopes) = elim (limits_of scope.budget) [
    | err e ↦ err e
    | ok limits ↦ elim (spent_decimal s scope.anchor_id) [
      | err e ↦ err e
      | ok spent ↦ elim (budget_requests s estimates scopes) [
        | err e ↦ err e
        | ok rest ↦ ok (
            record {
              scope_id = scope.anchor_id;
              limits = limits;
              baseline = spent;
              estimates = estimates;
            }
            ∷ rest)
      ]
    ]
  ]

abbrev pub window_request : String → Meter → Window → ℤ → WindowReservation
window_request root_id m w amount = record {
  ledger_key = w.ledger_key root_id;
  meter = m.name;
  limit = w.limit;
  amount = amount;
  window_seconds = w.window_seconds;
}

-- The amount that a window asks for, which is zero without an estimate.
abbrev pub requested_amount : Estimate → Outcome ℤ
requested_amount no_estimate = returned (pos 0)
requested_amount (estimate amount) = returned amount
requested_amount (refusal r) = raised (thrown "MeterPrecheckRefusal" true) []
requested_amount (fails e) = raised e []

abbrev pub takes_reservation : NodeKind → Bool
takes_reservation NodeKind.model_call = true
takes_reservation NodeKind.tool_call = true
takes_reservation _ = false

abbrev pub unreserved : Dict String ℤ → Option Reservation
unreserved estimates = some (record { reservation_id = none; estimates = estimates })

abbrev pub reserved : String → Dict String ℤ → Option Reservation
reserved id estimates = some (record { reservation_id = some id; estimates = estimates })

abbrev pub reserve_answer :
    {S : Type 0} → Run S → Result ReservationCheck × Kv → Run S × Outcome ReservationCheck
reserve_answer run (r, kv) =
    or_raise r (record run { world = record run.world { arbiter = some kv } })

module _ ⦃h : Sha256⦄ {S : Type 0} (c : Config) where
  -- The loop of `_validate_shared_configuration`: each configuration is bound or checked.
  unfoldable pub bind_all : List Node → Step S (Unit {0})
  bind_all [] run = (run, returned tt)
  bind_all (expected ∷ nodes) run =
      let (s', r) = bind_configuration c.mode run.world.store expected in
      elim r [
        | err e ↦ (record run { world = record run.world { store = s' } }, raised (error e) [])
        | ok n ↦ bind_all nodes (record run { world = record run.world { store = s' } })
      ]

  abbrev pub bind_shared : List Node → Step S (Unit {0})
  bind_shared [] run = (run, returned tt)
  bind_shared (n ∷ nodes) run =
      if not (is_replay c.mode) && not (is_some run.world.arbiter)
      then (run, raised (error type_error) [])
      else bind_all (n ∷ nodes) run

  -- `_validate_shared_configuration`
  unfoldable pub validate_shared_configuration : Step S (Unit {0})
  unfolding bind_all
  validate_shared_configuration = bind_shared c.configurations

module _ ⦃h : Sha256⦄ ⦃a : Amounts⦄ {S : Type 0} (c : Config) (o : Moment) where
  -- The loop over the meters in `_estimates`: the estimates, and which of them are approximate.
  unfoldable pub meter_estimates :
      String
      → Fields
      → List Meter
      → Dict String ℤ
      → List String
      → Step S (Dict String ℤ × List String)
  unfolding refuse
  meter_estimates kind payload [] estimates approximate = return (estimates, approximate)
  meter_estimates kind payload (m ∷ meters) estimates approximate =
      elim (m.precheck_estimate kind payload) [
        | refusal r ↦ refuse c o (meter_refused m.name r) kind payload
        | fails e ↦ raise e
        | no_estimate ↦ meter_estimates kind payload meters estimates approximate
        | estimate amount ↦
            meter_estimates kind payload meters (insert m.name amount estimates)
              (if m.precheck_is_estimate then m.name ∷ approximate else approximate)
      ]

  -- `_estimates`
  unfoldable pub estimates_of : String → Fields → Step S (Dict String ℤ × List String)
  unfolding meter_estimates
  estimates_of kind payload = do
    found ← meter_estimates kind payload c.meters [] []
    (λ run.
        (do
          here ← or_raise (depth run.world.store run.cursor_id)
          return (insert "depth" (pos (suc here)) found.0, found.1))
          run)

  -- The loop over the budget scopes: the first that the estimates do not fit refuses the call.
  unfoldable pub check_scopes :
      String → Fields → Dict String ℤ → List String → List BudgetScope → Step S (Unit {0})
  unfolding refuse
  check_scopes kind payload estimates approximate [] run = (run, returned tt)
  check_scopes kind payload estimates approximate (scope ∷ scopes) run =
      (do
        spent ← or_raise (spent_decimal run.world.store scope.anchor_id)
        check ← or_raise (check_budget (some scope.budget) spent estimates scope.exhausted)
        elim check [
          | allowed ↦ check_scopes kind payload estimates approximate scopes
          | exceeded meter requested remaining ↦
              refuse c o (budget_refused meter requested remaining (member meter approximate)) kind
                payload
        ])
        run

  -- The requests for the windows; a meter that refuses only now raises its exception.
  unfoldable pub window_requests : String → Fields → List Meter → Step S (List WindowReservation)
  window_requests kind payload [] = return []
  window_requests kind payload (m ∷ meters) = elim m.window [
    | none ↦ window_requests kind payload meters
    | some w ↦ do
      amount ← (λ run. (run, requested_amount (m.precheck_estimate kind payload)))
      rest ← window_requests kind payload meters
      return (window_request c.root_id m w amount ∷ rest)
  ]

  -- `store._pollard_reserve(...)`: the answer, and the arbiter afterwards.
  abbrev pub reserve_step :
      List BudgetReservation → List WindowReservation → Kv → Step S ReservationCheck
  reserve_step budgets windows kv run =
      let t = o.reserve_tries in
      reserve_answer run (
        delivered (reservation_uncertain o.reservation_id) (
          pollard_reserve t.first t.second o.reservation_id budgets windows c.lease_seconds t.now
            t.later kv))

  unfoldable pub reserve_or_refuse :
      String
      → Fields
      → Dict String ℤ
      → List String
      → List BudgetReservation
      → List WindowReservation
      → Kv
      → Step S (Option Reservation)
  unfolding refuse
  reserve_or_refuse kind payload estimates approximate budgets windows kv = do
    answer ← reserve_step budgets windows kv
    elim answer [
      | granted ↦ return (reserved o.reservation_id estimates)
      | refused r ↦ refuse c o (arbiter_refused r (member r.meter approximate)) kind payload
    ]

  -- The part of `_precheck` that reserves, when the store is a transactional arbiter.
  unfoldable pub reserve_shared :
      String → Fields → Dict String ℤ → List String → Kv → Step S (Option Reservation)
  unfolding budget_requests window_requests reserve_or_refuse
  reserve_shared kind payload estimates approximate kv run =
      (do
        budgets ← or_raise (budget_requests run.world.store estimates run.budget_scopes)
        windows ← window_requests kind payload c.meters
        (if is_empty budgets && is_empty windows
            then return (unreserved estimates)
            else reserve_or_refuse kind payload estimates approximate budgets windows kv))
        run

  abbrev pub reserve_kind :
      NodeKind → Fields → Dict String ℤ → List String → Step S (Option Reservation)
  reserve_kind kind payload estimates approximate run =
      if not (takes_reservation kind) then (run, returned none) else elim run.world.arbiter [
        | none ↦ (run, returned (unreserved estimates))
        | some kv ↦ reserve_shared (kind_text kind) payload estimates approximate kv run
      ]

  -- `_precheck`
  unfoldable pub precheck : NodeKind → Fields → Step S (Option Reservation)
  unfolding validate_shared_configuration estimates_of check_scopes reserve_shared
  precheck kind payload run =
      (do
        or_raise (validate_agent_cursor c.delegation run.world.store run.cursor_id)
        validate_shared_configuration c
        found ← estimates_of (kind_text kind) payload
        check_scopes (kind_text kind) payload found.0 found.1 run.budget_scopes
        reserve_kind kind payload found.0 found.1)
        run
