-- ===== src/Tests/Runtime.antt =====
-- Examples of the runtime: a run with a call in its tree, a budget of 10 dollars, and a meter that
-- estimates 4 dollars for each call.
use pollard.Common.{
  ◌≤◌, ℕ, suc, String, ◌≡◌, refl, ap, ◌↔◌, ◌⊎◌, ◌+◌, ◌<◌, arith, true, false, List, [], ◌∷◌, Option,
  none, some, All, string_eq, if◌then◌else◌,
}
use pollard.Common.Int.{ℤ, pos, ◌+ℤ◌, ◌-ℤ◌}
use pollard.Common.Dict.{Dict}
use pollard.Errors.{ok, err, integrity_error, details_missing, value_error}
use pollard.Json.{int, Fields, field, end}
use pollard.Json.Text.{codes}
use pollard.Tree.{Node, model_call}
use pollard.Store.{MemoryStore, member}
use pollard.Arbiter.{
  Kv, empty, BudgetReservation, State, settled, released, granted, budget, budget_rows,
  active_reservations,
}
use pollard.Arbiter.Operations.{reserve, settle, new_reservation}
use pollard.Arbiter.Delivery.{answered, lost_answer}
use pollard.Arbiter.Settleable.{Settleable}
use pollard.Arbiter.Depth.{settle-reserve_depth}
use pollard.Governor.{Budget}
use pollard.Governor.Charges.{Amounts}
use pollard.Replay.{ReplayMode, record_mode, replay_mode}
use pollard.Runtime.{Raised, thrown, Outcome, returned, raised, World, BudgetScope, Run}
use pollard.Runtime.Heartbeat.{Answer, renewed, Round, Heartbeat, attempted_at, beats, begin, stop}
use pollard.Runtime.Heartbeat
use pollard.Runtime.Heartbeat.Steady.{Unbroken, stop_exact}
use pollard.Runtime.Heartbeat.Punctual.{stopped, confirms, recovers, stop-Punctual}
use pollard.Runtime.Stream.{complete, throws}
use pollard.Runtime.Config.{estimate, Meter, Config, stops, Moment, Reservation}
use pollard.Runtime.Cursor.{validate_agent_cursor, Delegation, rollback, depth}
use pollard.Runtime.Cursor.Lineage.{Lineage}
use pollard.Runtime.Cursor.Rollback.{goal_of, within_anchor, rollback_exact}
use pollard.Runtime.Tools.{Authority, check_tool_authority, unfenced_tool_call}
use pollard.Runtime.Tools.Permits.{permits, Refuses, check_tool_authority_exact}
use pollard.Runtime.Precheck.{precheck}
use pollard.Runtime.Call.{StepFn, try_step}
use pollard.Runtime.Call.Finish.{make_call}
use pollard.Runtime.Call.Holds.{Holds, under}
use pollard.Runtime.Call.Closes.{make_call-closes}
use pollard.Runtime.Steps.{
  Operation, calls, notes, branches, rolls_back, prunes, operate_all, operate_all-IsWell,
}
use pollard.Runtime.Checked.{EstimatedBy, ScopeFits, ReservedFor}
use pollard.Runtime.Fits.{precheck_fits}
use pollard.Runtime.ReadOnly.{operate_all-replay}
use pollard.Runtime.Well.{IsWell, IsSound, There}
use pollard.Tests.{checksum_sha, root_node, call_node, prompt}
use pollard.Tests.Store.{first_store, first_store-IsValid, first_store-IsOrdered}

-- Whole amounts only.
instance abbrev whole_amounts : Amounts
whole_amounts = record {
  of_int = λ n. n;
  of_float = λ t. pos 0;
  of_other = λ v. none;
  whole = λ n. some n;
  to_float = λ n. codes "0.0";
  text_of = λ n. "amount";
  as_float = λ n. n;
}

abbrev dollars : Meter
dollars = record {
  name = "usd";
  precheck_estimate = λ kind payload. estimate (pos 4);
  precheck_is_estimate = true;
  charge = λ kind payload result meta. returned (pos 3);
  fallback_reason = λ kind payload result meta. none;
  window = none;
  measure = none;
}

abbrev alone : Delegation
alone = record { anchor_id = none; identity = none; team_validator = λ s. ok tt }

abbrev config : ReplayMode → Config
config mode = record {
  mode = mode;
  refuse_duplicate_recordings = false;
  lease_seconds = 60;
  renewable = true;
  root_id = root_node.id;
  meters = dollars ∷ [];
  configurations = [];
  delegation = alone;
}

abbrev moment : Moment
moment = record {
  reservation_id = "r";
  event_id = "e";
  reserve_tries = record { first = answered; second = answered; now = 5; later = 6 };
  close_tries = record { first = lost_answer; second = answered; now = 9; later = 10 };
  created_at = "noon";
  duration = int (pos 2);
  lease = stops none;
}

abbrev ten_dollars : BudgetScope
ten_dollars = record {
  budget = record {
    usd = some (pos 10);
    tokens = none;
    depth = some (pos 3);
    seconds = none;
    steps = none;
    extra = [];
  };
  anchor_id = root_node.id;
  exhausted = [];
}

abbrev run_with : Kv → Run ℕ
run_with kv = record {
  world = record { store = first_store; arbiter = some kv; outside = 0 };
  cursor_id = call_node.id;
  budget_scopes = ten_dollars ∷ [];
  avoided = [];
}

abbrev answers : StepFn ℕ
answers payload w =
    (record w { outside = suc w.outside }, complete (field "answer" (int (pos 2)) end))

abbrev fails_at_once : StepFn ℕ
fails_at_once payload w = (w, throws (thrown "OSError" true))

abbrev all_kinds : List (Operation ℕ)
all_kinds =
    calls moment model_call prompt none 0 answers none
    ∷ notes moment prompt 0
    ∷ branches true moment 0 none
    ∷ calls moment model_call prompt none 1 fails_at_once none
    ∷ rolls_back none 1
    ∷ prunes
    ∷ []

first_run-IsWell : IsWell root_node.id (run_with empty)
first_run-IsWell = record {
  sound = record { valid = first_store-IsValid; ordered = first_store-IsOrdered };
  cursor_there = refl;
  id_there = refl;
}

kept :
    Fields
    → (w : World ℕ) → IsSound w.store
    → IsSound w.store × ((id : String) → There id w.store → There id w.store)
kept payload w sound = (sound, λ id there. there)

operate_all-IsWell_example :
    IsWell root_node.id (operate_all (config record_mode) all_kinds (run_with empty))
operate_all-IsWell_example =
    operate_all-IsWell root_node.id (config record_mode) all_kinds (run_with empty)
      (kept, (tt, (tt, (kept, (tt, (tt, tt)))))) first_run-IsWell

operate_all-replay_example :
    (operate_all (config replay_mode) all_kinds (run_with empty)).world ≡ (run_with empty).world
operate_all-replay_example = operate_all-replay (config replay_mode) refl all_kinds (run_with empty)

rollback_exact_example :
    (ids : List String) × Lineage first_store call_node.id ids
    × (rollback alone first_store call_node.id none 1 ≡ (
        let target = goal_of none 1 ids call_node.id in
        if member target (within_anchor none ids) then ok target else err value_error))
unfolding pollard.Runtime.Cursor.validate_agent_cursor
rollback_exact_example =
    rollback_exact first_store alone call_node.id none 1 first_store-IsValid first_store-IsOrdered
      refl refl

abbrev depth_only : List BudgetReservation
depth_only =
    record { scope_id = "team"; limits = ("depth", pos 3) ∷ []; baseline = []; estimates = [] } ∷ []

settle-reserve_depth_example :
    (kv : Kv) × (reserve "r" depth_only [] 60 5 empty ≡ ok (granted, kv))
    × (settle "r" [] 9 kv ≡ err (integrity_error details_missing))
settle-reserve_depth_example =
    settle-reserve_depth "r" depth_only 60 5 9 [] empty refl ((refl, tt), tt)

abbrev asks : Run ℕ × Outcome (Option Reservation)
asks = precheck (config record_mode) moment model_call prompt (run_with empty)

abbrev estimates : Dict String ℤ
estimates = ("usd", pos 4) ∷ ("depth", pos 2) ∷ []

asks_granted :
    asks.1 ≡ returned (some (record { reservation_id = some "r"; estimates = estimates }))
unfolding precheck pollard.Runtime.after pollard.Runtime.Cursor.validate_agent_cursor depth
    pollard.Store.get pollard.Governor.Charges.spent_decimal pollard.Governor.check_budget
    pollard.Governor.limits_of pollard.Governor.check_exhausted pollard.Governor.check_estimates
    ◌-ℤ◌ ◌+ℤ◌ reserve pollard.Arbiter.Operations.reserve_new pollard.Arbiter.check_rows budget_rows
    pollard.Arbiter.active_amount active_reservations pollard.Arbiter.settled_amount
    pollard.Arbiter.Operations.check_windows pollard.Arbiter.Delivery.pollard_reserve
asks_granted = refl

precheck_fits_example :
    (estimates : Dict String ℤ) × (d : ℕ) × (depth asks.0.world.store asks.0.cursor_id ≡ ok d)
    × EstimatedBy "model_call" prompt (dollars ∷ []) d estimates
    × All (ScopeFits asks.0.world.store estimates) (ten_dollars ∷ [])
    × ReservedFor estimates (
        some (record {
          reservation_id = some "r";
          estimates = ("usd", pos 4) ∷ ("depth", pos 2) ∷ [];
        }))
precheck_fits_example =
    precheck_fits (config record_mode) moment model_call prompt (run_with empty) asks.0
      (some (record { reservation_id = some "r"; estimates = estimates }))
      (ap (λ x. (asks.0, x)) asks_granted)

abbrev one_budget : List BudgetReservation
one_budget =
    record {
      scope_id = "team";
      limits = ("usd", pos 10) ∷ [];
      baseline = [];
      estimates = ("usd", pos 4) ∷ [];
    }
    ∷ []

abbrev held_kv : Kv
held_kv = record {
  budgets = (("team", "usd"), pos 0) ∷ [];
  reservations = ("r", new_reservation "request" (budget "team" "usd" (pos 4) ∷ []) 60 5) ∷ [];
  events = [];
}

held_kv-Settleable : Settleable "r" held_kv
held_kv-Settleable = record {
  held = new_reservation "request" (budget "team" "usd" (pos 4) ∷ []) 60 5;
  found = refl;
  open_state = refl;
  first = budget "team" "usd" (pos 4);
  rest = [];
  detailed = refl;
  budgeted = (refl, tt);
}

abbrev made_with : StepFn ℕ → Run ℕ × Outcome Node
made_with fn =
    make_call (config record_mode) moment model_call prompt prompt prompt 0 fn none
      (under "r" (("usd", pos 4) ∷ [])) (run_with held_kv)

-- A call that answers is settled.
make_call-closes_example : Holds "r" settled (made_with answers).0
unfolding try_step pollard.Runtime.Stream.consume_step_result
make_call-closes_example =
    make_call-closes (config record_mode) moment "r" (("usd", pos 4) ∷ []) model_call prompt prompt
      prompt 0 answers none (run_with held_kv)
      (try_step (config record_mode) moment answers prompt none (under "r" (("usd", pos 4) ∷ []))
        (run_with held_kv)).0
      (try_step (config record_mode) moment answers prompt none (under "r" (("usd", pos 4) ∷ []))
        (run_with held_kv)).1
      held_kv refl refl held_kv-Settleable

-- A call that fails before it was sent is released.
fails-released : Holds "r" released (made_with fails_at_once).0
unfolding try_step pollard.Runtime.Stream.consume_step_result
fails-released =
    make_call-closes (config record_mode) moment "r" (("usd", pos 4) ∷ []) model_call prompt prompt
      prompt 0 fails_at_once none (run_with held_kv)
      (try_step (config record_mode) moment fails_at_once prompt none
        (under "r" (("usd", pos 4) ∷ [])) (run_with held_kv)).0
      (try_step (config record_mode) moment fails_at_once prompt none
        (under "r" (("usd", pos 4) ∷ [])) (run_with held_kv)).1
      held_kv refl refl held_kv-Settleable

-- A lease of 3 seconds, which is renewed after one, fails once, and is renewed again.
abbrev first_round : Round
first_round = record { pause = 1; late = 3; answer = renewed; took = 20 }

abbrev failing_round : Round
failing_round = record { pause = 0; late = 5; answer = Heartbeat.fails "OSError"; took = 50 }

abbrev rounds : List Round
rounds = first_round ∷ failing_round ∷ first_round ∷ []

abbrev heartbeat : Heartbeat
heartbeat = beats 10 30000 1000 0 rounds (begin 10 30000 1000 0)

stop_exact_example :
    (stop 4000 false (some heartbeat) ≡ none)
    ↔ (false ≡ false)
      × ((last : ℕ) × Unbroken 10 30000 1000 0 0 1000 rounds last × (4000 < last + 3000))
stop_exact_example = stop_exact 10 30000 1000 0 rounds 4000 false

renewal_due : 4000 ≤ heartbeat.next_renewal + 100
unfolding beats attempted_at
renewal_due = omega arith

stop-Punctual_example : stop 4000 false (some heartbeat) ≡ none
stop-Punctual_example =
    stop-Punctual 10 30000 1000 100 0 rounds 4000 (omega arith) (omega arith)
      (confirms first_round refl (omega arith) (
        recovers failing_round first_round "OSError" refl (omega arith) refl (omega arith) stopped))
      renewal_due

abbrev helper : Authority
helper = record {
  tool_ceiling = some ("search" ∷ "read" ∷ []);
  agent_identity = some (record {
    team_id = "team";
    agent_id = "helper";
    task_id = "task";
    role = none;
    allowed_tools = some ("read" ∷ "write" ∷ []);
  });
  registry_digest = some "registry";
}

-- The agent may write, but its team may not.
check_tool_authority_exact_example :
    ((permits helper "write" ≡ true)
      × (check_tool_authority (config record_mode) moment helper "write" (run_with empty)
          ≡ (run_with empty, returned tt)))
    ⊎ ((permits helper "write" ≡ false)
        × Refuses
            (run_with empty)
            (check_tool_authority (config record_mode) moment helper "write" (run_with empty))
        × Refuses (run_with empty) (
            unfenced_tool_call
              (config record_mode)
              moment
              helper
              "write"
              prompt
              0
              (some answers)
              (run_with empty)))
unfolding validate_agent_cursor
check_tool_authority_exact_example =
    check_tool_authority_exact (config record_mode) moment helper "write" prompt 0 (some answers)
      (run_with empty) refl
