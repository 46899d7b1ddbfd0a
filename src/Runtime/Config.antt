-- ===== src/Runtime/Config.antt =====
-- What a run of src/pollard/runtime.py is set up with, and what one operation gets from outside: the
-- meters (the protocol of src/pollard/meters), ids from `uuid4`, the clocks and the heartbeat.
use pollard.Common.{ℕ, String, Bool, List, Option}
use pollard.Common.Int.{ℤ}
use pollard.Json.{Json, Fields}
use pollard.Tree.{Node}
use pollard.Arbiter.Delivery.{Attempt}
use pollard.Replay.{ReplayMode}
use pollard.Runtime.{Raised, Outcome}
use pollard.Runtime.Cursor.{Delegation}

-- A `MeterPrecheckRefusal`, whose audit metadata is valid.
pub record MeterRefusal : Type 0 where
  pub reason : String
  pub detail : Option String
  pub audit_meta : Fields
  pub requested : Option String
  pub remaining : Option String

-- What `precheck_estimate` returns or raises.
pub data Estimate : Type 0 where
  no_estimate : Estimate
  estimate : ℤ → Estimate
  refusal : MeterRefusal → Estimate
  fails : Raised → Estimate

-- What makes a meter a `WindowMeter`.
pub record Window : Type 0 where
  pub limit : ℤ
  pub window_seconds : ℕ
  pub ledger_key : String → String

-- The context manager that `measure` returns: what entering and leaving it raise, and its readings.
pub record Measurement : Type 0 where
  pub enter_error : Option Raised
  pub exit_error : Option Raised
  pub readings : Outcome Fields

-- `fallback_reason` is a non-empty text, and nothing if the hook raises or is not there.
pub record Meter : Type 0 where
  pub name : String
  pub precheck_estimate : String → Fields → Estimate
  pub precheck_is_estimate : Bool
  pub charge : String → Fields → Json → Fields → Outcome ℤ
  pub fallback_reason : String → Fields → Json → Fields → Option String
  pub window : Option Window
  pub measure : Option Measurement

-- `configurations` are the nodes that the shared budgets, and then the named windows, are bound to.
pub record Config : Type 0 where
  pub mode : ReplayMode
  pub refuse_duplicate_recordings : Bool
  pub lease_seconds : ℕ
  pub renewable : Bool
  pub root_id : String
  pub meters : List Meter
  pub configurations : List Node
  pub delegation : Delegation

-- How the heartbeat of a reservation went: it did not start, or what stopping it returned or raised.
pub data LeaseRun : Type 0 where
  start_fails : Raised → LeaseRun
  stops : (lost : Option String) → LeaseRun
  stop_fails : Raised → LeaseRun

-- The two tries of a transaction of the arbiter, with the arbiter's clock.
pub record Tries : Type 0 where
  pub first : Attempt
  pub second : Attempt
  pub now : ℕ
  pub later : ℕ

-- `close_tries` are those of the settlement or release, of which a call makes one.
pub record Moment : Type 0 where
  pub reservation_id : String
  pub event_id : String
  pub reserve_tries : Tries
  pub close_tries : Tries
  pub created_at : String
  pub duration : Json
  pub lease : LeaseRun

-- `_Reservation`
pub record Reservation : Type 0 where
  pub reservation_id : Option String
  pub estimates : List (String × ℤ)
