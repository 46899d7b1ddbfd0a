-- ===== src/Runtime/Call.antt =====
-- `Run._call` of src/pollard/runtime.py: a call is answered from its recording, refused, or made; and
-- every way that a made call can end.
pub mod Unknown
pub mod Build
pub mod Finish
pub mod Holds
pub mod Closes
use pollard.Common.{
  ℕ, String, Bool, true, false, not, ◌&&◌, ◌||◌, List, [], ◌∷◌, ◌++◌, Option, none, some, is_some,
  if◌then◌else◌,
}
use pollard.Errors
use pollard.Json.{Json, Fields}
use pollard.Json.Snapshot.{snapshot_payload}
use pollard.Hashing.{Sha256}
use pollard.Tree.{Node, NodeKind}
use pollard.Governor.Charges.{Amounts}
use pollard.Runtime.{
  Raised, call_cleanup, Causes, no_cause, cause, Outcome, returned, raised, World, Run, Step,
  return, or_raise, after, ◌>>=◌,
}
use pollard.Runtime.Stream.{StepResult, DeltaCallback, consume_step_result}
use pollard.Runtime.Config.{
  Measurement, Meter, Config, LeaseRun, start_fails, stops, stop_fails, Moment, Reservation,
}
use pollard.Runtime.Precheck.{precheck}
use pollard.Runtime.Settle.{recorded_node}

-- A step function, with everything else that happens to the shared world while it runs.
abbrev pub StepFn : Type 0 → Type 0
StepFn S = Fields → World S → World S × StepResult

abbrev pub optional_list : Option Raised → List Raised
optional_list none = []
optional_list (some e) = e ∷ []

abbrev pub causes_of : List Raised → Causes
causes_of [] = no_cause
causes_of (e ∷ es) = cause e (causes_of es)

abbrev pub joined_errors : List Raised → Option Raised
joined_errors [] = none
joined_errors (e ∷ []) = some e
joined_errors (e ∷ f ∷ es) = some (call_cleanup (causes_of (e ∷ f ∷ es)))

-- What leaving the measurements raises, the last one first.
abbrev pub exit_errors : List Measurement → List Raised
exit_errors [] = []
exit_errors (m ∷ ms) = exit_errors ms ++ optional_list m.exit_error

-- `_stop_measurements`
unfoldable pub stop_measurements : List Measurement → Option Raised
stop_measurements ms = joined_errors (exit_errors ms)

-- `_start_measurements`, with those that were started before.
unfoldable pub start_measurements : List Meter → List Measurement → Outcome (List Measurement)
unfolding stop_measurements
start_measurements [] started = returned started
start_measurements (m ∷ meters) started = elim m.measure [
  | none ↦ start_measurements meters started
  | some measurement ↦ elim measurement.enter_error [
    | none ↦ start_measurements meters (started ++ measurement ∷ [])
    | some e ↦ raised e (optional_list (stop_measurements started))
  ]
]

-- Is there a heartbeat to start for this reservation?
abbrev pub leases : Config → Bool → Option Reservation → Bool
leases c transactional none = false
leases c transactional (some r) = is_some r.reservation_id && transactional && c.renewable

abbrev pub started_lease : LeaseRun → Outcome (Option LeaseRun)
started_lease (start_fails e) = raised e []
started_lease lease = returned (some lease)

-- `_start_reservation_lease`
unfoldable pub start_reservation_lease :
    Config → Moment → Bool → Option Reservation → Outcome (Option LeaseRun)
start_reservation_lease c o transactional reservation =
    if leases c transactional reservation then started_lease o.lease else returned none

-- `_stop_lease`: how the lease was lost, and what stopping it raised.
unfoldable pub stop_lease : Option LeaseRun → Option String × Option Raised
stop_lease (some (stops lost)) = (lost, none)
stop_lease (some (stop_fails e)) = (none, some e)
stop_lease _ = (none, none)

-- Where the `try` block of a call leaves off.
pub record Tried : Type 0 where
  pub outcome : Outcome Fields
  pub measurements : List Measurement
  pub lease : Option LeaseRun

module _ {S : Type 0} (c : Config) (o : Moment) where
  abbrev pub step_tried :
      DeltaCallback
      → List Measurement
      → Option LeaseRun
      → Run S
      → World S × StepResult
      → Run S × Tried
  step_tried on_delta ms lease run (w, result) = (
    record run { world = w },
    record { outcome = consume_step_result on_delta result; measurements = ms; lease = lease },
  )

  abbrev pub measured :
      StepFn S
      → Fields
      → DeltaCallback
      → Option LeaseRun
      → Run S
      → Outcome (List Measurement)
      → Run S × Tried
  measured fn payload on_delta lease run (raised e causes) =
      (run, record { outcome = raised e causes; measurements = []; lease = lease })
  measured fn payload on_delta lease run (returned ms) =
      step_tried on_delta ms lease run (fn payload run.world)

  abbrev pub leased :
      StepFn S → Fields → DeltaCallback → Run S → Outcome (Option LeaseRun) → Run S × Tried
  leased fn payload on_delta run (raised e causes) =
      (run, record { outcome = raised e causes; measurements = []; lease = none })
  leased fn payload on_delta run (returned lease) =
      measured fn payload on_delta lease run (start_measurements c.meters [])

  -- The `try` block: the lease, the measurements, and the step.
  unfoldable pub try_step :
      StepFn S → Fields → DeltaCallback → Option Reservation → Run S → Run S × Tried
  unfolding start_reservation_lease start_measurements
  try_step fn payload on_delta reservation run =
      leased fn payload on_delta run
        (start_reservation_lease c o (is_some run.world.arbiter) reservation)
