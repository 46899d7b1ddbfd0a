-- ===== src/Runtime/Call/Finish.antt =====
-- The ends of `Run._call` in src/pollard/runtime.py, and the whole call.
use pollard.Common.{
  ℕ, String, Bool, true, false, List, [], ◌∷◌, ◌++◌, Option, none, some, if◌then◌else◌, get_or,
}
use pollard.Json.{Fields}
use pollard.Json.Snapshot.{snapshot_payload}
use pollard.Hashing.{Sha256}
use pollard.Tree.{Node, NodeKind}
use pollard.Errors.{Result, ok}
use pollard.Governor.Charges.{Amounts}
use pollard.Runtime.{
  Raised, reservation_lease_lost, outcome_unknown, Outcome, returned, raised, Step, return,
  or_raise, attempt, ◌>>=◌, ◌>>◌, advance,
}
use pollard.Runtime.Stream.{DeltaCallback, is_post_dispatch_outcome_unknown}
use pollard.Runtime.Config.{Config, Moment, Reservation}
use pollard.Runtime.Precheck.{precheck}
use pollard.Runtime.Settle.{settle_reservation, release_reservation, settle_scopes, recorded_node}
use pollard.Runtime.Call.{StepFn, Tried, try_step, stop_measurements, stop_lease, optional_list}
use pollard.Runtime.Call.Build.{build_node}
use pollard.Runtime.Call.Unknown.{
  record_unknown_outcome, call_outcome_unknown, call_recording_failed, raised_of,
}

-- `_raise_primary`: an error with no cleanup keeps the cause that it had.
abbrev pub raise_primary : {S A : Type 0} → Raised → List Raised → List Raised → Step S A
raise_primary e causes [] run = (run, raised e causes)
raise_primary e causes (x ∷ cleanup) run = (run, raised e (x ∷ cleanup))

abbrev pub original_error : Raised → Raised
original_error (outcome_unknown e) = e
original_error e = e

module _ ⦃h : Sha256⦄ ⦃a : Amounts⦄ (c : Config) (o : Moment) where
  module _ {S : Type 0} (kind : NodeKind) (payload meter_payload : Fields) (tries : ℕ)
      (reservation : Option Reservation) where
    -- An error after the step has returned: the call is recorded as completed but not recorded.
    unfoldable pub fail_recording : {A : Type 0} → Raised → List Raised → Option String → Step S A
    unfolding record_unknown_outcome
    fail_recording e causes lost =
        record_unknown_outcome c o kind payload tries reservation e lost call_recording_failed
        >>= (λ cleanup. raise_primary e causes cleanup)

    -- The branch for an error before the result is there, or while the measurements are left.
    unfoldable pub fail_call :
        {A : Type 0} → Raised → List Raised → List Raised → Bool → Tried → Step S A
    unfolding record_unknown_outcome stop_lease
    fail_call e causes cleanup has_result tried =
        let (lost, lease_error) = stop_lease tried.lease in
        let errors = cleanup ++ optional_list lease_error in
        if is_post_dispatch_outcome_unknown e
        then (record_unknown_outcome c o kind payload tries reservation (original_error e) lost
              call_outcome_unknown
            >>= (λ more. raise_primary (original_error e) causes (errors ++ more)))
        else if has_result
        then (record_unknown_outcome c o kind payload tries reservation e lost call_recording_failed
            >>= (λ more. raise_primary e causes (errors ++ more)))
        else (attempt (release_reservation o reservation)
            >>= (λ done. raise_primary e causes (errors ++ raised_of done)))

    abbrev pub lease_check : Option String → Node → Step S Node
    lease_check (some detail) n run = elim reservation [
      | some r ↦ (run, raised (reservation_lease_lost (get_or "" r.reservation_id) n.id detail) [])
      | none ↦ (run, returned n)
    ]
    lease_check none n run = (run, returned n)

    -- What follows the second `try` block.
    unfoldable pub settle_and_put : Fields → Node → Option String → Step S Node
    unfolding settle_reservation settle_scopes
    settle_and_put charges node lost =
        settle_reservation o reservation charges
        >> (advance c.mode node >>= (λ n. settle_scopes >> lease_check lost n))

    abbrev pub built : Option String → Outcome (Fields × Node) → Step S Node
    built lost (raised e causes) = fail_recording e causes lost
    built lost (returned (charges, node)) = settle_and_put charges node lost

    abbrev pub lease_stopped : Fields → Tried → Option String × Option Raised → Step S Node
    lease_stopped result tried (lost, some e) run = fail_recording e [] lost run
    lease_stopped result tried (lost, none) run =
        built lost
          (build_node c o kind run.cursor_id payload meter_payload tries reservation lost result
            tried.measurements)
          run

    abbrev pub step_ended : Tried → Outcome Fields → Option Raised → Step S Node
    step_ended tried (raised e causes) measurement_error =
        fail_call e causes (optional_list measurement_error) false tried
    step_ended tried (returned result) (some e) = fail_call e [] [] true tried
    step_ended tried (returned result) none = lease_stopped result tried (stop_lease tried.lease)

    -- Everything after the first `try` block.
    unfoldable pub finish_call : Tried → Step S Node
    unfolding fail_call fail_recording settle_and_put build_node stop_lease stop_measurements
    finish_call tried = step_ended tried tried.outcome (stop_measurements tried.measurements)

  -- `_call`, after the checks.
  unfoldable pub make_call :
      {S : Type 0}
      → NodeKind
      → Fields
      → Fields
      → Fields
      → ℕ
      → StepFn S
      → DeltaCallback
      → Option Reservation
      → Step S Node
  unfolding try_step finish_call
  make_call kind payload identity meter_payload tries fn on_delta reservation run =
      let (run', tried) = try_step c o fn payload on_delta reservation run in
      finish_call kind identity meter_payload tries reservation tried run'

  abbrev pub meter_snapshot : Fields → Option Fields → Result Fields
  meter_snapshot identity none = ok identity
  meter_snapshot identity (some payload) = snapshot_payload payload

  -- `_call`
  unfoldable pub call :
      {S : Type 0} → NodeKind → Fields → Option Fields → ℕ → StepFn S → DeltaCallback → Step S Node
  unfolding precheck recorded_node make_call
  call kind payload meter_payload tries fn on_delta = do
    identity ← or_raise (snapshot_payload payload)
    metered ← or_raise (meter_snapshot identity meter_payload)
    recorded ← recorded_node c kind identity tries on_delta
    elim recorded [
      | some n ↦ return n
      | none ↦
          precheck c o kind metered
          >>= (λ reservation. make_call kind payload identity metered tries fn on_delta reservation)
    ]
