-- ===== src/Runtime/Call/Closes.antt =====
-- `Run._call` of src/pollard/runtime.py: the reservation of a call that was made is closed, however the
-- call ends.
use mathlib.Core.Path.{subst}
use pollard.Common.{
  ℕ, String, ◌≡◌, refl, sym, Bool, true, false, List, [], ◌++◌, Option, none, some, Bool-cases, inl,
  inr,
}
use pollard.Common.Int.{ℤ}
use pollard.Common.Dict.{Dict}
use pollard.Json.{Fields}
use pollard.Hashing.{Sha256}
use pollard.Tree.{Node, NodeKind}
use pollard.Arbiter.{Kv, settled, released}
use pollard.Arbiter.Settleable.{Settleable}
use pollard.Governor.Charges.{Amounts}
use pollard.Runtime.{
  Raised, Outcome, returned, raised, Run, Step, attempt, after, ◌>>=◌, ◌>>◌, advance,
}
use pollard.Runtime.Moves.{Moves, Moves-bind}
use pollard.Runtime.Numbers.{Numbers}
use pollard.Runtime.Stream.{DeltaCallback, is_post_dispatch_outcome_unknown}
use pollard.Runtime.Config.{Config, Moment}
use pollard.Runtime.Settle.{settle_reservation, release_reservation, settle_scopes}
use pollard.Runtime.Call.{StepFn, Tried, try_step, stop_measurements, stop_lease, optional_list}
use pollard.Runtime.Call.Unknown.{
  Event, record_unknown_outcome, raised_of, call_outcome_unknown, call_recording_failed,
}
use pollard.Runtime.Call.Build.{build_node, BuiltNumbers, build_node-BuiltNumbers}
use pollard.Runtime.Call.Finish.{
  raise_primary, original_error, fail_recording, fail_call, settle_and_put, built, lease_check,
  lease_stopped, step_ended, finish_call, make_call,
}
use pollard.Runtime.Call.Holds.{
  closes_in, SameArbiter, Holds, Holds-after, primary-SameArbiter, fails_as, ends_as, settled_again,
  under, advance-SameArbiter, scopes-SameArbiter, settle-Holds, release-Holds, unknown-Holds,
}

module _ ⦃h : Sha256⦄ ⦃a : Amounts⦄ {S : Type 0} where
  module _ (c : Config) (o : Moment) (id : String) (estimates : Dict String ℤ) where
    module _ (kind : NodeKind) (payload meter_payload : Fields) (tries : ℕ) where
      recording-Holds :
          (A : Type 0) (e : Raised) (causes : List Raised) (lost : Option String) (r : Run S)
          (kv : Kv)
          → r.world.arbiter ≡ some kv
          → Settleable id kv
          → Holds id
              (closes_in o settled)
              (fail_recording c o kind payload meter_payload tries
                (under id estimates)
                {A = A}
                e
                causes
                lost
                r).0
      unfolding fail_recording
      recording-Holds A e causes lost r kv q s =
          Holds-after {A = List Raised} {B = A} id (closes_in o settled)
            (record_unknown_outcome c o kind payload tries (under id estimates) e lost
              call_recording_failed r)
            (raise_primary e causes) (λ cleanup. primary-SameArbiter A e causes cleanup)
            (unknown-Holds c o id estimates kind payload tries e lost call_recording_failed r kv q
              s)

      lease-SameArbiter :
          (lost : Option String) (n : Node)
          → Moves
              (SameArbiter S)
              (lease_check c o kind payload meter_payload tries (under id estimates) lost n)
      lease-SameArbiter none n r = refl
      lease-SameArbiter (some detail) n r = refl

      put-Holds :
          (charges : Fields) (n : Node) (lost : Option String) (r : Run S) (kv : Kv)
          → Numbers charges
          → r.world.arbiter ≡ some kv
          → Settleable id kv
          → Holds id
              (closes_in o settled)
              (settle_and_put c o kind payload meter_payload tries
                (under id estimates)
                charges
                n
                lost
                r).0
      unfolding settle_and_put
      put-Holds charges n lost r kv numbers q s =
          let ends : Node → Step S Node = λ m.
            settle_scopes
            >> lease_check c o kind payload meter_payload tries (under id estimates) lost m in
          Holds-after {A = Unit {0}} {B = Node} id (closes_in o settled)
            (settle_reservation o (under id estimates) charges r)
            (λ done. advance c.mode n >>= ends)
            (λ done.
              Moves-bind (SameArbiter S) (advance c.mode n) ends (advance-SameArbiter c.mode n)
                (λ m.
                  Moves-bind (SameArbiter S) settle_scopes
                    (λ settled'.
                      lease_check c o kind payload meter_payload tries (under id estimates) lost m)
                    scopes-SameArbiter (λ settled'. lease-SameArbiter lost m)))
            (settle-Holds c o id estimates charges r kv numbers q s)

      fail-Holds :
          (A : Type 0) (e : Raised) (causes cleanup : List Raised) (has_result : Bool)
          (tried : Tried) (r : Run S) (kv : Kv)
          → r.world.arbiter ≡ some kv
          → Settleable id kv
          → Holds id
              (closes_in o (fails_as e has_result))
              (fail_call c o kind payload meter_payload tries
                (under id estimates)
                {A = A}
                e
                causes
                cleanup
                has_result
                tried
                r).0
      unfolding fail_call
      fail-Holds A e causes cleanup has_result tried r kv q s =
          let (lost, lease_error) = stop_lease tried.lease in
          let errors = cleanup ++ optional_list lease_error in
          let unknown : (x : Raised) (said : Event)
              → Holds id (closes_in o settled)
                  (after (λ more. raise_primary {A = A} x causes (errors ++ more))
                    (record_unknown_outcome c o kind payload tries (under id estimates) x lost said
                      r)).0 =
            λ x said.
              Holds-after {A = List Raised} {B = A} id (closes_in o settled)
                (record_unknown_outcome c o kind payload tries (under id estimates) x lost said r)
                (λ more. raise_primary x causes (errors ++ more))
                (λ more. primary-SameArbiter A x causes (errors ++ more))
                (unknown-Holds c o id estimates kind payload tries x lost said r kv q s) in
          elim (Bool-cases (is_post_dispatch_outcome_unknown e)) [
            | inl marked ↦ rw marked (unknown (original_error e) call_outcome_unknown)
            | inr plain ↦ elim (Bool-cases has_result) [
              | inl has ↦ rw plain (rw has (unknown e call_recording_failed))
              | inr lacks ↦ rw plain (
                  rw lacks (
                    Holds-after {A = Outcome (Unit {0})} {B = A} id (closes_in o released)
                      (attempt (release_reservation o (under id estimates)) r)
                      (λ done. raise_primary e causes (errors ++ raised_of done))
                      (λ done. primary-SameArbiter A e causes (errors ++ raised_of done))
                      (release-Holds c o id estimates r kv q s)))
            ]
          ]

      built-Holds :
          (lost : Option String) (x : Outcome (Fields × Node)) (r : Run S) (kv : Kv)
          → BuiltNumbers x
          → r.world.arbiter ≡ some kv
          → Settleable id kv
          → Holds id
              (closes_in o settled)
              (built c o kind payload meter_payload tries (under id estimates) lost x r).0
      built-Holds lost (raised e causes) r kv numbers q s =
          recording-Holds Node e causes lost r kv q s
      built-Holds lost (returned (charges, n)) r kv numbers q s =
          put-Holds charges n lost r kv numbers q s

      stopped-Holds :
          (result : Fields) (tried : Tried) (x : Option String × Option Raised) (r : Run S)
          (kv : Kv)
          → r.world.arbiter ≡ some kv
          → Settleable id kv
          → Holds id
              (closes_in o settled)
              (lease_stopped c o kind payload meter_payload tries
                (under id estimates)
                result
                tried
                x
                r).0
      stopped-Holds result tried (lost, some e) r kv q s = recording-Holds Node e [] lost r kv q s
      stopped-Holds result tried (lost, none) r kv q s =
          built-Holds lost
            (build_node c o kind r.cursor_id payload meter_payload tries (under id estimates) lost
              result tried.measurements)
            r kv
            (build_node-BuiltNumbers c o kind r.cursor_id payload meter_payload tries
              (under id estimates) lost result tried.measurements)
            q s

      ended-Holds :
          (tried : Tried) (x : Outcome Fields) (m : Option Raised) (r : Run S) (kv : Kv)
          → r.world.arbiter ≡ some kv
          → Settleable id kv
          → Holds id
              (closes_in o (ends_as x))
              (step_ended c o kind payload meter_payload tries (under id estimates) tried x m r).0
      ended-Holds tried (raised e causes) m r kv q s =
          fail-Holds Node e causes (optional_list m) false tried r kv q s
      ended-Holds tried (returned result) (some e) r kv q s =
          subst
            (λ st.
              Holds id (closes_in o st)
                (fail_call c o kind payload meter_payload tries (under id estimates) {A = Node} e []
                  [] true tried r).0)
            (sym (settled_again (is_post_dispatch_outcome_unknown e)))
            (fail-Holds Node e [] [] true tried r kv q s)
      ended-Holds tried (returned result) none r kv q s =
          stopped-Holds result tried (stop_lease tried.lease) r kv q s

    -- Once a call has been made, whose reservation the arbiter still holds with its details and budgets
    -- when the step ends: if one of the two tries to close it reaches the arbiter, whether or not it is
    -- answered, the reservation ends released when the step raised an exception that is not marked as an
    -- unknown outcome, and settled otherwise; if neither reaches it, the reservation stays held. This is
    -- so however the step, the measurements, the lease, the charges and the storing of nodes fail.
    pub make_call-closes :
        (kind : NodeKind) (payload identity meter_payload : Fields) (tries : ℕ) (fn : StepFn S)
        (on_delta : DeltaCallback) (run after_step : Run S) (tried : Tried) (kv : Kv)
        → try_step c o fn payload on_delta (under id estimates) run ≡ (after_step, tried)
        → after_step.world.arbiter ≡ some kv
        → Settleable id kv
        → Holds id
            (closes_in o (ends_as tried.outcome))
            (make_call c o kind payload identity meter_payload tries fn on_delta
              (under id estimates)
              run).0
    unfolding make_call finish_call
    make_call-closes kind payload identity meter_payload tries fn on_delta run after_step tried kv e
          q s =
        rw e (
          ended-Holds kind identity meter_payload tries tried tried.outcome
            (stop_measurements tried.measurements) after_step kv q s)
