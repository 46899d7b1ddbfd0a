-- ===== src/Runtime/Call/Unknown.antt =====
-- `Run._record_unknown_outcome` of src/pollard/runtime.py: a call whose result is not recorded settles its
-- estimates and leaves a note.
use pollard.Common.{ℕ, String, List, [], ◌∷◌, ◌++◌, Option, none, some, get_or}
use pollard.Errors
use pollard.Errors.{
  reservation_uncertain, settlement_uncertain, Error, Result, ok, err, key_error, type_error,
  value_error, runtime_error, arithmetic_error, does_not_end, integrity_error, missing_recording,
  duplicate_recording,
}
use pollard.Json.{null, str, obj, Fields, end, field}
use pollard.Hashing.{Sha256, digest_payload}
use pollard.Tree.{Node, NodeKind, kind_text, make}
use pollard.Governor.Charges.{Amounts}
use pollard.Runtime.{
  Raised, error, budget_exceeded, policy_violation, reservation_lease_lost, thrown, marked,
  outcome_unknown, call_cleanup, Outcome, returned, raised, Step, attempt, ◌>>=◌, advance,
}
use pollard.Runtime.Config.{Config, Moment, Reservation}
use pollard.Runtime.Settle.{settle_reservation, settle_scopes}
use pollard.Runtime.Charge.{estimated_charges}

-- `type(error).__name__`
abbrev pub error_name : Error → String
error_name (key_error id) = "KeyError"
error_name type_error = "TypeError"
error_name value_error = "ValueError"
error_name runtime_error = "RuntimeError"
error_name arithmetic_error = "InvalidOperation"
error_name does_not_end = ""
error_name (integrity_error fault) = "IntegrityError"
error_name (missing_recording id) = "MissingRecording"
error_name (duplicate_recording id) = "DuplicateRecording"
error_name (reservation_uncertain id) = "ReservationUncertain"
error_name (settlement_uncertain id) = "SettlementUncertain"

abbrev pub type_name : Raised → String
type_name (error e) = error_name e
type_name (budget_exceeded meter id) = "BudgetExceeded"
type_name (policy_violation detail id) = "PolicyViolation"
type_name (reservation_lease_lost id node detail) = "ReservationLeaseLost"
type_name (thrown name takes) = name
type_name (marked e) = type_name e
type_name (outcome_unknown e) = "PostDispatchOutcomeUnknown"
type_name (call_cleanup causes) = "CallCleanupError"

-- What is said of the outcome: `event`, `outcome` and `phase`.
pub record Event : Type 0 where
  pub event : String
  pub outcome : String
  pub phase : String

abbrev pub call_outcome_unknown : Event
call_outcome_unknown = record {
  event = "call_outcome_unknown";
  outcome = "unknown";
  phase = "post_dispatch";
}

abbrev pub call_recording_failed : Event
call_recording_failed = record {
  event = "call_recording_failed";
  outcome = "completed_unrecorded";
  phase = "post_result_processing";
}

abbrev pub reservation_of : Option Reservation → Option String
reservation_of none = none
reservation_of (some r) = r.reservation_id

abbrev pub raised_of : {A : Type 0} → Outcome A → List Raised
raised_of (returned a) = []
raised_of (raised e causes) = e ∷ []

abbrev pub reservation_field : Option String → Fields → Fields
reservation_field none rest = rest
reservation_field (some id) rest = field "reservation_id" (str id) rest

abbrev pub lease_field : Option String → Fields → Fields
lease_field none rest = rest
lease_field (some detail) rest =
    field "reservation_lease" (obj (field "status" (str "lost") (field "detail" (str detail) end)))
      rest

abbrev pub settlement_field : Outcome (Unit {0}) → Fields
settlement_field (returned done) = end
settlement_field (raised e causes) =
    field "settlement"
      (obj (field "status" (str "uncertain") (field "error_type" (str (type_name e)) end))) end

-- The metadata of the note.
unfoldable pub unknown_meta :
    Moment
    → Event
    → Fields
    → Raised
    → Option Reservation
    → Option String
    → Outcome (Unit {0})
    → Fields
unknown_meta o said charges e reservation lost settlement = field "created_at" (str o.created_at) (
    field "duration_s" o.duration (
      field "charges" (obj charges) (
        field "failure"
          (obj (
            field "outcome" (str said.outcome)
              (field "phase" (str said.phase) (field "error_type" (str (type_name e)) end))))
          (reservation_field (reservation_of reservation)
            (lease_field lost (settlement_field settlement))))))

unfoldable pub unknown_payload : Event → String → String → String → Fields
unknown_payload said event_id kind digest = field "event" (str said.event) (
    field "event_id" (str event_id)
      (field "blocked_kind" (str kind) (field "blocked_payload_digest" (str digest) end)))

-- The note under the cursor.
unfoldable pub failure_node :
    ⦃h : Sha256⦄
    → ⦃a : Amounts⦄ → Moment
    → NodeKind
    → Fields
    → ℕ
    → Option Reservation
    → Raised
    → Option String
    → Event
    → Outcome (Unit {0})
    → String
    → Result Node
unfolding unknown_meta unknown_payload
failure_node o kind payload tries reservation e lost said settlement cursor =
    Errors.◌>>=◌ (digest_payload payload) (λ digest.
      make NodeKind.note (some cursor)
        (unknown_payload said (get_or o.event_id (reservation_of reservation)) (kind_text kind)
          digest)
        tries null
        (unknown_meta o said (estimated_charges reservation) e reservation lost settlement))

module _ ⦃h : Sha256⦄ ⦃a : Amounts⦄ {S : Type 0} (c : Config) (o : Moment) where
  -- `self._runtime._put(failure)` and what follows it in its `try` block
  abbrev pub put_note : Node → Step S (Unit {0})
  put_note node = advance c.mode node >>= (λ stored. settle_scopes)

  -- The failure node is built outside of the `try` block.
  abbrev pub noted : Outcome (Unit {0}) → Result Node → Step S (List Raised)
  noted settlement (err e) run = (run, raised (error e) [])
  noted settlement (ok failure) run =
      let (run', stored) = put_note failure run in
      (run', returned (raised_of settlement ++ raised_of stored))

  -- `_record_unknown_outcome`: the errors that it collects.
  unfoldable pub record_unknown_outcome :
      NodeKind
      → Fields
      → ℕ
      → Option Reservation
      → Raised
      → Option String
      → Event
      → Step S (List Raised)
  unfolding settle_reservation settle_scopes failure_node
  record_unknown_outcome kind payload tries reservation e lost said =
      attempt (settle_reservation o reservation (estimated_charges reservation))
      >>= (λ settlement run.
          noted settlement
            (failure_node o kind payload tries reservation e lost said settlement run.cursor_id)
            run)
