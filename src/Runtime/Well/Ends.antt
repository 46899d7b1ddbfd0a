-- ===== src/Runtime/Well/Ends.antt =====
-- The ends of a call in src/pollard/runtime.py, and the other operations, keep the run well formed.
use pollard.Common.{
  ℕ, String, Bool, true, false, List, [], ◌∷◌, ◌++◌, Option, none, some, string_eq, is_some,
  Bool-cases, inl, inr,
}
use pollard.Errors.{Result, ok, err}
use pollard.Json.{Fields}
use pollard.Hashing.{Sha256}
use pollard.Tree.{Node, NodeKind}
use pollard.Governor.Charges.{Amounts}
use pollard.Runtime.{
  Raised, Outcome, returned, raised, World, Run, Step, attempt, return, advance, ◌>>=◌,
}
use pollard.Runtime.Moves.{Moves, Moves-bind, after-rel, Moves-or_raise}
use pollard.Runtime.Stream.{DeltaCallback, is_post_dispatch_outcome_unknown}
use pollard.Runtime.Config.{Config, Moment, Reservation, LeaseRun, Measurement}
use pollard.Runtime.Charge.{estimated_charges}
use pollard.Runtime.Settle.{settle_reservation, release_reservation, settle_scopes}
use pollard.Runtime.Precheck.{precheck}
use pollard.Runtime.Call.{
  StepFn, Tried, try_step, measured, leased, stop_measurements, stop_lease, optional_list,
  start_reservation_lease, start_measurements,
}
use pollard.Runtime.Call.Unknown.{
  Event, record_unknown_outcome, noted, failure_node, call_outcome_unknown, call_recording_failed,
  raised_of,
}
use pollard.Runtime.Call.Build.{build_node}
use pollard.Runtime.Call.Finish.{
  raise_primary, original_error, fail_recording, fail_call, settle_and_put, built, lease_check,
  lease_stopped, step_ended, finish_call, make_call, call,
}
use pollard.Runtime.Well.{IsWell, StaysWell, IsSound, There, advance-IsWell}
use pollard.Runtime.Well.Checks.{precheck-IsWell}
use pollard.Runtime.Well.Calls.{
  settle-IsWell, release-IsWell, settle_scopes-IsWell, recorded_node-IsWell,
}

-- While a step runs, the shared store stays sound and loses no node.
abbrev pub StepKeeps : ⦃h : Sha256⦄ → {S : Type 0} → StepFn S → Type 0
StepKeeps {S} fn =
    (payload : Fields) (w : World S)
    → IsSound w.store
    → IsSound (fn payload w).0.store
      × ((id : String) → There id w.store → There id (fn payload w).0.store)

module _ ⦃h : Sha256⦄ ⦃a : Amounts⦄ {S : Type 0} (id : String) (c : Config) (o : Moment) where
  primary-IsWell :
      (A : Type 0) (e : Raised) (causes cleanup : List Raised)
      → Moves (StaysWell S id) (raise_primary {S = S} {A = A} e causes cleanup)
  primary-IsWell A e causes [] r w = w
  primary-IsWell A e causes (x ∷ xs) r w = w

  noted-IsWell :
      (settlement : Outcome (Unit {0})) (x : Result Node)
      → Moves (StaysWell S id) (noted c o settlement x)
  noted-IsWell settlement (err e) r w = w
  noted-IsWell settlement (ok n) r w =
      Moves-bind (StaysWell S id) (advance c.mode n) (λ stored. settle_scopes)
        (advance-IsWell id c.mode n) (λ stored. settle_scopes-IsWell id c) r w

  module _ (kind : NodeKind) (payload meter_payload : Fields) (tries : ℕ)
      (reservation : Option Reservation) where
    unknown-IsWell :
        (e : Raised) (lost : Option String) (said : Event)
        → Moves
            (StaysWell S id)
            (record_unknown_outcome c o kind payload tries reservation e lost said)
    unfolding record_unknown_outcome
    unknown-IsWell e lost said r =
        after-rel (StaysWell S id) {A = Outcome (Unit {0})} {B = List Raised}
          (λ settlement run.
            noted c o settlement
              (failure_node o kind payload tries reservation e lost said settlement run.cursor_id)
              run)
          r (attempt (settle_reservation o reservation (estimated_charges reservation)) r)
          (settle-IsWell id c o reservation (estimated_charges reservation) r)
          (λ settlement run.
            noted-IsWell settlement
              (failure_node o kind payload tries reservation e lost said settlement run.cursor_id)
              run)

    unknown_raise-IsWell :
        (A : Type 0) (x e : Raised) (causes errors : List Raised) (lost : Option String)
        (said : Event)
        → Moves (StaysWell S id) (
            record_unknown_outcome c o kind payload tries reservation x lost said
            >>= (λ more. raise_primary {A = A} e causes (errors ++ more)))
    unknown_raise-IsWell A x e causes errors lost said =
        Moves-bind (StaysWell S id) {A = List Raised} {B = A}
          (record_unknown_outcome c o kind payload tries reservation x lost said)
          (λ more. raise_primary e causes (errors ++ more)) (unknown-IsWell x lost said)
          (λ more. primary-IsWell A e causes (errors ++ more))

    recording-IsWell :
        (A : Type 0) (e : Raised) (causes : List Raised) (lost : Option String)
        → Moves
            (StaysWell S id)
            (fail_recording c o kind payload meter_payload tries reservation {A = A} e causes lost)
    unfolding fail_recording
    recording-IsWell A e causes lost =
        unknown_raise-IsWell A e e causes [] lost call_recording_failed

    fail-IsWell :
        (A : Type 0) (e : Raised) (causes cleanup : List Raised) (has_result : Bool) (tried : Tried)
        → Moves (StaysWell S id) (
            fail_call c o kind payload meter_payload tries reservation {A = A} e causes cleanup
              has_result tried)
    unfolding fail_call
    fail-IsWell A e causes cleanup has_result tried r w =
        let (lost, lease_error) = stop_lease tried.lease in
        let errors = cleanup ++ optional_list lease_error in
        elim (Bool-cases (is_post_dispatch_outcome_unknown e)) [
          | inl marked ↦ rw marked (
              unknown_raise-IsWell A (original_error e) (original_error e) causes errors lost
                call_outcome_unknown r w)
          | inr plain ↦ elim (Bool-cases has_result) [
            | inl has ↦
                rw plain
                  (rw has (unknown_raise-IsWell A e e causes errors lost call_recording_failed r w))
            | inr lacks ↦ rw plain (
                rw lacks (
                  Moves-bind (StaysWell S id) {A = Outcome (Unit {0})} {B = A}
                    (attempt (release_reservation o reservation))
                    (λ done. raise_primary e causes (errors ++ raised_of done))
                    (release-IsWell id c o reservation)
                    (λ done. primary-IsWell A e causes (errors ++ raised_of done)) r w))
          ]
        ]

    lease-IsWell :
        (lost : Option String) (n : Node) (reservation' : Option Reservation)
        → Moves
            (StaysWell S id)
            (lease_check c o kind payload meter_payload tries reservation' lost n)
    lease-IsWell none n reservation' r w = w
    lease-IsWell (some detail) n none r w = w
    lease-IsWell (some detail) n (some x) r w = w

    put-IsWell :
        (charges : Fields) (n : Node) (lost : Option String)
        → Moves
            (StaysWell S id)
            (settle_and_put c o kind payload meter_payload tries reservation charges n lost)
    unfolding settle_and_put
    put-IsWell charges n lost r =
        after-rel (StaysWell S id) _ r _ (settle-IsWell id c o reservation charges r) (λ u r₁.
          after-rel (StaysWell S id) _ r₁ _ (advance-IsWell id c.mode n r₁) (λ m r₂.
            after-rel (StaysWell S id) _ r₂ _ (settle_scopes-IsWell id c r₂)
              (λ u' r₃. lease-IsWell lost m reservation r₃)))

    built-IsWell :
        (lost : Option String) (x : Outcome (Fields × Node))
        → Moves (StaysWell S id) (built c o kind payload meter_payload tries reservation lost x)
    built-IsWell lost (raised e causes) = recording-IsWell Node e causes lost
    built-IsWell lost (returned (charges, n)) = put-IsWell charges n lost

    stopped-IsWell :
        (result : Fields) (tried : Tried) (x : Option String × Option Raised)
        → Moves
            (StaysWell S id)
            (lease_stopped c o kind payload meter_payload tries reservation result tried x)
    stopped-IsWell result tried (lost, some e) r = recording-IsWell Node e [] lost r
    stopped-IsWell result tried (lost, none) r =
        built-IsWell lost
          (build_node c o kind r.cursor_id payload meter_payload tries reservation lost result
            tried.measurements)
          r

    ended-IsWell :
        (tried : Tried) (x : Outcome Fields) (m : Option Raised)
        → Moves
            (StaysWell S id)
            (step_ended c o kind payload meter_payload tries reservation tried x m)
    ended-IsWell tried (raised e causes) m = fail-IsWell Node e causes (optional_list m) false tried
    ended-IsWell tried (returned result) (some e) = fail-IsWell Node e [] [] true tried
    ended-IsWell tried (returned result) none = stopped-IsWell result tried (stop_lease tried.lease)

    finish-IsWell :
        (tried : Tried)
        → Moves
            (StaysWell S id)
            (finish_call c o kind payload meter_payload tries reservation tried)
    unfolding finish_call
    finish-IsWell tried = ended-IsWell tried tried.outcome (stop_measurements tried.measurements)

  module _ (fn : StepFn S) (keeps : StepKeeps fn) (payload : Fields)
      (on_delta : DeltaCallback) where
    measured-IsWell :
        (lease : Option LeaseRun) (r : Run S) (x : Outcome (List Measurement))
        → IsWell id r
        → IsWell id (measured c o fn payload on_delta lease r x).0
    measured-IsWell lease r (raised e causes) w = w
    measured-IsWell lease r (returned ms) w =
        let (sound, stays) = keeps payload r.world w.sound in
        record {
          sound = sound;
          cursor_there = stays r.cursor_id w.cursor_there;
          id_there = stays id w.id_there;
        }

    leased-IsWell :
        (r : Run S) (x : Outcome (Option LeaseRun))
        → IsWell id r
        → IsWell id (leased c o fn payload on_delta r x).0
    leased-IsWell r (raised e causes) w = w
    leased-IsWell r (returned lease) w = measured-IsWell lease r (start_measurements c.meters []) w

    make_call-IsWell :
        (kind : NodeKind) (identity meter_payload : Fields) (tries : ℕ)
        (reservation : Option Reservation)
        → Moves
            (StaysWell S id)
            (make_call c o kind payload identity meter_payload tries fn on_delta reservation)
    unfolding make_call try_step
    make_call-IsWell kind identity meter_payload tries reservation r w =
        let lease = start_reservation_lease c o (is_some r.world.arbiter) reservation in
        let (r', tried) = leased c o fn payload on_delta r lease in
        finish-IsWell kind identity meter_payload tries reservation tried r'
          (leased-IsWell r lease w)

    -- Whatever comes of a call, the run stays well formed.
    pub call-IsWell :
        (kind : NodeKind) (meter_payload : Option Fields) (tries : ℕ)
        → Moves (StaysWell S id) (call c o kind payload meter_payload tries fn on_delta)
    unfolding call
    call-IsWell kind meter_payload tries r =
        after-rel (StaysWell S id) _ r _ (Moves-or_raise (StaysWell S id) _ r) (λ identity r₁.
          after-rel (StaysWell S id) _ r₁ _ (Moves-or_raise (StaysWell S id) _ r₁) (λ metered r₂.
            after-rel (StaysWell S id) _ r₂ _
              (recorded_node-IsWell id c kind identity tries on_delta r₂)
              (λ found r₃. found_or_made found identity metered r₃)))
      where
        found_or_made :
            (found : Option Node) (identity metered : Fields) (r : Run S)
            → IsWell id r
            → IsWell id
                ((elim found as (λ x. Step S Node) [
                  | some n ↦ return n
                  | none ↦ precheck c o kind metered >>= (λ reservation.
                      make_call c o kind payload identity metered tries fn on_delta reservation)
                ])
                  r).0
        found_or_made (some n) identity metered r w = w
        found_or_made none identity metered r w =
            Moves-bind (StaysWell S id) (precheck c o kind metered)
              (λ reservation.
                make_call c o kind payload identity metered tries fn on_delta reservation)
              (precheck-IsWell id c o kind metered)
              (λ reservation. make_call-IsWell kind identity metered tries reservation) r w
