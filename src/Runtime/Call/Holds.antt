-- ===== src/Runtime/Call/Holds.antt =====
-- What the parts of `Run._call` in src/pollard/runtime.py do to the reservation of a call.
use pollard.Common.{
  none, ℕ, String, ◌≡◌, refl, ◌∙◌, Bool, true, false, List, [], ◌∷◌, Option, some, if◌then◌else◌,
}
use pollard.Common.Int.{ℤ}
use pollard.Common.Dict.{Dict}
use pollard.Errors.{Error, Result, ok, err, settlement_uncertain, reservation_uncertain}
use pollard.Arbiter.Arrives.{left_in, settle-arrives, release-arrives}
use pollard.Arbiter.Delivery.{delivered, pollard_settle, pollard_release}
use pollard.Json.{Fields}
use pollard.Hashing.{Sha256}
use pollard.Tree.{Node, NodeKind}
use pollard.Store.{MemoryStore}
use pollard.Arbiter.{Kv, State, settled, released}
use pollard.Arbiter.Settleable.{Settleable, state_of}
use pollard.Governor.Charges.{Amounts}
use pollard.Replay.{ReplayMode}
use pollard.Runtime.{
  Raised, Outcome, returned, raised, Run, Step, attempt, after, advance, moved, put_stored,
}
use pollard.Runtime.Moves.{Relation, Moves, Moves-bind, Moves-or_raise}
use pollard.Runtime.Numbers.{Numbers, estimated_charges-Numbers, decimal_charges_total}
use pollard.Runtime.Stream.{is_post_dispatch_outcome_unknown}
use pollard.Runtime.Config.{Config, Moment, Reservation}
use pollard.Runtime.Settle.{
  settled_world, settle_reservation, release_reservation, settle_scopes, settled_scopes,
}
use pollard.Runtime.Charge.{estimated_charges}
use pollard.Runtime.Call.Unknown.{Event, record_unknown_outcome, noted, failure_node}
use pollard.Runtime.Call.Finish.{raise_primary}

-- The arbiter is the same before and after.
abbrev pub SameArbiter : (S : Type 0) → Relation S
SameArbiter S = record {
  rel = λ r r'. r'.world.arbiter ≡ r.world.arbiter;
  same = λ r. refl;
  next = λ r₁ r₂ r₃ p q. q ∙ p;
}

-- The arbiter holds the reservation in this state.
abbrev pub Holds : {S : Type 0} → String → State → Run S → Type 0
Holds id state run = (kv : Kv) × (run.world.arbiter ≡ some kv) × (state_of id kv ≡ some state)

module _ {S : Type 0} where
  Holds-moved :
      (id : String) (state : State) (r r' : Run S)
      → r'.world.arbiter ≡ r.world.arbiter
      → Holds id state r
      → Holds id state r'
  Holds-moved id state r r' same (kv, e, q) = (kv, same ∙ e, q)

  -- What follows keeps the arbiter.
  pub Holds-after :
      {A B : Type 0} (id : String) (state : State) (x : Run S × Outcome A) (f : A → Step S B)
      → ((a : A) → Moves (SameArbiter S) (f a))
      → Holds id state x.0
      → Holds id state (after f x).0
  unfolding after
  Holds-after id state (r, returned a) f keeps h = Holds-moved id state r (f a r).0 (keeps a r) h
  Holds-after id state (r, raised e causes) f keeps h = h

  moved-SameArbiter :
      (r : Run S) (x : Result (MemoryStore × Node)) → (moved r x).0.world.arbiter ≡ r.world.arbiter
  moved-SameArbiter r (ok (s, n)) = refl
  moved-SameArbiter r (err e) = refl

  pub primary-SameArbiter :
      (A : Type 0) (e : Raised) (causes cleanup : List Raised)
      → Moves (SameArbiter S) (raise_primary {S = S} {A = A} e causes cleanup)
  primary-SameArbiter A e causes [] r = refl
  primary-SameArbiter A e causes (x ∷ xs) r = refl

-- The state that the reservation of a failed call ends in, by whether the step had returned.
abbrev pub fails_as : Raised → Bool → State
fails_as e has_result =
    if is_post_dispatch_outcome_unknown e then settled else if has_result then settled else released

-- Released when the step raised an exception that is not marked, and settled on every other end.
abbrev pub ends_as : Outcome Fields → State
ends_as (returned result) = settled
ends_as (raised e causes) = fails_as e false

pub settled_again : (b : Bool) → settled ≡ (if b then settled else settled)
settled_again true = refl
settled_again false = refl

-- The state that the reservation of a call is left in, by whether a try of its closing arrives.
abbrev pub closes_in : Moment → State → State
closes_in o state = left_in o.close_tries.first o.close_tries.second state

-- The arbiter is written whether the answer arrives or not.
settled_world-Holds :
    {S : Type 0} (id : String) (state : State) (r : Run S) (e : Error)
    (x : Option (Result (Unit {0})) × Kv)
    → state_of id x.1 ≡ some state
    → Holds id state (settled_world r (delivered e x)).0
settled_world-Holds id state r e (none, kv) q = (kv, refl, q)
settled_world-Holds id state r e (some (ok u), kv) q = (kv, refl, q)
settled_world-Holds id state r e (some (err y), kv) q = (kv, refl, q)

abbrev pub under : String → Dict String ℤ → Option Reservation
under id estimates = some (record { reservation_id = some id; estimates = estimates })

module _ ⦃h : Sha256⦄ ⦃a : Amounts⦄ {S : Type 0} where
  pub advance-SameArbiter : (mode : ReplayMode) (n : Node) → Moves (SameArbiter S) (advance mode n)
  advance-SameArbiter mode n r = moved-SameArbiter r (put_stored mode n r.world.store)

  pub scopes-SameArbiter : Moves (SameArbiter S) settle_scopes
  unfolding settle_scopes
  scopes-SameArbiter r =
      Moves-or_raise (SameArbiter S) (settled_scopes r.world.store r.budget_scopes).1
        (record r { budget_scopes = (settled_scopes r.world.store r.budget_scopes).0 })

  module _ (c : Config) (o : Moment) (id : String) (estimates : Dict String ℤ) where
    pub settle-Holds :
        (charges : Fields) (r : Run S) (kv : Kv)
        → Numbers charges
        → r.world.arbiter ≡ some kv
        → Settleable id kv
        → Holds id (closes_in o settled) (settle_reservation o (under id estimates) charges r).0
    unfolding settle_reservation
    settle-Holds charges r kv n e s =
        let (ds, q) = decimal_charges_total charges n in
        let t = o.close_tries in
        rw e (
          rw q (
            settled_world-Holds id _ r (settlement_uncertain id)
              (pollard_settle t.first t.second id ds t.now t.later kv)
              (settle-arrives id ds t.now t.later kv t.first t.second s)))

    pub release-Holds :
        (r : Run S) (kv : Kv)
        → r.world.arbiter ≡ some kv
        → Settleable id kv
        → Holds id (closes_in o released) (release_reservation o (under id estimates) r).0
    unfolding release_reservation
    release-Holds r kv e s =
        let t = o.close_tries in
        rw e (
          settled_world-Holds id _ r (reservation_uncertain id)
            (pollard_release t.first t.second id t.now t.later kv)
            (release-arrives id t.now t.later kv t.first t.second s))

    noted-SameArbiter :
        (settlement : Outcome (Unit {0})) (x : Result Node)
        → Moves (SameArbiter S) (noted c o settlement x)
    noted-SameArbiter settlement (err e) r = refl
    noted-SameArbiter settlement (ok n) r =
        Moves-bind (SameArbiter S) (advance c.mode n) (λ stored. settle_scopes)
          (advance-SameArbiter c.mode n) (λ stored. scopes-SameArbiter) r

    -- A note of an unknown outcome settles the estimates first.
    pub unknown-Holds :
        (kind : NodeKind) (payload : Fields) (tries : ℕ) (e : Raised) (lost : Option String)
        (said : Event) (r : Run S) (kv : Kv)
        → r.world.arbiter ≡ some kv
        → Settleable id kv
        → Holds id
            (closes_in o settled)
            (record_unknown_outcome c o kind payload tries (under id estimates) e lost said r).0
    unfolding record_unknown_outcome
    unknown-Holds kind payload tries e lost said r kv q s =
        Holds-after {A = Outcome (Unit {0})} {B = List Raised} id (closes_in o settled)
          (attempt
            (settle_reservation o (under id estimates) (estimated_charges (under id estimates))) r)
          (λ settlement run.
            noted c o settlement
              (failure_node o kind payload tries (under id estimates) e lost said settlement
                run.cursor_id)
              run)
          (λ settlement run.
            noted-SameArbiter settlement
              (failure_node o kind payload tries (under id estimates) e lost said settlement
                run.cursor_id)
              run)
          (settle-Holds (estimated_charges (under id estimates)) r kv
            (estimated_charges-Numbers (under id estimates)) q s)
