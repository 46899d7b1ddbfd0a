-- ===== src/Runtime/ReadOnly.antt =====
-- Runs of src/pollard/runtime.py that are replayed.
use mathlib.Core.Path.{subst}
use pollard.Common.{
  ℕ, String, ◌≡◌, refl, ap, sym, ◌∙◌, Bool, true, false, List, [], ◌∷◌, Option, none, some,
  string_eq, is_some, Option-cases, inl, inr,
}
use pollard.Errors.{Result, ok, err, >>=-eq-ok, ok_injective, Result-cases}
use pollard.Json.{Fields, end, field}
use pollard.Hashing.{Sha256}
use pollard.Tree.{Node, NodeKind, kind_text}
use pollard.Store.{MemoryStore, get}
use pollard.Governor.{Budget}
use pollard.Governor.Charges.{Amounts, charge_to_decimal}
use pollard.Replay.{replay_mode, replay_node_or_missing}
use pollard.Replay.Recorded.{replay_verified}
use pollard.Runtime.{
  Outcome, returned, raised, Run, Step, or_raise, after, return, advance, put_stored,
}
use pollard.Runtime.Moves.{Relation, Moves, Moves-or_raise, after-rel}
use pollard.Runtime.Returned.{same_return, after-returned, or_raise-returned}
use pollard.Runtime.Stream.{DeltaCallback, reemit_chunks}
use pollard.Runtime.Config.{Config, Moment}
use pollard.Runtime.Charge.{avoided_charges}
use pollard.Runtime.Settle.{avoid, reemitted, use_recording, recorded_node}
use pollard.Runtime.Cursor.{rollback}
use pollard.Runtime.Operations.{note, branch, branched, roll_back, prune}
use pollard.Runtime.Call.{StepFn}
use pollard.Runtime.Call.Finish.{call}
use pollard.Runtime.Steps.{
  Operation, calls, notes, branches, rolls_back, prunes, entered, operate, operate_all,
}

-- Nothing that the run shares has changed.
abbrev SameWorld : (S : Type 0) → Relation S
SameWorld S = record {
  rel = λ r r'. r'.world ≡ r.world;
  same = λ r. refl;
  next = λ r₁ r₂ r₃ p q. q ∙ p;
}

module _ {S : Type 0} (R : Relation S) where
  -- A chain whose first operation returns something, if it returns.
  answered-rel :
      {A B : Type 0} (f : Option A → Step S B) (r : Run S) (x : Run S × Outcome (Option A))
      → R.rel r x.0
      → ((r' : Run S) (v : Option A) → x ≡ (r', returned v) → is_some v ≡ true)
      → ((a : A) (r' : Run S) → R.rel r' (f (some a) r').0)
      → R.rel r (after f x).0
  unfolding after
  answered-rel f r (r', returned (some a)) h some_v hf = R.next r r' (f (some a) r').0 h (hf a r')
  answered-rel f r (r', returned none) h some_v hf = absurd (cc (some_v r' none refl))
  answered-rel f r (r', raised e causes) h some_v hf = h

module _ ⦃h : Sha256⦄ where
  -- Replaying looks a node up where recording would store it.
  replayed_store :
      (n m : Node) (s s' : MemoryStore) → put_stored replay_mode n s ≡ ok (s', m) → s' ≡ s
  unfolding put_stored
  replayed_store n m s s' e =
      let (k, q, r) = >>=-eq-ok (replay_node_or_missing s n) _ e in
      sym (ap (λ (p : MemoryStore × Node). p.0) (ok_injective (s, k) (s', m) r))

module _ ⦃h : Sha256⦄ {S : Type 0} where
  advance-SameWorld : (n : Node) → Moves (SameWorld S) (advance replay_mode n)
  advance-SameWorld n r = elim (Result-cases (put_stored replay_mode n r.world.store)) [
    | inr (x, e) ↦ rw e refl
    | inl ((s', m), e) ↦ rw e (
        ap (λ (s : MemoryStore). record r.world { store = s })
          (replayed_store n m r.world.store s' e))
  ]

module _ ⦃h : Sha256⦄ ⦃a : Amounts⦄ {S : Type 0} (c : Config) (replays : c.mode ≡ replay_mode) where
  avoid-SameWorld : (charges : Fields) → Moves (SameWorld S) (avoid c charges)
  avoid-SameWorld end r = refl
  avoid-SameWorld (field name value charges) r = elim (Result-cases (charge_to_decimal value)) [
    | inr (x, e) ↦ rw (e, avoid) refl
    | inl (amount, e) ↦ rw (e, avoid) (avoid-SameWorld charges _)
  ]

  reemitted-SameWorld :
      (on_delta : DeltaCallback) (n : Node) → Moves (SameWorld S) (reemitted on_delta n)
  reemitted-SameWorld on_delta n r = elim (Option-cases (reemit_chunks on_delta n.result)) [
    | inl quiet ↦ rw (quiet, reemitted) refl
    | inr (e, q) ↦ rw (q, reemitted) refl
  ]

  use_recording-SameWorld :
      (kind : NodeKind) (payload : Fields) (on_delta : DeltaCallback) (n : Node)
      → Moves (SameWorld S) (use_recording c kind payload on_delta n)
  unfolding use_recording
  use_recording-SameWorld kind payload on_delta n run =
      let R = SameWorld S in
      after-rel R _ run (run, avoided_charges c.meters (kind_text kind) payload n end) refl
        (λ charges r₁. after-rel R _ r₁ _ (avoid-SameWorld charges r₁) (λ u r₂.
          after-rel R _ r₂ _ (rw replays refl) (λ u' r₃.
            after-rel R _ r₃ (record r₃ { cursor_id = n.id }, returned tt) refl
              (λ u'' r₄. after-rel R _ r₄ _ (reemitted-SameWorld on_delta n r₄) (λ u₃ r₅. refl)))))

  recorded-SameWorld :
      (kind : NodeKind) (payload : Fields) (tries : ℕ) (on_delta : DeltaCallback)
      → Moves (SameWorld S) (recorded_node c kind payload tries on_delta)
  unfolding recorded_node
  recorded-SameWorld kind payload tries on_delta run =
      let R = SameWorld S in
      after-rel R _ run _ (Moves-or_raise R _ run)
        (λ done r₁. after-rel R _ r₁ _ (Moves-or_raise R _ r₁) (λ found r₂. answered found r₂))
    where
      answered :
          (found : Option Node) (r : Run S)
          → ((elim found as (λ x. Step S (Option Node)) [
            | none ↦ return none
            | some n ↦ use_recording c kind payload on_delta n
          ])
              r).0.world
            ≡ r.world
      answered none r = refl
      answered (some n) r = use_recording-SameWorld kind payload on_delta n r

  -- A recording that is used answers the call.
  use_recording-some :
      (kind : NodeKind) (payload : Fields) (on_delta : DeltaCallback) (n : Node) (r r' : Run S)
      (v : Option Node)
      → use_recording c kind payload on_delta n r ≡ (r', returned v)
      → is_some v ≡ true
  unfolding use_recording
  use_recording-some kind payload on_delta n r r' v e =
      let (r₁, charges, q₁, e₁) = after-returned _ _ r' v e in
      let (r₂, u₂, q₂, e₂) = after-returned _ _ r' v e₁ in
      let (r₃, u₃, q₃, e₃) = after-returned _ _ r' v e₂ in
      let (r₄, u₄, q₄, e₄) = after-returned _ _ r' v e₃ in
      let (r₅, u₅, q₅, e₅) = after-returned _ _ r' v e₄ in
      ap is_some (sym (same_return r₅ r' (some n) v e₅).1)

  -- A call that is replayed is answered by a recording, or raises.
  recorded-some :
      (kind : NodeKind) (payload : Fields) (tries : ℕ) (on_delta : DeltaCallback) (run run' : Run S)
      (v : Option Node)
      → recorded_node c kind payload tries on_delta run ≡ (run', returned v)
      → is_some v ≡ true
  unfolding recorded_node
  recorded-some kind payload tries on_delta run run' v e =
      let (done, q₁, e₁) = or_raise-returned _ _ run run' v e in
      let (found, q₂, e₂) = or_raise-returned _ _ run run' v e₁ in
      let (candidate, n, made, same, found', answers, good) =
        replay_verified run.world.store kind run.cursor_id payload tries
          c.refuse_duplicate_recordings found (rw replays at q₂) in
      use_recording-some kind payload on_delta n run run' v (rw same at e₂)

  call-SameWorld :
      (o : Moment) (kind : NodeKind) (payload : Fields) (meter_payload : Option Fields) (tries : ℕ)
      (fn : StepFn S) (on_delta : DeltaCallback)
      → Moves (SameWorld S) (call c o kind payload meter_payload tries fn on_delta)
  unfolding call
  call-SameWorld o kind payload meter_payload tries fn on_delta run =
      let R = SameWorld S in
      after-rel R _ run _ (Moves-or_raise R _ run) (λ identity r₁.
        after-rel R _ r₁ _ (Moves-or_raise R _ r₁) (λ metered r₂.
          answered-rel R _ r₂ (recorded_node c kind identity tries on_delta r₂)
            (recorded-SameWorld kind identity tries on_delta r₂)
            (λ r₃ v e. recorded-some kind identity tries on_delta r₂ r₃ v e) (λ n r₃. refl)))

  note-SameWorld :
      (o : Moment) (payload : Fields) (tries : ℕ) → Moves (SameWorld S) (note c o payload tries)
  unfolding note
  note-SameWorld o payload tries run =
      let R = SameWorld S in
      after-rel R _ run _ (Moves-or_raise R _ run) (λ n r₁.
        after-rel R _ r₁ _ (rw replays refl) (λ done r₂. rw replays (advance-SameWorld n r₂)))

  roll_back-SameWorld :
      (to : Option String) (steps : ℕ) → Moves (SameWorld S) (roll_back c to steps)
  unfolding roll_back
  roll_back-SameWorld to steps run =
      let R = SameWorld S in
      after-rel R _ run _
        (elim (Result-cases (rollback c.delegation run.world.store run.cursor_id to steps)) [
          | inr (x, e) ↦ rw e refl
          | inl (target, e) ↦ rw e refl
        ])
        (λ done r₁. Moves-or_raise R (get r₁.world.store r₁.cursor_id) r₁)

  -- A branch has the world of its parent.
  abbrev BothSame : Run S → Run S × Outcome (Run S) → Type 0
  BothSame r (r', returned child) = (r'.world ≡ r.world) × (child.world ≡ r.world)
  BothSame r (r', raised e causes) = r'.world ≡ r.world

  branched-BothSame :
      (budget : Option Budget) (r : Run S) (x : Result (MemoryStore × Node))
      → ((s' : MemoryStore) (n : Node) → x ≡ ok (s', n) → s' ≡ r.world.store)
      → BothSame r (branched budget r x)
  branched-BothSame budget r (err e) same = refl
  branched-BothSame budget r (ok (s', n)) same =
      let q = ap (λ (s : MemoryStore). record r.world { store = s }) (same s' n refl) in (q, q)

  after-BothSame :
      {A : Type 0} (f : A → Step S (Run S)) (r : Run S) (x : Run S × Outcome A)
      → x.0 ≡ r
      → ((v : A) (r' : Run S) → BothSame r' (f v r'))
      → BothSame r (after f x)
  unfolding after
  after-BothSame f r (r', returned v) same next = subst (λ z. BothSame z (f v r')) same (next v r')
  after-BothSame f r (r', raised e causes) same next = ap (λ (z : Run S). z.world) same

  or_raise-run : {A : Type 0} (x : Result A) (r : Run S) → (or_raise x r).0 ≡ r
  or_raise-run (ok v) r = refl
  or_raise-run (err e) r = refl

  branch-BothSame :
      (o : Moment) (tries : ℕ) (budget : Option Budget) (run : Run S)
      → BothSame run (branch c o tries budget run)
  unfolding branch
  branch-BothSame o tries budget run = after-BothSame _ run _ (or_raise-run _ run) (λ n r₁.
      after-BothSame _ r₁ _ (rw replays refl) (λ done r₂.
        branched-BothSame budget r₂ (put_stored c.mode n r₂.world.store)
          (λ s' m e. replayed_store n m r₂.world.store s' (rw replays at e))))

  entered-SameWorld :
      (enter : Bool) (r : Run S) (x : Run S × Outcome (Run S))
      → BothSame r x
      → (entered enter x).world ≡ r.world
  entered-SameWorld true r (r', returned child) b = b.1
  entered-SameWorld true r (r', raised e causes) b = b
  entered-SameWorld false r (r', returned child) b = b.0
  entered-SameWorld false r (r', raised e causes) b = b

  operate-SameWorld : (x : Operation S) (run : Run S) → (operate c x run).world ≡ run.world
  unfolding prune
  operate-SameWorld (calls o kind payload meter_payload tries fn on_delta) run =
      call-SameWorld o kind payload meter_payload tries fn on_delta run
  operate-SameWorld (notes o payload tries) run = note-SameWorld o payload tries run
  operate-SameWorld (branches enter o tries budget) run =
      entered-SameWorld enter run (branch c o tries budget run) (branch-BothSame o tries budget run)
  operate-SameWorld (rolls_back to steps) run = roll_back-SameWorld to steps run
  operate-SameWorld prunes run = rw replays refl

  -- Replaying is read-only and runs no step: through every sequence of calls, notes, branches,
  -- rollbacks and prunings, whatever of it raises, the store, the arbiter and what the step functions
  -- work on stay as they are.
  pub operate_all-replay :
      (xs : List (Operation S)) (run : Run S) → (operate_all c xs run).world ≡ run.world
  unfolding operate_all
  operate_all-replay [] run = refl
  operate_all-replay (x ∷ xs) run =
      operate_all-replay xs (operate c x run) ∙ operate-SameWorld x run
