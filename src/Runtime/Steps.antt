-- ===== src/Runtime/Steps.antt =====
-- Operations of a run of src/pollard/runtime.py in a row: what a caller does, going on after each that
-- raises.
use pollard.Common.{
  ℕ, String, Bool, true, false, List, [], ◌∷◌, Option, string_eq, All, Bool-cases, inl, inr,
}
use pollard.Errors.{Result-cases}
use pollard.Json.{Fields, bool, field, end}
use pollard.Hashing.{Sha256}
use pollard.Tree.{Node, NodeKind}
use pollard.Store.{get}
use pollard.Governor.{Budget}
use pollard.Governor.Charges.{Amounts}
use pollard.Replay.{is_replay}
use pollard.Runtime.{Outcome, returned, raised, Run, Step, after, put_stored}
use pollard.Runtime.Moves.{Moves, after-rel, Moves-or_raise}
use pollard.Runtime.Stream.{DeltaCallback}
use pollard.Runtime.Config.{Config, Moment}
use pollard.Runtime.Cursor.{rollback}
use pollard.Runtime.Cursor.Target.{rolled-There}
use pollard.Runtime.Operations.{
  note, note_check, branch, branched, branch_payload, roll_back, cursor_moved, prune,
}
use pollard.Runtime.Call.{StepFn}
use pollard.Runtime.Call.Finish.{call}
use pollard.Runtime.Well.{
  IsWell, StaysWell, advance-IsWell, update-IsWell, put_stored-Change, stored-IsWell,
}
use pollard.Runtime.Well.Checks.{precheck-IsWell}
use pollard.Runtime.Well.Ends.{StepKeeps, call-IsWell}

pub data Operation (S : Type 0) : Type 0 where
  calls : Moment → NodeKind → Fields → Option Fields → ℕ → StepFn S → DeltaCallback → Operation S
  notes : Moment → Fields → ℕ → Operation S
  branches : (enter : Bool) → Moment → ℕ → Option Budget → Operation S
  rolls_back : Option String → ℕ → Operation S
  prunes : Operation S

-- The parent goes on, or the child that the branch returned.
abbrev pub entered : {S : Type 0} → Bool → Run S × Outcome (Run S) → Run S
entered true (run, returned child) = child
entered _ (run, o) = run

module _ ⦃h : Sha256⦄ ⦃a : Amounts⦄ {S : Type 0} (c : Config) where
  abbrev pub operate : Operation S → Run S → Run S
  operate (calls o kind payload meter_payload tries fn on_delta) run =
      (call c o kind payload meter_payload tries fn on_delta run).0
  operate (notes o payload tries) run = (note c o payload tries run).0
  operate (branches enter o tries budget) run = entered enter (branch c o tries budget run)
  operate (rolls_back id steps) run = (roll_back c id steps run).0
  operate prunes run = (prune c run).0

  unfoldable pub operate_all : List (Operation S) → Run S → Run S
  operate_all [] run = run
  operate_all (x ∷ xs) run = operate_all xs (operate x run)

  abbrev pub OperationKeeps : Operation S → Type 0
  OperationKeeps (calls o kind payload meter_payload tries fn on_delta) = StepKeeps fn
  OperationKeeps _ = Unit

module _ ⦃h : Sha256⦄ ⦃a : Amounts⦄ {S : Type 0} (id : String) (c : Config) where
  check-IsWell : (o : Moment) (payload : Fields) → Moves (StaysWell S id) (note_check c o payload)
  check-IsWell o payload r w = elim (Bool-cases (is_replay c.mode)) [
    | inl replaying ↦ rw replaying w
    | inr recording ↦ rw recording (
        after-rel (StaysWell S id) _ r _ (precheck-IsWell id c o NodeKind.note payload r)
          (λ reservation r₁ v. v) w)
  ]

  note-IsWell :
      (o : Moment) (payload : Fields) (tries : ℕ) → Moves (StaysWell S id) (note c o payload tries)
  unfolding note
  note-IsWell o payload tries r =
      after-rel (StaysWell S id) _ r _ (Moves-or_raise (StaysWell S id) _ r) (λ n r₁.
        after-rel (StaysWell S id) _ r₁ _ (check-IsWell o payload r₁)
          (λ done r₂. advance-IsWell id c.mode n r₂))

  -- A branch is as well formed as its run.
  abbrev BothWell : Run S × Outcome (Run S) → Type 0
  BothWell (run, returned child) = IsWell id run × IsWell id child
  BothWell (run, raised e causes) = IsWell id run

  branched-BothWell :
      (budget : Option Budget) (run : Run S) (n : Node)
      → IsWell id run
      → BothWell (branched budget run (put_stored c.mode n run.world.store))
  branched-BothWell budget run n w = elim (Result-cases (put_stored c.mode n run.world.store)) [
    | inr (x, e) ↦ rw e w
    | inl ((s', m), e) ↦
        let (change, there) = put_stored-Change c.mode n m run.world.store s' w.sound e in
        let w' = stored-IsWell id run s' w change in
        rw e (w', record { sound = w'.sound; cursor_there = there; id_there = w'.id_there })
  ]

  after-BothWell :
      {A : Type 0} (f : A → Step S (Run S)) (x : Run S × Outcome A)
      → IsWell id x.0
      → ((v : A) (r : Run S) → IsWell id r → BothWell (f v r))
      → BothWell (after f x)
  unfolding after
  after-BothWell f (r, returned v) w next = next v r w
  after-BothWell f (r, raised e causes) w next = w

  branch-BothWell :
      (o : Moment) (tries : ℕ) (budget : Option Budget) (run : Run S)
      → IsWell id run
      → BothWell (branch c o tries budget run)
  unfolding branch
  branch-BothWell o tries budget run w =
      after-BothWell _ _ (Moves-or_raise (StaysWell S id) _ run w) (λ n r₁ w₁.
        after-BothWell _ _ (check-IsWell o branch_payload r₁ w₁)
          (λ done r₂ w₂. branched-BothWell budget r₂ n w₂))

  entered-IsWell :
      (enter : Bool) (x : Run S × Outcome (Run S)) → BothWell x → IsWell id (entered enter x)
  entered-IsWell true (run, returned child) b = b.1
  entered-IsWell true (run, raised e causes) b = b
  entered-IsWell false (run, returned child) b = b.0
  entered-IsWell false (run, raised e causes) b = b

  roll_back-IsWell :
      (to : Option String) (steps : ℕ) → Moves (StaysWell S id) (roll_back c to steps)
  unfolding roll_back
  roll_back-IsWell to steps run =
      after-rel (StaysWell S id) _ run _ rolled
        (λ done r₁. Moves-or_raise (StaysWell S id) (get r₁.world.store r₁.cursor_id) r₁)
    where
      rolled :
          IsWell id run
          → IsWell id
              (cursor_moved c run (rollback c.delegation run.world.store run.cursor_id to steps)).0
      rolled w =
          let s = run.world.store in
          elim (Result-cases (rollback c.delegation s run.cursor_id to steps)) [
            | inr (x, e) ↦ rw e w
            | inl (target, e) ↦ rw e (record {
              sound = w.sound;
              cursor_there =
                  rolled-There c.delegation s run.cursor_id to steps target w.sound w.cursor_there
                    e;
              id_there = w.id_there;
            })
          ]

  prune-IsWell : Moves (StaysWell S id) (prune c)
  unfolding prune
  prune-IsWell run w = elim (Bool-cases (is_replay c.mode)) [
    | inl replaying ↦ rw replaying w
    | inr recording ↦
        rw recording (update-IsWell id run.cursor_id (field "pruned" (bool true) end) run w)
  ]

  operate-IsWell :
      (x : Operation S) (run : Run S)
      → OperationKeeps c x
      → IsWell id run
      → IsWell id (operate c x run)
  operate-IsWell (calls o kind payload meter_payload tries fn on_delta) run keeps w =
      call-IsWell id c o fn keeps payload on_delta kind meter_payload tries run w
  operate-IsWell (notes o payload tries) run keeps w = note-IsWell o payload tries run w
  operate-IsWell (branches enter o tries budget) run keeps w =
      entered-IsWell enter (branch c o tries budget run) (branch-BothWell o tries budget run w)
  operate-IsWell (rolls_back to steps) run keeps w = roll_back-IsWell to steps run w
  operate-IsWell prunes run keeps w = prune-IsWell run w

  -- A run stays well formed through every sequence of calls, notes, branches, rollbacks and prunings,
  -- whatever of it raises, as long as its step functions keep the store sound and lose no node: the
  -- store is sound, the cursor is a stored node, and no node that was stored is lost.
  pub operate_all-IsWell :
      (xs : List (Operation S)) (run : Run S)
      → All (OperationKeeps c) xs
      → IsWell id run
      → IsWell id (operate_all c xs run)
  unfolding operate_all
  operate_all-IsWell [] run keeps w = w
  operate_all-IsWell (x ∷ xs) run keeps w =
      operate_all-IsWell xs (operate c x run) keeps.1 (operate-IsWell x run keeps.0 w)
