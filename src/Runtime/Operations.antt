-- ===== src/Runtime/Operations.antt =====
-- The other operations of a run in src/pollard/runtime.py: notes, branches, rolling back and pruning; and
-- how a run is started or resumed. The digest of the registry is all that is read of it here.
use pollard.Common.{
  ℕ, String, Bool, true, not, ◌&&◌, List, [], ◌∷◌, ◌++◌, Option, none, some, ◌==◌, string_eq,
  if◌then◌else◌,
}
use pollard.Errors.{
  Result, ok, err, runtime_error, integrity_error, other_registry, unbound_registry,
}
use pollard.Errors
use pollard.Json.{Json, null, bool, str, Fields, end, field, get_field}
use pollard.Hashing.{Sha256}
use pollard.Tree.{Node, NodeKind, make}
use pollard.Store.{MemoryStore, exists, get, update_meta}
use pollard.Governor.{Budget}
use pollard.Governor.Charges.{Amounts}
use pollard.Replay.{ReplayMode, is_replay}
use pollard.Runtime.{
  error, Outcome, returned, raised, World, BudgetScope, Run, Step, return, or_raise, ◌>>=◌, ◌>>◌,
  advance, put_stored,
}
use pollard.Runtime.Config.{Config, Moment}
use pollard.Runtime.Cursor.{rollback, deepest_non_pruned_leaf}
use pollard.Runtime.Precheck.{precheck, validate_shared_configuration}
use pollard.Runtime.Refuse.{created}
use pollard.Runtime.Settle.{stored_after}

-- `if budget is not None: scopes.append(...)`
abbrev pub branch_scopes : Option Budget → String → List BudgetScope → List BudgetScope
branch_scopes none anchor scopes = scopes
branch_scopes (some budget) anchor scopes =
    scopes ++ record { budget = budget; anchor_id = anchor; exhausted = [] } ∷ []

abbrev pub branch_payload : Fields
branch_payload = field "branch" (bool true) end

module _ {S : Type 0} where
  abbrev pub child_run : Option Budget → Run S → Node → Run S
  child_run budget run anchor = record {
    world = run.world;
    cursor_id = anchor.id;
    budget_scopes = branch_scopes budget anchor.id run.budget_scopes;
    avoided = [];
  }

  abbrev pub branched :
      Option Budget → Run S → Result (MemoryStore × Node) → Run S × Outcome (Run S)
  branched budget run (err e) = (run, raised (error e) [])
  branched budget run (ok (s, anchor)) =
      let run' = record run { world = record run.world { store = s } } in
      (run', returned (child_run budget run' anchor))

module _ ⦃h : Sha256⦄ ⦃a : Amounts⦄ {S : Type 0} (c : Config) (o : Moment) where
  -- A note is checked against the budgets, unless the run is replayed.
  abbrev pub note_check : Fields → Step S (Unit {0})
  note_check payload =
      if is_replay c.mode
      then return tt
      else precheck c o NodeKind.note payload >>= (λ reservation. return tt)

  -- `note`: the node is built under the cursor before the check.
  unfoldable pub note : Fields → ℕ → Step S Node
  unfolding precheck
  note payload tries run =
      (do
        node ← or_raise (make NodeKind.note (some run.cursor_id) payload tries null (created o end))
        note_check payload
        advance c.mode node)
        run

  -- `branch`: the child run, whose cursor is a new anchor. The parent's cursor stays.
  unfoldable pub branch : ℕ → Option Budget → Step S (Run S)
  unfolding precheck
  branch tries budget run =
      (do
        anchor ←
            or_raise
              (make NodeKind.note (some run.cursor_id) branch_payload tries null (created o end))
        note_check branch_payload
        (λ run'. branched budget run' (put_stored c.mode anchor run'.world.store)))
        run

module _ ⦃h : Sha256⦄ {S : Type 0} (c : Config) where
  abbrev pub cursor_moved : Run S → Result String → Run S × Outcome (Unit {0})
  cursor_moved run (err e) = (run, raised (error e) [])
  cursor_moved run (ok target) = (record run { cursor_id = target }, returned tt)

  -- `rollback`, which returns the node under the new cursor.
  unfoldable pub roll_back : Option String → ℕ → Step S Node
  roll_back id steps run =
      (do
        (λ run'. cursor_moved run' (rollback c.delegation run'.world.store run'.cursor_id id steps))
        (λ run'. or_raise (get run'.world.store run'.cursor_id) run'))
        run

  -- `prune`
  unfoldable pub prune : Step S (Unit {0})
  prune run =
      if is_replay c.mode
      then (run, raised (error runtime_error) [])
      else stored_after run
          (update_meta run.cursor_id (field "pruned" (bool true) end) run.world.store)

-- `existing != self.registry.registry_digest`, for a value of the metadata.
abbrev pub other_digest : Json → String → Bool
other_digest (str t) digest = not (t == digest)
other_digest _ digest = true

abbrev pub bind_unbound : ReplayMode → String → String → MemoryStore → Result MemoryStore
bind_unbound mode digest root_id s =
    if is_replay mode
    then err (integrity_error unbound_registry)
    else update_meta root_id (field "registry_digest" (str digest) end) s

abbrev pub bind_found :
    ReplayMode → String → String → MemoryStore → Option Json → Result MemoryStore
bind_found mode digest root_id s none = bind_unbound mode digest root_id s
bind_found mode digest root_id s (some null) = bind_unbound mode digest root_id s
bind_found mode digest root_id s (some existing) =
    if other_digest existing digest then err (integrity_error other_registry) else ok s

-- `_bind_registry`
unfoldable pub bind_registry :
    ReplayMode → Option String → String → MemoryStore → Result MemoryStore
bind_registry mode none root_id s = ok s
bind_registry mode (some digest) root_id s =
    Errors.◌>>=◌ (get s root_id)
      (λ root. bind_found mode digest root_id s (get_field "registry_digest" root.meta))

module _ ⦃h : Sha256⦄ where
  -- The root of a run: a stored one is used as it is.
  abbrev pub run_root : ReplayMode → Node → MemoryStore → Result (MemoryStore × Node)
  run_root mode root s =
      if not (is_replay mode) && exists s root.id
      then Errors.◌>>=◌ (get s root.id) (λ n. ok (s, n))
      else put_stored mode root s

  -- The root of a run that is resumed, which must be there.
  abbrev pub resumed_root : ReplayMode → Node → MemoryStore → Result (MemoryStore × Node)
  resumed_root mode root s =
      if is_replay mode
      then put_stored mode root s
      else Errors.◌>>=◌ (get s root.id) (λ n. ok (s, n))

module _ ⦃h : Sha256⦄ ⦃a : Amounts⦄ {S : Type 0} (c : Config) (registry_digest : Option String)
    (shared : List BudgetScope) (budget : Option Budget) where
  abbrev pub at_root : World S → Node → Run S
  at_root w root = record {
    world = w;
    cursor_id = root.id;
    budget_scopes = branch_scopes budget root.id shared;
    avoided = [];
  }

  -- What follows the root: the registry, and the scopes; nothing is returned when one of them raises.
  abbrev pub bound_root : World S → Result (MemoryStore × Node) → World S × Outcome (Run S)
  bound_root w (err e) = (w, raised (error e) [])
  bound_root w (ok (s, root)) = elim (bind_registry c.mode registry_digest root.id s) [
    | err e ↦ (record w { store = s }, raised (error e) [])
    | ok s' ↦ scoped (validate_shared_configuration c (at_root (record w { store = s' }) root))
  ]
    where
      scoped : Run S × Outcome (Unit {0}) → World S × Outcome (Run S)
      scoped (run, raised e causes) = (run.world, raised e causes)
      scoped (run, returned done) = (run.world, returned run)

  abbrev pub at_leaf : World S × Outcome (Run S) → World S × Outcome (Run S)
  at_leaf (w, raised e causes) = (w, raised e causes)
  at_leaf (w, returned run) = elim (deepest_non_pruned_leaf run.world.store run.cursor_id) [
    | err e ↦ (w, raised (error e) [])
    | ok leaf ↦ (w, returned (record run { cursor_id = leaf }))
  ]

  -- `Runtime.run`
  unfoldable pub start_run : String → ℕ → World S → World S × Outcome (Run S)
  unfolding bind_registry validate_shared_configuration
  start_run label tries w =
      elim (make NodeKind.root none (field "run" (str label) end) tries null end) [
        | err e ↦ (w, raised (error e) [])
        | ok root ↦ bound_root w (run_root c.mode root w.store)
      ]

  -- `Runtime.resume`
  unfoldable pub resume_run : String → ℕ → World S → World S × Outcome (Run S)
  unfolding bind_registry validate_shared_configuration deepest_non_pruned_leaf
  resume_run label tries w =
      elim (make NodeKind.root none (field "run" (str label) end) tries null end) [
        | err e ↦ (w, raised (error e) [])
        | ok root ↦ at_leaf (bound_root w (resumed_root c.mode root w.store))
      ]
