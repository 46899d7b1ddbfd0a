-- ===== src/Runtime/Settle.antt =====
-- What src/pollard/runtime.py does after a call: settlement, and recordings that answer a call.
use pollard.Common.{
  ℕ, String, Bool, true, false, List, [], ◌∷◌, Option, none, some, string_eq, if◌then◌else◌,
}
use pollard.Common.Int.{ℤ, ◌+ℤ◌, int_eq}
use pollard.Common.Dict.{Dict, insert}
use pollard.Errors.{Result, ok, err, reservation_uncertain, settlement_uncertain}
use pollard.Errors
use pollard.Json.{Fields, end, field}
use pollard.Hashing.{Sha256}
use pollard.Tree.{Node, NodeKind, kind_text}
use pollard.Store.{MemoryStore, add_once}
use pollard.Arbiter.{Kv}
use pollard.Arbiter.Delivery.{delivered, pollard_settle, pollard_release}
use pollard.Governor.{amount_of, exhausted_after_settle}
use pollard.Governor.Charges.{Amounts, charge_to_decimal, spent_decimal}
use pollard.Replay.{ReplayMode, recorded_node_or_missing, hybrid_mode}
use pollard.Runtime.{
  error, Outcome, returned, raised, BudgetScope, Run, Step, return, raise, or_raise, ◌>>=◌, ◌>>◌,
}
use pollard.Runtime.Charge.{avoided_charges, decimal_charges, record_avoided_charges}
use pollard.Runtime.Cursor.{validate_agent_cursor}
use pollard.Runtime.Stream.{DeltaCallback, reemit_chunks}
use pollard.Runtime.Config.{Config, Tries, Moment, Reservation}

-- `s.update(more)`
abbrev pub update_set : List String → List String → List String
update_set xs [] = xs
update_set xs (y ∷ ys) = update_set (add_once y xs) ys

-- `_reemit_chunks`, which may raise.
abbrev pub reemitted : {S : Type 0} → DeltaCallback → Node → Step S (Unit {0})
reemitted on_delta n = elim (reemit_chunks on_delta n.result) [
  | none ↦ return tt
  | some e ↦ raise e
]

abbrev pub settled_world :
    {S : Type 0} → Run S → Result (Unit {0}) × Kv → Run S × Outcome (Unit {0})
settled_world run (r, kv) =
    or_raise r (record run { world = record run.world { arbiter = some kv } })

module _ ⦃h : Sha256⦄ ⦃a : Amounts⦄ where
  -- `store._pollard_settle`, whose argument is converted first.
  abbrev pub settle_shared : Result (Dict String ℤ) → String → Tries → Kv → Result (Unit {0}) × Kv
  settle_shared (err e) id t kv = (err e, kv)
  settle_shared (ok charges) id t kv =
      delivered (settlement_uncertain id)
        (pollard_settle t.first t.second id charges t.now t.later kv)

  abbrev pub settle_under :
      {S : Type 0}
      → Moment
      → Fields
      → Run S
      → Option String
      → Option Kv
      → Run S × Outcome (Unit {0})
  settle_under o charges run none arbiter = (run, returned tt)
  settle_under o charges run (some id) none = (run, returned tt)
  settle_under o charges run (some id) (some kv) =
      settled_world run (settle_shared (decimal_charges charges) id o.close_tries kv)

  -- `_settle_reservation`: nothing to do without a reservation id or a transactional store.
  unfoldable pub settle_reservation :
      {S : Type 0} → Moment → Option Reservation → Fields → Step S (Unit {0})
  settle_reservation o none charges run = (run, returned tt)
  settle_reservation o (some r) charges run =
      settle_under o charges run r.reservation_id run.world.arbiter

abbrev pub release_under :
    {S : Type 0} → Moment → Run S → Option String → Option Kv → Run S × Outcome (Unit {0})
release_under o run none arbiter = (run, returned tt)
release_under o run (some id) none = (run, returned tt)
release_under o run (some id) (some kv) =
    let t = o.close_tries in
    settled_world run
      (delivered (reservation_uncertain id) (pollard_release t.first t.second id t.now t.later kv))

-- `_release_reservation`
unfoldable pub release_reservation : {S : Type 0} → Moment → Option Reservation → Step S (Unit {0})
release_reservation o none run = (run, returned tt)
release_reservation o (some r) run = release_under o run r.reservation_id run.world.arbiter

module _ ⦃a : Amounts⦄ where
  -- The loop of `_settle_scopes`; the scopes before one that raises keep what they got.
  unfoldable pub settled_scopes :
      MemoryStore → List BudgetScope → List BudgetScope × Result (Unit {0})
  settled_scopes s [] = ([], ok tt)
  settled_scopes s (scope ∷ scopes) =
      let (rest, r) = settled_scopes s scopes in
      elim (Errors.◌>>=◌ (spent_decimal s scope.anchor_id)
        (exhausted_after_settle (some scope.budget))) [
          | err e ↦ (scope ∷ scopes, err e)
          | ok over ↦ (record scope { exhausted = update_set scope.exhausted over } ∷ rest, r)
        ]

  -- `_settle_scopes`
  unfoldable pub settle_scopes : {S : Type 0} → Step S (Unit {0})
  unfolding settled_scopes
  settle_scopes run =
      let (scopes, r) = settled_scopes run.world.store run.budget_scopes in
      or_raise r (record run { budget_scopes = scopes })

abbrev pub is_hybrid : ReplayMode → Bool
is_hybrid hybrid_mode = true
is_hybrid _ = false

abbrev pub stored_after : {S : Type 0} → Run S → Result MemoryStore → Run S × Outcome (Unit {0})
stored_after run (err e) = (run, raised (error e) [])
stored_after run (ok s) = (record run { world = record run.world { store = s } }, returned tt)

module _ ⦃h : Sha256⦄ ⦃a : Amounts⦄ {S : Type 0} (c : Config) where
  -- `_add_avoided`, which keeps the totals before one that raises.
  abbrev pub avoid : Fields → Step S (Unit {0})
  avoid end run = (run, returned tt)
  avoid (field name value charges) run = elim (charge_to_decimal value) [
    | err e ↦ (run, raised (error e) [])
    | ok amount ↦ avoid charges (record run {
      avoided = insert name (a.as_float (amount_of name run.avoided +ℤ amount)) run.avoided;
    })
  ]

  -- The part of `_recorded_node` for a recording that answers the call.
  unfoldable pub use_recording : NodeKind → Fields → DeltaCallback → Node → Step S (Option Node)
  unfolding record_avoided_charges
  use_recording kind payload on_delta n = do
    charges ← (λ run. (run, avoided_charges c.meters (kind_text kind) payload n end))
    avoid charges
    (λ run.
        if is_hybrid c.mode
        then stored_after run (record_avoided_charges run.world.store n.id charges)
        else (run, returned tt))
    (λ run. (record run { cursor_id = n.id }, returned tt))
    reemitted on_delta n
    return (some n)

  -- `_recorded_node`
  unfoldable pub recorded_node : NodeKind → Fields → ℕ → DeltaCallback → Step S (Option Node)
  unfolding use_recording
  recorded_node kind payload attempt on_delta run =
      (do
        or_raise (validate_agent_cursor c.delegation run.world.store run.cursor_id)
        found ← or_raise (
            recorded_node_or_missing c.mode run.world.store kind run.cursor_id payload attempt
              c.refuse_duplicate_recordings)
        elim found [ none ↦ return none | some n ↦ use_recording kind payload on_delta n ])
        run
