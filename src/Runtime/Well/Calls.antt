-- ===== src/Runtime/Well/Calls.antt =====
-- Calls in src/pollard/runtime.py keep the run well formed, however they end.
use mathlib.Core.Path.{subst}
use pollard.Common.{
  ℕ, String, ◌≡◌, ap, ◌∙◌, Bool, not, ◌&&◌, Option, none, some, string_eq, arith, if◌then◌else◌,
  Bool-cases, Option-cases, inl, inr,
}
use pollard.Errors.{Result, ok, >>=-eq-ok, ok_injective, Result-cases}
use pollard.Json.{null, obj, Fields, end, field, get_field}
use pollard.Hashing.{Sha256}
use pollard.Tree.{Node, NodeKind, kind_text, make}
use pollard.Store.{MemoryStore, exists, get}
use pollard.Store.Valid.{Change, unchanged, update_meta-Change}
use pollard.Arbiter.{Kv}
use pollard.Governor.Charges.{Amounts, charge_to_decimal}
use pollard.Replay.{
  ReplayMode, record_mode, hybrid_mode, replay_mode, recorded_node_or_missing, recorded_at, missing,
  stored_recording, verify_recording, is_record,
}
use pollard.Runtime.{returned, Run, after}
use pollard.Runtime.Moves.{Relation, Moves, after-rel, Moves-or_raise}
use pollard.Runtime.Cursor.{validate_agent_cursor}
use pollard.Runtime.Stream.{DeltaCallback, reemit_chunks}
use pollard.Runtime.Config.{Config, Moment, Reservation}
use pollard.Runtime.Charge.{
  record_avoided_charges, add_totals, avoided_before, avoided_charges, decimal_charges,
}
use pollard.Runtime.Settle.{
  settled_world, settle_reservation, settle_shared, settle_under, release_under,
  release_reservation, settle_scopes, settled_scopes, avoid, is_hybrid, stored_after, reemitted,
  use_recording, recorded_node,
}
use pollard.Runtime.Well.{IsWell, StaysWell, IsSound, There, stored-IsWell, got-There}

module _ ⦃h : Sha256⦄ where
  answered-get :
      (mode : ReplayMode) (s : MemoryStore) (candidate node n : Node)
      → stored_recording mode s candidate node ≡ ok (some n)
      → node ≡ n
  unfolding verify_recording
  answered-get mode s candidate node n e = ground arith

  missing-none : (mode : ReplayMode) (candidate n : Node) → missing mode candidate ≡ ok (some n) → ⊥
  missing-none mode candidate n e = ground arith

  recorded_at-get :
      (mode : ReplayMode) (s : MemoryStore) (candidate n : Node)
      → recorded_at mode s candidate ≡ ok (some n)
      → get s candidate.id ≡ ok n
  recorded_at-get record_mode s candidate n e = absurd (ground arith)
  recorded_at-get hybrid_mode s candidate n e = elim (Bool-cases (exists s candidate.id)) [
    | inr gone ↦ absurd (missing-none hybrid_mode candidate n (rw gone at e))
    | inl here ↦
        let (node, found, e₁) = >>=-eq-ok (get s candidate.id) _ (rw here at e) in
        found ∙ ap ok (answered-get hybrid_mode s candidate node n e₁)
  ]
  recorded_at-get replay_mode s candidate n e = elim (Bool-cases (exists s candidate.id)) [
    | inr gone ↦ absurd (missing-none replay_mode candidate n (rw gone at e))
    | inl here ↦
        let (node, found, e₁) = >>=-eq-ok (get s candidate.id) _ (rw here at e) in
        found ∙ ap ok (answered-get replay_mode s candidate node n e₁)
  ]

  -- A recording that answers a call is a stored node.
  recorded-There :
      (mode : ReplayMode) (s : MemoryStore) (kind : NodeKind) (parent : String) (payload : Fields)
      (tries : ℕ) (refuse : Bool) (n : Node)
      → IsSound s
      → recorded_node_or_missing mode s kind parent payload tries refuse ≡ ok (some n)
      → There n.id s
  unfolding recorded_node_or_missing
  recorded-There mode s kind parent payload tries refuse n g e =
      elim (Bool-cases (is_record mode && not refuse)) [
        | inl free ↦ absurd (cc (rw free at e))
        | inr looks ↦
            let (candidate, made, e₁) =
              >>=-eq-ok (make kind (some parent) payload tries null end) (recorded_at mode s)
                (rw looks at e) in
            got-There s candidate.id n g (recorded_at-get mode s candidate n e₁)
      ]

  module _ ⦃a : Amounts⦄ where
    avoided-Change :
        (s s' : MemoryStore) (id : String) (charges : Fields)
        → record_avoided_charges s id charges ≡ ok s'
        → Change s s'
    unfolding record_avoided_charges
    avoided-Change s s' id end e = subst (Change s) (ok_injective s s' e) unchanged
    avoided-Change s s' id (field name value charges) e =
        let (n, found, e₁) = >>=-eq-ok (get s id) _ e in
        let (totals, summed, e₂) =
          >>=-eq-ok
            (add_totals (field name value charges) (avoided_before (get_field "avoided" n.meta))) _
            e₁ in
        update_meta-Change id (field "avoided" (obj totals) end) s s' e₂

module _ ⦃h : Sha256⦄ ⦃a : Amounts⦄ {S : Type 0} (id : String) (c : Config) where
  avoid-IsWell : (charges : Fields) → Moves (StaysWell S id) (avoid c charges)
  avoid-IsWell end r w = w
  avoid-IsWell (field name value charges) r w = elim (Result-cases (charge_to_decimal value)) [
    | inr (x, e) ↦ rw (e, avoid) w
    | inl (amount, e) ↦
        rw (e, avoid)
          (avoid-IsWell charges _
            (record { sound = w.sound; cursor_there = w.cursor_there; id_there = w.id_there }))
  ]

  avoided-IsWell :
      (charges : Fields) (at : String) (r : Run S)
      → IsWell id r
      → IsWell id (stored_after r (record_avoided_charges r.world.store at charges)).0
  avoided-IsWell charges at r w =
      elim (Result-cases (record_avoided_charges r.world.store at charges)) [
        | inr (x, e) ↦ rw e w
        | inl (s', e) ↦
            rw e (stored-IsWell id r s' w (avoided-Change r.world.store s' at charges e))
      ]

-- The run stays well formed, and a node stays stored.
abbrev StaysWith : ⦃h : Sha256⦄ → (S : Type 0) → String → String → Relation S
StaysWith S id at = record {
  rel = λ r r'. IsWell id r → There at r.world.store → IsWell id r' × There at r'.world.store;
  same = λ r w t. (w, t);
  next = λ r₁ r₂ r₃ f g w t. let (w', t') = f w t in g w' t';
}

module _ ⦃h : Sha256⦄ ⦃a : Amounts⦄ {S : Type 0} (id at : String) (c : Config) where
  both :
      (r r' : Run S)
      → (IsWell id r → IsWell id r')
      → (IsWell at r → IsWell at r')
      → IsWell id r
      → There at r.world.store
      → IsWell id r' × There at r'.world.store
  both r r' f g w t =
      let v = g (record { sound = w.sound; cursor_there = w.cursor_there; id_there = t }) in
      (f w, v.id_there)

  hybrid-StaysWith :
      (charges : Fields)
      → Moves (StaysWith S id at) (λ run.
        if is_hybrid c.mode
        then stored_after run (record_avoided_charges run.world.store at charges)
        else (run, returned tt))
  hybrid-StaysWith charges r w t = elim (Bool-cases (is_hybrid c.mode)) [
    | inl hybrid ↦
        rw hybrid
          (both r _ (avoided-IsWell id c charges at r) (avoided-IsWell at c charges at r) w t)
    | inr other ↦ rw other (w, t)
  ]

  reemitted-StaysWith :
      (on_delta : DeltaCallback) (n : Node) → Moves (StaysWith S id at) (reemitted on_delta n)
  reemitted-StaysWith on_delta n r w t = elim (Option-cases (reemit_chunks on_delta n.result)) [
    | inl quiet ↦ rw (quiet, reemitted) (w, t)
    | inr (e, q) ↦ rw (q, reemitted) (w, t)
  ]

module _ ⦃h : Sha256⦄ ⦃a : Amounts⦄ {S : Type 0} (id : String) (c : Config) where
  use_recording-StaysWith :
      (kind : NodeKind) (payload : Fields) (on_delta : DeltaCallback) (n : Node)
      → Moves (StaysWith S id n.id) (use_recording c kind payload on_delta n)
  unfolding use_recording
  use_recording-StaysWith kind payload on_delta n run =
      let R = StaysWith S id n.id in
      after-rel R _ run (run, avoided_charges c.meters (kind_text kind) payload n end)
        (λ w t. (w, t))
        (λ charges r₁.
          after-rel R _ r₁ _
            (both id n.id c r₁ _ (avoid-IsWell id c charges r₁) (avoid-IsWell n.id c charges r₁))
            (λ u r₂. after-rel R _ r₂ _ (hybrid-StaysWith id n.id c charges r₂) (λ u' r₃.
              after-rel R _ r₃ (record r₃ { cursor_id = n.id }, returned tt)
                (λ w t. (record { sound = w.sound; cursor_there = t; id_there = w.id_there }, t))
                (λ u'' r₄.
                  after-rel R _ r₄ _ (reemitted-StaysWith id n.id c on_delta n r₄)
                    (λ u₃ r₅ w t. (w, t))))))

  pub recorded_node-IsWell :
      (kind : NodeKind) (payload : Fields) (tries : ℕ) (on_delta : DeltaCallback)
      → Moves (StaysWell S id) (recorded_node c kind payload tries on_delta)
  unfolding recorded_node after
  recorded_node-IsWell kind payload tries on_delta run w =
      let s = run.world.store in
      elim (Result-cases (validate_agent_cursor c.delegation s run.cursor_id)) [
        | inr (x, e) ↦ rw e w
        | inl (done, e) ↦
            rw e
              (elim (Result-cases (
                recorded_node_or_missing c.mode s kind run.cursor_id payload tries
                  c.refuse_duplicate_recordings)) [
                    | inr (x, q) ↦ rw q w
                    | inl (none, q) ↦ rw q w
                    | inl (some n, q) ↦ rw q (
                        (use_recording-StaysWith kind payload on_delta n run w (
                          recorded-There c.mode s kind run.cursor_id payload tries
                            c.refuse_duplicate_recordings n w.sound q)).0)
                  ])
      ]

  settled-IsWell :
      (r : Run S) (x : Result (Unit {0}) × Kv) → IsWell id r → IsWell id (settled_world r x).0
  settled-IsWell r (x, kv) w =
      Moves-or_raise (StaysWell S id) x (record r { world = record r.world { arbiter = some kv } })
        (record { sound = w.sound; cursor_there = w.cursor_there; id_there = w.id_there })

  settle_under-IsWell :
      (o : Moment) (charges : Fields) (run : Run S) (rid : Option String) (arbiter : Option Kv)
      → IsWell id run
      → IsWell id (settle_under o charges run rid arbiter).0
  settle_under-IsWell o charges run none arbiter w = w
  settle_under-IsWell o charges run (some rid) none w = w
  settle_under-IsWell o charges run (some rid) (some kv) w =
      settled-IsWell run (settle_shared (decimal_charges charges) rid o.close_tries kv) w

  pub settle-IsWell :
      (o : Moment) (reservation : Option Reservation) (charges : Fields)
      → Moves (StaysWell S id) (settle_reservation o reservation charges)
  unfolding settle_reservation
  settle-IsWell o none charges run w = w
  settle-IsWell o (some r) charges run w =
      settle_under-IsWell o charges run r.reservation_id run.world.arbiter w

  release_under-IsWell :
      (o : Moment) (run : Run S) (rid : Option String) (arbiter : Option Kv)
      → IsWell id run
      → IsWell id (release_under o run rid arbiter).0
  release_under-IsWell o run none arbiter w = w
  release_under-IsWell o run (some rid) none w = w
  release_under-IsWell o run (some rid) (some kv) w = settled-IsWell run _ w

  pub release-IsWell :
      (o : Moment) (reservation : Option Reservation)
      → Moves (StaysWell S id) (release_reservation o reservation)
  unfolding release_reservation
  release-IsWell o none run w = w
  release-IsWell o (some r) run w = release_under-IsWell o run r.reservation_id run.world.arbiter w

  pub settle_scopes-IsWell : Moves (StaysWell S id) settle_scopes
  unfolding settle_scopes
  settle_scopes-IsWell run w =
      Moves-or_raise (StaysWell S id) (settled_scopes run.world.store run.budget_scopes).1
        (record run { budget_scopes = (settled_scopes run.world.store run.budget_scopes).0 })
        (record { sound = w.sound; cursor_there = w.cursor_there; id_there = w.id_there })
