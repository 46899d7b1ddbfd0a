-- ===== src/Runtime/Well.antt =====
-- The invariant of a run in src/pollard/runtime.py: the store is well formed, and the cursor is a stored
-- node. First what keeps it: storing a node, and the checks before a call.
pub mod Checks
pub mod Calls
pub mod Ends
use mathlib.Core.Path.{subst}
use pollard.Common.{
  String, ◌≡◌, refl, ap, sym, ◌∙◌, Bool, true, List, [], ◌∷◌, Option, none, some, string_eq,
  is_some, arith, Bool-cases, inl, inr,
}
use pollard.Common.Dict.{lookup, contains}
use pollard.Errors.{Result, ok, err, >>=-eq-ok, ok_injective, Result-cases}
use pollard.Json.{Fields}
use pollard.Hashing.{Sha256}
use pollard.Tree.{Node}
use pollard.Store.{MemoryStore, get, put, exists, update_meta}
use pollard.Store.Valid.{IsValid, Change, unchanged, Change-IsValid, put-Change, update_meta-Change}
use pollard.Store.Order.{IsOrdered, Change-IsOrdered}
use pollard.Store.Append.{Change-Keeps}
use pollard.Store.Walk.{row-of_get, stored_row}
use pollard.Replay.{ReplayMode, is_replay, replay_node_or_missing, verify_recording}
use pollard.Runtime.{
  Raised, Outcome, returned, raised, World, Run, Step, advance, moved, put_stored,
}
use pollard.Runtime.Moves.{Relation, Moves}
use pollard.Runtime.Settle.{stored_after}

module _ ⦃h : Sha256⦄ where
  pub record IsSound (s : MemoryStore) : Type 0 where
    pub valid : IsValid s
    pub ordered : IsOrdered s

  abbrev pub There : String → MemoryStore → Type 0
  There id s = contains id s.nodes ≡ true

  Change-There : {s s' : MemoryStore} (id : String) → Change s s' → There id s → There id s'
  Change-There {s} {s'} id c there =
      let (n, e) = stored_row id s.nodes there in let (m, e') = Change-Keeps id n c e in rw e' refl

  Change-IsSound : {s s' : MemoryStore} → Change s s' → IsSound s → IsSound s'
  Change-IsSound c g = record {
    valid = Change-IsValid c g.valid;
    ordered = Change-IsOrdered c g.valid g.ordered;
  }

  -- The store is sound, and an id is stored.
  abbrev pub Keeps : String → MemoryStore → MemoryStore → Type 0
  Keeps id s s' = IsSound s → There id s → IsSound s' × There id s'

  pub Change-Keeps_id : {s s' : MemoryStore} (id : String) → Change s s' → Keeps id s s'
  Change-Keeps_id id c g there = (Change-IsSound c g, Change-There id c there)

  pub got-There :
      (s : MemoryStore) (id : String) (n : Node) → IsSound s → get s id ≡ ok n → There n.id s
  got-There s id n g e =
      let row = row-of_get s id n e in
      rw (ap (λ x. lookup x s.nodes) ((g.valid.rows id n row).own_id) ∙ row) refl

  replayed-There :
      (s : MemoryStore) (node n : Node)
      → IsSound s
      → replay_node_or_missing s node ≡ ok n
      → There n.id s
  unfolding replay_node_or_missing
  replayed-There s node n g e = elim (Bool-cases (exists s node.id)) [
    | inr gone ↦ absurd (cc (rw gone at e))
    | inl here ↦
        let (m, found, e₁) = >>=-eq-ok (get s node.id) _ (rw here at e) in
        let (_, _, e₂) = >>=-eq-ok (verify_recording s m.id) _ e₁ in
        got-There s node.id n g (found ∙ e₂)
  ]

  pair_first :
      (s s' : MemoryStore) (m n : Node)
      → ◌≡◌ {A = Result (MemoryStore × Node)} (ok (s, m)) (ok (s', n))
      → (s ≡ s') × (m ≡ n)
  pair_first s s' m n e =
      let q = ok_injective (s, m) (s', n) e in
      (ap (λ (p : MemoryStore × Node). p.0) q, ap (λ (p : MemoryStore × Node). p.1) q)

  -- Storing a node changes the store as its writes do, and the node is there afterwards.
  pub put_stored-Change :
      (mode : ReplayMode) (node n : Node) (s s' : MemoryStore)
      → IsSound s
      → put_stored mode node s ≡ ok (s', n)
      → Change s s' × There n.id s'
  unfolding put_stored
  put_stored-Change mode node n s s' g e = elim (Bool-cases (is_replay mode)) [
    | inl replaying ↦
        let (m, q, r) = >>=-eq-ok (replay_node_or_missing s node) _ (rw replaying at e) in
        let (same, got) = pair_first s s' m n r in
        (
          subst (Change s) same unchanged,
          subst (λ t. There n.id t) same (replayed-There s node n g (q ∙ ap ok got)),
        )
    | inr recording ↦
        let (t, q, e₁) = >>=-eq-ok (put node s) _ (rw recording at e) in
        let (m, found, r) = >>=-eq-ok (get t node.id) _ e₁ in
        let (same, got) = pair_first t s' m n r in
        let c = put-Change node s t g.valid q in
        (
          subst (Change s) same c,
          subst (λ u. There n.id u) same
              (got-There t node.id n (Change-IsSound c g) (found ∙ ap ok got)),
        )
  ]

  -- The run keeps a sound store with its cursor and an id in it.
  pub record IsWell {S : Type 0} (id : String) (r : Run S) : Type 0 where
    pub sound : IsSound r.world.store
    pub cursor_there : There r.cursor_id r.world.store
    pub id_there : There id r.world.store

  abbrev pub StaysWell : (S : Type 0) → String → Relation S
  StaysWell S id = record {
    rel = λ r r'. IsWell id r → IsWell id r';
    same = λ r w. w;
    next = λ r₁ r₂ r₃ f g w. g (f w);
  }

  module _ {S : Type 0} (id : String) where
    pub stored-IsWell :
        (r : Run S) (s' : MemoryStore)
        → IsWell id r
        → Change r.world.store s'
        → IsWell id (record r { world = record r.world { store = s' } })
    stored-IsWell r s' w c = record {
      sound = Change-IsSound c w.sound;
      cursor_there = Change-There r.cursor_id c w.cursor_there;
      id_there = Change-There id c w.id_there;
    }

    pub advance-IsWell : (mode : ReplayMode) (n : Node) → Moves (StaysWell S id) (advance mode n)
    advance-IsWell mode n r w = elim (Result-cases (put_stored mode n r.world.store)) [
      | inr (x, e) ↦ rw e w
      | inl ((s', m), e) ↦
          let (c, there) = put_stored-Change mode n m r.world.store s' w.sound e in
          rw e (record {
            sound = Change-IsSound c w.sound;
            cursor_there = there;
            id_there = Change-There id c w.id_there;
          })
    ]

    pub update-IsWell :
        (at : String) (patch : Fields) (r : Run S)
        → IsWell id r
        → IsWell id (stored_after r (update_meta at patch r.world.store)).0
    update-IsWell at patch r w = elim (Result-cases (update_meta at patch r.world.store)) [
      | inr (x, e) ↦ rw e w
      | inl (s', e) ↦ rw e (stored-IsWell r s' w (update_meta-Change at patch r.world.store s' e))
    ]
