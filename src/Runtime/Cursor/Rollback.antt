-- ===== src/Runtime/Cursor/Rollback.antt =====
-- `Run.rollback` of src/pollard/runtime.py against the chain of the cursor's ancestors.
use pollard.Common.{
  ℕ, zero, suc, ◌≤◌, String, ◌≡◌, refl, true, List, [], ◌∷◌, Option, none, some, arith, string_eq,
  length, if◌then◌else◌, Bool-cases, inl, inr,
}
use pollard.Common.Dict.{contains}
use pollard.Errors.{Result, ok, err, value_error}
use pollard.Hashing.{Sha256}
use pollard.Store.{MemoryStore, member}
use pollard.Store.Valid.{IsValid}
use pollard.Store.Order.{IsOrdered}
use pollard.Runtime.Cursor.{
  Delegation, is_anchor, ancestor_loop, step_back, rollback, rollback_target, validate_agent_cursor,
  ensure_ancestor,
}
use pollard.Runtime.Cursor.Lineage.{Lineage, top, above, Lineage-total}

-- The part of a chain that a run may go back to: up to its anchor, if it has one there.
abbrev pub within_anchor : Option String → List String → List String
within_anchor anchor [] = []
within_anchor anchor (id ∷ ids) =
    let rest = within_anchor anchor ids in if is_anchor anchor id then id ∷ [] else id ∷ rest

-- So many steps up the chain, and no further than its last id.
abbrev pub up_by : ℕ → String → List String → String
up_by zero id ids = id
up_by (suc steps) id [] = id
up_by (suc steps) id (p ∷ ids) = up_by steps p ids

abbrev pub goal_of : Option String → ℕ → List String → String → String
goal_of (some target) steps ids cursor = target
goal_of none steps [] cursor = cursor
goal_of none steps (id ∷ ids) cursor = up_by steps id ids

module _ (s : MemoryStore) (anchor : Option String) (target : String) where
  ancestor_loop-Lineage :
      (fuel : ℕ) {id : String} {ids : List String}
      → Lineage s id ids
      → length ids ≤ fuel
      → ancestor_loop fuel s anchor target (some id)
        ≡ (if member target (within_anchor anchor ids) then ok tt else err value_error)
  unfolding ancestor_loop
  ancestor_loop-Lineage zero (top id n g q) le = absurd (omega arith)
  ancestor_loop-Lineage zero (above id n g q l) le = absurd (omega arith)
  ancestor_loop-Lineage (suc fuel) (top id n g q) le = ground arith
  ancestor_loop-Lineage (suc fuel) (above {p} {ids} id n g q l) le =
      ground (arith, ancestor_loop-Lineage fuel l)

step_back-Lineage :
    {s : MemoryStore} {id : String} {ids : List String} (steps : ℕ)
    → Lineage s id ids
    → step_back steps s id ≡ ok (goal_of none steps ids id)
unfolding step_back
step_back-Lineage zero (top id n g q) = refl
step_back-Lineage zero (above id n g q l) = refl
step_back-Lineage (suc steps) (top id n g q) = rw g (rw q refl)
step_back-Lineage (suc steps) (above {p} {ids} id n g q l) =
    rw g (rw q (onward steps l (step_back-Lineage steps l)))
  where
    onward :
        {s : MemoryStore} {i : String} {ids : List String} {r : Result String} (k : ℕ)
        → Lineage s i ids
        → r ≡ ok (goal_of none k ids i)
        → r ≡ ok (up_by (suc k) id ids)
    onward k (top i n g q) e = e
    onward k (above i n g q l) e = e

target-Lineage :
    {s : MemoryStore} {cursor : String} {ids : List String} (id : Option String) (steps : ℕ)
    → Lineage s cursor ids
    → rollback_target s cursor id steps ≡ ok (goal_of id steps ids cursor)
target-Lineage none steps l = step_back-Lineage steps l
target-Lineage (some id) steps l = refl

-- In a valid store whose rows are in order, for a stored cursor that its delegation allows, a rollback
-- goes to the given node, or so many steps up and no further than the root, if that is an ancestor of
-- the cursor (or the cursor) no higher than the delegation's anchor; any other target is refused.
pub rollback_exact :
    ⦃h : Sha256⦄ (s : MemoryStore) (d : Delegation) (cursor : String) (id : Option String)
    (steps : ℕ)
    → IsValid s
    → IsOrdered s
    → contains cursor s.nodes ≡ true
    → validate_agent_cursor d s cursor ≡ ok tt
    → (ids : List String) × Lineage s cursor ids
      × (rollback d s cursor id steps ≡ (
          let target = goal_of id steps ids cursor in
          if member target (within_anchor d.anchor_id ids) then ok target else err value_error))
unfolding rollback ensure_ancestor
rollback_exact s d cursor id steps v o there allowed =
    let (ids, l, le) = Lineage-total s v o cursor there in
    let target = goal_of id steps ids cursor in
    (
      ids,
      l,
      rw (target-Lineage id steps l) (
          rw allowed (
            rw (ancestor_loop-Lineage s d.anchor_id target (suc (length s.nodes)) l (omega arith))
              (elim (Bool-cases (member target (within_anchor d.anchor_id ids))) [
                | inl inside ↦ rw inside refl
                | inr outside ↦ rw outside refl
              ]))),
    )
