-- ===== src/Runtime/Cursor/Target.antt =====
-- Where a rollback of src/pollard/runtime.py ends is a stored node.
use mathlib.Core.Path.{subst}
use pollard.Common.{
  ℕ, String, ◌≡◌, refl, sym, ◌∙◌, true, List, [], ◌∷◌, Option, string_eq, arith, ◌==◌, Bool-cases,
  inl, inr,
}
use pollard.Errors.{ok, >>=-eq-ok, ok_injective}
use pollard.Hashing.{Sha256}
use pollard.Tree.{Node}
use pollard.Store.{MemoryStore, get, member}
use pollard.Store.Walk.{row-of_get}
use pollard.Runtime.Cursor.{
  Delegation, rollback, rollback_target, ensure_ancestor, validate_agent_cursor,
}
use pollard.Runtime.Cursor.Lineage.{Lineage, top, above}
use pollard.Runtime.Cursor.Rollback.{rollback_exact, within_anchor, goal_of}
use pollard.Runtime.Well.{IsSound, There}

own_There :
    ⦃h : Sha256⦄ (s : MemoryStore) (i target : String) (n : Node)
    → get s i ≡ ok n
    → (i == target) ≡ true
    → There target s
own_There s i target n found here =
    subst (λ x. There x s) ((string_eq.beq_iff i target).0 here) (rw (row-of_get s i n found) refl)

Lineage-There :
    ⦃h : Sha256⦄ {s : MemoryStore} {from : String} {ids : List String} (target : String)
    → Lineage s from ids
    → member target ids ≡ true
    → There target s
Lineage-There {s} target (top i n found q) m = elim (Bool-cases (i == target)) [
  | inl here ↦ own_There s i target n found here
  | inr other ↦ absurd (cc (rw other at m))
]
Lineage-There {s} target (above i n found q l) m = elim (Bool-cases (i == target)) [
  | inl here ↦ own_There s i target n found here
  | inr other ↦ Lineage-There target l (rw other at m)
]

member-within_anchor :
    (anchor : Option String) (target : String) (ids : List String)
    → member target (within_anchor anchor ids) ≡ true
    → member target ids ≡ true
member-within_anchor anchor target [] m = m
member-within_anchor anchor target (i ∷ ids) m =
    ground (arith, member-within_anchor anchor target ids)

rollback-allowed :
    (d : Delegation) (s : MemoryStore) (cursor : String) (to : Option String) (steps : ℕ)
    (target : String)
    → rollback d s cursor to steps ≡ ok target
    → validate_agent_cursor d s cursor ≡ ok tt
unfolding rollback ensure_ancestor
rollback-allowed d s cursor to steps target e =
    let (t, aimed, e₁) = >>=-eq-ok (rollback_target s cursor to steps) _ e in
    let (u, ensured, e₂) = >>=-eq-ok (ensure_ancestor d s cursor t) _ e₁ in
    let (v, allowed, e₃) = >>=-eq-ok (validate_agent_cursor d s cursor) _ ensured in allowed

pub rolled-There :
    ⦃h : Sha256⦄ (d : Delegation) (s : MemoryStore) (cursor : String) (to : Option String)
    (steps : ℕ) (target : String)
    → IsSound s
    → There cursor s
    → rollback d s cursor to steps ≡ ok target
    → There target s
rolled-There d s cursor to steps target g there e =
    let (ids, l, exact) =
      rollback_exact s d cursor to steps g.valid g.ordered there
        (rollback-allowed d s cursor to steps target e) in
    let goal = goal_of to steps ids cursor in
    elim (Bool-cases (member goal (within_anchor d.anchor_id ids))) [
      | inl inside ↦
          subst (λ x. There x s) (ok_injective goal target (sym (rw inside at exact) ∙ e))
            (Lineage-There goal l (member-within_anchor d.anchor_id goal ids inside))
      | inr outside ↦ absurd (cc (sym (rw outside at exact) ∙ e))
    ]
