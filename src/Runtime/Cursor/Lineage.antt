-- ===== src/Runtime/Cursor/Lineage.antt =====
-- Depths in src/pollard/runtime.py against chains of ancestors.
use pollard.Common.{
  ℕ, zero, suc, ◌+◌, ◌≤◌, ◌<◌, String, ◌≡◌, refl, ap, ◌∙◌, true, List, [], ◌∷◌, none, some, arith,
  string_eq, length, inl, inr, Option-cases,
}
use pollard.Common.Dict.{lookup, contains}
use pollard.Errors.{ok}
use pollard.Hashing.{Sha256}
use pollard.Tree.{Node}
use pollard.Store.{MemoryStore, get}
use pollard.Store.Valid.{IsValid}
use pollard.Store.Order.{IsOrdered, position, position-lt}
use pollard.Store.Walk.{stored_row, get-of_row}
use pollard.Runtime.Cursor.{depth, depth_loop}

-- The ids from one up to a root.
pub data Lineage (s : MemoryStore) : String → List String → Type 0 where
  top : (id : String) (n : Node) → get s id ≡ ok n → n.parent ≡ none → Lineage s id (id ∷ [])
  above :
      {p : String} {ids : List String} (id : String) (n : Node)
      → get s id ≡ ok n
      → n.parent ≡ some p
      → Lineage s p ids
      → Lineage s id (id ∷ ids)

-- The ids above the first.
abbrev pub ancestors : List String → List String
ancestors [] = []
ancestors (id ∷ ids) = ids

module _ ⦃h : Sha256⦄ (s : MemoryStore) (v : IsValid s) (o : IsOrdered s) where
  parent_row :
      (id p : String) (n : Node)
      → lookup id s.nodes ≡ some n
      → n.parent ≡ some p
      → contains p s.nodes ≡ true
  parent_row id p n e q = ground (arith, (v.rows id n e).parent_there)

  Lineage-below :
      (k : ℕ) (id : String)
      → contains id s.nodes ≡ true
      → position id s.nodes < k
      → (ids : List String) × Lineage s id ids × (length ids ≤ suc (position id s.nodes))
  Lineage-below zero id there lt = absurd (omega arith)
  Lineage-below (suc k) id there lt =
      let (n, e) = stored_row id s.nodes there in
      elim (Option-cases n.parent) [
        | inl last ↦ (id ∷ [], top id n (get-of_row s id n e) last, omega arith)
        | inr (p, q) ↦
            let near = o.before id p n e q in
            let (ids, l, le) = Lineage-below k p (parent_row id p n e q) (omega arith) in
            (id ∷ ids, above id n (get-of_row s id n e) q l, omega arith)
      ]

  -- Every stored id has a chain of ancestors, no longer than the store.
  pub Lineage-total :
      (id : String)
      → contains id s.nodes ≡ true
      → (ids : List String) × Lineage s id ids × (length ids ≤ length s.nodes)
  Lineage-total id there =
      let (ids, l, le) = Lineage-below (suc (position id s.nodes)) id there (omega arith) in
      (ids, l, omega (arith, position-lt id s.nodes there))

depth_loop-Lineage :
    {s : MemoryStore} {id : String} {ids : List String} (fuel d : ℕ)
    → Lineage s id ids
    → length ids ≤ fuel
    → depth_loop fuel s d (some id) ≡ ok (d + length ids)
unfolding depth_loop
depth_loop-Lineage zero d (top id n g q) le = absurd (omega arith)
depth_loop-Lineage zero d (above id n g q l) le = absurd (omega arith)
depth_loop-Lineage (suc fuel) d (top id n g q) le = rw (g) (rw (q) (ap ok (omega arith)))
depth_loop-Lineage (suc fuel) d (above {p} {ids} id n g q l) le =
    rw (g) (rw (q) (depth_loop-Lineage fuel (suc d) l (omega arith) ∙ ap ok (omega arith)))

pub depth-Lineage :
    {s : MemoryStore} {id : String} {ids : List String}
    → Lineage s id ids
    → length ids ≤ suc (length s.nodes)
    → depth s id ≡ ok (length (ancestors ids))
unfolding depth depth_loop
depth-Lineage (top id n g q) le = rw (g) (rw (q) refl)
depth-Lineage {s} (above {p} {ids} id n g q l) le =
    rw (g) (rw (q) (depth_loop-Lineage (length s.nodes) 0 l (omega arith) ∙ ap ok (omega arith)))

module _ ⦃h : Sha256⦄ (s : MemoryStore) (v : IsValid s) (o : IsOrdered s) where
  -- In a valid store whose rows are in order, `_depth` ends for every stored id, with the number of
  -- its ancestors, which is less than the number of rows.
  pub depth_exact :
      (id : String)
      → contains id s.nodes ≡ true
      → (ids : List String) × Lineage s id ids
        × (depth s id ≡ ok (length (ancestors ids)))
        × (length (ancestors ids) < length s.nodes)
  depth_exact id there =
      let (ids, l, le) = Lineage-total s v o id there in
      (ids, l, depth-Lineage l (omega arith), shorter l le)
    where
      shorter :
          {i : String} {ids : List String}
          → Lineage s i ids
          → length ids ≤ length s.nodes
          → length (ancestors ids) < length s.nodes
      shorter (top i n g q) le = omega arith
      shorter (above i n g q l) le = omega arith
