-- ===== src/Store/Tour.antt =====
-- `walk` of src/pollard/store.py with fuel that is counted from the tree.
use pollard.Common.{
  ℕ, zero, suc, ◌+◌, ◌≤◌, String, ◌≡◌, refl, true, List, [], ◌∷◌, ◌++◌, some, none, arith,
  string_eq, length, eq_refl,
}
use pollard.Common.Dict.{contains}
use pollard.Errors.{Result, ok, err, does_not_end}
use pollard.Hashing.{Sha256}
use pollard.Tree.{Node}
use pollard.Store.{MemoryStore, children, walk_loop, member}
use pollard.Store.Valid.{IsValid}
use pollard.Store.Order.{IsOrdered, position, position-lt}
use pollard.Store.Children.{children_total, children_row}
use pollard.Store.Walk.{Walks, done, visit, walk_loop-Walks, stored_row, get-of_row}

abbrev pub sum_over : (String → ℕ) → List String → ℕ
sum_over f [] = 0
sum_over f (id ∷ ids) = f id + sum_over f ids

-- The nodes of a tree down to a depth.
unfoldable pub tree_size : ℕ → MemoryStore → String → ℕ
tree_size zero s id = 0
tree_size (suc depth) s id = elim (children s id) [
  | err e ↦ 1
  | ok ids ↦ suc (sum_over (tree_size depth s) ids)
]

-- `list(store.walk(id))`; the fuel is one round for each node, and one.
unfoldable pub walk : MemoryStore → String → Result (List Node)
unfolding walk_loop tree_size
walk s id = elim (walk_loop (suc (tree_size (length s.nodes) s id)) s (id ∷ [])) [
  | none ↦ err does_not_end
  | some r ↦ r
]

tree_size-children :
    (k : ℕ) (s : MemoryStore) (id : String) {ids : List String}
    → children s id ≡ ok ids
    → tree_size (suc k) s id ≡ suc (sum_over (tree_size k s) ids)
unfolding tree_size
tree_size-children k s id q = rw (q, tree_size) refl

-- What can be visited with any rest of the stack, in no more rounds than the tree has nodes.
abbrev VisitsWithin : ℕ → MemoryStore → String → Type 0
VisitsWithin n s id =
    (pending : List String) (out : List Node)
    → Walks s pending out
    → (out' : List Node) × Walks s (id ∷ pending) out' × (length out' ≤ n + length out)

visit_within :
    (f : String → ℕ) (s : MemoryStore) (ids : List String)
    → ((c : String) → member c ids ≡ true → VisitsWithin (f c) s c)
    → (pending : List String) (out : List Node) → Walks s pending out
    → (out' : List Node) × Walks s (ids ++ pending) out'
      × (length out' ≤ sum_over f ids + length out)
visit_within f s [] each pending out w = (out, w, omega arith)
visit_within f s (id ∷ ids) each pending out w =
    let (out₁, w₁, le₁) = visit_within f s ids (λ c m. each c (ground arith)) pending out w in
    let (out₂, w₂, le₂) = each id (ground (arith, eq_refl id)) (ids ++ pending) out₁ w₁ in
    (out₂, w₂, omega arith)

module _ ⦃h : Sha256⦄ (s : MemoryStore) (v : IsValid s) (o : IsOrdered s) where
  -- `k` bounds how many rows stand behind the id's own.
  tree_size-VisitsWithin :
      (k : ℕ) (id : String)
      → contains id s.nodes ≡ true
      → length s.nodes ≤ k + position id s.nodes
      → VisitsWithin (tree_size k s id) s id
  tree_size-VisitsWithin zero id there bound pending out w =
      absurd (omega (arith, position-lt id s.nodes there))
  tree_size-VisitsWithin (suc k) id there bound pending out w =
      let (n, e) = stored_row id s.nodes there in
      let (ids, q) = children_total s v id in
      let each : (c : String) → member c ids ≡ true → VisitsWithin (tree_size k s c) s c = λ c m.
        let (r, found, par) = children_row s v id c q m in
        tree_size-VisitsWithin k c (rw found) (omega (arith, o.before c id r found par)) in
      let (out', w', le) = visit_within (tree_size k s) s ids each pending out w in
      (n ∷ out', visit n (get-of_row s id n e) q w', omega (arith, tree_size-children k s id q))

  -- On a valid store in order, the fuel is enough: `walk` returns the traversal from any stored id.
  pub walk-Walks :
      (root : String)
      → contains root s.nodes ≡ true
      → (out : List Node) × Walks s (root ∷ []) out × (walk s root ≡ ok out)
  unfolding walk
  walk-Walks root there =
      let (out, w, le) =
        tree_size-VisitsWithin (length s.nodes) root there (omega arith) [] [] done in
      (
        out,
        w,
        rw (walk_loop-Walks (suc (tree_size (length s.nodes) s root)) w (omega arith), walk) refl,
      )
