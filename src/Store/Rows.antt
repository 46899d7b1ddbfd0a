-- ===== src/Store/Rows.antt =====
-- How the operations of src/pollard/store.py change single rows and child lists.
use pollard.Common.{
  String, ◌≡◌, refl, ◌||◌, List, [], ◌∷◌, Option, none, some, arith, ◌==◌, string_eq, if◌then◌else◌,
  Bool-cases, inl, inr,
}
use pollard.Common.Dict.{lookup, insert, lookup-insert}
use pollard.Tree.{Node}
use pollard.Store.{MemoryStore, optional_eq, add_once, children_of, add_child, member, store_new}

pub member-add_once :
    (c x : String) (ys : List String) → member c (add_once x ys) ≡ (x == c) || member c ys
member-add_once c x [] = refl
member-add_once c x (y ∷ ys) = ground (
  arith,
  string_eq.beq_iff y x,
  string_eq.beq_iff y c,
  string_eq.beq_iff x c,
  member-add_once c x ys,
)

pub children_of-add_child :
    (parent : Option String) (id p c : String) (s : MemoryStore)
    → member c (children_of p (add_child parent id s)) ≡ (
        if optional_eq parent (some p)
        then (id == c) || member c (children_of p s)
        else member c (children_of p s))
children_of-add_child none id p c s = refl
children_of-add_child (some q) id p c s = elim (Bool-cases (q == p)) [
  | inl same ↦ ground (
    arith,
    same,
    string_eq.beq_iff q p,
    lookup-insert q p (add_once id (children_of q s)) s.child_ids,
    member-add_once c id (children_of q s),
  )
  | inr other ↦ ground (arith, other, lookup-insert q p (add_once id (children_of q s)) s.child_ids)
]

pub nodes-add_child :
    (parent : Option String) (id : String) (s : MemoryStore)
    → (add_child parent id s).nodes ≡ s.nodes
nodes-add_child none id s = refl
nodes-add_child (some p) id s = refl

pub lookup-store_new :
    (node : Node) (s : MemoryStore) (j : String)
    → lookup j (store_new node s).nodes ≡ (if node.id == j then some node else lookup j s.nodes)
lookup-store_new node s j =
    rw (nodes-add_child node.parent node.id (record s { nodes = insert node.id node s.nodes }))
      (lookup-insert node.id j node s.nodes)
