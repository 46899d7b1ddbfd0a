-- ===== src/Store/Order.antt =====
-- The order of the rows in the memory store of src/pollard/store.py.
use pollard.Common.{
  ℕ, suc, ◌<◌, String, ◌≡◌, refl, true, false, List, [], ◌∷◌, none, some, arith, ◌==◌, string_eq,
  if◌then◌else◌, Bool-cases, inl, inr, eq_refl, length,
}
use pollard.Common.Dict.{Dict, lookup, contains, insert, lookup-insert}
use pollard.Hashing.{Sha256}
use pollard.Tree.{Node}
use pollard.Store.{MemoryStore, empty, store_new}
use pollard.Store.Rows.{lookup-store_new, nodes-add_child}
use pollard.Store.Valid.{
  IsValid, Change, unchanged, annotated, added, Change-IsValid, parent_stored,
}
use pollard.Store.Append.{Write, write, run_writes, settled, settled-Change}

-- The place of a key among the rows; the number of rows, if it is not there.
abbrev pub position : String → Dict String Node → ℕ
position id [] = 0
position id ((j, n) ∷ d) = if j == id then 0 else suc (position id d)

pub position-lt :
    (id : String) (d : Dict String Node) → contains id d ≡ true → position id d < length d
position-lt id [] h = absurd (cc)
position-lt id ((j, n) ∷ d) h = ground (arith, position-lt id d)

position-absent :
    (id : String) (d : Dict String Node) → contains id d ≡ false → position id d ≡ length d
position-absent id [] h = refl
position-absent id ((j, n) ∷ d) h = ground (arith, position-absent id d)

position-insert :
    (id j : String) (n : Node) (d : Dict String Node)
    → contains id d ≡ true
    → position id (insert j n d) ≡ position id d
position-insert id j n [] h = absurd (cc)
position-insert id j n ((i, m) ∷ d) h = ground (
  arith,
  string_eq.beq_iff i id,
  string_eq.beq_iff i j,
  string_eq.beq_iff j id,
  position-insert id j n d,
)

position-insert_self :
    (j : String) (n : Node) (d : Dict String Node) → position j (insert j n d) ≡ position j d
position-insert_self j n [] = ground (arith, eq_refl j)
position-insert_self j n ((i, m) ∷ d) = ground (arith, position-insert_self j n d)

-- Each stored node's parent stands before it.
pub record IsOrdered (s : MemoryStore) : Type 0 where
  pub before :
      (c p : String) (n : Node)
      → lookup c s.nodes ≡ some n
      → n.parent ≡ some p
      → position p s.nodes < position c s.nodes

pub empty-IsOrdered : IsOrdered empty
empty-IsOrdered = record { before = λ c p n e q. absurd (cc e) }

module _ ⦃h : Sha256⦄ where
  parent_position :
      (s : MemoryStore) (id c p : String) (n m : Node)
      → IsValid s
      → lookup c s.nodes ≡ some m
      → m.parent ≡ some p
      → position p (insert id n s.nodes) ≡ position p s.nodes
  parent_position s id c p n m v e q =
      position-insert p id n s.nodes (ground (arith, (v.rows c m e).parent_there))

  annotated-IsOrdered :
      (s : MemoryStore) (id : String) (n : Node) (n' : Node)
      → IsValid s
      → IsOrdered s
      → lookup id s.nodes ≡ some n
      → n'.parent ≡ n.parent
      → IsOrdered (record s { nodes = insert id n' s.nodes })
  annotated-IsOrdered s id n n' v o e q = record {
    before = λ c p m found par. elim (Bool-cases (id == c)) [
      | inl same ↦ ground (
        arith,
        lookup-insert id c n' s.nodes,
        string_eq.beq_iff id c,
        o.before id p n e,
        parent_position s id id p n' n v e,
        position-insert_self id n' s.nodes,
      )
      | inr other ↦ ground (
        arith,
        lookup-insert id c n' s.nodes,
        o.before c p m,
        parent_position s id c p n' m v,
        position-insert c id n' s.nodes,
      )
    ];
  }

  added-IsOrdered :
      (s : MemoryStore) (node : Node)
      → IsValid s
      → IsOrdered s
      → lookup node.id s.nodes ≡ none
      → parent_stored s.nodes node.parent ≡ true
      → IsOrdered (store_new node s)
  added-IsOrdered s node v o fresh known = record {
    before = λ c p m found par.
        rw (nodes-add_child node.parent node.id (record s { nodes = insert node.id node s.nodes }))
          (elim (Bool-cases (node.id == c)) [
            | inl same ↦ ground (
              arith,
              lookup-store_new node s c,
              string_eq.beq_iff node.id c,
              position-insert p node.id node s.nodes,
              position-insert_self node.id node s.nodes,
              position-absent node.id s.nodes,
              position-lt p s.nodes,
            )
            | inr other ↦ ground (
              arith,
              lookup-store_new node s c,
              o.before c p m,
              parent_position s node.id c p node m v,
              position-insert c node.id node s.nodes,
            )
          ]);
  }

  pub Change-IsOrdered : {s s' : MemoryStore} → Change s s' → IsValid s → IsOrdered s → IsOrdered s'
  Change-IsOrdered unchanged v o = o
  Change-IsOrdered {s} (annotated id n m e) v o =
      annotated-IsOrdered s id n (record n { meta = m }) v o e refl
  Change-IsOrdered {s} (added node fresh good known) v o = added-IsOrdered s node v o fresh known

  -- Writes keep the rows in an order in which parents stand before their children.
  pub run_writes-IsOrdered :
      (ws : List Write) (s : MemoryStore) → IsValid s → IsOrdered s → IsOrdered (run_writes ws s)
  unfolding run_writes
  run_writes-IsOrdered [] s v o = o
  run_writes-IsOrdered (w ∷ ws) s v o =
      let c = settled-Change w s v in
      run_writes-IsOrdered ws (settled s (write w s)) (Change-IsValid c v) (Change-IsOrdered c v o)
