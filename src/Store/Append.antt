-- ===== src/Store/Append.antt =====
-- Sequences of writes to the memory store of src/pollard/store.py, and what they keep.
use pollard.Common.{
  String, ◌≡◌, List, [], ◌∷◌, Option, some, arith, ◌==◌, string_eq, Bool-cases, inl, inr,
}
use pollard.Common.Dict.{lookup, lookup-insert}
use pollard.Errors.{Result, ok, err, Result-cases}
use pollard.Json.{Fields}
use pollard.Hashing.{Sha256}
use pollard.Tree.{Node}
use pollard.Store.{MemoryStore, put, update_meta}
use pollard.Store.Rows.{lookup-store_new}
use pollard.Store.Valid.{
  IsValid, Change, unchanged, annotated, added, Change-IsValid, put-Change, update_meta-Change,
}

-- The writes of the `Store` protocol.
pub data Write : Type 0 where
  put_node : Node → Write
  patch_meta : String → Fields → Write

-- The node is there with the same identity and result; only its metadata may differ.
abbrev pub Keeps : Node → Option Node → Type 0
Keeps n o = (m : Fields) × (o ≡ some (record n { meta = m }))

module _ ⦃h : Sha256⦄ where
  unfoldable pub write : Write → MemoryStore → Result MemoryStore
  write (put_node node) s = put node s
  write (patch_meta id patch) s = update_meta id patch s

  abbrev pub settled : MemoryStore → Result MemoryStore → MemoryStore
  settled s (ok s') = s'
  settled s (err e) = s

  -- A caller that goes on after a write that raised goes on from the same store.
  unfoldable pub run_writes : List Write → MemoryStore → MemoryStore
  run_writes [] s = s
  run_writes (w ∷ ws) s = run_writes ws (settled s (write w s))

  pub write-Change : (w : Write) (s s' : MemoryStore) → IsValid s → write w s ≡ ok s' → Change s s'
  unfolding write
  write-Change (put_node node) s s' v e = put-Change node s s' v e
  write-Change (patch_meta id patch) s s' v e = update_meta-Change id patch s s' e

  pub settled-Change : (w : Write) (s : MemoryStore) → IsValid s → Change s (settled s (write w s))
  settled-Change w s v = elim (Result-cases (write w s)) [
    | inl (s', e) ↦ rw e (write-Change w s s' v e)
    | inr (x, e) ↦ rw e unchanged
  ]

  -- Whatever is written, and whatever of it is refused, the store stays valid: every row holds an
  -- accepted node under its own id with its parent stored, and the child index is exact.
  pub run_writes-IsValid :
      (ws : List Write) (s : MemoryStore) → IsValid s → IsValid (run_writes ws s)
  unfolding run_writes
  run_writes-IsValid [] s v = v
  run_writes-IsValid (w ∷ ws) s v =
      run_writes-IsValid ws (settled s (write w s)) (Change-IsValid (settled-Change w s v) v)

  pub Change-Keeps :
      {s s' : MemoryStore} (id : String) (n : Node)
      → Change s s'
      → lookup id s.nodes ≡ some n
      → Keeps n (lookup id s'.nodes)
  Change-Keeps id n unchanged e = (n.meta, e)
  Change-Keeps {s} id n (annotated j k m found) e = elim (Bool-cases (j == id)) [
    | inl same ↦ (
      m,
      ground (arith, lookup-insert j id (record k { meta = m }) s.nodes, string_eq.beq_iff j id),
    )
    | inr other ↦ (n.meta, ground (arith, lookup-insert j id (record k { meta = m }) s.nodes))
  ]
  Change-Keeps {s} id n (added node fresh good known) e =
      (n.meta, ground (arith, lookup-store_new node s id, string_eq.beq_iff node.id id))

  -- In a valid store, any writes keep every stored node's identity and its first result.
  pub run_writes-Keeps :
      (ws : List Write) (s : MemoryStore) (id : String) (n : Node)
      → IsValid s
      → lookup id s.nodes ≡ some n
      → Keeps n (lookup id (run_writes ws s).nodes)
  unfolding run_writes
  run_writes-Keeps [] s id n v e = (n.meta, e)
  run_writes-Keeps (w ∷ ws) s id n v e =
      let c = settled-Change w s v in
      let (m, e') = Change-Keeps id n c e in
      run_writes-Keeps ws (settled s (write w s)) id (record n { meta = m }) (Change-IsValid c v) e'
