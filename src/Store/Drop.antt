-- ===== src/Store/Drop.antt =====
-- `_pollard_drop_nodes` of src/pollard/store.py, on stores that are written through their operations.
use mathlib.Core.Path.{subst}
use pollard.Common.{
  String, ◌≡◌, refl, ap, sym, ◌∙◌, Bool, true, false, not, ◌||◌, List, [], ◌∷◌, Option, none, some,
  arith, ◌==◌, string_eq, if◌then◌else◌, Bool-cases, inl, inr, All,
}
use pollard.Common.Dict.{Dict, lookup, insert, filter_keys, lookup-filter_keys, Unique}
use pollard.Hashing.{Sha256}
use pollard.Tree.{Node}
use pollard.Store.{MemoryStore, member, children_of, add_child, rebuild_children, drop_nodes}
use pollard.Store.Rows.{children_of-add_child, nodes-add_child}
use pollard.Store.Table.{OwnId, IsTable, OwnId-lookup, insert-IsTable}
use pollard.Store.Valid.{
  IsValid, RowValid, is_child, parent_stored, Change, unchanged, annotated, added, Change-IsValid,
}
use pollard.Store.Append.{Write, write, run_writes, settled, settled-Change}

rebuild-nodes : (d : Dict String Node) (s : MemoryStore) → (rebuild_children d s).nodes ≡ s.nodes
rebuild-nodes [] s = refl
rebuild-nodes ((id, n) ∷ d) s =
    rebuild-nodes d (add_child n.parent n.id s) ∙ nodes-add_child n.parent n.id s

-- The index that is rebuilt from rows lists their children, behind those listed before.
rebuilt :
    (p c : String) (d : Dict String Node) (s : MemoryStore)
    → Unique d
    → All OwnId d
    → member c (children_of p (rebuild_children d s))
      ≡ is_child p (lookup c d) || member c (children_of p s)
rebuilt p c [] s u k = refl
rebuilt p c ((key, n) ∷ d) s u k =
    let rest = rebuilt p c d (add_child n.parent n.id s) u.1 k.1 in
    let first = children_of-add_child n.parent n.id p c s in
    elim (Bool-cases (key == c)) [
      | inl same ↦
          let gone : lookup c d ≡ none =
            subst (λ x. lookup x d ≡ none) ((string_eq.beq_iff key c).0 same) (u.0) in
          ground (arith, k.0, rest, first, gone, same)
      | inr other ↦ ground (arith, k.0, rest, first, other)
    ]

module _ (p : String → Bool) where
  Unique-filter : (d : Dict String Node) → Unique d → Unique (filter_keys p d)
  Unique-filter [] u = tt
  Unique-filter ((k, n) ∷ d) u = elim (Bool-cases (p k)) [
    | inl kept ↦ rw kept (ground (arith, lookup-filter_keys p k d, u.0), Unique-filter d u.1)
    | inr dropped ↦ rw dropped (Unique-filter d u.1)
  ]

  OwnId-filter : (d : Dict String Node) → All OwnId d → All OwnId (filter_keys p d)
  OwnId-filter [] k = tt
  OwnId-filter ((j, n) ∷ d) k = elim (Bool-cases (p j)) [
    | inl kept ↦ rw kept (k.0, OwnId-filter d k.1)
    | inr dropped ↦ rw dropped (OwnId-filter d k.1)
  ]

or_false : (b : Bool) → b || false ≡ b
or_false true = refl
or_false false = refl

-- What is dropped is dropped with everything below it.
abbrev pub DropsSubtrees : List String → MemoryStore → Type 0
DropsSubtrees ids s =
    (c p : String) (n : Node)
    → lookup c s.nodes ≡ some n
    → n.parent ≡ some p
    → member p ids ≡ true
    → member c ids ≡ true

abbrev remaining : List String → MemoryStore → Dict String Node
remaining ids s = filter_keys (λ id. not (member id ids)) s.nodes

module _ ⦃h : Sha256⦄ where
  Change-IsTable : {s s' : MemoryStore} → Change s s' → IsTable s.nodes → IsTable s'.nodes
  Change-IsTable unchanged t = t
  Change-IsTable {s} (annotated id n m found) t =
      insert-IsTable id (record n { meta = m }) s.nodes (OwnId-lookup id n s.nodes t.own_ids found)
        t
  Change-IsTable {s} (added node fresh good known) t =
      rw (nodes-add_child node.parent node.id (record s { nodes = insert node.id node s.nodes }))
        (insert-IsTable node.id node s.nodes refl t)

  -- Writes keep the rows a table: each row once, under the id of its node.
  pub run_writes-IsTable :
      (ws : List Write) (s : MemoryStore)
      → IsValid s
      → IsTable s.nodes
      → IsTable ((run_writes ws s).nodes)
  unfolding run_writes
  run_writes-IsTable [] s v t = t
  run_writes-IsTable (w ∷ ws) s v t =
      let c = settled-Change w s v in
      run_writes-IsTable ws (settled s (write w s)) (Change-IsValid c v) (Change-IsTable c t)

  module _ (ids : List String) (s : MemoryStore) (v : IsValid s) (t : IsTable s.nodes) where
    dropped-nodes : (drop_nodes ids s).nodes ≡ remaining ids s
    unfolding drop_nodes
    dropped-nodes =
        rebuild-nodes (remaining ids s) (record { nodes = remaining ids s; child_ids = [] })

    dropped-row :
        (id : String)
        → lookup id (drop_nodes ids s).nodes ≡ (if member id ids then none else lookup id s.nodes)
    dropped-row id =
        rw dropped-nodes (lookup-filter_keys (λ j. not (member j ids)) id s.nodes ∙ (ground arith))

    still_there :
        (o : Option String)
        → parent_stored s.nodes o ≡ true
        → ((p : String) → o ≡ some p → member p ids ≡ false)
        → parent_stored (drop_nodes ids s).nodes o ≡ true
    still_there none there kept = refl
    still_there (some p) there kept = rw (dropped-row p) (rw (kept p refl) there)

    dropped_index :
        (p c : String)
        → member c (children_of p (drop_nodes ids s))
          ≡ is_child p (lookup c (drop_nodes ids s).nodes)
    unfolding drop_nodes
    dropped_index p c =
        rebuilt p c (remaining ids s) (record { nodes = remaining ids s; child_ids = [] })
          (Unique-filter (λ j. not (member j ids)) s.nodes t.unique)
          (OwnId-filter (λ j. not (member j ids)) s.nodes t.own_ids)
        ∙ or_false (is_child p (lookup c (remaining ids s)))
        ∙ sym (ap (λ (d : Dict String Node). is_child p (lookup c d)) dropped-nodes)

    kept_row :
        DropsSubtrees ids s
        → (id : String) (n : Node) → lookup id (drop_nodes ids s).nodes ≡ some n
        → RowValid (drop_nodes ids s).nodes id n
    kept_row whole id n e = elim (Bool-cases (member id ids)) [
      | inl gone ↦ absurd (cc (rw gone at (sym (dropped-row id) ∙ e)))
      | inr kept ↦
          let found : lookup id s.nodes ≡ some n = rw kept at (sym (dropped-row id) ∙ e) in
          let r = v.rows id n found in
          record {
            own_id = r.own_id;
            accepted = r.accepted;
            parent_there = still_there n.parent r.parent_there (λ p q.
                elim (Bool-cases (member p ids)) [
                  | inl t ↦ absurd (cc (whole id p n found q t, kept))
                  | inr f ↦ f
                ]);
          }
    ]

    -- Dropping whole subtrees from a valid store leaves a valid one, which holds just the other rows,
    -- unchanged.
    pub drop_nodes-IsValid :
        DropsSubtrees ids s
        → IsValid (drop_nodes ids s)
          × ((id : String)
              → lookup id (drop_nodes ids s).nodes
                ≡ (if member id ids then none else lookup id s.nodes))
    drop_nodes-IsValid whole =
        (record { rows = kept_row whole; indexed = dropped_index }, dropped-row)
