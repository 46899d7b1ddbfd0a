-- ===== src/Transactional/Children.antt =====
-- `children` of src/pollard/stores/_transactional.py, which scans the bucket, against the child index in
-- memory.
use mathlib.Core.Path.{subst}
use pollard.Common.{
  String, ◌≡◌, refl, ap, sym, ◌∙◌, ◌||◌, List, [], ◌∷◌, Option, none, some, arith, ◌==◌, string_eq,
  Bool-cases, inl, inr, Option-cases, All, keep_if,
}
use pollard.Common.Dict.{lookup, values, Unique}
use pollard.Common.Sort.{sorted, insert_sorted}
use pollard.Errors.{ok, ok_injective, Result-cases}
use pollard.Hashing.{Sha256}
use pollard.Tree.{Node}
use pollard.Store.{empty, children, member}
use pollard.Store.Valid.{empty-IsValid, is_child}
use pollard.Store.Children.{children_members}
use pollard.Store.Table.{OwnId, IsTable, OwnId-lookup, insert-IsTable}
use pollard.Store.Append.{Write, put_node, patch_meta, run_writes, run_writes-IsValid}
use pollard.Transactional.{
  Bucket, node_before, has_parent, node_ids, tx_children, tx_put, tx_update_meta, tx_get,
}
use pollard.Transactional.Agrees.{core, or_same, tx_write, tx_run_writes, tx_run_writes-Agrees}
use pollard.Transactional.Repeat.{tx_put-parts, tx_existing-eq-ok, noted}

module _ (c : String) where
  member-insert_node :
      (n : Node) (ns : List Node)
      → member c (node_ids (insert_sorted node_before n ns)) ≡ (n.id == c) || member c (node_ids ns)
  member-insert_node n [] = refl
  member-insert_node n (m ∷ ns) = elim (Bool-cases (node_before m n)) [
    | inl after ↦ rw after (ground (arith, member-insert_node n ns))
    | inr here ↦ rw here refl
  ]

  member-sorted_nodes :
      (ns : List Node) → member c (node_ids (sorted node_before ns)) ≡ member c (node_ids ns)
  member-sorted_nodes [] = refl
  member-sorted_nodes (n ∷ ns) =
      ground (arith, member-insert_node n (sorted node_before ns), member-sorted_nodes ns)

  scanned :
      (id : String) (b : Bucket)
      → Unique b
      → All OwnId b
      → member c (node_ids (keep_if (has_parent id) (values b))) ≡ is_child id (lookup c b)
  scanned id [] u k = refl
  scanned id ((key, n) ∷ b) u k =
      let rest = scanned id b u.1 k.1 in
      elim (Bool-cases (key == c)) [
        | inl same ↦
            let gone : lookup c b ≡ none =
              subst (λ x. lookup x b ≡ none) ((string_eq.beq_iff key c).0 same) (u.0) in
            ground (arith, k.0, rest, gone, same)
        | inr other ↦ ground (arith, k.0, rest, other)
      ]

is_child-core : (id : String) (o : Option Node) → is_child id o ≡ is_child id (core o)
is_child-core id none = refl
is_child-core id (some n) = refl

tx_children_exact :
    (b : Bucket) (id c : String)
    → IsTable b
    → member c (tx_children b id) ≡ is_child id (lookup c b)
unfolding tx_children
tx_children_exact b id c v =
    member-sorted_nodes c (keep_if (has_parent id) (values b)) ∙ scanned c id b v.unique v.own_ids

module _ ⦃h : Sha256⦄ where
  put-IsTable : (node : Node) (b b' : Bucket) → IsTable b → tx_put node b ≡ ok b' → IsTable b'
  put-IsTable node b b' v e =
      let (_, _, e₂) = tx_put-parts node b b' e in
      elim (Option-cases (lookup node.id b)) [
        | inl fresh ↦
            subst IsTable (ok_injective _ _ (rw fresh at e₂)) (insert-IsTable node.id node b refl v)
        | inr (old, found) ↦ elim (tx_existing-eq-ok old node b b' (rw found at e₂)) [
          | inl same ↦ subst IsTable (sym same) v
          | inr (prior, _, _, written) ↦ subst IsTable (sym written) (
              insert-IsTable node.id (noted prior old node) b
                (OwnId-lookup node.id old b v.own_ids found) v)
        ]
      ]

  write-IsTable : (w : Write) (b b' : Bucket) → IsTable b → tx_write w b ≡ ok b' → IsTable b'
  unfolding tx_write tx_update_meta tx_get
  write-IsTable (put_node node) b b' v e = put-IsTable node b b' v e
  write-IsTable (patch_meta id patch) b b' v e = elim (Option-cases (lookup id b)) [
    | inl gone ↦ absurd (cc (rw gone at e))
    | inr (n, found) ↦
        subst IsTable (ok_injective _ _ (rw found at e))
          (insert-IsTable id _ b (OwnId-lookup id n b v.own_ids found) v)
  ]

  run-IsTable : (ws : List Write) (b : Bucket) → IsTable b → IsTable (tx_run_writes ws b)
  unfolding tx_run_writes
  run-IsTable [] b v = v
  run-IsTable (w ∷ ws) b v =
      run-IsTable ws (or_same b (tx_write w b)) (elim (Result-cases (tx_write w b)) [
        | inl (b', e) ↦ rw e (write-IsTable w b b' v e)
        | inr (x, e) ↦ rw e v
      ])

  -- After the same writes to an empty store, `children` of the transactional store lists the same ids
  -- as `children` of the memory store.
  pub tx_children-children :
      (ws : List Write) (id c : String) {ids : List String}
      → children (run_writes ws empty) id ≡ ok ids
      → member c (tx_children (tx_run_writes ws []) id) ≡ member c ids
  tx_children-children ws id c e =
      tx_children_exact (tx_run_writes ws []) id c
        (run-IsTable ws [] (record { unique = tt; own_ids = tt }))
      ∙ is_child-core id (lookup c (tx_run_writes ws []))
      ∙ ap (is_child id) (sym (tx_run_writes-Agrees ws empty [] empty-IsValid (λ j. refl) c))
      ∙ sym (is_child-core id (lookup c (run_writes ws empty).nodes))
      ∙ sym (
          children_members (run_writes ws empty) (run_writes-IsValid ws empty empty-IsValid) id c e)
