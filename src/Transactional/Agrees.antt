-- ===== src/Transactional/Agrees.antt =====
-- The node store of src/pollard/stores/_transactional.py against the memory store.
use mathlib.Core.Path.{subst}
use pollard.Common.{
  String, ◌≡◌, refl, ap, sym, ◌∙◌, not, ◌||◌, List, [], ◌∷◌, Option, none, some, ◌==◌, string_eq,
  Bool-cases, inl, inr, Option-cases, is_some,
}
use pollard.Common.Dict.{lookup, insert, lookup-insert}
use pollard.Errors.{Result, ok, err, Result-cases}
use pollard.Json.{Items, Fields, end, get_field, merge_fields}
use pollard.Hashing.{Sha256}
use pollard.Tree.{Node}
use pollard.Store.{
  MemoryStore, put, get, update_meta, same_identity, handle_existing, validate_for_put,
  parent_check, conflict_items, conflict_entry, optional_text_eq,
}
use pollard.Store.Rows.{nodes-add_child}
use pollard.Store.Valid.{IsValid, Change-IsValid}
use pollard.Store.Append.{Write, put_node, patch_meta, write, run_writes, settled, settled-Change}
use pollard.Store.Put.{handle_existing-eq-ok, note_conflict-eq-ok}
use pollard.Transactional.{
  Bucket, item_in, note_once, tx_existing, tx_put_at, tx_put, tx_get, tx_update_meta,
}

-- A row without its metadata.
abbrev pub core : Option Node → Option Node
core none = none
core (some n) = some (record n { meta = end })

-- The same nodes under the same ids, but for their metadata.
abbrev pub Agrees : Bucket → Bucket → Type 0
Agrees a b = (id : String) → core (lookup id a) ≡ core (lookup id b)

Agrees-trans : (a b c : Bucket) → Agrees a b → Agrees b c → Agrees a c
Agrees-trans a b c p q id = p id ∙ q id

Agrees-sym : (a b : Bucket) → Agrees a b → Agrees b a
Agrees-sym a b p id = sym (p id)

-- Metadata alone.
Agrees-meta :
    (a : Bucket) (key : String) (n : Node) (m : Fields)
    → lookup key a ≡ some n
    → Agrees (insert key (record n { meta = m }) a) a
Agrees-meta a key n m e id =
    rw (lookup-insert key id (record n { meta = m }) a) (elim (Bool-cases (key == id)) [
      | inl same ↦
          rw same
            (sym (ap core (subst (λ x. lookup x a ≡ some n) ((string_eq.beq_iff key id).0 same) e)))
      | inr other ↦ rw other refl
    ])

Agrees-insert :
    (a b : Bucket) (key : String) (n : Node) → Agrees a b → Agrees (insert key n a) (insert key n b)
Agrees-insert a b key n p id =
    rw (lookup-insert key id n a, lookup-insert key id n b)
      (elim (Bool-cases (key == id)) [ inl same ↦ rw same refl | inr other ↦ rw other (p id) ])

core-is_some : (o p : Option Node) → core o ≡ core p → is_some o ≡ is_some p
core-is_some none none e = refl
core-is_some none (some n) e = absurd (cc)
core-is_some (some n) none e = absurd (cc)
core-is_some (some n) (some m) e = refl

core-none : (o : Option Node) → core o ≡ none → o ≡ none
core-none none e = refl
core-none (some n) e = absurd (cc)

parent_check-Agrees :
    (o : Option String) (a b : Bucket) → Agrees a b → parent_check o a ≡ parent_check o b
parent_check-Agrees none a b p = refl
parent_check-Agrees (some k) a b p = rw (core-is_some (lookup k a) (lookup k b) (p k)) refl

abbrev pub or_same : Bucket → Result Bucket → Bucket
or_same nodes (ok nodes') = nodes'
or_same nodes (err e) = nodes

note_once-Agrees :
    (old incoming : Node) (conflicts : Items) (b : Bucket)
    → lookup incoming.id b ≡ some old
    → Agrees (note_once old incoming conflicts b) b
note_once-Agrees old incoming conflicts b e =
    elim (Bool-cases (item_in (conflict_entry incoming) conflicts)) [
      | inl there ↦ rw there (λ id. refl)
      | inr new ↦ rw new (Agrees-meta b incoming.id old _ e)
    ]

-- On an occupied id neither store changes more than metadata.
tx_existing-Agrees :
    (old incoming : Node) (b : Bucket)
    → lookup incoming.id b ≡ some old
    → Agrees (or_same b (tx_existing old incoming b)) b
unfolding tx_existing
tx_existing-Agrees old incoming b e = elim (Bool-cases (same_identity old incoming)) [
  | inr other ↦ rw other (λ id. refl)
  | inl same ↦
      elim (Bool-cases (
        not (is_some incoming.result_text)
        || optional_text_eq incoming.result_text old.result_text)) [
          | inl known ↦ rw same (rw known (λ id. refl))
          | inr differs ↦
              elim (Result-cases (conflict_items (get_field "result_conflicts" old.meta))) [
                | inl (prior, q) ↦
                    rw same (rw differs (rw q (note_once-Agrees old incoming prior b e)))
                | inr (x, q) ↦ rw same (rw differs (rw q (λ id. refl)))
              ]
        ]
]

module _ ⦃h : Sha256⦄ where
  memory_existing-Agrees :
      (old incoming : Node) (s : MemoryStore)
      → old.id ≡ incoming.id
      → lookup incoming.id s.nodes ≡ some old
      → Agrees ((settled s (handle_existing old incoming s)).nodes) s.nodes
  memory_existing-Agrees old incoming s own e =
      elim (Result-cases (handle_existing old incoming s)) [
        | inr (x, q) ↦ rw q (λ id. refl)
        | inl (s', q) ↦ elim ((handle_existing-eq-ok old incoming s s' q).1) [
          | inl (_, kept) ↦ rw q (rw kept (λ id. refl))
          | inr (_, noted) ↦
              let (prior, _, rows) = note_conflict-eq-ok old incoming s s' noted in
              rw q (
                rw rows (
                  Agrees-meta s.nodes old.id old _
                    (subst (λ x. lookup x s.nodes ≡ some old) (sym own) e)))
        ]
      ]

  found_both :
      (node old : Node) (s : MemoryStore) (b : Bucket)
      → IsValid s
      → Agrees s.nodes b
      → lookup node.id s.nodes ≡ some old
      → Agrees
          ((settled s (handle_existing old node s)).nodes)
          (or_same b (tx_put_at (lookup node.id b) node b))
  found_both node old s b v p found = elim (Option-cases (lookup node.id b)) [
    | inl gone ↦
        absurd
          (cc (core-is_some (lookup node.id s.nodes) (lookup node.id b) (p node.id), found, gone))
    | inr (there, q) ↦ rw q (
        Agrees-trans ((settled s (handle_existing old node s)).nodes) s.nodes
          (or_same b (tx_existing there node b))
          (memory_existing-Agrees old node s ((v.rows node.id old found).own_id) found)
          (Agrees-trans s.nodes b (or_same b (tx_existing there node b)) p (
            Agrees-sym (or_same b (tx_existing there node b)) b
              (tx_existing-Agrees there node b q))))
  ]

  put-Agrees :
      (node : Node) (s : MemoryStore) (b : Bucket)
      → IsValid s
      → Agrees s.nodes b
      → Agrees ((settled s (put node s)).nodes) (or_same b (tx_put node b))
  unfolding put tx_put
  put-Agrees node s b v p = elim (Result-cases (validate_for_put node)) [
    | inr (x, bad) ↦ rw bad p
    | inl (_, good) ↦ rw good (
        rw (sym (parent_check-Agrees node.parent s.nodes b p))
          (elim (Result-cases (parent_check node.parent s.nodes)) [
            | inr (x, gone) ↦ rw gone p
            | inl (_, known) ↦ rw known (elim (Option-cases (lookup node.id s.nodes)) [
              | inl fresh ↦ rw fresh (
                  rw (core-none (lookup node.id b) (sym (p node.id) ∙ ap core fresh)) (
                    rw
                      (nodes-add_child node.parent node.id
                        (record s { nodes = insert node.id node s.nodes }))
                      (Agrees-insert s.nodes b node.id node p)))
              | inr (old, found) ↦ rw found (found_both node old s b v p found)
            ])
          ]))
  ]

  meta-Agrees :
      (id : String) (patch : Fields) (s : MemoryStore) (b : Bucket)
      → Agrees s.nodes b
      → Agrees ((settled s (update_meta id patch s)).nodes) (or_same b (tx_update_meta id patch b))
  unfolding update_meta get tx_update_meta tx_get
  meta-Agrees id patch s b p = elim (Option-cases (lookup id s.nodes)) [
    | inl gone ↦ rw gone (rw (core-none (lookup id b) (sym (p id) ∙ ap core gone)) p)
    | inr (n, found) ↦ elim (Option-cases (lookup id b)) [
      | inl gone ↦ absurd (cc (core-is_some (lookup id s.nodes) (lookup id b) (p id), found, gone))
      | inr (m, q) ↦ rw found (
          rw q (
            Agrees-trans (insert id (record n { meta = merge_fields n.meta patch }) s.nodes) s.nodes
              (insert id (record m { meta = merge_fields m.meta patch }) b)
              (Agrees-meta s.nodes id n (merge_fields n.meta patch) found)
              (Agrees-trans s.nodes b (insert id (record m { meta = merge_fields m.meta patch }) b)
                p
                (Agrees-sym (insert id (record m { meta = merge_fields m.meta patch }) b) b
                  (Agrees-meta b id m (merge_fields m.meta patch) q)))))
    ]
  ]

  unfoldable pub tx_write : Write → Bucket → Result Bucket
  tx_write (put_node node) nodes = tx_put node nodes
  tx_write (patch_meta id patch) nodes = tx_update_meta id patch nodes

  -- A caller that goes on after a write that raised goes on from the same bucket.
  unfoldable pub tx_run_writes : List Write → Bucket → Bucket
  tx_run_writes [] nodes = nodes
  tx_run_writes (w ∷ ws) nodes = tx_run_writes ws (or_same nodes (tx_write w nodes))

  write-Agrees :
      (w : Write) (s : MemoryStore) (b : Bucket)
      → IsValid s
      → Agrees s.nodes b
      → Agrees ((settled s (write w s)).nodes) (or_same b (tx_write w b))
  unfolding write tx_write
  write-Agrees (put_node node) s b v p = put-Agrees node s b v p
  write-Agrees (patch_meta id patch) s b v p = meta-Agrees id patch s b p

  -- The transactional store does what the memory store does: from agreeing states, the first of them
  -- valid, the same writes lead to agreeing states, which hold the same nodes under the same ids but
  -- for their metadata.
  pub tx_run_writes-Agrees :
      (ws : List Write) (s : MemoryStore) (b : Bucket)
      → IsValid s
      → Agrees s.nodes b
      → Agrees ((run_writes ws s).nodes) (tx_run_writes ws b)
  unfolding run_writes tx_run_writes
  tx_run_writes-Agrees [] s b v p = p
  tx_run_writes-Agrees (w ∷ ws) s b v p =
      tx_run_writes-Agrees ws (settled s (write w s)) (or_same b (tx_write w b))
        (Change-IsValid (settled-Change w s v) v) (write-Agrees w s b v p)
