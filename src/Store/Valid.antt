-- ===== src/Store/Valid.antt =====
-- The invariant of the memory store of src/pollard/store.py, and how its writes change it.
use pollard.Common.{
  String, ◌≡◌, refl, sym, ◌∙◌, Bool, true, false, not, ◌||◌, Option, none, some, arith, ◌==◌,
  string_eq, Bool-cases, inl, inr, Option-cases, is_some,
}
use pollard.Common.Dict.{Dict, lookup, contains, insert, lookup-insert}
use mathlib.Core.Path.{subst}
use pollard.Errors.{ok, >>=-eq-ok, ok_injective}
use pollard.Json.{Fields, arr, append_item, set_field, merge_fields, get_field}
use pollard.Hashing.{Sha256}
use pollard.Tree.{Node, expected_id}
use pollard.Store.{
  MemoryStore, empty, optional_eq, children_of, member, store_new, validate_for_put, put,
  handle_existing, note_conflict, same_identity, optional_text_eq, update_meta, conflict_items,
  conflict_entry, parent_check,
}
use pollard.Store.Rows.{children_of-add_child, lookup-store_new}

-- Is a row that holds this node a child of `p`?
abbrev pub is_child : String → Option Node → Bool
is_child p none = false
is_child p (some n) = optional_eq n.parent (some p)

abbrev pub parent_stored : Dict String Node → Option String → Bool
parent_stored nodes none = true
parent_stored nodes (some p) = contains p nodes

module _ ⦃h : Sha256⦄ where
  -- A row holds a node under its own id that `_validate_for_put` accepts, and whose parent is there.
  pub record RowValid (nodes : Dict String Node) (id : String) (n : Node) : Type 0 where
    pub own_id : n.id ≡ id
    pub accepted : validate_for_put n ≡ ok tt
    pub parent_there : parent_stored nodes n.parent ≡ true

  -- The child index lists exactly the stored nodes with that parent.
  pub record IsValid (s : MemoryStore) : Type 0 where
    pub rows : (id : String) (n : Node) → lookup id s.nodes ≡ some n → RowValid s.nodes id n
    pub indexed : (p c : String) → member c (children_of p s) ≡ is_child p (lookup c s.nodes)

  pub empty-IsValid : IsValid empty
  empty-IsValid = record { rows = λ id n e. cc; indexed = λ p c. refl }

  -- More rows keep a parent there.
  parent_stored-insert :
      (nodes : Dict String Node) (id : String) (n : Node) (o : Option String)
      → parent_stored nodes o ≡ true
      → parent_stored (insert id n nodes) o ≡ true
  parent_stored-insert nodes id n none e = refl
  parent_stored-insert nodes id n (some p) e = ground (arith, lookup-insert id p n nodes)

  -- A row may change in its metadata.
  module _ (s : MemoryStore) (id : String) (n n' : Node) (v : IsValid s)
      (e : lookup id s.nodes ≡ some n) (same_id : n'.id ≡ n.id) (same_parent : n'.parent ≡ n.parent)
      (good : validate_for_put n' ≡ ok tt) where
    replaced_self : RowValid (insert id n' s.nodes) id n'
    replaced_self = record {
      own_id = same_id ∙ (v.rows id n e).own_id;
      accepted = good;
      parent_there =
          parent_stored-insert s.nodes id n' n'.parent
            (rw same_parent ((v.rows id n e).parent_there));
    }

    replaced_row :
        (j : String) (m : Node)
        → lookup j (insert id n' s.nodes) ≡ some m
        → RowValid (insert id n' s.nodes) j m
    replaced_row j m found = elim (Bool-cases (id == j)) [
      | inl t ↦
          let here : id ≡ j = (string_eq.beq_iff id j).0 t in
          let same : n' ≡ m = ground (arith, lookup-insert id j n' s.nodes) in
          subst (λ x. RowValid (insert id n' s.nodes) j x) same
            (subst (λ x. RowValid (insert id n' s.nodes) x n') here replaced_self)
      | inr t ↦
          let r = v.rows j m (ground (arith, lookup-insert id j n' s.nodes)) in
          record {
            own_id = r.own_id;
            accepted = r.accepted;
            parent_there = parent_stored-insert s.nodes id n' m.parent r.parent_there;
          }
    ]

    replace-IsValid : IsValid (record s { nodes = insert id n' s.nodes })
    replace-IsValid = record {
      rows = replaced_row;
      indexed = λ p c.
          ground (arith, lookup-insert id c n' s.nodes, v.indexed p c, string_eq.beq_iff id c);
    }

  -- A node of a new id is added, with its parent there.
  module _ (s : MemoryStore) (node : Node) (v : IsValid s) (fresh : lookup node.id s.nodes ≡ none)
      (good : validate_for_put node ≡ ok tt)
      (known : parent_stored s.nodes node.parent ≡ true) where
    parent_stored-store_new :
        (o : Option String)
        → parent_stored s.nodes o ≡ true
        → parent_stored (store_new node s).nodes o ≡ true
    parent_stored-store_new none e = refl
    parent_stored-store_new (some p) e = ground (arith, lookup-store_new node s p)

    added_self : RowValid (store_new node s).nodes node.id node
    added_self = record {
      own_id = refl;
      accepted = good;
      parent_there = parent_stored-store_new node.parent known;
    }

    added_row :
        (j : String) (m : Node)
        → lookup j (store_new node s).nodes ≡ some m
        → RowValid (store_new node s).nodes j m
    added_row j m found = elim (Bool-cases (node.id == j)) [
      | inl t ↦
          let here : node.id ≡ j = (string_eq.beq_iff node.id j).0 t in
          let same : node ≡ m = ground (arith, lookup-store_new node s j) in
          subst (λ x. RowValid (store_new node s).nodes j x) same
            (subst (λ x. RowValid (store_new node s).nodes x node) here added_self)
      | inr t ↦
          let r = v.rows j m (ground (arith, lookup-store_new node s j)) in
          record {
            own_id = r.own_id;
            accepted = r.accepted;
            parent_there = parent_stored-store_new m.parent r.parent_there;
          }
    ]

    added_indexed :
        (p c : String)
        → member c (children_of p (store_new node s))
          ≡ is_child p (lookup c (store_new node s).nodes)
    added_indexed p c = ground (
      arith,
      lookup-store_new node s c,
      children_of-add_child node.parent node.id p c
          (record s { nodes = insert node.id node s.nodes }),
      v.indexed p c,
      string_eq.beq_iff node.id c,
    )

    store_new-IsValid : IsValid (store_new node s)
    store_new-IsValid = record { rows = added_row; indexed = added_indexed }

  -- The checks of `_validate_for_put` do not read the metadata.
  validate-meta :
      (n : Node) (m : Fields) → validate_for_put (record n { meta = m }) ≡ validate_for_put n
  unfolding validate_for_put expected_id
  validate-meta n m = refl

  meta-IsValid :
      (s : MemoryStore) (id : String) (n : Node) (m : Fields)
      → IsValid s
      → lookup id s.nodes ≡ some n
      → IsValid (record s { nodes = insert id (record n { meta = m }) s.nodes })
  meta-IsValid s id n m v e =
      replace-IsValid s id n (record n { meta = m }) v e refl refl
        (validate-meta n m ∙ (v.rows id n e).accepted)

  -- What a successful write does: nothing, new metadata for a stored node, or a new node.
  pub data Change (s : MemoryStore) : MemoryStore → Type 0 where
    unchanged : Change s s
    annotated :
        (id : String) (n : Node) (m : Fields)
        → lookup id s.nodes ≡ some n
        → Change s (record s { nodes = insert id (record n { meta = m }) s.nodes })
    added :
        (node : Node)
        → lookup node.id s.nodes ≡ none
        → validate_for_put node ≡ ok tt
        → parent_stored s.nodes node.parent ≡ true
        → Change s (store_new node s)

  pub Change-IsValid : {s s' : MemoryStore} → Change s s' → IsValid s → IsValid s'
  Change-IsValid unchanged v = v
  Change-IsValid {s} (annotated id n m e) v = meta-IsValid s id n m v e
  Change-IsValid {s} (added node fresh good known) v = store_new-IsValid s node v fresh good known

  note_conflict-Change :
      (existing incoming : Node) (s s' : MemoryStore)
      → lookup existing.id s.nodes ≡ some existing
      → note_conflict existing incoming s ≡ ok s'
      → Change s s'
  unfolding note_conflict
  note_conflict-Change existing incoming s s' e h =
      let (items, q, r) =
        >>=-eq-ok (conflict_items (get_field "result_conflicts" existing.meta)) _ h in
      subst (Change s) (ok_injective _ _ r) (
        annotated existing.id existing
          (set_field "result_conflicts" (arr (append_item items (conflict_entry incoming)))
            existing.meta)
          e)

  handle_existing-Change :
      (existing incoming : Node) (s s' : MemoryStore)
      → lookup existing.id s.nodes ≡ some existing
      → handle_existing existing incoming s ≡ ok s'
      → Change s s'
  unfolding handle_existing
  handle_existing-Change existing incoming s s' e h =
      elim (Bool-cases (same_identity existing incoming)) [
        | inr other ↦ absurd (cc (rw other at h))
        | inl same ↦
            elim (Bool-cases (
              not (is_some incoming.result_text)
              || optional_text_eq incoming.result_text existing.result_text)) [
                | inl agrees ↦
                    subst (Change s) (ok_injective _ _ (rw (same, agrees) at h)) unchanged
                | inr differs ↦
                    note_conflict-Change existing incoming s s' e (rw (same, differs) at h)
              ]
      ]

  parent_known :
      (parent : Option String) (nodes : Dict String Node)
      → parent_check parent nodes ≡ ok tt
      → parent_stored nodes parent ≡ true
  parent_known none nodes h = refl
  parent_known (some p) nodes h = ground arith

  pub put-Change : (node : Node) (s s' : MemoryStore) → IsValid s → put node s ≡ ok s' → Change s s'
  unfolding put
  put-Change node s s' v h =
      let (_, good, h₁) = >>=-eq-ok (validate_for_put node) _ h in
      let (_, known, h₂) = >>=-eq-ok (parent_check node.parent s.nodes) _ h₁ in
      elim (Option-cases (lookup node.id s.nodes)) [
        | inl fresh ↦
            subst (Change s) (ok_injective _ _ (rw fresh at h₂))
              (added node fresh good (parent_known node.parent s.nodes known))
        | inr (n, e) ↦
            let own : n.id ≡ node.id = (v.rows node.id n e).own_id in
            handle_existing-Change n node s s' (subst (λ x. lookup x s.nodes ≡ some n) (sym own) e)
              (rw e at h₂)
      ]

  pub update_meta-Change :
      (id : String) (patch : Fields) (s s' : MemoryStore)
      → update_meta id patch s ≡ ok s'
      → Change s s'
  unfolding update_meta
  update_meta-Change id patch s s' h = elim (Option-cases (lookup id s.nodes)) [
    | inl gone ↦ absurd (cc (rw gone at h))
    | inr (n, e) ↦
        subst (Change s) (ok_injective _ _ (rw e at h))
          (annotated id n (merge_fields n.meta patch) e)
  ]
