-- ===== src/Transactional.antt =====
-- src/pollard/stores/_transactional.py: the node store over the transactions of a key-value store. The
-- bucket of nodes holds a node for the text that encodes it, so decoding does not fail.
pub mod Agrees
pub mod Repeat
pub mod Children
use pollard.Common.{
  ℕ, zero, suc, String, Bool, true, false, not, ◌&&◌, ◌||◌, List, [], ◌∷◌, ◌++◌, Option, none, some,
  ◌==◌, string_eq, is_some, if◌then◌else◌, keep_if, map,
}
use pollard.Common.Dict.{Dict, lookup, contains, insert, remove, values}
use pollard.Common.Sort.{sorted}
use pollard.Errors.{Error, Result, ok, err, key_error, integrity_error, id_collision, ◌>>=◌, ◌>>◌}
use pollard.Json.{
  Json, arr, Items, nil, cons, Fields, get_field, set_field, merge_fields, append_item,
}
use pollard.Json.Equality.{json_eq}
use pollard.Hashing.{Sha256}
use pollard.Tree.{Node, kind_text}
use pollard.Store.{
  optional_eq, optional_text_eq, same_identity, validate_for_put, conflict_items, conflict_entry,
  parent_check, or_key_error, pair_before,
}

-- The bucket of nodes.
abbrev pub Bucket : Type 0
Bucket = Dict String Node

-- `conflict in conflicts`
unfoldable pub item_in : Json → Items → Bool
item_in v nil = false
item_in v (cons x xs) = json_eq x v || item_in v xs

-- The conflict is noted behind those before, unless it is there.
abbrev pub note_once : Node → Node → Items → Bucket → Bucket
note_once existing incoming conflicts nodes =
    if item_in (conflict_entry incoming) conflicts
    then nodes
    else insert incoming.id
        (record existing {
          meta =
              set_field "result_conflicts" (arr (append_item conflicts (conflict_entry incoming)))
                existing.meta;
        })
        nodes

unfoldable pub tx_existing : Node → Node → Bucket → Result Bucket
tx_existing existing incoming nodes =
    if not (same_identity existing incoming)
    then err (integrity_error id_collision)
    else if not (is_some incoming.result_text)
        || optional_text_eq incoming.result_text existing.result_text
    then ok nodes
    else (do
      conflicts ← conflict_items (get_field "result_conflicts" existing.meta)
      ok (note_once existing incoming conflicts nodes))

abbrev pub tx_put_at : Option Node → Node → Bucket → Result Bucket
tx_put_at none node nodes = ok (insert node.id node nodes)
tx_put_at (some existing) node nodes = tx_existing existing node nodes

module _ ⦃h : Sha256⦄ where
  unfoldable pub tx_put : Node → Bucket → Result Bucket
  tx_put node nodes = do
    validate_for_put node
    parent_check node.parent nodes
    tx_put_at (lookup node.id nodes) node nodes

unfoldable pub tx_get : Bucket → String → Result Node
tx_get nodes id = or_key_error id (lookup id nodes)

unfoldable pub tx_exists : Bucket → String → Bool
tx_exists nodes id = contains id nodes

unfoldable pub tx_update_meta : String → Fields → Bucket → Result Bucket
unfolding tx_get
tx_update_meta id patch nodes = do
  n ← tx_get nodes id
  ok (insert id (record n { meta = merge_fields n.meta patch }) nodes)

-- The sort key `(kind, id)`.
abbrev pub node_before : Node → Node → Bool
node_before a b = pair_before (kind_text a.kind, a.id) (kind_text b.kind, b.id)

abbrev pub has_parent : String → Node → Bool
has_parent id node = optional_eq node.parent (some id)

abbrev pub node_ids : List Node → List String
node_ids = map (λ (n : Node). n.id)

unfoldable pub tx_children : Bucket → String → List String
tx_children nodes id = node_ids (sorted node_before (keep_if (has_parent id) (values nodes)))

-- `walk`: the loop over the stack `pending`, whose top is the head of the list here. `none` says that
-- the fuel ran out.
unfoldable pub tx_walk_loop : ℕ → Bucket → List String → Option (Result (List Node))
tx_walk_loop zero nodes pending = none
tx_walk_loop (suc fuel) nodes [] = some (ok [])
tx_walk_loop (suc fuel) nodes (id ∷ pending) = elim (lookup id nodes) [
  | none ↦ some (err (key_error id))
  | some node ↦ elim (tx_walk_loop fuel nodes (tx_children nodes id ++ pending)) [
    | none ↦ none
    | some (err e) ↦ some (err e)
    | some (ok out) ↦ some (ok (node ∷ out))
  ]
]

-- `_pollard_drop_nodes`
unfoldable pub tx_drop_nodes : List String → Bucket → Bucket
tx_drop_nodes [] nodes = nodes
tx_drop_nodes (id ∷ ids) nodes = tx_drop_nodes ids (remove id nodes)
