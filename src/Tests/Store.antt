-- ===== src/Tests/Store.antt =====
-- Examples of the store: a call under a root, a second result of it, and a tool call below.
use pollard.Common.{
  ℕ, ◌<◌, length, true, false, ◌≡◌, ◌↔◌, ◌⊎◌, refl, List, [], ◌∷◌, some, if◌then◌else◌, ◌==◌,
  string_eq,
}
use pollard.Common.Dict.{lookup, insert}
use pollard.Errors.{ok}
use pollard.Json.{Items, nil, str, field, end, get_field}
use pollard.Json.Canonical.{canonical_bytes, validate_identity_value}
use pollard.Json.Equality.{json_eq, int_float_beq}
use pollard.Json.Text.{dumps, codes, int_text}
use pollard.Hashing.{node_id, result_digest_from_text}
use pollard.Tree.{Node, expected_id}
use pollard.Store.{
  validate_for_put, digest_check, handle_existing, note_conflict, MemoryStore, empty, put, get,
  store_new, children, walk_loop, member, same_identity, conflict_items,
}
use pollard.Store.Valid.{IsValid, empty-IsValid}
use pollard.Store.Append.{
  Write, write, put_node, patch_meta, Keeps, run_writes, run_writes-IsValid, run_writes-Keeps,
}
use pollard.Store.Order.{IsOrdered, empty-IsOrdered, run_writes-IsOrdered}
use pollard.Store.Put.{differs, with_conflict, get-put, put_occupied}
use pollard.Store.Children.{IsListing, children_exact}
use pollard.Store.Walk.{Walks, Descends, ids_out, walk_total, walk_subtree}
use pollard.Common.{Bool-cases, inl, inr, String, none}
use pollard.Json.{cons, int, float}
use pollard.Common.Int.{pos}
use pollard.Store.{conflict_entry, drop_nodes}
use pollard.Store.Table.{IsTable}
use pollard.Store.Drop.{DropsSubtrees, run_writes-IsTable, drop_nodes-IsValid}
use pollard.Tests.{checksum_sha, root_node, call_node, other_call, tool_node}

abbrev pub first_writes : List Write
first_writes = put_node root_node ∷ put_node call_node ∷ []

-- A second result, a child, a child of a node that is not there, and a patch.
abbrev pub more_writes : List Write
more_writes =
    put_node other_call
    ∷ put_node tool_node
    ∷ put_node (record tool_node { parent = some "gone" })
    ∷ patch_meta call_node.id (field "label" (str "first") end)
    ∷ []

abbrev pub first_store : MemoryStore
first_store = store_new call_node (store_new root_node empty)

pub first_store-IsValid : IsValid first_store
unfolding put validate_for_put digest_check expected_id node_id canonical_bytes
    validate_identity_value dumps result_digest_from_text run_writes write
first_store-IsValid = run_writes-IsValid first_writes empty empty-IsValid

pub first_store-IsOrdered : IsOrdered first_store
unfolding put validate_for_put digest_check expected_id node_id canonical_bytes
    validate_identity_value dumps result_digest_from_text run_writes write
first_store-IsOrdered = run_writes-IsOrdered first_writes empty empty-IsValid empty-IsOrdered

run_writes-IsValid_example : IsValid (run_writes more_writes first_store)
run_writes-IsValid_example = run_writes-IsValid more_writes first_store first_store-IsValid

run_writes-IsOrdered_example : IsOrdered (run_writes more_writes first_store)
run_writes-IsOrdered_example =
    run_writes-IsOrdered more_writes first_store first_store-IsValid first_store-IsOrdered

run_writes-Keeps_example :
    Keeps call_node (lookup call_node.id (run_writes more_writes first_store).nodes)
run_writes-Keeps_example =
    run_writes-Keeps more_writes first_store call_node.id call_node first_store-IsValid refl

abbrev noted : MemoryStore
noted = record first_store {
  nodes = insert call_node.id (with_conflict nil other_call call_node) first_store.nodes;
}

put-noted : put other_call first_store ≡ ok noted
unfolding put validate_for_put digest_check expected_id node_id canonical_bytes
    validate_identity_value dumps result_digest_from_text handle_existing same_identity json_eq
    note_conflict
put-noted = refl

put_occupied_example :
    (same_identity call_node other_call ≡ true)
    × ((differs call_node other_call ≡ false) × (noted ≡ first_store)
        ⊎ (differs call_node other_call ≡ true)
          × ((prior : Items) × (conflict_items (get_field "result_conflicts" call_node.meta)
                ≡ ok prior)
              × (get noted other_call.id ≡ ok (with_conflict prior other_call call_node))))
put_occupied_example =
    put_occupied other_call call_node first_store noted first_store-IsValid refl put-noted

put_tool : put tool_node first_store ≡ ok (store_new tool_node first_store)
unfolding put validate_for_put digest_check expected_id node_id canonical_bytes
    validate_identity_value dumps result_digest_from_text
put_tool = refl

get-put_example :
    get (store_new tool_node first_store) call_node.id
    ≡ (if tool_node.id == call_node.id then ok tool_node else get first_store call_node.id)
get-put_example =
    get-put tool_node first_store (store_new tool_node first_store) call_node.id refl put_tool

children_exact_example :
    (ids : List String) × (children first_store root_node.id ≡ ok ids)
    × IsListing first_store root_node.id ids
children_exact_example = children_exact first_store first_store-IsValid root_node.id

walk_total_example :
    (out : List Node) × Walks first_store (root_node.id ∷ []) out
    × ((fuel : ℕ)
        → length out < fuel
        → walk_loop fuel first_store (root_node.id ∷ []) ≡ some (ok out))
walk_total_example =
    walk_total first_store first_store-IsValid first_store-IsOrdered root_node.id refl

walk_subtree_example :
    (member call_node.id (ids_out (root_node ∷ call_node ∷ [])) ≡ true)
    ↔ Descends first_store root_node.id call_node.id
unfolding walk_loop
walk_subtree_example =
    walk_subtree first_store first_store-IsValid 3 root_node.id (root_node ∷ call_node ∷ [])
      call_node.id refl

-- The memory store notes the same second result again, when it is put again.
noted_twice :
    put other_call noted
    ≡ ok (record noted {
      nodes =
          insert call_node.id
            (with_conflict
              (cons (conflict_entry other_call) nil)
              other_call
              (with_conflict nil other_call call_node))
            noted.nodes;
    })
unfolding put validate_for_put digest_check expected_id node_id canonical_bytes
    validate_identity_value dumps result_digest_from_text handle_existing same_identity json_eq
    note_conflict
noted_twice = refl

first_store-IsTable : IsTable first_store.nodes
unfolding put validate_for_put digest_check expected_id node_id canonical_bytes
    validate_identity_value dumps result_digest_from_text run_writes write
first_store-IsTable =
    run_writes-IsTable first_writes empty empty-IsValid (record { unique = tt; own_ids = tt })

-- The call is dropped, which has no children.
drops_call : DropsSubtrees (call_node.id ∷ []) first_store
drops_call c p n e q m = elim (Bool-cases (root_node.id == c)) [
  | inl top ↦ absurd (cc (rw top at e, q))
  | inr other ↦ elim (Bool-cases (call_node.id == c)) [
    | inl call ↦ rw call refl
    | inr none_left ↦ absurd (cc (rw none_left at (rw other at e)))
  ]
]

drop_nodes-IsValid_example :
    IsValid (drop_nodes (call_node.id ∷ []) first_store)
    × ((id : String)
        → lookup id (drop_nodes (call_node.id ∷ []) first_store).nodes
          ≡ (if member id (call_node.id ∷ []) then none else lookup id first_store.nodes))
drop_nodes-IsValid_example =
    drop_nodes-IsValid (call_node.id ∷ []) first_store first_store-IsValid first_store-IsTable
      drops_call

equal_numbers : json_eq (int (pos 1)) (float (codes "1.0")) ≡ true
unfolding json_eq int_float_beq int_text
equal_numbers = refl

equal_zeros : json_eq (float (codes "0.0")) (float (codes "-0.0")) ≡ true
unfolding json_eq
equal_zeros = refl
