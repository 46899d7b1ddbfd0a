-- ===== src/Tests/Merge.antt =====
-- Examples of merging: a tool call is copied, a second result is a conflict.
use pollard.Common.{
  ◌+◌, length, String, ◌≡◌, refl, true, false, List, [], ◌∷◌, some, All, string_eq,
}
use pollard.Common.Dict.{lookup, contains}
use pollard.Errors.{ok, err, integrity_error, result_collision}
use pollard.Json.Canonical.{canonical_bytes, validate_identity_value}
use pollard.Json.Equality.{json_eq}
use pollard.Json.Text.{dumps}
use pollard.Hashing.{node_id, result_digest_from_text}
use pollard.Tree.{Node, expected_id}
use pollard.Store.{store_new, put, update_meta, get, validate_for_put, digest_check, same_identity}
use pollard.Store.Valid.{IsValid}
use pollard.Store.Append.{Keeps}
use pollard.Merge.{
  MergeReport, merge_prepared, merge_nodes, merge_round, no_counts, check_nodes, merge_meta,
  union_json_lists,
}
use pollard.Merge.Writes.{merge_prepared-Keeps, merge_nodes_complete}
use pollard.Tests.{checksum_sha, root_node, call_node, other_call, tool_node}
use pollard.Tests.Store.{first_store, first_store-IsValid}

abbrev incoming : List Node
incoming = root_node ∷ call_node ∷ tool_node ∷ []

abbrev one_copied : MergeReport
one_copied = record { copied = 1; existing = 2; result_conflicts = 0; meta_conflicts = 0 }

tool_copied :
    merge_nodes no_counts first_store incoming ≡ (store_new tool_node first_store, ok one_copied)
unfolding merge_nodes merge_round merge_meta union_json_lists put json_eq validate_for_put
    digest_check expected_id node_id canonical_bytes validate_identity_value dumps
    result_digest_from_text
tool_copied = refl

merge_nodes_complete_example :
    All (λ (n : Node). contains n.id (store_new tool_node first_store).nodes ≡ true) incoming
    × (one_copied.copied + one_copied.existing
        ≡ no_counts.copied + no_counts.existing + length incoming)
merge_nodes_complete_example =
    merge_nodes_complete no_counts one_copied first_store (store_new tool_node first_store) incoming
      first_store-IsValid tool_copied

merge_prepared-Keeps_example :
    IsValid ((merge_prepared false first_store (other_call ∷ [])).0)
    × ((id : String) (n : Node)
        → lookup id first_store.nodes ≡ some n
        → Keeps n (lookup id ((merge_prepared false first_store (other_call ∷ [])).0).nodes))
merge_prepared-Keeps_example =
    merge_prepared-Keeps false first_store (other_call ∷ []) first_store-IsValid

-- A second result is one conflict, and is refused when replays are merged.
other_merged :
    ((merge_prepared false first_store (other_call ∷ [])).1
      ≡ ok (record { copied = 0; existing = 1; result_conflicts = 1; meta_conflicts = 0 }))
    × (merge_prepared true first_store (other_call ∷ [])
        ≡ (first_store, err (integrity_error result_collision)))
unfolding merge_prepared check_nodes merge_nodes merge_round merge_meta union_json_lists update_meta
    get same_identity json_eq dumps pollard.Tree.kind_text
other_merged = (refl, refl)
