-- ===== src/Tests/Replay.antt =====
-- Examples of replaying: the call of Tests is recorded under its root, and answered from there.
use pollard.Common.{◌≡◌, refl, true, false, [], ◌∷◌, some, is_some}
use pollard.Errors.{ok, err, duplicate_recording}
use pollard.Json.{null, int, end}
use pollard.Common.Int.{pos}
use pollard.Json.Canonical.{canonical_bytes, validate_identity_value}
use pollard.Json.Text.{dumps}
use pollard.Hashing.{node_id, result_digest_from_text}
use pollard.Tree.{model_call, Node, make, expected_id}
use pollard.Store.{MemoryStore, empty, get, put, store_new, validate_for_put, digest_check}
use pollard.Store.Valid.{IsValid, empty-IsValid}
use pollard.Store.Append.{put_node, write, run_writes, run_writes-IsValid}
use pollard.Store.Order.{IsOrdered, empty-IsOrdered, run_writes-IsOrdered}
use pollard.Verify.Chain.{Chain}
use pollard.Replay.{record_mode, hybrid_mode, replay_mode, recorded_node_or_missing}
use pollard.Replay.Recorded.{replay_verified, record_replay}
use pollard.Tests.{checksum_sha, prompt, root_node, call_node, call_made}

abbrev pub root_store : MemoryStore
root_store = store_new root_node empty

abbrev pub call_store : MemoryStore
call_store = store_new call_node root_store

root_store-IsValid : IsValid root_store
unfolding run_writes write put validate_for_put digest_check expected_id node_id canonical_bytes
    validate_identity_value dumps
root_store-IsValid = run_writes-IsValid (put_node root_node ∷ []) empty empty-IsValid

root_store-IsOrdered : IsOrdered root_store
unfolding run_writes write put validate_for_put digest_check expected_id node_id canonical_bytes
    validate_identity_value dumps
root_store-IsOrdered =
    run_writes-IsOrdered (put_node root_node ∷ []) empty empty-IsValid empty-IsOrdered

call_put : put call_node root_store ≡ ok call_store
unfolding put validate_for_put digest_check expected_id node_id canonical_bytes
    validate_identity_value dumps result_digest_from_text
call_put = refl

record_replay_example :
    (recorded_node_or_missing replay_mode call_store model_call root_node.id prompt 0 false
      ≡ ok (some call_node))
    × (recorded_node_or_missing hybrid_mode call_store model_call root_node.id prompt 0 false
        ≡ ok (some call_node))
    × (recorded_node_or_missing record_mode call_store model_call root_node.id prompt 0 true
        ≡ err (duplicate_recording call_node.id))
record_replay_example =
    record_replay model_call root_node.id prompt 0 (int (pos 2)) end call_node root_store call_store
      refl call_made refl call_put root_store-IsValid root_store-IsOrdered false

-- What replaying answers.
call_answered :
    recorded_node_or_missing replay_mode call_store model_call root_node.id prompt 0 false
    ≡ ok (some call_node)
call_answered =
    (record_replay model_call root_node.id prompt 0 (int (pos 2)) end call_node root_store
      call_store refl call_made refl call_put root_store-IsValid root_store-IsOrdered false).0

replay_verified_example :
    (candidate : Node) × (node : Node) × (make model_call (some root_node.id) prompt 0 null end
      ≡ ok candidate)
    × (some call_node ≡ some node)
    × (get call_store candidate.id ≡ ok node)
    × (is_some node.result_text ≡ true)
    × Chain call_store [] (some node.id)
replay_verified_example =
    replay_verified call_store model_call root_node.id prompt 0 false (some call_node) call_answered
