-- ===== src/Tests/Verify.antt =====
-- Examples of verification.
use pollard.Common.{◌≡◌, ◌↔◌, refl, List, [], ◌∷◌, some}
use pollard.Json.Canonical.{canonical_bytes, validate_identity_value}
use pollard.Json.Text.{dumps}
use pollard.Hashing.{node_id, result_digest_from_text}
use pollard.Tree.{expected_id}
use pollard.Store.{MemoryStore, empty, put, validate_for_put, digest_check}
use pollard.Store.Append.{write, run_writes}
use pollard.Verify.{Finding, verify, verify_loop, node_findings, wrong_id, cycle}
use pollard.Verify.Total.{verify_total}
use pollard.Verify.Chain.{Chain, verify_exact}
use pollard.Verify.Stored.{run_writes-verify}
use pollard.Tests.{checksum_sha, call_node}
use pollard.Tests.Store.{first_store, first_writes}

run_writes-verify_example : verify (run_writes first_writes empty) call_node.id ≡ some []
unfolding run_writes write put validate_for_put digest_check expected_id node_id canonical_bytes
    validate_identity_value dumps result_digest_from_text
run_writes-verify_example = run_writes-verify first_writes call_node.id refl

verify_exact_example :
    (verify first_store call_node.id ≡ some []) ↔ Chain first_store [] (some call_node.id)
verify_exact_example = verify_exact first_store call_node.id

-- A corrupted store: a node that is its own parent.
abbrev looped : MemoryStore
looped = record {
  nodes = (call_node.id, record call_node { parent = some call_node.id }) ∷ [];
  child_ids = [];
}

verify_total_example : (fs : List Finding) × (verify looped call_node.id ≡ some fs)
verify_total_example = verify_total looped call_node.id

looped_found :
    verify looped call_node.id ≡ some ((call_node.id, wrong_id) ∷ (call_node.id, cycle) ∷ [])
unfolding verify verify_loop node_findings expected_id node_id canonical_bytes
    validate_identity_value dumps result_digest_from_text
looped_found = refl
