-- ===== src/Tests/Scopes.antt =====
-- Examples of bindings: the call of Tests stands for the configuration of a scope.
use pollard.Common.{◌≡◌, refl, if◌then◌else◌}
use pollard.Errors.{ok, err, integrity_error, scope_mismatch}
use pollard.Json.Canonical.{canonical_bytes, validate_identity_value}
use pollard.Json.Text.{dumps}
use pollard.Hashing.{node_id, result_digest_from_text}
use pollard.Tree.{expected_id}
use pollard.Store.{exists, get, put, validate_for_put, digest_check, optional_eq}
use pollard.Verify.{verify, verify_loop, verify_ok, node_findings}
use pollard.Replay.{record_mode, replay_mode}
use pollard.Scopes.{bind_configuration, check_configuration}
use pollard.Scopes.Binding.{bind_configuration-fixes}
use pollard.Tests.{checksum_sha, call_node, other_call}
use pollard.Tests.Replay.{root_store, call_store}

first_bound : bind_configuration record_mode root_store call_node ≡ (call_store, ok call_node)
unfolding bind_configuration check_configuration exists get put validate_for_put digest_check verify
    verify_loop verify_ok node_findings expected_id node_id canonical_bytes validate_identity_value
    dumps result_digest_from_text
first_bound = refl

-- A second worker with another result for the same id.
bind_configuration-fixes_example : bind_configuration replay_mode call_store other_call ≡ (
  call_store,
  if optional_eq call_node.result_digest other_call.result_digest
      then ok call_node
      else err (integrity_error scope_mismatch),
)
bind_configuration-fixes_example =
    bind_configuration-fixes record_mode replay_mode root_store call_store call_node other_call
      call_node first_bound refl
