-- ===== src/Tests/Transactional.antt =====
-- Examples of the transactional store: the writes of Tests/Store on a bucket.
use pollard.Common.{◌≡◌, refl, [], ◌∷◌}
use pollard.Errors.{ok}
use pollard.Json.Canonical.{canonical_bytes, validate_identity_value}
use pollard.Json.Equality.{json_eq, Distinct}
use pollard.Json.Text.{dumps}
use pollard.Hashing.{node_id, result_digest_from_text}
use pollard.Tree.{expected_id}
use pollard.Store.{validate_for_put, digest_check, same_identity}
use pollard.Store.Append.{run_writes}
use pollard.Transactional.{Bucket, tx_put, tx_existing, item_in}
use pollard.Transactional.Agrees.{Agrees, tx_run_writes, tx_run_writes-Agrees}
use pollard.Transactional.Repeat.{noted, tx_put-tx_put}
use pollard.Json.{nil}
use pollard.Tests.{checksum_sha, root_node, call_node, other_call}
use pollard.Tests.Store.{more_writes, first_store, first_store-IsValid}

tx_run_writes-Agrees_example :
    Agrees
      ((run_writes more_writes first_store).nodes)
      (tx_run_writes more_writes first_store.nodes)
tx_run_writes-Agrees_example =
    tx_run_writes-Agrees more_writes first_store first_store.nodes first_store-IsValid (λ id. refl)

abbrev noted_bucket : Bucket
noted_bucket = (root_node.id, root_node) ∷ (call_node.id, noted nil call_node other_call) ∷ []

-- A second result of the call is noted.
other_noted : tx_put other_call first_store.nodes ≡ ok noted_bucket
unfolding tx_put tx_existing item_in same_identity json_eq validate_for_put digest_check expected_id
    node_id canonical_bytes validate_identity_value dumps result_digest_from_text
other_noted = refl

tx_put-tx_put_example : tx_put other_call noted_bucket ≡ ok noted_bucket
unfolding Distinct
tx_put-tx_put_example =
    tx_put-tx_put other_call first_store.nodes noted_bucket (refl, tt, tt) tt other_noted
