-- ===== src/Scopes.antt =====
-- src/pollard/scopes.py: the configuration of a named scope, which its first binding fixes.
pub mod Binding
use pollard.Common.{
  String, Bool, true, false, not, ◌&&◌, ◌||◌, List, [], ◌∷◌, Option, none, some, ◌==◌, string_eq,
  if◌then◌else◌, is_some,
}
use pollard.Errors.{Error, Result, ok, err, integrity_error, scope_mismatch, raise_if, ◌>>=◌, ◌>>◌}
use pollard.Hashing.{Sha256}
use pollard.Tree.{Node}
use pollard.Store.{MemoryStore, exists, get, put, optional_eq}
use pollard.Verify.{verify_ok}
use pollard.Replay.{ReplayMode, is_replay, replay_node_or_missing}

module _ ⦃h : Sha256⦄ where
  -- What is stored must verify and have the expected result.
  unfoldable pub check_configuration : MemoryStore → Node → Node → Result Node
  check_configuration s expected actual =
      if not (verify_ok s actual.id)
        || not (optional_eq actual.result_digest expected.result_digest)
      then err (integrity_error scope_mismatch)
      else ok actual

  abbrev pub stored_configuration : MemoryStore → Node → MemoryStore × Result Node
  stored_configuration s expected = (s, get s expected.id >>= check_configuration s expected)

  abbrev pub after_put : MemoryStore → Node → Result MemoryStore → MemoryStore × Result Node
  after_put s expected (err e) = (s, err e)
  after_put s expected (ok s') = stored_configuration s' expected

  -- `_bind_configuration`: the store afterwards, and the stored node or the error.
  unfoldable pub bind_configuration : ReplayMode → MemoryStore → Node → MemoryStore × Result Node
  unfolding check_configuration
  bind_configuration mode s expected =
      if is_replay mode
      then (s, replay_node_or_missing s expected >>= check_configuration s expected)
      else if exists s expected.id
      then stored_configuration s expected
      else after_put s expected (put expected s)
