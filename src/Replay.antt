-- ===== src/Replay.antt =====
-- src/pollard/replay.py: whether a call is answered from its recording. The texts of the errors,
-- with the summary of the payload, are left out.
pub mod Recorded
use pollard.Common.{
  ℕ, String, Bool, true, false, not, ◌&&◌, ◌||◌, Option, none, some, is_some, if◌then◌else◌,
}
use pollard.Errors.{
  Error, Result, ok, err, integrity_error, recording_failed, missing_recording, duplicate_recording,
  raise_if, ◌>>=◌, ◌>>◌,
}
use pollard.Json.{Json, null, Fields, end}
use pollard.Hashing.{Sha256}
use pollard.Tree.{NodeKind, Node, make}
use pollard.Store.{MemoryStore, exists, get}
use pollard.Verify.{verify_ok}

pub data ReplayMode : Type 0 where
  record_mode hybrid_mode replay_mode : ReplayMode

abbrev pub is_record : ReplayMode → Bool
is_record record_mode = true
is_record _ = false

abbrev pub is_replay : ReplayMode → Bool
is_replay replay_mode = true
is_replay _ = false

-- No recording answers the call: an error when replaying, and else the call is made.
abbrev pub missing : ReplayMode → Node → Result (Option Node)
missing mode candidate = if is_replay mode then err (missing_recording candidate.id) else ok none

module _ ⦃h : Sha256⦄ where
  -- `_verify_recording`
  unfoldable pub verify_recording : MemoryStore → String → Result (Unit {0})
  verify_recording s id = raise_if (not (verify_ok s id)) (integrity_error recording_failed)

  -- A stored node with a result answers the call; when replaying, only if it verifies.
  abbrev pub stored_recording : ReplayMode → MemoryStore → Node → Node → Result (Option Node)
  stored_recording mode s candidate node =
      if not (is_some node.result_text)
      then missing mode candidate
      else (if is_replay mode then verify_recording s node.id else ok tt) >> ok (some node)

  abbrev pub recorded_at : ReplayMode → MemoryStore → Node → Result (Option Node)
  recorded_at record_mode s candidate =
      if exists s candidate.id then err (duplicate_recording candidate.id) else ok none
  recorded_at mode s candidate =
      if not (exists s candidate.id)
      then missing mode candidate
      else get s candidate.id >>= stored_recording mode s candidate

  unfoldable pub recorded_node_or_missing :
      ReplayMode → MemoryStore → NodeKind → String → Fields → ℕ → Bool → Result (Option Node)
  unfolding verify_recording
  recorded_node_or_missing mode s kind parent_id payload attempt refuse_duplicates =
      if is_record mode && not refuse_duplicates
      then ok none
      else make kind (some parent_id) payload attempt null end >>= recorded_at mode s

  unfoldable pub replay_node_or_missing : MemoryStore → Node → Result Node
  unfolding verify_recording
  replay_node_or_missing s candidate =
      if not (exists s candidate.id)
      then err (missing_recording candidate.id)
      else (do node ← get s candidate.id; verify_recording s node.id; ok node)
