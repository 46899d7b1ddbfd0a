-- ===== src/Replay/Recorded.antt =====
-- `recorded_node_or_missing` of src/pollard/replay.py on stores that hold a recording.
use mathlib.Core.Path.{subst}
use pollard.Common.{
  ℕ, String, ◌≡◌, refl, ap, ◌∙◌, Bool, true, false, List, [], ◌∷◌, Option, none, some, arith,
  string_eq, eq_refl, is_some, Bool-cases, inl, inr,
}
use pollard.Common.Dict.{lookup}
use pollard.Errors.{ok, err, duplicate_recording, >>=-eq-ok}
use pollard.Json.{Json, null, Fields, end, is_null}
use pollard.Hashing.{Sha256}
use pollard.Tree.{NodeKind, Node, make}
use pollard.Tree.Make.{make-candidate}
use pollard.Store.{MemoryStore, exists, get, put}
use pollard.Store.Valid.{IsValid}
use pollard.Store.Append.{put_node, write, run_writes, run_writes-IsValid}
use pollard.Store.Order.{IsOrdered, run_writes-IsOrdered}
use pollard.Store.Put.{get-put}
use pollard.Store.Walk.{row-of_get}
use pollard.Verify.{verify_ok, report_ok, Finding}
use pollard.Verify.Chain.{Chain, verify_exact}
use pollard.Verify.Total.{verify_total}
use pollard.Verify.Stored.{stored_verifies}
use pollard.Replay.{
  record_mode, hybrid_mode, replay_mode, recorded_node_or_missing, recorded_at, stored_recording,
  verify_recording,
}

module _ ⦃h : Sha256⦄ where
  verify_ok-Chain : (s : MemoryStore) (id : String) → verify_ok s id ≡ true → Chain s [] (some id)
  unfolding verify_ok
  verify_ok-Chain s id e =
      let (fs, q) = verify_total s id in
      (verify_exact s id).0 (q ∙ ap some (no_findings fs (rw (verify_ok, q) at e)))
    where
      no_findings : (fs : List Finding) → report_ok fs ≡ true → fs ≡ []
      no_findings [] e = refl
      no_findings (f ∷ fs) e = absurd (cc)

  stored_recording-eq-ok :
      (s : MemoryStore) (candidate node : Node) (r : Option Node)
      → stored_recording replay_mode s candidate node ≡ ok r
      → (r ≡ some node) × (is_some node.result_text ≡ true) × (verify_ok s node.id ≡ true)
  unfolding verify_recording
  stored_recording-eq-ok s candidate node r e = ground arith

  -- When replaying, a call is never made: if it is answered, then by the node that is stored under
  -- the call's own id, which has a result, and whose ancestors are intact up to a root.
  pub replay_verified :
      (s : MemoryStore) (kind : NodeKind) (parent_id : String) (payload : Fields) (attempt : ℕ)
      (refuse : Bool) (r : Option Node)
      → recorded_node_or_missing replay_mode s kind parent_id payload attempt refuse ≡ ok r
      → (candidate : Node) × (node : Node) × (make kind (some parent_id) payload attempt null end
          ≡ ok candidate)
        × (r ≡ some node)
        × (get s candidate.id ≡ ok node)
        × (is_some node.result_text ≡ true)
        × Chain s [] (some node.id)
  unfolding recorded_node_or_missing
  replay_verified s kind parent_id payload attempt refuse r e =
      let (candidate, made, e₁) =
        >>=-eq-ok (make kind (some parent_id) payload attempt null end) (recorded_at replay_mode s)
          e in
      elim (Bool-cases (exists s candidate.id)) [
        | inr gone ↦ absurd (cc (rw gone at e₁))
        | inl there ↦
            let (node, found, e₂) =
              >>=-eq-ok (get s candidate.id) (stored_recording replay_mode s candidate)
                (rw there at e₁) in
            let (same, live, good) = stored_recording-eq-ok s candidate node r e₂ in
            (candidate, node, made, same, found, live, verify_ok-Chain s node.id good)
      ]

  module _ (kind : NodeKind) (parent_id : String) (payload : Fields) (attempt : ℕ) (result : Json)
      (meta : Fields) (n : Node) (s s' : MemoryStore) (live : is_null result ≡ false)
      (made : make kind (some parent_id) payload attempt result meta ≡ ok n)
      (fresh : lookup n.id s.nodes ≡ none) (stored : put n s ≡ ok s') where
    found_back : get s' n.id ≡ ok n
    found_back = get-put n s s' n.id fresh stored ∙ (rw (eq_refl n.id) refl)

    there_now : exists s' n.id ≡ true
    unfolding exists
    there_now = ground (arith, row-of_get s' n.id n found_back)

    recorded : IsValid s → IsOrdered s → verify_ok s' n.id ≡ true
    unfolding run_writes write verify_ok exists
    recorded v o =
        let kept : run_writes (put_node n ∷ []) s ≡ s' = rw stored refl in
        rw
          (
            verify_ok,
            stored_verifies s' (subst IsValid kept (run_writes-IsValid (put_node n ∷ []) s v))
                (subst IsOrdered kept (run_writes-IsOrdered (put_node n ∷ []) s v o)) n.id
                there_now,
          )
          refl

    -- A call that was recorded under a new id, in a valid store whose rows are in order, is answered
    -- by that very node when replaying and in hybrid mode; recording it again is refused where
    -- duplicates are.
    pub record_replay :
        IsValid s
        → IsOrdered s
        → (refuse : Bool)
        → (recorded_node_or_missing replay_mode s' kind parent_id payload attempt refuse
            ≡ ok (some n))
          × (recorded_node_or_missing hybrid_mode s' kind parent_id payload attempt refuse
              ≡ ok (some n))
          × (recorded_node_or_missing record_mode s' kind parent_id payload attempt true
              ≡ err (duplicate_recording n.id))
    unfolding recorded_node_or_missing verify_recording
    record_replay v o refuse =
        let (id, built, candidate) =
          make-candidate kind (some parent_id) payload attempt result meta n live made in
        let own : n.id ≡ id = ap (λ (m : Node). m.id) built in
        let there : exists s' id ≡ true = subst (λ x. exists s' x ≡ true) own there_now in
        let back : get s' id ≡ ok n = subst (λ x. get s' x ≡ ok n) own found_back in
        let text : is_some n.result_text ≡ true = ap (λ (m : Node). is_some m.result_text) built in
        (
          rw candidate (rw there (rw back (rw text (rw (recorded v o) refl)))),
          rw candidate (rw there (rw back (rw text refl))),
          rw candidate (rw there (rw own refl)),
        )
