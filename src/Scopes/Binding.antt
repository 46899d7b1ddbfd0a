-- ===== src/Scopes/Binding.antt =====
-- `_bind_configuration` of src/pollard/scopes.py, for workers that bind one name.
use mathlib.Core.Path.{subst}
use pollard.Common.{
  String, ◌≡◌, refl, ap, sym, ◌∙◌, true, arith, Bool-cases, inl, inr, if◌then◌else◌,
}
use pollard.Errors.{Result, ok, err, integrity_error, scope_mismatch, ◌>>=◌, >>=-eq-ok}
use pollard.Hashing.{Sha256}
use pollard.Tree.{Node}
use pollard.Store.{MemoryStore, exists, get, put, optional_eq}
use pollard.Verify.{verify_ok}
use pollard.Replay.{ReplayMode, is_replay, replay_node_or_missing, verify_recording}
use pollard.Scopes.{check_configuration, after_put, bind_configuration}

module _ ⦃h : Sha256⦄ where
  -- The node is stored under the expected id, and verifies.
  abbrev Bound : MemoryStore → Node → Node → Type 0
  Bound s expected a =
      (exists s expected.id ≡ true) × (get s expected.id ≡ ok a) × (verify_ok s a.id ≡ true)

  check-eq-ok :
      (s : MemoryStore) (expected actual a : Node)
      → check_configuration s expected actual ≡ ok a
      → (actual ≡ a) × (verify_ok s actual.id ≡ true)
  unfolding check_configuration
  check-eq-ok s expected actual a e = ground arith

  exists-of_get : (s : MemoryStore) (id : String) (n : Node) → get s id ≡ ok n → exists s id ≡ true
  unfolding exists get
  exists-of_get s id n e = ground arith

  stored-Bound :
      (s : MemoryStore) (expected a : Node)
      → (get s expected.id >>= check_configuration s expected) ≡ ok a
      → Bound s expected a
  stored-Bound s expected a e =
      let (n, found, good) = >>=-eq-ok (get s expected.id) (check_configuration s expected) e in
      let (same, verified) = check-eq-ok s expected n a good in
      (
        exists-of_get s expected.id n found,
        found ∙ ap ok same,
        subst (λ (m : Node). verify_ok s m.id ≡ true) same verified,
      )

  after_put-Bound :
      (s s' : MemoryStore) (expected a : Node) (r : Result MemoryStore)
      → after_put s expected r ≡ (s', ok a)
      → Bound s' expected a
  after_put-Bound s s' expected a (err x) e =
      absurd (cc (ap (λ (p : MemoryStore × Result Node). p.1) e))
  after_put-Bound s s' expected a (ok t) e =
      subst (λ (u : MemoryStore). Bound u expected a)
        (ap (λ (p : MemoryStore × Result Node). p.0) e)
        (stored-Bound t expected a (ap (λ (p : MemoryStore × Result Node). p.1) e))

  replayed-Bound :
      (s : MemoryStore) (expected a : Node)
      → (replay_node_or_missing s expected >>= check_configuration s expected) ≡ ok a
      → Bound s expected a
  unfolding replay_node_or_missing
  replayed-Bound s expected a e = elim (Bool-cases (exists s expected.id)) [
    | inr gone ↦ absurd (cc (rw gone at e))
    | inl there ↦
        let (m, q, good) =
          >>=-eq-ok (replay_node_or_missing s expected) (check_configuration s expected) e in
        let (n, found, r) = >>=-eq-ok (get s expected.id) _ (rw there at q) in
        let (_, _, kept) = >>=-eq-ok (verify_recording s n.id) _ r in
        let (same, verified) = check-eq-ok s expected m a good in
        (
          there,
          found ∙ kept ∙ ap ok same,
          subst (λ (x : Node). verify_ok s x.id ≡ true) same verified,
        )
  ]

  bind-Bound :
      (mode : ReplayMode) (s s' : MemoryStore) (expected a : Node)
      → bind_configuration mode s expected ≡ (s', ok a)
      → Bound s' expected a
  unfolding bind_configuration
  bind-Bound mode s s' expected a e = elim (Bool-cases (is_replay mode)) [
    | inl replaying ↦
        let e' = rw replaying at e in
        subst (λ (u : MemoryStore). Bound u expected a)
          (ap (λ (p : MemoryStore × Result Node). p.0) e')
          (replayed-Bound s expected a (ap (λ (p : MemoryStore × Result Node). p.1) e'))
    | inr recording ↦ elim (Bool-cases (exists s expected.id)) [
      | inl there ↦
          let e' = rw there at (rw recording at e) in
          subst (λ (u : MemoryStore). Bound u expected a)
            (ap (λ (p : MemoryStore × Result Node). p.0) e')
            (stored-Bound s expected a (ap (λ (p : MemoryStore × Result Node). p.1) e'))
      | inr new ↦ after_put-Bound s s' expected a (put expected s) (rw new at (rw recording at e))
    ]
  ]

  replayed_again :
      (s : MemoryStore) (other a : Node) → Bound s other a → replay_node_or_missing s other ≡ ok a
  unfolding replay_node_or_missing verify_recording
  replayed_again s other a (there, back, verified) = rw there (rw back (rw verified refl))

  checked_again :
      (s : MemoryStore) (other a : Node)
      → verify_ok s a.id ≡ true
      → check_configuration s other a ≡ (
          if optional_eq a.result_digest other.result_digest
          then ok a
          else err (integrity_error scope_mismatch))
  unfolding check_configuration
  checked_again s other a verified =
      rw verified (elim (Bool-cases (optional_eq a.result_digest other.result_digest)) [
        | inl equal ↦ rw equal refl
        | inr differs ↦ rw differs refl
      ])

  bind_again :
      (later : ReplayMode) (s : MemoryStore) (other a : Node)
      → Bound s other a
      → bind_configuration later s other ≡ (s, check_configuration s other a)
  unfolding bind_configuration
  bind_again later s other a (there, back, verified) = elim (Bool-cases (is_replay later)) [
    | inl replaying ↦ rw replaying (rw (replayed_again s other a (there, back, verified)) refl)
    | inr recording ↦ rw recording (rw there (rw back refl))
  ]

  -- The first binding of a scope fixes it: once a worker has bound it, whoever binds the same id, in
  -- whatever mode, writes nothing, and gets the node that the first worker got if their results agree,
  -- and an error if they do not.
  pub bind_configuration-fixes :
      (mode later : ReplayMode) (s s' : MemoryStore) (expected other a : Node)
      → bind_configuration mode s expected ≡ (s', ok a)
      → other.id ≡ expected.id
      → bind_configuration later s' other ≡ (
        s',
        if optional_eq a.result_digest other.result_digest
            then ok a
            else err (integrity_error scope_mismatch),
      )
  bind_configuration-fixes mode later s s' expected other a e same =
      let (there, back, verified) = bind-Bound mode s s' expected a e in
      let bound : Bound s' other a = (
        subst (λ x. exists s' x ≡ true) (sym same) there,
        subst (λ x. get s' x ≡ ok a) (sym same) back,
        verified,
      ) in
      bind_again later s' other a bound ∙ ap (λ r. (s', r)) (checked_again s' other a verified)
