-- ===== src/Arbiter/Arrives.antt =====
-- What the two tries of `_pollard_settle` and `_pollard_release` in src/pollard/stores/_transactional.py
-- leave of a reservation that can be settled.
use pollard.Common.{
  ℕ, String, ◌≡◌, refl, ◌∙◌, ap, Bool, true, false, some, string_eq, if◌then◌else◌, Option-cases,
  inl, inr, arith,
}
use pollard.Common.Int.{ℤ}
use pollard.Common.Dict.{Dict, lookup}
use pollard.Errors.{ok}
use pollard.Hashing.{Sha256}
use pollard.Arbiter.{State, active, settled, released, Kv}
use pollard.Arbiter.Operations.{release}
use pollard.Arbiter.Settleable.{Settleable, state_of, state_in, settle_total, release_total}
use pollard.Arbiter.Delivery.{
  Attempt, answered, lost_request, lost_answer, pollard_settle, pollard_release, retrying,
  settle_again,
}

-- Is the transaction carried out at all?
abbrev pub arrives : Attempt → Attempt → Bool
arrives lost_request lost_request = false
arrives _ _ = true

-- The state that the tries leave, of a reservation that was held.
abbrev pub left_in : Attempt → Attempt → State → State
left_in first second state = if arrives first second then state else active

held_still : (id : String) (kv : Kv) → Settleable id kv → state_of id kv ≡ some active
held_still id kv s = ap state_in s.found ∙ ap some s.open_state

module _ ⦃h : Sha256⦄ (id : String) (charges : Dict String ℤ) (now later : ℕ) (kv : Kv) where
  pub settle-arrives :
      (first second : Attempt)
      → Settleable id kv
      → state_of id (pollard_settle first second id charges now later kv).1
        ≡ some (left_in first second settled)
  unfolding pollard_settle retrying
  settle-arrives answered second s =
      let (kv', done, state) = settle_total id charges now kv s in rw done state
  settle-arrives lost_request answered s =
      let (kv', done, state) = settle_total id charges later kv s in rw done state
  settle-arrives lost_request lost_answer s =
      let (kv', done, state) = settle_total id charges later kv s in rw done state
  settle-arrives lost_request lost_request s = held_still id kv s
  settle-arrives lost_answer lost_request s =
      let (kv', done, state) = settle_total id charges now kv s in rw done state
  settle-arrives lost_answer answered s =
      let (kv', done, state) = settle_total id charges now kv s in
      let again = settle_again id charges now later s.held kv kv' s.found s.open_state done in
      rw done (rw again state)
  settle-arrives lost_answer lost_answer s =
      let (kv', done, state) = settle_total id charges now kv s in
      let again = settle_again id charges now later s.held kv kv' s.found s.open_state done in
      rw done (rw again state)

release_again :
    (id : String) (later : ℕ) (kv : Kv)
    → state_of id kv ≡ some released
    → release id later kv ≡ ok kv
unfolding release
release_again id later kv e = elim (Option-cases (lookup id kv.reservations)) [
  | inl gone ↦ rw gone refl
  | inr (r, found) ↦
      let closed : r.state ≡ released = ground (arith, e, found) in rw found (rw closed refl)
]

module _ (id : String) (now later : ℕ) (kv : Kv) where
  pub release-arrives :
      (first second : Attempt)
      → Settleable id kv
      → state_of id (pollard_release first second id now later kv).1
        ≡ some (left_in first second released)
  unfolding pollard_release retrying
  release-arrives answered second s =
      let (kv', done, state) = release_total id now kv s in rw done state
  release-arrives lost_request answered s =
      let (kv', done, state) = release_total id later kv s in rw done state
  release-arrives lost_request lost_answer s =
      let (kv', done, state) = release_total id later kv s in rw done state
  release-arrives lost_request lost_request s = held_still id kv s
  release-arrives lost_answer lost_request s =
      let (kv', done, state) = release_total id now kv s in rw done state
  release-arrives lost_answer answered s =
      let (kv', done, state) = release_total id now kv s in
      rw done (rw (release_again id later kv' state) state)
  release-arrives lost_answer lost_answer s =
      let (kv', done, state) = release_total id now kv s in
      rw done (rw (release_again id later kv' state) state)
