-- ===== src/Runtime/Heartbeat/Punctual.antt =====
-- `_LeaseHeartbeat` of src/pollard/runtime.py: what its schedule promises of renewals that fail once.
use pollard.Common.{
  ℕ, ◌+◌, ◌*◌, ◌<◌, ◌≤◌, String, ◌≡◌, refl, true, false, List, [], ◌∷◌, none, some, ltb, arith,
}
use pollard.Runtime.Heartbeat.{
  renewed, fails, Round, Heartbeat, attempted_at, lease, interval, begin, beats, stop,
}

-- How long a round of the loop takes beside its wait.
abbrev pub overhead : Round → ℕ
overhead r = r.pause + r.late + r.took

-- The answers are renewals, and of two attempts in a row at most one fails; no round takes longer than
-- `delay` beside its wait.
pub data Punctual (delay : ℕ) : List Round → Type 0 where
  stopped : Punctual delay []
  confirms :
      {rounds : List Round} (r : Round)
      → r.answer ≡ renewed
      → overhead r ≤ delay
      → Punctual delay rounds
      → Punctual delay (r ∷ rounds)
  stopped_failing :
      (r : Round) (name : String)
      → r.answer ≡ fails name
      → overhead r ≤ delay
      → Punctual delay (r ∷ [])
  recovers :
      {rounds : List Round} (r r' : Round) (name : String)
      → r.answer ≡ fails name
      → overhead r ≤ delay
      → r'.answer ≡ renewed
      → overhead r' ≤ delay
      → Punctual delay rounds
      → Punctual delay (r ∷ r' ∷ rounds)

-- A wait for a renewal that is not past ends at that time, and the round that follows is soon over.
attempted_at-bounds :
    (now next delay : ℕ) (r : Round)
    → now ≤ next
    → overhead r ≤ delay
    → (next ≤ attempted_at now next r) × (attempted_at now next r + r.took ≤ next + delay)
unfolding attempted_at
attempted_at-bounds now next delay r early short = (omega arith, omega arith)

module _ (shortest longest third delay : ℕ) where
  abbrev L : ℕ
  L = lease shortest longest third

  abbrev I : ℕ
  I = interval shortest longest third

  -- The loop leaves a lease that ends at least so long after the next renewal as two intervals leave.
  abbrev Kept : Heartbeat → Type 0
  Kept hb = (hb.lost ≡ none) × (hb.next_renewal + L ≤ hb.deadline + (2 * I + delay))

  beats-Kept :
      (now from : ℕ) (rounds : List Round)
      → delay ≤ I
      → I + delay < L
      → now ≤ from + I
      → Punctual delay rounds
      → Kept (
          beats shortest longest third now rounds
            (record { lost = none; deadline = from + L; next_renewal = from + I }))
  unfolding beats attempted_at
  beats-Kept now from _ small short early stopped = (refl, omega arith)
  beats-Kept now from _ small short early (confirms {rounds} r e quick p) =
      let t = attempted_at now (from + I) r in
      let after : t + r.took ≤ t + I = omega arith in
      rw e (beats-Kept (t + r.took) t rounds small short after p)
  beats-Kept now from _ small short early (stopped_failing r name e quick) =
      let t = attempted_at now (from + I) r in
      let (_, done) = attempted_at-bounds now (from + I) delay r early quick in
      let soon : ltb (t + r.took) (from + L) ≡ true = ground arith in
      rw (e, soon) (refl, omega arith)
  beats-Kept now from _ small short early (recovers {rounds} r r' name e quick e' quick' p) =
      let t = attempted_at now (from + I) r in
      let (_, done) = attempted_at-bounds now (from + I) delay r early quick in
      let soon : ltb (t + r.took) (from + L) ≡ true = ground arith in
      let t' = attempted_at (t + r.took) (t + I) r' in
      let after : t' + r'.took ≤ t' + I = omega arith in
      rw (e, soon, e') (beats-Kept (t' + r'.took) t' rounds small short after p)

  -- Two intervals and two delays are shorter than the lease, and a delay is no longer than an interval. A
  -- heartbeat whose attempts are renewed or fail, no two in a row failing, of which no round takes longer
  -- than a delay beside its wait, and which is stopped no later than a delay after the next renewal was
  -- due and then ends, reports no loss.
  pub stop-Punctual :
      (started_at : ℕ) (rounds : List Round) (now : ℕ)
      → delay ≤ interval shortest longest third
      → 2 * (interval shortest longest third + delay) < lease shortest longest third
      → Punctual delay rounds
      → now
        ≤ (beats shortest longest third started_at rounds
            (begin shortest longest third started_at)).next_renewal
          + delay
      → stop now false (
          some (
            beats shortest longest third started_at rounds
              (begin shortest longest third started_at)))
        ≡ none
  unfolding stop
  stop-Punctual started_at rounds now small short p soon =
      let (kept, long) =
        beats-Kept started_at started_at rounds small (omega arith) (omega arith) p in
      let early : ltb now
            (beats shortest longest third started_at rounds
              (begin shortest longest third started_at)).deadline
          ≡ true =
        ground arith in
      rw (kept, early) refl
