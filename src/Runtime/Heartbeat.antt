-- ===== src/Runtime/Heartbeat.antt =====
-- `_LeaseHeartbeat` of src/pollard/runtime.py: the thread that renews the lease of a reservation while a
-- call runs, and what stopping it reports. The thread and the one that stops it meet only in `stop`,
-- which waits for the thread to end; how long the thread takes is not.
pub mod Steady
pub mod Punctual
use Prim.Native.String as Native
use pollard.Common.{
  ℕ, ◌+◌, ◌-◌, ◌*◌, ◌<◌, ◌≤◌, String, ◌≡◌, refl, Bool, true, false, List, [], ◌∷◌, Option, none,
  some, ◌⊎◌, inl, inr, ltb, if◌then◌else◌, arith,
}

-- What `_pollard_renew` answers, or raises: an `Exception`, or another `BaseException`.
pub data Answer : Type 0 where
  renewed refused : Answer
  fails exits : (type_name : String) → Answer

-- One round of the loop that was not stopped: the time until the clock is read for the wait, how late the
-- thread wakes after it, what the attempt answers, and how long that takes.
pub record Round : Type 0 where
  pub pause : ℕ
  pub late : ℕ
  pub answer : Answer
  pub took : ℕ

-- `next_renewal` is a local variable of `_run`.
pub record Heartbeat : Type 0 where
  pub lost : Option String
  pub deadline : ℕ
  pub next_renewal : ℕ

pub Answer-cases :
    (x : Answer)
    → (x ≡ renewed)
      ⊎ (x ≡ refused)
      ⊎ ((name : String) × (x ≡ fails name))
      ⊎ ((name : String) × (x ≡ exits name))
Answer-cases renewed = inl refl
Answer-cases refused = inr (inl refl)
Answer-cases (fails name) = inr (inr (inl (name, refl)))
Answer-cases (exits name) = inr (inr (inr (name, refl)))

abbrev pub smaller : ℕ → ℕ → ℕ
smaller m n = if ltb m n then m else n

abbrev pub larger : ℕ → ℕ → ℕ
larger m n = if ltb m n then n else m

abbrev pub failed_with : String → Option String
failed_with type_name = some (Native.◌++◌ "renewal failed with " type_name)

abbrev pub wait_seconds : ℕ → ℕ → ℕ
wait_seconds next_renewal now = next_renewal - now

-- When a round that begins at `now` makes its attempt: after the wait for the next renewal.
unfoldable pub attempted_at : (now next_renewal : ℕ) → Round → ℕ
attempted_at now next_renewal r =
    let reading = now + r.pause in reading + wait_seconds next_renewal reading + r.late

-- The lease takes three times `third`; `shortest` is 0.01 seconds, and `longest` 30.
module _ (shortest longest third : ℕ) where
  abbrev pub lease : ℕ
  lease = 3 * third

  abbrev pub interval : ℕ
  interval = larger shortest (smaller longest third)

  abbrev pub begin : ℕ → Heartbeat
  begin started_at = record {
    lost = none;
    deadline = started_at + lease;
    next_renewal = started_at + interval;
  }

  -- The loop of `_run` from the time `now`, until it is stopped while it waits, or returns.
  unfoldable pub beats : (now : ℕ) → List Round → Heartbeat → Heartbeat
  beats now [] hb = hb
  beats now (r ∷ rounds) hb =
      let attempted = attempted_at now hb.next_renewal r in
      let answered = attempted + r.took in
      let next = attempted + interval in
      let go_on = beats answered rounds (record hb { next_renewal = next }) in
      let go_on_renewed =
        beats answered rounds (record hb { deadline = attempted + lease; next_renewal = next }) in
      elim r.answer [
        | renewed ↦ go_on_renewed
        | refused ↦ record hb {
          lost = some "reservation expired or closed before renewal";
          next_renewal = next;
        }
        | fails name ↦
            if ltb answered hb.deadline
            then go_on
            else record hb { lost = failed_with name; next_renewal = next }
        | exits name ↦ record hb { lost = failed_with name; next_renewal = next }
      ]

abbrev pub still_alive : Bool → Option String
still_alive true = some "reservation renewal did not stop before shutdown timeout"
still_alive false = none

abbrev pub stop_at : ℕ → Bool → Heartbeat → Option String → Option String
stop_at now alive hb (some lost) = some lost
stop_at now alive hb none =
    if ltb now hb.deadline
    then still_alive alive
    else some "reservation renewal not confirmed before lease deadline"

-- `stop`, after the thread was waited for: is it still alive? There is no deadline before it has begun.
unfoldable pub stop : ℕ → Bool → Option Heartbeat → Option String
stop now alive none = still_alive alive
stop now alive (some hb) = stop_at now alive hb hb.lost
