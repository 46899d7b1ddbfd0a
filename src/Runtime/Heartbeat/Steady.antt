-- ===== src/Runtime/Heartbeat/Steady.antt =====
-- When `_LeaseHeartbeat` of src/pollard/runtime.py reports no loss.
use mathlib.Core.Path.{subst}
use pollard.Common.{
  ℕ, ◌+◌, ◌<◌, String, ◌≡◌, refl, sym, ap, Bool, true, false, List, [], ◌∷◌, Option, none, some,
  ◌↔◌, ltb, arith, Bool-cases, inl, inr,
}
use pollard.Runtime.Heartbeat.{
  Answer-cases, renewed, fails, Round, Heartbeat, attempted_at, lease, interval, begin, beats,
  still_alive, stop_at, stop,
}

ltb-of_lt : {m n : ℕ} → m < n → ltb m n ≡ true
ltb-of_lt h = ground arith

lt-of_ltb : {m n : ℕ} → ltb m n ≡ true → m < n
lt-of_ltb h = ground arith

module _ (shortest longest third : ℕ) where
  abbrev L : ℕ
  L = lease shortest longest third

  abbrev I : ℕ
  I = interval shortest longest third

  -- From the time `now`, with a lease that was confirmed at `from` and an attempt that is due at `next`,
  -- the attempts are renewed, or fail before the lease ends; `last` is when the last confirmed attempt
  -- began.
  pub data Unbroken : (now from next : ℕ) → List Round → (last : ℕ) → Type 0 where
    ends : {now from next : ℕ} → Unbroken now from next [] from
    renews :
        {now from next last : ℕ} {rounds : List Round} (r : Round)
        → r.answer ≡ renewed
        → Unbroken
            (attempted_at now next r + r.took)
            (attempted_at now next r)
            (attempted_at now next r + interval shortest longest third)
            rounds
            last
        → Unbroken now from next (r ∷ rounds) last
    retries :
        {now from next last : ℕ} {rounds : List Round} (r : Round) (name : String)
        → r.answer ≡ fails name
        → attempted_at now next r + r.took < from + lease shortest longest third
        → Unbroken
            (attempted_at now next r + r.took)
            from
            (attempted_at now next r + interval shortest longest third)
            rounds
            last
        → Unbroken now from next (r ∷ rounds) last

  beats-Unbroken :
      {now from next last : ℕ} {rounds : List Round}
      → Unbroken now from next rounds last
      → (next' : ℕ) × (beats shortest longest third now rounds
            (record { lost = none; deadline = from + L; next_renewal = next })
          ≡ record { lost = none; deadline = last + L; next_renewal = next' })
  unfolding beats
  beats-Unbroken {next} ends = (next, refl)
  beats-Unbroken (renews r e u) = rw e (beats-Unbroken u)
  beats-Unbroken {now} {from} {next} (retries r name e early u) =
      let soon : ltb (attempted_at now next r + r.took) (from + L) ≡ true = ltb-of_lt early in
      rw (e, soon) (beats-Unbroken u)

  -- What the loop leaves, from a lease confirmed at `from`.
  abbrev Kept : (now from next : ℕ) → List Round → Heartbeat → Type 0
  Kept now from next rounds hb =
      (last : ℕ) × Unbroken now from next rounds last × (hb.deadline ≡ last + L)

  unbroken_or_lost :
      (now from next : ℕ) (rounds : List Round) (hb : Heartbeat)
      → beats shortest longest third now rounds
          (record { lost = none; deadline = from + L; next_renewal = next })
        ≡ hb
      → hb.lost ≡ none
      → Kept now from next rounds hb
  unfolding beats
  unbroken_or_lost now from next [] hb e q =
      (from, ends, ap (λ (x : Heartbeat). x.deadline) (sym e))
  unbroken_or_lost now from next (r ∷ rounds) hb e q =
      let t = attempted_at now next r in
      elim (Answer-cases r.answer) [
        | inl a ↦
            let (last, u, d) = unbroken_or_lost (t + r.took) t (t + I) rounds hb (rw a at e) q in
            (last, renews r a u, d)
        | inr (inl a) ↦ absurd (cc (ap (λ (x : Heartbeat). x.lost) (rw a at e)))
        | inr (inr (inl (name, a))) ↦ elim (Bool-cases (ltb (t + r.took) (from + L))) [
          | inr late ↦ absurd (cc (ap (λ (x : Heartbeat). x.lost) (rw (a, late) at e)))
          | inl early ↦
              let (last, u, d) =
                unbroken_or_lost (t + r.took) from (t + I) rounds hb (rw (a, early) at e) q in
              (last, retries r name a (lt-of_ltb early) u, d)
        ]
        | inr (inr (inr (name, a))) ↦ absurd (cc (ap (λ (x : Heartbeat). x.lost) (rw a at e)))
      ]

  stop_at-none :
      (now : ℕ) (alive : Bool) (hb : Heartbeat) (lost : Option String)
      → stop_at now alive hb lost ≡ none
      → (lost ≡ none) × (now < hb.deadline) × (alive ≡ false)
  stop_at-none now alive hb (some x) e = cc
  stop_at-none now alive hb none e = elim (Bool-cases (ltb now hb.deadline)) [
    | inr late ↦ absurd (cc (rw late at e))
    | inl early ↦ (refl, lt-of_ltb early, ended alive (rw early at e))
  ]
    where
      ended : (b : Bool) → still_alive b ≡ none → b ≡ false
      ended true q = cc
      ended false q = refl

  -- Stopping the heartbeat reports no loss exactly when every attempt, made at the times
  -- of the loop, was renewed, or failed with an
  -- ordinary exception before the lease that was confirmed last had ended, this lease has not ended
  -- now either, and the thread has.
  pub stop_exact :
      (started_at : ℕ) (rounds : List Round) (now : ℕ) (alive : Bool)
      → (stop now alive (
            some (
              beats shortest longest third started_at rounds
                (begin shortest longest third started_at)))
          ≡ none)
        ↔ (alive ≡ false)
          × ((last : ℕ) × Unbroken started_at started_at
                (started_at + interval shortest longest third)
                rounds
                last
              × (now < last + lease shortest longest third))
  unfolding stop
  stop_exact started_at rounds now alive = (to, from)
    where
      hb : Heartbeat
      hb = beats shortest longest third started_at rounds (begin shortest longest third started_at)

      to :
          stop_at now alive hb hb.lost ≡ none
          → (alive ≡ false)
            × ((last : ℕ) × Unbroken started_at started_at
                  (started_at + interval shortest longest third)
                  rounds
                  last
                × (now < last + L))
      to e =
          let (kept, early, dead) = stop_at-none now alive hb hb.lost e in
          let (last, u, d) =
            unbroken_or_lost started_at started_at (started_at + interval shortest longest third)
              rounds hb refl kept in
          (dead, (last, u, subst (λ x. now < x) d early))

      from :
          (alive ≡ false)
            × ((last : ℕ) × Unbroken started_at started_at
                  (started_at + interval shortest longest third)
                  rounds
                  last
                × (now < last + L))
          → stop_at now alive hb hb.lost ≡ none
      from (dead, (last, u, early)) =
          let (next, e) = beats-Unbroken u in
          let soon : ltb now (last + L) ≡ true = ltb-of_lt early in rw e (rw (dead, soon) refl)
