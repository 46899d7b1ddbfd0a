-- ===== src/Arbiter/Runs.antt =====
-- Runs of several workers over one arbiter of src/pollard/stores/_transactional.py: any interleaving of
-- their transactions, and of the clock.
use pollard.Common.{ap, ◌∙◌, ℕ, ◌≤◌, ◌<◌, String, ◌≡◌, true, List, some, string_eq}
use pollard.Common.Int.{ℤ, pos, ◌+ℤ◌, ◌≤ℤ◌, int_laws, +ℤ_assoc}
use pollard.Common.Dict.{Dict, lookup}
use pollard.Errors.{ok}
use pollard.Hashing.{Sha256}
use pollard.Arbiter.{
  BudgetReservation, WindowReservation, Reservation, ReservationCheck, Kv, empty, is_live,
  active_reservations, active_amount, budget_amount, sum_details,
}
use pollard.Arbiter.Operations.{reserve, settle, release, renew}
use pollard.Arbiter.Honest.{settled_of}
use pollard.Arbiter.Settle.{charge_for}
use pollard.Arbiter.Safety.{IsSafe, Honest, tick-IsSafe, reserve-IsSafe}
use pollard.Arbiter.Charged.{reserve-settled_of, settle-settled_of, release-budgets, renew-budgets}
use pollard.Arbiter.Close.{live_active, Covered, settle-IsSafe, release-IsSafe, renew-IsSafe}

module _ ⦃h : Sha256⦄ (cap : String × String → ℤ) where
  -- One transaction that succeeds, or time that passes. A worker's reservation is honest about the
  -- limits; it settles while it still holds the reservation, with charges that this covers.
  pub data Step : ℕ → Kv → ℕ → Kv → Type 0 where
    tick : (now now' : ℕ) (kv : Kv) → now ≤ now' → Step now kv now' kv
    reserves :
        (id : String) (budgets : List BudgetReservation) (windows : List WindowReservation)
        (lease now : ℕ) (answer : ReservationCheck) (kv kv' : Kv)
        → Honest cap kv budgets windows
        → 0 < lease
        → reserve id budgets windows lease now kv ≡ ok (answer, kv')
        → Step now kv now kv'
    settles :
        (id : String) (charges : Dict String ℤ) (now : ℕ) (r : Reservation) (kv kv' : Kv)
        → lookup id kv.reservations ≡ some r
        → is_live now r ≡ true
        → Covered charges r.details
        → settle id charges now kv ≡ ok kv'
        → Step now kv now kv'
    releases :
        (id : String) (now : ℕ) (kv kv' : Kv) → release id now kv ≡ ok kv' → Step now kv now kv'
    renews : (id : String) (lease now : ℕ) (kv : Kv) → Step now kv now (renew id lease now kv).1

  pub data Run (now₀ : ℕ) (kv₀ : Kv) : ℕ → Kv → Type 0 where
    start : Run now₀ kv₀ now₀ kv₀
    then_step :
        {now now' : ℕ} {kv kv' : Kv}
        → Run now₀ kv₀ now kv
        → Step now kv now' kv'
        → Run now₀ kv₀ now' kv'

  Step-IsSafe :
      {now now' : ℕ} {kv kv' : Kv} → Step now kv now' kv' → IsSafe cap now kv → IsSafe cap now' kv'
  Step-IsSafe (tick now now' kv le) safe = tick-IsSafe cap now now' kv le safe
  Step-IsSafe (reserves id budgets windows lease now answer kv kv' honest lasting done) safe =
      reserve-IsSafe cap id budgets windows lease now kv kv' honest lasting safe answer done
  Step-IsSafe (settles id charges now r kv kv' found live covered done) safe =
      settle-IsSafe cap id charges now r kv kv' safe found live covered done
  Step-IsSafe (releases id now kv kv' done) safe = release-IsSafe cap id now kv kv' safe done
  Step-IsSafe (renews id lease now kv) safe = renew-IsSafe cap id lease now kv safe

  Run-IsSafe :
      {now₀ : ℕ} {kv₀ : Kv} {now : ℕ} {kv : Kv}
      → Run now₀ kv₀ now kv
      → IsSafe cap now₀ kv₀
      → IsSafe cap now kv
  Run-IsSafe start safe = safe
  Run-IsSafe (then_step run step) safe = Step-IsSafe step (Run-IsSafe run safe)

  empty-IsSafe :
      (now : ℕ) → ((scope meter : String) → pos 0 ≤ℤ cap (scope, meter)) → IsSafe cap now empty
  unfolding active_reservations active_amount
  empty-IsSafe now limits = record {
    within = λ scope meter. omega (int_laws, limits scope meter);
    positive = tt;
  }

  -- What the settlements of a run have charged to a scope and meter: the actual charge for each detail
  -- of the settled reservation that names them.
  abbrev pub charged :
      {now₀ : ℕ} {kv₀ : Kv} {now : ℕ} {kv : Kv} (scope meter : String) → Run now₀ kv₀ now kv → ℤ
  charged scope meter start = pos 0
  charged scope meter (then_step run (settles id charges now r kv kv' found live covered done)) =
      charged scope meter run +ℤ sum_details (charge_for scope meter charges) r.details
  charged scope meter (then_step run (tick now now' kv le)) = charged scope meter run
  charged scope meter
        (then_step run (reserves id budgets windows lease now answer kv kv' honest lasting done)) =
      charged scope meter run
  charged scope meter (then_step run (releases id now kv kv' done)) = charged scope meter run
  charged scope meter (then_step run (renews id lease now kv)) = charged scope meter run

  -- The budgets hold what was charged.
  charged-settled_of :
      {now₀ : ℕ} {kv₀ : Kv} {now : ℕ} {kv : Kv} (scope meter : String) (run : Run now₀ kv₀ now kv)
      → settled_of kv.budgets (scope, meter)
        ≡ settled_of kv₀.budgets (scope, meter) +ℤ charged scope meter run
  charged-settled_of scope meter start = omega int_laws
  charged-settled_of scope meter
        (then_step run (settles id charges now r kv kv' found live covered done)) =
      let before = charged-settled_of scope meter run in
      let grows =
        settle-settled_of id charges now r kv kv' found (live_active now r live) done scope meter in
      grows ∙ (rw before (+ℤ_assoc (settled_of _ (scope, meter)) (charged scope meter run) _))
  charged-settled_of scope meter (then_step run (tick now now' kv le)) =
      charged-settled_of scope meter run
  charged-settled_of scope meter
        (then_step run (reserves id budgets windows lease now answer kv kv' honest lasting done)) =
      reserve-settled_of id budgets windows lease now answer kv kv' honest.baselines done
        (scope, meter)
      ∙ charged-settled_of scope meter run
  charged-settled_of scope meter (then_step run (releases id now kv kv' done)) =
      ap (λ b. settled_of b (scope, meter)) (release-budgets id now kv kv' done)
      ∙ charged-settled_of scope meter run
  charged-settled_of scope meter (then_step run (renews id lease now kv)) =
      ap (λ b. settled_of b (scope, meter)) (renew-budgets id lease now kv)
      ∙ charged-settled_of scope meter run

  -- From an empty arbiter, after any run of workers that agree on the limits, claim no more settled
  -- than is stored, and settle only what they hold with charges that it covers: all that their
  -- settlements charged to a scope and meter, together with what all live reservations hold of it,
  -- never passes its limit.
  pub run_within :
      (now₀ now : ℕ) (kv : Kv) (scope meter : String)
      (limits : (s m : String) → pos 0 ≤ℤ cap (s, m)) (run : Run now₀ empty now kv)
      → charged scope meter run
          +ℤ active_amount (budget_amount scope meter) (active_reservations now kv)
        ≤ℤ cap (scope, meter)
  run_within now₀ now kv scope meter limits run =
      let settled_so_far = charged-settled_of scope meter run in
      let safe = (Run-IsSafe run (empty-IsSafe now₀ limits)).within scope meter in
      let safe' = rw settled_so_far at safe in omega (int_laws, safe')
