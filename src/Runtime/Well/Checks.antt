-- ===== src/Runtime/Well/Checks.antt =====
-- The checks before a call in src/pollard/runtime.py keep the run well formed, refusals included.
use pollard.Common.{
  some, String, not, ◌&&◌, List, [], ◌∷◌, Option, string_eq, is_some, if◌then◌else◌, Bool-cases,
  Option-cases, inl, inr,
}
use pollard.Common.Int.{ℤ}
use pollard.Common.Dict.{Dict, insert}
use pollard.Errors.{Result, Result-cases}
use pollard.Json.{Fields}
use pollard.Hashing.{Sha256}
use pollard.Tree.{Node, NodeKind, kind_text}
use pollard.Store.{MemoryStore, exists, put, member}
use pollard.Store.Valid.{Change, unchanged, put-Change}
use pollard.Arbiter.{Kv, BudgetReservation, WindowReservation, ReservationCheck, granted, refused}
use pollard.Governor.{BudgetCheck, allowed, exceeded}
use pollard.Governor.Charges.{Amounts}
use pollard.Replay.{is_replay}
use pollard.Scopes.{bind_configuration}
use pollard.Runtime.{BudgetScope, Run, Step, raise, return}
use pollard.Runtime.Moves.{Moves, after-rel, Moves-or_raise}
use pollard.Runtime.Config.{
  Meter, Config, Moment, Reservation, Estimate, no_estimate, estimate, refusal, fails,
}
use pollard.Runtime.Refuse.{
  Refused, meter_refused, budget_refused, arbiter_refused, refuse, refuse_policy,
}
use pollard.Runtime.Precheck.{
  bind_all, bind_shared, validate_shared_configuration, meter_estimates, estimates_of, check_scopes,
  window_requests, reserve_step, reserve_or_refuse, reserve_shared, reserve_kind, precheck,
  is_empty, takes_reservation, requested_amount, reserved, reserve_answer,
}
use pollard.Runtime.Well.{IsWell, StaysWell, IsSound, stored-IsWell, advance-IsWell}

module _ ⦃h : Sha256⦄ (c : Config) where
  bind-Change :
      (s : MemoryStore) (expected : Node)
      → IsSound s
      → Change s (bind_configuration c.mode s expected).0
  unfolding bind_configuration
  bind-Change s expected g = elim (Bool-cases (is_replay c.mode)) [
    | inl replaying ↦ rw replaying unchanged
    | inr recording ↦ elim (Bool-cases (exists s expected.id)) [
      | inl there ↦ rw recording (rw there unchanged)
      | inr new ↦ rw recording (
          rw new (elim (Result-cases (put expected s)) [
            | inl (s', e) ↦ rw e (put-Change expected s s' g.valid e)
            | inr (x, e) ↦ rw e unchanged
          ]))
    ]
  ]

module _ ⦃h : Sha256⦄ ⦃a : Amounts⦄ {S : Type 0} (id : String) (c : Config) (o : Moment) where
  pub refuse-IsWell :
      (A : Type 0) (r : Refused) (kind : String) (payload : Fields)
      → Moves (StaysWell S id) (refuse c o {A = A} r kind payload)
  unfolding refuse
  refuse-IsWell A r kind payload run =
      after-rel (StaysWell S id) _ run _ (Moves-or_raise (StaysWell S id) _ run) (λ digest r₁.
        after-rel (StaysWell S id) _ r₁ _ (Moves-or_raise (StaysWell S id) _ r₁)
          (λ n r₂. after-rel (StaysWell S id) _ r₂ _ (advance-IsWell id c.mode n r₂) (λ m r₃ w. w)))

  pub refuse_policy-IsWell :
      (A : Type 0) (digest : Option String) (detail : String) (payload : Fields)
      → Moves (StaysWell S id) (refuse_policy c o {A = A} digest detail payload)
  unfolding refuse_policy
  refuse_policy-IsWell A digest detail payload run =
      after-rel (StaysWell S id) _ run _ (Moves-or_raise (StaysWell S id) _ run) (λ digest' r₁.
        after-rel (StaysWell S id) _ r₁ _ (Moves-or_raise (StaysWell S id) _ r₁)
          (λ n r₂. after-rel (StaysWell S id) _ r₂ _ (advance-IsWell id c.mode n r₂) (λ m r₃ w. w)))

  estimates-IsWell :
      (kind : String) (payload : Fields) (ms : List Meter) (estimates : Dict String ℤ)
      (approximate : List String)
      → Moves (StaysWell S id) (meter_estimates c o kind payload ms estimates approximate)
  unfolding meter_estimates
  estimates-IsWell kind payload [] estimates approximate run = λ w. w
  estimates-IsWell kind payload (m ∷ ms) estimates approximate run =
      estimate_cases (m.precheck_estimate kind payload)
        (λ r. refuse-IsWell (Dict String ℤ × List String) r kind payload run)
        (λ es near. estimates-IsWell kind payload ms es near run)
    where
      estimate_cases :
          (e : Estimate)
          → ((r : Refused)
              → IsWell id run
              → IsWell id (refuse c o {A = Dict String ℤ × List String} r kind payload run).0)
          → ((es : Dict String ℤ) (near : List String)
              → IsWell id run
              → IsWell id (meter_estimates c o kind payload ms es near run).0)
          → IsWell id run
          → IsWell id
              ((elim e as (λ x. Step S (Dict String ℤ × List String)) [
                | refusal r ↦
                    refuse c o {A = Dict String ℤ × List String}
                      (meter_refused m.name r)
                      kind
                      payload
                | fails x ↦ raise x
                | no_estimate ↦ meter_estimates c o kind payload ms estimates approximate
                | estimate amount ↦
                    meter_estimates c o kind payload ms
                      (insert m.name amount estimates)
                      (if m.precheck_is_estimate then m.name ∷ approximate else approximate)
              ])
                run).0
      estimate_cases no_estimate hr he = he estimates approximate
      estimate_cases (estimate amount) hr he = he (insert m.name amount estimates) _
      estimate_cases (refusal r) hr he = hr (meter_refused m.name r)
      estimate_cases (fails x) hr he = λ w. w

  estimates_of-IsWell :
      (kind : String) (payload : Fields) → Moves (StaysWell S id) (estimates_of c o kind payload)
  unfolding estimates_of
  estimates_of-IsWell kind payload run =
      after-rel (StaysWell S id) _ run _ (estimates-IsWell kind payload c.meters [] [] run)
        (λ found r₁.
          after-rel (StaysWell S id) _ r₁ _ (Moves-or_raise (StaysWell S id) _ r₁) (λ d r₂ w. w))

  scopes-IsWell :
      (kind : String) (payload : Fields) (estimates : Dict String ℤ) (approximate : List String)
      (scopes : List BudgetScope)
      → Moves (StaysWell S id) (check_scopes c o kind payload estimates approximate scopes)
  unfolding check_scopes
  scopes-IsWell kind payload estimates approximate [] run = λ w. w
  scopes-IsWell kind payload estimates approximate (scope ∷ scopes) run =
      after-rel (StaysWell S id) _ run _ (Moves-or_raise (StaysWell S id) _ run) (λ spent r₁.
        after-rel (StaysWell S id) _ r₁ _ (Moves-or_raise (StaysWell S id) _ r₁) (λ check r₂.
          checked check r₂ (scopes-IsWell kind payload estimates approximate scopes r₂)))
    where
      checked :
          (check : BudgetCheck) (r : Run S)
          → (IsWell id r
              → IsWell id (check_scopes c o kind payload estimates approximate scopes r).0)
          → IsWell id r
          → IsWell id
              ((elim check as (λ x. Step S (Unit {0})) [
                | allowed ↦ check_scopes c o kind payload estimates approximate scopes
                | exceeded meter requested remaining ↦
                    refuse c o
                      (budget_refused meter requested remaining (member meter approximate))
                      kind
                      payload
              ])
                r).0
      checked allowed r next = next
      checked (exceeded meter requested remaining) r next =
          refuse-IsWell (Unit {0})
            (budget_refused meter requested remaining (member meter approximate)) kind payload r

  bind_all-IsWell : (nodes : List Node) → Moves (StaysWell S id) (bind_all c nodes)
  unfolding bind_all
  bind_all-IsWell [] run w = w
  bind_all-IsWell (expected ∷ nodes) run w =
      let s = run.world.store in
      let (s', x) = bind_configuration c.mode s expected in
      let run' = record run { world = record run.world { store = s' } } in
      let w' = stored-IsWell id run s' w (bind-Change c s expected w.sound) in
      elim (Result-cases x) [
        | inl (n, e) ↦ rw (e, bind_all) (bind_all-IsWell nodes run' w')
        | inr (y, e) ↦ rw (e, bind_all) w'
      ]

  pub shared-IsWell : Moves (StaysWell S id) (validate_shared_configuration c)
  unfolding validate_shared_configuration
  shared-IsWell run = bound c.configurations
    where
      bound : (nodes : List Node) → IsWell id run → IsWell id (bind_shared c nodes run).0
      bound [] w = w
      bound (n ∷ ns) w =
          elim (Bool-cases (not (is_replay c.mode) && not (is_some run.world.arbiter))) [
            | inl not_shared ↦ rw not_shared w
            | inr fine ↦ rw fine (bind_all-IsWell (n ∷ ns) run w)
          ]

  windows-IsWell :
      (kind : String) (payload : Fields) (ms : List Meter)
      → Moves (StaysWell S id) (window_requests c o kind payload ms)
  unfolding window_requests
  windows-IsWell kind payload [] run = λ w. w
  windows-IsWell kind payload (m ∷ ms) run = elim (Option-cases m.window) [
    | inl other ↦ rw (other, window_requests) (windows-IsWell kind payload ms run)
    | inr (w, e) ↦
        rw (e, window_requests)
          (after-rel (StaysWell S id) _ run
            (run, requested_amount (m.precheck_estimate kind payload)) (λ v. v)
            (λ amount r₁.
              after-rel (StaysWell S id) _ r₁ _ (windows-IsWell kind payload ms r₁)
                (λ rest r₂ v. v)))
  ]

  answer-IsWell :
      (run : Run S) (x : Result ReservationCheck × Kv)
      → IsWell id run
      → IsWell id (reserve_answer run x).0
  answer-IsWell run (r, kv) w =
      Moves-or_raise (StaysWell S id) r
        (record run { world = record run.world { arbiter = some kv } })
        (record { sound = w.sound; cursor_there = w.cursor_there; id_there = w.id_there })

  reserve-IsWell :
      (kind : String) (payload : Fields) (estimates : Dict String ℤ) (approximate : List String)
      (budgets : List BudgetReservation) (windows : List WindowReservation) (kv : Kv)
      → Moves
          (StaysWell S id)
          (reserve_or_refuse c o kind payload estimates approximate budgets windows kv)
  unfolding reserve_or_refuse
  reserve-IsWell kind payload estimates approximate budgets windows kv run =
      after-rel (StaysWell S id) _ run _ stepped answered
    where
      stepped : IsWell id run → IsWell id (reserve_step c o budgets windows kv run).0
      stepped = answer-IsWell run _

      answered :
          (answer : ReservationCheck) (r : Run S)
          → IsWell id r
          → IsWell id
              ((elim answer as (λ x. Step S (Option Reservation)) [
                | granted ↦ return (reserved o.reservation_id estimates)
                | refused x ↦
                    refuse c o (arbiter_refused x (member x.meter approximate)) kind payload
              ])
                r).0
      answered granted r w = w
      answered (refused x) r w =
          refuse-IsWell (Option Reservation) (arbiter_refused x (member x.meter approximate)) kind
            payload r w

  reserve_shared-IsWell :
      (kind : String) (payload : Fields) (estimates : Dict String ℤ) (approximate : List String)
      (kv : Kv)
      → Moves (StaysWell S id) (reserve_shared c o kind payload estimates approximate kv)
  unfolding reserve_shared
  reserve_shared-IsWell kind payload estimates approximate kv run =
      after-rel (StaysWell S id) _ run _ (Moves-or_raise (StaysWell S id) _ run) (λ budgets r₁.
        after-rel (StaysWell S id) _ r₁ _ (windows-IsWell kind payload c.meters r₁) (λ windows r₂ w.
          elim (Bool-cases (is_empty budgets && is_empty windows)) [
            | inl nothing ↦ rw nothing w
            | inr asks ↦
                rw asks (reserve-IsWell kind payload estimates approximate budgets windows kv r₂ w)
          ]))

  reserve_kind-IsWell :
      (kind : NodeKind) (payload : Fields) (estimates : Dict String ℤ) (approximate : List String)
      → Moves (StaysWell S id) (reserve_kind c o kind payload estimates approximate)
  reserve_kind-IsWell kind payload estimates approximate run w =
      elim (Bool-cases (not (takes_reservation kind))) [
        | inl free ↦ rw free w
        | inr taken ↦ elim (Option-cases run.world.arbiter) [
          | inl alone ↦ rw taken (rw alone w)
          | inr (kv, e) ↦
              rw taken (
                rw e
                  (reserve_shared-IsWell (kind_text kind) payload estimates approximate kv run w))
        ]
      ]

  pub precheck-IsWell :
      (kind : NodeKind) (payload : Fields) → Moves (StaysWell S id) (precheck c o kind payload)
  unfolding precheck
  precheck-IsWell kind payload run =
      after-rel (StaysWell S id) _ run _ (Moves-or_raise (StaysWell S id) _ run) (λ done r₁.
        after-rel (StaysWell S id) _ r₁ _ (shared-IsWell r₁) (λ bound r₂.
          after-rel (StaysWell S id) _ r₂ _ (estimates_of-IsWell (kind_text kind) payload r₂)
            (λ found r₃.
              after-rel (StaysWell S id) _ r₃ _
                (scopes-IsWell (kind_text kind) payload found.0 found.1 run.budget_scopes r₃)
                (λ fits r₄. reserve_kind-IsWell kind payload found.0 found.1 r₄))))
