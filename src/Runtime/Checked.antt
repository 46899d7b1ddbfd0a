-- ===== src/Runtime/Checked.antt =====
-- The checks of `_precheck` in src/pollard/runtime.py, when they pass: they change nothing but the arbiter and
-- the shared configuration, and the estimates fit.
use mathlib.Core.Path.{subst}
use pollard.Common.{
  false, true, Bool, ◌==◌, ℕ, suc, String, ◌≡◌, refl, ap, sym, ◌∙◌, List, [], ◌∷◌, Option, none,
  some, string_eq, All, if◌then◌else◌, Option-cases, inl, inr,
}
use pollard.Common.Int.{ℤ, pos}
use pollard.Common.Dict.{Dict, lookup, insert, lookup-insert}
use pollard.Errors.{ok, >>=-eq-ok}
use pollard.Json.{Fields}
use pollard.Hashing.{Sha256}
use pollard.Store.{MemoryStore, member}
use pollard.Governor.{Budget, BudgetCheck, allowed, exceeded, check_budget, limits_of}
use pollard.Governor.Charges.{Amounts, spent_decimal}
use pollard.Governor.Checks.{NoLimit, EstimateFits, check_budget_exact}
use pollard.Runtime.{Outcome, returned, BudgetScope, Run, Step, raise}
use pollard.Runtime.Returned.{same_return, first_run, after-returned, or_raise-returned}
use pollard.Runtime.Cursor.{depth}
use pollard.Runtime.Config.{
  Meter, Config, Moment, Reservation, Estimate, no_estimate, estimate, refusal, fails,
}
use pollard.Arbiter.{WindowReservation}
use pollard.Runtime.Refuse.{Refused, refuse, budget_refused, meter_refused}
use pollard.Runtime.Precheck.{check_scopes, estimates_of, meter_estimates, window_requests}

-- The store and the cursor are the same before and after.
abbrev pub SamePlace : {S : Type 0} → Run S → Run S → Type 0
SamePlace r r' = (r'.world.store ≡ r.world.store) × (r'.cursor_id ≡ r.cursor_id)

-- The estimates fit a scope, by what its subtree was charged in this store: no exhausted meter has a
-- limit, and each estimate together with what is spent is within its limit.
pub record ScopeFits ⦃a : Amounts⦄ (s : MemoryStore) (estimates : Dict String ℤ)
    (scope : BudgetScope) : Type 0 where
  pub limits : Dict String ℤ
  pub spent : Dict String ℤ
  pub limited : limits_of scope.budget ≡ ok limits
  pub charged : spent_decimal s scope.anchor_id ≡ ok spent
  pub free : All (NoLimit limits) scope.exhausted
  pub within : All (EstimateFits limits spent) estimates

-- The reservation of a call is for its estimates.
abbrev pub ReservedFor : Dict String ℤ → Option Reservation → Type 0
ReservedFor estimates none = Unit
ReservedFor estimates (some r) = r.estimates ≡ estimates

module _ ⦃a : Amounts⦄ where
  limits_known :
      (budget : Budget) (spent estimates : Dict String ℤ) (exhausted : List String)
      → check_budget (some budget) spent estimates exhausted ≡ ok allowed
      → (limits : Dict String ℤ) × (limits_of budget ≡ ok limits)
  unfolding check_budget
  limits_known budget spent estimates exhausted e =
      let (limits, q, e₁) = >>=-eq-ok (limits_of budget) _ e in (limits, q)

  scope-Fits :
      (s : MemoryStore) (scope : BudgetScope) (spent estimates : Dict String ℤ)
      → spent_decimal s scope.anchor_id ≡ ok spent
      → check_budget (some scope.budget) spent estimates scope.exhausted ≡ ok allowed
      → ScopeFits s estimates scope
  scope-Fits s scope spent estimates q e =
      let (limits, known) = limits_known scope.budget spent estimates scope.exhausted e in
      let (free, within) =
        (check_budget_exact scope.budget limits spent estimates scope.exhausted known).0 e in
      record {
        limits = limits;
        spent = spent;
        limited = known;
        charged = q;
        free = free;
        within = within;
      }

abbrev amount_in : Estimate → Option ℤ
amount_in (estimate amount) = some amount
amount_in _ = none

abbrev or_before : Option ℤ → Option ℤ → Option ℤ
or_before (some v) o = some v
or_before none o = o

-- What the last of the meters with this name that has an estimate estimates.
abbrev pub estimate_by : String → Fields → String → List Meter → Option ℤ
estimate_by kind payload name [] = none
estimate_by kind payload name (m ∷ ms) =
    or_before (estimate_by kind payload name ms)
      (if m.name == name then amount_in (m.precheck_estimate kind payload) else none)

-- The estimates of a call: the meters', and the depth of the new node.
abbrev pub EstimatedBy : String → Fields → List Meter → ℕ → Dict String ℤ → Type 0
EstimatedBy kind payload ms d estimates =
    (name : String)
    → lookup name estimates
      ≡ (if "depth" == name then some (pos (suc d)) else estimate_by kind payload name ms)

or_before-none :
    (late : Option ℤ) (b : Bool) (o : Option ℤ)
    → or_before late o ≡ or_before (or_before late (if b then none else none)) o
or_before-none none true o = refl
or_before-none none false o = refl
or_before-none (some v) b o = refl

or_before-some :
    (late : Option ℤ) (b : Bool) (amount : ℤ) (o : Option ℤ)
    → or_before late (if b then some amount else o)
      ≡ or_before (or_before late (if b then some amount else none)) o
or_before-some none true amount o = refl
or_before-some none false amount o = refl
or_before-some (some v) b amount o = refl

or_before_end : (late : Option ℤ) → or_before late none ≡ late
or_before_end none = refl
or_before_end (some v) = refl

module _ ⦃h : Sha256⦄ ⦃a : Amounts⦄ {S : Type 0} (c : Config) (o : Moment) where
  pub refuse-raises :
      {A : Type 0} (x : Refused) (kind : String) (payload : Fields) (r r' : Run S) (v : A)
      → refuse c o {A = A} x kind payload r ≡ (r', returned v)
      → ⊥
  unfolding refuse
  refuse-raises x kind payload r r' v e =
      let (digest, q, e₁) = or_raise-returned _ _ r r' v e in
      let (n, q₁, e₂) = or_raise-returned _ _ r r' v e₁ in
      let (r₃, m, q₂, e₃) = after-returned _ _ r' v e₂ in
      cc (ap (λ (p : Run S × Outcome _). p.1) e₃)

  pub scopes-Fit :
      (kind : String) (payload : Fields) (estimates : Dict String ℤ) (approximate : List String)
      (scopes : List BudgetScope) (r r' : Run S) (v : Unit {0})
      → check_scopes c o kind payload estimates approximate scopes r ≡ (r', returned v)
      → (r' ≡ r) × All (ScopeFits r.world.store estimates) scopes
  unfolding check_scopes
  scopes-Fit kind payload estimates approximate [] r r' v e =
      (sym (ap (λ (p : Run S × Outcome (Unit {0})). p.0) e), tt)
  scopes-Fit kind payload estimates approximate (scope ∷ scopes) r r' v e =
      let (spent, known, e₁) = or_raise-returned _ _ r r' v e in
      let (check, checked, e₂) = or_raise-returned _ _ r r' v e₁ in
      passes spent known check checked e₂
        (scopes-Fit kind payload estimates approximate scopes r r' v)
    where
      passes :
          (spent : Dict String ℤ)
          → spent_decimal r.world.store scope.anchor_id ≡ ok spent
          → (check : BudgetCheck)
          → check_budget (some scope.budget) spent estimates scope.exhausted ≡ ok check
          → (elim check as (λ x. Step S (Unit {0})) [
            | allowed ↦ check_scopes c o kind payload estimates approximate scopes
            | exceeded meter requested remaining ↦
                refuse c o
                  (budget_refused meter requested remaining (member meter approximate))
                  kind
                  payload
          ])
              r
            ≡ (r', returned v)
          → (check_scopes c o kind payload estimates approximate scopes r ≡ (r', returned v)
              → (r' ≡ r) × All (ScopeFits r.world.store estimates) scopes)
          → (r' ≡ r) × All (ScopeFits r.world.store estimates) (scope ∷ scopes)
      passes spent known allowed checked e' next =
          let (same, rest) = next e' in
          (same, (scope-Fits r.world.store scope spent estimates known checked, rest))
      passes spent known (exceeded meter requested remaining) checked e' next = absurd (
          refuse-raises (budget_refused meter requested remaining (member meter approximate)) kind
            payload r r' v e')

  meters-same :
      (kind : String) (payload : Fields) (ms : List Meter) (estimates : Dict String ℤ)
      (approximate : List String) (r r' : Run S) (v : Dict String ℤ × List String)
      → meter_estimates c o kind payload ms estimates approximate r ≡ (r', returned v)
      → r' ≡ r
  unfolding meter_estimates
  meters-same kind payload [] estimates approximate r r' v e =
      first_run r r' (estimates, approximate) v e
  meters-same kind payload (m ∷ ms) estimates approximate r r' v e =
      estimated (m.precheck_estimate kind payload) e
        (λ es near. meters-same kind payload ms es near r r' v)
    where
      estimated :
          (x : Estimate)
          → (elim x as (λ y. Step S (Dict String ℤ × List String)) [
            | refusal y ↦
                refuse c o {A = Dict String ℤ × List String} (meter_refused m.name y) kind payload
            | fails y ↦ raise y
            | no_estimate ↦ meter_estimates c o kind payload ms estimates approximate
            | estimate amount ↦
                meter_estimates c o kind payload ms
                  (insert m.name amount estimates)
                  (if m.precheck_is_estimate then m.name ∷ approximate else approximate)
          ])
              r
            ≡ (r', returned v)
          → ((es : Dict String ℤ) (near : List String)
              → meter_estimates c o kind payload ms es near r ≡ (r', returned v)
              → r' ≡ r)
          → r' ≡ r
      estimated no_estimate q next = next estimates approximate q
      estimated (estimate amount) q next = next (insert m.name amount estimates) _ q
      estimated (refusal y) q next =
          absurd (refuse-raises (meter_refused m.name y) kind payload r r' v q)
      estimated (fails y) q next = absurd (cc (ap (λ (p : Run S × Outcome _). p.1) q))

  meters-estimate_by :
      (kind : String) (payload : Fields) (ms : List Meter) (estimates : Dict String ℤ)
      (approximate : List String) (r r' : Run S) (v : Dict String ℤ × List String) (name : String)
      → meter_estimates c o kind payload ms estimates approximate r ≡ (r', returned v)
      → lookup name v.0 ≡ or_before (estimate_by kind payload name ms) (lookup name estimates)
  unfolding meter_estimates
  meters-estimate_by kind payload [] estimates approximate r r' v name e =
      ap (λ (x : Dict String ℤ × List String). lookup name x.0)
        (sym (same_return r r' (estimates, approximate) v e).1)
  meters-estimate_by kind payload (m ∷ ms) estimates approximate r r' v name e =
      estimated (m.precheck_estimate kind payload) e
        (λ es near. meters-estimate_by kind payload ms es near r r' v name)
    where
      estimated :
          (x : Estimate)
          → (elim x as (λ y. Step S (Dict String ℤ × List String)) [
            | refusal y ↦
                refuse c o {A = Dict String ℤ × List String} (meter_refused m.name y) kind payload
            | fails y ↦ raise y
            | no_estimate ↦ meter_estimates c o kind payload ms estimates approximate
            | estimate amount ↦
                meter_estimates c o kind payload ms
                  (insert m.name amount estimates)
                  (if m.precheck_is_estimate then m.name ∷ approximate else approximate)
          ])
              r
            ≡ (r', returned v)
          → ((es : Dict String ℤ) (near : List String)
              → meter_estimates c o kind payload ms es near r ≡ (r', returned v)
              → lookup name v.0 ≡ or_before (estimate_by kind payload name ms) (lookup name es))
          → lookup name v.0
            ≡ or_before
                (or_before
                  (estimate_by kind payload name ms)
                  (if m.name == name then amount_in x else none))
                (lookup name estimates)
      estimated no_estimate q next =
          next estimates approximate q
          ∙ or_before-none (estimate_by kind payload name ms) (m.name == name)
              (lookup name estimates)
      estimated (estimate amount) q next =
          next (insert m.name amount estimates) _ q
          ∙ ap (or_before (estimate_by kind payload name ms))
              (lookup-insert m.name name amount estimates)
          ∙ or_before-some (estimate_by kind payload name ms) (m.name == name) amount
              (lookup name estimates)
      estimated (refusal y) q next =
          absurd (refuse-raises (meter_refused m.name y) kind payload r r' v q)
      estimated (fails y) q next = absurd (cc (ap (λ (p : Run S × Outcome _). p.1) q))

  pub windows-same :
      (kind : String) (payload : Fields) (ms : List Meter) (r r' : Run S)
      (v : List WindowReservation)
      → window_requests c o kind payload ms r ≡ (r', returned v)
      → r' ≡ r
  unfolding window_requests
  windows-same kind payload [] r r' v e = first_run r r' [] v e
  windows-same kind payload (m ∷ ms) r r' v e = elim (Option-cases m.window) [
    | inl other ↦ windows-same kind payload ms r r' v (rw (other, window_requests) at e)
    | inr (w, q) ↦
        let e₁ = rw (q, window_requests) at e in
        let (r₁, amount, q₁, e₂) = after-returned _ _ r' v e₁ in
        let (r₂, rest, q₂, e₃) = after-returned _ _ r' v e₂ in
        first_run r₂ r' _ v e₃
        ∙ windows-same kind payload ms r₁ r₂ rest q₂
        ∙ sym (ap (λ (p : Run S × Outcome ℤ). p.0) q₁)
  ]

  pub estimates-known :
      (kind : String) (payload : Fields) (r r' : Run S) (v : Dict String ℤ × List String)
      → estimates_of c o kind payload r ≡ (r', returned v)
      → (r' ≡ r)
        × (d : ℕ) × (depth r.world.store r.cursor_id ≡ ok d)
        × EstimatedBy kind payload c.meters d v.0
  unfolding estimates_of
  estimates-known kind payload r r' v e =
      let (r₁, found, q, e₁) = after-returned _ _ r' v e in
      let same = meters-same kind payload c.meters [] [] r r₁ found q in
      let (d, deep, e₂) = or_raise-returned _ _ r₁ r' v e₁ in
      let (back, value) = same_return r₁ r' (insert "depth" (pos (suc d)) found.0, found.1) v e₂ in
      (
        back ∙ same,
        d,
        subst (λ (x : Run S). depth x.world.store x.cursor_id ≡ ok d) same deep,
        subst (λ (x : Dict String ℤ × List String). EstimatedBy kind payload c.meters d x.0) value
            (λ name.
              lookup-insert "depth" name (pos (suc d)) found.0
              ∙ ap (λ x. if "depth" == name then some (pos (suc d)) else x)
                  (meters-estimate_by kind payload c.meters [] [] r r₁ found name q
                    ∙ or_before_end (estimate_by kind payload name c.meters))),
      )
