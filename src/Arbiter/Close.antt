-- ===== src/Arbiter/Close.antt =====
-- Workers that share the arbiter of src/pollard/stores/_transactional.py: settling, releasing and renewing.
use mathlib.Core.Path.{subst}
use pollard.Common.{
  ℕ, ◌+◌, String, ◌≡◌, refl, true, ◌&&◌, List, [], ◌∷◌, Option, none, some, ◌==◌, string_eq,
  pair_eq, get_or, arith, All, Bool-cases, inl, inr, Option-cases,
}
use pollard.Common.Int.{ℤ, pos, ◌+ℤ◌, ◌≤ℤ◌, int_laws, exchange_bound}
use pollard.Common.Dict.{Dict, lookup, insert}
use pollard.Errors.{ok, ok_injective}
use pollard.Hashing.{Sha256}
use pollard.Arbiter.{
  Detail, budget, window, State, active, settled, released, Reservation, Kv, sum_details,
  budget_amount, active_amount, active_reservations, is_live,
}
use pollard.Arbiter.Operations.{settle, release, release_at, renew, charge_of, close}
use pollard.Arbiter.Request.{charges_digest}
use pollard.Arbiter.Honest.{settled_of}
use pollard.Arbiter.Settle.{held_now, held-replace, charge_for, add_amount, settle_effect}
use pollard.Arbiter.Safety.{
  IsSafe, NonNegative, detail_amount, sum_nonneg, All-insert, lookup-NonNegative,
}

abbrev detail_meter : Detail → String
detail_meter (budget s m a) = m
detail_meter (window s m a w) = m

-- The actual charges are no more than what was reserved.
abbrev pub Covered : Dict String ℤ → List Detail → Type 0
Covered charges = All (λ d. charge_of (detail_meter d) charges ≤ℤ detail_amount d)

sum_covered :
    (scope meter : String) (charges : Dict String ℤ) (ds : List Detail)
    → Covered charges ds
    → sum_details (charge_for scope meter charges) ds ≤ℤ sum_details (budget_amount scope meter) ds
sum_covered scope meter charges [] h = omega arith
sum_covered scope meter charges (budget s m a ∷ ds) h =
    elim (Bool-cases ((s == scope) && (m == meter))) [
      | inl own ↦ rw own (omega (int_laws, h.0, sum_covered scope meter charges ds h.1))
      | inr other ↦ rw other (omega (int_laws, sum_covered scope meter charges ds h.1))
    ]
sum_covered scope meter charges (window s m a w ∷ ds) h =
    omega (int_laws, sum_covered scope meter charges ds h.1)

pub live_active : (now : ℕ) (r : Reservation) → is_live now r ≡ true → r.state ≡ active
live_active now r e = ground arith

module _ (cap : String × String → ℤ) where
  -- Another value for a reservation, with details that are not negative.
  module _ (now : ℕ) (id : String) (r r' : Reservation) (kv kv' : Kv) (safe : IsSafe cap now kv)
      (found : lookup id kv.reservations ≡ some r)
      (written : kv'.reservations ≡ insert id r' kv.reservations)
      (same_details : r'.details ≡ r.details) where
    replaced_positive : All NonNegative kv'.reservations
    replaced_positive = rw written (
        All-insert id r' kv.reservations safe.positive
          (rw same_details (lookup-NonNegative id r kv.reservations safe.positive found)))

    replace-IsSafe :
        ((scope meter : String)
          → settled_of kv'.budgets (scope, meter) +ℤ held_now (budget_amount scope meter) now r'
            ≤ℤ settled_of kv.budgets (scope, meter) +ℤ held_now (budget_amount scope meter) now r)
        → IsSafe cap now kv'
    replace-IsSafe less = record {
      within = λ scope meter.
          exchange_bound (active_amount (budget_amount scope meter) (active_reservations now kv'))
            (active_amount (budget_amount scope meter) (active_reservations now kv))
            (held_now (budget_amount scope meter) now r)
            (held_now (budget_amount scope meter) now r') (settled_of kv'.budgets (scope, meter))
            (settled_of kv.budgets (scope, meter)) (cap (scope, meter))
            (held-replace (budget_amount scope meter) now id r r' kv kv' found written)
            (less scope meter) (safe.within scope meter);
      positive = replaced_positive;
    }

  module _ ⦃h : Sha256⦄ where
    settled_least :
        (c held : ℤ) (o : Option ℤ)
        → c ≤ℤ held
        → pos 0 ≤ℤ held
        → get_or (pos 0) (add_amount c o) +ℤ pos 0 ≤ℤ get_or (pos 0) o +ℤ held
    settled_least c held none le nn = omega int_laws
    settled_least c held (some s) le nn = omega int_laws

    -- Settling a reservation that is still held, with charges that it covers, keeps the state safe.
    pub settle-IsSafe :
        (id : String) (charges : Dict String ℤ) (now : ℕ) (r : Reservation) (kv kv' : Kv)
        → IsSafe cap now kv
        → lookup id kv.reservations ≡ some r
        → is_live now r ≡ true
        → Covered charges r.details
        → settle id charges now kv ≡ ok kv'
        → IsSafe cap now kv'
    settle-IsSafe id charges now r kv kv' safe found live covered done =
        let open_state : r.state ≡ active = live_active now r live in
        let (written, effect) = settle_effect id charges now r kv kv' found open_state done in
        replace-IsSafe now id r (close settled (some (charges_digest charges)) now r) kv kv' safe
          found written refl
          (λ scope meter. rw (effect scope meter) (
            rw live (
              settled_least (sum_details (charge_for scope meter charges) r.details)
                (sum_details (budget_amount scope meter) r.details)
                (lookup (scope, meter) kv.budgets)
                (sum_covered scope meter charges r.details covered)
                (sum_nonneg scope meter r.details
                  (lookup-NonNegative id r kv.reservations safe.positive found)))))

  held_nonneg :
      (scope meter : String) (now : ℕ) (id : String) (r : Reservation)
      → NonNegative (id, r)
      → pos 0 ≤ℤ held_now (budget_amount scope meter) now r
  held_nonneg scope meter now id r nn = ground (arith, sum_nonneg scope meter r.details nn)

  -- Releasing keeps the state safe.
  pub release-IsSafe :
      (id : String) (now : ℕ) (kv kv' : Kv)
      → IsSafe cap now kv
      → release id now kv ≡ ok kv'
      → IsSafe cap now kv'
  unfolding release
  release-IsSafe id now kv kv' safe done = elim (Option-cases (lookup id kv.reservations)) [
    | inl unknown ↦ subst (IsSafe cap now) (ok_injective _ _ (rw unknown at done)) safe
    | inr (r, found) ↦ released_IsSafe id now kv kv' safe r found r.state (rw found at done)
  ]
    where
      released_IsSafe :
          (id : String) (now : ℕ) (kv kv' : Kv)
          → IsSafe cap now kv
          → (r : Reservation) → lookup id kv.reservations ≡ some r
          → (st : State) → release_at st id now r kv ≡ ok kv'
          → IsSafe cap now kv'
      released_IsSafe id now kv kv' safe r found settled e = absurd (cc)
      released_IsSafe id now kv kv' safe r found released e =
          subst (IsSafe cap now) (ok_injective _ _ e) safe
      released_IsSafe id now kv kv' safe r found active e =
          let same = ok_injective _ _ e in
          subst (IsSafe cap now) same (
            replace-IsSafe now id r (close released r.charges_digest now r) kv _ safe found refl
              refl
              (λ scope meter. omega (
                int_laws,
                held_nonneg scope meter now id r
                    (lookup-NonNegative id r kv.reservations safe.positive found),
              )))

  held-renewed :
      (scope meter : String) (now later : ℕ) (id : String) (r : Reservation)
      → is_live now r ≡ true
      → NonNegative (id, r)
      → held_now (budget_amount scope meter) now (record r { expires_at = later })
        ≤ℤ held_now (budget_amount scope meter) now r
  held-renewed scope meter now later id r live nn =
      ground (arith, sum_nonneg scope meter r.details nn)

  -- Renewing keeps the state safe.
  pub renew-IsSafe :
      (id : String) (lease now : ℕ) (kv : Kv)
      → IsSafe cap now kv
      → IsSafe cap now (renew id lease now kv).1
  unfolding renew
  renew-IsSafe id lease now kv safe = elim (Option-cases (lookup id kv.reservations)) [
    | inl unknown ↦ rw unknown safe
    | inr (r, found) ↦ elim (Bool-cases (is_live now r)) [
      | inr gone ↦ rw (found, gone) safe
      | inl live ↦
          rw (found, live)
            (replace-IsSafe now id r (record r { expires_at = now + lease }) kv _ safe found refl
              refl
              (λ scope meter. omega (
                int_laws,
                held-renewed scope meter now (now + lease) id r live
                    (lookup-NonNegative id r kv.reservations safe.positive found),
              )))
    ]
  ]
