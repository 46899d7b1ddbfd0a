-- ===== src/Arbiter/Charged.antt =====
-- What a settlement of src/pollard/stores/_transactional.py adds to the budgets, and that releasing and
-- renewing leave them.
use pollard.Common.{
  ℕ, suc, String, ◌≡◌, refl, ap, sym, ◌∙◌, List, [], ◌∷◌, none, some, ◌==◌, string_eq, pair_eq, All,
  Bool-cases, Option-cases, inl, inr, eq-path,
}
use mathlib.Core.Path.{subst}
use pollard.Common.Int.{ℤ, pos, ◌+ℤ◌, int_eq}
use pollard.Common.Dict.{Dict, lookup}
use pollard.Errors.{ok, >>=-eq-ok, ok_injective}
use pollard.Hashing.{Sha256}
use pollard.Arbiter.{
  Detail, budget, window, State, active, settled, released, Reservation, Kv, sum_details, is_live,
  BudgetReservation, WindowReservation, ReservationCheck, budget_rows,
}
use pollard.Arbiter.Request.{charges_digest, request_digest}
use pollard.Arbiter.Operations.{
  settle, settle_details, settle_active, details_check, charge_of, budget_state, release,
  release_at, renew, reserve, reserve_new,
}
use pollard.Arbiter.Honest.{settled_of, BaselineSettled, reserve_new-outcome}
use pollard.Arbiter.Safety.{retry_same}
use pollard.Arbiter.Settle.{charge_for, booked, lookup-booked, stored_of_ok, settle_effect}

module _ (id : String) (charges : Dict String ℤ) (now : ℕ) (scope meter : String) where
  -- Details that are booked name no budget that is not there.
  details_booked :
      (index : ℕ) (details : List Detail) (kv kv' : Kv)
      → settle_details id charges now index details kv ≡ ok kv'
      → lookup (scope, meter) kv.budgets ≡ none
      → sum_details (charge_for scope meter charges) details ≡ pos 0
  unfolding settle_details ◌+ℤ◌
  details_booked index [] kv kv' e gone = refl
  details_booked index (budget s m a ∷ details) kv kv' e gone =
      let (stored, found, rest) = >>=-eq-ok (budget_state (lookup (s, m) kv.budgets)) _ e in
      let gone' : lookup (scope, meter) (booked id charges now s m stored kv).budgets ≡ none =
        lookup-booked id charges now s m stored kv found scope meter ∙ (rw gone refl) in
      let tail =
        details_booked (suc index) details (booked id charges now s m stored kv) kv' rest gone' in
      elim (Bool-cases (◌==◌ {A = String × String} (s, m) (scope, meter))) [
        | inl own ↦
            let here : lookup (scope, meter) kv.budgets ≡ some stored =
              subst (λ (k : String × String). lookup k kv.budgets ≡ some stored)
                (eq-path {A = String × String} (s, m) (scope, meter) own)
                (stored_of_ok (lookup (s, m) kv.budgets) stored found) in
            absurd (cc (here, gone))
        | inr other ↦ rw other (rw tail refl)
      ]
  details_booked index (window s m a w ∷ details) kv kv' e gone =
      elim (Bool-cases (charge_of m charges == pos 0)) [
        | inl free ↦ rw (details_booked (suc index) details kv kv' (rw free at e) gone) refl
        | inr charged ↦ rw (details_booked (suc index) details _ kv' (rw charged at e) gone) refl
      ]

module _ ⦃h : Sha256⦄ (id : String) (charges : Dict String ℤ) (now : ℕ) (r : Reservation)
    (kv kv' : Kv) (found : lookup id kv.reservations ≡ some r) (open_state : r.state ≡ active)
    (done : settle id charges now kv ≡ ok kv') where
  pub settle-settled_of :
      (scope meter : String)
      → settled_of kv'.budgets (scope, meter)
        ≡ settled_of kv.budgets (scope, meter)
          +ℤ sum_details (charge_for scope meter charges) r.details
  unfolding settle ◌+ℤ◌
  settle-settled_of scope meter =
      let effect = (settle_effect id charges now r kv kv' found open_state done).1 scope meter in
      elim (Option-cases (lookup (scope, meter) kv.budgets)) [
        | inr (stored, e) ↦ rw effect (rw e refl)
        | inl gone ↦
            let parts : settle_active id charges (charges_digest charges) now r kv ≡ ok kv' =
              rw (found, open_state) at done in
            let (_, _, e₁) = >>=-eq-ok (details_check r.details) _ parts in
            let (kv₁, q, e₂) = >>=-eq-ok (settle_details id charges now 0 r.details kv) _ e₁ in
            rw effect (
              rw gone
                (rw (details_booked id charges now scope meter 0 r.details kv kv₁ q gone) refl))
      ]

pub release-budgets :
    (id : String) (now : ℕ) (kv kv' : Kv) → release id now kv ≡ ok kv' → kv'.budgets ≡ kv.budgets
unfolding release
release-budgets id now kv kv' done = elim (Option-cases (lookup id kv.reservations)) [
  | inl gone ↦ ap (λ (k : Kv). k.budgets) (sym (ok_injective kv kv' (rw gone at done)))
  | inr (r, found) ↦ released_at r.state r (rw found at done)
]
  where
    released_at :
        (st : State) (r : Reservation)
        → release_at st id now r kv ≡ ok kv'
        → kv'.budgets ≡ kv.budgets
    released_at active r e = ap (λ (k : Kv). k.budgets) (sym (ok_injective _ kv' e))
    released_at settled r e = absurd (cc)
    released_at released r e = ap (λ (k : Kv). k.budgets) (sym (ok_injective _ kv' e))

pub renew-budgets :
    (id : String) (lease now : ℕ) (kv : Kv) → (renew id lease now kv).1.budgets ≡ kv.budgets
unfolding renew
renew-budgets id lease now kv = elim (Option-cases (lookup id kv.reservations)) [
  | inl gone ↦ rw gone refl
  | inr (r, found) ↦ elim (Bool-cases (is_live now r)) [
    | inl live ↦ rw found (rw live refl)
    | inr ended ↦ rw found (rw ended refl)
  ]
]

-- Neither a new reservation nor a retry changes what has settled, where no more is claimed.
pub reserve-settled_of :
    ⦃h : Sha256⦄ (id : String) (budgets : List BudgetReservation) (windows : List WindowReservation)
    (lease now : ℕ) (answer : ReservationCheck) (kv kv' : Kv)
    → All (BaselineSettled kv.budgets) (budget_rows budgets)
    → reserve id budgets windows lease now kv ≡ ok (answer, kv')
    → (key : String × String) → settled_of kv'.budgets key ≡ settled_of kv.budgets key
unfolding reserve
reserve-settled_of id budgets windows lease now answer kv kv' claims done key =
    elim (Option-cases (lookup id kv.reservations)) [
      | inl fresh ↦
          let p : reserve_new id (request_digest budgets windows lease) budgets windows lease now kv
              ≡ (answer, kv') =
            ok_injective _ _ (rw fresh at done) in
          ap (λ (q : ReservationCheck × Kv). settled_of q.1.budgets key) (sym p)
          ∙ (reserve_new-outcome id (request_digest budgets windows lease) budgets windows lease now
                kv claims).0
              key
      | inr (r, found) ↦
          ap (λ (k : Kv). settled_of k.budgets key)
            (retry_same (λ k. pos 0) r (request_digest budgets windows lease) now kv kv' answer
              (rw found at done))
    ]
