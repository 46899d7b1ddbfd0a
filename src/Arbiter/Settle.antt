-- ===== src/Arbiter/Settle.antt =====
-- `_settle_once` of src/pollard/stores/_transactional.py: what it books, and what it stops holding.
use mathlib.Core.Path.{subst}
use pollard.Common.{
  ℕ, suc, String, ◌≡◌, refl, ap, sym, ◌∙◌, ◌&&◌, List, [], ◌∷◌, Option, none, some, ◌==◌, eq-path,
  string_eq, pair_eq, if◌then◌else◌, arith, Bool-cases, inl, inr, keep_if,
}
use pollard.Common.Int.{ℤ, pos, ◌+ℤ◌, int_eq, int_laws, +ℤ_assoc, +ℤ-zero, +ℤ_frame}
use pollard.Common.Dict.{Dict, lookup, insert, lookup-insert, values}
use pollard.Errors.{ok, >>=-eq-ok, ok_injective}
use pollard.Hashing.{Sha256}
use pollard.Arbiter.{
  Detail, budget, window, active, settled, Reservation, Kv, sum_details, active_amount,
  active_reservations, is_live,
}
use pollard.Arbiter.Request.{charges_digest}
use pollard.Arbiter.Operations.{
  settle, settle_active, settle_details, details_check, close, charge_of, budget_state,
}

-- What a reservation holds now, by a measure of details.
abbrev pub held_now : (Detail → ℤ) → ℕ → Reservation → ℤ
held_now f now r = if is_live now r then sum_details f r.details else pos 0

abbrev pub live_amount : (Detail → ℤ) → ℕ → Dict String Reservation → ℤ
live_amount f now d = active_amount f (keep_if (is_live now) (values d))

pub live_amount-cons :
    (f : Detail → ℤ) (now : ℕ) (id : String) (r : Reservation) (d : Dict String Reservation)
    → live_amount f now ((id, r) ∷ d) ≡ held_now f now r +ℤ live_amount f now d
unfolding active_amount
live_amount-cons f now id r d = elim (Bool-cases (is_live now r)) [
  | inl live ↦ rw live refl
  | inr gone ↦ rw gone (omega int_laws)
]

-- Another value for a reservation changes the total by what the two hold.
live_amount-replace :
    (f : Detail → ℤ) (now : ℕ) (id : String) (r r' : Reservation) (d : Dict String Reservation)
    → lookup id d ≡ some r
    → live_amount f now (insert id r' d) +ℤ held_now f now r
      ≡ live_amount f now d +ℤ held_now f now r'
live_amount-replace f now id r r' [] e = absurd (cc)
live_amount-replace f now id r r' ((j, x) ∷ d) e = elim (Bool-cases (j == id)) [
  | inl here ↦
      let same : x ≡ r = ground arith in
      rw here (
        rw (live_amount-cons f now j r' d, live_amount-cons f now j x d) (rw same (omega int_laws)))
  | inr there ↦ rw there (
      rw (live_amount-cons f now j x (insert id r' d), live_amount-cons f now j x d)
        (+ℤ_frame (held_now f now x) (live_amount f now (insert id r' d)) (live_amount f now d)
          (held_now f now r) (held_now f now r')
          (live_amount-replace f now id r r' d (rw there at e))))
]

pub held-replace :
    (f : Detail → ℤ) (now : ℕ) (id : String) (r r' : Reservation) (kv kv' : Kv)
    → lookup id kv.reservations ≡ some r
    → kv'.reservations ≡ insert id r' kv.reservations
    → active_amount f (active_reservations now kv') +ℤ held_now f now r
      ≡ active_amount f (active_reservations now kv) +ℤ held_now f now r'
unfolding active_reservations
held-replace f now id r r' kv kv' e q = rw q (live_amount-replace f now id r r' kv.reservations e)

-- The charge that a detail books on the budget of a scope and a meter.
abbrev pub charge_for : String → String → Dict String ℤ → Detail → ℤ
charge_for scope meter charges (budget s m a) =
    if (s == scope) && (m == meter) then charge_of m charges else pos 0
charge_for scope meter charges (window s m a w) = pos 0

abbrev pub add_amount : ℤ → Option ℤ → Option ℤ
add_amount c none = none
add_amount c (some s) = some (s +ℤ c)

add_amount-zero : (o : Option ℤ) → add_amount (pos 0) o ≡ o
add_amount-zero none = refl
add_amount-zero (some s) = ap some (+ℤ-zero s)

zero_add : (a : ℤ) → a ≡ pos 0 +ℤ a
zero_add a = omega int_laws

add_amount-add : (a b : ℤ) (o : Option ℤ) → add_amount b (add_amount a o) ≡ add_amount (a +ℤ b) o
add_amount-add a b none = refl
add_amount-add a b (some s) = ap some (+ℤ_assoc s a b)

pub stored_of_ok : (o : Option ℤ) (s : ℤ) → budget_state o ≡ ok s → o ≡ some s
stored_of_ok none s e = absurd (cc)
stored_of_ok (some t) s e = ap some (ok_injective t s e)

module _ (id : String) (charges : Dict String ℤ) (now : ℕ) where
  abbrev pub booked : String → String → ℤ → Kv → Kv
  booked s m stored kv = record kv {
    budgets = insert (s, m) (stored +ℤ charge_of m charges) kv.budgets;
  }

  pub lookup-booked :
      (s m : String) (stored : ℤ) (kv : Kv)
      → budget_state (lookup (s, m) kv.budgets) ≡ ok stored
      → (scope meter : String)
      → lookup (scope, meter) (booked s m stored kv).budgets
        ≡ add_amount
            (charge_for scope meter charges (budget s m (pos 0)))
            (lookup (scope, meter) kv.budgets)
  lookup-booked s m stored kv found scope meter =
      elim (Bool-cases (◌==◌ {A = String × String} (s, m) (scope, meter))) [
        | inl own ↦
            let here : lookup (s, m) kv.budgets ≡ some stored =
              stored_of_ok (lookup (s, m) kv.budgets) stored found in
            let moved : lookup (scope, meter) kv.budgets ≡ some stored =
              subst (λ (k : String × String). lookup k kv.budgets ≡ some stored)
                (eq-path {A = String × String} (s, m) (scope, meter) own) here in
            rw
              (lookup-insert {K = String × String} (s, m) (scope, meter)
                (stored +ℤ charge_of m charges) kv.budgets)
              (rw own (rw moved refl))
        | inr other ↦
            rw
              (lookup-insert {K = String × String} (s, m) (scope, meter)
                (stored +ℤ charge_of m charges) kv.budgets)
              (rw other (sym (add_amount-zero (lookup (scope, meter) kv.budgets))))
      ]

  abbrev Effect : List Detail → Kv → Kv → Type 0
  Effect details kv kv' =
      (kv'.reservations ≡ kv.reservations)
      × ((scope meter : String)
          → lookup (scope, meter) kv'.budgets
            ≡ add_amount (sum_details (charge_for scope meter charges) details)
                (lookup (scope, meter) kv.budgets))

  -- The loop leaves the reservations alone, and adds to each budget the charges of its details.
  details-Effect :
      (index : ℕ) (details : List Detail) (kv kv' : Kv)
      → settle_details id charges now index details kv ≡ ok kv'
      → Effect details kv kv'
  unfolding settle_details
  details-Effect index [] kv kv' e =
      let same = ok_injective _ _ e in
      (
        ap (λ (k : Kv). k.reservations) (sym same),
        λ scope meter. rw (← same) (sym (add_amount-zero _)),
      )
  details-Effect index (budget s m a ∷ details) kv kv' e =
      let (stored, found, rest) = >>=-eq-ok (budget_state (lookup (s, m) kv.budgets)) _ e in
      let (kept, effect) = details-Effect (suc index) details (booked s m stored kv) kv' rest in
      (
        kept,
        λ scope meter.
            effect scope meter
            ∙ ap (add_amount (sum_details (charge_for scope meter charges) details))
                (lookup-booked s m stored kv found scope meter)
            ∙ add_amount-add (charge_for scope meter charges (budget s m a))
                (sum_details (charge_for scope meter charges) details)
                (lookup (scope, meter) kv.budgets),
      )
  details-Effect index (window s m a w ∷ details) kv kv' e =
      let keeps : (k : Kv)
          → k.budgets ≡ kv.budgets
          → k.reservations ≡ kv.reservations
          → settle_details id charges now (suc index) details k ≡ ok kv'
          → Effect (window s m a w ∷ details) kv kv' =
        λ k b r q.
          let (kept, effect) = details-Effect (suc index) details k kv' q in
          (
            kept ∙ r,
            λ scope meter.
                effect scope meter
                ∙ ap
                    (λ d.
                      add_amount (sum_details (charge_for scope meter charges) details)
                        (lookup (scope, meter) d))
                    b
                ∙ ap (λ z. add_amount z (lookup (scope, meter) kv.budgets)) (zero_add _),
          ) in
      elim (Bool-cases (charge_of m charges == pos 0)) [
        | inl free ↦ keeps kv refl refl (rw free at e)
        | inr charged ↦ keeps _ refl refl (rw charged at e)
      ]

module _ ⦃h : Sha256⦄ (id : String) (charges : Dict String ℤ) (now : ℕ) (r : Reservation)
    (kv kv' : Kv) (found : lookup id kv.reservations ≡ some r) (open_state : r.state ≡ active)
    (done : settle id charges now kv ≡ ok kv') where
  abbrev closed : Reservation
  closed = close settled (some (charges_digest charges)) now r

  -- The reservation is closed as settled, and each budget grows by the charges that the details
  -- book on it.
  pub settle_effect :
      (kv'.reservations ≡ insert id closed kv.reservations)
      × ((scope meter : String)
          → lookup (scope, meter) kv'.budgets
            ≡ add_amount
                (sum_details (charge_for scope meter charges) r.details)
                (lookup (scope, meter) kv.budgets))
  unfolding settle
  settle_effect =
      let e : settle_active id charges (charges_digest charges) now r kv ≡ ok kv' =
        rw (found, open_state) at done in
      let (_, _, e₁) = >>=-eq-ok (details_check r.details) _ e in
      let (kv₁, q, e₂) = >>=-eq-ok (settle_details id charges now 0 r.details kv) _ e₁ in
      let (kept, effect) = details-Effect id charges now 0 r.details kv kv₁ q in
      let same = ok_injective _ _ e₂ in
      (
        sym (ap (λ (k : Kv). k.reservations) same) ∙ ap (insert id closed) kept,
        λ scope meter.
            sym (ap (λ (k : Kv). lookup (scope, meter) k.budgets) same) ∙ effect scope meter,
      )
