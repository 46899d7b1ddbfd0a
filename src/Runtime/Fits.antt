-- ===== src/Runtime/Fits.antt =====
-- What holds of a call or a note that passes `_precheck` of src/pollard/runtime.py.
use mathlib.Core.Path.{subst}
use pollard.Common.{
  ℕ, String, ◌≡◌, refl, ap, sym, ◌∙◌, not, ◌&&◌, List, Option, none, some, string_eq, All,
  Bool-cases, inl, inr,
}
use pollard.Common.Int.{ℤ}
use pollard.Common.Dict.{Dict}
use pollard.Errors.{Result, ok, err}
use pollard.Json.{Fields}
use pollard.Hashing.{Sha256}
use pollard.Tree.{NodeKind, kind_text}
use pollard.Store.{member}
use pollard.Governor.Charges.{Amounts}
use pollard.Runtime.{Outcome, returned, Run, Step, return}
use pollard.Runtime.Returned.{same_return, after-returned, or_raise-returned}
use pollard.Runtime.Cursor.{depth}
use pollard.Runtime.Config.{Config, Moment, Reservation}
use pollard.Arbiter.{BudgetReservation, WindowReservation, Kv, ReservationCheck, granted, refused}
use pollard.Runtime.Refuse.{refuse, arbiter_refused}
use pollard.Runtime.Precheck.{
  reserve_kind, reserve_answer, reserve_or_refuse, reserve_shared, reserved, unreserved, is_empty,
  takes_reservation, precheck,
}
use pollard.Runtime.Checked.{
  SamePlace, EstimatedBy, ScopeFits, ReservedFor, refuse-raises, scopes-Fit, windows-same,
  estimates-known,
}

module _ ⦃h : Sha256⦄ ⦃a : Amounts⦄ {S : Type 0} (c : Config) (o : Moment) where
  answered-place :
      (r r₁ : Run S) (x : Result ReservationCheck × Kv) (v : ReservationCheck)
      → reserve_answer r x ≡ (r₁, returned v)
      → SamePlace r r₁
  answered-place r r₁ (err e, kv) v q = absurd (cc (ap (λ (p : Run S × Outcome _). p.1) q))
  answered-place r r₁ (ok answer, kv) v q =
      let run = ap (λ (p : Run S × Outcome _). p.0) q in
      (sym (ap (λ (x : Run S). x.world.store) run), sym (ap (λ (x : Run S). x.cursor_id) run))

  abbrev PlaceFor : Run S → Run S → Dict String ℤ → Option Reservation → Type 0
  PlaceFor r r' estimates v = SamePlace r r' × ReservedFor estimates v

  reserve-place :
      (kind : String) (payload : Fields) (estimates : Dict String ℤ) (approximate : List String)
      (budgets : List BudgetReservation) (windows : List WindowReservation) (kv : Kv) (r r' : Run S)
      (v : Option Reservation)
      → reserve_or_refuse c o kind payload estimates approximate budgets windows kv r
        ≡ (r', returned v)
      → PlaceFor r r' estimates v
  unfolding reserve_or_refuse
  reserve-place kind payload estimates approximate budgets windows kv r r' v e =
      let (r₁, answer, q, e₁) = after-returned _ _ r' v e in
      answered answer r₁ e₁ (answered-place r r₁ _ answer q)
    where
      answered :
          (answer : ReservationCheck) (r₁ : Run S)
          → (elim answer as (λ x. Step S (Option Reservation)) [
            | granted ↦ return (reserved o.reservation_id estimates)
            | refused x ↦ refuse c o (arbiter_refused x (member x.meter approximate)) kind payload
          ])
              r₁
            ≡ (r', returned v)
          → SamePlace r r₁
          → PlaceFor r r' estimates v
      answered granted r₁ q place =
          let (back, value) = same_return r₁ r' (reserved o.reservation_id estimates) v q in
          (subst (SamePlace r) (sym back) place, subst (ReservedFor estimates) value refl)
      answered (refused x) r₁ q place = absurd (
          refuse-raises c o (arbiter_refused x (member x.meter approximate)) kind payload r₁ r' v q)

  returned-PlaceFor :
      (estimates : Dict String ℤ) (r r' : Run S) (w v : Option Reservation)
      → ReservedFor estimates w
      → ◌≡◌ {A = Run S × Outcome (Option Reservation)} (r, returned w) (r', returned v)
      → PlaceFor r r' estimates v
  returned-PlaceFor estimates r r' w v for q =
      let (back, value) = same_return r r' w v q in
      (subst (SamePlace r) (sym back) (refl, refl), subst (ReservedFor estimates) value for)

  shared-place :
      (kind : String) (payload : Fields) (estimates : Dict String ℤ) (approximate : List String)
      (kv : Kv) (r r' : Run S) (v : Option Reservation)
      → reserve_shared c o kind payload estimates approximate kv r ≡ (r', returned v)
      → PlaceFor r r' estimates v
  unfolding reserve_shared
  shared-place kind payload estimates approximate kv r r' v e =
      let (budgets, asked, e₁) = or_raise-returned _ _ r r' v e in
      let (r₁, windows, q, e₂) = after-returned _ _ r' v e₁ in
      let same = windows-same c o kind payload c.meters r r₁ windows q in
      elim (Bool-cases (is_empty budgets && is_empty windows)) [
        | inl nothing ↦
            subst (λ x. PlaceFor x r' estimates v) same
              (returned-PlaceFor estimates r₁ r' (unreserved estimates) v refl (rw nothing at e₂))
        | inr asks ↦
            subst (λ x. PlaceFor x r' estimates v) same
              (reserve-place kind payload estimates approximate budgets windows kv r₁ r' v
                (rw asks at e₂))
      ]

  kind-place :
      (kind : NodeKind) (payload : Fields) (estimates : Dict String ℤ) (approximate : List String)
      (r r' : Run S) (v : Option Reservation)
      → reserve_kind c o kind payload estimates approximate r ≡ (r', returned v)
      → PlaceFor r r' estimates v
  kind-place kind payload estimates approximate r r' v e =
      elim (Bool-cases (not (takes_reservation kind))) [
        | inl free ↦ returned-PlaceFor estimates r r' none v tt (rw free at e)
        | inr taken ↦ under_arbiter r.world.arbiter (rw taken at e)
      ]
    where
      under_arbiter :
          (arbiter : Option Kv)
          → (elim arbiter as (λ x. Run S × Outcome (Option Reservation)) [
            | none ↦ (r, returned (unreserved estimates))
            | some kv ↦ reserve_shared c o (kind_text kind) payload estimates approximate kv r
          ])
            ≡ (r', returned v)
          → PlaceFor r r' estimates v
      under_arbiter none q = returned-PlaceFor estimates r r' (unreserved estimates) v refl q
      under_arbiter (some kv) q =
          shared-place (kind_text kind) payload estimates approximate kv r r' v q

  -- A call or a note that passes the checks fits every budget scope of its run: its estimates are
  -- within each limit together with what the scope's subtree was charged, and no exhausted meter has a
  -- limit. The estimate under a name is that of the last meter of this name that has one, and under
  -- "depth" the depth of the new node, which is one more than the cursor's. The reservation is for these
  -- estimates.
  pub precheck_fits :
      (kind : NodeKind) (payload : Fields) (run run' : Run S) (v : Option Reservation)
      → precheck c o kind payload run ≡ (run', returned v)
      → (estimates : Dict String ℤ) × (d : ℕ) × (depth run'.world.store run'.cursor_id ≡ ok d)
        × EstimatedBy (kind_text kind) payload c.meters d estimates
        × All (ScopeFits run'.world.store estimates) run.budget_scopes
        × ReservedFor estimates v
  unfolding precheck
  precheck_fits kind payload run run' v e =
      let (u, allowed', e₁) = or_raise-returned _ _ run run' v e in
      let (r₁, bound, q₁, e₂) = after-returned _ _ run' v e₁ in
      let (r₂, found, q₂, e₃) = after-returned _ _ run' v e₂ in
      let (back₂, d, deep, depth_estimate) =
        estimates-known c o (kind_text kind) payload r₁ r₂ found q₂ in
      let (r₃, done, q₃, e₄) = after-returned _ _ run' v e₃ in
      let (back₃, fit) =
        scopes-Fit c o (kind_text kind) payload found.0 found.1 run.budget_scopes r₂ r₃ done q₃ in
      let (place, for) = kind-place kind payload found.0 found.1 r₃ run' v e₄ in
      placed found.0 d r₁ r₂ r₃ back₂ back₃ place deep depth_estimate fit for
    where
      placed :
          (estimates : Dict String ℤ) (d : ℕ) (r₁ r₂ r₃ : Run S)
          → r₂ ≡ r₁
          → r₃ ≡ r₂
          → SamePlace r₃ run'
          → depth r₁.world.store r₁.cursor_id ≡ ok d
          → EstimatedBy (kind_text kind) payload c.meters d estimates
          → All (ScopeFits r₂.world.store estimates) run.budget_scopes
          → ReservedFor estimates v
          → (es : Dict String ℤ) × (k : ℕ) × (depth run'.world.store run'.cursor_id ≡ ok k)
            × EstimatedBy (kind_text kind) payload c.meters k es
            × All (ScopeFits run'.world.store es) run.budget_scopes
            × ReservedFor es v
      placed estimates d r₁ r₂ r₃ back₂ back₃ place deep depth_estimate fit for =
          let store : run'.world.store ≡ r₂.world.store =
            place.0 ∙ ap (λ (x : Run S). x.world.store) back₃ in
          let cursor : run'.cursor_id ≡ r₂.cursor_id =
            place.1 ∙ ap (λ (x : Run S). x.cursor_id) back₃ in
          (
            estimates,
            d,
            ap (λ s. depth s run'.cursor_id) store
                ∙ ap (depth r₂.world.store) cursor
                ∙ ap (λ (x : Run S). depth x.world.store x.cursor_id) back₂
                ∙ deep,
            depth_estimate,
            subst (λ s. All (ScopeFits s estimates) run.budget_scopes) (sym store) fit,
            for,
          )
