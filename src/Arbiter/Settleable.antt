-- ===== src/Arbiter/Settleable.antt =====
-- When `_settle_once` and `_release_once` of src/pollard/stores/_transactional.py succeed.
use pollard.Common.{
  ℕ, suc, String, ◌≡◌, refl, ap, ◌∙◌, true, List, [], ◌∷◌, Option, none, some, is_some, ◌==◌,
  string_eq, pair_eq, if◌then◌else◌, All, All-mono, eq_refl, Bool-cases, Option-cases, inl, inr,
}
use pollard.Common.Int.{ℤ, pos, ◌+ℤ◌, int_eq}
use pollard.Common.Dict.{Dict, lookup, insert, lookup-insert}
use pollard.Errors.{ok}
use pollard.Hashing.{Sha256}
use pollard.Arbiter.{Detail, budget, window, State, active, settled, released, Reservation, Kv}
use pollard.Arbiter.Request.{charges_digest}
use pollard.Arbiter.Operations.{settle, settle_details, release, close, charge_of, details_check}
use pollard.Arbiter.Settle.{settle_effect}

-- The budget that a detail names is there.
abbrev pub HasBudget : Dict (String × String) ℤ → Detail → Type 0
HasBudget budgets (budget s m a) = is_some (lookup (s, m) budgets) ≡ true
HasBudget budgets (window s m a w) = Unit

-- The reservation is held under this id, and can be settled.
pub record Settleable (id : String) (kv : Kv) : Type 0 where
  pub held : Reservation
  pub found : lookup id kv.reservations ≡ some held
  pub open_state : held.state ≡ active
  pub first : Detail
  pub rest : List Detail
  pub detailed : held.details ≡ first ∷ rest
  pub budgeted : All (HasBudget kv.budgets) held.details

HasBudget-insert :
    (budgets : Dict (String × String) ℤ) (s m : String) (x : ℤ) (d : Detail)
    → HasBudget budgets d
    → HasBudget (insert (s, m) x budgets) d
HasBudget-insert budgets s m x (window t n a w) e = tt
HasBudget-insert budgets s m x (budget t n a) e =
    rw (lookup-insert {K = String × String} (s, m) (t, n) x budgets)
      (elim (Bool-cases (◌==◌ {A = String × String} (s, m) (t, n))) [
        | inl own ↦ rw own refl
        | inr other ↦ rw other e
      ])

settle_details_total :
    (id : String) (charges : Dict String ℤ) (now index : ℕ) (ds : List Detail) (kv : Kv)
    → All (HasBudget kv.budgets) ds
    → (kv' : Kv) × (settle_details id charges now index ds kv ≡ ok kv')
unfolding settle_details
settle_details_total id charges now index [] kv h = (kv, refl)
settle_details_total id charges now index (budget s m a ∷ ds) kv h =
    elim (Option-cases (lookup (s, m) kv.budgets)) [
      | inl gone ↦ absurd (cc (rw gone at h.0))
      | inr (stored, e) ↦ rw e (
          settle_details_total id charges now (suc index) ds
            (record kv { budgets = insert (s, m) (stored +ℤ charge_of m charges) kv.budgets })
            (All-mono (HasBudget kv.budgets)
              (HasBudget (insert (s, m) (stored +ℤ charge_of m charges) kv.budgets))
              (HasBudget-insert kv.budgets s m (stored +ℤ charge_of m charges)) ds h.1))
    ]
settle_details_total id charges now index (window s m a w ∷ ds) kv h =
    elim (Bool-cases (charge_of m charges == pos 0)) [
      | inl free ↦ rw free (settle_details_total id charges now (suc index) ds kv h.1)
      | inr charged ↦ rw charged (settle_details_total id charges now (suc index) ds _ h.1)
    ]

abbrev pub state_in : Option Reservation → Option State
state_in none = none
state_in (some r) = some r.state

-- The state of the reservation under an id.
abbrev pub state_of : String → Kv → Option State
state_of id kv = state_in (lookup id kv.reservations)

state_of-written :
    (id : String) (r : Reservation) (kv kv' : Kv)
    → kv'.reservations ≡ insert id r kv.reservations
    → state_of id kv' ≡ some r.state
state_of-written id r kv kv' written = ap state_in (
    ap (lookup id) written
    ∙ lookup-insert id id r kv.reservations
    ∙ ap (λ b. if b then some r else lookup id kv.reservations) (eq_refl id))

module _ ⦃h : Sha256⦄ where
  settles :
      (id : String) (charges : Dict String ℤ) (now : ℕ) (kv : Kv)
      → Settleable id kv
      → (kv' : Kv) × (settle id charges now kv ≡ ok kv')
  unfolding settle
  settles id charges now kv s =
      let (kv₁, q) = settle_details_total id charges now 0 s.held.details kv s.budgeted in
      (
        record kv₁ {
          reservations =
              insert id (close settled (some (charges_digest charges)) now s.held) kv₁.reservations;
        },
        rw (s.found, s.open_state) (rw (checked s) (rw q refl)),
      )
    where
      checked : Settleable id kv → details_check s.held.details ≡ ok tt
      checked t = rw (s.detailed) refl

  -- Whatever is charged, what can be settled is settled.
  pub settle_total :
      (id : String) (charges : Dict String ℤ) (now : ℕ) (kv : Kv)
      → Settleable id kv
      → (kv' : Kv) × (settle id charges now kv ≡ ok kv') × (state_of id kv' ≡ some settled)
  settle_total id charges now kv s =
      let (kv', e) = settles id charges now kv s in
      (
        kv',
        e,
        state_of-written id (close settled (some (charges_digest charges)) now s.held) kv kv'
            ((settle_effect id charges now s.held kv kv' s.found s.open_state e).0),
      )

pub release_total :
    (id : String) (now : ℕ) (kv : Kv)
    → Settleable id kv
    → (kv' : Kv) × (release id now kv ≡ ok kv') × (state_of id kv' ≡ some released)
unfolding release
release_total id now kv s =
    let kv' = record kv {
      reservations = insert id (close released s.held.charges_digest now s.held) kv.reservations;
    } in
    (
      kv',
      rw (s.found, s.open_state) refl,
      state_of-written id (close released s.held.charges_digest now s.held) kv kv' refl,
    )
