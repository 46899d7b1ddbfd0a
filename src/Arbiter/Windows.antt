-- ===== src/Arbiter/Windows.antt =====
-- The sliding windows of `_reserve_once` in src/pollard/stores/_transactional.py.
use pollard.Common.{
  ℕ, ◌+◌, ◌<◌, String, ◌≡◌, refl, ap, ◌∙◌, Bool, true, false, ◌&&◌, List, [], ◌∷◌, map, none, ◌==◌,
  eq_refl, string_eq, if◌then◌else◌, arith, All, All-mono2, Bool-cases, inl, inr, ltb, keep_if,
}
use pollard.Common.Int.{ℤ, pos, ◌+ℤ◌, ◌-ℤ◌, ◌≤ℤ◌, ltb_ℤ, int_laws, le-of_ltb_ℤ, +ℤ-zero}
use pollard.Common.Dict.{Dict, lookup}
use pollard.Common.Sort.{sorted}
use pollard.Common.Sort
use pollard.Errors.{ok}
use pollard.Hashing.{Sha256}
use pollard.Arbiter.{
  BudgetReservation, WindowReservation, WindowEvent, Reservation, granted, Kv, Row, Detail,
  active_amount, active_reservations, window_amount, budget_rows, sum_details,
}
use pollard.Arbiter.Request.{ledger_before}
use pollard.Arbiter.Operations.{
  reserve, check_windows, window_settled, purge, is_recent, details_of, budget_detail,
  window_detail,
}
use pollard.Arbiter.Amounts.{sum_details-append}
use pollard.Arbiter.Reserve.{granted_parts, held_after}

abbrev Events : Type 0
Events = Dict (String × ℕ) WindowEvent

abbrev pub held_in : WindowReservation → Detail → ℤ
held_in request = window_amount request.ledger_key request.meter

-- Windows over different ledgers or meters.
abbrev pub WindowDiffers : WindowReservation → WindowReservation → Type 0
WindowDiffers a b = (a.ledger_key == b.ledger_key && a.meter == b.meter) ≡ false

abbrev pub DistinctWindows : List WindowReservation → Type 0
DistinctWindows [] = Unit
DistinctWindows (w ∷ ws) = All (WindowDiffers w) ws × DistinctWindows ws

held_other :
    (a b : WindowReservation)
    → WindowDiffers a b
    → (held_in a (window_detail b) ≡ pos 0) × (held_in b (window_detail a) ≡ pos 0)
held_other a b h = (
  ground (
    arith,
    string_eq.beq_iff a.ledger_key b.ledger_key,
    string_eq.beq_iff b.ledger_key a.ledger_key,
    string_eq.beq_iff a.meter b.meter,
    string_eq.beq_iff b.meter a.meter,
  ),
  ground (arith, h),
)

held_self : (a : WindowReservation) → held_in a (window_detail a) ≡ a.amount
held_self a = ground (arith, eq_refl a.ledger_key, eq_refl a.meter)

sum_other :
    (w : WindowReservation) (ws : List WindowReservation)
    → All (WindowDiffers w) ws
    → sum_details (held_in w) (map window_detail ws) ≡ pos 0
sum_other w [] h = refl
sum_other w (x ∷ ws) h = rw (sum_other w ws h.1) (rw ((held_other w x h.0).0) (omega int_laws))

sum_budgets :
    (w : WindowReservation) (rows : List Row)
    → sum_details (held_in w) (map budget_detail rows) ≡ pos 0
sum_budgets w [] = refl
sum_budgets w (r ∷ rows) = rw (sum_budgets w rows) (omega int_laws)

sum_own :
    (ws : List WindowReservation)
    → DistinctWindows ws
    → All (λ w. sum_details (held_in w) (map window_detail ws) ≡ w.amount) ws
sum_own [] d = tt
sum_own (x ∷ ws) d = (
  rw (sum_other x ws d.0) (rw (held_self x) (+ℤ-zero x.amount)),
  All-mono2 ws d.0 (sum_own ws d.1)
      (λ w other own. rw ((held_other x w other).1) (rw own (omega int_laws))),
)

-- What is in the window and held, with the request's own amount, is within the limit.
abbrev FitsWindow : ℕ → List Reservation → Events → WindowReservation → Type 0
FitsWindow now live events w =
    window_settled now w events +ℤ active_amount (held_in w) live +ℤ w.amount ≤ℤ w.limit

abbrev window_remaining : ℕ → List Reservation → Events → WindowReservation → ℤ
window_remaining now live events w =
    w.limit -ℤ window_settled now w events -ℤ active_amount (held_in w) live

windows_granted :
    (now : ℕ) (live : List Reservation) (events : Events) (ws : List WindowReservation)
    → check_windows now live events ws ≡ granted
    → All (FitsWindow now live events) ws
unfolding check_windows
windows_granted now live events [] e = tt
windows_granted now live events (w ∷ ws) e =
    elim (Bool-cases (ltb_ℤ (window_remaining now live events w) w.amount)) [
      | inl stops ↦ absurd (cc (rw stops at e))
      | inr passes ↦ (
        omega (int_laws, le-of_ltb_ℤ (window_remaining now live events w) w.amount passes),
        windows_granted now live events ws (rw passes at e),
      )
    ]

-- The events of one ledger and meter carry the window of the request.
abbrev pub SameWindow : WindowReservation → (String × ℕ) × WindowEvent → Type 0
SameWindow w (key, event) =
    (event.scope_id == w.ledger_key && event.meter == w.meter) ≡ true
    → event.window_seconds ≡ w.window_seconds

-- Does the event count for the request now, and with what amount?
abbrev counted : ℕ → WindowReservation → WindowEvent → Bool
counted now w event =
    event.scope_id == w.ledger_key
    && event.meter == w.meter
    && ltb now (event.settled_at + w.window_seconds)

abbrev counted_amount : ℕ → WindowReservation → WindowEvent → ℤ
counted_amount now w event = if counted now w event then event.amount else pos 0

old-counted :
    (now : ℕ) (w : WindowReservation) (key : String × ℕ) (event : WindowEvent)
    → SameWindow w (key, event)
    → is_recent now (key, event) ≡ false
    → counted now w event ≡ false
old-counted now w key event same old = ground arith

-- Deleting the events whose window has passed does not change what counts for a request whose ledger
-- has one window length.
pub purge-window_settled :
    (now : ℕ) (w : WindowReservation) (events : Events)
    → All (SameWindow w) events
    → window_settled now w (keep_if (is_recent now) events) ≡ window_settled now w events
unfolding window_settled
purge-window_settled now w [] h = refl
purge-window_settled now w ((key, event) ∷ events) h =
    elim (Bool-cases (is_recent now (key, event))) [
      | inl recent ↦
          rw recent
            (ap (λ x. counted_amount now w event +ℤ x) (purge-window_settled now w events h.1))
      | inr old ↦ rw old (
          purge-window_settled now w events h.1
          ∙ (rw (old-counted now w key event h.0 old) (omega int_laws)))
    ]

-- What had settled inside the window before, and what live reservations hold of it now, is within its
-- limit.
abbrev pub WithinWindow : ℕ → Kv → Kv → WindowReservation → Type 0
WithinWindow now before kv w =
    window_settled now w before.events +ℤ active_amount (held_in w) (active_reservations now kv)
    ≤ℤ w.limit

module _ ⦃h : Sha256⦄ (id : String) (budgets : List BudgetReservation)
    (windows : List WindowReservation) (lease now : ℕ) (kv kv' : Kv)
    (fresh : lookup id kv.reservations ≡ none) (held : 0 < lease)
    (granted_now : reserve id budgets windows lease now kv ≡ ok (granted, kv')) where
  window_within :
      (w : WindowReservation)
      → FitsWindow now (active_reservations now kv) (purge now kv).events w
      → sum_details (held_in w) (map window_detail windows) ≡ w.amount
      → All (SameWindow w) kv.events
      → WithinWindow now kv kv' w
  window_within w fits own same =
      let after =
        held_after id budgets windows lease now kv kv' fresh held granted_now (held_in w) in
      let parts = granted_parts id budgets windows lease now kv kv' fresh held granted_now in
      let all : sum_details (held_in w) (details_of (budget_rows budgets) windows) ≡ w.amount =
        rw
          (sum_details-append (held_in w) (map budget_detail (budget_rows budgets))
            (map window_detail windows))
          (rw (sum_budgets w (budget_rows budgets), own) (omega int_laws)) in
      rw after (rw all (rw (← purge-window_settled now w kv.events same) (omega (int_laws, fits))))

  -- A granted reservation with a new id and distinct windows, where the events of each requested ledger
  -- and meter have the window's length: in every requested window, what had settled inside it before,
  -- and what all live reservations hold afterwards, the new one included, is within its limit.
  pub reserve-WithinWindow :
      DistinctWindows windows
      → All (λ w. All (SameWindow w) kv.events) windows
      → All (WithinWindow now kv kv') windows
  reserve-WithinWindow d same =
      let own_and_same : All
          (λ w.
            (sum_details (held_in w) (map window_detail windows) ≡ w.amount)
            × All (SameWindow w) kv.events)
          windows =
        All-mono2 windows (sum_own windows d) same (λ w own kept. (own, kept)) in
      All-mono2 windows
        (Sort.All-of_sorted ledger_before
          (FitsWindow now (active_reservations now kv) (purge now kv).events) windows
          (windows_granted now (active_reservations now kv) (purge now kv).events
            (sorted ledger_before windows)
            ((granted_parts id budgets windows lease now kv kv' fresh held granted_now).1)))
        own_and_same (λ w fits both. window_within w fits both.0 both.1)
