-- ===== src/Arbiter/Rows.antt =====
-- The loop over the budget rows in `_reserve_once` of src/pollard/stores/_transactional.py.
use mathlib.Core.Path.{subst}
use pollard.Common.{
  String, ◌≡◌, refl, ap, sym, ◌∙◌, true, false, List, [], ◌∷◌, none, some, ◌==◌, eq_refl, eq-path,
  get_or, All-mono2, ◌⊎◌, string_eq, pair_eq, if◌then◌else◌, All, Bool-cases, inl, inr,
  Option-cases,
}
use pollard.Common.Int.{
  ℤ, pos, ◌+ℤ◌, ◌-ℤ◌, ◌≤ℤ◌, ltb_ℤ, int_eq, int_laws, le-of_ltb_ℤ, le-of_ltb_ℤ_true,
}
use pollard.Common.Dict.{Dict, lookup, lookup-insert}
use pollard.Common.Sort
use pollard.Common.Sort.{sorted, insert_sorted, All-insert_sorted}
use pollard.Arbiter.{
  Reservation, ReservationCheck, granted, refused, Row, row_key, row_amount, row_before,
  active_amount, settled_amount, store_settled, check_rows,
}
use pollard.Arbiter.Amounts.{KeyDiffers, KeyDiffers-sym, DistinctRows, held_by}

abbrev pub Budgets : Type 0
Budgets = Dict (String × String) ℤ

-- What the budgets have settled for a key.
abbrev pub settled_of : Budgets → String × String → ℤ
settled_of budgets key = get_or (pos 0) (lookup key budgets)

-- What the caller claims as settled.
abbrev pub row_baseline : Row → ℤ
row_baseline row = get_or (pos 0) (lookup row.meter row.request.baseline)

-- The amount is what these budgets have settled for the row, or the caller's claim if that is more.
pub record Accounts (budgets : Budgets) (row : Row) (amount : ℤ) : Type 0 where
  pub stored : settled_of budgets (row_key row) ≤ℤ amount
  pub claimed : row_baseline row ≤ℤ amount
  pub one_of : (amount ≡ settled_of budgets (row_key row)) ⊎ (amount ≡ row_baseline row)

settled_amount-Accounts :
    (before budgets : Budgets) (row : Row)
    → lookup (row_key row) budgets ≡ lookup (row_key row) before
    → Accounts before row (settled_amount budgets row)
unfolding settled_amount
settled_amount-Accounts before budgets row same =
    elim (Bool-cases (ltb_ℤ (settled_of before (row_key row)) (row_baseline row))) [
      | inl more ↦ rw same (
          rw more (record {
            stored = le-of_ltb_ℤ_true (settled_of before (row_key row)) (row_baseline row) more;
            claimed = omega int_laws;
            one_of = inr refl;
          }))
      | inr less ↦ rw same (
          rw less (record {
            stored = omega int_laws;
            claimed = le-of_ltb_ℤ (settled_of before (row_key row)) (row_baseline row) less;
            one_of = inl refl;
          }))
    ]

distinct-insert_sorted :
    (r : Row) (rows : List Row)
    → All (KeyDiffers r) rows
    → DistinctRows rows
    → DistinctRows (insert_sorted row_before r rows)
distinct-insert_sorted r [] h d = (tt, tt)
distinct-insert_sorted r (x ∷ rows) h d = elim (Bool-cases (row_before x r)) [
  | inl after ↦ rw after (
    All-insert_sorted row_before (KeyDiffers x) r rows (KeyDiffers-sym r x h.0) d.0,
    distinct-insert_sorted r rows h.1 d.1,
  )
  | inr here ↦ rw here (h, d)
]

pub distinct-sorted : (rows : List Row) → DistinctRows rows → DistinctRows (sorted row_before rows)
distinct-sorted [] d = tt
distinct-sorted (r ∷ rows) d =
    distinct-insert_sorted r (sorted row_before rows) (All-sorted_rows r rows d.0)
      (distinct-sorted rows d.1)
  where
    All-sorted_rows :
        (r : Row) (rows : List Row)
        → All (KeyDiffers r) rows
        → All (KeyDiffers r) (sorted row_before rows)
    All-sorted_rows r rows h = Sort.All-sorted row_before (KeyDiffers r) rows h

-- The settled amount is stored under the row's key, and under no other.
pub lookup-store_settled :
    (key j : String × String) (amount : ℤ) (budgets : Budgets)
    → lookup j (store_settled (lookup key budgets) key amount budgets)
      ≡ (if key == j then some amount else lookup j budgets)
lookup-store_settled key j amount budgets = elim (Option-cases (lookup key budgets)) [
  | inl none_yet ↦ rw none_yet (lookup-insert key j amount budgets)
  | inr (stored, e) ↦ elim (Bool-cases (stored == amount)) [
    | inl same ↦ elim (Bool-cases (key == j)) [
      | inl own ↦
          rw (e, same, own)
            (subst (λ k. lookup k budgets ≡ some amount) (eq-path key j own)
              (e ∙ ap some (eq-path stored amount same)))
      | inr other ↦ rw (e, same, other) refl
    ]
    | inr new ↦ rw (e, new) (lookup-insert key j amount budgets)
  ]
]

-- The budgets after the row was looked at.
abbrev pub after_row : Budgets → Row → Budgets
after_row budgets row =
    store_settled (lookup (row_key row) budgets) (row_key row) (settled_amount budgets row) budgets

module _ (live : List Reservation) where
  abbrev pub row_remaining : Budgets → Row → ℤ
  row_remaining budgets row =
      row.limit -ℤ settled_amount budgets row -ℤ active_amount (held_by row) live

  -- What is settled, accounting for the budgets before, and held, with the row's own amount, is within the limit.
  abbrev pub Fits : Budgets → Budgets → Row → Type 0
  Fits before budgets row =
      (s : ℤ) × (lookup (row_key row) budgets ≡ some s)
      × Accounts before row s
      × (s +ℤ active_amount (held_by row) live +ℤ row_amount row ≤ℤ row.limit)

  -- A row whose amount is covered is passed.
  pub check_pass :
      (r : Row) (rows : List Row) (budgets : Budgets)
      → ltb_ℤ (row_remaining budgets r) (row_amount r) ≡ false
      → check_rows live (r ∷ rows) budgets ≡ check_rows live rows (after_row budgets r)
  unfolding check_rows
  check_pass r rows budgets passes = rw passes

  -- At a row whose amount is not covered the loop stops.
  pub check_stop :
      (r : Row) (rows : List Row) (budgets : Budgets)
      → ltb_ℤ (row_remaining budgets r) (row_amount r) ≡ true
      → check_rows live (r ∷ rows) budgets ≡ (
        refused (record {
          is_window = false;
          meter = r.meter;
          requested = row_amount r;
          remaining = row_remaining budgets r;
          window_seconds = none;
        }),
        after_row budgets r,
      )
  unfolding check_rows
  check_stop r rows budgets stops = rw stops

  check_keeps :
      (row : Row) (rows : List Row) (budgets : Budgets)
      → All (KeyDiffers row) rows
      → lookup (row_key row) (check_rows live rows budgets).1 ≡ lookup (row_key row) budgets
  check_keeps row [] budgets h = (unfold check_rows in refl)
  check_keeps row (r ∷ rows) budgets h =
      let other : (row_key r == row_key row) ≡ false = KeyDiffers-sym row r h.0 in
      let kept : lookup (row_key row) (after_row budgets r) ≡ lookup (row_key row) budgets =
        lookup-store_settled (row_key r) (row_key row) (settled_amount budgets r) budgets
        ∙ (rw other) in
      elim (Bool-cases (ltb_ℤ (row_remaining budgets r) (row_amount r))) [
        | inl stops ↦ rw (check_stop r rows budgets stops) kept
        | inr passes ↦
            rw (check_pass r rows budgets passes)
              (check_keeps row rows (after_row budgets r) h.1 ∙ kept)
      ]

  -- When the loop grants, every row fits: the settled amounts that it leaves account for those before,
  -- and with them and what other live reservations hold, the row's amount is within its limit.
  pub check_granted :
      (before : Budgets) (rows : List Row) (budgets : Budgets)
      → DistinctRows rows
      → All (λ row. lookup (row_key row) budgets ≡ lookup (row_key row) before) rows
      → (check_rows live rows budgets).0 ≡ granted
      → All (Fits before (check_rows live rows budgets).1) rows
  check_granted before [] budgets d same e = tt
  check_granted before (r ∷ rows) budgets d same e =
      elim (Bool-cases (ltb_ℤ (row_remaining budgets r) (row_amount r))) [
        | inl stops ↦ absurd (cc (check_stop r rows budgets stops))
        | inr passes ↦
            let step = check_pass r rows budgets passes in
            subst (λ (p : ReservationCheck × Budgets). All (Fits before p.1) (r ∷ rows)) (sym step)
              (
                (
                  settled_amount budgets r,
                  check_keeps r rows (after_row budgets r) d.0
                      ∙ lookup-store_settled (row_key r) (row_key r) (settled_amount budgets r)
                          budgets
                      ∙ (rw (eq_refl (row_key r))),
                  settled_amount-Accounts before budgets r same.0,
                  omega (int_laws, le-of_ltb_ℤ (row_remaining budgets r) (row_amount r) passes),
                ),
                check_granted before rows (after_row budgets r) d.1
                    (All-mono2 rows d.0 same.1 (λ row differs kept.
                      lookup-store_settled (row_key r) (row_key row) (settled_amount budgets r)
                        budgets
                      ∙ rw differs kept))
                    (rw step at e),
              )
      ]
