-- ===== src/Arbiter/Amounts.antt =====
-- Sums over the details of reservations (`_active_amount` of src/pollard/stores/_transactional.py).
use pollard.Common.{
  ℕ, String, ◌≡◌, refl, ap, true, false, List, [], ◌∷◌, ◌++◌, none, ◌==◌, eq_refl, string_eq,
  nat_eq, pair_eq, keep_if, keep_if-append, map, arith, All, All-mono, All-mono2,
}
use pollard.Common.Int.{ℤ, pos, ◌+ℤ◌, int_laws, +ℤ-zero}
use pollard.Common.Dict.{Dict, lookup, insert, insert_new, values}
use pollard.Arbiter.{
  Detail, Reservation, Kv, Row, row_key, row_amount, sum_details, active_amount, budget_amount,
  active_reservations, is_live, WindowReservation,
}
use pollard.Arbiter.Operations.{budget_detail, window_detail, details_of}

module _ (f : Detail → ℤ) where
  pub sum_details-append :
      (xs ys : List Detail) → sum_details f (xs ++ ys) ≡ sum_details f xs +ℤ sum_details f ys
  sum_details-append [] ys = omega int_laws
  sum_details-append (x ∷ xs) ys = rw (sum_details-append xs ys) (omega int_laws)

  pub active_amount-append :
      (xs ys : List Reservation)
      → active_amount f (xs ++ ys) ≡ active_amount f xs +ℤ active_amount f ys
  unfolding active_amount
  active_amount-append [] ys = omega int_laws
  active_amount-append (x ∷ xs) ys = rw (active_amount-append xs ys) (omega int_laws)

  values-append :
      (d : Dict String Reservation) (id : String) (r : Reservation)
      → values (d ++ (id, r) ∷ []) ≡ values d ++ r ∷ []
  values-append [] id r = refl
  values-append ((j, x) ∷ d) id r = ap (λ l. x ∷ l) (values-append d id r)

  -- A live reservation under a new id adds the amounts of its details.
  pub active_amount-new :
      (kv : Kv) (id : String) (r : Reservation) (now : ℕ)
      → lookup id kv.reservations ≡ none
      → is_live now r ≡ true
      → active_amount f (keep_if (is_live now) (values (insert id r kv.reservations)))
        ≡ active_amount f (active_reservations now kv) +ℤ sum_details f r.details
  unfolding active_reservations active_amount
  active_amount-new kv id r now fresh live = rw (insert_new id r kv.reservations fresh) (
      rw (values-append kv.reservations id r) (
        rw (keep_if-append (is_live now) (values kv.reservations) (r ∷ [])) (
          rw live (
            rw (active_amount-append (keep_if (is_live now) (values kv.reservations)) (r ∷ []))
              (omega int_laws)))))

-- Rows of different scopes or meters.
abbrev pub KeyDiffers : Row → Row → Type 0
KeyDiffers a b = (row_key a == row_key b) ≡ false

abbrev pub DistinctRows : List Row → Type 0
DistinctRows [] = Unit
DistinctRows (r ∷ rs) = All (KeyDiffers r) rs × DistinctRows rs

pub KeyDiffers-sym : (a b : Row) → KeyDiffers a b → KeyDiffers b a
KeyDiffers-sym a b h = ground (
  arith,
  string_eq.beq_iff a.request.scope_id b.request.scope_id,
  string_eq.beq_iff b.request.scope_id a.request.scope_id,
  string_eq.beq_iff a.meter b.meter,
  string_eq.beq_iff b.meter a.meter,
)

abbrev pub held_by : Row → Detail → ℤ
held_by row = budget_amount row.request.scope_id row.meter

held_other : (a b : Row) → KeyDiffers a b → held_by a (budget_detail b) ≡ pos 0
held_other a b h = ground (arith, KeyDiffers-sym a b h)

held_self : (a : Row) → held_by a (budget_detail a) ≡ row_amount a
held_self a = ground (arith, eq_refl a.request.scope_id, eq_refl a.meter)

sum_other :
    (row : Row) (rows : List Row)
    → All (KeyDiffers row) rows
    → sum_details (held_by row) (map budget_detail rows) ≡ pos 0
sum_other row [] h = refl
sum_other row (r ∷ rows) h =
    rw (sum_other row rows h.1) (rw (held_other row r h.0) (omega int_laws))

sum_windows :
    (row : Row) (windows : List WindowReservation)
    → sum_details (held_by row) (map window_detail windows) ≡ pos 0
sum_windows row [] = refl
sum_windows row (w ∷ windows) = rw (sum_windows row windows) (omega int_laws)

-- Of distinct rows, each finds just its own amount among the details.
sum_rows :
    (rows : List Row)
    → DistinctRows rows
    → All (λ row. sum_details (held_by row) (map budget_detail rows) ≡ row_amount row) rows
sum_rows [] d = tt
sum_rows (r ∷ rows) d = (
  rw (sum_other r rows d.0) (rw (held_self r) (+ℤ-zero (row_amount r))),
  All-mono2 rows d.0 (sum_rows rows d.1) (λ row other own.
      rw (held_other row r (KeyDiffers-sym r row other)) (rw own (omega int_laws))),
)

-- Of distinct rows, each finds just its own amount among the details of a reservation.
pub sum_details-rows :
    (rows : List Row) (windows : List WindowReservation)
    → DistinctRows rows
    → All (λ row. sum_details (held_by row) (details_of rows windows) ≡ row_amount row) rows
sum_details-rows rows windows d =
    All-mono (λ row. sum_details (held_by row) (map budget_detail rows) ≡ row_amount row)
      (λ row. sum_details (held_by row) (details_of rows windows) ≡ row_amount row)
      (λ row own.
        rw (sum_details-append (held_by row) (map budget_detail rows) (map window_detail windows))
          (rw (own, sum_windows row windows) (+ℤ-zero (row_amount row))))
      rows (sum_rows rows d)
