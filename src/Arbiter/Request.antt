-- ===== src/Arbiter/Request.antt =====
-- `_reservation_request` and `_reservation_charges` of src/pollard/stores/_transactional.py: the documents
-- whose digests tell a repeated request, or repeated charges, from changed ones.
use pollard.Common.{ℕ, String, Bool, List, [], ◌∷◌, map}
use pollard.Common.Int.{ℤ, pos}
use pollard.Common.Dict.{Dict}
use pollard.Common.Sort.{sorted}
use pollard.Json.{Json, str, arr, obj, Items, nil, cons, Fields, end, field}
use pollard.Json.Text.{dumps, int_string, str_before}
use pollard.Hashing.{Sha256}
use pollard.Arbiter.{BudgetReservation, WindowReservation}

abbrev pub name_before : String × ℤ → String × ℤ → Bool
name_before a b = str_before a.0 b.0

abbrev amount_fields : Dict String ℤ → Fields
amount_fields [] = end
amount_fields ((name, value) ∷ rest) = field name (str (int_string value)) (amount_fields rest)

-- `{name: str(value) for name, value in sorted(amounts.items())}`
abbrev amounts_document : Dict String ℤ → Json
amounts_document amounts = obj (amount_fields (sorted name_before amounts))

abbrev budget_document : BudgetReservation → Json
budget_document request = obj (
    field "scope_id" (str request.scope_id) (
      field "limits" (amounts_document request.limits) (
        field "baseline" (amounts_document request.baseline)
          (field "estimates" (amounts_document request.estimates) end))))

abbrev window_document : WindowReservation → Json
window_document request = obj (
    field "ledger_key" (str request.ledger_key) (
      field "meter" (str request.meter) (
        field "limit" (str (int_string request.limit)) (
          field "amount" (str (int_string request.amount))
            (field "window_seconds" (str (int_string (pos request.window_seconds))) end)))))

abbrev items_of : List Json → Items
items_of [] = nil
items_of (j ∷ js) = cons j (items_of js)

abbrev scope_before : BudgetReservation → BudgetReservation → Bool
scope_before a b = str_before a.scope_id b.scope_id

abbrev pub ledger_before : WindowReservation → WindowReservation → Bool
ledger_before a b = str_before a.ledger_key b.ledger_key

-- The documents hold only texts, so serializing them does not fail.
unfoldable pub request_document : List BudgetReservation → List WindowReservation → ℕ → Json
request_document budgets windows lease_seconds = obj (
    field "budgets" (arr (items_of (map budget_document (sorted scope_before budgets)))) (
      field "windows" (arr (items_of (map window_document (sorted ledger_before windows))))
        (field "lease_seconds" (str (int_string (pos lease_seconds))) end)))

module _ ⦃h : Sha256⦄ where
  unfoldable pub request_digest : List BudgetReservation → List WindowReservation → ℕ → String
  request_digest budgets windows lease_seconds =
      h.hexdigest (dumps (request_document budgets windows lease_seconds))

  unfoldable pub charges_digest : Dict String ℤ → String
  charges_digest charges = h.hexdigest (dumps (amounts_document charges))
