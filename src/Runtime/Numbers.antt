-- ===== src/Runtime/Numbers.antt =====
-- The charges that src/pollard/runtime.py writes are numbers, so that it can read them back.
use pollard.Common.{
  String, ◌≡◌, refl, ◌||◌, List, [], ◌∷◌, Option, none, some, ◌==◌, string_eq, Bool-cases, inl, inr,
}
use pollard.Common.Int.{ℤ, pos, int_eq}
use pollard.Common.Dict.{Dict}
use pollard.Common.Sort.{sorted}
use pollard.Errors.{ok}
use pollard.Json.{Json, obj, Fields, end, field, set_field}
use pollard.Arbiter.Request.{name_before}
use pollard.Governor.Charges.{Amounts, charge_to_decimal, charge_to_json, number_of}
use pollard.Runtime.{Outcome, returned, raised, Outcome-cases}
use pollard.Runtime.Config.{Meter, Reservation}
use pollard.Runtime.Charge.{
  estimate_fields, estimated_charges, decimal_charges, charge_field, charge_meters, fallback_of,
  amount_after, fallbacks_after,
}

module _ ⦃a : Amounts⦄ where
  abbrev pub Number : Json → Type 0
  Number j = (amount : ℤ) × (charge_to_decimal j ≡ ok amount)

  abbrev pub Numbers : Fields → Type 0
  Numbers end = Unit
  Numbers (field name value fs) = Number value × Numbers fs

  charge_to_json-Number : (amount : ℤ) → Number (charge_to_json amount)
  unfolding charge_to_decimal
  charge_to_json-Number amount = number (a.whole amount)
    where
      number : (o : Option ℤ) → Number (number_of amount o)
      number none = (a.of_float (a.to_float amount), refl)
      number (some n) = (a.of_int n, refl)

  set_field-Numbers :
      (name : String) (j : Json) (fs : Fields)
      → Number j
      → Numbers fs
      → Numbers (set_field name j fs)
  set_field-Numbers name j end n h = (n, tt)
  set_field-Numbers name j (field k v fs) n h = elim (Bool-cases (k == name)) [
    | inl same ↦ rw same (n, h.1)
    | inr other ↦ rw other (h.0, set_field-Numbers name j fs n h.1)
  ]

  estimate_fields-Numbers : (estimates : Dict String ℤ) → Numbers (estimate_fields estimates)
  estimate_fields-Numbers [] = tt
  estimate_fields-Numbers ((name, amount) ∷ rest) =
      elim (Bool-cases (name == "depth" || amount == pos 0)) [
        | inl skipped ↦ rw skipped (estimate_fields-Numbers rest)
        | inr kept ↦ rw kept (charge_to_json-Number amount, estimate_fields-Numbers rest)
      ]

  pub estimated_charges-Numbers : (r : Option Reservation) → Numbers (estimated_charges r)
  unfolding estimated_charges
  estimated_charges-Numbers none = tt
  estimated_charges-Numbers (some r) = estimate_fields-Numbers (sorted name_before r.estimates)

  charge_field-Numbers :
      (m : Meter) (amount : ℤ) (fs : Fields) → Numbers fs → Numbers (charge_field m amount fs)
  charge_field-Numbers m amount fs h = elim (Bool-cases (amount == pos 0)) [
    | inl nothing ↦ rw nothing h
    | inr some_charge ↦
        rw some_charge
          (set_field-Numbers m.name (charge_to_json amount) fs (charge_to_json-Number amount) h)
  ]

  abbrev pub ChargesNumbers : Outcome (Fields × Fields) → Type 0
  ChargesNumbers (raised e causes) = Unit
  ChargesNumbers (returned (charges, fallbacks)) = Numbers charges

  pub charge_meters-Numbers :
      (ms : List Meter) (kind : String) (payload result meta : Fields) (r : Option Reservation)
      (charges fallbacks : Fields)
      → Numbers charges
      → ChargesNumbers (charge_meters ms kind payload result meta r charges fallbacks)
  unfolding charge_meters
  charge_meters-Numbers [] kind payload result meta r charges fallbacks h = h
  charge_meters-Numbers (m ∷ ms) kind payload result meta r charges fallbacks h =
      elim (Outcome-cases (m.charge kind payload (obj result) meta)) [
        | inr (e, causes, q) ↦ rw (q, charge_meters) tt
        | inl (amount, q) ↦
            let fallback = fallback_of m kind payload result meta r amount in
            rw (q, charge_meters)
              (charge_meters-Numbers ms kind payload result meta r
                (charge_field m (amount_after amount fallback) charges)
                (fallbacks_after m fallback fallbacks)
                (charge_field-Numbers m (amount_after amount fallback) charges h))
      ]

  -- Numbers are read back.
  pub decimal_charges_total :
      (fs : Fields) → Numbers fs → (charges : Dict String ℤ) × (decimal_charges fs ≡ ok charges)
  unfolding decimal_charges
  decimal_charges_total end h = ([], refl)
  decimal_charges_total (field name value fs) h =
      let (amount, e) = h.0 in
      let (rest, q) = decimal_charges_total fs h.1 in ((name, amount) ∷ rest, rw e (rw q refl))
