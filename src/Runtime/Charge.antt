-- ===== src/Runtime/Charge.antt =====
-- The charges of a call in src/pollard/runtime.py, and those that a recording avoids (src/pollard/replay.py).
use pollard.Common.{
  String, Bool, true, false, not, ◌&&◌, ◌||◌, List, [], ◌∷◌, Option, none, some, ◌==◌, string_eq,
  if◌then◌else◌,
}
use pollard.Common.Int.{ℤ, pos, negsuc, ◌+ℤ◌, int_eq}
use pollard.Common.Dict.{Dict, lookup}
use pollard.Common.Sort.{sorted}
use pollard.Errors.{Result, ok, err}
use pollard.Errors
use pollard.Json.{Json, int, str, obj, Fields, end, field, get_field, set_field}
use pollard.Tree.{Node}
use pollard.Store.{MemoryStore, get, update_meta}
use pollard.Arbiter.Request.{name_before}
use pollard.Governor.Charges.{Amounts, charge_to_decimal, charge_to_json}
use pollard.Runtime.{Outcome, returned, raised}
use pollard.Runtime.Config.{Meter, Reservation}

-- `value >= 0` of an int
abbrev pub nonnegative : ℤ → Bool
nonnegative (pos n) = true
nonnegative (negsuc n) = false

abbrev pub is_count : Option Json → Bool
is_count (some (int n)) = nonnegative n
is_count _ = false

-- `_has_compatible_usage`
unfoldable pub has_compatible_usage : Fields → Bool
has_compatible_usage result = elim (get_field "usage" result) [
  | some (obj usage) ↦
      is_count (get_field "input_tokens" usage) && is_count (get_field "output_tokens" usage)
  | _ ↦ false
]

module _ ⦃a : Amounts⦄ where
  -- The comprehension over the sorted estimates, but for the depth and for zeros.
  abbrev pub estimate_fields : Dict String ℤ → Fields
  estimate_fields [] = end
  estimate_fields ((name, amount) ∷ rest) =
      let more = estimate_fields rest in
      if name == "depth" || amount == pos 0 then more else field name (charge_to_json amount) more

  -- `_estimated_charges`
  unfoldable pub estimated_charges : Option Reservation → Fields
  estimated_charges none = end
  estimated_charges (some r) = estimate_fields (sorted name_before r.estimates)

  -- `{name: charge_to_decimal(amount) for name, amount in charges.items()}`
  unfoldable pub decimal_charges : Fields → Result (Dict String ℤ)
  decimal_charges end = ok []
  decimal_charges (field name value charges) =
      Errors.◌>>=◌ (charge_to_decimal value)
        (λ amount. Errors.◌>>=◌ (decimal_charges charges) (λ rest. ok ((name, amount) ∷ rest)))

  -- `totals.get(name, 0)` as an amount
  abbrev pub total_of : Option Json → Result ℤ
  total_of none = charge_to_decimal (int (pos 0))
  total_of (some j) = charge_to_decimal j

  -- The loop of `record_avoided_charges`.
  unfoldable pub add_totals : Fields → Fields → Result Fields
  unfolding charge_to_decimal
  add_totals end totals = ok totals
  add_totals (field name value charges) totals =
      Errors.◌>>=◌ (total_of (get_field name totals)) (λ before.
        Errors.◌>>=◌ (charge_to_decimal value) (λ amount.
          add_totals charges (set_field name (charge_to_json (before +ℤ amount)) totals)))

  abbrev pub avoided_before : Option Json → Fields
  avoided_before (some (obj fs)) = fs
  avoided_before _ = end

  -- `record_avoided_charges` of src/pollard/replay.py
  unfoldable pub record_avoided_charges : MemoryStore → String → Fields → Result MemoryStore
  unfolding add_totals
  record_avoided_charges s id end = ok s
  record_avoided_charges s id (field name value charges) = Errors.◌>>=◌ (get s id) (λ n.
      Errors.◌>>=◌
        (add_totals (field name value charges) (avoided_before (get_field "avoided" n.meta)))
        (λ totals. update_meta id (field "avoided" (obj totals) end) s))

  -- `avoided_charges` of src/pollard/replay.py
  unfoldable pub avoided_charges : List Meter → String → Fields → Node → Fields → Outcome Fields
  avoided_charges [] kind payload n charges = returned charges
  avoided_charges (m ∷ meters) kind payload n charges =
      elim (m.charge kind payload n.result n.meta) [
        | raised e causes ↦ raised e causes
        | returned amount ↦
            avoided_charges meters kind payload n (
              if amount == pos 0 then charges else set_field m.name (charge_to_json amount) charges)
      ]

  -- The amount that a meter falls back to when it charges nothing although its estimate did: why, and
  -- how much.
  unfoldable pub fallback_of :
      Meter → String → Fields → Fields → Fields → Option Reservation → ℤ → Option (String × ℤ)
  unfolding has_compatible_usage
  fallback_of m kind payload result meta none amount = none
  fallback_of m kind payload result meta (some r) amount = elim (lookup m.name r.estimates) [
    | none ↦ none
    | some estimate ↦
        if not (amount == pos 0) || not m.precheck_is_estimate
        then none
        else if not (has_compatible_usage result)
        then some ("missing_or_invalid_provider_usage", estimate)
        else elim (m.fallback_reason kind payload (obj result) meta) [
          | none ↦ none
          | some reason ↦ some (reason, estimate)
        ]
  ]

  abbrev pub amount_after : ℤ → Option (String × ℤ) → ℤ
  amount_after amount none = amount
  amount_after amount (some (reason, estimate)) = estimate

  abbrev pub fallbacks_after : Meter → Option (String × ℤ) → Fields → Fields
  fallbacks_after m none fallbacks = fallbacks
  fallbacks_after m (some (reason, estimate)) fallbacks =
      set_field m.name
        (obj (field "reason" (str reason) (field "source" (str "precheck_estimate") end))) fallbacks

  abbrev pub charge_field : Meter → ℤ → Fields → Fields
  charge_field m amount charges =
      if amount == pos 0 then charges else set_field m.name (charge_to_json amount) charges

  -- The loop of `_charges`: the charges, and the fallbacks.
  unfoldable pub charge_meters :
      List Meter
      → String
      → Fields
      → Fields
      → Fields
      → Option Reservation
      → Fields
      → Fields
      → Outcome (Fields × Fields)
  unfolding fallback_of
  charge_meters [] kind payload result meta reservation charges fallbacks =
      returned (charges, fallbacks)
  charge_meters (m ∷ meters) kind payload result meta reservation charges fallbacks =
      elim (m.charge kind payload (obj result) meta) [
        | raised e causes ↦ raised e causes
        | returned amount ↦
            let fallback = fallback_of m kind payload result meta reservation amount in
            charge_meters meters kind payload result meta reservation
              (charge_field m (amount_after amount fallback) charges)
              (fallbacks_after m fallback fallbacks)
      ]

  abbrev pub with_fallbacks : Fields → Fields → Fields
  with_fallbacks end meta = meta
  with_fallbacks fallbacks meta = set_field "accounting_fallbacks" (obj fallbacks) meta
