-- ===== src/Governor/Charges.antt =====
-- What a subtree was charged: `recompute_charges` and `spent_decimal` of src/pollard/governor.py.
use pollard.Common.{
  String, Bool, true, false, List, [], ◌∷◌, Option, none, some, string_eq, if◌then◌else◌,
}
use pollard.Common.Int.{ℤ, ◌+ℤ◌, int_eq}
use pollard.Common.Dict.{Dict, insert}
use pollard.Common.Sort.{sorted}
use pollard.Errors.{Result, ok, err, type_error, arithmetic_error, ◌>>=◌}
use pollard.Json.{Json, bool, int, float, obj, Fields, end, field, get_field}
use pollard.Json.Text.{Text}
use pollard.Tree.{Node}
use pollard.Store.{MemoryStore}
use pollard.Store.Tour.{walk}
use pollard.Arbiter.Request.{name_before}
use pollard.Governor.{amount_of}

-- How numbers and amounts correspond: the amounts, in the smallest unit of a meter, that an int and
-- a float denote, and those that the text of another value denotes, if it does; the int that a
-- whole amount is, the float of any other, its text, and its value after it was a float.
pub record Amounts : Type 0 where
  pub of_int : ℤ → ℤ
  pub of_float : Text → ℤ
  pub of_other : Json → Option ℤ
  pub whole : ℤ → Option ℤ
  pub to_float : ℤ → Text
  pub text_of : ℤ → String
  pub as_float : ℤ → ℤ

module _ ⦃a : Amounts⦄ where
  -- `charge_to_decimal` of a JSON value.
  unfoldable pub charge_to_decimal : Json → Result ℤ
  charge_to_decimal (int n) = ok (a.of_int n)
  charge_to_decimal (float t) = ok (a.of_float t)
  charge_to_decimal (bool b) = err type_error
  charge_to_decimal j = elim (a.of_other j) [
    | none ↦ err arithmetic_error
    | some amount ↦ ok amount
  ]

  abbrev pub number_of : ℤ → Option ℤ → Json
  number_of amount none = float (a.to_float amount)
  number_of amount (some n) = int n

  -- `charge_to_json`
  abbrev pub charge_to_json : ℤ → Json
  charge_to_json amount = number_of amount (a.whole amount)

  -- `totals[name] = totals.get(name, 0) + amount`
  abbrev pub add_to : String → ℤ → Dict String ℤ → Dict String ℤ
  add_to name amount totals = insert name (amount_of name totals +ℤ amount) totals

  abbrev pub is_number : Json → Bool
  is_number (int n) = true
  is_number (float t) = true
  is_number (bool b) = true
  is_number _ = false

  -- The inner loop. A Boolean is an `int`, so it reaches the conversion, which refuses it.
  unfoldable pub add_charges : Fields → Dict String ℤ → Result (Dict String ℤ)
  unfolding charge_to_decimal
  add_charges end totals = ok totals
  add_charges (field name value charges) totals =
      if is_number value
      then (do amount ← charge_to_decimal value; add_charges charges (add_to name amount totals))
      else add_charges charges totals

  -- `node.meta.get("charges", {})`, where it is a dictionary.
  abbrev pub charge_fields : Option Json → Fields
  charge_fields (some (obj charges)) = charges
  charge_fields _ = end

  unfoldable pub add_nodes : List Node → Dict String ℤ → Result (Dict String ℤ)
  unfolding add_charges
  add_nodes [] totals = ok totals
  add_nodes (n ∷ nodes) totals = do
    totals' ← add_charges (charge_fields (get_field "charges" n.meta)) totals
    add_nodes nodes totals'

  abbrev pub as_floats : Dict String ℤ → Dict String ℤ
  as_floats [] = []
  as_floats ((name, value) ∷ totals) = (name, a.as_float value) ∷ as_floats totals

  unfoldable pub recompute_charges : MemoryStore → String → Result (Dict String ℤ)
  unfolding add_nodes walk
  recompute_charges s root_id = do
    nodes ← walk s root_id
    totals ← add_nodes nodes []
    ok (as_floats (sorted name_before totals))

  -- The text of a float, read as a decimal, is the same amount.
  unfoldable pub spent_decimal : MemoryStore → String → Result (Dict String ℤ)
  unfolding recompute_charges
  spent_decimal s anchor_id = recompute_charges s anchor_id
