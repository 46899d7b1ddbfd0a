-- ===== src/Runtime/Call/Build.antt =====
-- The node of a completed call in `Run._call` of src/pollard/runtime.py.
use pollard.Common.{ℕ, String, List, [], ◌∷◌, Option, some, string_eq}
use pollard.Json.{str, obj, Fields, end, field, get_field, set_field, merge_fields}
use pollard.Hashing.{Sha256}
use pollard.Tree.{Node, NodeKind, kind_text, make}
use pollard.Errors.{Result, ok, err}
use pollard.Governor.Charges.{Amounts}
use pollard.Runtime.{error, Outcome, returned, raised}
use pollard.Runtime.Config.{Measurement, Config, Moment, Reservation}
use pollard.Runtime.Numbers.{Numbers, ChargesNumbers, charge_meters-Numbers}
use pollard.Runtime.Charge.{charge_meters, with_fallbacks}
use pollard.Runtime.Call.Unknown.{lease_field}

-- `meta.update(measurement.readings())` for each of them
unfoldable pub add_readings : List Measurement → Fields → Outcome Fields
add_readings [] meta = returned meta
add_readings (m ∷ ms) meta = elim m.readings [
  | raised e causes ↦ raised e causes
  | returned readings ↦ add_readings ms (merge_fields meta readings)
]

abbrev pub add_usage : Fields → Fields → Fields
add_usage result meta = elim (get_field "usage" result) [
  | some (obj usage) ↦ set_field "usage" (obj usage) meta
  | _ ↦ meta
]

abbrev pub add_lease : Option String → Fields → Fields
add_lease lost meta = merge_fields meta (lease_field lost end)

abbrev pub made_node : Fields → Result Node → Outcome (Fields × Node)
made_node charges (err e) = raised (error e) []
made_node charges (ok n) = returned (charges, n)

abbrev pub BuiltNumbers : ⦃a : Amounts⦄ → Outcome (Fields × Node) → Type 0
BuiltNumbers (raised e causes) = Unit
BuiltNumbers (returned (charges, n)) = Numbers charges

module _ ⦃h : Sha256⦄ ⦃a : Amounts⦄ (c : Config) (o : Moment) (kind : NodeKind) (cursor : String)
    (payload meter_payload : Fields) (tries : ℕ) (reservation : Option Reservation)
    (lost : Option String) (result : Fields) where
  abbrev pub charged_node : Fields → Outcome (Fields × Fields) → Outcome (Fields × Node)
  charged_node meta (raised e causes) = raised e causes
  charged_node meta (returned (charges, fallbacks)) = made_node charges (
      make kind (some cursor) payload tries (obj result) (
        add_lease lost
          (add_usage result (set_field "charges" (obj charges) (with_fallbacks fallbacks meta)))))

  abbrev pub read_node : Outcome Fields → Outcome (Fields × Node)
  read_node (raised e causes) = raised e causes
  read_node (returned meta) =
      charged_node meta
        (charge_meters c.meters (kind_text kind) meter_payload result meta reservation end end)

  -- The second `try` block: the charges, and the node with the result.
  unfoldable pub build_node : List Measurement → Outcome (Fields × Node)
  unfolding add_readings charge_meters
  build_node ms =
      read_node (
        add_readings ms (field "created_at" (str o.created_at) (field "duration_s" o.duration end)))

  made_node-BuiltNumbers :
      (charges : Fields) (r : Result Node) → Numbers charges → BuiltNumbers (made_node charges r)
  made_node-BuiltNumbers charges (err e) numbers = tt
  made_node-BuiltNumbers charges (ok n) numbers = numbers

  charged_node-BuiltNumbers :
      (meta : Fields) (x : Outcome (Fields × Fields))
      → ChargesNumbers x
      → BuiltNumbers (charged_node meta x)
  charged_node-BuiltNumbers meta (raised e causes) numbers = tt
  charged_node-BuiltNumbers meta (returned (charges, fallbacks)) numbers =
      made_node-BuiltNumbers charges _ numbers

  read_node-BuiltNumbers : (x : Outcome Fields) → BuiltNumbers (read_node x)
  read_node-BuiltNumbers (raised e causes) = tt
  read_node-BuiltNumbers (returned meta) =
      charged_node-BuiltNumbers meta
        (charge_meters c.meters (kind_text kind) meter_payload result meta reservation end end)
        (charge_meters-Numbers c.meters (kind_text kind) meter_payload result meta reservation end
          end tt)

  pub build_node-BuiltNumbers : (ms : List Measurement) → BuiltNumbers (build_node ms)
  unfolding build_node
  build_node-BuiltNumbers ms = read_node-BuiltNumbers (add_readings ms _)
