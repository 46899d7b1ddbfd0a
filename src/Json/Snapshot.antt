-- ===== src/Json/Snapshot.antt =====
-- What src/pollard/runtime.py keeps of an identity payload: the value that its canonical text reads
-- back as, which has the keys of every dictionary in order.
use pollard.Common.{String, if◌then◌else◌}
use pollard.Errors.{Result, ok, ◌>>◌}
use pollard.Json.{Json, null, bool, int, float, str, arr, obj, Items, nil, cons, Fields, end, field}
use pollard.Json.Text.{str_before}
use pollard.Json.Canonical.{validate_identity_value}

abbrev pub insert_field : String → Json → Fields → Fields
insert_field k v end = field k v end
insert_field k v (field j w fs) =
    let rest = insert_field k v fs in
    if str_before j k then field j w rest else field k v (field j w fs)

unfoldable mutual
  pub sorted_value : Json → Json
  sorted_value (arr xs) = arr (sorted_items xs)
  sorted_value (obj fs) = obj (sorted_fields fs)
  sorted_value null = null
  sorted_value (bool b) = bool b
  sorted_value (int n) = int n
  sorted_value (float t) = float t
  sorted_value (str s) = str s

  pub sorted_items : Items → Items
  sorted_items nil = nil
  sorted_items (cons x xs) = cons (sorted_value x) (sorted_items xs)

  pub sorted_fields : Fields → Fields
  sorted_fields end = end
  sorted_fields (field k v fs) = insert_field k (sorted_value v) (sorted_fields fs)

-- `_snapshot_payload`: `json.loads(canonical_bytes(payload))`.
unfoldable pub snapshot_payload : Fields → Result Fields
unfolding sorted_value
snapshot_payload payload = do validate_identity_value (obj payload); ok (sorted_fields payload)
