-- ===== src/Json/Canonical.antt =====
-- src/pollard/_canon.py: which values may be part of a node's identity, and their serialization.
use pollard.Errors.{Result, ok, err, type_error, ◌>>◌}
use pollard.Json.{Json, null, bool, int, float, str, arr, obj, Items, nil, cons, Fields, end, field}
use pollard.Json.Text.{Text, dumps}

-- Floats are refused; the other types that Python code could pass are not JSON values.
unfoldable mutual
  pub validate_identity_value : Json → Result (Unit {0})
  validate_identity_value (float t) = err type_error
  validate_identity_value (arr xs) = validate_items xs
  validate_identity_value (obj fs) = validate_fields fs
  validate_identity_value null = ok tt
  validate_identity_value (bool b) = ok tt
  validate_identity_value (int n) = ok tt
  validate_identity_value (str s) = ok tt

  pub validate_items : Items → Result (Unit {0})
  validate_items nil = ok tt
  validate_items (cons x xs) = validate_identity_value x >> validate_items xs

  pub validate_fields : Fields → Result (Unit {0})
  validate_fields end = ok tt
  validate_fields (field k v fs) = validate_identity_value v >> validate_fields fs

unfoldable pub canonical_bytes : Json → Result Text
canonical_bytes j = do validate_identity_value j; ok (dumps j)
