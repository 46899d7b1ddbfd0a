-- ===== src/Hashing.antt =====
-- src/pollard/hashing.py: node ids and result digests. SHA-256 is a parameter: the lower-case hex
-- digest of the UTF-8 bytes of a text.
use pollard.Common.{ℕ, String, ◌++◌, Option, none, some}
use pollard.Common.Int.{pos}
use pollard.Errors.{Result, ok, ◌>>=◌}
use pollard.Json.{Json, str, int, obj, Fields, field, end}
use pollard.Json.Text.{Text, codes, dumps}
use pollard.Json.Canonical.{canonical_bytes}

pub record Sha256 : Type 0 where
  pub hexdigest : Text → String

abbrev pub domain : Text
domain = codes "pollard/v1\n"

abbrev pub result_domain : Text
result_domain = codes "pollard/v1:result\n"

-- `p or ""`
abbrev pub parent_text : Option String → String
parent_text none = ""
parent_text (some p) = p

module _ ⦃h : Sha256⦄ where
  unfoldable pub node_id : String → Option String → ℕ → Fields → Result String
  node_id kind parent attempt payload = do
    bytes ← canonical_bytes (
        obj (
          field "a" (int (pos attempt)) (
            field "k" (str kind)
              (field "p" (str (parent_text parent)) (field "pl" (obj payload) end)))))
    ok (h.hexdigest (domain ++ bytes))

  unfoldable pub digest_payload : Fields → Result String
  digest_payload payload = do bytes ← canonical_bytes (obj payload); ok (h.hexdigest bytes)

  -- `result_to_text` is `dumps`.
  unfoldable pub result_digest_from_text : Text → String
  result_digest_from_text text = h.hexdigest (result_domain ++ text)

  unfoldable pub result_text_and_digest : Json → Text × String
  unfolding result_digest_from_text
  result_text_and_digest result = let text = dumps result in (text, result_digest_from_text text)
