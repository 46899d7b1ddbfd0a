-- ===== src/Tree.antt =====
-- src/pollard/tree.py: the nodes of the execution tree.
pub mod Make
use pollard.Common.{
  ℕ, suc, String, Bool, true, false, not, ◌&&◌, ◌||◌, [], ◌∷◌, Option, none, some, ◌==◌, leb,
  is_some, string_eq, nat_eq, if◌then◌else◌,
}
use pollard.Errors.{Result, ok, value_error, raise_if, ◌>>=◌, ◌>>◌}
use pollard.Json.{Json, obj, Fields, is_null}
use pollard.Json.Text.{Text, codes}
use pollard.Json.Canonical.{canonical_bytes}
use pollard.Hashing.{Sha256, node_id, result_digest_from_text, result_text_and_digest}

-- A string that names no kind, which the constructor refuses, is not representable.
pub data NodeKind : Type 0 where
  root model_call tool_call note refusal : NodeKind

unfoldable pub kind_text : NodeKind → String
kind_text root = "root"
kind_text model_call = "model_call"
kind_text tool_call = "tool_call"
kind_text note = "note"
kind_text refusal = "refusal"

-- `result` is `null` for Python's `None`. The payload and the metadata are dictionaries.
pub record Node : Type 0 where
  pub id : String
  pub parent : Option String
  pub kind : NodeKind
  pub attempt : ℕ
  pub payload : Fields
  pub result : Json
  pub result_digest : Option String
  pub meta : Fields
  pub result_text : Option Text

abbrev pub is_hex_digit : ℕ → Bool
is_hex_digit c = (leb b'0' c && leb c b'9') || (leb b'a' c && leb c b'f')

-- `^[0-9a-f]{n}$` as `re.match` reads it: `$` also stands before a newline that ends the text.
unfoldable pub hex_match : ℕ → Text → Bool
hex_match ℕ.zero [] = true
hex_match ℕ.zero (c ∷ []) = c == b'\n'
hex_match ℕ.zero (c ∷ d ∷ cs) = false
hex_match (suc n) [] = false
hex_match (suc n) (c ∷ cs) = is_hex_digit c && hex_match n cs

unfoldable pub is_hex64 : String → Bool
unfolding hex_match
is_hex64 value = hex_match 64 (codes value)

abbrev pub is_optional_hex64 : Option String → Bool
is_optional_hex64 none = false
is_optional_hex64 (some value) = is_hex64 value

-- The parent test of `__post_init__`: none for a root, an id for any other kind.
abbrev pub parent_fits : NodeKind → Option String → Bool
parent_fits root parent = not (is_some parent)
parent_fits _ parent = is_optional_hex64 parent

module _ ⦃h : Sha256⦄ where
  -- The text and the digest of a result that came without them.
  unfoldable pub fill_text : Node → Node
  fill_text n =
      if is_null n.result || is_some n.result_text
      then n
      else let (text, digest) = result_text_and_digest n.result in
        record n {
          result_text = some text;
          result_digest = elim n.result_digest [ none ↦ some digest | some d ↦ some d ];
        }

  unfoldable pub fill_digest : Node → Node
  fill_digest n = elim n.result_text [
    | none ↦ n
    | some text ↦ record n {
      result_digest = elim n.result_digest [
        | none ↦ some (result_digest_from_text text)
        | some d ↦ some d
      ];
    }
  ]

  abbrev pub digest_fits : Option String → Bool
  digest_fits none = true
  digest_fits (some d) = is_hex64 d

  -- The constructor's checks, and the fields that it fills in. The checks of the types of `attempt` and
  -- `meta` hold by their types here, and a given text of a result is taken to be JSON, so that
  -- `json.loads` does not raise.
  unfoldable pub post_init : Node → Result Node
  post_init n = do
    raise_if (not (is_hex64 n.id)) value_error
    raise_if (not (parent_fits n.kind n.parent)) value_error
    bytes ← canonical_bytes (obj n.payload)
    let filled = fill_digest (fill_text n)
    raise_if (not (digest_fits filled.result_digest)) value_error
    ok filled

  unfoldable pub make : NodeKind → Option String → Fields → ℕ → Json → Fields → Result Node
  unfolding post_init fill_text fill_digest kind_text
  make kind parent payload attempt result meta = do
    id ← node_id (kind_text kind) parent attempt payload
    let computed = result_text_and_digest result
    post_init (record {
      id = id;
      parent = parent;
      kind = kind;
      attempt = attempt;
      payload = payload;
      result = result;
      result_digest = if is_null result then none else some computed.1;
      meta = meta;
      result_text = if is_null result then none else some computed.0;
    })

  unfoldable pub expected_id : Node → Result String
  unfolding kind_text
  expected_id n = node_id (kind_text n.kind) n.parent n.attempt n.payload
