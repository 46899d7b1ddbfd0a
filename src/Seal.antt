-- ===== src/Seal.antt =====
-- src/pollard/seal.py: the rolling seal over the nodes of a subtree.
pub mod Rolling
pub mod Intact
use pollard.Common.{
  ℕ, zero, suc, String, Bool, true, false, not, List, [], ◌∷◌, ◌++◌, Option, none, some, ◌==◌,
  string_eq, if◌then◌else◌,
}
use pollard.Common.Int.{pos}
use pollard.Errors.{
  Error, Result, ok, err, integrity_error, id_mismatch, digest_mismatch, raise_if, ◌>>=◌, ◌>>◌,
}
use pollard.Json.{Json, str, int, obj, field, end}
use pollard.Json.Text.{Text, codes}
use pollard.Json.Canonical.{canonical_bytes}
use pollard.Hashing.{Sha256, parent_text, result_digest_from_text}
use pollard.Tree.{Node, NodeKind, kind_text, expected_id}
use pollard.Store.{MemoryStore, walk_loop}

abbrev pub seal_domain : Text
seal_domain = codes "pollard/v1:seal\n"

pub record SealEntry : Type 0 where
  pub index : ℕ
  pub node_id : String
  pub parent_id : Option String
  pub kind : NodeKind
  pub result_digest : Option String
  pub previous : Option String
  pub seal : String

-- The algorithm's name is a constant.
pub record SealReport : Type 0 where
  pub root_id : String
  pub digest : String
  pub entries : List SealEntry

-- `_seal_record`
abbrev pub seal_record : ℕ → Node → String → Json
seal_record index node previous = obj (
    field "index" (int (pos index)) (
      field "node_id" (str node.id) (
        field "parent_id" (str (parent_text node.parent)) (
          field "kind" (str (kind_text node.kind)) (
            field "result_digest" (str (parent_text node.result_digest))
              (field "previous" (str previous) end))))))

-- `previous or None`
abbrev pub or_none : String → Option String
or_none s = if s == "" then none else some s

module _ ⦃h : Sha256⦄ where
  abbrev pub digest_agrees : Option Text → Option String → Result (Unit {0})
  digest_agrees none digest = ok tt
  digest_agrees (some text) none = err (integrity_error digest_mismatch)
  digest_agrees (some text) (some digest) =
      raise_if (not (digest == result_digest_from_text text)) (integrity_error digest_mismatch)

  -- `_validate_node`
  unfoldable pub validate_node : Node → Result (Unit {0})
  validate_node node = do
    expected ← expected_id node
    raise_if (not (node.id == expected)) (integrity_error id_mismatch)
    digest_agrees node.result_text node.result_digest

  abbrev pub seal_entry : ℕ → Node → String → String → SealEntry
  seal_entry index node previous current = record {
    index = index;
    node_id = node.id;
    parent_id = node.parent;
    kind = node.kind;
    result_digest = node.result_digest;
    previous = or_none previous;
    seal = current;
  }

  -- The loop over the nodes, with the last seal and the entries from `index` on.
  unfoldable pub seal_nodes : ℕ → String → List Node → Result (String × List SealEntry)
  unfolding validate_node
  seal_nodes index previous [] = ok (previous, [])
  seal_nodes index previous (node ∷ nodes) = do
    validate_node node
    bytes ← canonical_bytes (seal_record index node previous)
    let current = h.hexdigest (seal_domain ++ bytes)
    (digest, entries) ← seal_nodes (suc index) current nodes
    ok (digest, seal_entry index node previous current ∷ entries)

  abbrev pub sealed : String → String × List SealEntry → SealReport
  sealed root_id (digest, entries) = record {
    root_id = root_id;
    digest = digest;
    entries = entries;
  }

  abbrev pub seal_walk : String → Option (Result (List Node)) → Option (Result SealReport)
  seal_walk root_id none = none
  seal_walk root_id (some (err e)) = some (err e)
  seal_walk root_id (some (ok nodes)) =
      some (do rolled ← seal_nodes 0 "" nodes; ok (sealed root_id rolled))

  -- `seal`, with the fuel of the traversal. The traversal is lazy in the source: an error of a node may
  -- come before one of the traversal.
  unfoldable pub seal_of : ℕ → MemoryStore → String → Option (Result SealReport)
  seal_of fuel s root_id = seal_walk root_id (walk_loop fuel s (root_id ∷ []))
