-- ===== src/Verify.antt =====
-- src/pollard/verify.py: integrity of a node and its ancestors.
pub mod Chain
pub mod Total
pub mod Stored
use pollard.Common.{
  ℕ, zero, suc, String, Bool, true, false, not, List, [], ◌∷◌, ◌++◌, Option, none, some, ◌==◌,
  string_eq, length, if◌then◌else◌,
}
use pollard.Common.Dict.{lookup}
use pollard.Errors.{Result, ok, err, ◌>>=◌}
use pollard.Json.Text.{Text}
use pollard.Hashing.{Sha256, result_digest_from_text}
use pollard.Tree.{Node, expected_id}
use pollard.Store.{MemoryStore, get, member}

pub data Message : Type 0 where
  cycle missing wrong_id wrong_digest : Message

-- A finding: the node, and what is wrong with it. A report is its findings: it is ok when there
-- are none.
abbrev pub Finding : Type 0
Finding = String × Message

abbrev pub report_ok : List Finding → Bool
report_ok [] = true
report_ok (f ∷ fs) = false

module _ ⦃h : Sha256⦄ where
  -- A payload that cannot be serialized, which no node holds, would raise; here no id matches it.
  abbrev pub id_matches : String → Result String → Bool
  id_matches id (ok expected) = id == expected
  id_matches id (err e) = false

  abbrev pub digest_matches : Option String → Option Text → Bool
  digest_matches digest none = true
  digest_matches none (some text) = false
  digest_matches (some d) (some text) = d == result_digest_from_text text

  unfoldable pub node_findings : Node → List Finding
  node_findings n =
      (if id_matches n.id (expected_id n) then [] else (n.id, wrong_id) ∷ [])
      ++ (if digest_matches n.result_digest n.result_text then [] else (n.id, wrong_digest) ∷ [])

  -- The loop over `current_id`; `seen` holds the ids so far. `none` says that the fuel ran out.
  unfoldable pub verify_loop : ℕ → MemoryStore → List String → Option String → Option (List Finding)
  unfolding get
  verify_loop fuel s seen none = some []
  verify_loop zero s seen (some id) = none
  verify_loop (suc fuel) s seen (some id) = elim (member id seen) [
    | true ↦ some ((id, cycle) ∷ [])
    | false ↦ elim (get s id) [
      | err e ↦ some ((id, missing) ∷ [])
      | ok node ↦ elim (verify_loop fuel s (id ∷ seen) node.parent) [
        | none ↦ none
        | some rest ↦ some (node_findings node ++ rest)
      ]
    ]
  ]

  -- Each round but the last sees one more row, so this fuel is enough.
  unfoldable pub verify : MemoryStore → String → Option (List Finding)
  unfolding verify_loop
  verify s id = verify_loop (suc (length s.nodes)) s [] (some id)

  -- `verify(store, id).ok`
  unfoldable pub verify_ok : MemoryStore → String → Bool
  verify_ok s id = elim (verify s id) [ none ↦ false | some fs ↦ report_ok fs ]
