-- ===== src/Tests.antt =====
-- Data for the examples: a small checksum in the place of SHA-256, and a tree of three nodes.
pub mod Store
pub mod Verify
pub mod Transactional
pub mod Replay
pub mod Merge
pub mod Seal
pub mod Governor
pub mod Scopes
pub mod Arbiter
pub mod Runtime
use Prim.Native.String as Native
use pollard.Common.{
  ℕ, zero, suc, ◌+◌, ◌*◌, ◌/◌, ◌%◌, String, ◌≡◌, refl, List, [], ◌∷◌, Option, none, some, ◌==◌,
  nat_eq, if◌then◌else◌,
}
use pollard.Common.Int.{pos}
use pollard.Errors.{Result, ok, err, value_error}
use pollard.Json.{Json, null, int, str, obj, Fields, field, end}
use pollard.Json.Text.{Text, codes}
use pollard.Hashing.{Sha256}
use pollard.Common.{true}
use pollard.Tree.{is_hex64, NodeKind, root, model_call, tool_call, Node, make}

abbrev checksum : ℕ → Text → ℕ
checksum acc [] = acc
checksum acc (c ∷ cs) = checksum ((acc * 33 + c) % 18446744073709551616) cs

abbrev bits : ℕ → ℕ → String
bits zero n = ""
bits (suc f) n = Native.◌++◌ (bits f (n / 2)) (if n % 2 == 0 then "0" else "1")

instance abbrev pub checksum_sha : Sha256
checksum_sha = record { hexdigest = λ text. bits 64 (checksum 5381 text) }

abbrev pub goal : Fields
goal = field "goal" (str "count") end

abbrev pub prompt : Fields
prompt = field "prompt" (str "two") end

abbrev pub root_node : Node
root_node = record {
  id = "1101111001100000001110110100001011001100010000100001111101100001";
  parent = none;
  kind = root;
  attempt = 0;
  payload = goal;
  result = null;
  result_digest = none;
  meta = end;
  result_text = none;
}

abbrev pub call_node : Node
call_node = record {
  id = "1100001011011100011000001011001001000101101010110010011111110110";
  parent = some root_node.id;
  kind = model_call;
  attempt = 0;
  payload = prompt;
  result = int (pos 2);
  result_digest = some "1001101001011011010111111111011101110011010010000010000011111110";
  meta = end;
  result_text = some (codes "2");
}

-- The same call with another result.
abbrev pub other_call : Node
other_call = record {
  id = "1100001011011100011000001011001001000101101010110010011111110110";
  parent = some root_node.id;
  kind = model_call;
  attempt = 0;
  payload = prompt;
  result = int (pos 3);
  result_digest = some "1001101001011011010111111111011101110011010010000010000011111111";
  meta = end;
  result_text = some (codes "3");
}

abbrev pub tool_node : Node
tool_node = record {
  id = "0101010110000011100010111110100011110100110100101000001010100110";
  parent = some call_node.id;
  kind = tool_call;
  attempt = 0;
  payload = prompt;
  result = null;
  result_digest = none;
  meta = end;
  result_text = none;
}

root_made : make root none goal 0 null end ≡ ok root_node
unfolding make pollard.Hashing.node_id pollard.Json.Canonical.canonical_bytes
    pollard.Json.Canonical.validate_identity_value pollard.Tree.is_hex64 pollard.Json.Text.dumps
root_made = refl

pub call_made : make model_call (some root_node.id) prompt 0 (int (pos 2)) end ≡ ok call_node
unfolding make pollard.Hashing.node_id pollard.Json.Canonical.canonical_bytes
    pollard.Json.Canonical.validate_identity_value pollard.Tree.is_hex64 pollard.Json.Text.dumps
    pollard.Hashing.result_text_and_digest
call_made = refl

other_made : make model_call (some root_node.id) prompt 0 (int (pos 3)) end ≡ ok other_call
unfolding make pollard.Hashing.node_id pollard.Json.Canonical.canonical_bytes
    pollard.Json.Canonical.validate_identity_value pollard.Tree.is_hex64 pollard.Json.Text.dumps
    pollard.Hashing.result_text_and_digest
other_made = refl

tool_made : make tool_call (some call_node.id) prompt 0 null end ≡ ok tool_node
unfolding make pollard.Hashing.node_id pollard.Json.Canonical.canonical_bytes
    pollard.Json.Canonical.validate_identity_value pollard.Tree.is_hex64 pollard.Json.Text.dumps
tool_made = refl

-- A call without a parent is refused.
orphan_refused : make model_call none prompt 0 null end ≡ err value_error
unfolding make pollard.Hashing.node_id pollard.Json.Canonical.canonical_bytes
    pollard.Json.Canonical.validate_identity_value pollard.Tree.is_hex64 pollard.Json.Text.dumps
orphan_refused = refl

-- The test for 64 hexadecimal digits lets a newline pass behind them.
newline_accepted : is_hex64 (Native.◌++◌ root_node.id "\n") ≡ true
unfolding is_hex64
newline_accepted = refl
