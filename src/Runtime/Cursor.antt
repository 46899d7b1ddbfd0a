-- ===== src/Runtime/Cursor.antt =====
-- The cursor of a run in src/pollard/runtime.py: its depth, rolling it back, the subtree that a
-- delegated agent may work in, and the leaf that a resumed run starts from.
pub mod Lineage
pub mod Rollback
pub mod Target
use pollard.Common.{
  ℕ, zero, suc, String, Bool, true, false, not, ◌&&◌, ◌||◌, List, [], ◌∷◌, Option, none, some, ◌==◌,
  string_eq, nat_eq, ltb, length, if◌then◌else◌,
}
use pollard.Errors.{
  Result, ok, err, does_not_end, integrity_error, crosses_delegation, outside_subtree, value_error,
  raise_if, ◌>>=◌, ◌>>◌,
}
use pollard.Json.{Json, null, bool, obj, Fields, get_field}
use pollard.Json.Text.{str_before}
use pollard.Json.Equality.{json_eq}
use pollard.Tree.{Node}
use pollard.Store.{MemoryStore, get, children, member}
use pollard.Store.Tour.{walk}

-- The loop of `_depth` from a parent; the fuel is one round for each row, and one.
unfoldable pub depth_loop : ℕ → MemoryStore → ℕ → Option String → Result ℕ
depth_loop fuel s depth none = ok depth
depth_loop zero s depth (some id) = err does_not_end
depth_loop (suc fuel) s depth (some id) = do n ← get s id; depth_loop fuel s (suc depth) n.parent

-- `_depth`
unfoldable pub depth : MemoryStore → String → Result ℕ
unfolding depth_loop
depth s id = do n ← get s id; depth_loop (length s.nodes) s 0 n.parent

-- What `_validate_agent_cursor` reads: the anchor and the identity of a delegated agent, and what its
-- team checks.
pub record Delegation : Type 0 where
  pub anchor_id : Option String
  pub identity : Option Json
  pub team_validator : MemoryStore → Result (Unit {0})

abbrev pub is_none_or_null : Option Json → Bool
is_none_or_null none = true
is_none_or_null (some null) = true
is_none_or_null (some _) = false

-- `event.get("identity") != expected`
abbrev pub other_identity : Option Json → Option Json → Bool
other_identity found none = not (is_none_or_null found)
other_identity none (some expected) = not (json_eq null expected)
other_identity (some j) (some expected) = not (json_eq j expected)

abbrev pub other_event : Option Json → Json → Bool
other_event expected (obj event) = other_identity (get_field "identity" event) expected
other_event expected _ = true

-- Does this node of the chain start a delegation other than the agent's own?
unfoldable pub crosses : String → Option Json → String → Fields → Bool
crosses anchor expected current payload = elim (get_field "_pollard" payload) [
  | some (obj wrapper) ↦ elim (get_field "team_agent" wrapper) [
    | some event ↦ not (current == anchor) || other_event expected event
    | none ↦ false
  ]
  | _ ↦ false
]

-- The loop from the cursor up to the anchor; the fuel is one round for each row, and one.
unfoldable pub agent_loop :
    ℕ → MemoryStore → String → Option Json → List String → Option String → Result (Unit {0})
unfolding crosses
agent_loop fuel s anchor expected seen none = err (integrity_error outside_subtree)
agent_loop zero s anchor expected seen (some id) = err does_not_end
agent_loop (suc fuel) s anchor expected seen (some id) = elim (member id seen) [
  | true ↦ err (integrity_error outside_subtree)
  | false ↦ do
    n ← get s id
    raise_if (crosses anchor expected id n.payload) (integrity_error crosses_delegation)
    elim (id == anchor) [
      | true ↦ ok tt
      | false ↦ agent_loop fuel s anchor expected (id ∷ seen) n.parent
    ]
]

-- `_validate_agent_cursor`
unfoldable pub validate_agent_cursor : Delegation → MemoryStore → String → Result (Unit {0})
unfolding agent_loop
validate_agent_cursor d s cursor = do
  d.team_validator s
  elim d.anchor_id [
    | none ↦ ok tt
    | some anchor ↦ agent_loop (suc (length s.nodes)) s anchor d.identity [] (some cursor)
  ]

abbrev pub is_anchor : Option String → String → Bool
is_anchor none id = false
is_anchor (some anchor) id = id == anchor

-- The loop of `_ensure_ancestor`: up from the cursor, and no further than the anchor.
unfoldable pub ancestor_loop :
    ℕ → MemoryStore → Option String → String → Option String → Result (Unit {0})
ancestor_loop fuel s anchor target none = err value_error
ancestor_loop zero s anchor target (some id) = err does_not_end
ancestor_loop (suc fuel) s anchor target (some id) = elim (id == target) [
  | true ↦ ok tt
  | false ↦ elim (is_anchor anchor id) [
    | true ↦ err value_error
    | false ↦ do n ← get s id; ancestor_loop fuel s anchor target n.parent
  ]
]

-- `_ensure_ancestor`
unfoldable pub ensure_ancestor : Delegation → MemoryStore → String → String → Result (Unit {0})
unfolding ancestor_loop validate_agent_cursor
ensure_ancestor d s cursor target = do
  validate_agent_cursor d s cursor
  ancestor_loop (suc (length s.nodes)) s d.anchor_id target (some cursor)

-- The loop of `rollback` over the steps, which a root stops.
unfoldable pub step_back : ℕ → MemoryStore → String → Result String
step_back zero s target = ok target
step_back (suc steps) s target = do
  n ← get s target
  elim n.parent [ none ↦ ok target | some p ↦ step_back steps s p ]

abbrev pub rollback_target : MemoryStore → String → Option String → ℕ → Result String
rollback_target s cursor (some id) steps = ok id
rollback_target s cursor none steps = step_back steps s cursor

-- `rollback`: the new cursor.
unfoldable pub rollback : Delegation → MemoryStore → String → Option String → ℕ → Result String
unfolding ensure_ancestor step_back
rollback d s cursor id steps = do
  target ← rollback_target s cursor id steps
  ensure_ancestor d s cursor target
  ok target

-- `node.meta.get("pruned") is True`
abbrev pub is_pruned : Node → Bool
is_pruned n = elim (get_field "pruned" n.meta) [ some (bool b) ↦ b | _ ↦ false ]

-- Is a child that is not pruned among these?
unfoldable pub has_child : MemoryStore → List String → Result Bool
has_child s [] = ok false
has_child s (id ∷ ids) = do n ← get s id; rest ← has_child s ids; ok (not (is_pruned n) || rest)

abbrev pub better : ℕ → String → ℕ → String → Bool
better depth id best_depth best_id =
    ltb best_depth depth || (depth == best_depth && str_before id best_id)

-- The loop over the tree: the best leaf so far, and its depth.
unfoldable pub leaf_loop : MemoryStore → List Node → String → ℕ → Result String
unfolding depth has_child
leaf_loop s [] best_id best_depth = ok best_id
leaf_loop s (n ∷ nodes) best_id best_depth = elim (is_pruned n) [
  | true ↦ leaf_loop s nodes best_id best_depth
  | false ↦ do
    ids ← children s n.id
    inner ← has_child s ids
    elim inner [
      | true ↦ leaf_loop s nodes best_id best_depth
      | false ↦ do
        node_depth ← depth s n.id
        elim (better node_depth n.id best_depth best_id) [
          | true ↦ leaf_loop s nodes n.id node_depth
          | false ↦ leaf_loop s nodes best_id best_depth
        ]
    ]
]

-- `_deepest_non_pruned_leaf`
unfoldable pub deepest_non_pruned_leaf : MemoryStore → String → Result String
unfolding leaf_loop walk
deepest_non_pruned_leaf s root_id = do nodes ← walk s root_id; leaf_loop s nodes root_id 0
