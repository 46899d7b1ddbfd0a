-- ===== src/Store.antt =====
-- src/pollard/store.py: the append-only store in memory. An operation that raises has not written
-- yet, so it returns no store. Results and metadata are values, so copying them does nothing.
pub mod Rows
pub mod Table
pub mod Drop
pub mod Valid
pub mod Append
pub mod Order
pub mod Children
pub mod Put
pub mod Walk
pub mod Tour
use pollard.Common.{
  ℕ, zero, suc, String, Bool, true, false, not, ◌&&◌, ◌||◌, List, [], ◌∷◌, ◌++◌, Option, none, some,
  ◌==◌, is_some, string_eq, nat_eq, if◌then◌else◌, Eq, map,
}
use pollard.Common.Dict.{Dict, lookup, contains, insert, filter_keys}
use pollard.Common.Sort.{sorted}
use Prim.Native.String as Native
use pollard.Errors.{
  Error, Result, ok, err, key_error, type_error, integrity_error, id_mismatch, digest_missing,
  digest_mismatch, root_with_parent, id_collision, raise_if, ◌>>=◌, ◌>>◌,
}
use pollard.Json.{
  Json, null, bool, int, float, str, arr, obj, Items, nil, cons, Fields, end, field, get_field,
  set_field, merge_fields, append_item,
}
use pollard.Json.Text.{Text, codes, str_before}
use pollard.Json.Equality.{json_eq, text_beq}
use pollard.Hashing.{Sha256, result_digest_from_text}
use pollard.Tree.{Node, NodeKind, kind_text, expected_id}

pub record MemoryStore : Type 0 where
  pub nodes : Dict String Node
  pub child_ids : Dict String (List String)

abbrev pub empty : MemoryStore
empty = record { nodes = []; child_ids = [] }

-- `==` on optional strings and texts
abbrev pub optional_eq : Option String → Option String → Bool
optional_eq none none = true
optional_eq (some a) (some b) = a == b
optional_eq _ _ = false

abbrev pub optional_text_eq : Option Text → Option Text → Bool
optional_text_eq none none = true
optional_text_eq (some a) (some b) = text_beq a b
optional_text_eq _ _ = false

abbrev pub is_root : NodeKind → Bool
is_root NodeKind.root = true
is_root _ = false

-- `a.identity_tuple() == b.identity_tuple()`
unfoldable pub same_identity : Node → Node → Bool
same_identity a b =
    optional_eq a.parent b.parent
    && (kind_text a.kind == kind_text b.kind)
    && (a.attempt == b.attempt)
    && json_eq (obj a.payload) (obj b.payload)

-- The items of `list(value)`: a string gives its characters, a dictionary its keys, and a value that
-- is neither these nor a list is a type error.
abbrev pub char_items : String → Items
char_items Native.[] = nil
char_items (Native.◌∷◌ c s) = cons (str (Native.◌∷◌ c Native.[])) (char_items s)

abbrev pub key_items : Fields → Items
key_items end = nil
key_items (field k v fs) = cons (str k) (key_items fs)

module _ ⦃h : Sha256⦄ where
  -- `_validate_for_put`
  unfoldable pub digest_check : Option Text → Option String → Result (Unit {0})
  digest_check none digest = ok tt
  digest_check (some text) none = err (integrity_error digest_missing)
  digest_check (some text) (some digest) =
      raise_if (not (digest == result_digest_from_text text)) (integrity_error digest_mismatch)

  unfoldable pub validate_for_put : Node → Result (Unit {0})
  unfolding digest_check
  validate_for_put node = do
    expected ← expected_id node
    raise_if (not (node.id == expected)) (integrity_error id_mismatch)
    digest_check node.result_text node.result_digest
    raise_if (is_root node.kind && is_some node.parent) (integrity_error root_with_parent)

-- `list(existing.meta.get("result_conflicts", []))`
abbrev pub conflict_items : Option Json → Result Items
conflict_items none = ok nil
conflict_items (some (arr xs)) = ok xs
conflict_items (some (obj fs)) = ok (key_items fs)
conflict_items (some (str t)) = ok (char_items t)
conflict_items (some _) = err type_error

abbrev pub optional_str : Option String → Json
optional_str none = null
optional_str (some s) = str s

abbrev pub conflict_entry : Node → Json
conflict_entry node =
    obj (field "result_digest" (optional_str node.result_digest) (field "result" node.result end))

-- The first result stays, and the new one is recorded as a conflict.
unfoldable pub note_conflict : Node → Node → MemoryStore → Result MemoryStore
note_conflict existing incoming s = do
  conflicts ← conflict_items (get_field "result_conflicts" existing.meta)
  ok (record s {
    nodes =
        insert existing.id
          (record existing {
            meta =
                set_field "result_conflicts" (arr (append_item conflicts (conflict_entry incoming)))
                  existing.meta;
          })
          s.nodes;
  })

-- `_handle_existing`
unfoldable pub handle_existing : Node → Node → MemoryStore → Result MemoryStore
handle_existing existing incoming s =
    if not (same_identity existing incoming)
    then err (integrity_error id_collision)
    else if not (is_some incoming.result_text)
        || optional_text_eq incoming.result_text existing.result_text
    then ok s
    else note_conflict existing incoming s

abbrev pub add_once : String → List String → List String
add_once x [] = x ∷ []
add_once x (y ∷ ys) = if y == x then y ∷ ys else y ∷ add_once x ys

abbrev pub children_of : String → MemoryStore → List String
children_of id s = elim (lookup id s.child_ids) [ none ↦ [] | some ids ↦ ids ]

-- `self._children.setdefault(parent, set()).add(id)`
abbrev pub add_child : Option String → String → MemoryStore → MemoryStore
add_child none id s = s
add_child (some p) id s = record s {
  child_ids = insert p (add_once id (children_of p s)) s.child_ids;
}

-- The key error for a parent that is not stored.
abbrev pub parent_check : Option String → Dict String Node → Result (Unit {0})
parent_check none nodes = ok tt
parent_check (some p) nodes = raise_if (not (contains p nodes)) (key_error p)

abbrev pub store_new : Node → MemoryStore → MemoryStore
store_new node s = add_child node.parent node.id (record s { nodes = insert node.id node s.nodes })

abbrev pub put_at : Option Node → Node → MemoryStore → Result MemoryStore
put_at none node s = ok (store_new node s)
put_at (some existing) node s = handle_existing existing node s

module _ ⦃h : Sha256⦄ where
  unfoldable pub put : Node → MemoryStore → Result MemoryStore
  put node s = do
    validate_for_put node
    parent_check node.parent s.nodes
    put_at (lookup node.id s.nodes) node s

-- `d[id]`
abbrev pub or_key_error : String → Option Node → Result Node
or_key_error id none = err (key_error id)
or_key_error id (some n) = ok n

unfoldable pub exists : MemoryStore → String → Bool
exists s id = contains id s.nodes

-- The sort key `(kind, id)` of each child; a child that is not stored is a key error.
unfoldable pub child_keys : Dict String Node → List String → Result (List (String × String))
child_keys nodes [] = ok []
child_keys nodes (id ∷ ids) = do
  n ← or_key_error id (lookup id nodes)
  rest ← child_keys nodes ids
  ok ((kind_text n.kind, id) ∷ rest)

abbrev pub pair_before : String × String → String × String → Bool
pair_before p q =
    if str_before p.0 q.0 then true else if str_before q.0 p.0 then false else str_before p.1 q.1

unfoldable pub children : MemoryStore → String → Result (List String)
unfolding child_keys
children s id = do
  ks ← child_keys s.nodes (children_of id s)
  ok (map (λ (k : String × String). k.1) (sorted pair_before ks))

unfoldable pub get : MemoryStore → String → Result Node
get s id = or_key_error id (lookup id s.nodes)

-- Metadata may be changed; identity and results may not.
unfoldable pub update_meta : String → Fields → MemoryStore → Result MemoryStore
unfolding get
update_meta id patch s = do
  n ← get s id
  ok (record s { nodes = insert id (record n { meta = merge_fields n.meta patch }) s.nodes })

-- `walk`: the loop over the stack `pending`, whose top is the head of the list here. `none` says
-- that the fuel ran out.
unfoldable pub walk_loop : ℕ → MemoryStore → List String → Option (Result (List Node))
unfolding get children
walk_loop zero s pending = none
walk_loop (suc fuel) s [] = some (ok [])
walk_loop (suc fuel) s (id ∷ pending) = elim (get s id) [
  | err e ↦ some (err e)
  | ok node ↦ elim (children s id) [
    | err e ↦ some (err e)
    | ok ids ↦ elim (walk_loop fuel s (ids ++ pending)) [
      | none ↦ none
      | some (err e) ↦ some (err e)
      | some (ok nodes) ↦ some (ok (node ∷ nodes))
    ]
  ]
]

abbrev pub rebuild_children : Dict String Node → MemoryStore → MemoryStore
rebuild_children [] s = s
rebuild_children ((id, n) ∷ nodes) s = rebuild_children nodes (add_child n.parent n.id s)

abbrev pub member : String → List String → Bool
member x [] = false
member x (y ∷ ys) = y == x || member x ys

-- `_pollard_drop_nodes`
unfoldable pub drop_nodes : List String → MemoryStore → MemoryStore
drop_nodes ids s =
    let kept = filter_keys (λ id. not (member id ids)) s.nodes in
    rebuild_children kept (record { nodes = kept; child_ids = [] })
