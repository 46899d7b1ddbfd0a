-- ===== src/Merge.antt =====
-- src/pollard/merge.py: the union of two stores, with the plan in memory. The plan is the list of incoming
-- nodes; the plan that is spooled to disk is another representation of it.
pub mod Writes
use pollard.Common.{
  ℕ, zero, suc, ◌+◌, ◌-◌, String, Bool, true, false, not, ◌&&◌, ◌||◌, List, [], ◌∷◌, ◌++◌, Option,
  none, some, ◌==◌, string_eq, is_some, if◌then◌else◌, ltb, length, map,
}
use pollard.Common.Dict.{Dict, lookup, insert, values}
use pollard.Common.Sort.{sorted}
use Prim.Native.String as Native
use pollard.Errors.{
  Error, Result, ok, err, integrity_error, id_collision, result_collision, raise_if, ◌>>=◌, ◌>>◌,
}
use pollard.Json.{
  Json, null, str, arr, obj, Items, nil, cons, Fields, end, field, get_field, set_field,
  append_item,
}
use pollard.Json.Text.{Text, dumps, str_before, text_before}
use pollard.Json.Equality.{json_eq, text_beq}
use pollard.Hashing.{Sha256}
use pollard.Tree.{Node}
use pollard.Store.{
  MemoryStore, exists, get, put, update_meta, same_identity, optional_text_eq, conflict_entry,
  validate_for_put, member,
}

-- `_list_value`
abbrev pub list_value : Option Json → Items
list_value (some (arr xs)) = xs
list_value _ = nil

-- `values[_json_key(value)] = value`: the key of a value is its text.
abbrev pub put_value : Json → List (Text × Json) → List (Text × Json)
put_value v [] = (dumps v, v) ∷ []
put_value v ((t, w) ∷ rest) =
    if text_beq t (dumps v) then (t, v) ∷ rest else (t, w) ∷ put_value v rest

abbrev pub put_items : Items → List (Text × Json) → List (Text × Json)
put_items nil values = values
put_items (cons x xs) values = put_items xs (put_value x values)

abbrev pub text_key_before : Text × Json → Text × Json → Bool
text_key_before a b = text_before a.0 b.0

abbrev pub items_of_values : List (Text × Json) → Items
items_of_values [] = nil
items_of_values ((t, v) ∷ rest) = cons v (items_of_values rest)

-- `_union_json_lists`
unfoldable pub union_json_lists : Items → Items → Items
union_json_lists first second =
    items_of_values (sorted text_key_before (put_items second (put_items first [])))

abbrev pub count_items : Items → ℕ
count_items nil = 0
count_items (cons x xs) = suc (count_items xs)

abbrev pub append_items : Items → Items → Items
append_items nil ys = ys
append_items (cons x xs) ys = cons x (append_items xs ys)

-- `f"{path}.{key}"`
abbrev pub dotted : String → String → String
dotted path key = Native.◌++◌ path (Native.◌++◌ "." key)

-- Two values that are neither equal, two objects nor two lists.
abbrev pub value_conflict : Json → Json → String → Json × Items
value_conflict existing incoming path = (
  existing,
  cons
      (obj (
        field "path" (str path)
          (field "values" (arr (union_json_lists (cons existing nil) (cons incoming nil))) end)))
      nil,
)

-- `sorted(incoming)` of a dictionary, as its entries.
abbrev pub entry_before : String × Json → String × Json → Bool
entry_before a b = str_before a.0 b.0

abbrev pub entries_of : Fields → List (String × Json)
entries_of end = []
entries_of (field k v fs) = (k, v) ∷ entries_of fs

abbrev pub fields_of : List (String × Json) → Fields
fields_of [] = end
fields_of ((k, v) ∷ rest) = field k v (fields_of rest)

abbrev pub sorted_fields : Fields → Fields
sorted_fields fs = fields_of (sorted entry_before (entries_of fs))

-- What merging one entry of a dictionary gives: its key, the value and the conflicts found.
abbrev pub Outcome : Type 0
Outcome = String × (Json × Items)

abbrev pub outcome_before : Outcome → Outcome → Bool
outcome_before a b = str_before a.0 b.0

-- `merged[key] = value` and `conflicts.extend(found)`, for each entry in turn.
abbrev pub apply_outcomes : List Outcome → Fields → Items → Fields × Items
apply_outcomes [] merged conflicts = (merged, conflicts)
apply_outcomes ((key, (value, found)) ∷ rest) merged conflicts =
    apply_outcomes rest (set_field key value merged) (append_items conflicts found)

abbrev pub object_of : Fields × Items → Json × Items
object_of (merged, conflicts) = (obj merged, conflicts)

-- `_merge_meta_value`. The keys of a dictionary are distinct, so an entry is merged with what the
-- existing dictionary holds for its key, and the outcomes are applied in the order of the keys.
unfoldable mutual
  pub merge_value : Json → Json → String → Json × Items
  merge_value (obj es) (obj fs) path =
      let merged =
        object_of (apply_outcomes (sorted outcome_before (merge_fields_at es fs path)) es nil) in
      if json_eq (obj es) (obj fs) then (obj es, nil) else merged
  merge_value (arr xs) (arr ys) path =
      if json_eq (arr xs) (arr ys) then (arr xs, nil) else (arr (union_json_lists xs ys), nil)
  merge_value existing incoming path =
      if json_eq existing incoming then (existing, nil) else value_conflict existing incoming path

  pub merge_fields_at : Fields → Fields → String → List Outcome
  merge_fields_at es end path = []
  merge_fields_at es (field k v fs) path =
      let rest = merge_fields_at es fs path in
      (k, elim (get_field k es) [ none ↦ (v, nil) | some w ↦ merge_value w v (dotted path k) ])
      ∷ rest

-- The outcomes of the entries of the incoming metadata, but for the conflicts that it records.
abbrev pub meta_outcomes : Fields → Fields → List Outcome
meta_outcomes es end = []
meta_outcomes es (field k v fs) =
    let rest = meta_outcomes es fs in
    if k == "merge_conflicts"
    then rest
    else (k, elim (get_field k es) [ none ↦ (v, nil) | some w ↦ merge_value w v k ]) ∷ rest

abbrev pub record_conflicts : Items → Fields → Fields
record_conflicts nil merged = merged
record_conflicts (cons x xs) merged = set_field "merge_conflicts" (arr (cons x xs)) merged

-- `_merge_meta`: the merged metadata, and how many conflicts are new.
unfoldable pub merge_meta : Fields → Fields → Fields × ℕ
merge_meta existing incoming =
    let recorded =
      union_json_lists (list_value (get_field "merge_conflicts" existing))
        (list_value (get_field "merge_conflicts" incoming)) in
    let (merged, conflicts) =
      apply_outcomes (sorted outcome_before (meta_outcomes existing incoming)) existing nil in
    let updated = union_json_lists recorded conflicts in
    (record_conflicts updated merged, count_items updated - count_items recorded)

pub record MergeReport : Type 0 where
  pub copied : ℕ
  pub existing : ℕ
  pub result_conflicts : ℕ
  pub meta_conflicts : ℕ

abbrev pub result_differs : Node → Node → Bool
result_differs old incoming =
    is_some incoming.result_text && not (optional_text_eq incoming.result_text old.result_text)

-- The first loop: what is merged into an existing node must be the same node, and when merging a replay
-- the same result.
abbrev pub check_existing : Bool → Option Node → Node → Result (Unit {0})
check_existing replay none incoming = ok tt
check_existing replay (some old) incoming = do
  raise_if (not (same_identity old incoming)) (integrity_error id_collision)
  raise_if (replay && result_differs old incoming) (integrity_error result_collision)

unfoldable pub check_nodes : Bool → MemoryStore → List Node → Result (Unit {0})
check_nodes replay dst [] = ok tt
check_nodes replay dst (n ∷ nodes) =
    check_existing replay (lookup n.id dst.nodes) n >> check_nodes replay dst nodes

-- The metadata of an existing node with that of the incoming one, and the numbers of new conflicts of
-- results and of metadata.
abbrev pub with_result_conflict : Bool → Node → Fields → Fields × ℕ
with_result_conflict false incoming merged = (merged, 0)
with_result_conflict true incoming merged =
    let old = list_value (get_field "result_conflicts" merged) in
    let all = union_json_lists old (cons (conflict_entry incoming) nil) in
    (
      set_field "result_conflicts" (arr all) merged,
      if ltb (count_items old) (count_items all) then 1 else 0,
    )

abbrev pub merged_existing : Node → Node → Fields × (ℕ × ℕ)
merged_existing old incoming =
    let (merged, meta_new) = merge_meta old.meta incoming.meta in
    let (meta, result_new) = with_result_conflict (result_differs old incoming) incoming merged in
    (meta, (result_new, meta_new))

abbrev pub count_copied : MergeReport → MergeReport
count_copied r = record r { copied = r.copied + 1 }

abbrev pub count_existing : ℕ × ℕ → MergeReport → MergeReport
count_existing (result_new, meta_new) r = record r {
  existing = r.existing + 1;
  result_conflicts = r.result_conflicts + result_new;
  meta_conflicts = r.meta_conflicts + meta_new;
}

module _ ⦃h : Sha256⦄ where
  -- One round of the second loop: the store that it leaves, and its counts.
  unfoldable pub merge_round : Option Node → Node → MemoryStore → Result MemoryStore
  merge_round none incoming dst = put incoming dst
  merge_round (some old) incoming dst =
      let (meta, counts) = merged_existing old incoming in
      if json_eq (obj meta) (obj old.meta) then ok dst else update_meta old.id meta dst

  abbrev pub counted : Option Node → Node → MergeReport → MergeReport
  counted none incoming r = count_copied r
  counted (some old) incoming r =
      let (meta, counts) = merged_existing old incoming in count_existing counts r

  -- What was written before an error stays written.
  abbrev pub go_on :
      Result MemoryStore
      → MemoryStore
      → (MemoryStore → MemoryStore × Result MergeReport)
      → MemoryStore × Result MergeReport
  go_on (err e) dst next = (dst, err e)
  go_on (ok dst') dst next = next dst'

  -- The second loop: the store afterwards, and the report or the error.
  unfoldable pub merge_nodes :
      MergeReport → MemoryStore → List Node → MemoryStore × Result MergeReport
  unfolding merge_round
  merge_nodes r dst [] = (dst, ok r)
  merge_nodes r dst (n ∷ nodes) =
      let old = lookup n.id dst.nodes in
      go_on (merge_round old n dst) dst (λ dst'. merge_nodes (counted old n r) dst' nodes)

  abbrev pub no_counts : MergeReport
  no_counts = record { copied = 0; existing = 0; result_conflicts = 0; meta_conflicts = 0 }

  abbrev pub merge_checked :
      Result (Unit {0}) → MemoryStore → List Node → MemoryStore × Result MergeReport
  merge_checked (err e) dst nodes = (dst, err e)
  merge_checked (ok _) dst nodes = merge_nodes no_counts dst nodes

  -- `_merge_prepared`
  unfoldable pub merge_prepared : Bool → MemoryStore → List Node → MemoryStore × Result MergeReport
  merge_prepared replay dst nodes = merge_checked (check_nodes replay dst nodes) dst nodes
